-- ===== src/Collector/Pool/Tests.antt =====
-- A small pool and a kernel that serves it.
mod Packed
mod KstatFile
mod Refused
mod Kernel
mod Scrape
mod NoVdev
