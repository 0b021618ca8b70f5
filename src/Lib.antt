-- ===== src/Lib.antt =====
-- Prometheus exporter for ZFS: the readers of the kernel's answers, the ioctl handle, and the
-- collector that turns what they read into metrics.
--
-- The program (main.go) asks the kernel for the pools through zfs/ioctl, reads the name-value
-- lists in the answers with zfs/nvlist, reads the dataset statistics from /proc with
-- zfs/kstat, and exports one Prometheus sample for each number.
--
-- Nvlist models zfs/nvlist/decode.go and consts.go: Reader is NVListReader with its cursor and
-- the primitive reads, Next is Next, Access the value accessors, Skip is Skip, Types/Names the
-- names of the types, and Unmarshal is Unmarshal into a map[string]any.
-- Nvlist/Unmarshal/Reflect is Unmarshal into any variable, over Nvlist/Unmarshal/Target, which
-- says of Go's reflection what the code uses: variables with their types, fields by name, and
-- what can be set. Nvlist/Format describes native-encoded lists independently of the reader,
-- as lists within lists, and is what the reader is compared with. Kstat models
-- zfs/kstat/decode.go. Ioctl models zfs/ioctl: State and VdevStats are util.go, Cmd is the
-- command block, Handle is the retry loop of Ioctl over a kernel that writes into the caller's
-- buffer and cannot change its length (Retry on one that asks for more within a limit, Serve
-- on one whose answers fit, Starved on one without memory), Device is NewZFSHandle.
-- Nvlist/Unmarshal/Encoded says which list stands for which map.
-- Collector/Props/Values/Encoded and Listed do the same for a property list,
-- Kstat/Reader/Format and Collector/Props/Stats/Rows for the rows of a kstat file,
-- Kstat/Reader/Header and Collector/Props/Stats/File for a whole one, Collector/Vdev/Encoded
-- and Parse for the vdev tree, with FirstList for the arrays that parseVdevs has no use for,
-- Collector/Pool/Stats/Encoded and Parse for a pool. Collector/Metrics/Named lists the metrics
-- by name and label, independently of the collector's tables. Collector/Pool/Datasets/Node
-- says what the lists and files of a dataset hold, Listing what the kernel promises of a
-- dataset listing, Walk follows it, and Collector/Pool/Whole and Configs put a scrape
-- together. Process models Collect, setup and main of main.go: Process/Refused is a scrape in
-- which one pool fails. Collector/Pool/NoVdev is the pool without a vdev tree.
-- Nvlist/Access/Halts is for calls that may panic but come to an end. Strconv is Go's decimal
-- parsing and printing, as far as the program calls it. Collector models main.go: Props
-- (parseValue, parseProps, parseKStat), Vdev (parseVdevStats, parseVdevs), Naming, Descs and
-- Describe (describe and Describe), Export and Metrics (export, handleVdev, handleDataset),
-- Pool (handlePool, findDatasetsRecursive, collect).
--
-- A method is a function from its receiver to a result and the receiver after the call,
-- whatever the result: `Method` in Base/Outcome. A result is a value, an error, a Go panic
-- with its kind, or fuel run out. Bytes are numbers below 256, words keep their wrap-around, a
-- Go `int` that may be negative is an integer; an `int` sum stays far below 2 ^ 63 and does
-- not wrap.
--
-- Loops that Go writes without a bound take fuel. The length of the buffer plus one is enough
-- for Skip: each call of Next goes forward (Nvlist/Skip/Total), and so are as many units for
-- parseVdevs, the loop of handlePool over its response, and parseProps (the files called
-- Total). So it is for Unmarshal (Nvlist/Unmarshal/Total and Reflect/Total). The kernel's
-- calls, the file system, the Prometheus client with its registry, and the HTTP server are
-- parameters.
--
-- The theorems on a whole scrape are about a kernel whose answers fit the first buffer, of 256
-- KiB, with a byte to spare. The buffer that Ioctl makes after ENOMEM is as large as the
-- answer, and the reader refuses a list that ends where its buffer ends (Nvlist/Format/Exact).
--
-- The collector's fields for the descriptions are nil until Describe sets them; the client is
-- handed what stands in a field. The theorems on what is sent are about a collector that
-- Describe has set up, as a registry does before it calls Collect.
--
-- Not modelled: the panic of `make` in Ioctl for a length that no machine can allocate;
-- Unmarshal into maps whose keys are no strings, and into basic variables and slices of types
-- that a program defines itself; binary.Decode, which the accessor Value calls and which is a
-- parameter of it; the flag for the server's address; the fields of the command block and the
-- ioctl numbers that the program never touches, and the numbers of FreeBSD, which counts from
-- another first one.
pub mod Base
pub mod Nvlist
pub mod Strconv
pub mod Kstat
pub mod Ioctl
pub mod Collector
pub mod Process
