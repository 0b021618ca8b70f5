-- ===== src/Strconv/Tests.antt =====
-- Decimal numbers that are printed and parsed.
use prometheus_zfs_exporter.Base.{◌≡◌, ◌<◌, ◌^◌, refl, arith, codes, ok}
use prometheus_zfs_exporter.Strconv.{parse_digits, parse_uint, format_decimal}
use prometheus_zfs_exporter.Strconv.Decimal.{parse_uint-format_decimal, parse_uint-lt}

parse_uint-format_decimal_example : parse_uint (format_decimal 512) ≡ ok 512
parse_uint-format_decimal_example = parse_uint-format_decimal 512 (omega arith)

parse_uint-512 : parse_uint (codes "512") ≡ ok 512
unfolding parse_uint parse_digits
parse_uint-512 = refl

parse_uint-lt_example : 512 < 2 ^ 64
parse_uint-lt_example = parse_uint-lt (codes "512") 512 parse_uint-512
