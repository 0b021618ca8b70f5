-- ===== src/Collector/Pool/Datasets/Total.antt =====
-- main.go: reading a dataset's properties from any response comes to an end.
use prometheus_zfs_exporter.Base.{◌≢◌, refl, inl, arith, Bytes, Result, out_of_fuel}
use prometheus_zfs_exporter.Nvlist.Reader.{new_reader}
use prometheus_zfs_exporter.Nvlist.Access.Halts.{Halts, gives, fails, crashes}
use prometheus_zfs_exporter.Collector.Props.{Parse, empty_props}
use prometheus_zfs_exporter.Collector.Props.Values.Total.{parse_props-EndsList}
use prometheus_zfs_exporter.Collector.Pool.Stats.{reader_fuel}
use prometheus_zfs_exporter.Collector.Pool.Datasets.{parsed, read_props}

parsed-fuel :
    {R : Type 0} {P : Unit {0} → Parse R → Type 0} {x : Result (Unit {0}) × Parse R}
    → Halts P x
    → parsed x ≢ out_of_fuel
parsed-fuel (gives p) e = cc
parsed-fuel fails e = cc
parsed-fuel crashes e = cc

-- Reading a dataset's properties ends on any bytes whatever: a unit of fuel for each byte of the
-- response and one more are enough for `parseProps` and for `parseValue` inside.
pub read_props-fuel : (bs : Bytes) → read_props bs ≢ out_of_fuel
unfolding read_props
read_props-fuel bs = parsed-fuel (
    parse_props-EndsList (reader_fuel bs) (record { props = empty_props; reader = new_reader bs })
      (record { started = inl refl; aligned_le = omega arith }) (omega arith) (omega arith))
