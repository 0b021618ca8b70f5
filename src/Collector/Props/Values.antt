-- ===== src/Collector/Props/Values.antt =====
-- main.go: `parseValue` and `parseProps`, which read a dataset's property list.
pub mod Keys
pub mod Encoded
pub mod Listed
pub mod Total
use prometheus_zfs_exporter.Base.{
  ℕ, zero, suc, Option, none, some, not, Bytes, String, codes, equal, ◌==◌, if◌then◌else◌, message,
  out_of_fuel, Method, pure, gets, modify, ◌>>=◌, ◌>>◌, raise_if, until_eof,
}
use prometheus_zfs_exporter.Nvlist.Types.{NvType, type_uint64, type_nvlist}
use prometheus_zfs_exporter.Nvlist.Reader.{NvListReader}
use prometheus_zfs_exporter.Nvlist.Next.{next}
use prometheus_zfs_exporter.Nvlist.Access.{get_uint64}
use prometheus_zfs_exporter.Collector.Props.{DatasetProps, Parse, on_reader}

-- The names in the switch of `parseValue`.
pub data PropKey : Type 0 where
  objsetid available compressratio used usedbychildren usedbydataset usedbyrefreservation
        usedbysnapshots referenced refcompressratio logicalreferenced logicalused :
      PropKey

unfoldable pub prop_key : Bytes → Option PropKey
prop_key name =
    if equal name (codes "objsetid")
    then some objsetid
    else if equal name (codes "available")
    then some available
    else if equal name (codes "compressratio")
    then some compressratio
    else if equal name (codes "used")
    then some used
    else if equal name (codes "usedbychildren")
    then some usedbychildren
    else if equal name (codes "usedbydataset")
    then some usedbydataset
    else if equal name (codes "usedbyrefreservation")
    then some usedbyrefreservation
    else if equal name (codes "usedbysnapshots")
    then some usedbysnapshots
    else if equal name (codes "referenced")
    then some referenced
    else if equal name (codes "refcompressratio")
    then some refcompressratio
    else if equal name (codes "logicalreferenced")
    then some logicalreferenced
    else if equal name (codes "logicalused")
    then some logicalused
    else none

-- `d.<name> = v`
unfoldable pub set_prop : PropKey → ℕ → DatasetProps → DatasetProps
set_prop objsetid v d = record d { objsetid = v }
set_prop available v d = record d { available = v }
set_prop compressratio v d = record d { compressratio = v }
set_prop used v d = record d { used = v }
set_prop usedbychildren v d = record d { usedbychildren = v }
set_prop usedbydataset v d = record d { usedbydataset = v }
set_prop usedbyrefreservation v d = record d { usedbyrefreservation = v }
set_prop usedbysnapshots v d = record d { usedbysnapshots = v }
set_prop referenced v d = record d { referenced = v }
set_prop refcompressratio v d = record d { refcompressratio = v }
set_prop logicalreferenced v d = record d { logicalreferenced = v }
set_prop logicalused v d = record d { logicalused = v }

abbrev pub get_prop : PropKey → DatasetProps → ℕ
get_prop objsetid d = d.objsetid
get_prop available d = d.available
get_prop compressratio d = d.compressratio
get_prop used d = d.used
get_prop usedbychildren d = d.usedbychildren
get_prop usedbydataset d = d.usedbydataset
get_prop usedbyrefreservation d = d.usedbyrefreservation
get_prop usedbysnapshots d = d.usedbysnapshots
get_prop referenced d = d.referenced
get_prop refcompressratio d = d.refcompressratio
get_prop logicalreferenced d = d.logicalreferenced
get_prop logicalused d = d.logicalused

abbrev pub prop_error : PropKey → String
prop_error objsetid = "invalid type for objsetid"
prop_error available = "invalid type for available"
prop_error compressratio = "invalid type for compressratio"
prop_error used = "invalid type for used"
prop_error usedbychildren = "invalid type for usedbychildren"
prop_error usedbydataset = "invalid type for usedbydataset"
prop_error usedbyrefreservation = "invalid type for usedbyrefreservation"
prop_error usedbysnapshots = "invalid type for usedbysnapshots"
prop_error referenced = "invalid type for referenced"
prop_error refcompressratio = "invalid type for refcompressratio"
prop_error logicalreferenced = "invalid type for logicalreferenced"
prop_error logicalused = "invalid type for logicalused"

-- The case of the switch for a known name.
unfoldable pub store : PropKey → NvType → Method (Parse NvListReader) (Unit {0})
store key token = do
  raise_if (not (token == type_uint64)) (message (prop_error key))
  v ← on_reader get_uint64
  modify (λ p. record p { props = set_prop key v p.props })

unfoldable pub store_known : Option PropKey → NvType → Method (Parse NvListReader) (Unit {0})
store_known none token = pure tt
store_known (some key) token = store key token

-- The body of the loop of `parseValue`.
unfoldable pub parse_pair : Bytes → NvType → Method (Parse NvListReader) (Unit {0})
parse_pair prop_name token = do
  name ← gets (λ p. p.reader.name_bytes)
  if equal name (codes "value") then store_known (prop_key prop_name) token else pure tt

-- `parseValue`, with a unit of fuel for each round of its loop.
unfoldable pub parse_value : ℕ → Bytes → Method (Parse NvListReader) (Unit {0})
parse_value zero prop_name p = (out_of_fuel, p)
parse_value (suc f) prop_name p =
    (do
      token ← until_eof (on_reader next)
      elim token [ none ↦ pure tt | some t ↦ do parse_pair prop_name t; parse_value f prop_name ])
      p

-- `parseProps`
unfoldable pub parse_props : ℕ → Method (Parse NvListReader) (Unit {0})
parse_props zero p = (out_of_fuel, p)
parse_props (suc f) p =
    (do
      token ← until_eof (on_reader next)
      elim token [
        | none ↦ pure tt
        | some t ↦ do
          raise_if (not (t == type_nvlist)) (message "expected nvlist, got %v")
          name ← gets (λ p. p.reader.name_bytes)
          parse_value f name
          parse_props f
      ])
      p
