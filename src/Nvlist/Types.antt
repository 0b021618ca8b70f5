-- ===== src/Nvlist/Types.antt =====
-- zfs/nvlist/consts.go: the type codes of name-value pairs. `NVType` is a `uint32`, and a reader
-- may hold a code that no constant names.
pub mod Names
use prometheus_zfs_exporter.Base.{ℕ}

abbrev pub NvType : Type 0
NvType = ℕ

abbrev pub type_unknown : NvType
type_unknown = 0

abbrev pub type_boolean : NvType
type_boolean = 1

abbrev pub type_byte : NvType
type_byte = 2

abbrev pub type_int16 : NvType
type_int16 = 3

abbrev pub type_uint16 : NvType
type_uint16 = 4

abbrev pub type_int32 : NvType
type_int32 = 5

abbrev pub type_uint32 : NvType
type_uint32 = 6

abbrev pub type_int64 : NvType
type_int64 = 7

abbrev pub type_uint64 : NvType
type_uint64 = 8

abbrev pub type_string : NvType
type_string = 9

abbrev pub type_byte_array : NvType
type_byte_array = 10

abbrev pub type_int16_array : NvType
type_int16_array = 11

abbrev pub type_uint16_array : NvType
type_uint16_array = 12

abbrev pub type_int32_array : NvType
type_int32_array = 13

abbrev pub type_uint32_array : NvType
type_uint32_array = 14

abbrev pub type_int64_array : NvType
type_int64_array = 15

abbrev pub type_uint64_array : NvType
type_uint64_array = 16

abbrev pub type_string_array : NvType
type_string_array = 17

abbrev pub type_hrtime : NvType
type_hrtime = 18

abbrev pub type_nvlist : NvType
type_nvlist = 19

abbrev pub type_nvlist_array : NvType
type_nvlist_array = 20

abbrev pub type_boolean_value : NvType
type_boolean_value = 21

abbrev pub type_int8 : NvType
type_int8 = 22

abbrev pub type_uint8 : NvType
type_uint8 = 23

abbrev pub type_boolean_array : NvType
type_boolean_array = 24

abbrev pub type_int8_array : NvType
type_int8_array = 25

abbrev pub type_uint8_array : NvType
type_uint8_array = 26

abbrev pub type_double : NvType
type_double = 27
