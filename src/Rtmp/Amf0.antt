-- ===== src/Rtmp/Amf0.antt =====
-- mediamtx/internal/protocols/rtmp/amf0/data.go: AMF0 values and what fails.
pub mod Unmarshal
pub mod Marshal
pub mod Bytes
pub mod Buffers
pub mod Written
pub mod Sizes
pub mod RoundTrip
pub mod Total
pub mod Lookup
pub mod Tests
use go_live_vod.Prelude.{ℕ, suc, Bool, List}

-- An `interface{}` that holds one of the types that the package knows, or another. A float64 is its
-- bit pattern, which math.Float64bits and math.Float64frombits translate to and from.
mutual
  pub data Value : Type 0 where
    number : ℕ → Value
    boolean : Bool → Value
    string : List ℕ → Value
    ecma_array : Entries → Value
    object : Entries → Value
    strict_array : Values → Value
    null : Value
    of_another_type : Value

  -- `Object` and `ECMAArray`.
  pub data Entries : Type 0 where
    no_entries : Entries
    entry : List ℕ → Value → Entries → Entries

  -- `StrictArray` and `Data`.
  pub data Values : Type 0 where
    no_values : Values
    value : Value → Values → Values

pub data AmfError : Type 0 where
  buffer_too_short object_end_not_found unsupported_data_type : AmfError
  unsupported_marker : ℕ → AmfError
  fuel_ran_out index_out_of_range : AmfError

-- `len` of a StrictArray.
abbrev pub count : Values → ℕ
count no_values = 0
count (value v vs) = suc (count vs)
