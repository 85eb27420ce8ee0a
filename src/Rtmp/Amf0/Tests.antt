-- ===== src/Rtmp/Amf0/Tests.antt =====
-- protocols/rtmp/amf0 on concrete data.
use go_live_vod.Prelude.{
  ℕ, ◌≡◌, refl, List, [], arith, false, true, ◌∷◌, ◌≢◌, ◌↔◌, ◌⊎◌, none, some, length,
}
use go_live_vod.Prelude.Result.{ok, err}
use go_live_vod.Prelude.Text.{same}
use go_live_vod.Rtmp.Stream.{take_exact}
use go_live_vod.Rtmp.Amf0.Lookup.{IsFirst, as_string, get, get_float64, get_lem, get_string}
use go_live_vod.Rtmp.Amf0.{
  AmfError, Values, boolean, buffer_too_short, entry, fuel_ran_out, no_entries, no_values, null,
  number, object, strict_array, string, unsupported_marker, value, Entries, Value,
}
use go_live_vod.Rtmp.Amf0.Unmarshal.{
  unmarshal, be16, kind_of, next_bytes, read_string, unmarshal_data, unmarshal_rounds,
}
use go_live_vod.Rtmp.Amf0.RoundTrip.{unmarshal_data-marshal}
use go_live_vod.Rtmp.Amf0.Total.{unmarshal_data-total}
use go_live_vod.Rtmp.Amf0.Sizes.{marshal_lem, is_known}
use go_live_vod.Rtmp.Amf0.Bytes.{values_bytes, IsEncodable}
use go_live_vod.Rtmp.Amf0.Marshal.{
  zeros, marshal_item, marshal_size_item, marshal, copy_at, marshal_to, put, put_at, slice,
  marshal_size_values,
}

-- "on", 1.0, an object with the key "k", and an array of null and true.
abbrev sample : Values
sample = value (string (111 ∷ 110 ∷ [])) (
    value (number 0x3ff0000000000000) (
      value (object (entry (107 ∷ []) (boolean false) no_entries))
        (value (strict_array (value null (value (boolean true) no_values))) no_values)))

abbrev sample_bytes : List ℕ
sample_bytes =
    0x02 ∷ 0 ∷ 2 ∷ 111 ∷ 110 ∷ 0x00 ∷ 0x3f ∷ 0xf0 ∷ 0 ∷ 0 ∷ 0 ∷ 0 ∷ 0 ∷ 0 ∷ 0x03 ∷ 0 ∷ 1 ∷ 107
    ∷ 0x01 ∷ 0 ∷ 0 ∷ 0 ∷ 0x09 ∷ 0x0a ∷ 0 ∷ 0 ∷ 0 ∷ 2 ∷ 0x05 ∷ 0x01 ∷ 1 ∷ []

sample_marshalled : marshal sample ≡ ok sample_bytes
unfolding marshal marshal_size_item marshal_item zeros marshal_to slice put copy_at put_at
sample_marshalled = refl

short_string : unmarshal_data (0x02 ∷ 0 ∷ 5 ∷ 111 ∷ []) ≡ err buffer_too_short
unfolding unmarshal_data unmarshal_rounds unmarshal kind_of read_string next_bytes take_exact be16
short_string = refl

unknown_marker : unmarshal_data (0x0b ∷ []) ≡ err (unsupported_marker 0x0b)
unfolding unmarshal_data unmarshal_rounds unmarshal kind_of
unknown_marker = refl

unmarshal_data-marshal_example :
    (b : List ℕ) × (marshal sample ≡ ok b) × (unmarshal_data b ≡ ok sample)
unfolding IsEncodable
unmarshal_data-marshal_example = unmarshal_data-marshal sample (omega arith)

unmarshal_data-total_example :
    ((e : AmfError) × (unmarshal_data sample_bytes ≡ err e) × (e ≢ fuel_ran_out))
    ⊎ ((d : Values) × (unmarshal_data sample_bytes ≡ ok d)
        × (b : List ℕ) × (marshal d ≡ ok b)
        × (unmarshal_data b ≡ ok d))
unmarshal_data-total_example = unmarshal_data-total sample_bytes (omega arith)

marshal_lem_example :
    (marshal_size_values sample ≡ ok (length (values_bytes sample)))
    × (marshal sample ≡ ok (values_bytes sample))
unfolding is_known
marshal_lem_example = marshal_lem sample

-- "a" is a number, then "b" a string, then "a" a string again.
abbrev twice : Entries
twice =
    entry (97 ∷ []) (number 5)
      (entry (98 ∷ []) (string (120 ∷ [])) (entry (97 ∷ []) (string []) no_entries))

not_the_second : get_string (97 ∷ []) twice ≡ none
unfolding get get_string as_string same
not_the_second = refl

get_lem_example :
    ((v : Value) → (get (97 ∷ []) twice ≡ some v) ↔ IsFirst (97 ∷ []) v twice)
    × ((s : List ℕ) → (get_string (97 ∷ []) twice ≡ some s) ↔ IsFirst (97 ∷ []) (string s) twice)
    × ((n : ℕ) → (get_float64 (97 ∷ []) twice ≡ some n) ↔ IsFirst (97 ∷ []) (number n) twice)
get_lem_example = get_lem (97 ∷ []) twice
