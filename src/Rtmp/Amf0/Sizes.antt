-- ===== src/Rtmp/Amf0/Sizes.antt =====
-- protocols/rtmp/amf0: what marshalling writes into a new buffer, and how large the buffer is.
use go_live_vod.Prelude.{
  ℕ, ◌≡◌, List, [], ap, arith, drop, false, length, length-append, refl, true, drop_all, ◌++◌, Bool,
  Bool-cases, append-nil, if◌then◌else◌, inl, inr, ◌&&◌,
}
use go_live_vod.Rtmp.Amf0.{
  Value, Entries, Values, boolean, ecma_array, entry, no_entries, no_values, null, number, object,
  of_another_type, strict_array, string, value, AmfError, unsupported_data_type,
}
use go_live_vod.Rtmp.Amf0.Marshal.{
  zeros, object_end_mark, marshal, marshal_size_entries, marshal_size_item, marshal_size_values,
  marshal_to,
}
use go_live_vod.Rtmp.Amf0.Bytes.{bytes, entries_bytes, values_bytes}
use go_live_vod.Prelude.Result.{err, ok, Result}
use go_live_vod.Rtmp.Amf0.Written.{marshal_values_fits}
use go_live_vod.Rtmp.Amf0.Buffers.{AllZero-zeros, length-zeros}

-- No value of another type occurs.
unfoldable mutual
  pub is_known : Value → Bool
  is_known (number n) = true
  is_known (boolean b) = true
  is_known (string s) = true
  is_known (ecma_array es) = entries_known es
  is_known (object es) = entries_known es
  is_known (strict_array vs) = all_known vs
  is_known null = true
  is_known of_another_type = false

  pub entries_known : Entries → Bool
  entries_known no_entries = true
  entries_known (entry key v es) = is_known v && entries_known es

  pub all_known : Values → Bool
  all_known no_values = true
  all_known (value v vs) = is_known v && all_known vs

-- The length of `b` if `known`, and otherwise the error.
abbrev sized : Bool → List ℕ → Result AmfError ℕ
sized known b = if known then ok (length b) else err unsupported_data_type

mutual
  unfolding marshal_size_item bytes is_known

  marshal_size_item-sized : (v : Value) → marshal_size_item v ≡ sized (is_known v) (bytes v)
  marshal_size_item-sized (number n) = refl
  marshal_size_item-sized (boolean true) = refl
  marshal_size_item-sized (boolean false) = refl
  marshal_size_item-sized (string s) = ground arith
  marshal_size_item-sized (ecma_array es) =
      ground
        (arith, marshal_size_entries-sized es, length-append (entries_bytes es) object_end_mark)
  marshal_size_item-sized (object es) =
      ground
        (arith, marshal_size_entries-sized es, length-append (entries_bytes es) object_end_mark)
  marshal_size_item-sized (strict_array vs) = ground (arith, marshal_size_values-sized vs)
  marshal_size_item-sized null = refl
  marshal_size_item-sized of_another_type = refl

  marshal_size_entries-sized :
      (es : Entries) → marshal_size_entries es ≡ sized (entries_known es) (entries_bytes es)
  marshal_size_entries-sized no_entries = refl
  marshal_size_entries-sized (entry key v es) = ground (
    arith,
    marshal_size_item-sized v,
    marshal_size_entries-sized es,
    length-append key (bytes v ++ entries_bytes es),
    length-append (bytes v) (entries_bytes es),
  )

  marshal_size_values-sized :
      (vs : Values) → marshal_size_values vs ≡ sized (all_known vs) (values_bytes vs)
  marshal_size_values-sized no_values = refl
  marshal_size_values-sized (value v vs) = ground (
    arith,
    marshal_size_item-sized v,
    marshal_size_values-sized vs,
    length-append (bytes v) (values_bytes vs),
  )

-- Marshalling gives the bytes of the data, written without a panic into a buffer of the size that is
-- computed, which is their number; unless a value of another type occurs, which is an error of both.
pub marshal_lem :
    (d : Values)
    → (marshal_size_values d
        ≡ (if all_known d then ok (length (values_bytes d)) else err unsupported_data_type))
      × (marshal d ≡ (if all_known d then ok (values_bytes d) else err unsupported_data_type))
unfolding marshal marshal_to
marshal_lem d = (
  marshal_size_values-sized d,
  elim (Bool-cases (all_known d)) [
    | inr e ↦ rw (marshal_size_values-sized d, e)
    | inl e ↦
        let n = length (values_bytes d) in
        let filled : drop n (zeros n) ≡ [] = drop_all n (zeros n) (omega (arith, length-zeros n)) in
        rw
          (
            marshal_size_values-sized d,
            e,
            marshal_values_fits d (zeros n) 0 [] (zeros n) refl refl (AllZero-zeros n)
                (omega (arith, length-zeros n)),
            filled,
          )
          (ap ok (append-nil (values_bytes d)))
  ],
)
