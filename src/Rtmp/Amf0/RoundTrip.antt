-- ===== src/Rtmp/Amf0/RoundTrip.antt =====
-- protocols/rtmp/amf0: what was marshalled is unmarshalled.
use go_live_vod.Prelude.{
  ℕ, ◌≡◌, List, ap, arith, false, length, refl, suc, true, zero, ◌*◌, ◌++◌, ◌+◌, ◌<◌, ◌^◌, ◌∷◌, [],
  append_assoc, length-append,
}
use go_live_vod.Prelude.Result.{◌>>=◌, ok}
use go_live_vod.Rtmp.Stream.{take_exact}
use go_live_vod.Rtmp.Amf0.{
  Value, Entries, Values, boolean, count, ecma_array, entry, no_entries, no_values, null, number,
  object, of_another_type, strict_array, string, value,
}
use go_live_vod.Rtmp.Amf0.Unmarshal.{
  unmarshal, kind_of, next_bytes, object_end, read_number, read_string, unmarshal_entries,
  unmarshal_values, be16, read_boolean, is_last, unmarshal_rounds, unmarshal_data,
}
use go_live_vod.Rtmp.Amf0.Marshal.{
  bits64, length16, entry_count, length32, object_end_mark, marshal,
}
use go_live_vod.Rtmp.Amf0.Bytes.{
  bytes, AllEncodable, AreEncodable, IsEncodable, be16-length16, entries_bytes, float_bits-bits64,
  next_bytes-append, values_bytes, array_count-length32, length-bytes_pos,
}
use go_live_vod.Rtmp.Amf0.Sizes.{all_known, entries_known, is_known, marshal_lem}

read_number-bits64 :
    (n : ℕ) (rest : List ℕ) → n < 2 ^ 64 → read_number (bits64 n ++ rest) ≡ ok (number n, rest)
unfolding read_number next_bytes take_exact
read_number-bits64 n rest h = ap (λ (k : ℕ). ok (number k, rest)) (float_bits-bits64 n h)

read_string-length16 :
    (s rest : List ℕ)
    → length s < 2 ^ 16
    → read_string (length16 (length s) ++ (s ++ rest)) ≡ ok (string s, rest)
unfolding read_string
read_string-length16 s rest h = rw (
  next_bytes-append 2 (length16 (length s)) (s ++ rest) refl,
  be16-length16 (length s) h,
  next_bytes-append (length s) s rest refl,
)

read_boolean_byte :
    (rest : List ℕ)
    → (read_boolean (1 ∷ rest) ≡ ok (boolean true, rest))
      × (read_boolean (0 ∷ rest) ≡ ok (boolean false, rest))
unfolding read_boolean next_bytes take_exact
read_boolean_byte rest = (refl, refl)

is_last_end : is_last (0 ∷ 0 ∷ []) ≡ true
unfolding is_last be16
is_last_end = refl

is_last-length16 : (n : ℕ) → 0 < n → n < 2 ^ 16 → is_last (length16 n) ≡ false
unfolding is_last
is_last-length16 n h k = ground (arith, be16-length16 n k)

mutual
  unfolding unmarshal bytes kind_of object_end IsEncodable

  unmarshal-bytes :
      (v : Value) (rest : List ℕ) (f : ℕ)
      → IsEncodable v
      → 2 * length (bytes v) < f
      → unmarshal f (bytes v ++ rest) ≡ ok (v, rest)
  unmarshal-bytes v rest zero e h = absurd (omega arith)
  unmarshal-bytes (number n) rest (suc f) e h = read_number-bits64 n rest e
  unmarshal-bytes (boolean true) rest (suc f) e h = (read_boolean_byte rest).0
  unmarshal-bytes (boolean false) rest (suc f) e h = (read_boolean_byte rest).1
  unmarshal-bytes (string s) rest (suc f) e h = read_string-length16 s rest e
  unmarshal-bytes (ecma_array es) rest (suc f) e h = rw (
    next_bytes-append 4 (length32 (entry_count es)) ((entries_bytes es ++ object_end_mark) ++ rest)
        refl,
    append_assoc (entries_bytes es) object_end_mark rest,
    unmarshal_entries-bytes es (0x09 ∷ rest) f e
        (omega (arith, length-append (entries_bytes es) object_end_mark)),
  )
  unmarshal-bytes (object es) rest (suc f) e h = rw (
    append_assoc (entries_bytes es) object_end_mark rest,
    unmarshal_entries-bytes es (0x09 ∷ rest) f e
        (omega (arith, length-append (entries_bytes es) object_end_mark)),
  )
  unmarshal-bytes (strict_array vs) rest (suc f) e h = rw (
    next_bytes-append 4 (length32 (count vs)) (values_bytes vs ++ rest) refl,
    array_count-length32 (count vs) e.0,
    unmarshal_values-bytes vs rest f e.1 (omega arith),
  )
  unmarshal-bytes null rest (suc f) e h = refl
  unmarshal-bytes of_another_type rest (suc f) e h = absurd e

  unmarshal_entries-bytes :
      (es : Entries) (rest : List ℕ) (f : ℕ)
      → AreEncodable es
      → 2 * length (entries_bytes es) + 1 < f
      → unmarshal_entries f (entries_bytes es ++ (0 ∷ 0 ∷ rest)) ≡ ok (es, rest)
  unmarshal_entries-bytes es rest zero e h = absurd (omega arith)
  unmarshal_entries-bytes no_entries rest (suc f) e h =
      rw (next_bytes-append 2 (0 ∷ 0 ∷ []) rest refl) (rw is_last_end)
  unmarshal_entries-bytes (entry key v es) rest (suc f) e h =
      let tail : List ℕ = 0 ∷ 0 ∷ rest in
      let cut = length-append key (bytes v ++ entries_bytes es) in
      let cut2 = length-append (bytes v) (entries_bytes es) in
      rw
        (next_bytes-append 2 (length16 (length key))
          ((key ++ (bytes v ++ entries_bytes es)) ++ tail) refl)
        (rw (is_last-length16 (length key) e.0 e.1) (
          rw (
            be16-length16 (length key) e.1,
            append_assoc key (bytes v ++ entries_bytes es) tail,
            next_bytes-append (length key) key ((bytes v ++ entries_bytes es) ++ tail) refl,
            append_assoc (bytes v) (entries_bytes es) tail,
            unmarshal-bytes v (entries_bytes es ++ tail) f e.2 (omega arith),
            unmarshal_entries-bytes es rest f e.3 (omega arith),
          )))

  unmarshal_values-bytes :
      (vs : Values) (rest : List ℕ) (f : ℕ)
      → AllEncodable vs
      → 2 * length (values_bytes vs) + 1 < f
      → unmarshal_values f (count vs) (values_bytes vs ++ rest) ≡ ok (vs, rest)
  unmarshal_values-bytes vs rest zero e h = absurd (omega arith)
  unmarshal_values-bytes no_values rest (suc f) e h = refl
  unmarshal_values-bytes (value v vs) rest (suc f) e h =
      let cut = length-append (bytes v) (values_bytes vs) in
      rw (
        append_assoc (bytes v) (values_bytes vs) rest,
        unmarshal-bytes v (values_bytes vs ++ rest) f e.0 (omega arith),
        unmarshal_values-bytes vs rest f e.1 (omega (arith, length-bytes_pos v)),
      )

mutual
  unfolding IsEncodable is_known

  IsEncodable-is_known : (v : Value) → IsEncodable v → is_known v ≡ true
  IsEncodable-is_known (ecma_array es) e = AreEncodable-entries_known es e
  IsEncodable-is_known (object es) e = AreEncodable-entries_known es e
  IsEncodable-is_known (strict_array vs) e = AllEncodable-all_known vs e.1
  IsEncodable-is_known of_another_type e = absurd e
  IsEncodable-is_known _ e = refl

  AreEncodable-entries_known : (es : Entries) → AreEncodable es → entries_known es ≡ true
  AreEncodable-entries_known no_entries e = refl
  AreEncodable-entries_known (entry key v es) e =
      rw (IsEncodable-is_known v e.2) (AreEncodable-entries_known es e.3)

  AllEncodable-all_known : (vs : Values) → AllEncodable vs → all_known vs ≡ true
  AllEncodable-all_known no_values e = refl
  AllEncodable-all_known (value v vs) e =
      rw (IsEncodable-is_known v e.0) (AllEncodable-all_known vs e.1)

-- `Unmarshal` on a buffer that is not empty.
unmarshal_rounds-step :
    (f : ℕ) (buf : List ℕ)
    → 0 < length buf
    → unmarshal_rounds (suc f) buf ≡ (
        unmarshal (2 * length buf + 1) buf >>= λ (v, rest).
        unmarshal_rounds f rest >>= λ vs. ok (value v vs))
unfolding unmarshal_rounds
unmarshal_rounds-step f [] h = absurd (omega arith)
unmarshal_rounds-step f (b ∷ buf) h = refl

unmarshal_rounds-values :
    (vs : Values) (f : ℕ)
    → AllEncodable vs
    → length (values_bytes vs) < f
    → unmarshal_rounds f (values_bytes vs) ≡ ok vs
unfolding bytes IsEncodable unmarshal_rounds
unmarshal_rounds-values vs zero e h = absurd (omega arith)
unmarshal_rounds-values no_values (suc f) e h = refl
unmarshal_rounds-values (value v vs) (suc f) e h =
    let whole = bytes v ++ values_bytes vs in
    let cut = length-append (bytes v) (values_bytes vs) in
    let some_bytes = length-bytes_pos v in
    rw (
      unmarshal_rounds-step f whole (omega arith),
      unmarshal-bytes v (values_bytes vs) (2 * length whole + 1) e.0 (omega arith),
      unmarshal_rounds-values vs f e.1 (omega arith),
    )

-- Data that the format can carry is marshalled, and unmarshalling the bytes gives it back.
pub unmarshal_data-marshal :
    (d : Values) → AllEncodable d → (b : List ℕ) × (marshal d ≡ ok b) × (unmarshal_data b ≡ ok d)
unfolding unmarshal_data
unmarshal_data-marshal d e = (
  values_bytes d,
  rw ((marshal_lem d).1, AllEncodable-all_known d e),
  unmarshal_rounds-values d (length (values_bytes d) + 1) e (omega arith),
)
