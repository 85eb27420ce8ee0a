-- ===== src/Rtmp/Amf0/Unmarshal.antt =====
-- mediamtx/internal/protocols/rtmp/amf0/data.go: Unmarshal and unmarshal. The buffer is the list of
-- the bytes that are still to be read. Each call of `unmarshal` and each round of its loops takes a
-- unit of fuel.
use go_live_vod.Prelude.{
  ℕ, zero, suc, ◌+◌, ◌*◌, bit_or, true, false, not, List, [], ◌∷◌, none, some, ◌==◌, if◌then◌else◌,
  length, get_or, Bool,
}
use go_live_vod.Prelude.Bits.{shl}
use go_live_vod.Prelude.Result.{Result, ok, err, ◌>>=◌}
use go_live_vod.Rtmp.Stream.{take_exact, be32}
use go_live_vod.Rtmp.Amf0.{
  Value, Entries, Values, number, boolean, string, ecma_array, object, strict_array, null,
  no_entries, entry, no_values, value, buffer_too_short, object_end_not_found, unsupported_marker,
  AmfError, fuel_ran_out,
}

-- `if len(buf) < n { return errBufferTooShort }`, then `buf[:n]` and `buf[n:]`.
unfoldable pub next_bytes : ℕ → List ℕ → Result AmfError (List ℕ × List ℕ)
next_bytes n buf = elim (take_exact n buf) [ none ↦ err buffer_too_short | some p ↦ ok p ]

-- `uint16(buf[0])<<8 | uint16(buf[1])`
unfoldable pub be16 : List ℕ → ℕ
be16 b = bit_or (shl (get_or b 0 0) 8) (get_or b 1 0)

-- `uint32(buf[0])<<24 | uint32(buf[1])<<16 | uint32(buf[2])<<8 | uint32(buf[3])`
abbrev pub array_count : List ℕ → ℕ
array_count b = be32 (get_or b 0 0) (get_or b 1 0) (get_or b 2 0) (get_or b 3 0)

-- `uint64(a)<<56 | uint64(b)<<48 | … | uint64(h)`
unfoldable pub be64 : ℕ → ℕ → ℕ → ℕ → ℕ → ℕ → ℕ → ℕ → ℕ
be64 a b c d e f g h =
    let top = bit_or (bit_or (bit_or (shl a 56) (shl b 48)) (shl c 40)) (shl d 32) in
    bit_or (bit_or (bit_or (bit_or top (shl e 24)) (shl f 16)) (shl g 8)) h

abbrev pub float_bits : List ℕ → ℕ
float_bits b =
    be64 (get_or b 0 0) (get_or b 1 0) (get_or b 2 0) (get_or b 3 0) (get_or b 4 0) (get_or b 5 0)
      (get_or b 6 0) (get_or b 7 0)

-- The markers that `unmarshal` knows.
pub data Kind : Type 0 where
  number_kind boolean_kind string_kind object_kind null_kind ecma_array_kind strict_array_kind :
      Kind
  unknown : Kind

unfoldable pub kind_of : ℕ → Kind
kind_of m =
    if m == 0x00
    then number_kind
    else if m == 0x01
    then boolean_kind
    else if m == 0x02
    then string_kind
    else if m == 0x08
    then ecma_array_kind
    else if m == 0x03
    then object_kind
    else if m == 0x05
    then null_kind
    else if m == 0x0a
    then strict_array_kind
    else unknown

unfoldable pub read_number : List ℕ → Result AmfError (Value × List ℕ)
read_number buf = do (b, rest) ← next_bytes 8 buf; ok (number (float_bits b), rest)

unfoldable pub read_boolean : List ℕ → Result AmfError (Value × List ℕ)
read_boolean buf = do (b, rest) ← next_bytes 1 buf; ok (boolean (not (get_or b 0 0 == 0)), rest)

unfoldable pub read_string : List ℕ → Result AmfError (Value × List ℕ)
read_string buf = do
  (le, rest) ← next_bytes 2 buf
  (s, rest2) ← next_bytes (be16 le) rest
  ok (string s, rest2)

-- What stands behind the last entry.
unfoldable pub object_end : Value → List ℕ → Result AmfError (Value × List ℕ)
object_end v [] = err buffer_too_short
object_end v (m ∷ rest) = if not (m == 0x09) then err object_end_not_found else ok (v, rest)

-- `if keyLen == 0 { break }`
unfoldable pub is_last : List ℕ → Bool
is_last le = be16 le == 0

-- The switch on the marker, given the loops that it runs into.
unfoldable pub of_kind :
    (List ℕ → Result AmfError (Entries × List ℕ))
    → (ℕ → List ℕ → Result AmfError (Values × List ℕ))
    → Kind
    → ℕ
    → List ℕ
    → Result AmfError (Value × List ℕ)
of_kind entries values number_kind marker buf = read_number buf
of_kind entries values boolean_kind marker buf = read_boolean buf
of_kind entries values string_kind marker buf = read_string buf
of_kind entries values ecma_array_kind marker buf = do
  (ignored, rest) ← next_bytes 4 buf
  (es, rest2) ← entries rest
  object_end (ecma_array es) rest2
of_kind entries values object_kind marker buf = do
  (es, rest) ← entries buf
  object_end (object es) rest
of_kind entries values null_kind marker buf = ok (null, buf)
of_kind entries values strict_array_kind marker buf = do
  (n, rest) ← next_bytes 4 buf
  (vs, rest2) ← values (array_count n) rest
  ok (strict_array vs, rest2)
of_kind entries values unknown marker buf = err (unsupported_marker marker)

-- A round of the loop on the entries of an object or an ECMA array, behind the length of the key.
unfoldable pub of_key :
    (List ℕ → Result AmfError (Value × List ℕ))
    → (List ℕ → Result AmfError (Entries × List ℕ))
    → Bool
    → ℕ
    → List ℕ
    → Result AmfError (Entries × List ℕ)
of_key item entries true key_len buf = ok (no_entries, buf)
of_key item entries false key_len buf = do
  (key, rest) ← next_bytes key_len buf
  (v, rest2) ← item rest
  (es, rest3) ← entries rest2
  ok (entry key v es, rest3)

unfoldable mutual
  unfolding of_kind of_key

  pub unmarshal : ℕ → List ℕ → Result AmfError (Value × List ℕ)
  unmarshal zero buf = err fuel_ran_out
  unmarshal (suc f) [] = err buffer_too_short
  unmarshal (suc f) (marker ∷ buf) =
      of_kind (unmarshal_entries f) (unmarshal_values f) (kind_of marker) marker buf

  -- The loop on the entries, up to the empty key.
  pub unmarshal_entries : ℕ → List ℕ → Result AmfError (Entries × List ℕ)
  unmarshal_entries zero buf = err fuel_ran_out
  unmarshal_entries (suc f) buf = do
    (le, rest) ← next_bytes 2 buf
    of_key (unmarshal f) (unmarshal_entries f) (is_last le) (be16 le) rest

  -- The loop on the values of a strict array.
  pub unmarshal_values : ℕ → ℕ → List ℕ → Result AmfError (Values × List ℕ)
  unmarshal_values zero n buf = err fuel_ran_out
  unmarshal_values (suc f) zero buf = ok (no_values, buf)
  unmarshal_values (suc f) (suc n) buf = do
    (v, rest) ← unmarshal f buf
    (vs, rest2) ← unmarshal_values f n rest
    ok (value v vs, rest2)

-- The loop of `Unmarshal`.
unfoldable pub unmarshal_rounds : ℕ → List ℕ → Result AmfError Values
unmarshal_rounds zero buf = err fuel_ran_out
unmarshal_rounds (suc f) [] = ok no_values
unmarshal_rounds (suc f) (b ∷ buf) = do
  (v, rest) ← unmarshal (2 * length (b ∷ buf) + 1) (b ∷ buf)
  vs ← unmarshal_rounds f rest
  ok (value v vs)

unfoldable pub unmarshal_data : List ℕ → Result AmfError Values
unmarshal_data buf = unmarshal_rounds (length buf + 1) buf
