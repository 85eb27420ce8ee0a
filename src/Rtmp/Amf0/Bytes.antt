-- ===== src/Rtmp/Amf0/Bytes.antt =====
-- protocols/rtmp/amf0: the bytes that encode a value, by themselves, and the numbers in them.
use native.Mathlib.Nat.{pow-suc}
use native.Mathlib.Numerals.{towards_suc}
use go_live_vod.Prelude.{
  ℕ, List, [], arith, false, length, true, ◌*◌, ◌++◌, ◌+◌, ◌<◌, ◌^◌, ◌∷◌, ◌≡◌, ap, bit_or, suc,
  zero,
}
use go_live_vod.Prelude.Bits.{shr, u8, bit_or_fields}
use go_live_vod.Rtmp.Amf0.{
  Value, Entries, Values, boolean, count, ecma_array, entry, no_entries, no_values, null, number,
  object, of_another_type, strict_array, string, value,
}
use go_live_vod.Rtmp.Amf0.Unmarshal.{be16, be64, array_count, float_bits, next_bytes}
use go_live_vod.Rtmp.Amf0.Marshal.{length16, bits64, entry_count, length32, object_end_mark}
use go_live_vod.Prelude.Result.{ok}
use go_live_vod.Rtmp.Stream.{take_exact-append, be32_bytes}

unfoldable mutual
  pub bytes : Value → List ℕ
  bytes (number n) = 0x00 ∷ bits64 n
  bytes (boolean true) = 0x01 ∷ 1 ∷ []
  bytes (boolean false) = 0x01 ∷ 0 ∷ []
  bytes (string s) = 0x02 ∷ (length16 (length s) ++ s)
  bytes (ecma_array es) =
      0x08 ∷ (length32 (entry_count es) ++ (entries_bytes es ++ object_end_mark))
  bytes (object es) = 0x03 ∷ (entries_bytes es ++ object_end_mark)
  bytes (strict_array vs) = 0x0a ∷ (length32 (count vs) ++ values_bytes vs)
  bytes null = 0x05 ∷ []
  bytes of_another_type = 0x05 ∷ []

  pub entries_bytes : Entries → List ℕ
  entries_bytes no_entries = []
  entries_bytes (entry key v es) = length16 (length key) ++ (key ++ (bytes v ++ entries_bytes es))

  pub values_bytes : Values → List ℕ
  values_bytes no_values = []
  values_bytes (value v vs) = bytes v ++ values_bytes vs

pub length-bytes_pos : (v : Value) → 0 < length (bytes v)
unfolding bytes
length-bytes_pos (number n) = omega arith
length-bytes_pos (boolean true) = omega arith
length-bytes_pos _ = omega arith

-- What the format can carry: keys that are not empty, lengths of 16 bits, counts of 32 bits, floats
-- of 64 bits, and only values of the types that it knows.
unfoldable mutual
  pub IsEncodable : Value → Type 0
  IsEncodable (number n) = n < 2 ^ 64
  IsEncodable (boolean b) = Unit {0}
  IsEncodable (string s) = length s < 2 ^ 16
  IsEncodable (ecma_array es) = AreEncodable es
  IsEncodable (object es) = AreEncodable es
  IsEncodable (strict_array vs) = (count vs < 2 ^ 32) × AllEncodable vs
  IsEncodable null = Unit {0}
  IsEncodable of_another_type = ⊥

  pub AreEncodable : Entries → Type 0
  AreEncodable no_entries = Unit {0}
  AreEncodable (entry key v es) =
      (0 < length key) × (length key < 2 ^ 16) × IsEncodable v × AreEncodable es

  pub AllEncodable : Values → Type 0
  AllEncodable no_values = Unit {0}
  AllEncodable (value v vs) = IsEncodable v × AllEncodable vs

pub be16-length16 : (n : ℕ) → n < 2 ^ 16 → be16 (length16 n) ≡ n
unfolding be16
be16-length16 n h = omega (arith, bit_or_fields 8 (u8 (shr n 8)) (u8 n) (omega arith))

pow_byte : (k : ℕ) → 2 ^ (k + 8) ≡ 256 * 2 ^ k
pow_byte k = simp towards_suc (omega arith)

pow_pos : (k : ℕ) → 0 < 2 ^ k
pow_pos zero = omega arith
pow_pos (suc k) = omega (arith, pow-suc 2 k, pow_pos k)

-- One more byte below a number of whole bytes.
or_byte : (k q r : ℕ) → r < 256 → bit_or (q * 2 ^ (k + 8)) (r * 2 ^ k) ≡ (q * 256 + r) * 2 ^ k
or_byte k q r h = omega (
  arith,
  bit_or_fields (k + 8) q (r * 2 ^ k) (rw (pow_byte k) (grind (arith, pow_pos k))),
  ap (λ (t : ℕ). q * t) (pow_byte k),
)

pub be64_sum :
    (a b c d e f g h : ℕ)
    → b < 256
    → c < 256
    → d < 256
    → e < 256
    → f < 256
    → g < 256
    → h < 256
    → be64 a b c d e f g h
      ≡ ((((((a * 256 + b) * 256 + c) * 256 + d) * 256 + e) * 256 + f) * 256 + g) * 256 + h
unfolding be64
be64_sum a b c d e f g h hb hc hd he hf hg hh =
    rw
      (
        or_byte 48 a b hb,
        or_byte 40 (a * 256 + b) c hc,
        or_byte 32 ((a * 256 + b) * 256 + c) d hd,
        or_byte 24 (((a * 256 + b) * 256 + c) * 256 + d) e he,
        or_byte 16 ((((a * 256 + b) * 256 + c) * 256 + d) * 256 + e) f hf,
        or_byte 8 (((((a * 256 + b) * 256 + c) * 256 + d) * 256 + e) * 256 + f) g hg,
      )
      (bit_or_fields 8 ((((((a * 256 + b) * 256 + c) * 256 + d) * 256 + e) * 256 + f) * 256 + g) h
        hh)

-- Eight bytes carry 64 bits.
pub float_bits-bits64 : (n : ℕ) → n < 2 ^ 64 → float_bits (bits64 n) ≡ n
float_bits-bits64 n h = omega (
  arith,
  be64_sum (u8 (shr n 56)) (u8 (shr n 48)) (u8 (shr n 40)) (u8 (shr n 32)) (u8 (shr n 24))
      (u8 (shr n 16)) (u8 (shr n 8)) (u8 n) (omega arith) (omega arith) (omega arith) (omega arith)
      (omega arith) (omega arith) (omega arith),
)

pub next_bytes-append :
    (n : ℕ) (xs rest : List ℕ) → length xs ≡ n → next_bytes n (xs ++ rest) ≡ ok (xs, rest)
unfolding next_bytes
next_bytes-append n xs rest h = ground (arith, take_exact-append n xs rest h)

pub array_count-length32 : (n : ℕ) → n < 2 ^ 32 → array_count (length32 n) ≡ n
array_count-length32 n h = omega (arith, be32_bytes n)
