-- ===== src/Rtmp/Stream.antt =====
-- The byte stream that the RTMP readers take their input from, with `io.ReadFull` and the
-- big-endian integers that are written out byte by byte in protocols/rtmp/chunk/*.go.
-- A stream is the list of the bytes that are still to come.
use go_live_vod.Prelude.{
  ℕ, zero, suc, ◌+◌, ◌*◌, ◌%◌, ◌^◌, ◌<◌, ◌≡◌, refl, ap, bit_or, List, [], ◌∷◌, ◌++◌, Option, none,
  some, arith, length,
}
use go_live_vod.Prelude.Bits.{shl, shr, u8, bit_or_fields}
use go_live_vod.Prelude.Result.{Result, ok, err}

-- What the readers and writers of this protocol fail with. `out_of_fuel` is no Go value: it stands
-- for a loop that was given too few rounds.
pub data Error : Type 0 where
  eof unexpected_eof : Error
  expected_type3 no_previous_chunk : ℕ → Error
  body_too_big : ℕ → Error
  chunk_size_too_big : ℕ → Error
  extended_stream_id : Error
  ack_failed no_acknowledge write_failed : Error
  out_of_fuel : Error

abbrev pub IsByte : ℕ → Type 0
IsByte b = b < 256

-- The next `n` items and what follows them, if there are as many.
unfoldable pub take_exact : ℕ → List ℕ → Option (List ℕ × List ℕ)
take_exact zero r = some ([], r)
take_exact (suc n) [] = none
take_exact (suc n) (b ∷ r) = elim (take_exact n r) [ none ↦ none | some (xs, s) ↦ some (b ∷ xs, s) ]

unfoldable pub short_read : List ℕ → Error
short_read [] = eof
short_read (b ∷ r) = unexpected_eof

-- `io.ReadFull(r, buf)` for a buffer of `n` bytes.
unfoldable pub read_full : ℕ → List ℕ → Result Error (List ℕ × List ℕ)
unfolding take_exact short_read
read_full n r = elim (take_exact n r) [ none ↦ err (short_read r) | some p ↦ ok p ]

pub take_exact-append :
    (n : ℕ) (xs r : List ℕ) → length xs ≡ n → take_exact n (xs ++ r) ≡ some (xs, r)
unfolding take_exact
take_exact-append zero [] r h = refl
take_exact-append zero (x ∷ xs) r h = absurd (omega arith)
take_exact-append (suc n) [] r h = absurd (omega arith)
take_exact-append (suc n) (x ∷ xs) r h = ground (arith, take_exact-append n xs r (omega arith))

-- Reading as many bytes as were written gives them back, and leaves what follows.
pub read_full-append : (n : ℕ) (xs r : List ℕ) → length xs ≡ n → read_full n (xs ++ r) ≡ ok (xs, r)
unfolding read_full
read_full-append n xs r h = ground (arith, take_exact-append n xs r h)

-- `uint32(a)<<16 | uint32(b)<<8 | uint32(c)`
unfoldable pub be24 : ℕ → ℕ → ℕ → ℕ
be24 a b c = bit_or (bit_or (shl a 16) (shl b 8)) c

-- `uint32(a)<<24 | uint32(b)<<16 | uint32(c)<<8 | uint32(d)`
unfoldable pub be32 : ℕ → ℕ → ℕ → ℕ → ℕ
be32 a b c d = bit_or (bit_or (bit_or (shl a 24) (shl b 16)) (shl c 8)) d

be24_sum : (a b c : ℕ) → b < 256 → c < 256 → be24 a b c ≡ a * 65536 + b * 256 + c
unfolding be24
be24_sum a b c hb hc = omega (
  arith,
  bit_or_fields 16 a (b * 2 ^ 8) (omega arith),
  ap (λ (t : ℕ). bit_or t c) (bit_or_fields 16 a (b * 2 ^ 8) (omega arith)),
  bit_or_fields 8 (a * 256 + b) c (omega arith),
  ap (λ (t : ℕ). bit_or t c) regroup,
)
  where
    regroup : a * 2 ^ 16 + b * 2 ^ 8 ≡ (a * 256 + b) * 2 ^ 8
    regroup = omega arith

pub be32_sum :
    (a b c d : ℕ)
    → b < 256
    → c < 256
    → d < 256
    → be32 a b c d ≡ a * 16777216 + b * 65536 + c * 256 + d
unfolding be32 be24
be32_sum a b c d hb hc hd =
    omega (
      arith,
      ap (λ (t : ℕ). bit_or (bit_or t (c * 2 ^ 8)) d) first,
      be24_sum (a * 256 + b) c d hc hd,
    )
  where
    first : bit_or (a * 2 ^ 24) (b * 2 ^ 16) ≡ (a * 256 + b) * 2 ^ 16
    first = omega (arith, bit_or_fields 24 a (b * 2 ^ 16) (omega arith))

-- Three bytes carry the low 24 bits.
pub be24_bytes : (n : ℕ) → be24 (u8 (shr n 16)) (u8 (shr n 8)) (u8 n) ≡ n % 2 ^ 24
be24_bytes n =
    omega (arith, be24_sum (u8 (shr n 16)) (u8 (shr n 8)) (u8 n) (omega arith) (omega arith))

-- Four bytes carry the low 32 bits.
pub be32_bytes : (n : ℕ) → be32 (u8 (shr n 24)) (u8 (shr n 16)) (u8 (shr n 8)) (u8 n) ≡ n % 2 ^ 32
be32_bytes n = omega (
  arith,
  be32_sum (u8 (shr n 24)) (u8 (shr n 16)) (u8 (shr n 8)) (u8 n) (omega arith) (omega arith)
      (omega arith),
)
