-- ===== src/Prelude/Bits.antt =====
-- Shifts, masks and `|` of Go's unsigned integers, and their laws as arithmetic.
use Prim.Native.Nat.{
  ℕ, zero, suc, ◌+◌, ◌*◌, ◌/◌, ◌%◌, ◌^◌, ◌≤◌, ◌<◌, max, bit_and, bit_or, digits, bit_or-bitwise,
}
use mathlib.Core.Path.{◌≡◌, refl, ap}
use mathlib.Core.Bool.{Bool, true, false}
use mathlib.Core.Logic.{inl, inr}
use native.Mathlib.Nat.{pow-suc}
use native.Mathlib.Omega.{arith}
use go_live_vod.Prelude.Tests.{◌==◌, ==_iff, if◌then◌else◌, Bool-cases}

-- `x << k`, where the result fits its type, and `x >> k`.
abbrev pub shl : ℕ → ℕ → ℕ
shl x k = x * 2 ^ k

abbrev pub shr : ℕ → ℕ → ℕ
shr x k = x / 2 ^ k

-- The conversions `byte(x)` and `uint32(x)`.
abbrev pub u8 : ℕ → ℕ
u8 x = x % 256

abbrev pub u32 : ℕ → ℕ
u32 x = x % 2 ^ 32

-- Two functions that agree on the numbers below `limit`, checked by evaluation.
unfoldable pub agree_below : (limit : ℕ) (f g : ℕ → ℕ) → Bool
agree_below zero f g = true
agree_below (suc limit) f g = if f limit == g limit then agree_below limit f g else false

pub agree_at :
    (f g : ℕ → ℕ) (limit : ℕ) → agree_below limit f g ≡ true → (x : ℕ) → x < limit → f x ≡ g x
unfolding agree_below
agree_at f g zero checked x h = absurd (omega arith)
agree_at f g (suc limit) checked x h = elim (Bool-cases (f limit == g limit)) [
  | inr differ ↦ cc (rw differ at checked)
  | inl top ↦ elim (Bool-cases (x == limit)) [
    | inl last ↦ rw ((==_iff x limit).0 last) ((==_iff (f limit) (g limit)).0 top)
    | inr below ↦ agree_at f g limit (rw top at checked) x (ground arith)
  ]
]

masks_agree : agree_below 256 (λ b. bit_and b 0x3f) (λ b. b % 64) ≡ true
unfolding agree_below
masks_agree = refl

-- `b & 0x3F` on a byte.
pub bit_and_low_six : (b : ℕ) → b < 256 → bit_and b 0x3f ≡ b % 64
bit_and_low_six = agree_at (λ b. bit_and b 0x3f) (λ b. b % 64) 256 masks_agree

tags_agree :
    (agree_below 64 (bit_or 64) (◌+◌ 64) ≡ true)
    × (agree_below 64 (bit_or 128) (◌+◌ 128) ≡ true)
    × (agree_below 64 (bit_or 192) (◌+◌ 192) ≡ true)
unfolding agree_below
tags_agree = (refl, refl, refl)

-- `t<<6 | id` for a chunk stream ID of six bits.
pub bit_or_tags :
    (i : ℕ) → i < 64 → (bit_or 64 i ≡ 64 + i) × (bit_or 128 i ≡ 128 + i) × (bit_or 192 i ≡ 192 + i)
bit_or_tags i h = (
  agree_at (bit_or 64) (◌+◌ 64) 64 tags_agree.0 i h,
  agree_at (bit_or 128) (◌+◌ 128) 64 tags_agree.1 i h,
  agree_at (bit_or 192) (◌+◌ 192) 64 tags_agree.2 i h,
)

-- The digit recursion behind `|` does not depend on its fuel.
or_digits_fuel :
    (n m a b : ℕ) → a ≤ n → a ≤ m → digits (λ y. y) max n a b ≡ digits (λ y. y) max m a b
or_digits_fuel zero zero a b p q = refl
or_digits_fuel zero (suc m) zero b p q = refl
or_digits_fuel zero (suc m) (suc a) b p q = absurd (omega arith)
or_digits_fuel (suc n) m zero b p q = or_digits_zero m b
  where
    or_digits_zero : (m b : ℕ) → digits (λ y. y) max (suc n) zero b ≡ digits (λ y. y) max m zero b
    or_digits_zero zero b = refl
    or_digits_zero (suc m) b = refl
or_digits_fuel (suc n) zero (suc a) b p q = absurd (omega arith)
or_digits_fuel (suc n) (suc m) (suc a) b p q =
    rw (or_digits_fuel n m (suc a / 2) (b / 2) (omega arith) (omega arith))

-- One binary digit of `|`.
bit_or_digit : (a b : ℕ) → bit_or a b ≡ bit_or (a / 2) (b / 2) * 2 + max (a % 2) (b % 2)
bit_or_digit zero b = omega (arith, bit_or-bitwise 0 b, bit_or-bitwise (0 / 2) (b / 2))
bit_or_digit (suc a) b = omega (
  arith,
  bit_or-bitwise (suc a) b,
  bit_or-bitwise (suc a / 2) (b / 2),
  or_digits_fuel a (suc a / 2) (suc a / 2) (b / 2) (omega arith) (omega arith),
)

bit_or_zero_below : (n a : ℕ) → a ≤ n → bit_or a 0 ≡ a
bit_or_zero_below zero a h = let e : a ≡ 0 = omega arith in rw e
bit_or_zero_below (suc n) zero h = refl
bit_or_zero_below (suc n) (suc a) h =
    omega (arith, bit_or_digit (suc a) 0, bit_or_zero_below n (suc a / 2) (omega arith))

-- `q<<k | r` puts two fields side by side when `r` fits `k` bits.
pub bit_or_fields : (k q r : ℕ) → r < 2 ^ k → bit_or (q * 2 ^ k) r ≡ q * 2 ^ k + r
bit_or_fields zero q r h =
    let e : r ≡ 0 = omega arith in
    rw e (omega (arith, bit_or_zero_below (q * 2 ^ 0) (q * 2 ^ 0) (omega arith)))
bit_or_fields (suc k) q r h = ground (
  arith,
  bit_or_digit (q * 2 ^ suc k) r,
  ap (λ (t : ℕ). q * t) (pow-suc 2 k),
  bit_or_fields k q (r / 2) (omega (arith, pow-suc 2 k)),
)
