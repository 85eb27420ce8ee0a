-- ===== src/Rtmp/Ensures.antt =====
-- What a call of a reader of protocols/rtmp ensures on any input: a property of its result, if it
-- has one, and otherwise an error that the source itself gives.
use go_live_vod.Prelude.{
  ℕ, zero, suc, ◌+◌, ◌≡◌, ◌≢◌, List, [], ◌∷◌, some, arith, length, Option-cases, inl, inr,
}
use go_live_vod.Prelude.Result.{Result, ok, err, ◌>>=◌}
use go_live_vod.Rtmp.Stream.{Error, out_of_fuel, take_exact, read_full, short_read}

abbrev pub Ensures : {A : Type 0} → (A → Type 0) → Result Error A → Type 0
Ensures P (ok a) = P a
Ensures P (err e) = e ≢ out_of_fuel

-- The rule for a chain of calls.
pub Ensures-bind :
    {A B : Type 0} (P : A → Type 0) (Q : B → Type 0) (m : Result Error A) (f : A → Result Error B)
    → Ensures P m
    → ((a : A) → P a → Ensures Q (f a))
    → Ensures Q (m >>= f)
Ensures-bind P Q (ok a) f h g = g a h
Ensures-bind P Q (err e) f h g = h

pub Ensures-weaken :
    {A : Type 0} (P Q : A → Type 0) (m : Result Error A)
    → Ensures P m
    → ((a : A) → P a → Q a)
    → Ensures Q m
Ensures-weaken P Q (ok a) h g = g a h
Ensures-weaken P Q (err e) h g = h

-- A read of `n` bytes gives `n` bytes and takes them off the stream.
abbrev pub Reads : ℕ → List ℕ → List ℕ × List ℕ → Type 0
Reads n r (xs, s) = (length xs ≡ n) × (length s + n ≡ length r)

take_exact-Reads : (n : ℕ) (r xs s : List ℕ) → take_exact n r ≡ some (xs, s) → Reads n r (xs, s)
unfolding take_exact
take_exact-Reads zero r xs s e = ground arith
take_exact-Reads (suc n) [] xs s e = cc
take_exact-Reads (suc n) (b ∷ r) xs s e = elim (Option-cases (take_exact n r)) [
  | inl h ↦ cc (rw h at e)
  | inr ((ys, t), h) ↦ ground (arith, rw h at e, take_exact-Reads n r ys t h)
]

short_read-ne : (r : List ℕ) → short_read r ≢ out_of_fuel
unfolding short_read
short_read-ne [] e = cc
short_read-ne (b ∷ r) e = cc

pub read_full-Reads : (n : ℕ) (r : List ℕ) → Ensures (Reads n r) (read_full n r)
unfolding read_full
read_full-Reads n r = elim (Option-cases (take_exact n r)) [
  | inl h ↦ rw (h, Ensures) (short_read-ne r)
  | inr (p, h) ↦ rw (h, Ensures) (take_exact-Reads n r p.0 p.1 h)
]
