-- ===== src/Prelude/Text.antt =====
-- Go's strings as lists of bytes.
use Prim.Native.Nat.{ℕ}
use Prim.Native.Char.{code}
use Prim.Native.String.{String}
use mathlib.Core.Path.{◌≡◌, refl, subst}
use mathlib.Core.Logic.{◌↔◌}
use mathlib.Core.Bool.{Bool, true, false, ◌&&◌}
use mathlib.Core.List.{List, [], ◌∷◌, ◌++◌}
use native.Mathlib.Omega.{arith}
use go_live_vod.Prelude.Tests.{◌==◌}

-- A literal of ASCII characters.
abbrev pub bytes : String → List ℕ
bytes String.[] = []
bytes (String.◌∷◌ c s) = code c ∷ bytes s

-- `a == b`
unfoldable pub same : List ℕ → List ℕ → Bool
same [] [] = true
same (a ∷ xs) (b ∷ ys) = (a == b) && same xs ys
same _ _ = false

-- `strings.HasPrefix(s, prefix)`
unfoldable pub has_prefix : List ℕ → List ℕ → Bool
has_prefix s [] = true
has_prefix [] (b ∷ prefix) = false
has_prefix (a ∷ s) (b ∷ prefix) = (a == b) && has_prefix s prefix

same_sound : (a b : List ℕ) → same a b ≡ true → a ≡ b
unfolding same
same_sound [] [] h = refl
same_sound [] (b ∷ ys) h = cc
same_sound (a ∷ xs) [] h = cc
same_sound (a ∷ xs) (b ∷ ys) h = grind (arith, same_sound xs ys)

pub same_refl : (a : List ℕ) → same a a ≡ true
unfolding same
same_refl [] = refl
same_refl (a ∷ xs) = ground (arith, same_refl xs)

pub same_iff : (a b : List ℕ) → (same a b ≡ true) ↔ (a ≡ b)
same_iff a b = (same_sound a b, (λ e. subst (λ x. same a x ≡ true) e (same_refl a)))

pub has_prefix_iff :
    (s prefix : List ℕ) → (has_prefix s prefix ≡ true) ↔ ((rest : List ℕ) × (s ≡ prefix ++ rest))
unfolding has_prefix
has_prefix_iff s [] = ((λ h. (s, refl)), (λ h. refl))
has_prefix_iff [] (b ∷ prefix) = ((λ h. cc), (λ (rest, e). cc))
has_prefix_iff (a ∷ s) (b ∷ prefix) = (
  (λ h. let (rest, e) = (has_prefix_iff s prefix).0 (ground arith) in (rest, ground arith)),
  (λ (rest, e).
      let tail : s ≡ prefix ++ rest = cc in
      let head : a ≡ b = cc in
      let found = (has_prefix_iff s prefix).1 (rest, tail) in ground arith),
)
