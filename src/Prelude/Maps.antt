-- ===== src/Prelude/Maps.antt =====
-- Go's maps with strings for keys, as lists of entries in the order in which a range loop takes them.
use go_live_vod.Prelude.{
  ℕ, Bool-cases, List, Option, Some, [], ap, arith, false, if◌then◌else◌, inl, inr, none, refl,
  some, sym, true, ◌∙◌, ◌∷◌, ◌≡◌, ◌≢◌, ◌⊎◌,
}
use go_live_vod.Prelude.Text.{same_iff, same, same_refl}

pub same_no : (k k' : List ℕ) → k ≢ k' → same k k' ≡ false
same_no k k' apart = elim (Bool-cases (same k k')) [
  | inl e ↦ absurd (apart ((same_iff k k').0 e))
  | inr e ↦ e
]

module _ {A : Type 0} where
  unfoldable pub lookup : List (List ℕ × A) → List ℕ → Option A
  lookup [] k = none
  lookup ((k', a) ∷ m) k = if same k' k then some a else lookup m k

  unfoldable pub delete : List (List ℕ × A) → List ℕ → List (List ℕ × A)
  delete [] k = []
  delete ((k', a) ∷ m) k = if same k' k then delete m k else (k', a) ∷ delete m k

  unfoldable pub insert : List (List ℕ × A) → List ℕ → A → List (List ℕ × A)
  insert m k a = (k, a) ∷ delete m k

  -- The map has the entry.
  abbrev pub Has : List (List ℕ × A) → List ℕ → A → Type 0
  Has m k a = Some (λ e. e ≡ (k, a)) m

  pub lookup_here : (m : List (List ℕ × A)) (k : List ℕ) (a : A) → lookup ((k, a) ∷ m) k ≡ some a
  unfolding lookup
  lookup_here m k a = rw (same_refl k)

  pub lookup-delete : (m : List (List ℕ × A)) (k : List ℕ) → lookup (delete m k) k ≡ none
  unfolding lookup delete
  lookup-delete [] k = refl
  lookup-delete ((k', a) ∷ m) k = elim (Bool-cases (same k' k)) [
    | inl e ↦ rw e (lookup-delete m k)
    | inr e ↦ rw (e, e) (lookup-delete m k)
  ]

  pub lookup-delete_other :
      (m : List (List ℕ × A)) (k k' : List ℕ) → k ≢ k' → lookup (delete m k) k' ≡ lookup m k'
  unfolding lookup delete
  lookup-delete_other [] k k' apart = refl
  lookup-delete_other ((j, a) ∷ m) k k' apart = elim (Bool-cases (same j k)) [
    | inl e ↦
        let other : same j k' ≡ false =
          same_no j k' (λ e'. apart (sym ((same_iff j k).0 e) ∙ e')) in
        rw (e, other) (lookup-delete_other m k k' apart)
    | inr e ↦ elim (Bool-cases (same j k')) [
      | inl e' ↦ rw (e, e')
      | inr e' ↦ rw (e, e') (lookup-delete_other m k k' apart)
    ]
  ]

  pub lookup-insert :
      (m : List (List ℕ × A)) (k : List ℕ) (a : A) → lookup (insert m k a) k ≡ some a
  unfolding insert
  lookup-insert m k a = lookup_here (delete m k) k a

  pub lookup-insert_other :
      (m : List (List ℕ × A)) (k k' : List ℕ) (a : A)
      → k ≢ k'
      → lookup (insert m k a) k' ≡ lookup m k'
  unfolding insert lookup
  lookup-insert_other m k k' a apart = rw (same_no k k' apart) (lookup-delete_other m k k' apart)

  -- What is looked up is an entry, and without an entry nothing is found.
  pub lookup_sound : (m : List (List ℕ × A)) (k : List ℕ) (a : A) → lookup m k ≡ some a → Has m k a
  unfolding lookup
  lookup_sound [] k a h = cc
  lookup_sound ((k', a') ∷ m) k a h = elim (Bool-cases (same k' k)) [
    | inl e ↦
        let key : k' ≡ k = (same_iff k' k).0 e in let value : a' ≡ a = ground arith in inl (cc)
    | inr e ↦ inr (lookup_sound m k a (ground arith))
  ]

  pub lookup-none : (m : List (List ℕ × A)) (k : List ℕ) (a : A) → lookup m k ≡ none → ¬ (Has m k a)
  unfolding lookup
  lookup-none [] k a h has = has
  lookup-none ((k', a') ∷ m) k a h (inl e) =
      let key : k' ≡ k = ap (λ x. x.0) e in
      let found : same k' k ≡ true = (same_iff k' k).1 key in ground arith
  lookup-none ((k', a') ∷ m) k a h (inr has) = elim (Bool-cases (same k' k)) [
    | inl e ↦ ground arith
    | inr e ↦ lookup-none m k a (ground arith) has
  ]

pub key_cases : (k k' : List ℕ) → (k ≡ k') ⊎ (k ≢ k')
key_cases k k' = elim (Bool-cases (same k k')) [
  | inl e ↦ inl ((same_iff k k').0 e)
  | inr e ↦ inr (λ h. let yes : same k k' ≡ true = (same_iff k k').1 h in cc)
]
