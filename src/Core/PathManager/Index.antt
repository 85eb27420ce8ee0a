-- ===== src/Core/PathManager/Index.antt =====
-- What holds of the two maps of paths of mediamtx/internal/core/path_manager.go.
pub mod Created
pub mod Removed
use go_live_vod.Prelude.{
  ℕ, List, Some, [], inl, inr, none, some, subst, sym, ◌<◌, ◌↔◌, ◌∙◌, ◌∷◌, ◌≡◌, ◌≢◌, ◌⊎◌,
}
use go_live_vod.Core.PathManager.{members, Managed}
use go_live_vod.Prelude.Maps.{
  key_cases, lookup-insert_other, lookup-insert, lookup-delete_other, lookup-delete, delete, insert,
  lookup,
}

abbrev pub In : Managed → List Managed → Type 0
In p set = Some (λ q. q ≡ p) set

-- No ID stands twice in the set.
abbrev pub NoTwice : List Managed → Type 0
NoTwice [] = Unit {0}
NoTwice (p ∷ set) = ((q : Managed) → In q set → q.id ≢ p.id) × NoTwice set

-- The paths stand under their names and have IDs of their own; the sets of the configurations have
-- the paths that there are, once each, and none is empty.
abbrev pub IsIndexed : List (List ℕ × Managed) → List (List ℕ × List Managed) → ℕ → Type 0
IsIndexed paths by_conf next_id =
    ((n : List ℕ) (p : Managed) → lookup paths n ≡ some p → (p.name ≡ n) × (p.id < next_id))
    × ((n n' : List ℕ) (p p' : Managed)
        → lookup paths n ≡ some p
        → lookup paths n' ≡ some p'
        → p.id ≡ p'.id
        → n ≡ n')
    × ((c : List ℕ) (p : Managed)
        → In p (members by_conf c) ↔ (lookup paths p.name ≡ some p × p.conf_name ≡ c))
    × ((c : List ℕ) → lookup by_conf c ≢ some [])
    × ((c : List ℕ) → NoTwice (members by_conf c))

-- A map with one entry more.
pub added :
    {A : Type 0} (m : List (List ℕ × A)) (k n : List ℕ) (a b : A)
    → lookup (insert m k a) n ≡ some b
    → ((n ≡ k) × (b ≡ a)) ⊎ ((n ≢ k) × (lookup m n ≡ some b))
added m k n a b h = elim (key_cases k n) [
  | inl e ↦
      let now : lookup (insert m k a) n ≡ some a =
        subst (λ x. lookup (insert m k a) x ≡ some a) e (lookup-insert m k a) in
      inl (sym e, cc)
  | inr apart ↦ inr ((λ e. apart (sym e)), sym (lookup-insert_other m k n a apart) ∙ h)
]

-- A map with one entry less.
pub deleted :
    {A : Type 0} (m : List (List ℕ × A)) (k n : List ℕ) (b : A)
    → lookup (delete m k) n ≡ some b
    → (k ≢ n) × (lookup m n ≡ some b)
deleted m k n b h = elim (key_cases k n) [
  | inl e ↦
      let gone : lookup (delete m k) n ≡ none =
        subst (λ x. lookup (delete m k) x ≡ none) e (lookup-delete m k) in
      cc
  | inr apart ↦ (apart, sym (lookup-delete_other m k n apart) ∙ h)
]

-- A name of which there is a path is not free.
pub taken :
    {A : Type 0} (m : List (List ℕ × A)) (k n : List ℕ) (a : A)
    → lookup m k ≡ none
    → lookup m n ≡ some a
    → ¬ (k ≡ n)
taken m k n a free there e =
    let gone : lookup m n ≡ none = subst (λ x. lookup m x ≡ none) e free in cc

-- Under one name there is one path.
pub one_path :
    {A : Type 0} (m : List (List ℕ × A)) (k n : List ℕ) (a b : A)
    → lookup m n ≡ some a
    → lookup m k ≡ some b
    → n ≡ k
    → a ≡ b
one_path m k n a b h h' e =
    let again : lookup m k ≡ some a = subst (λ x. lookup m x ≡ some a) e h in cc

pub members-insert :
    (by_conf : List (List ℕ × List Managed)) (c : List ℕ) (set : List Managed)
    → members (insert by_conf c set) c ≡ set
unfolding members
members-insert by_conf c set = rw (lookup-insert by_conf c set)

pub members-insert_other :
    (by_conf : List (List ℕ × List Managed)) (c c' : List ℕ) (set : List Managed)
    → c ≢ c'
    → members (insert by_conf c set) c' ≡ members by_conf c'
unfolding members
members-insert_other by_conf c c' set apart = rw (lookup-insert_other by_conf c c' set apart)
