-- ===== src/Rtmp/Amf0/Lookup.antt =====
-- protocols/rtmp/amf0/object.go: the value of a key in an object, and that value as a string or a
-- number.
use go_live_vod.Prelude.{
  ℕ, true, ◌≡◌, ◌≢◌, ◌⊎◌, ◌↔◌, inl, inr, subst, List, Option, none, some, Bool-cases, if◌then◌else◌,
}
use go_live_vod.Prelude.Text.{same, same_iff, same_refl}
use go_live_vod.Rtmp.Amf0.{Value, Entries, entry, no_entries, number, string}

unfoldable pub get : List ℕ → Entries → Option Value
get key no_entries = none
get key (entry k v es) = if same k key then some v else get key es

-- `v.(string)` and `v.(float64)`
unfoldable pub as_string : Option Value → Option (List ℕ)
as_string (some (string s)) = some s
as_string _ = none

unfoldable pub as_float64 : Option Value → Option ℕ
as_float64 (some (number n)) = some n
as_float64 _ = none

unfoldable pub get_string : List ℕ → Entries → Option (List ℕ)
get_string key es = as_string (get key es)

unfoldable pub get_float64 : List ℕ → Entries → Option ℕ
get_float64 key es = as_float64 (get key es)

-- The value of the first entry with the key.
abbrev pub IsFirst : List ℕ → Value → Entries → Type 0
IsFirst key v no_entries = ⊥
IsFirst key v (entry k v' es) = (k ≡ key × v' ≡ v) ⊎ (k ≢ key × IsFirst key v es)

get_sound : (key : List ℕ) (es : Entries) (v : Value) → get key es ≡ some v → IsFirst key v es
unfolding get
get_sound key no_entries v h = cc
get_sound key (entry k v' es) v h = elim (Bool-cases (same k key)) [
  | inl equal ↦ let found : some v' ≡ some v = rw equal at h in inl ((same_iff k key).0 equal, cc)
  | inr other ↦ inr (
    λ e. let own : same k key ≡ true = subst (λ x. same k x ≡ true) e (same_refl k) in cc,
    get_sound key es v (rw other at h),
  )
]

get_complete : (key : List ℕ) (es : Entries) (v : Value) → IsFirst key v es → get key es ≡ some v
unfolding get
get_complete key no_entries v h = absurd h
get_complete key (entry k v' es) v (inl (equal, e)) = rw (equal, same_refl key, e)
get_complete key (entry k v' es) v (inr (other, h)) = elim (Bool-cases (same k key)) [
  | inl equal ↦ absurd (other ((same_iff k key).0 equal))
  | inr differ ↦ rw differ (get_complete key es v h)
]

as_string-inv : (o : Option Value) (s : List ℕ) → as_string o ≡ some s → o ≡ some (string s)
unfolding as_string
as_string-inv (some (string t)) s h = cc
as_string-inv _ s h = cc

as_float64-inv : (o : Option Value) (n : ℕ) → as_float64 o ≡ some n → o ≡ some (number n)
unfolding as_float64
as_float64-inv (some (number t)) n h = cc
as_float64-inv _ n h = cc

-- `Get` finds a value just where it is that of the first entry with the key; `GetString` and
-- `GetFloat64` find a string or a number just where that value is it.
pub get_lem :
    (key : List ℕ) (es : Entries)
    → ((v : Value) → (get key es ≡ some v) ↔ IsFirst key v es)
      × ((s : List ℕ) → (get_string key es ≡ some s) ↔ IsFirst key (string s) es)
      × ((n : ℕ) → (get_float64 key es ≡ some n) ↔ IsFirst key (number n) es)
unfolding get_string get_float64 as_string as_float64
get_lem key es = (
  (λ v. (get_sound key es v, get_complete key es v)),
  (λ s. (
    (λ h. get_sound key es (string s) (as_string-inv (get key es) s h)),
    (λ f. rw (get_complete key es (string s) f)),
  )),
  (λ n. (
    (λ h. get_sound key es (number n) (as_float64-inv (get key es) n h)),
    (λ f. rw (get_complete key es (number n) f)),
  )),
)
