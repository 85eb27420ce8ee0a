-- ===== src/Conf/Settings/Lists.antt =====
-- mediamtx/internal/conf: the settings that are lists of words (log_destination.go).
use mathlib.Core.List.{map-append}
use go_live_vod.Prelude.{
  ℕ, Bool, List, Option, [], arith, false, if◌then◌else◌, map, none, refl, some, true, ◌++◌, ◌||◌,
  ◌∷◌, ◌≡◌, Bool-cases, Option-cases, append-nil, append_assoc, inl, inr, subst, ◌↔◌, sym, ◌∙◌, All,
  ◌≢◌,
}
use go_live_vod.Prelude.Text.{bytes, same, same_iff}
use go_live_vod.Prelude.Iff.{iff_and}

pub data Destination : Type 0 where
  to_stdout to_file to_syslog : Destination

unfoldable pub marshal_destination : Destination → List ℕ
marshal_destination to_stdout = bytes "stdout"
marshal_destination to_file = bytes "file"
marshal_destination to_syslog = bytes "syslog"

unfoldable pub unmarshal_destination : List ℕ → Option Destination
unmarshal_destination s =
    if same s (bytes "stdout")
    then some to_stdout
    else if same s (bytes "file")
    then some to_file
    else if same s (bytes "syslog")
    then some to_syslog
    else none

abbrev pub same_destination : Destination → Destination → Bool
same_destination to_stdout to_stdout = true
same_destination to_file to_file = true
same_destination to_syslog to_syslog = true
same_destination _ _ = false

unfoldable pub contains : List Destination → Destination → Bool
contains [] v = false
contains (item ∷ d) v = same_destination item v || contains d v

unfoldable pub marshal_log_destinations : List Destination → List (List ℕ)
marshal_log_destinations d = map marshal_destination d

-- The loop of `UnmarshalJSON`: `d` is what has been read. A word that is unknown or set twice is an
-- error.
unfoldable pub read_log_destinations : List Destination → List (List ℕ) → Option (List Destination)
read_log_destinations d [] = some d
read_log_destinations d (dest ∷ rest) = elim (unmarshal_destination dest) [
  | none ↦ none
  | some v ↦ if contains d v then none else read_log_destinations (d ++ (v ∷ [])) rest
]

unfoldable pub unmarshal_log_destinations : List (List ℕ) → Option (List Destination)
unmarshal_log_destinations = read_log_destinations []

-- No destination stands twice.
abbrev pub IsDistinct : List Destination → Type 0
IsDistinct [] = Unit {0}
IsDistinct (v ∷ d) = All (λ w. w ≢ v) d × IsDistinct d

-- The same, as the code sees it.
abbrev IsChecked : List Destination → Type 0
IsChecked [] = Unit {0}
IsChecked (v ∷ d) = (contains d v ≡ false) × IsChecked d

same_destination_iff : (v w : Destination) → (same_destination v w ≡ false) ↔ (v ≢ w)
same_destination_iff v w = ground arith

contains_iff :
    (d : List Destination) (v : Destination) → (contains d v ≡ false) ↔ All (λ w. w ≢ v) d
unfolding contains
contains_iff [] v = ((λ h. tt), (λ h. refl))
contains_iff (w ∷ d) v = ground (arith, same_destination_iff w v, contains_iff d v)

IsChecked-iff : (d : List Destination) → IsChecked d ↔ IsDistinct d
IsChecked-iff [] = ((λ h. tt), (λ h. tt))
IsChecked-iff (v ∷ d) = iff_and (contains_iff d v) (IsChecked-iff d)

written_destination : (v : Destination) → unmarshal_destination (marshal_destination v) ≡ some v
unfolding unmarshal_destination marshal_destination same
written_destination to_stdout = refl
written_destination _ = refl

reads_destination :
    (s : List ℕ) (v : Destination) → unmarshal_destination s ≡ some v → marshal_destination v ≡ s
unfolding unmarshal_destination marshal_destination
reads_destination s v h =
    ground
      (arith, same_iff s (bytes "stdout"), same_iff s (bytes "file"), same_iff s (bytes "syslog"))

same_destination_comm : (v w : Destination) → same_destination v w ≡ same_destination w v
same_destination_comm v w = ground arith

contains-append :
    (d e : List Destination) (v : Destination)
    → contains (d ++ e) v ≡ (contains d v || contains e v)
unfolding contains
contains-append [] e v = refl
contains-append (w ∷ d) e v = ground (arith, contains-append d e v)

IsChecked-snoc :
    (d : List Destination) (v : Destination)
    → IsChecked d
    → contains d v ≡ false
    → IsChecked (d ++ (v ∷ []))
unfolding contains
IsChecked-snoc [] v h new = (refl, tt)
IsChecked-snoc (w ∷ d) v (fresh, h) new = (
  ground (arith, contains-append d (v ∷ []) w, same_destination_comm v w),
  IsChecked-snoc d v h (ground arith),
)

read_step :
    (d : List Destination) (word : List ℕ) (words : List (List ℕ)) (v : Destination)
    → unmarshal_destination word ≡ some v
    → contains d v ≡ false
    → read_log_destinations d (word ∷ words) ≡ read_log_destinations (d ++ (v ∷ [])) words
unfolding read_log_destinations
read_step d word words v known new = ground arith

read_sound :
    (d : List Destination) (words : List (List ℕ)) (out : List Destination)
    → IsChecked d
    → read_log_destinations d words ≡ some out
    → IsChecked out × (marshal_log_destinations out ≡ marshal_log_destinations d ++ words)
unfolding read_log_destinations marshal_log_destinations
read_sound d [] out h e =
    let same_list : d ≡ out = cc in (rw (← same_list) h, rw (← same_list, append-nil))
read_sound d (word ∷ words) out h e = elim (Option-cases (unmarshal_destination word)) [
  | inl unknown ↦ ground arith
  | inr (v, known) ↦ elim (Bool-cases (contains d v)) [
    | inl twice ↦ ground arith
    | inr new ↦
        let (distinct, written) =
          read_sound (d ++ (v ∷ [])) words out (IsChecked-snoc d v h new)
            (sym (read_step d word words v known new) ∙ e) in
        (distinct, rw (written, map-append, append_assoc, reads_destination word v known))
  ]
]

fresh_middle :
    (d e : List Destination) (v : Destination) → IsChecked (d ++ (v ∷ e)) → contains d v ≡ false
unfolding contains
fresh_middle [] e v h = refl
fresh_middle (w ∷ d) e v (fresh, h) =
    ground (arith, contains-append d (v ∷ e) w, fresh_middle d e v h, same_destination_comm v w)

read_complete :
    (d e : List Destination)
    → IsChecked (d ++ e)
    → read_log_destinations d (marshal_log_destinations e) ≡ some (d ++ e)
unfolding read_log_destinations marshal_log_destinations
read_complete d [] h = rw append-nil
read_complete d (v ∷ e) h =
    let regroup = append_assoc d (v ∷ []) e in
    read_step d (marshal_destination v) (marshal_log_destinations e) v (written_destination v)
      (fresh_middle d e v h)
    ∙ (rw regroup at (read_complete (d ++ (v ∷ [])) e (rw (← regroup) at h)))

-- Log destinations are read from a list of words just where no destination stands twice and the
-- words are those that are written for them; what is read then is those destinations in order.
pub log_destinations_iff :
    (words : List (List ℕ)) (d : List Destination)
    → (unmarshal_log_destinations words ≡ some d)
      ↔ (IsDistinct d × (marshal_log_destinations d ≡ words))
unfolding unmarshal_log_destinations marshal_log_destinations
log_destinations_iff words d = (
  λ h.
      let (checked, written) = read_sound [] words d tt h in ((IsChecked-iff d).0 checked, written),
  λ (distinct, written).
      subst (λ w. read_log_destinations [] w ≡ some d) written
        (read_complete [] d ((IsChecked-iff d).1 distinct)),
)
