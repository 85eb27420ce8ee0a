-- ===== src/Core/LiveStream/Names.antt =====
-- mediamtx/internal/liveStream/liveStream.go: what NewLiveStream takes from the name of a path.
use go_live_vod.Prelude.{
  ℕ, ◌≡◌, ==_iff, Bool, Bool-cases, List, [], ap, append-nil, false, if◌then◌else◌, inl, inr, none,
  refl, some, sym, true, ◌++◌, ◌==◌, ◌∙◌, ◌∷◌,
}
use go_live_vod.Core.LiveStream.{LiveStream, new_live_stream, split, configured}

abbrev pub has_slash : List ℕ → Bool
has_slash [] = false
has_slash (c ∷ s) = if c == 47 then true else has_slash s

split_without : (s : List ℕ) → has_slash s ≡ false → split s ≡ s ∷ []
unfolding split
split_without [] h = refl
split_without (c ∷ s) h = elim (Bool-cases (c == 47)) [
  | inl e ↦ cc (rw e at h)
  | inr e ↦ rw (e, split_without s (rw e at h))
]

-- The first part goes up to the first slash, and the rest is split by itself.
split_with :
    (s : List ℕ)
    → has_slash s ≡ true
    → (p rest : List ℕ) × (split s ≡ p ∷ split rest)
      × (s ≡ p ++ (47 ∷ rest))
      × (has_slash p ≡ false)
unfolding split
split_with [] h = cc
split_with (c ∷ s) h = elim (Bool-cases (c == 47)) [
  | inl e ↦ ([], s, rw e, ap (λ (k : ℕ). k ∷ s) ((==_iff c 47).0 e), refl)
  | inr e ↦
      let (p, rest, cut, whole, none_left) = split_with s (rw e at h) in
      (c ∷ p, rest, rw (e, cut), ap (◌∷◌ c) whole, rw e none_left)
]

-- Nothing, or what begins with a slash.
abbrev pub AtSlash : List ℕ → Type 0
AtSlash [] = Unit {0}
AtSlash (c ∷ s) = c ≡ 47

-- The part behind the first slash.
first_part :
    (s : List ℕ)
    → (id : List ℕ) × (ids : List (List ℕ)) × (more : List ℕ) × (split s ≡ id ∷ ids)
      × (s ≡ id ++ more)
      × (has_slash id ≡ false)
      × AtSlash more
first_part s = elim (Bool-cases (has_slash s)) [
  | inl e ↦
      let (p, rest, cut, whole, none_left) = split_with s e in
      (p, split rest, 47 ∷ rest, cut, whole, none_left, refl)
  | inr e ↦ (s, [], [], split_without s e, sym (append-nil s), e, tt)
]

-- A name with a slash names a live stream: its namespace is what stands before the first slash, and
-- its ID what follows up to the next slash or the end.
pub new_live_stream-slash :
    (name : List ℕ)
    → has_slash name ≡ true
    → (ls : LiveStream) × (more : List ℕ) × (new_live_stream name ≡ some ls)
      × (ls.stream_name ≡ name)
      × (name ≡ ls.namespace_ ++ (47 ∷ (ls.id ++ more)))
      × (has_slash ls.namespace_ ≡ false)
      × (has_slash ls.id ≡ false)
      × AtSlash more
unfolding new_live_stream configured
new_live_stream-slash name h =
    let (namespace, rest, cut, whole, plain) = split_with name h in
    let (id, ids, more, cut_rest, whole_rest, plain_id, at) = first_part rest in
    (
      configured id namespace name,
      more,
      rw (cut, cut_rest, new_live_stream),
      refl,
      whole ∙ ap (λ (r : List ℕ). namespace ++ (47 ∷ r)) whole_rest,
      plain,
      plain_id,
      at,
    )

-- NewLiveStream panics on a name without a slash.
pub new_live_stream-no_slash :
    (name : List ℕ) → has_slash name ≡ false → new_live_stream name ≡ none
unfolding new_live_stream
new_live_stream-no_slash name h = rw (split_without name h, new_live_stream)
