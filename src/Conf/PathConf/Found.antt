-- ===== src/Conf/PathConf/Found.antt =====
-- What FindPathConf of mediamtx/internal/conf/path.go finds, said without the order of a map.
use go_live_vod.Prelude.{
  ℕ, Bool, Bool-cases, List, Option, Option-cases, [], ap, false, inl, inr, none, refl, some, subst,
  true, ◌∙◌, ◌∷◌, ◌≡◌, ◌⊎◌, sym,
}
use go_live_vod.Conf.PathConf.{
  not_configured, invalid_path_name, FindError, submatch, is_all, is_valid_path_name,
  find_path_conf, find_regexp, PathConf, find_all, Settings, nil_regexp, PathNameError, find_valid,
}
use go_live_vod.Prelude.Result.{err, ok, Result}
use go_live_vod.Prelude.Maps.{Has, lookup, lookup-none, lookup_sound}

module _ (settings : Settings) where
  -- The configuration matches the name.
  abbrev pub MatchesWith : List ℕ → PathConf settings → List (List ℕ) → Type 0
  MatchesWith name c m = submatch settings c.regexp name ≡ some m

  -- An entry for all other paths, or another.
  abbrev pub Stands : Bool → List (List ℕ × PathConf settings) → PathConf settings → Type 0
  Stands all confs c = (key : List ℕ) × Has confs key c × (is_all key ≡ all)

  abbrev pub NoneMatches : Bool → List (List ℕ × PathConf settings) → List ℕ → Type 0
  NoneMatches all confs name =
      (c : PathConf settings) → Stands all confs c → submatch settings c.regexp name ≡ none

  abbrev pub IsUnlisted : List (List ℕ × PathConf settings) → List ℕ → Type 0
  IsUnlisted confs name = (c : PathConf settings) → ¬ (Has confs name c)

  -- A configuration of that name, else one whose regular expression matches, else one for all other
  -- paths that matches.
  abbrev pub IsFound :
      List (List ℕ × PathConf settings)
      → List ℕ
      → Result FindError (PathConf settings × List (List ℕ))
      → Type 0
  IsFound confs name (err (invalid_path_name e)) = is_valid_path_name name ≡ err e
  IsFound confs name (err nil_regexp) = ⊥
  IsFound confs name (err not_configured) =
      (is_valid_path_name name ≡ ok tt)
      × IsUnlisted confs name
      × NoneMatches false confs name
      × NoneMatches true confs name
  IsFound confs name (ok (c, m)) =
      (is_valid_path_name name ≡ ok tt)
      × ((Has confs name c × (m ≡ []))
          ⊎ (IsUnlisted confs name × MatchesWith name c m × Stands false confs c)
          ⊎ (IsUnlisted confs name
              × NoneMatches false confs name
              × MatchesWith name c m
              × Stands true confs c))

  -- The configurations of all other paths have a regular expression.
  abbrev pub HasRegexps : List (List ℕ × PathConf settings) → Type 0
  HasRegexps confs =
      (c : PathConf settings) → Stands true confs c → (re : settings.Regexp) × (c.regexp ≡ some re)

  behind :
      {all : Bool} {c : PathConf settings} (e : List ℕ × PathConf settings)
      (confs : List (List ℕ × PathConf settings))
      → Stands all confs c
      → Stands all (e ∷ confs) c
  behind e confs (key, has, kind) = (key, inr has, kind)

  -- One entry more of which none matches.
  more :
      (all : Bool) (k : List ℕ) (c' : PathConf settings) (confs : List (List ℕ × PathConf settings))
      (name : List ℕ)
      → (is_all k ≡ all → submatch settings c'.regexp name ≡ none)
      → NoneMatches all confs name
      → NoneMatches all ((k, c') ∷ confs) name
  more all k c' confs name here rest c (key, inl e, kind) =
      let same_key : k ≡ key = ap (λ x. x.0) e in
      let same_conf : c' ≡ c = ap (λ x. x.1) e in
      subst (λ x. submatch settings x.regexp name ≡ none) same_conf
        (here (ap is_all same_key ∙ kind))
  more all k c' confs name here rest c (key, inr has, kind) = rest c (key, has, kind)

  -- What the loop over the regular expressions may come to.
  abbrev RegexpOutcome :
      List (List ℕ × PathConf settings)
      → List ℕ
      → Option (PathConf settings × List (List ℕ))
      → Type 0
  RegexpOutcome confs name none = NoneMatches false confs name
  RegexpOutcome confs name (some (c, m)) = MatchesWith name c m × Stands false confs c

  more_regexp :
      (k : List ℕ) (c' : PathConf settings) (confs : List (List ℕ × PathConf settings))
      (name : List ℕ) (r : Option (PathConf settings × List (List ℕ)))
      → (is_all k ≡ false → submatch settings c'.regexp name ≡ none)
      → RegexpOutcome confs name r
      → RegexpOutcome ((k, c') ∷ confs) name r
  more_regexp k c' confs name none here rest = more false k c' confs name here rest
  more_regexp k c' confs name (some (c, m)) here (matches, stands) =
      (matches, behind (k, c') confs stands)

  find_regexp-RegexpOutcome :
      (confs : List (List ℕ × PathConf settings)) (name : List ℕ)
      → RegexpOutcome confs name (find_regexp settings confs name)
  unfolding find_regexp
  find_regexp-RegexpOutcome [] name = λ c (key, has, kind). absurd has
  find_regexp-RegexpOutcome ((k, c') ∷ confs) name =
      let rest = find_regexp-RegexpOutcome confs name in
      elim (Bool-cases (is_all k)) [
        | inl all ↦
            rw all
              (more_regexp k c' confs name (find_regexp settings confs name) (λ other. cc) rest)
        | inr other ↦ elim (Option-cases (submatch settings c'.regexp name)) [
          | inl misses ↦
              rw (other, misses)
                (more_regexp k c' confs name (find_regexp settings confs name) (λ _. misses) rest)
          | inr (m, found) ↦ rw (other, found) (found, (k, inl refl, other))
        ]
      ]

  abbrev AllOutcome :
      List (List ℕ × PathConf settings)
      → List ℕ
      → Result FindError (PathConf settings × List (List ℕ))
      → Type 0
  AllOutcome confs name (err e) = (e ≡ not_configured) × NoneMatches true confs name
  AllOutcome confs name (ok (c, m)) = MatchesWith name c m × Stands true confs c

  more_all :
      (k : List ℕ) (c' : PathConf settings) (confs : List (List ℕ × PathConf settings))
      (name : List ℕ) (r : Result FindError (PathConf settings × List (List ℕ)))
      → (is_all k ≡ true → submatch settings c'.regexp name ≡ none)
      → AllOutcome confs name r
      → AllOutcome ((k, c') ∷ confs) name r
  more_all k c' confs name (err e) here (same_error, rest) =
      (same_error, more true k c' confs name here rest)
  more_all k c' confs name (ok (c, m)) here (matches, stands) =
      (matches, behind (k, c') confs stands)

  all_misses :
      (k : List ℕ) (c : PathConf settings) (re : settings.Regexp)
      (confs : List (List ℕ × PathConf settings)) (name : List ℕ)
      → is_all k ≡ true
      → c.regexp ≡ some re
      → settings.find_string_submatch re name ≡ none
      → find_all settings ((k, c) ∷ confs) name ≡ find_all settings confs name
  unfolding find_all
  all_misses k c re confs name all e misses = rw (all, e, misses)

  all_matches :
      (k : List ℕ) (c : PathConf settings) (re : settings.Regexp)
      (confs : List (List ℕ × PathConf settings)) (name : List ℕ) (m : List (List ℕ))
      → is_all k ≡ true
      → c.regexp ≡ some re
      → settings.find_string_submatch re name ≡ some m
      → find_all settings ((k, c) ∷ confs) name ≡ ok (c, m)
  unfolding find_all
  all_matches k c re confs name m all e found = rw (all, e, found)

  find_all-AllOutcome :
      (confs : List (List ℕ × PathConf settings)) (name : List ℕ)
      → HasRegexps confs
      → AllOutcome confs name (find_all settings confs name)
  unfolding find_all
  find_all-AllOutcome [] name regexps = (refl, λ c (key, has, kind). absurd has)
  find_all-AllOutcome ((k, c') ∷ confs) name regexps =
      let rest =
        find_all-AllOutcome confs name (λ c stands. regexps c (behind (k, c') confs stands)) in
      elim (Bool-cases (is_all k)) [
        | inl all ↦
            let (re, e) = regexps c' (k, inl refl, all) in
            elim (Option-cases (settings.find_string_submatch re name)) [
              | inl misses ↦
                  subst (AllOutcome ((k, c') ∷ confs) name)
                    (sym (all_misses k c' re confs name all e misses))
                    (more_all k c' confs name (find_all settings confs name) (λ _. rw e misses)
                      rest)
              | inr (m, found) ↦
                  subst (AllOutcome ((k, c') ∷ confs) name)
                    (sym (all_matches k c' re confs name m all e found))
                    (rw e found, (k, inl refl, all))
            ]
        | inr other ↦
            rw other (more_all k c' confs name (find_all settings confs name) (λ all. cc) rest)
      ]

  all-IsFound :
      (confs : List (List ℕ × PathConf settings)) (name : List ℕ)
      (r : Result FindError (PathConf settings × List (List ℕ)))
      → is_valid_path_name name ≡ ok tt
      → IsUnlisted confs name
      → NoneMatches false confs name
      → AllOutcome confs name r
      → IsFound confs name r
  all-IsFound confs name (err not_configured) valid unlisted none_matches (e, rest) =
      (valid, unlisted, none_matches, rest)
  all-IsFound confs name (err nil_regexp) valid unlisted none_matches (e, rest) = cc
  all-IsFound confs name (err (invalid_path_name x)) valid unlisted none_matches (e, rest) = cc
  all-IsFound confs name (ok (c, m)) valid unlisted none_matches (matches, stands) =
      (valid, inr (inr (unlisted, none_matches, matches, stands)))

  regexp-IsFound :
      (confs : List (List ℕ × PathConf settings)) (name : List ℕ)
      (r : Option (PathConf settings × List (List ℕ)))
      → is_valid_path_name name ≡ ok tt
      → IsUnlisted confs name
      → HasRegexps confs
      → RegexpOutcome confs name r
      → IsFound confs name (elim r [ some found ↦ ok found | none ↦ find_all settings confs name ])
  regexp-IsFound confs name none valid unlisted regexps none_matches =
      all-IsFound confs name (find_all settings confs name) valid unlisted none_matches
        (find_all-AllOutcome confs name regexps)
  regexp-IsFound confs name (some (c, m)) valid unlisted regexps (matches, stands) =
      (valid, inr (inl (unlisted, matches, stands)))

  listed-IsFound :
      (confs : List (List ℕ × PathConf settings)) (name : List ℕ)
      (listed : Option (PathConf settings))
      → lookup confs name ≡ listed
      → is_valid_path_name name ≡ ok tt
      → HasRegexps confs
      → IsFound confs name (elim listed [
        | some c ↦ ok (c, [])
        | none ↦ elim (find_regexp settings confs name) [
          | some found ↦ ok found
          | none ↦ find_all settings confs name
        ]
      ])
  listed-IsFound confs name none missing valid regexps =
      regexp-IsFound confs name (find_regexp settings confs name) valid
        (λ c. lookup-none confs name c missing) regexps (find_regexp-RegexpOutcome confs name)
  listed-IsFound confs name (some c) listed valid regexps =
      (valid, inl (lookup_sound confs name c listed, refl))

  named-IsFound :
      (confs : List (List ℕ × PathConf settings)) (name : List ℕ)
      (v : Result PathNameError (Unit {0}))
      → is_valid_path_name name ≡ v
      → HasRegexps confs
      → IsFound confs name
          (elim v [ err e ↦ err (invalid_path_name e) | ok t ↦ find_valid settings confs name ])
  named-IsFound confs name (err e) valid regexps = valid
  named-IsFound confs name (ok t) valid regexps =
      listed-IsFound confs name (lookup confs name) refl valid regexps

  -- Where the configurations of all other paths have a regular expression, FindPathConf finds for a
  -- valid name the configuration of that name, else one whose regular expression matches, else one of
  -- all other paths that matches; there is none where it says so, and an invalid name is an error.
  pub find_path_conf-IsFound :
      (confs : List (List ℕ × PathConf settings)) (name : List ℕ)
      → HasRegexps confs
      → IsFound confs name (find_path_conf settings confs name)
  unfolding find_path_conf
  find_path_conf-IsFound confs name regexps =
      named-IsFound confs name (is_valid_path_name name) refl regexps
