-- ===== src/Conf/PathConf.antt =====
-- Path, isValidPathName and FindPathConf of mediamtx/internal/conf/path.go.
pub mod Found
pub mod Tests
use go_live_vod.Prelude.{
  ℕ, Bool, List, Option, [], if◌then◌else◌, leb, none, not, some, true, ◌&&◌, ◌==◌, ◌||◌, ◌∷◌,
}
use go_live_vod.Prelude.Result.{ok, err, Result}
use go_live_vod.Prelude.Text.{bytes, same}
use go_live_vod.Prelude.Maps.{lookup}

-- Go's regular expressions, and the settings of a path but its name: `Hot` are those that can be changed
-- while it runs (Record, and of the Raspberry Pi camera brightness, contrast, saturation, sharpness,
-- exposure, flicker period, AWB, AWB gains, denoise, shutter, metering, gain, EV, FPS, IDR period and
-- bit rate), `Cold` all others. The comparisons are reflect.DeepEqual;
-- `clone_cold` is what encoding/json makes of `Cold` when it writes and reads it.
pub record Settings : Type 1 where
  pub Regexp : Type 0
  pub Hot : Type 0
  pub Cold : Type 0
  pub find_string_submatch : Regexp → List ℕ → Option (List (List ℕ))
  pub clone_cold : Cold → Cold
  pub same_regexp : Option Regexp → Option Regexp → Bool
  pub same_hot : Hot → Hot → Bool
  pub same_cold : Cold → Cold → Bool

pub data PathNameError : Type 0 where
  empty_name begins_with_slash ends_with_slash forbidden_character : PathNameError

-- `nil_regexp` is no error of the source: it is the panic on a configuration of all paths without a
-- regular expression.
pub data FindError : Type 0 where
  invalid_path_name : PathNameError → FindError
  not_configured nil_regexp : FindError

abbrev pub is_within : ℕ → ℕ → ℕ → Bool
is_within low high c = leb low c && leb c high

-- The characters of `rePathName`.
unfoldable pub is_path_char : ℕ → Bool
is_path_char c =
    is_within b'0' b'9' c
    || is_within b'a' b'z' c
    || is_within b'A' b'Z' c
    || (c == b'_' || c == b'-' || c == b'/' || c == b'.' || c == b'~')

unfoldable pub are_path_chars : List ℕ → Bool
are_path_chars [] = true
are_path_chars (c ∷ s) = is_path_char c && are_path_chars s

-- `name[len(name)-1]`, of a name with the first character.
unfoldable pub last : ℕ → List ℕ → ℕ
last c [] = c
last c (d ∷ s) = last d s

unfoldable pub is_valid_path_name : List ℕ → Result PathNameError (Unit {0})
is_valid_path_name [] = err empty_name
is_valid_path_name (c ∷ s) =
    if c == b'/'
    then err begins_with_slash
    else if last c s == b'/'
    then err ends_with_slash
    else if not (are_path_chars (c ∷ s))
    then err forbidden_character
    else ok tt

-- The two names of the configuration of all other paths.
unfoldable pub is_all : List ℕ → Bool
is_all name = same name (bytes "all") || same name (bytes "all_others")

module _ (settings : Settings) where
  pub record PathConf : Type 0 where
    pub regexp : Option settings.Regexp
    pub name : List ℕ
    pub hot : settings.Hot
    pub cold : settings.Cold

  -- `reflect.DeepEqual`
  unfoldable pub equal : PathConf → PathConf → Bool
  equal a b =
      settings.same_regexp a.regexp b.regexp
      && same a.name b.name
      && settings.same_hot a.hot b.hot
      && settings.same_cold a.cold b.cold

  abbrev pub submatch : Option settings.Regexp → List ℕ → Option (List (List ℕ))
  submatch none name = none
  submatch (some re) name = settings.find_string_submatch re name

  abbrev pub or_else {ℓ} :
      {A : Type ℓ} → PathConf → Option (List (List ℕ)) → (PathConf → List (List ℕ) → A) → A → A
  or_else c none found rest = rest
  or_else c (some m) found rest = found c m

  -- The loop over the configurations with a regular expression.
  unfoldable pub find_regexp : List (List ℕ × PathConf) → List ℕ → Option (PathConf × List (List ℕ))
  find_regexp [] name = none
  find_regexp ((k, c) ∷ confs) name =
      let rest = find_regexp confs name in
      if not (is_all k) then or_else c (submatch c.regexp name) (λ c m. some (c, m)) rest else rest

  -- `pathConf.Regexp.FindStringSubmatch` and what follows it.
  abbrev pub try_all :
      PathConf
      → Option settings.Regexp
      → List ℕ
      → Result FindError (PathConf × List (List ℕ))
      → Result FindError (PathConf × List (List ℕ))
  try_all c none name rest = err nil_regexp
  try_all c (some re) name rest =
      or_else c (settings.find_string_submatch re name) (λ c m. ok (c, m)) rest

  -- The loop over the configurations of all other paths.
  unfoldable pub find_all :
      List (List ℕ × PathConf) → List ℕ → Result FindError (PathConf × List (List ℕ))
  find_all [] name = err not_configured
  find_all ((k, c) ∷ confs) name =
      let rest = find_all confs name in if is_all k then try_all c c.regexp name rest else rest

  abbrev pub find_valid :
      List (List ℕ × PathConf) → List ℕ → Result FindError (PathConf × List (List ℕ))
  find_valid confs name = elim (lookup confs name) [
    | some c ↦ ok (c, [])
    | none ↦ elim (find_regexp confs name) [ some found ↦ ok found | none ↦ find_all confs name ]
  ]

  -- FindPathConf, with no matches for nil.
  unfoldable pub find_path_conf :
      List (List ℕ × PathConf) → List ℕ → Result FindError (PathConf × List (List ℕ))
  find_path_conf confs name = elim (is_valid_path_name name) [
    | err e ↦ err (invalid_path_name e)
    | ok t ↦ find_valid confs name
  ]
