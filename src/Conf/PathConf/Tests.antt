-- ===== src/Conf/PathConf/Tests.antt =====
-- FindPathConf of mediamtx/internal/conf/path.go on concrete configurations.
use go_live_vod.Prelude.{
  ℕ, List, Option, [], ap, drop, if◌then◌else◌, inl, inr, length, none, refl, some, sym, true, ◌==◌,
  ◌∷◌, ◌≡◌, false, ◌∙◌,
}
use go_live_vod.Conf.PathConf.{
  find_all, ends_with_slash, find_regexp, invalid_path_name, is_path_char, are_path_chars, last,
  is_valid_path_name, is_all, Settings, PathConf, find_path_conf,
}
use go_live_vod.Prelude.Text.{same, has_prefix, bytes}
use go_live_vod.Conf.PathConf.Found.{find_path_conf-IsFound, HasRegexps, IsFound}
use go_live_vod.Prelude.Result.{ok, err}
use go_live_vod.Prelude.Maps.{lookup}

-- A regular expression is a prefix that it matches, with what follows for the submatch.
abbrev prefixes : List ℕ → List ℕ → Option (List (List ℕ))
prefixes re name = if has_prefix name re then some (name ∷ drop (length re) name ∷ []) else none

abbrev pub settings : Settings
settings = record {
  Regexp = List ℕ;
  Hot = ℕ;
  Cold = ℕ;
  find_string_submatch = prefixes;
  clone_cold = λ a. a;
  same_regexp = λ a b. true;
  same_hot = λ a b. a == b;
  same_cold = λ a b. a == b;
}

abbrev pub conf : Option (List ℕ) → List ℕ → PathConf settings
conf re name = record { regexp = re; name = name; hot = 0; cold = 0 }

abbrev pub confs : List (List ℕ × PathConf settings)
confs =
    (bytes "all_others", conf (some []) (bytes "all_others"))
    ∷ (bytes "~live/", conf (some (bytes "live/")) (bytes "~live/"))
    ∷ (bytes "live/main", conf none (bytes "live/main"))
    ∷ []

listed : find_path_conf settings confs (bytes "live/main") ≡ ok (conf none (bytes "live/main"), [])
unfolding find_path_conf is_valid_path_name are_path_chars is_path_char last lookup same
listed = refl

matching :
    find_path_conf settings confs (bytes "live/x")
    ≡ ok (conf (some (bytes "live/")) (bytes "~live/"), bytes "live/x" ∷ bytes "x" ∷ [])
unfolding find_path_conf is_valid_path_name are_path_chars is_path_char last lookup same find_regexp
    is_all has_prefix
matching = refl

-- The configuration of all other paths is taken last, though it comes first.
other :
    find_path_conf settings confs (bytes "vod")
    ≡ ok (conf (some []) (bytes "all_others"), bytes "vod" ∷ bytes "vod" ∷ [])
unfolding find_path_conf is_valid_path_name are_path_chars is_path_char last lookup same find_regexp
    is_all has_prefix find_all
other = refl

invalid : find_path_conf settings confs (bytes "live/") ≡ err (invalid_path_name ends_with_slash)
unfolding find_path_conf is_valid_path_name last
invalid = refl

pub confs_regexps : HasRegexps settings confs
unfolding is_all same
confs_regexps c (key, inl e, kind) = (bytes "", ap (λ x. x.1.regexp) (sym e))
confs_regexps c (key, inr (inl e), kind) =
    let h : false ≡ true = ap (λ x. is_all x.0) e ∙ kind in cc
confs_regexps c (key, inr (inr (inl e)), kind) =
    let h : false ≡ true = ap (λ x. is_all x.0) e ∙ kind in cc
confs_regexps c (key, inr (inr (inr has)), kind) = absurd has

find_path_conf-IsFound_example :
    IsFound settings confs (bytes "live/x") (find_path_conf settings confs (bytes "live/x"))
find_path_conf-IsFound_example =
    find_path_conf-IsFound settings confs (bytes "live/x") confs_regexps
