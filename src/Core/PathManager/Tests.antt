-- ===== src/Core/PathManager/Tests.antt =====
-- mediamtx/internal/core/path_manager.go on a concrete configuration.
use go_live_vod.Prelude.{
  ℕ, List, [], ap, false, inl, inr, none, refl, subst, sym, true, ◌∙◌, ◌∷◌, ◌≡◌, some, ◌↔◌, ◌⊎◌,
}
use go_live_vod.Auth.Tests.{libs, manager}
use go_live_vod.Conf.PathConf.Tests.{settings, confs, confs_regexps, conf}
use go_live_vod.Core.PathManager.{
  AccessRequest, Managed, PathManager, create_path, create_static, initialize, members, started,
  do_close_path, do_reload_conf,
}
use go_live_vod.Core.PathManager.Loop.{
  Message, run, add_reader, close_path, reload_confs_with, access, do_add_publisher, do_add_reader,
  do_describe, get_or_create,
}
use go_live_vod.Prelude.Text.{same, bytes, has_prefix}
use go_live_vod.Prelude.Maps.{lookup, delete, insert, Has, lookup-none}
use go_live_vod.Conf.Settings.{internal}
use go_live_vod.Core.PathManager.Kept.{IsSound, IsNamed}
use go_live_vod.Core.PathManager.Started.{run-IsSound, HasDistinctKeys}
use go_live_vod.Conf.PathConf.{
  is_all, find_regexp, last, is_path_char, are_path_chars, is_valid_path_name, find_path_conf,
  PathConf,
}
use go_live_vod.Core.PathManager.Access.{do_access_lem, HandsOut}
use go_live_vod.Core.PathManager.Replaced.{IsKept}
use go_live_vod.Core.PathManager.Reloaded.{do_reload_conf_lem, do_reload_conf_covers, IsStarted}
use go_live_vod.Prelude.Result.{ok}

abbrev request : List ℕ → AccessRequest libs settings
request name = record {
  name = name;
  query = [];
  publish = false;
  skip_auth = true;
  user = [];
  pass = [];
  ip = [];
  rtsp_request = none;
  rtsp_nonce = [];
  as_json = [];
}

abbrev main_path : Managed
main_path = record { id = 0; name = bytes "live/main"; conf_name = bytes "live/main"; matches = [] }

abbrev started_manager : PathManager libs settings
started_manager = record {
  auth_manager = manager internal;
  path_confs = confs;
  has_hls_server = false;
  paths = (bytes "live/main", main_path) ∷ [];
  paths_by_conf = (bytes "live/main", main_path ∷ []) ∷ [];
  next_id = 1;
  events = started main_path ∷ [];
}

-- One path is started, of the configuration without a regular expression.
initialized : initialize libs settings (manager internal) confs ≡ started_manager
unfolding initialize create_static create_path insert delete members lookup same
initialized = refl

confs-IsNamed : IsNamed libs settings confs
confs-IsNamed k c (inl e) = ap (λ x. x.1.name) (sym e) ∙ ap (λ x. x.0) e
confs-IsNamed k c (inr (inl e)) = ap (λ x. x.1.name) (sym e) ∙ ap (λ x. x.0) e
confs-IsNamed k c (inr (inr (inl e))) = ap (λ x. x.1.name) (sym e) ∙ ap (λ x. x.0) e
confs-IsNamed k c (inr (inr (inr has))) = absurd has

abbrev static_confs : List (List ℕ × PathConf settings)
static_confs = (bytes "live/main", conf none (bytes "live/main")) ∷ []

abbrev other_confs : List (List ℕ × PathConf settings)
other_confs = (bytes "~live/", conf (some (bytes "live/")) (bytes "~live/")) ∷ static_confs

confs_distinct : HasDistinctKeys libs settings confs
unfolding lookup same
confs_distinct = (
  λ c. lookup-none other_confs (bytes "all_others") c refl,
  (λ c. lookup-none static_confs (bytes "~live/") c refl, (λ c. absurd, tt)),
)

-- A reader comes twice and the configurations are given again without the last.
abbrev messages : List (Message libs settings)
messages =
    add_reader 5 (request (bytes "live/x"))
    ∷ add_reader 6 (request (bytes "live/x"))
    ∷ close_path main_path
    ∷ reload_confs_with confs
    ∷ []

run-IsSound_example :
    IsSound libs settings
      (run libs settings messages (initialize libs settings (manager internal) confs))
run-IsSound_example =
    run-IsSound libs settings (manager internal) confs messages confs_distinct confs-IsNamed
      confs_regexps (tt, (tt, (tt, ((confs-IsNamed, confs_regexps), tt))))

started_manager-IsSound : IsSound libs settings started_manager
unfolding run
started_manager-IsSound = subst (IsSound libs settings) initialized (
    run-IsSound libs settings (manager internal) confs [] confs_distinct confs-IsNamed confs_regexps
      tt)

abbrev changed : List (List ℕ × PathConf settings)
changed =
    (bytes "live/main", record (conf none (bytes "live/main")) { hot = 1 })
    ∷ (bytes "vod", conf none (bytes "vod"))
    ∷ []

changed-IsNamed : IsNamed libs settings changed
changed-IsNamed k c (inl e) = ap (λ x. x.1.name) (sym e) ∙ ap (λ x. x.0) e
changed-IsNamed k c (inr (inl e)) = ap (λ x. x.1.name) (sym e) ∙ ap (λ x. x.0) e
changed-IsNamed k c (inr (inr has)) = absurd has

do_reload_conf_covers_example :
    (p : Managed) × (lookup
        ((do_reload_conf libs settings changed started_manager).paths)
        (bytes "vod")
      ≡ some p)
    × (IsStarted libs settings 1 (bytes "vod") p
        ⊎ ((lookup (started_manager.paths) (bytes "vod") ≡ some p)
            × ((c : PathConf settings)
                → Has confs p.conf_name c
                → IsKept libs settings c (lookup changed p.conf_name))))
do_reload_conf_covers_example =
    do_reload_conf_covers libs settings changed started_manager (bytes "vod")
      (conf none (bytes "vod")) started_manager-IsSound.0 changed-IsNamed (inr (inl refl)) refl

do_reload_conf_lem_example :
    ((c : PathConf settings)
      → Has confs (bytes "live/main") c
      → IsKept libs settings c (lookup changed (bytes "live/main")))
    ↔ (lookup ((do_reload_conf libs settings changed started_manager).paths) (bytes "live/main")
        ≡ some main_path)
unfolding lookup same
do_reload_conf_lem_example =
    do_reload_conf_lem libs settings changed started_manager (bytes "live/main") main_path
      started_manager-IsSound.0 refl

do_access_lem_example :
    HandsOut libs settings 5 false
      (request (bytes "live/x"))
      started_manager
      (do_describe libs settings 5 (request (bytes "live/x")) started_manager)
    × HandsOut libs settings 5 true
        (request (bytes "live/x"))
        started_manager
        (do_add_reader libs settings 5 (request (bytes "live/x")) started_manager)
    × HandsOut libs settings 5 true
        (request (bytes "live/x"))
        started_manager
        (do_add_publisher libs settings 5 (request (bytes "live/x")) started_manager)
do_access_lem_example =
    do_access_lem libs settings 5 (request (bytes "live/x")) started_manager started_manager-IsSound

-- The reader is given a path of its own, told apart by its ID.
reader_path :
    (do_add_reader libs settings 5 (request (bytes "live/x")) started_manager).1
    ≡ ok (
        some (record {
          id = 1;
          name = bytes "live/x";
          conf_name = bytes "~live/";
          matches = bytes "live/x" ∷ bytes "x" ∷ [];
        }))
unfolding do_add_reader access get_or_create create_path lookup insert same find_path_conf
    is_valid_path_name are_path_chars is_path_char last find_regexp is_all has_prefix
reader_path = refl

-- To close another path than the one of its name changes nothing.
stale : do_close_path libs settings (record main_path { id = 7 }) started_manager ≡ started_manager
unfolding do_close_path lookup same
stale = refl
