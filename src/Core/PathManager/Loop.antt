-- ===== src/Core/PathManager/Loop.antt =====
-- The requests of mediamtx/internal/core/path_manager.go, and its loop.
use go_live_vod.Prelude.{ℕ, Bool, List, Option, [], false, if◌then◌else◌, none, some, ◌∷◌}
use go_live_vod.Auth.{Libraries}
use go_live_vod.Conf.PathConf.{find_path_conf, PathConf, Settings}
use go_live_vod.Core.PathManager.{
  refused, to_auth_request, not_found, do_path_not_ready, do_path_ready, create_path, do_close_path,
  AccessError, do_reload_conf, Managed, PathManager, AccessRequest,
}
use go_live_vod.Prelude.Maps.{lookup}
use go_live_vod.Prelude.Result.{ok, err, Result}
use go_live_vod.Auth.Manager.{authenticate}

module _ (libs : Libraries) (settings : Settings) where
  -- What findPathConf, describe, addReader and addPublisher begin with: the configuration of the path,
  -- and authentication if it is not skipped.
  abbrev pub authenticate_access :
      ℕ
      → Bool
      → AccessRequest libs settings
      → PathManager libs settings
      → PathManager libs settings × Result AccessError (Unit {0})
  authenticate_access now skip req pm =
      let (m, r) = authenticate libs now pm.auth_manager (to_auth_request libs settings req) in
      if skip
      then (pm, ok tt)
      else (record pm { auth_manager = m }, elim r [ err e ↦ err (refused e) | ok t ↦ ok tt ])

  unfoldable pub access :
      ℕ
      → Bool
      → AccessRequest libs settings
      → PathManager libs settings
      → PathManager libs settings × Result AccessError (PathConf settings × List (List ℕ))
  access now skip req pm = elim (find_path_conf settings pm.path_confs req.name) [
    | err e ↦ (pm, err (not_found e))
    | ok found ↦
        let (pm1, r) = authenticate_access now skip req pm in
        (pm1, elim r [ err e ↦ err e | ok t ↦ ok found ])
  ]

  -- doFindPathConf
  unfoldable pub do_find_path_conf :
      ℕ
      → AccessRequest libs settings
      → PathManager libs settings
      → PathManager libs settings × Result AccessError (PathConf settings)
  do_find_path_conf now req pm =
      let (pm1, r) = access now false req pm in
      (pm1, elim r [ err e ↦ err e | ok found ↦ ok found.0 ])

  -- `create path if it doesn't exist`
  unfoldable pub get_or_create :
      PathConf settings
      → List ℕ
      → List (List ℕ)
      → PathManager libs settings
      → PathManager libs settings
  get_or_create conf name matches pm = elim (lookup pm.paths name) [
    | none ↦ create_path libs settings conf name matches pm
    | some pa ↦ pm
  ]

  -- What follows, in each of the three: the path is created if there is none, and given back, with none
  -- for a nil pointer.
  abbrev pub give_path :
      List ℕ
      → PathManager libs settings
      → Result AccessError (PathConf settings × List (List ℕ))
      → PathManager libs settings × Result AccessError (Option Managed)
  give_path name pm (err e) = (pm, err e)
  give_path name pm (ok (conf, matches)) =
      let pm1 = get_or_create conf name matches pm in (pm1, ok (lookup pm1.paths name))

  -- doDescribe
  unfoldable pub do_describe :
      ℕ
      → AccessRequest libs settings
      → PathManager libs settings
      → PathManager libs settings × Result AccessError (Option Managed)
  do_describe now req pm = let (pm1, r) = access now false req pm in give_path req.name pm1 r

  -- doAddReader
  unfoldable pub do_add_reader :
      ℕ
      → AccessRequest libs settings
      → PathManager libs settings
      → PathManager libs settings × Result AccessError (Option Managed)
  do_add_reader now req pm =
      let (pm1, r) = access now req.skip_auth req pm in give_path req.name pm1 r

  -- doAddPublisher
  unfoldable pub do_add_publisher :
      ℕ
      → AccessRequest libs settings
      → PathManager libs settings
      → PathManager libs settings × Result AccessError (Option Managed)
  do_add_publisher now req pm =
      let (pm1, r) = access now req.skip_auth req pm in give_path req.name pm1 r

  -- doAPIPathsList and doAPIPathsGet: a copy of the map, and the path of a name if there is one.
  unfoldable pub do_api_paths_list : PathManager libs settings → List (List ℕ × Managed)
  do_api_paths_list pm = pm.paths

  unfoldable pub do_api_paths_get : List ℕ → PathManager libs settings → Option Managed
  do_api_paths_get name pm = lookup pm.paths name

  -- One case of the loop's select; a request comes at a time.
  pub data Message : Type 0 where
    reload_confs_with : List (List ℕ × PathConf settings) → Message
    set_hls_server : Bool → Message
    close_path path_ready path_not_ready : Managed → Message
    find_conf describe add_reader add_publisher : ℕ → AccessRequest libs settings → Message
    api_paths_list : Message
    api_paths_get : List ℕ → Message

  unfoldable pub handle : Message → PathManager libs settings → PathManager libs settings
  handle (reload_confs_with new_paths) pm = do_reload_conf libs settings new_paths pm
  handle (set_hls_server m) pm = record pm { has_hls_server = m }
  handle (close_path pa) pm = do_close_path libs settings pa pm
  handle (path_ready pa) pm = do_path_ready libs settings pa pm
  handle (path_not_ready pa) pm = do_path_not_ready libs settings pa pm
  handle (find_conf now req) pm = (do_find_path_conf now req pm).0
  handle (describe now req) pm = (do_describe now req pm).0
  handle (add_reader now req) pm = (do_add_reader now req pm).0
  handle (add_publisher now req) pm = (do_add_publisher now req pm).0
  handle api_paths_list pm = pm
  handle (api_paths_get name) pm = pm

  -- The loop, until the context is done.
  unfoldable pub run : List Message → PathManager libs settings → PathManager libs settings
  run [] pm = pm
  run (m ∷ ms) pm = run ms (handle m pm)
