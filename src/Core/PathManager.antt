-- ===== src/Core/PathManager.antt =====
-- mediamtx/internal/core/path_manager.go, over the configurations of mediamtx/internal/conf/path.go and
-- the authentication of mediamtx/internal/auth.
pub mod Index
pub mod Loop
pub mod Kept
pub mod Reload
pub mod Sound
pub mod Started
pub mod Replaced
pub mod Reloaded
pub mod Access
pub mod Tests
use go_live_vod.Prelude.{
  ℕ, Bool, List, Option, [], false, if◌then◌else◌, none, not, some, suc, ◌==◌, ◌∷◌,
}
use go_live_vod.Auth.{Libraries}
use go_live_vod.Conf.PathConf.{equal, PathConf, FindError, Settings}
use go_live_vod.Auth.Manager.{Refusal, Manager, Request}
use go_live_vod.Prelude.Maps.{insert, lookup, delete}
use go_live_vod.Conf.Settings.{publish, read}

-- `path`, as the manager knows it. The ID stands for the pointer; `conf_name` is `pa.conf.Name`, which a
-- path keeps when it is given a configuration again.
pub record Managed : Type 0 where
  pub id : ℕ
  pub name : List ℕ
  pub conf_name : List ℕ
  pub matches : List (List ℕ)

pub data AccessError : Type 0 where
  not_found : FindError → AccessError
  refused : Refusal → AccessError

-- A missing set is empty.
abbrev pub set_or_empty : Option (List Managed) → List Managed
set_or_empty none = []
set_or_empty (some set) = set

unfoldable pub members : List (List ℕ × List Managed) → List ℕ → List Managed
members by_conf conf_name = set_or_empty (lookup by_conf conf_name)

-- `delete` of a pointer.
unfoldable pub drop_path : List Managed → Managed → List Managed
drop_path [] pa = []
drop_path (p ∷ set) pa = if p.id == pa.id then drop_path set pa else p ∷ drop_path set pa

-- A set that is left empty is deleted.
abbrev pub keep_set :
    List (List ℕ × List Managed) → List ℕ → List Managed → List (List ℕ × List Managed)
keep_set by_conf conf_name [] = delete by_conf conf_name
keep_set by_conf conf_name (p ∷ set) = insert by_conf conf_name (p ∷ set)

module _ (libs : Libraries) (settings : Settings) where
  -- `defs.PathAccessRequest`; what http.Post would send of it is not computed here.
  pub record AccessRequest : Type 0 where
    pub name : List ℕ
    pub query : List ℕ
    pub publish : Bool
    pub skip_auth : Bool
    pub user : List ℕ
    pub pass : List ℕ
    pub ip : List ℕ
    pub rtsp_request : Option libs.RtspRequest
    pub rtsp_nonce : List ℕ
    pub as_json : List ℕ

  -- ToAuthRequest
  unfoldable pub to_auth_request : AccessRequest → Request libs
  to_auth_request r = record {
    user = r.user;
    pass = r.pass;
    ip = r.ip;
    action = if r.publish then publish else read;
    path = r.name;
    query = r.query;
    rtsp_request = r.rtsp_request;
    rtsp_nonce = r.rtsp_nonce;
    as_json = r.as_json;
  }

  -- What the manager does to others, the newest first: a path is started, closed and waited for, or
  -- told of a configuration; the HLS server is told of a path.
  pub data Event : Type 0 where
    started closed : Managed → Event
    reloaded : Managed → PathConf settings → Event
    hls_ready hls_not_ready : Managed → Event

  pub record PathManager : Type 0 where
    pub auth_manager : Manager libs
    pub path_confs : List (List ℕ × PathConf settings)
    pub has_hls_server : Bool
    pub paths : List (List ℕ × Managed)
    pub paths_by_conf : List (List ℕ × List Managed)
    pub next_id : ℕ
    pub events : List Event

  -- createPath
  unfoldable pub create_path :
      PathConf settings → List ℕ → List (List ℕ) → PathManager → PathManager
  create_path conf name matches pm =
      let pa : Managed = record {
        id = pm.next_id;
        name = name;
        conf_name = conf.name;
        matches = matches;
      } in
      record pm {
        paths = insert pm.paths name pa;
        paths_by_conf = insert pm.paths_by_conf conf.name (pa ∷ members pm.paths_by_conf conf.name);
        next_id = suc pm.next_id;
        events = started pa ∷ pm.events;
      }

  -- removePath
  unfoldable pub remove_path : Managed → PathManager → PathManager
  remove_path pa pm = record pm {
    paths = delete pm.paths pa.name;
    paths_by_conf =
        keep_set pm.paths_by_conf pa.conf_name
          (drop_path (members pm.paths_by_conf pa.conf_name) pa);
  }

  -- The first part of the loops of initialize and doReloadConf: a path for a configuration without a
  -- regular expression.
  unfoldable pub create_static : List (List ℕ × PathConf settings) → PathManager → PathManager
  create_static [] pm = pm
  create_static ((name, conf) ∷ confs) pm =
      create_static confs
        (elim (conf.regexp) [ none ↦ create_path conf conf.name [] pm | some re ↦ pm ])

  -- initialize
  unfoldable pub initialize : Manager libs → List (List ℕ × PathConf settings) → PathManager
  initialize auth_manager path_confs = create_static path_confs (record {
    auth_manager = auth_manager;
    path_confs = path_confs;
    has_hls_server = false;
    paths = [];
    paths_by_conf = [];
    next_id = 0;
    events = [];
  })

  -- pathConfCanBeUpdated. Clone keeps the regular expression and the name.
  unfoldable pub path_conf_can_be_updated : PathConf settings → PathConf settings → Bool
  path_conf_can_be_updated old_path_conf new_path_conf =
      equal settings new_path_conf (record old_path_conf {
        hot = new_path_conf.hot;
        cold = settings.clone_cold old_path_conf.cold;
      })

  -- `go pa.reloadConf(newPath)` of each path.
  unfoldable pub reload_paths : List Managed → PathConf settings → PathManager → PathManager
  reload_paths [] conf pm = pm
  reload_paths (pa ∷ set) conf pm =
      reload_paths set conf (record pm { events = reloaded pa conf ∷ pm.events })

  -- removePath, close and wait of each path.
  unfoldable pub close_paths : List Managed → PathManager → PathManager
  close_paths [] pm = pm
  close_paths (pa ∷ set) pm =
      let pm1 = remove_path pa pm in
      close_paths set (record pm1 { events = closed pa ∷ pm1.events })

  -- What becomes of the paths of a configuration.
  unfoldable pub reload_one :
      List ℕ → PathConf settings → Option (PathConf settings) → PathManager → PathManager
  reload_one conf_name path_conf none pm = close_paths (members pm.paths_by_conf conf_name) pm
  reload_one conf_name path_conf (some new_path) pm =
      let set = members pm.paths_by_conf conf_name in
      if not (equal settings new_path path_conf)
      then if path_conf_can_be_updated path_conf new_path
        then reload_paths set new_path pm
        else close_paths set pm
      else pm

  unfoldable pub reload_confs :
      List (List ℕ × PathConf settings)
      → List (List ℕ × PathConf settings)
      → PathManager
      → PathManager
  reload_confs [] new_paths pm = pm
  reload_confs ((conf_name, path_conf) ∷ confs) new_paths pm =
      reload_confs confs new_paths (reload_one conf_name path_conf (lookup new_paths conf_name) pm)

  -- The last loop of doReloadConf.
  unfoldable pub add_new_paths : List (List ℕ × PathConf settings) → PathManager → PathManager
  add_new_paths [] pm = pm
  add_new_paths ((name, conf) ∷ confs) pm = add_new_paths confs (elim (lookup pm.paths name) [
    | some pa ↦ pm
    | none ↦ elim (conf.regexp) [ none ↦ create_path conf name [] pm | some re ↦ pm ]
  ])

  -- doReloadConf
  unfoldable pub do_reload_conf : List (List ℕ × PathConf settings) → PathManager → PathManager
  do_reload_conf new_paths pm =
      add_new_paths new_paths
        (record (reload_confs pm.path_confs new_paths pm) { path_confs = new_paths })

  -- doClosePath. That the IDs are equal says that the pointers are.
  unfoldable pub do_close_path : Managed → PathManager → PathManager
  do_close_path pa pm = elim (lookup pm.paths pa.name) [
    | none ↦ pm
    | some pmpa ↦ if pmpa.id == pa.id then remove_path pmpa pm else pm
  ]

  unfoldable pub do_path_ready : Managed → PathManager → PathManager
  do_path_ready pa pm =
      if pm.has_hls_server then record pm { events = hls_ready pa ∷ pm.events } else pm

  unfoldable pub do_path_not_ready : Managed → PathManager → PathManager
  do_path_not_ready pa pm =
      if pm.has_hls_server then record pm { events = hls_not_ready pa ∷ pm.events } else pm
