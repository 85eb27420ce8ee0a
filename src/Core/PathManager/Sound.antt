-- ===== src/Core/PathManager/Sound.antt =====
-- The loop of mediamtx/internal/core/path_manager.go keeps what holds of the maps.
use go_live_vod.Prelude.{
  ℕ, Bool, List, [], inl, inr, refl, subst, ◌∙◌, ◌∷◌, ◌≡◌, Option, ap, false, if_holds, none, some,
  sym, true,
}
use go_live_vod.Auth.{Libraries}
use go_live_vod.Conf.PathConf.{Settings, PathConf, find_path_conf, FindError}
use go_live_vod.Core.PathManager.Loop.{
  do_find_path_conf, do_add_publisher, give_path, do_add_reader, do_describe, reload_confs_with,
  access, Message, handle, add_publisher, add_reader, api_paths_get, api_paths_list,
  authenticate_access, close_path, describe, find_conf, get_or_create, path_not_ready, path_ready,
  set_hls_server,
}
use go_live_vod.Conf.PathConf.Found.{find_path_conf-IsFound, IsFound, HasRegexps}
use go_live_vod.Core.PathManager.{
  do_path_not_ready, do_path_ready, do_reload_conf, AccessError, AccessRequest, PathManager,
  add_new_paths, Managed, create_path, do_close_path, not_found, reload_confs,
}
use go_live_vod.Prelude.Result.{err, Result, ok}
use go_live_vod.Core.PathManager.Kept.{
  IsSound, IsNamed, create_path-AreConfigured, create_path-IsIndex, do_close_path-AreConfigured,
  do_close_path-IsIndex, do_close_path-path_confs,
}
use go_live_vod.Prelude.Maps.{Has, lookup}
use go_live_vod.Core.PathManager.Reload.{do_reload_conf-IsFilling}

module _ (libs : Libraries) (settings : Settings) where
  -- New configurations stand under their names, and those of all other paths have a regular expression.
  abbrev pub IsAdmissible : Message libs settings → Type 0
  IsAdmissible (reload_confs_with new_paths) =
      IsNamed libs settings new_paths × HasRegexps settings new_paths
  IsAdmissible _ = Unit {0}

  added_confs :
      (pa : Option Managed) (re : Option settings.Regexp) (name : List ℕ) (conf : PathConf settings)
      (pm : PathManager libs settings)
      → Path
          (List (List ℕ × PathConf settings))
          ((elim pa as (λ _. PathManager libs settings) [
            | some p ↦ pm
            | none ↦ elim re [ none ↦ create_path libs settings conf name [] pm | some r ↦ pm ]
          ]).path_confs)
          pm.path_confs
  unfolding create_path
  added_confs (some p) re name conf pm = refl
  added_confs none none name conf pm = refl
  added_confs none (some r) name conf pm = refl

  add_new_paths-path_confs :
      (confs : List (List ℕ × PathConf settings)) (pm : PathManager libs settings)
      → (add_new_paths libs settings confs pm).path_confs ≡ pm.path_confs
  unfolding add_new_paths
  add_new_paths-path_confs [] pm = refl
  add_new_paths-path_confs ((name, conf) ∷ confs) pm =
      add_new_paths-path_confs confs _
      ∙ added_confs (lookup pm.paths name) (conf.regexp) name conf pm

  do_reload_conf-path_confs :
      (new_paths : List (List ℕ × PathConf settings)) (pm : PathManager libs settings)
      → (do_reload_conf libs settings new_paths pm).path_confs ≡ new_paths
  unfolding do_reload_conf
  do_reload_conf-path_confs new_paths pm =
      add_new_paths-path_confs new_paths
        (record (reload_confs libs settings pm.path_confs new_paths pm) { path_confs = new_paths })

  do_reload_conf-IsSound :
      (new_paths : List (List ℕ × PathConf settings)) (pm : PathManager libs settings)
      → IsNamed libs settings new_paths
      → HasRegexps settings new_paths
      → IsSound libs settings pm
      → IsSound libs settings (do_reload_conf libs settings new_paths pm)
  do_reload_conf-IsSound new_paths pm named regexps (indexed, configured, _, _) =
      let (indexed1, configured1) =
        do_reload_conf-IsFilling libs settings new_paths pm named indexed configured in
      let confs : (do_reload_conf libs settings new_paths pm).path_confs ≡ new_paths =
        do_reload_conf-path_confs new_paths pm in
      (indexed1, rw confs configured1, rw confs named, rw confs regexps)

  -- What FindPathConf finds is a configuration that there is.
  find_path_conf_listed :
      (confs : List (List ℕ × PathConf settings)) (name : List ℕ) (c : PathConf settings)
      (m : List (List ℕ))
      → HasRegexps settings confs
      → find_path_conf settings confs name ≡ ok (c, m)
      → (k : List ℕ) × Has confs k c
  find_path_conf_listed confs name c m regexps h =
      let found : IsFound settings confs name (ok (c, m)) =
        subst (IsFound settings confs name) h
          (find_path_conf-IsFound settings confs name regexps) in
      elim (found.1) [
        | inl (has, e) ↦ (name, has)
        | inr (inl (unlisted, matches, (k, has, kind))) ↦ (k, has)
        | inr (inr (unlisted, none_matches, matches, (k, has, kind))) ↦ (k, has)
      ]

  -- What the beginning of a request may come to: the maps are sound, and a configuration that is given
  -- is one there is.
  abbrev IsGiven :
      PathManager libs settings × Result AccessError (PathConf settings × List (List ℕ)) → Type 0
  IsGiven (pm, r) =
      IsSound libs settings pm
      × ((c : PathConf settings) (m : List (List ℕ))
          → r ≡ ok (c, m)
          → (k : List ℕ) × Has pm.path_confs k c)

  authenticate_access-IsGiven :
      (now : ℕ) (skip : Bool) (req : AccessRequest libs settings) (pm : PathManager libs settings)
      (r : Result AccessError (PathConf settings × List (List ℕ)))
      → IsGiven (pm, r)
      → IsGiven ((authenticate_access libs settings now skip req pm).0, r)
  authenticate_access-IsGiven now true req pm r given = given
  authenticate_access-IsGiven now false req pm r given = given

  passed_on :
      (pm : PathManager libs settings) (found : PathConf settings × List (List ℕ))
      (r : Result AccessError (Unit {0}))
      → IsGiven (pm, ok found)
      → IsGiven (pm, elim r [ err e ↦ err e | ok t ↦ ok found ])
  passed_on pm found (err e) (sound, listed) = (sound, λ c m h. cc)
  passed_on pm found (ok t) given = given

  found_access :
      (now : ℕ) (skip : Bool) (req : AccessRequest libs settings) (pm : PathManager libs settings)
      (r : Result FindError (PathConf settings × List (List ℕ)))
      → find_path_conf settings pm.path_confs req.name ≡ r
      → IsSound libs settings pm
      → IsGiven (elim r [
        | err e ↦ (pm, err (not_found e))
        | ok found ↦
            let (pm1, r1) = authenticate_access libs settings now skip req pm in
            (pm1, elim r1 [ err e ↦ err e | ok t ↦ ok found ])
      ])
  found_access now skip req pm (err e) h sound = (sound, λ c m e'. cc)
  found_access now skip req pm (ok found) h sound =
      let (pm1, r1) = authenticate_access libs settings now skip req pm in
      let listed : (c : PathConf settings) (m : List (List ℕ))
          → Path (Result AccessError (PathConf settings × List (List ℕ))) (ok found) (ok (c, m))
          → (k : List ℕ) × Has pm.path_confs k c =
        λ c m e.
          let same_found : found ≡ (c, m) = cc in
          find_path_conf_listed pm.path_confs req.name c m sound.3 (h ∙ ap ok same_found) in
      passed_on pm1 found r1
        (authenticate_access-IsGiven now skip req pm (ok found) (sound, listed))

  access-IsGiven :
      (now : ℕ) (skip : Bool) (req : AccessRequest libs settings) (pm : PathManager libs settings)
      → IsSound libs settings pm
      → IsGiven (access libs settings now skip req pm)
  unfolding access
  access-IsGiven now skip req pm sound =
      found_access now skip req pm (find_path_conf settings pm.path_confs req.name) refl sound

  pub create_path-IsSound :
      (conf : PathConf settings) (name : List ℕ) (matches : List (List ℕ))
      (pm : PathManager libs settings)
      → lookup pm.paths name ≡ none
      → ((k : List ℕ) × Has pm.path_confs k conf)
      → IsSound libs settings pm
      → IsSound libs settings (create_path libs settings conf name matches pm)
  unfolding create_path
  create_path-IsSound conf name matches pm free (k, has) (indexed, configured, named, regexps) =
      let under_name : Has pm.path_confs conf.name conf =
        subst (λ x. Has pm.path_confs x conf) (sym (named k conf has)) has in
      (
        create_path-IsIndex libs settings conf name matches pm free indexed,
        create_path-AreConfigured libs settings conf name matches pm pm.path_confs under_name
            configured,
        named,
        regexps,
      )

  created_or_there :
      (conf : PathConf settings) (name : List ℕ) (matches : List (List ℕ))
      (pm : PathManager libs settings) (pa : Option Managed)
      → lookup pm.paths name ≡ pa
      → ((k : List ℕ) × Has pm.path_confs k conf)
      → IsSound libs settings pm
      → IsSound libs settings
          (elim pa [ none ↦ create_path libs settings conf name matches pm | some p ↦ pm ])
  created_or_there conf name matches pm none free listed sound =
      create_path-IsSound conf name matches pm free listed sound
  created_or_there conf name matches pm (some p) there listed sound = sound

  give_path-IsSound :
      (name : List ℕ) (pm : PathManager libs settings)
      (r : Result AccessError (PathConf settings × List (List ℕ)))
      → IsGiven (pm, r)
      → IsSound libs settings ((give_path libs settings name pm r).0)
  unfolding get_or_create
  give_path-IsSound name pm (err e) (sound, listed) = sound
  give_path-IsSound name pm (ok (conf, matches)) (sound, listed) =
      created_or_there conf name matches pm (lookup pm.paths name) refl (listed conf matches refl)
        sound

  pub access-give_path-IsSound :
      (now : ℕ) (skip : Bool) (req : AccessRequest libs settings) (pm : PathManager libs settings)
      → IsSound libs settings pm
      → IsSound libs settings (
          let (pm1, r) = access libs settings now skip req pm in
          (give_path libs settings req.name pm1 r).0)
  access-give_path-IsSound now skip req pm sound =
      give_path-IsSound req.name (access libs settings now skip req pm).0
        (access libs settings now skip req pm).1 (access-IsGiven now skip req pm sound)

  do_close_path-IsSound :
      (pa : Managed) (pm : PathManager libs settings)
      → IsSound libs settings pm
      → IsSound libs settings (do_close_path libs settings pa pm)
  do_close_path-IsSound pa pm (indexed, configured, named, regexps) =
      let confs = do_close_path-path_confs libs settings pa pm in
      (
        do_close_path-IsIndex libs settings pa pm indexed,
        rw confs (do_close_path-AreConfigured libs settings pa pm pm.path_confs configured),
        rw confs named,
        rw confs regexps,
      )

  -- A sound path manager stays sound, whatever message with admissible configurations it handles.
  pub handle-IsSound :
      (m : Message libs settings) (pm : PathManager libs settings)
      → IsAdmissible m
      → IsSound libs settings pm
      → IsSound libs settings (handle libs settings m pm)
  unfolding handle do_describe do_add_reader do_add_publisher do_find_path_conf do_path_ready
      do_path_not_ready
  handle-IsSound (reload_confs_with new_paths) pm (named, regexps) sound =
      do_reload_conf-IsSound new_paths pm named regexps sound
  handle-IsSound (set_hls_server m) pm admissible sound = sound
  handle-IsSound (close_path pa) pm admissible sound = do_close_path-IsSound pa pm sound
  handle-IsSound (path_ready pa) pm admissible sound =
      if_holds (IsSound libs settings) pm.has_hls_server sound sound
  handle-IsSound (path_not_ready pa) pm admissible sound =
      if_holds (IsSound libs settings) pm.has_hls_server sound sound
  handle-IsSound (find_conf now req) pm admissible sound = (access-IsGiven now false req pm sound).0
  handle-IsSound (describe now req) pm admissible sound =
      access-give_path-IsSound now false req pm sound
  handle-IsSound (add_reader now req) pm admissible sound =
      access-give_path-IsSound now req.skip_auth req pm sound
  handle-IsSound (add_publisher now req) pm admissible sound =
      access-give_path-IsSound now req.skip_auth req pm sound
  handle-IsSound api_paths_list pm admissible sound = sound
  handle-IsSound (api_paths_get name) pm admissible sound = sound
