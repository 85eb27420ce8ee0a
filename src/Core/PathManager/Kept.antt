-- ===== src/Core/PathManager/Kept.antt =====
-- The invariant of the path manager of mediamtx/internal/core/path_manager.go, and the steps that
-- keep it.
use go_live_vod.Prelude.{
  ℕ, List, inl, inr, none, refl, some, subst, sym, ◌≡◌, ◌≢◌, Bool-cases, Option-cases, arith, ◌==◌,
  ◌⊎◌, ap,
}
use go_live_vod.Auth.{Libraries}
use go_live_vod.Conf.PathConf.{PathConf, Settings}
use go_live_vod.Core.PathManager.{do_close_path, PathManager, remove_path, create_path, Managed}
use go_live_vod.Core.PathManager.Index.{
  IsIndexed, deleted, IsIndexed, deleted, IsIndexed, deleted, IsIndexed, deleted, IsIndexed,
  deleted, IsIndexed, deleted, IsIndexed, deleted, deleted, added, IsIndexed,
}
use go_live_vod.Core.PathManager.Index.Created.{create_path-IsIndexed}
use go_live_vod.Core.PathManager.Index.Removed.{remove_path-IsIndexed}
use go_live_vod.Prelude.Maps.{lookup, Has}
use go_live_vod.Conf.PathConf.Found.{HasRegexps}

module _ (libs : Libraries) (settings : Settings) where
  -- Every configuration stands under its own name.
  abbrev pub IsNamed : List (List ℕ × PathConf settings) → Type 0
  IsNamed confs = (k : List ℕ) (c : PathConf settings) → Has confs k c → c.name ≡ k

  -- Each path has a configuration.
  abbrev pub AreConfigured : List (List ℕ × Managed) → List (List ℕ × PathConf settings) → Type 0
  AreConfigured paths confs =
      (n : List ℕ) (p : Managed)
      → lookup paths n ≡ some p
      → (c : PathConf settings) × Has confs p.conf_name c

  abbrev pub IsIndex : PathManager libs settings → Type 0
  IsIndex pm = IsIndexed pm.paths pm.paths_by_conf pm.next_id

  -- The maps of paths agree, and each path is of a configuration that there is; these stand under
  -- their names, and those of all other paths have a regular expression.
  abbrev pub IsSound : PathManager libs settings → Type 0
  IsSound pm =
      IsIndex pm
      × AreConfigured pm.paths pm.path_confs
      × IsNamed pm.path_confs
      × HasRegexps settings pm.path_confs

  pub create_path-IsIndex :
      (conf : PathConf settings) (name : List ℕ) (matches : List (List ℕ))
      (pm : PathManager libs settings)
      → lookup pm.paths name ≡ none
      → IsIndex pm
      → IsIndex (create_path libs settings conf name matches pm)
  unfolding create_path
  create_path-IsIndex conf name matches pm free indexed =
      create_path-IsIndexed pm.paths pm.paths_by_conf pm.next_id
        (record { id = pm.next_id; name = name; conf_name = conf.name; matches = matches }) refl
        free indexed

  pub create_path-AreConfigured :
      (conf : PathConf settings) (name : List ℕ) (matches : List (List ℕ))
      (pm : PathManager libs settings) (confs : List (List ℕ × PathConf settings))
      → Has confs conf.name conf
      → AreConfigured pm.paths confs
      → AreConfigured ((create_path libs settings conf name matches pm).paths) confs
  unfolding create_path
  create_path-AreConfigured conf name matches pm confs has configured n p h =
      elim (added pm.paths name n
        (record { id = pm.next_id; name = name; conf_name = conf.name; matches = matches }) p h) [
          | inl (e, here) ↦ (conf, subst (λ x. Has confs x.conf_name conf) (sym here) has)
          | inr (apart, old) ↦ configured n p old
        ]

  pub remove_path-IsIndex :
      (pa : Managed) (pm : PathManager libs settings)
      → lookup pm.paths pa.name ≡ some pa
      → IsIndex pm
      → IsIndex (remove_path libs settings pa pm)
  unfolding remove_path
  remove_path-IsIndex pa pm there indexed =
      remove_path-IsIndexed pm.paths pm.paths_by_conf pm.next_id pa there indexed

  pub remove_path-lookup :
      (pa : Managed) (pm : PathManager libs settings) (n : List ℕ) (p : Managed)
      → lookup ((remove_path libs settings pa pm).paths) n ≡ some p
      → (pa.name ≢ n) × (lookup pm.paths n ≡ some p)
  unfolding remove_path
  remove_path-lookup pa pm n p h = deleted pm.paths pa.name n p h

  -- What closing a path may come to: nothing, or that it is removed.
  close_cases :
      (pa : Managed) (pm : PathManager libs settings)
      → (do_close_path libs settings pa pm ≡ pm)
        ⊎ ((p : Managed) × (lookup pm.paths pa.name ≡ some p)
            × (p.id ≡ pa.id)
            × (do_close_path libs settings pa pm ≡ remove_path libs settings p pm))
  unfolding do_close_path
  close_cases pa pm = elim (Option-cases (lookup pm.paths pa.name)) [
    | inl missing ↦ inl (rw (do_close_path, missing))
    | inr (p, there) ↦ elim (Bool-cases (p.id == pa.id)) [
      | inl e ↦
          let same_id : p.id ≡ pa.id = ground arith in
          inr (p, there, same_id, rw (do_close_path, there, e))
      | inr e ↦ inl (rw (do_close_path, there, e))
    ]
  ]

  pub do_close_path-IsIndex :
      (pa : Managed) (pm : PathManager libs settings)
      → IsIndex pm
      → IsIndex (do_close_path libs settings pa pm)
  do_close_path-IsIndex pa pm indexed = elim (close_cases pa pm) [
    | inl e ↦ subst IsIndex (sym e) indexed
    | inr (p, there, same_id, e) ↦
        let name : p.name ≡ pa.name = (indexed.0 pa.name p there).0 in
        subst IsIndex (sym e) (
          remove_path-IsIndex p pm (subst (λ n. lookup pm.paths n ≡ some p) (sym name) there)
            indexed)
  ]

  pub do_close_path-AreConfigured :
      (pa : Managed) (pm : PathManager libs settings) (confs : List (List ℕ × PathConf settings))
      → AreConfigured pm.paths confs
      → AreConfigured ((do_close_path libs settings pa pm).paths) confs
  do_close_path-AreConfigured pa pm confs configured = elim (close_cases pa pm) [
    | inl e ↦ subst (λ x. AreConfigured x.paths confs) (sym e) configured
    | inr (p, there, same_id, e) ↦
        subst (λ x. AreConfigured x.paths confs) (sym e)
          (λ n q h. configured n q (remove_path-lookup p pm n q h).1)
  ]

  pub do_close_path-path_confs :
      (pa : Managed) (pm : PathManager libs settings)
      → (do_close_path libs settings pa pm).path_confs ≡ pm.path_confs
  unfolding remove_path
  do_close_path-path_confs pa pm = elim (close_cases pa pm) [
    | inl e ↦ ap (λ x. x.path_confs) e
    | inr (p, there, same_id, e) ↦ ap (λ x. x.path_confs) e
  ]
