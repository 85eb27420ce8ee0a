-- ===== src/Core/PathManager/Replaced.antt =====
-- Which paths a reload of mediamtx/internal/core/path_manager.go leaves and starts.
use go_live_vod.Prelude.{
  ℕ, List, Option, [], ap, if_holds, inl, inr, none, not, refl, some, subst, sym, true, ◌∙◌, ◌∷◌,
  ◌≡◌, ◌≢◌, ◌⊎◌,
}
use go_live_vod.Auth.{Libraries}
use go_live_vod.Conf.PathConf.{Settings, PathConf, equal}
use go_live_vod.Core.PathManager.Kept.{IsIndex}
use go_live_vod.Prelude.Maps.{
  lookup-insert_other, key_cases, lookup-insert, lookup-delete_other, lookup, Has,
}
use go_live_vod.Core.PathManager.Index.{In, In, In, In, In, In, In, one_path, taken, In}
use go_live_vod.Core.PathManager.{
  members, Managed, remove_path, add_new_paths, reload_confs, PathManager, close_paths, create_path,
  reload_one, path_conf_can_be_updated,
}
use go_live_vod.Core.PathManager.Reload.{reload_one-IsIndex, reload_paths-paths}

module _ (libs : Libraries) (settings : Settings) where
  -- The configuration is there again, unchanged or such that its paths can be told of the change.
  abbrev pub IsKept : PathConf settings → Option (PathConf settings) → Type 0
  IsKept c none = ⊥
  IsKept c (some next) =
      (equal settings next c ≡ true) ⊎ (path_conf_can_be_updated libs settings c next ≡ true)

  -- A path that stays when the paths of a set are closed.
  close_paths_other :
      (set : List Managed) (pm : PathManager libs settings) (n : List ℕ) (p : Managed)
      → ((q : Managed) → In q set → q.name ≢ n)
      → lookup pm.paths n ≡ some p
      → lookup ((close_paths libs settings set pm).paths) n ≡ some p
  unfolding close_paths remove_path
  close_paths_other [] pm n p apart there = there
  close_paths_other (pa ∷ set) pm n p apart there =
      close_paths_other set _ n p (λ q h. apart q (inr h))
        (lookup-delete_other pm.paths pa.name n (apart pa (inl refl)) ∙ there)

  -- The paths of another configuration have other names.
  other_names :
      (conf_name : List ℕ) (pm : PathManager libs settings) (n : List ℕ) (p : Managed)
      → IsIndex libs settings pm
      → lookup pm.paths n ≡ some p
      → p.conf_name ≢ conf_name
      → (q : Managed) → In q (members pm.paths_by_conf conf_name)
      → q.name ≢ n
  other_names conf_name pm n p indexed there other q h name =
      let (q_there, q_conf) = (indexed.2 conf_name q).0 h in
      let one : p ≡ q = one_path pm.paths q.name n p q there q_there (sym name) in
      other (ap (λ x. x.conf_name) one ∙ q_conf)

  reload_other :
      (conf_name : List ℕ) (c : PathConf settings) (next : Option (PathConf settings))
      (pm : PathManager libs settings) (n : List ℕ) (p : Managed)
      → IsIndex libs settings pm
      → lookup pm.paths n ≡ some p
      → p.conf_name ≢ conf_name
      → lookup ((reload_one libs settings conf_name c next pm).paths) n ≡ some p
  unfolding reload_one
  reload_other conf_name c none pm n p indexed there other =
      close_paths_other (members pm.paths_by_conf conf_name) pm n p
        (other_names conf_name pm n p indexed there other) there
  reload_other conf_name c (some next) pm n p indexed there other =
      let set = members pm.paths_by_conf conf_name in
      if_holds (λ (x : PathManager libs settings). lookup x.paths n ≡ some p)
        (not (equal settings next c))
        (if_holds (λ (x : PathManager libs settings). lookup x.paths n ≡ some p)
          (path_conf_can_be_updated libs settings c next)
          (ap (λ x. lookup x n) (reload_paths-paths libs settings set next pm) ∙ there)
          (close_paths_other set pm n p (other_names conf_name pm n p indexed there other) there))
        there

  reload_kept :
      (conf_name : List ℕ) (c : PathConf settings) (next : Option (PathConf settings))
      (pm : PathManager libs settings) (n : List ℕ) (p : Managed)
      → IsKept c next
      → lookup pm.paths n ≡ some p
      → lookup ((reload_one libs settings conf_name c next pm).paths) n ≡ some p
  unfolding reload_one
  reload_kept conf_name c none pm n p kept there = absurd kept
  reload_kept conf_name c (some next) pm n p (inl unchanged) there = rw unchanged there
  reload_kept conf_name c (some next) pm n p (inr updated) there =
      if_holds (λ (x : PathManager libs settings). lookup x.paths n ≡ some p)
        (not (equal settings next c))
        (rw updated (
          ap (λ x. lookup x n)
            (reload_paths-paths libs settings (members pm.paths_by_conf conf_name) next pm)
          ∙ there))
        there

  pub reload_confs_kept :
      (confs new_paths : List (List ℕ × PathConf settings)) (pm : PathManager libs settings)
      (n : List ℕ) (p : Managed)
      → IsIndex libs settings pm
      → ((c : PathConf settings)
          → Has confs p.conf_name c
          → IsKept c (lookup new_paths p.conf_name))
      → lookup pm.paths n ≡ some p
      → lookup ((reload_confs libs settings confs new_paths pm).paths) n ≡ some p
  unfolding reload_confs
  reload_confs_kept [] new_paths pm n p indexed kept there = there
  reload_confs_kept ((k, c) ∷ confs) new_paths pm n p indexed kept there =
      reload_confs_kept confs new_paths (reload_one libs settings k c (lookup new_paths k) pm) n p
        (reload_one-IsIndex libs settings k c (lookup new_paths k) pm indexed)
        (λ c' has. kept c' (inr has))
        (elim (key_cases p.conf_name k) [
          | inl e ↦
              let here : IsKept c (lookup new_paths k) =
                subst (λ x. IsKept c (lookup new_paths x)) e
                  (kept c (inl (ap (λ x. (x, c)) (sym e)))) in
              reload_kept k c (lookup new_paths k) pm n p here there
          | inr other ↦ reload_other k c (lookup new_paths k) pm n p indexed there other
        ])

  -- The last loop starts no path where there is one.
  add_one_kept :
      (name : List ℕ) (conf : PathConf settings) (pa : Option Managed) (re : Option settings.Regexp)
      (pm : PathManager libs settings) (n : List ℕ) (p : Managed)
      → lookup pm.paths name ≡ pa
      → lookup pm.paths n ≡ some p
      → Path
          (Option Managed)
          (lookup
            ((elim pa as (λ _. PathManager libs settings) [
              | some q ↦ pm
              | none ↦ elim re [ none ↦ create_path libs settings conf name [] pm | some r ↦ pm ]
            ]).paths)
            n)
          (some p)
  unfolding create_path
  add_one_kept name conf (some q) re pm n p here there = there
  add_one_kept name conf none (some r) pm n p here there = there
  add_one_kept name conf none none pm n p here there =
      let other : name ≢ n = λ e. taken pm.paths name n p here there e in
      lookup-insert_other pm.paths name n _ other ∙ there

  pub add_new_paths_kept :
      (confs : List (List ℕ × PathConf settings)) (pm : PathManager libs settings) (n : List ℕ)
      (p : Managed)
      → lookup pm.paths n ≡ some p
      → lookup ((add_new_paths libs settings confs pm).paths) n ≡ some p
  unfolding add_new_paths
  add_new_paths_kept [] pm n p there = there
  add_new_paths_kept ((name, conf) ∷ confs) pm n p there =
      add_new_paths_kept confs _ n p
        (add_one_kept name conf (lookup pm.paths name) (conf.regexp) pm n p refl there)

  -- Each configuration without a regular expression gets a path.
  add_one_covers :
      (name : List ℕ) (conf : PathConf settings) (pa : Option Managed) (re : Option settings.Regexp)
      (pm : PathManager libs settings)
      → lookup pm.paths name ≡ pa
      → re ≡ none
      → (p : Managed) × Path
          (Option Managed)
          (lookup
            ((elim pa as (λ _. PathManager libs settings) [
              | some q ↦ pm
              | none ↦ elim re [ none ↦ create_path libs settings conf name [] pm | some r ↦ pm ]
            ]).paths)
            name)
          (some p)
  unfolding create_path
  add_one_covers name conf (some q) re pm here static = (q, here)
  add_one_covers name conf none (some r) pm here static = cc
  add_one_covers name conf none none pm here static = (_, lookup-insert pm.paths name _)

  pub add_new_paths_covers :
      (confs : List (List ℕ × PathConf settings)) (pm : PathManager libs settings) (k : List ℕ)
      (c : PathConf settings)
      → Has confs k c
      → c.regexp ≡ none
      → (p : Managed) × (lookup ((add_new_paths libs settings confs pm).paths) k ≡ some p)
  unfolding add_new_paths
  add_new_paths_covers [] pm k c has static = absurd has
  add_new_paths_covers ((name, conf) ∷ confs) pm k c (inl e) static =
      let key : name ≡ k = ap (λ x. x.0) e in
      let same_regexp : conf.regexp ≡ none = ap (λ x. x.1.regexp) e ∙ static in
      let (p, there) =
        add_one_covers name conf (lookup pm.paths name) (conf.regexp) pm refl same_regexp in
      (
        p,
        subst
            (λ x. lookup ((add_new_paths libs settings ((name, conf) ∷ confs) pm).paths) x ≡ some p)
            key (add_new_paths_kept confs _ name p there),
      )
  add_new_paths_covers ((name, conf) ∷ confs) pm k c (inr has) static =
      add_new_paths_covers confs _ k c has static
