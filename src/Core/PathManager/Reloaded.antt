-- ===== src/Core/PathManager/Reloaded.antt =====
-- Which paths a reload of mediamtx/internal/core/path_manager.go closes, and what it comes to.
use go_live_vod.Prelude.{
  ℕ, Bool-cases, List, Option, [], ap, arith, if_holds, inl, inr, none, not, refl, some, subst, sym,
  ◌<◌, ◌↔◌, ◌∙◌, ◌∷◌, ◌≡◌, ◌≤◌, ◌⊎◌,
}
use go_live_vod.Auth.{Libraries}
use go_live_vod.Conf.PathConf.{Settings, PathConf, equal}
use go_live_vod.Core.PathManager.{
  add_new_paths, reload_confs, PathManager, close_paths, create_path, reload_one,
  path_conf_can_be_updated, add_new_paths, reload_confs, PathManager, close_paths, create_path,
  reload_one, path_conf_can_be_updated, add_new_paths, reload_confs, PathManager, close_paths,
  create_path, reload_one, path_conf_can_be_updated, add_new_paths, reload_confs, PathManager,
  close_paths, create_path, reload_one, path_conf_can_be_updated, add_new_paths, reload_confs,
  PathManager, close_paths, create_path, reload_one, path_conf_can_be_updated, add_new_paths,
  reload_confs, PathManager, close_paths, create_path, reload_one, path_conf_can_be_updated,
  add_new_paths, reload_confs, PathManager, close_paths, create_path, reload_one,
  path_conf_can_be_updated, add_new_paths, reload_confs, PathManager, close_paths, create_path,
  reload_one, path_conf_can_be_updated, add_new_paths, reload_confs, PathManager, close_paths,
  create_path, reload_one, path_conf_can_be_updated, add_new_paths, reload_confs, PathManager,
  close_paths, create_path, reload_one, path_conf_can_be_updated, add_new_paths, reload_confs,
  PathManager, close_paths, create_path, reload_one, path_conf_can_be_updated, add_new_paths,
  reload_confs, PathManager, close_paths, create_path, reload_one, path_conf_can_be_updated,
  add_new_paths, reload_confs, PathManager, close_paths, create_path, reload_one,
  path_conf_can_be_updated, add_new_paths, reload_confs, PathManager, close_paths, create_path,
  reload_one, path_conf_can_be_updated, Managed, remove_path, PathManager, reload_paths,
  reload_confs, create_path, do_reload_conf, add_new_paths, close_paths, members,
  path_conf_can_be_updated, reload_one,
}
use go_live_vod.Prelude.Maps.{Has, lookup}
use go_live_vod.Core.PathManager.Kept.{IsIndex, IsNamed}
use go_live_vod.Core.PathManager.Index.{added}
use go_live_vod.Core.PathManager.Replaced.{
  reload_confs_kept, add_new_paths_kept, add_new_paths_covers, IsKept,
}
use go_live_vod.Core.PathManager.Reload.{reload_confs-lookup, reload_one-lookup, reload_one-IsIndex}

module _ (libs : Libraries) (settings : Settings) where
  -- A path that is left has a configuration that is kept.
  reload_left :
      (conf_name : List ℕ) (c : PathConf settings) (next : Option (PathConf settings))
      (pm : PathManager libs settings) (n : List ℕ) (p : Managed)
      → IsIndex libs settings pm
      → lookup ((reload_one libs settings conf_name c next pm).paths) n ≡ some p
      → p.conf_name ≡ conf_name
      → IsKept libs settings c next
  unfolding reload_one
  reload_left conf_name c none pm n p indexed h conf =
      absurd ((reload_one-lookup libs settings conf_name c none pm indexed n p h).1 refl conf)
  reload_left conf_name c (some next) pm n p indexed h conf =
      elim (Bool-cases (equal settings next c)) [
        | inl unchanged ↦ inl unchanged
        | inr changed ↦ elim (Bool-cases (path_conf_can_be_updated libs settings c next)) [
          | inl updated ↦ inr updated
          | inr recreated ↦
              let left : lookup ((reload_one libs settings conf_name c none pm).paths) n ≡ some p =
                rw (changed, recreated) at h in
              absurd
                ((reload_one-lookup libs settings conf_name c none pm indexed n p left).1 refl conf)
        ]
      ]

  reload_confs_left :
      (confs new_paths : List (List ℕ × PathConf settings)) (pm : PathManager libs settings)
      (n : List ℕ) (p : Managed)
      → IsIndex libs settings pm
      → lookup ((reload_confs libs settings confs new_paths pm).paths) n ≡ some p
      → (c : PathConf settings) → Has confs p.conf_name c
      → IsKept libs settings c (lookup new_paths p.conf_name)
  unfolding reload_confs
  reload_confs_left [] new_paths pm n p indexed h c has = absurd has
  reload_confs_left ((k, c') ∷ confs) new_paths pm n p indexed h c has =
      let pm1 = reload_one libs settings k c' (lookup new_paths k) pm in
      let indexed1 = reload_one-IsIndex libs settings k c' (lookup new_paths k) pm indexed in
      elim has [
        | inl e ↦
            let key : k ≡ p.conf_name = ap (λ x. x.0) e in
            let same_conf : c' ≡ c = ap (λ x. x.1) e in
            let mid = (reload_confs-lookup libs settings confs new_paths pm1 indexed1 n p h).0 in
            let kept = reload_left k c' (lookup new_paths k) pm n p indexed mid (sym key) in
            subst (λ x. IsKept libs settings x (lookup new_paths p.conf_name)) same_conf
              (subst (λ x. IsKept libs settings c' (lookup new_paths x)) key kept)
        | inr later ↦ reload_confs_left confs new_paths pm1 n p indexed1 h c later
      ]

  close_paths-next_id :
      (set : List Managed) (pm : PathManager libs settings)
      → (close_paths libs settings set pm).next_id ≡ pm.next_id
  unfolding close_paths remove_path
  close_paths-next_id [] pm = refl
  close_paths-next_id (pa ∷ set) pm = close_paths-next_id set _

  reload_paths-next_id :
      (set : List Managed) (conf : PathConf settings) (pm : PathManager libs settings)
      → (reload_paths libs settings set conf pm).next_id ≡ pm.next_id
  unfolding reload_paths
  reload_paths-next_id [] conf pm = refl
  reload_paths-next_id (pa ∷ set) conf pm = reload_paths-next_id set conf _

  reload_one-next_id :
      (conf_name : List ℕ) (c : PathConf settings) (next : Option (PathConf settings))
      (pm : PathManager libs settings)
      → (reload_one libs settings conf_name c next pm).next_id ≡ pm.next_id
  unfolding reload_one
  reload_one-next_id conf_name c none pm =
      close_paths-next_id (members pm.paths_by_conf conf_name) pm
  reload_one-next_id conf_name c (some next) pm =
      let set = members pm.paths_by_conf conf_name in
      if_holds (λ (x : PathManager libs settings). x.next_id ≡ pm.next_id)
        (not (equal settings next c))
        (if_holds (λ (x : PathManager libs settings). x.next_id ≡ pm.next_id)
          (path_conf_can_be_updated libs settings c next) (reload_paths-next_id set next pm)
          (close_paths-next_id set pm))
        refl

  reload_confs-next_id :
      (confs new_paths : List (List ℕ × PathConf settings)) (pm : PathManager libs settings)
      → (reload_confs libs settings confs new_paths pm).next_id ≡ pm.next_id
  unfolding reload_confs
  reload_confs-next_id [] new_paths pm = refl
  reload_confs-next_id ((k, c) ∷ confs) new_paths pm =
      reload_confs-next_id confs new_paths _ ∙ reload_one-next_id k c (lookup new_paths k) pm

  not_below : (a b : ℕ) → a < b → ¬ (a ≡ b)
  not_below a b below e = omega (arith, below, e)

  -- A path that was there before is none of those that are started.
  add_one_old :
      (name : List ℕ) (conf : PathConf settings) (pa : Option Managed) (re : Option settings.Regexp)
      (pm pm1 : PathManager libs settings) (n : List ℕ) (p : Managed)
      → p.id < pm.next_id
      → pm1 ≡ (elim pa as (λ _. PathManager libs settings) [
        | some q ↦ pm
        | none ↦ elim re [ none ↦ create_path libs settings conf name [] pm | some r ↦ pm ]
      ])
      → (p.id < pm1.next_id) × (lookup pm1.paths n ≡ some p → lookup pm.paths n ≡ some p)
  unfolding create_path
  add_one_old name conf (some q) re pm pm1 n p below e = rw e (below, λ h. h)
  add_one_old name conf none (some r) pm pm1 n p below e = rw e (below, λ h. h)
  add_one_old name conf none none pm pm1 n p below e = rw e (
    omega (arith, below),
    λ h. elim (added pm.paths name n _ p h) [
      | inl (at_name, here) ↦
          let same_id : p.id ≡ pm.next_id = ap (λ x. x.id) here in
          absurd (not_below p.id pm.next_id below same_id)
      | inr (apart, old) ↦ old
    ],
  )

  add_new_paths_old :
      (confs : List (List ℕ × PathConf settings)) (pm : PathManager libs settings) (n : List ℕ)
      (p : Managed)
      → p.id < pm.next_id
      → lookup ((add_new_paths libs settings confs pm).paths) n ≡ some p
      → lookup pm.paths n ≡ some p
  unfolding add_new_paths
  add_new_paths_old [] pm n p below h = h
  add_new_paths_old ((name, conf) ∷ confs) pm n p below h =
      let (below1, old) =
        add_one_old name conf (lookup pm.paths name) (conf.regexp) pm _ n p below refl in
      old (add_new_paths_old confs _ n p below1 h)

  -- A path that was started for the configuration of its name.
  abbrev pub IsStarted : ℕ → List ℕ → Managed → Type 0
  IsStarted next_id name p =
      (p.name ≡ name) × (p.conf_name ≡ name) × (p.matches ≡ []) × (next_id ≤ p.id)

  -- Where a path comes from that is there after one round of the last loop.
  add_one_origin :
      (name : List ℕ) (conf : PathConf settings) (pa : Option Managed) (re : Option settings.Regexp)
      (pm pm1 : PathManager libs settings) (n : List ℕ) (p : Managed)
      → conf.name ≡ name
      → pm1 ≡ (elim pa as (λ _. PathManager libs settings) [
        | some q ↦ pm
        | none ↦ elim re [ none ↦ create_path libs settings conf name [] pm | some r ↦ pm ]
      ])
      → (pm.next_id ≤ pm1.next_id)
        × (lookup pm1.paths n ≡ some p → (lookup pm.paths n ≡ some p) ⊎ IsStarted pm.next_id n p)
  unfolding create_path
  add_one_origin name conf (some q) re pm pm1 n p named e = rw e (omega arith, λ h. inl h)
  add_one_origin name conf none (some r) pm pm1 n p named e = rw e (omega arith, λ h. inl h)
  add_one_origin name conf none none pm pm1 n p named e = rw e (
    omega arith,
    λ h. elim (added pm.paths name n _ p h) [
      | inl (at_name, here) ↦
          let same_id : p.id ≡ pm.next_id = ap (λ x. x.id) here in
          inr (
            ap (λ x. x.name) here ∙ sym at_name,
            ap (λ x. x.conf_name) here ∙ named ∙ sym at_name,
            ap (λ x. x.matches) here,
            omega (arith, same_id),
          )
      | inr (apart, old) ↦ inl old
    ],
  )

  add_new_paths_origin :
      (confs : List (List ℕ × PathConf settings)) (pm : PathManager libs settings) (n : List ℕ)
      (p : Managed)
      → IsNamed libs settings confs
      → lookup ((add_new_paths libs settings confs pm).paths) n ≡ some p
      → (lookup pm.paths n ≡ some p) ⊎ IsStarted pm.next_id n p
  unfolding add_new_paths
  add_new_paths_origin [] pm n p named h = inl h
  add_new_paths_origin ((name, conf) ∷ confs) pm n p named h =
      let (later, origin) =
        add_one_origin name conf (lookup pm.paths name) (conf.regexp) pm _ n p
          (named name conf (inl refl)) refl in
      elim (add_new_paths_origin confs _ n p (λ k c has. named k c (inr has)) h) [
        | inl mid ↦ origin mid
        | inr (at_name, conf_name, matches, new) ↦
            inr (at_name, conf_name, matches, omega (arith, later, new))
      ]

  -- By a reload of a path manager of which the maps of paths agree, with configurations that stand
  -- under their names, each configuration without a regular expression has a path of its name: one that
  -- was started for it, or the one that was there, whose own configuration is there again, unchanged or
  -- such that its paths can be told of the change.
  pub do_reload_conf_covers :
      (new_paths : List (List ℕ × PathConf settings)) (pm : PathManager libs settings) (k : List ℕ)
      (c : PathConf settings)
      → IsIndex libs settings pm
      → IsNamed libs settings new_paths
      → Has new_paths k c
      → c.regexp ≡ none
      → (p : Managed) × (lookup ((do_reload_conf libs settings new_paths pm).paths) k ≡ some p)
        × (IsStarted pm.next_id k p
            ⊎ ((lookup pm.paths k ≡ some p)
                × ((c' : PathConf settings)
                    → Has pm.path_confs p.conf_name c'
                    → IsKept libs settings c' (lookup new_paths p.conf_name))))
  unfolding do_reload_conf
  do_reload_conf_covers new_paths pm k c indexed named has static =
      let (p, there) = add_new_paths_covers libs settings new_paths _ k c has static in
      (
        p,
        there,
        elim (add_new_paths_origin new_paths _ k p named there) [
          | inl left ↦ inr (
            (reload_confs-lookup libs settings pm.path_confs new_paths pm indexed k p left).0,
            reload_confs_left pm.path_confs new_paths pm k p indexed left,
          )
          | inr new ↦
              inl (
                subst (λ id. IsStarted id k p) (reload_confs-next_id pm.path_confs new_paths pm)
                  new)
        ],
      )

  -- By a reload of a path manager of which the maps of paths agree, a path that is there stays just
  -- where its configuration is there again, unchanged or such that its paths can be told of the change.
  pub do_reload_conf_lem :
      (new_paths : List (List ℕ × PathConf settings)) (pm : PathManager libs settings) (n : List ℕ)
      (p : Managed)
      → IsIndex libs settings pm
      → lookup pm.paths n ≡ some p
      → ((c : PathConf settings)
          → Has pm.path_confs p.conf_name c
          → IsKept libs settings c (lookup new_paths p.conf_name))
        ↔ (lookup ((do_reload_conf libs settings new_paths pm).paths) n ≡ some p)
  unfolding do_reload_conf
  do_reload_conf_lem new_paths pm n p indexed there = (
    λ kept.
        add_new_paths_kept libs settings new_paths _ n p
          (reload_confs_kept libs settings pm.path_confs new_paths pm n p indexed kept there),
    λ h c has.
        let below : p.id < (reload_confs libs settings pm.path_confs new_paths pm).next_id =
          rw (reload_confs-next_id pm.path_confs new_paths pm) ((indexed.0 n p there).1) in
        reload_confs_left pm.path_confs new_paths pm n p indexed
          (add_new_paths_old new_paths _ n p below h) c has,
  )
