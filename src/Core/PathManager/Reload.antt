-- ===== src/Core/PathManager/Reload.antt =====
-- doReloadConf and initialize of mediamtx/internal/core/path_manager.go.
use go_live_vod.Prelude.{
  ℕ, List, Option, [], ap, if_holds, inl, inr, none, not, refl, some, sym, ◌∙◌, ◌∷◌, ◌≡◌, ◌≢◌,
  Option-cases, subst,
}
use go_live_vod.Auth.{Libraries}
use go_live_vod.Conf.PathConf.{Settings, PathConf, equal}
use go_live_vod.Core.PathManager.Index.{
  NoTwice, In, NoTwice, In, NoTwice, In, NoTwice, In, NoTwice, In, NoTwice, In, NoTwice, In,
  one_path, In, NoTwice,
}
use go_live_vod.Prelude.Maps.{lookup-delete_other, lookup, Has, lookup_sound}
use go_live_vod.Core.PathManager.Kept.{
  IsIndex, AreConfigured, IsNamed, create_path-AreConfigured, create_path-IsIndex,
  remove_path-IsIndex, remove_path-lookup,
}
use go_live_vod.Core.PathManager.{
  members, create_path, closed, reloaded, path_conf_can_be_updated, add_new_paths, reload_confs,
  PathManager, remove_path, close_paths, do_reload_conf, Managed, reload_one, reload_paths,
}

module _ (libs : Libraries) (settings : Settings) where
  -- Each path of the set is there.
  abbrev AreThere : List Managed → PathManager libs settings → Type 0
  AreThere set pm = (p : Managed) → In p set → lookup pm.paths p.name ≡ some p

  close_path :
      (pa : Managed) (set : List Managed) (pm : PathManager libs settings)
      → ((q : Managed) → In q set → q.id ≢ pa.id)
      → AreThere (pa ∷ set) pm
      → AreThere set (remove_path libs settings pa pm)
  unfolding remove_path
  close_path pa set pm apart there p h =
      let other : pa.name ≢ p.name = λ name. apart p h (
        ap (λ x. x.id)
          (one_path pm.paths pa.name p.name p pa (there p (inr h)) (there pa (inl refl))
            (sym name))) in
      lookup-delete_other pm.paths pa.name p.name other ∙ there p (inr h)

  close_paths-IsIndex :
      (set : List Managed) (pm : PathManager libs settings)
      → NoTwice set
      → AreThere set pm
      → IsIndex libs settings pm
      → IsIndex libs settings (close_paths libs settings set pm)
  unfolding close_paths
  close_paths-IsIndex [] pm once there indexed = indexed
  close_paths-IsIndex (pa ∷ set) pm (apart, once) there indexed =
      let pm1 = remove_path libs settings pa pm in
      close_paths-IsIndex set (record pm1 { events = closed pa ∷ pm1.events }) once
        (close_path pa set pm apart there)
        (remove_path-IsIndex libs settings pa pm (there pa (inl refl)) indexed)

  -- A path that is left when a set is closed was there, and is none of the set.
  close_paths-lookup :
      (set : List Managed) (pm : PathManager libs settings) (n : List ℕ) (p : Managed)
      → lookup ((close_paths libs settings set pm).paths) n ≡ some p
      → (lookup pm.paths n ≡ some p) × ((q : Managed) → In q set → q.name ≢ n)
  unfolding close_paths
  close_paths-lookup [] pm n p h = (h, λ q none. absurd none)
  close_paths-lookup (pa ∷ set) pm n p h =
      let pm1 = remove_path libs settings pa pm in
      let (there, apart) =
        close_paths-lookup set (record pm1 { events = closed pa ∷ pm1.events }) n p h in
      let (other, old) = remove_path-lookup libs settings pa pm n p there in
      (
        old,
        λ q which. elim which [
          | inl here ↦ λ name. other (ap (λ x. x.name) here ∙ name)
          | inr later ↦ apart q later
        ],
      )

  -- Telling paths of a configuration leaves the maps as they are.
  reload_paths-IsIndex :
      (set : List Managed) (conf : PathConf settings) (pm : PathManager libs settings)
      → IsIndex libs settings pm
      → IsIndex libs settings (reload_paths libs settings set conf pm)
  unfolding reload_paths
  reload_paths-IsIndex [] conf pm indexed = indexed
  reload_paths-IsIndex (pa ∷ set) conf pm indexed =
      reload_paths-IsIndex set conf (record pm { events = reloaded pa conf ∷ pm.events }) indexed

  pub reload_paths-paths :
      (set : List Managed) (conf : PathConf settings) (pm : PathManager libs settings)
      → (reload_paths libs settings set conf pm).paths ≡ pm.paths
  unfolding reload_paths
  reload_paths-paths [] conf pm = refl
  reload_paths-paths (pa ∷ set) conf pm =
      reload_paths-paths set conf (record pm { events = reloaded pa conf ∷ pm.events })

  members_there :
      (conf_name : List ℕ) (pm : PathManager libs settings)
      → IsIndex libs settings pm
      → AreThere (members pm.paths_by_conf conf_name) pm
  members_there conf_name pm (names, ids, index, filled, once) p h = ((index conf_name p).0 h).0

  close_members-IsIndex :
      (conf_name : List ℕ) (pm : PathManager libs settings)
      → IsIndex libs settings pm
      → IsIndex libs settings (close_paths libs settings (members pm.paths_by_conf conf_name) pm)
  close_members-IsIndex conf_name pm indexed =
      close_paths-IsIndex (members pm.paths_by_conf conf_name) pm (indexed.4 conf_name)
        (members_there conf_name pm indexed) indexed

  pub reload_one-IsIndex :
      (conf_name : List ℕ) (path_conf : PathConf settings) (newer : Option (PathConf settings))
      (pm : PathManager libs settings)
      → IsIndex libs settings pm
      → IsIndex libs settings (reload_one libs settings conf_name path_conf newer pm)
  unfolding reload_one
  reload_one-IsIndex conf_name path_conf none pm indexed =
      close_members-IsIndex conf_name pm indexed
  reload_one-IsIndex conf_name path_conf (some newer) pm indexed =
      if_holds (IsIndex libs settings) (not (equal settings newer path_conf))
        (if_holds (IsIndex libs settings) (path_conf_can_be_updated libs settings path_conf newer)
          (reload_paths-IsIndex (members pm.paths_by_conf conf_name) newer pm indexed)
          (close_members-IsIndex conf_name pm indexed))
        indexed

  -- What is left of the paths was there, and of a configuration that is gone nothing is left.
  pub reload_one-lookup :
      (conf_name : List ℕ) (path_conf : PathConf settings) (newer : Option (PathConf settings))
      (pm : PathManager libs settings)
      → IsIndex libs settings pm
      → (n : List ℕ) (p : Managed)
      → lookup ((reload_one libs settings conf_name path_conf newer pm).paths) n ≡ some p
      → (lookup pm.paths n ≡ some p) × (newer ≡ none → p.conf_name ≢ conf_name)
  unfolding reload_one
  reload_one-lookup conf_name path_conf none pm indexed n p h =
      let (there, apart) = close_paths-lookup (members pm.paths_by_conf conf_name) pm n p h in
      let name : p.name ≡ n = (indexed.0 n p there).0 in
      let at_name : lookup pm.paths p.name ≡ some p =
        subst (λ x. lookup pm.paths x ≡ some p) (sym name) there in
      (there, λ _ conf. apart p ((indexed.2 conf_name p).1 (at_name, conf)) name)
  reload_one-lookup conf_name path_conf (some newer) pm indexed n p h = (
    if_holds
        (λ (x : PathManager libs settings). lookup x.paths n ≡ some p → lookup pm.paths n ≡ some p)
        (not (equal settings newer path_conf))
        (if_holds
          (λ (x : PathManager libs settings).
            lookup x.paths n ≡ some p → lookup pm.paths n ≡ some p)
          (path_conf_can_be_updated libs settings path_conf newer)
          (λ told.
            sym (
              ap (λ x. lookup x n)
                (reload_paths-paths (members pm.paths_by_conf conf_name) newer pm))
            ∙ told)
          (λ left. (close_paths-lookup (members pm.paths_by_conf conf_name) pm n p left).0))
        (λ same_paths. same_paths) h,
    λ gone. cc,
  )

  reload_confs-IsIndex :
      (confs new_paths : List (List ℕ × PathConf settings)) (pm : PathManager libs settings)
      → IsIndex libs settings pm
      → IsIndex libs settings (reload_confs libs settings confs new_paths pm)
  unfolding reload_confs
  reload_confs-IsIndex [] new_paths pm indexed = indexed
  reload_confs-IsIndex ((k, c) ∷ confs) new_paths pm indexed =
      reload_confs-IsIndex confs new_paths (reload_one libs settings k c (lookup new_paths k) pm)
        (reload_one-IsIndex k c (lookup new_paths k) pm indexed)

  pub reload_confs-lookup :
      (confs new_paths : List (List ℕ × PathConf settings)) (pm : PathManager libs settings)
      → IsIndex libs settings pm
      → (n : List ℕ) (p : Managed)
      → lookup ((reload_confs libs settings confs new_paths pm).paths) n ≡ some p
      → (lookup pm.paths n ≡ some p)
        × ((k : List ℕ) (c : PathConf settings)
            → Has confs k c
            → lookup new_paths k ≡ none
            → p.conf_name ≢ k)
  unfolding reload_confs
  reload_confs-lookup [] new_paths pm indexed n p h = (h, λ k c has. absurd has)
  reload_confs-lookup ((k', c') ∷ confs) new_paths pm indexed n p h =
      let kept = reload_one-IsIndex k' c' (lookup new_paths k') pm indexed in
      let (mid, rest) =
        reload_confs-lookup confs new_paths
          (reload_one libs settings k' c' (lookup new_paths k') pm) kept n p h in
      let (old, here) = reload_one-lookup k' c' (lookup new_paths k') pm indexed n p mid in
      (
        old,
        λ k c has gone. elim has [
          | inl e ↦
              let key : k' ≡ k = ap (λ x. x.0) e in
              λ conf. here (ap (lookup new_paths) key ∙ gone) (conf ∙ sym key)
          | inr later ↦ rest k c later gone
        ],
      )

  reload_confs-AreConfigured :
      (confs new_paths : List (List ℕ × PathConf settings)) (pm : PathManager libs settings)
      → IsIndex libs settings pm
      → AreConfigured libs settings pm.paths confs
      → AreConfigured libs settings
          ((reload_confs libs settings confs new_paths pm).paths)
          new_paths
  reload_confs-AreConfigured confs new_paths pm indexed configured n p h =
      let (old, apart) = reload_confs-lookup confs new_paths pm indexed n p h in
      let (c, has) = configured n p old in
      elim (Option-cases (lookup new_paths p.conf_name)) [
        | inl gone ↦ absurd (apart p.conf_name c has gone refl)
        | inr (c', there) ↦ (c', lookup_sound new_paths p.conf_name c' there)
      ]

  -- What the last loop keeps.
  abbrev IsFilling : List (List ℕ × PathConf settings) → PathManager libs settings → Type 0
  IsFilling new_paths pm = IsIndex libs settings pm × AreConfigured libs settings pm.paths new_paths

  add_path :
      (new_paths : List (List ℕ × PathConf settings)) (name : List ℕ) (conf : PathConf settings)
      (re : Option settings.Regexp) (pm : PathManager libs settings)
      → Has new_paths name conf
      → IsNamed libs settings new_paths
      → lookup pm.paths name ≡ none
      → IsFilling new_paths pm
      → IsFilling new_paths
          (elim re [ none ↦ create_path libs settings conf name [] pm | some r ↦ pm ])
  add_path new_paths name conf none pm has named free (indexed, configured) = (
    create_path-IsIndex libs settings conf name [] pm free indexed,
    create_path-AreConfigured libs settings conf name [] pm new_paths
        (subst (λ x. Has new_paths x conf) (sym (named name conf has)) has) configured,
  )
  add_path new_paths name conf (some re) pm has named free filling = filling

  add_or_keep :
      (new_paths : List (List ℕ × PathConf settings)) (name : List ℕ) (conf : PathConf settings)
      (pa : Option Managed) (pm : PathManager libs settings)
      → Has new_paths name conf
      → IsNamed libs settings new_paths
      → lookup pm.paths name ≡ pa
      → IsFilling new_paths pm
      → IsFilling new_paths (elim pa [
        | some p ↦ pm
        | none ↦ elim (conf.regexp) [
          | none ↦ create_path libs settings conf name [] pm
          | some r ↦ pm
        ]
      ])
  add_or_keep new_paths name conf (some p) pm has named free filling = filling
  add_or_keep new_paths name conf none pm has named free filling =
      add_path new_paths name conf (conf.regexp) pm has named free filling

  add_new_paths-IsFilling :
      (new_paths confs : List (List ℕ × PathConf settings)) (pm : PathManager libs settings)
      → ((k : List ℕ) (c : PathConf settings) → Has confs k c → Has new_paths k c)
      → IsNamed libs settings new_paths
      → IsFilling new_paths pm
      → IsFilling new_paths (add_new_paths libs settings confs pm)
  unfolding add_new_paths
  add_new_paths-IsFilling new_paths [] pm among named filling = filling
  add_new_paths-IsFilling new_paths ((name, conf) ∷ confs) pm among named filling =
      add_new_paths-IsFilling new_paths confs _ (λ k c has. among k c (inr has)) named
        (add_or_keep new_paths name conf (lookup pm.paths name) pm (among name conf (inl refl))
          named refl filling)

  pub do_reload_conf-IsFilling :
      (new_paths : List (List ℕ × PathConf settings)) (pm : PathManager libs settings)
      → IsNamed libs settings new_paths
      → IsIndex libs settings pm
      → AreConfigured libs settings pm.paths pm.path_confs
      → IsFilling new_paths (do_reload_conf libs settings new_paths pm)
  unfolding do_reload_conf
  do_reload_conf-IsFilling new_paths pm named indexed configured =
      add_new_paths-IsFilling new_paths new_paths _ (λ k c has. has) named
        (
          reload_confs-IsIndex pm.path_confs new_paths pm indexed,
          reload_confs-AreConfigured pm.path_confs new_paths pm indexed configured,
        )
