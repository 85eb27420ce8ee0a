-- ===== src/Core/PathManager/Started.antt =====
-- The path manager of mediamtx/internal/core/path_manager.go from its start on.
use go_live_vod.Prelude.{
  ℕ, All, List, Option, [], ap, inl, inr, none, refl, some, subst, sym, ◌∙◌, ◌∷◌, ◌≡◌, ◌≢◌,
}
use go_live_vod.Auth.{Libraries}
use go_live_vod.Conf.PathConf.{Settings, PathConf}
use go_live_vod.Core.PathManager.Loop.{handle, Message, run}
use go_live_vod.Core.PathManager.{members, PathManager, create_static, create_path, initialize}
use go_live_vod.Auth.Manager.{Manager}
use go_live_vod.Prelude.Maps.{lookup, lookup-insert_other, Has}
use go_live_vod.Core.PathManager.Sound.{handle-IsSound, IsAdmissible, create_path-IsSound}
use go_live_vod.Core.PathManager.Kept.{IsNamed, IsSound}
use go_live_vod.Conf.PathConf.Found.{HasRegexps}

module _ (libs : Libraries) (settings : Settings) where
  -- No key stands twice, as in a map.
  abbrev pub HasDistinctKeys : List (List ℕ × PathConf settings) → Type 0
  HasDistinctKeys [] = Unit {0}
  HasDistinctKeys ((k, c) ∷ confs) =
      ((c' : PathConf settings) → ¬ (Has confs k c')) × HasDistinctKeys confs

  -- There is no path yet of the configurations that are left.
  abbrev AreFree : List (List ℕ × PathConf settings) → PathManager libs settings → Type 0
  AreFree confs pm = (k : List ℕ) (c : PathConf settings) → Has confs k c → lookup pm.paths k ≡ none

  create_path-AreFree :
      (name : List ℕ) (conf : PathConf settings) (confs : List (List ℕ × PathConf settings))
      (pm : PathManager libs settings)
      → ((c : PathConf settings) → ¬ (Has confs name c))
      → AreFree confs pm
      → AreFree confs (create_path libs settings conf name [] pm)
  unfolding create_path
  create_path-AreFree name conf confs pm apart free k c has =
      let other : name ≢ k = λ e. apart c (subst (λ x. Has confs x c) (sym e) has) in
      lookup-insert_other pm.paths name k _ other ∙ free k c has

  -- What the loop of initialize keeps.
  abbrev IsStarting : List (List ℕ × PathConf settings) → PathManager libs settings → Type 0
  IsStarting confs pm = IsSound libs settings pm × AreFree confs pm

  started_or_not :
      (k : List ℕ) (conf : PathConf settings) (confs : List (List ℕ × PathConf settings))
      (re : Option settings.Regexp) (pm : PathManager libs settings)
      → Has pm.path_confs k conf
      → ((c : PathConf settings) → ¬ (Has confs k c))
      → IsStarting ((k, conf) ∷ confs) pm
      → IsStarting confs
          (elim re [ none ↦ create_path libs settings conf conf.name [] pm | some r ↦ pm ])
  started_or_not k conf confs none pm has apart (sound, free) =
      let name : conf.name ≡ k = sound.2 k conf has in
      (
        create_path-IsSound libs settings conf conf.name [] pm
            (ap (lookup pm.paths) name ∙ free k conf (inl refl)) (k, has) sound,
        create_path-AreFree conf.name conf confs pm
            (subst (λ x. (c : PathConf settings) → ¬ (Has confs x c)) (sym name) apart)
            (λ k' c has'. free k' c (inr has')),
      )
  started_or_not k conf confs (some r) pm has apart (sound, free) =
      (sound, λ k' c has'. free k' c (inr has'))

  started_confs :
      (re : Option settings.Regexp) (conf : PathConf settings) (name : List ℕ)
      (pm : PathManager libs settings)
      → Path
          (List (List ℕ × PathConf settings))
          ((elim re as (λ _. PathManager libs settings) [
            | none ↦ create_path libs settings conf name [] pm
            | some r ↦ pm
          ]).path_confs)
          pm.path_confs
  unfolding create_path
  started_confs none conf name pm = refl
  started_confs (some r) conf name pm = refl

  create_static-IsSound :
      (confs : List (List ℕ × PathConf settings)) (pm : PathManager libs settings)
      → ((k : List ℕ) (c : PathConf settings) → Has confs k c → Has pm.path_confs k c)
      → HasDistinctKeys confs
      → IsStarting confs pm
      → IsSound libs settings (create_static libs settings confs pm)
  unfolding create_static
  create_static-IsSound [] pm among distinct (sound, free) = sound
  create_static-IsSound ((k, conf) ∷ confs) pm among (apart, distinct) starting =
      create_static-IsSound confs _
        (λ k' c has.
          subst (λ x. Has x k' c) (sym (started_confs (conf.regexp) conf conf.name pm))
            (among k' c (inr has)))
        distinct
        (started_or_not k conf confs (conf.regexp) pm (among k conf (inl refl)) apart starting)

  initialize-IsSound :
      (auth_manager : Manager libs) (confs : List (List ℕ × PathConf settings))
      → HasDistinctKeys confs
      → IsNamed libs settings confs
      → HasRegexps settings confs
      → IsSound libs settings (initialize libs settings auth_manager confs)
  unfolding initialize lookup members
  initialize-IsSound auth_manager confs distinct named regexps =
      create_static-IsSound confs _ (λ k c has. has) distinct
        (
          (
            (
              (λ n p h. cc),
              (λ n n' p p' h h' e. cc),
              (λ c p. ((λ h. absurd h), (λ (h, e). cc))),
              (λ c h. cc),
              λ c. tt,
            ),
            (λ n p h. cc),
            named,
            regexps,
          ),
          λ k c has. refl,
        )

  run_on :
      (ms : List (Message libs settings)) (pm : PathManager libs settings)
      → All (IsAdmissible libs settings) ms
      → IsSound libs settings pm
      → IsSound libs settings (run libs settings ms pm)
  unfolding run
  run_on [] pm admissible sound = sound
  run_on (m ∷ ms) pm (here, later) sound =
      run_on ms (handle libs settings m pm) later (handle-IsSound libs settings m pm here sound)

  -- A path manager that is started with configurations under their names, of which those of all other
  -- paths have a regular expression, and that then handles any messages of which the new configurations
  -- are such: its maps of paths agree, and each path is of a configuration that there is.
  pub run-IsSound :
      (auth_manager : Manager libs) (confs : List (List ℕ × PathConf settings))
      (ms : List (Message libs settings))
      → HasDistinctKeys confs
      → IsNamed libs settings confs
      → HasRegexps settings confs
      → All (IsAdmissible libs settings) ms
      → IsSound libs settings (run libs settings ms (initialize libs settings auth_manager confs))
  run-IsSound auth_manager confs ms distinct named regexps admissible =
      run_on ms (initialize libs settings auth_manager confs) admissible
        (initialize-IsSound auth_manager confs distinct named regexps)
