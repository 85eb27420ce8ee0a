-- ===== src/Core/PathManager/Access.antt =====
-- What doDescribe, doAddReader and doAddPublisher of mediamtx/internal/core/path_manager.go hand out.
use go_live_vod.Prelude.{
  ℕ, Bool, List, Option, false, inl, inr, refl, some, sym, true, ◌∙◌, ◌≡◌, ◌⊎◌, none,
}
use go_live_vod.Auth.{Libraries}
use go_live_vod.Auth.Manager.{authenticate, Refusal}
use go_live_vod.Conf.PathConf.{Settings, PathConf, find_path_conf}
use go_live_vod.Core.PathManager.{
  refused, Managed, to_auth_request, PathManager, create_path, AccessError, AccessRequest,
  not_found,
}
use go_live_vod.Core.PathManager.Loop.{
  give_path, authenticate_access, get_or_create, access, do_add_publisher, do_add_reader,
  do_describe,
}
use go_live_vod.Prelude.Result.{Result-cases, err, ok, Result}
use go_live_vod.Core.PathManager.Kept.{IsSound}
use go_live_vod.Prelude.Maps.{Has, lookup, lookup-insert}
use go_live_vod.Core.PathManager.Sound.{access-give_path-IsSound}

module _ (libs : Libraries) (settings : Settings) where
  -- The authentication manager takes the request.
  abbrev pub IsAuthenticated : ℕ → AccessRequest libs settings → PathManager libs settings → Type 0
  IsAuthenticated now req pm =
      (authenticate libs now pm.auth_manager (to_auth_request libs settings req)).1 ≡ ok tt

  -- What is handed out: a path of the name that the manager knows, which has a configuration.
  abbrev pub IsHandedOut :
      AccessRequest libs settings → PathManager libs settings → Option Managed → Type 0
  IsHandedOut req pm r =
      (p : Managed) × (r ≡ some p)
      × (p.name ≡ req.name)
      × (lookup pm.paths req.name ≡ some p)
      × (c : PathConf settings) × Has pm.path_confs p.conf_name c

  not_refused :
      (r : Result Refusal (Unit {0}))
      → Path
          (Result AccessError (Unit {0}))
          (elim r [ err e ↦ err (refused e) | ok t ↦ ok tt ])
          (ok tt)
      → r ≡ ok tt
  not_refused (ok t) h = refl
  not_refused (err e) h = cc

  passed :
      (r : Result AccessError (Unit {0})) (f found : PathConf settings × List (List ℕ))
      → Path
          (Result AccessError (PathConf settings × List (List ℕ)))
          (elim r [ err e ↦ err e | ok t ↦ ok f ])
          (ok found)
      → r ≡ ok tt
  passed (ok t) f found h = refl
  passed (err e) f found h = cc

  authenticated :
      (now : ℕ) (skip : Bool) (req : AccessRequest libs settings) (pm : PathManager libs settings)
      → (authenticate_access libs settings now skip req pm).1 ≡ ok tt
      → (skip ≡ true) ⊎ IsAuthenticated now req pm
  authenticated now true req pm h = inl refl
  authenticated now false req pm h =
      inr (
        not_refused (authenticate libs now pm.auth_manager (to_auth_request libs settings req)).1 h)

  access-IsAuthenticated :
      (now : ℕ) (skip : Bool) (req : AccessRequest libs settings) (pm : PathManager libs settings)
      (found : PathConf settings × List (List ℕ))
      → (access libs settings now skip req pm).1 ≡ ok found
      → (skip ≡ true) ⊎ IsAuthenticated now req pm
  unfolding access
  access-IsAuthenticated now skip req pm found h =
      elim (Result-cases (find_path_conf settings pm.path_confs req.name)) [
        | inl (e, missing) ↦
            let answer : (access libs settings now skip req pm).1 ≡ err (not_found e) =
              rw (access, missing) in
            cc
        | inr (f, there) ↦
            let r = (authenticate_access libs settings now skip req pm).1 in
            let answer : Path (Result AccessError (PathConf settings × List (List ℕ)))
                ((access libs settings now skip req pm).1)
                (elim r [ err e ↦ err e | ok t ↦ ok f ]) =
              rw (access, there) in
            authenticated now skip req pm (passed r f found (sym answer ∙ h))
      ]

  there_or_created :
      (conf : PathConf settings) (name : List ℕ) (matches : List (List ℕ))
      (pm : PathManager libs settings) (pa : Option Managed)
      → lookup pm.paths name ≡ pa
      → (p : Managed) × Path
          (Option Managed)
          (lookup
            ((elim pa as (λ _. PathManager libs settings) [
              | none ↦ create_path libs settings conf name matches pm
              | some q ↦ pm
            ]).paths)
            name)
          (some p)
  unfolding create_path
  there_or_created conf name matches pm none free = (_, lookup-insert pm.paths name _)
  there_or_created conf name matches pm (some q) there = (q, there)

  handed_out :
      (name : List ℕ) (conf : PathConf settings) (matches : List (List ℕ))
      (pm : PathManager libs settings)
      → (p : Managed) × (lookup ((get_or_create libs settings conf name matches pm).paths) name
          ≡ some p)
  unfolding get_or_create
  handed_out name conf matches pm =
      there_or_created conf name matches pm (lookup pm.paths name) refl

  -- What is not refused is handed out, to who is authenticated or skips that.
  abbrev pub HandsOut :
      ℕ
      → Bool
      → AccessRequest libs settings
      → PathManager libs settings
      → PathManager libs settings × Result AccessError (Option Managed)
      → Type 0
  HandsOut now skip req pm (pm1, err e) = Unit {0}
  HandsOut now skip req pm (pm1, ok out) =
      ((skip ≡ true) ⊎ IsAuthenticated now req pm) × IsHandedOut req pm1 out

  give_path-HandsOut :
      (now : ℕ) (skip : Bool) (req : AccessRequest libs settings)
      (pm pm1 : PathManager libs settings)
      (r : Result AccessError (PathConf settings × List (List ℕ)))
      → (access libs settings now skip req pm).1 ≡ r
      → IsSound libs settings ((give_path libs settings req.name pm1 r).0)
      → HandsOut now skip req pm (give_path libs settings req.name pm1 r)
  give_path-HandsOut now skip req pm pm1 (err e) given sound = tt
  give_path-HandsOut now skip req pm pm1 (ok (c, m)) given sound =
      let (p, there) = handed_out req.name c m pm1 in
      let (conf, has) = sound.1 req.name p there in
      (
        access-IsAuthenticated now skip req pm (c, m) given,
        (p, there, (sound.0.0 req.name p there).0, there, conf, has),
      )

  access-HandsOut :
      (now : ℕ) (skip : Bool) (req : AccessRequest libs settings) (pm : PathManager libs settings)
      → IsSound libs settings pm
      → HandsOut now skip req pm (
          let (pm1, r) = access libs settings now skip req pm in
          give_path libs settings req.name pm1 r)
  access-HandsOut now skip req pm sound =
      give_path-HandsOut now skip req pm (access libs settings now skip req pm).0
        (access libs settings now skip req pm).1 refl
        (access-give_path-IsSound libs settings now skip req pm sound)

  -- Where the path manager is sound, a describe request, a reader or a publisher that is not refused
  -- gets a path: one of the name that is asked for, that the manager knows and that has a
  -- configuration; and it was authenticated, unless a reader or publisher skips that.
  pub do_access_lem :
      (now : ℕ) (req : AccessRequest libs settings) (pm : PathManager libs settings)
      → IsSound libs settings pm
      → HandsOut now false req pm (do_describe libs settings now req pm)
        × HandsOut now req.skip_auth req pm (do_add_reader libs settings now req pm)
        × HandsOut now req.skip_auth req pm (do_add_publisher libs settings now req pm)
  unfolding do_describe do_add_reader do_add_publisher
  do_access_lem now req pm sound = (
    access-HandsOut now false req pm sound,
    access-HandsOut now req.skip_auth req pm sound,
    access-HandsOut now req.skip_auth req pm sound,
  )
