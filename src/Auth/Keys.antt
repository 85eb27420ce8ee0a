-- ===== src/Auth/Keys.antt =====
-- The keys of authenticateJWT and pullJWTJWKS of mediamtx/internal/auth/manager.go.
use go_live_vod.Prelude.{
  Bool-cases, List, Option-cases, Some, [], arith, inl, inr, ltb, none, refl, some, true, ℕ, ◌+◌,
  ◌-◌, ◌<◌, ◌∙◌, ◌∷◌, ◌≡◌, ◌≤◌, ◌⊎◌, Bool, Option, ap, if◌then◌else◌, not, false, subst, sym, ◌≢◌,
}
use go_live_vod.Auth.{Permission, Libraries}
use go_live_vod.Auth.Manager.{
  keys_not_downloaded, nil_key_func, AuthError, Request, Manager, authenticate_jwt, check_token,
  jwt_refresh_period, pull_jwt_jwks, invalid_query, invalid_token, matches_permission,
  no_permission, or_error, sole_token,
}
use go_live_vod.Prelude.Result.{ok, err, Result, ◌>>=◌, between}
use go_live_vod.Auth.Allowed.{Permits}
use go_live_vod.Auth.Allowed.Permissions.{matches_permission_iff}

module _ (libs : Libraries) where
  -- The keys at hand are what was downloaded at the time of the last refresh; without keys there was
  -- none.
  abbrev pub HasKeysOfLastRefresh : Manager libs → Type 0
  HasKeysOfLastRefresh m =
      ((keys : libs.JwtKeys)
        → m.jwt_key_func ≡ some keys
        → libs.download_keys m.jwt_jwks m.jwt_last_refresh ≡ some keys)
      × (m.jwt_key_func ≡ none → m.jwt_last_refresh ≡ 0)

  -- Keys that were downloaded less than an hour before.
  abbrev pub IsRecent : ℕ → List ℕ → libs.JwtKeys → Type 0
  IsRecent now address keys =
      (time : ℕ) × (now < time + jwt_refresh_period libs)
      × (libs.download_keys address time ≡ some keys)

  -- The token of the request, by these keys, has a permission for it.
  abbrev pub HasToken : Manager libs → Request libs → libs.JwtKeys → Type 0
  HasToken m req keys =
      (token : List ℕ) × (permissions : List Permission) × (libs.query_jwt req.query
        ≡ some (token ∷ []))
      × (libs.parse_token keys m.jwt_claim_key token ≡ some permissions)
      × Some (Permits libs req) permissions

  recent :
      (now last : ℕ)
      → ltb (now - last) (jwt_refresh_period libs) ≡ true
      → now < last + jwt_refresh_period libs
  recent now last h = ground arith

  never_due :
      (now last : ℕ)
      → ltb (now - last) (jwt_refresh_period libs) ≡ true
      → jwt_refresh_period libs ≤ now
      → ¬ (last ≡ 0)
  never_due now last soon late never = ground arith

  -- What pulling the keys may come to.
  abbrev Pulls : ℕ → Manager libs → Manager libs × Result AuthError libs.JwtKeys → Type 0
  Pulls now m (m1, r) =
      HasKeysOfLastRefresh m1
      × (m1.jwt_claim_key ≡ m.jwt_claim_key)
      × ((r ≡ err keys_not_downloaded)
          ⊎ ((keys : libs.JwtKeys) × (r ≡ ok keys) × IsRecent now m.jwt_jwks keys))

  -- Keys that are recent are kept, without a download.
  pull_held :
      (now : ℕ) (m : Manager libs) (keys : libs.JwtKeys)
      → ltb (now - m.jwt_last_refresh) (jwt_refresh_period libs) ≡ true
      → m.jwt_key_func ≡ some keys
      → pull_jwt_jwks libs now m ≡ (m, ok keys)
  unfolding pull_jwt_jwks
  pull_held now m keys soon e = rw (soon, e)

  pull_failed :
      (now : ℕ) (m : Manager libs)
      → ltb (now - m.jwt_last_refresh) (jwt_refresh_period libs) ≡ false
      → libs.download_keys m.jwt_jwks now ≡ none
      → pull_jwt_jwks libs now m ≡ (m, err keys_not_downloaded)
  unfolding pull_jwt_jwks
  pull_failed now m due e = rw (due, e)

  pull_downloaded :
      (now : ℕ) (m : Manager libs) (keys : libs.JwtKeys)
      → ltb (now - m.jwt_last_refresh) (jwt_refresh_period libs) ≡ false
      → libs.download_keys m.jwt_jwks now ≡ some keys
      → pull_jwt_jwks libs now m
        ≡ (record m { jwt_key_func = some keys; jwt_last_refresh = now }, ok keys)
  unfolding pull_jwt_jwks
  pull_downloaded now m keys due e = rw (due, e)

  pull_jwt_jwks-Pulls :
      (now : ℕ) (m : Manager libs)
      → HasKeysOfLastRefresh m
      → jwt_refresh_period libs ≤ now
      → Pulls now m (pull_jwt_jwks libs now m)
  pull_jwt_jwks-Pulls now m (held, unheld) late =
      elim (Bool-cases (ltb (now - m.jwt_last_refresh) (jwt_refresh_period libs))) [
        | inl soon ↦ elim (Option-cases (m.jwt_key_func)) [
          | inl no_keys ↦ absurd (never_due now m.jwt_last_refresh soon late (unheld no_keys))
          | inr (keys, e) ↦
              let time : IsRecent now m.jwt_jwks keys =
                (m.jwt_last_refresh, recent now m.jwt_last_refresh soon, held keys e) in
              subst (Pulls now m) (sym (pull_held now m keys soon e))
                ((held, unheld), refl, inr (keys, refl, time))
        ]
        | inr due ↦ elim (Option-cases (libs.download_keys m.jwt_jwks now)) [
          | inl failed ↦
              subst (Pulls now m) (sym (pull_failed now m due failed))
                ((held, unheld), refl, inl refl)
          | inr (keys, e) ↦
              let soon : now < now + jwt_refresh_period libs = omega arith in
              subst (Pulls now m) (sym (pull_downloaded now m keys due e)) (
                ((λ keys' same_keys. e ∙ same_keys), λ h. cc),
                refl,
                inr (keys, refl, (now, soon, e)),
              )
        ]
      ]

  or_error_ok :
      {A B : Type 0} (e : AuthError) (o : Option A) {k : A → Result AuthError B} {b : B}
      → (or_error libs e o >>= k) ≡ ok b
      → (a : A) × (o ≡ some a) × (k a ≡ ok b)
  or_error_ok e none h = cc
  or_error_ok e (some a) h = (a, refl, h)

  sole_token_ok :
      (tokens : List (List ℕ)) (token : List ℕ)
      → sole_token libs tokens ≡ ok token
      → tokens ≡ token ∷ []
  unfolding sole_token
  sole_token_ok [] token h = cc
  sole_token_ok (t ∷ []) token h = cc
  sole_token_ok (t ∷ u ∷ tokens) token h = cc

  permitted :
      (b : Bool)
      → Path (Result AuthError (Unit {0})) (if not b then err no_permission else ok tt) (ok tt)
      → b ≡ true
  permitted b h = ground arith

  check_token_sound :
      (m : Manager libs) (req : Request libs) (keys : libs.JwtKeys)
      → check_token libs m req keys ≡ ok tt
      → HasToken m req keys
  unfolding check_token
  check_token_sound m req keys h =
      let (tokens, queried, h1) = or_error_ok invalid_query (libs.query_jwt req.query) h in
      let (token, h2, sole) =
        between (sole_token libs tokens)
          (λ t. or_error libs invalid_token (libs.parse_token keys m.jwt_claim_key t) >>= λ ps.
            if not (matches_permission libs ps req) then err no_permission else ok tt)
          h1 in
      let (permissions, parsed, h3) =
        or_error_ok invalid_token (libs.parse_token keys m.jwt_claim_key token) h2 in
      (
        token,
        permissions,
        queried ∙ ap some (sole_token_ok tokens token sole),
        parsed,
        (matches_permission_iff libs permissions req).0
            (permitted (matches_permission libs permissions req) h3),
      )

  or_error_err :
      {A B : Type 0} (e x : AuthError) (o : Option A) (k : A → Result AuthError B)
      → (or_error libs e o >>= k) ≡ err x
      → (e ≡ x) ⊎ ((a : A) × (k a ≡ err x))
  or_error_err e x none k h = inl (ground arith)
  or_error_err e x (some a) k h = inr (a, h)

  never_nil :
      (b : Bool)
      → ¬ (
          Path
            (Result AuthError (Unit {0}))
            (if not b then err no_permission else ok tt)
            (err nil_key_func))
  never_nil b h = ground arith

  sole_never_nil :
      {B : Type 0} (tokens : List (List ℕ)) (k : List ℕ → Result AuthError B)
      → (sole_token libs tokens >>= k) ≡ err nil_key_func
      → (token : List ℕ) × (k token ≡ err nil_key_func)
  unfolding sole_token
  sole_never_nil [] k h = cc
  sole_never_nil (t ∷ []) k h = (t, h)
  sole_never_nil (t ∷ u ∷ tokens) k h = cc

  check_token_error :
      (m : Manager libs) (req : Request libs) (keys : libs.JwtKeys)
      → ¬ (check_token libs m req keys ≡ err nil_key_func)
  unfolding check_token
  check_token_error m req keys h =
      elim (or_error_err invalid_query nil_key_func (libs.query_jwt req.query) _ h) [
        | inl other ↦ cc
        | inr (tokens, h1) ↦
            let (token, h2) = sole_never_nil tokens _ h1 in
            elim (or_error_err invalid_token nil_key_func
              (libs.parse_token keys m.jwt_claim_key token) _ h2) [
                | inl other ↦ cc
                | inr (permissions, h3) ↦ never_nil (matches_permission libs permissions req) h3
              ]
      ]

  pulled_sound :
      (now : ℕ) (m : Manager libs) (req : Request libs) (m1 : Manager libs)
      (r : Result AuthError libs.JwtKeys)
      → Pulls now m (m1, r)
      → HasKeysOfLastRefresh m1
        × ¬ ((r >>= check_token libs m1 req) ≡ err nil_key_func)
        × ((r >>= check_token libs m1 req) ≡ ok tt
            → (keys : libs.JwtKeys) × IsRecent now m.jwt_jwks keys × HasToken m req keys)
  pulled_sound now m req m1 (err e) (kept, same_claim, pulled) =
      (kept, (λ h. elim pulled [ inl failed ↦ cc | inr (keys, e', young) ↦ cc ]), λ h. cc)
  pulled_sound now m req m1 (ok keys) (kept, same_claim, inl failed) = cc
  pulled_sound now m req m1 (ok keys) (kept, same_claim, inr (keys', e, young)) = (
    kept,
    check_token_error m1 req keys,
    λ h.
        let (token, permissions, queried, parsed, permits) = check_token_sound m1 req keys h in
        let one : keys' ≡ keys = cc in
        (
          keys,
          subst (IsRecent now m.jwt_jwks) one young,
          (token, permissions, queried, rw same_claim at parsed, permits),
        ),
  )

  -- A request is let in for a token by recent keys, and no refusal is the panic on missing keys.
  abbrev pub IsAnswered : ℕ → Manager libs → Request libs → Result AuthError (Unit {0}) → Type 0
  IsAnswered now m req (ok t) =
      (keys : libs.JwtKeys) × IsRecent now m.jwt_jwks keys × HasToken m req keys
  IsAnswered now m req (err e) = e ≢ nil_key_func

  answered :
      (now : ℕ) (m : Manager libs) (req : Request libs) (r : Result AuthError (Unit {0}))
      → ¬ (r ≡ err nil_key_func)
      → (r ≡ ok tt → (keys : libs.JwtKeys) × IsRecent now m.jwt_jwks keys × HasToken m req keys)
      → IsAnswered now m req r
  answered now m req (ok t) found let_in = let_in refl
  answered now m req (err e) found let_in = λ missing. found (ap err missing)

  -- With JSON web tokens, from a manager whose keys are those of the last refresh and after the first
  -- hour of the calendar: the keys stay those of the last refresh, the missing keys of a manager are
  -- never called, and a request that is authenticated has one token, which by keys that were downloaded
  -- less than an hour before gives a permission for it.
  pub authenticate_jwt_sound :
      (now : ℕ) (m : Manager libs) (req : Request libs)
      → HasKeysOfLastRefresh m
      → jwt_refresh_period libs ≤ now
      → HasKeysOfLastRefresh ((authenticate_jwt libs now m req).0)
        × IsAnswered now m req (authenticate_jwt libs now m req).1
  unfolding authenticate_jwt
  authenticate_jwt_sound now m req held late =
      let (m1, r) = pull_jwt_jwks libs now m in
      let (kept, found, let_in) =
        pulled_sound now m req m1 r (pull_jwt_jwks-Pulls now m held late) in
      (kept, answered now m req (r >>= check_token libs m1 req) found let_in)
