-- ===== src/Auth/Manager.antt =====
-- mediamtx/internal/auth/manager.go and FillFromRTSPRequest of request.go. What http.Post sends is
-- the request as JSON, of which the fields are the model's.
use go_live_vod.Prelude.{
  ℕ, Bool, List, Option, [], false, if◌then◌else◌, ltb, none, not, some, true, ◌&&◌, ◌-◌, ◌==◌,
  ◌||◌, ◌∷◌,
}
use go_live_vod.Conf.Settings.{
  AuthMethod, AuthAction, api, http, internal, jwt, metrics, playback, pprof, publish, read,
}
use go_live_vod.Auth.{InternalUser, IpNet, Authorization, Permission, Libraries}
use go_live_vod.Auth.Credential.{contains, is_text, check, verified}
use go_live_vod.Prelude.Text.{bytes, same}
use go_live_vod.Prelude.Result.{ok, err, Result, ◌>>=◌}

-- `nil_key_func` is no error of the source: it is the panic on a `jwtKeyFunc` that is nil.
pub data AuthError : Type 0 where
  wrong_user ip_not_allowed no_permission invalid_credentials authentication_failed : AuthError
  request_failed keys_not_downloaded invalid_query jwt_not_provided invalid_token : AuthError
  nil_key_func : AuthError
  replied : ℕ → List ℕ → AuthError

-- `Error`
pub record Refusal : Type 0 where
  pub message : AuthError
  pub ask_credentials : Bool

-- The actions whose permissions have a path.
abbrev pub has_path : AuthAction → Bool
has_path publish = true
has_path read = true
has_path playback = true
has_path _ = false

abbrev pub same_action : AuthAction → AuthAction → Bool
same_action publish publish = true
same_action read read = true
same_action playback playback = true
same_action api api = true
same_action metrics metrics = true
same_action pprof pprof = true
same_action _ _ = false

module _ (libs : Libraries) where
  pub record Request : Type 0 where
    pub user : List ℕ
    pub pass : List ℕ
    pub ip : List ℕ
    pub action : AuthAction
    pub path : List ℕ
    pub query : List ℕ
    pub rtsp_request : Option libs.RtspRequest
    pub rtsp_nonce : List ℕ
    pub as_json : List ℕ

  -- The time is in nanoseconds since Go's zero time; `jwt_key_func` is nil before the first download.
  pub record Manager : Type 0 where
    pub method : AuthMethod
    pub internal_users : List InternalUser
    pub http_address : List ℕ
    pub http_exclude : List Permission
    pub jwt_jwks : List ℕ
    pub jwt_claim_key : List ℕ
    pub rtsp_auth_methods : libs.Methods
    pub jwt_last_refresh : ℕ
    pub jwt_key_func : Option libs.JwtKeys

  -- The `switch` on `perm.Path`.
  unfoldable pub matches_path : List ℕ → List ℕ → Bool
  matches_path [] path = true
  matches_path (c ∷ s) path = if c == b'~' then verified (libs.regexp s path) else same (c ∷ s) path

  unfoldable pub matches_permission : List Permission → Request → Bool
  matches_permission [] req = false
  matches_permission (perm ∷ perms) req =
      (same_action perm.action req.action
        && (if has_path perm.action then matches_path perm.path req.path else true))
      || matches_permission perms req

  unfoldable pub is_any : List ℕ → Bool
  is_any user = same user (bytes "any")

  -- The last check of `authenticateWithUser`, of a user other than any.
  unfoldable pub check_password : Manager → Request → Option Authorization → InternalUser → Bool
  check_password m req header u = elim (req.rtsp_request) [
    | none ↦ check libs u.pass req.pass
    | some rtsp ↦ elim header [
      | none ↦ check libs u.pass req.pass
      | some h ↦
          if h.is_digest
          then libs.validate rtsp u.user u.pass m.rtsp_auth_methods req.rtsp_nonce
          else check libs u.pass req.pass
    ]
  ]

  abbrev pub is_some_network : List IpNet → Bool
  is_some_network [] = false
  is_some_network (n ∷ d) = true

  unfoldable pub authenticate_with_user :
      Manager → Request → Option Authorization → InternalUser → Result AuthError (Unit {0})
  authenticate_with_user m req header u =
      if not (is_any u.user) && not (check libs u.user req.user)
      then err wrong_user
      else if is_some_network u.ips && not (contains libs u.ips req.ip)
      then err ip_not_allowed
      else if not (matches_permission u.permissions req)
      then err no_permission
      else if not (is_any u.user) && not (check_password m req header u)
      then err invalid_credentials
      else ok tt

  -- `rtspAuthHeader`
  unfoldable pub rtsp_auth_header : Request → Option Authorization
  rtsp_auth_header req = elim (req.rtsp_request) [
    | none ↦ none
    | some rtsp ↦ libs.authorization rtsp
  ]

  -- One turn of the loop over the users.
  abbrev pub attempt :
      Result AuthError (Unit {0}) → Result AuthError (Unit {0}) → Result AuthError (Unit {0})
  attempt (ok t) rest = ok tt
  attempt (err e) rest = rest

  unfoldable pub try_users :
      Manager → Request → Option Authorization → List InternalUser → Result AuthError (Unit {0})
  try_users m req header [] = err authentication_failed
  try_users m req header (u ∷ us) =
      attempt (authenticate_with_user m req header u) (try_users m req header us)

  unfoldable pub authenticate_internal : Manager → Request → Result AuthError (Unit {0})
  authenticate_internal m req = try_users m req (rtsp_auth_header req) m.internal_users

  -- What is read of an answer: nothing if it is empty or cannot be read.
  abbrev pub body_or_nothing : Option (List ℕ) → List ℕ
  body_or_nothing none = []
  body_or_nothing (some body) = body

  unfoldable pub authenticate_http : Manager → Request → Result AuthError (Unit {0})
  authenticate_http m req =
      if matches_permission m.http_exclude req
      then ok tt
      else elim (libs.post m.http_address req.as_json) [
        | none ↦ err request_failed
        | some (status, body) ↦
            if ltb status 200 || ltb 299 status
            then err (replied status (body_or_nothing body))
            else ok tt
      ]

  -- jwtRefreshPeriod
  abbrev pub jwt_refresh_period : ℕ
  jwt_refresh_period = 3600000000000

  abbrev pub key_func : Option libs.JwtKeys → Result AuthError libs.JwtKeys
  key_func none = err nil_key_func
  key_func (some keys) = ok keys

  -- `pullJWTJWKS`: the manager keeps new keys and when they came.
  unfoldable pub pull_jwt_jwks : ℕ → Manager → Manager × Result AuthError libs.JwtKeys
  pull_jwt_jwks now m =
      if ltb (now - m.jwt_last_refresh) jwt_refresh_period
      then (m, key_func m.jwt_key_func)
      else elim (libs.download_keys m.jwt_jwks now) [
        | none ↦ (m, err keys_not_downloaded)
        | some keys ↦ (record m { jwt_key_func = some keys; jwt_last_refresh = now }, ok keys)
      ]

  -- `if len(v["jwt"]) != 1`
  unfoldable pub sole_token : List (List ℕ) → Result AuthError (List ℕ)
  sole_token (token ∷ []) = ok token
  sole_token _ = err jwt_not_provided

  abbrev pub or_error {ℓ} : {A : Type ℓ} → AuthError → Option A → Result AuthError A
  or_error e none = err e
  or_error e (some a) = ok a

  -- What `authenticateJWT` does with the keys.
  unfoldable pub check_token : Manager → Request → libs.JwtKeys → Result AuthError (Unit {0})
  check_token m req keys = do
    tokens ← or_error invalid_query (libs.query_jwt req.query)
    token ← sole_token tokens
    permissions ← or_error invalid_token (libs.parse_token keys m.jwt_claim_key token)
    if not (matches_permission permissions req) then err no_permission else ok tt

  unfoldable pub authenticate_jwt : ℕ → Manager → Request → Manager × Result AuthError (Unit {0})
  authenticate_jwt now m req =
      let (m1, pulled) = pull_jwt_jwks now m in (m1, (pulled >>= check_token m1 req))

  -- The `switch` of `Authenticate`.
  unfoldable pub authenticate_by :
      AuthMethod → ℕ → Manager → Request → Manager × Result AuthError (Unit {0})
  authenticate_by internal now m req = (m, authenticate_internal m req)
  authenticate_by http now m req = (m, authenticate_http m req)
  authenticate_by jwt now m req = authenticate_jwt now m req

  -- `&Error{...}`
  unfoldable pub refuse : Request → Result AuthError (Unit {0}) → Result Refusal (Unit {0})
  refuse req (ok t) = ok t
  refuse req (err e) =
      err
        (record { message = e; ask_credentials = not (is_text req.user) && not (is_text req.pass) })

  unfoldable pub authenticate : ℕ → Manager → Request → Manager × Result Refusal (Unit {0})
  authenticate now m req =
      let (m1, result) = authenticate_by m.method now m req in (m1, refuse req result)

  -- FillFromRTSPRequest
  unfoldable pub fill_from_rtsp_request : libs.RtspRequest → Request → Request
  fill_from_rtsp_request rtsp r = elim (libs.authorization rtsp) [
    | none ↦ r
    | some h ↦
        if h.is_basic
        then record r { user = h.basic_user; pass = h.basic_pass }
        else record r { user = h.username }
  ]
