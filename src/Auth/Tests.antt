-- ===== src/Auth/Tests.antt =====
-- mediamtx/internal/auth/manager.go on concrete requests.
use go_live_vod.Prelude.{ℕ, List, Some, [], arith, false, none, refl, some, true, ◌↔◌, ◌∷◌, ◌≡◌}
use go_live_vod.Prelude.Text.{has_prefix, same, bytes}
use go_live_vod.Auth.Keys.{authenticate_jwt_sound, HasKeysOfLastRefresh, IsAnswered}
use go_live_vod.Auth.Manager.{
  authentication_failed, rtsp_auth_header, is_any, request_failed, check_password, refuse,
  authenticate_with_user, matches_path, nil_key_func, sole_token, try_users, matches_permission,
  authenticate_internal, check_token, authenticate_http, authenticate_by, Manager, pull_jwt_jwks,
  authenticate, fill_from_rtsp_request, authenticate_jwt, Request,
}
use go_live_vod.Auth.{IpNet, Libraries, InternalUser, Permission}
use go_live_vod.Conf.Settings.{http, jwt, internal, read, AuthMethod}
use go_live_vod.Prelude.Result.{ok, err}
use go_live_vod.Auth.Allowed.{Allows}
use go_live_vod.Auth.Allowed.Users.{authenticate_iff, AsksRightly}
use go_live_vod.Auth.Credential.{contains, is_sha256, check, is_argon2}

abbrev alice : List ℕ
alice = bytes "alice"

abbrev secret : List ℕ
secret = bytes "secret"

abbrev reading : Permission
reading = record { action = read; path = bytes "live" }

-- No server is reached, keys are the time of their download, a token is the query, and each token lets
-- read one path.
abbrev pub libs : Libraries
libs = record {
  RtspRequest = List ℕ;
  Methods = List ℕ;
  JwtKeys = ℕ;
  regexp = λ pattern path. none;
  sha256_base64 = λ s. s;
  argon2_verify = λ guess hash. none;
  network_contains = λ network ip. same network.ip ip;
  authorization = λ rtsp. none;
  validate = λ rtsp user pass methods nonce. false;
  post = λ address body. none;
  download_keys = λ address time. some time;
  query_jwt = λ query. some (query ∷ []);
  parse_token = λ keys claim token. some (reading ∷ []);
}

abbrev home : IpNet
home = record { ip = 127 ∷ 0 ∷ 0 ∷ 1 ∷ []; mask = 255 ∷ 255 ∷ 255 ∷ 255 ∷ [] }

abbrev users : List InternalUser
users =
    record { user = bytes "any"; pass = []; ips = home ∷ []; permissions = reading ∷ [] }
    ∷ record { user = alice; pass = bytes "sha256:secret"; ips = []; permissions = reading ∷ [] }
    ∷ []

abbrev pub manager : AuthMethod → Manager libs
manager method = record {
  method = method;
  internal_users = users;
  http_address = [];
  http_exclude = [];
  jwt_jwks = bytes "https://localhost/jwks";
  jwt_claim_key = bytes "mediamtx_permissions";
  rtsp_auth_methods = [];
  jwt_last_refresh = 0;
  jwt_key_func = none;
}

abbrev pub request : List ℕ → List ℕ → Request libs
request user pass = record {
  user = user;
  pass = pass;
  ip = 10 ∷ 0 ∷ 0 ∷ 7 ∷ [];
  action = read;
  path = bytes "live";
  query = bytes "token";
  rtsp_request = none;
  rtsp_nonce = [];
  as_json = [];
}

-- The password's hash is known.
with_password :
    authenticate libs 5 (manager internal) (request alice secret) ≡ (manager internal, ok tt)
unfolding authenticate authenticate_by authenticate_internal try_users authenticate_with_user
    matches_permission matches_path check_password check is_sha256 has_prefix is_any contains
    rtsp_auth_header refuse same is_argon2
with_password = refl

-- The first user has no such address, the second no such password.
without_password :
    authenticate libs 5 (manager internal) (request [] [])
    ≡ (manager internal, err (record { message = authentication_failed; ask_credentials = true }))
unfolding authenticate authenticate_by authenticate_internal try_users authenticate_with_user
    matches_permission matches_path check_password check is_sha256 has_prefix is_any contains
    rtsp_auth_header refuse same is_argon2
without_password = refl

unreachable :
    authenticate libs 5 (manager http) (request alice secret)
    ≡ (manager http, err (record { message = request_failed; ask_credentials = false }))
unfolding authenticate authenticate_by authenticate_http matches_permission refuse
unreachable = refl

with_token : authenticate libs 3600000000007 (manager jwt) (request [] []) ≡ (
  record (manager jwt) { jwt_key_func = some 3600000000007; jwt_last_refresh = 3600000000007 },
  ok tt,
)
unfolding authenticate authenticate_by authenticate_jwt pull_jwt_jwks check_token sole_token
    matches_permission matches_path refuse same
with_token = refl

-- Before an hour of the calendar has passed there are no keys.
without_keys :
    authenticate_jwt libs 5 (manager jwt) (request [] []) ≡ (manager jwt, err nil_key_func)
unfolding authenticate_jwt pull_jwt_jwks
without_keys = refl

-- A header that cannot be read leaves the request as it is.
unreadable_header : fill_from_rtsp_request libs [] (request alice secret) ≡ request alice secret
unfolding fill_from_rtsp_request
unreadable_header = refl

manager_has_keys : HasKeysOfLastRefresh libs (manager jwt)
manager_has_keys = ((λ keys h. cc), λ h. refl)

authenticate_iff_example :
    ((authenticate libs 5 (manager internal) (request alice secret)).0 ≡ manager internal)
    × (((authenticate libs 5 (manager internal) (request alice secret)).1 ≡ ok tt)
        ↔ Some (Allows libs (manager internal) (request alice secret)) users)
    × AsksRightly libs
        (request alice secret)
        (authenticate libs 5 (manager internal) (request alice secret)).1
authenticate_iff_example = authenticate_iff libs 5 (manager internal) (request alice secret) refl

authenticate_jwt_sound_example :
    HasKeysOfLastRefresh libs
      ((authenticate_jwt libs 3600000000007 (manager jwt) (request [] [])).0)
    × IsAnswered libs 3600000000007
        (manager jwt)
        (request [] [])
        (authenticate_jwt libs 3600000000007 (manager jwt) (request [] [])).1
authenticate_jwt_sound_example =
    authenticate_jwt_sound libs 3600000000007 (manager jwt) (request [] []) manager_has_keys
      (omega arith)
