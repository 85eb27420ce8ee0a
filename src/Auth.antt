-- ===== src/Auth.antt =====
-- mediamtx/internal/auth and conf/credential.go: what is asked (request.go), the users and their
-- permissions (conf/auth_internal_users.go), and the libraries that are called.
pub mod Credential
pub mod Manager
pub mod Keys
pub mod Allowed
pub mod Tests
use go_live_vod.Prelude.{ℕ, Bool, List, Option}
use go_live_vod.Conf.Settings.{AuthAction}

-- `net.IPNet`
pub record IpNet : Type 0 where
  pub ip : List ℕ
  pub mask : List ℕ

pub record Permission : Type 0 where
  pub action : AuthAction
  pub path : List ℕ

-- `user` is a name, its hash, or the word any.
pub record InternalUser : Type 0 where
  pub user : List ℕ
  pub pass : List ℕ
  pub ips : List IpNet
  pub permissions : List Permission

-- `headers.Authorization`, as far as it is read.
pub record Authorization : Type 0 where
  pub is_basic : Bool
  pub is_digest : Bool
  pub basic_user : List ℕ
  pub basic_pass : List ℕ
  pub username : List ℕ

-- The libraries. `regexp` is Compile and MatchString, with none for what does not compile;
-- `argon2_verify` has none for an error; `authorization` is the header of an RTSP request, if it can
-- be read; `validate` is auth.Validate by user, password, methods and nonce; `post` sends a request to
-- an address, and gives the status and the body if there is an answer and if it can be read;
-- `download_keys` is what the JWKS address gives at a time; `query_jwt` is the values of the query's jwt
-- parameter; `parse_token` gives the permissions of a token that verifies.
pub record Libraries : Type 1 where
  pub RtspRequest : Type 0
  pub Methods : Type 0
  pub JwtKeys : Type 0
  pub regexp : List ℕ → List ℕ → Option Bool
  pub sha256_base64 : List ℕ → List ℕ
  pub argon2_verify : List ℕ → List ℕ → Option Bool
  pub network_contains : IpNet → List ℕ → Bool
  pub authorization : RtspRequest → Option Authorization
  pub validate : RtspRequest → List ℕ → List ℕ → Methods → List ℕ → Bool
  pub post : List ℕ → List ℕ → Option (ℕ × Option (List ℕ))
  pub download_keys : List ℕ → ℕ → Option JwtKeys
  pub query_jwt : List ℕ → Option (List (List ℕ))
  pub parse_token : JwtKeys → List ℕ → List ℕ → Option (List Permission)
