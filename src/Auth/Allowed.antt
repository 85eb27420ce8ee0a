-- ===== src/Auth/Allowed.antt =====
-- Who mediamtx/internal/auth is meant to let in, said without the order in which the code looks.
pub mod Credentials
pub mod Permissions
pub mod Passwords
pub mod Users
use go_live_vod.Prelude.{ℕ, List, Some, [], false, some, true, ◌++◌, ◌∷◌, ◌≡◌, ◌⊎◌}
use go_live_vod.Auth.{InternalUser, Authorization, Permission, Libraries}
use go_live_vod.Auth.Manager.{has_path, Request, Manager}
use go_live_vod.Auth.Credential.{is_hashed}
use go_live_vod.Prelude.Text.{bytes, has_prefix}

module _ (libs : Libraries) where
  -- A credential is the hash of the guess, the guess itself, or empty.
  abbrev pub Accepts : List ℕ → List ℕ → Type 0
  Accepts d guess =
      ((hash : List ℕ) × (d ≡ bytes "sha256:" ++ hash) × (hash ≡ libs.sha256_base64 guess))
      ⊎ ((hash : List ℕ) × (d ≡ bytes "argon2:" ++ hash)
          × (libs.argon2_verify guess hash ≡ some true))
      ⊎ ((is_hashed d ≡ false) × (d ≡ [] ⊎ d ≡ guess))

  -- A path is any, one of a pattern, or itself.
  abbrev pub Covers : List ℕ → List ℕ → Type 0
  Covers pattern path =
      (pattern ≡ [])
      ⊎ ((s : List ℕ) × (pattern ≡ b'~' ∷ s) × (libs.regexp s path ≡ some true))
      ⊎ ((has_prefix pattern (b'~' ∷ []) ≡ false) × (pattern ≡ path))

  -- A permission of the action, for the path if the action has one.
  abbrev pub Permits : Request libs → Permission → Type 0
  Permits req perm =
      (perm.action ≡ req.action) × ((has_path req.action ≡ false) ⊎ Covers perm.path req.path)

  -- The request is an RTSP request with digest authentication.
  abbrev pub UsesDigest : Request libs → libs.RtspRequest → Type 0
  UsesDigest req rtsp =
      (req.rtsp_request ≡ some rtsp)
      × (h : Authorization) × (libs.authorization rtsp ≡ some h)
      × (h.is_digest ≡ true)

  -- Of digest authentication the digest is checked, of any other the password.
  abbrev pub KnowsPassword : Manager libs → Request libs → InternalUser → Type 0
  KnowsPassword m req u =
      ((rtsp : libs.RtspRequest) × UsesDigest req rtsp
        × (libs.validate rtsp u.user u.pass m.rtsp_auth_methods req.rtsp_nonce ≡ true))
      ⊎ (((rtsp : libs.RtspRequest) → ¬ (UsesDigest req rtsp)) × Accepts u.pass req.pass)

  abbrev pub Allows : Manager libs → Request libs → InternalUser → Type 0
  Allows m req u =
      ((u.user ≡ bytes "any") ⊎ (Accepts u.user req.user × KnowsPassword m req u))
      × ((u.ips ≡ []) ⊎ Some (λ n. libs.network_contains n req.ip ≡ true) u.ips)
      × Some (Permits req) u.permissions
