-- ===== src/Auth/Credential.antt =====
-- mediamtx/internal/conf/credential.go, and Contains of conf/ip_networks.go.
use go_live_vod.Prelude.{
  ℕ, Bool, List, Option, [], drop, false, if◌then◌else◌, none, some, true, ◌||◌, ◌∷◌,
}
use go_live_vod.Prelude.Text.{bytes, same, has_prefix}
use go_live_vod.Auth.{IpNet, Libraries}

unfoldable pub is_sha256 : List ℕ → Bool
is_sha256 d = has_prefix d (bytes "sha256:")

unfoldable pub is_argon2 : List ℕ → Bool
is_argon2 d = has_prefix d (bytes "argon2:")

unfoldable pub is_hashed : List ℕ → Bool
is_hashed d = is_sha256 d || is_argon2 d

-- `ok && err == nil`
abbrev pub verified : Option Bool → Bool
verified none = false
verified (some b) = b

abbrev pub is_text : List ℕ → Bool
is_text [] = false
is_text (c ∷ s) = true

module _ (libs : Libraries) where
  -- Check
  unfoldable pub check : List ℕ → List ℕ → Bool
  check d guess =
      if is_sha256 d
      then same (drop 7 d) (libs.sha256_base64 guess)
      else if is_argon2 d
      then verified (libs.argon2_verify guess (drop 7 d))
      else if is_text d
      then same d guess
      else true

  -- IPNetworks.Contains
  unfoldable pub contains : List IpNet → List ℕ → Bool
  contains [] ip = false
  contains (network ∷ d) ip = libs.network_contains network ip || contains d ip
