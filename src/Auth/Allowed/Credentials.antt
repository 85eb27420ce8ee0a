-- ===== src/Auth/Allowed/Credentials.antt =====
-- Check of mediamtx/internal/conf/credential.go, and Contains of conf/ip_networks.go.
use go_live_vod.Prelude.{
  ℕ, List, Some, [], false, some, true, ◌++◌, ◌↔◌, ◌∷◌, ◌≡◌, ◌⊎◌, Bool, Bool-cases, Option, arith,
  if◌then◌else◌, inl, inr, none, refl, sym, ◌∙◌,
}
use go_live_vod.Auth.{IpNet, Libraries}
use go_live_vod.Auth.Credential.{
  is_argon2, is_sha256, is_hashed, contains, check, is_text, verified,
}
use go_live_vod.Prelude.Text.{bytes, has_prefix, has_prefix_iff, same, same_iff}
use go_live_vod.Auth.Allowed.{Accepts}

module _ (libs : Libraries) where
  check_sha256 :
      (hash guess : List ℕ)
      → check libs (bytes "sha256:" ++ hash) guess ≡ same hash (libs.sha256_base64 guess)
  unfolding check is_sha256 has_prefix
  check_sha256 hash guess = refl

  check_argon2 :
      (hash guess : List ℕ)
      → check libs (bytes "argon2:" ++ hash) guess ≡ verified (libs.argon2_verify guess hash)
  unfolding check is_sha256 is_argon2 has_prefix
  check_argon2 hash guess = refl

  check_plain :
      (d guess : List ℕ)
      → is_hashed d ≡ false
      → check libs d guess ≡ (if is_text d then same d guess else true)
  unfolding check is_hashed
  check_plain d guess plain = ground arith

  pub verified_iff : (o : Option Bool) → (verified o ≡ true) ↔ (o ≡ some true)
  verified_iff none = ground arith
  verified_iff (some b) = ground arith

  plain_iff :
      (d guess : List ℕ)
      → ((if is_text d then same d guess else true) ≡ true) ↔ (d ≡ [] ⊎ d ≡ guess)
  plain_iff [] guess = ((λ h. inl refl), (λ h. refl))
  plain_iff (c ∷ d) guess = ground (arith, same_iff (c ∷ d) guess)

  -- Which of the three kinds a credential is.
  kinds :
      (d : List ℕ)
      → ((hash : List ℕ) × (d ≡ bytes "sha256:" ++ hash))
        ⊎ ((hash : List ℕ) × (d ≡ bytes "argon2:" ++ hash))
        ⊎ (is_hashed d ≡ false)
  unfolding is_hashed is_sha256 is_argon2
  kinds d = elim (Bool-cases (has_prefix d (bytes "sha256:"))) [
    | inl sha256 ↦ inl ((has_prefix_iff d (bytes "sha256:")).0 sha256)
    | inr other ↦ elim (Bool-cases (has_prefix d (bytes "argon2:"))) [
      | inl argon2 ↦ inr (inl ((has_prefix_iff d (bytes "argon2:")).0 argon2))
      | inr plain ↦ inr (inr (rw (other, plain)))
    ]
  ]

  pub check-Accepts : (d guess : List ℕ) → check libs d guess ≡ true → Accepts libs d guess
  check-Accepts d guess h = elim (kinds d) [
    | inl (hash, e) ↦ inl (
      hash,
      e,
      (same_iff hash (libs.sha256_base64 guess)).0 (sym (check_sha256 hash guess) ∙ rw e at h),
    )
    | inr (inl (hash, e)) ↦ inr (
        inl (
          hash,
          e,
          (verified_iff (libs.argon2_verify guess hash)).0
              (sym (check_argon2 hash guess) ∙ rw e at h),
        ))
    | inr (inr plain) ↦
        inr (inr (plain, (plain_iff d guess).0 (sym (check_plain d guess plain) ∙ h)))
  ]

  pub Accepts-check : (d guess : List ℕ) → Accepts libs d guess → check libs d guess ≡ true
  Accepts-check d guess (inl (hash, e, known)) =
      rw (e, check_sha256 hash guess) ((same_iff hash (libs.sha256_base64 guess)).1 known)
  Accepts-check d guess (inr (inl (hash, e, known))) =
      rw (e, check_argon2 hash guess) ((verified_iff (libs.argon2_verify guess hash)).1 known)
  Accepts-check d guess (inr (inr (plain, known))) =
      check_plain d guess plain ∙ (plain_iff d guess).1 known

  pub contains_iff :
      (d : List IpNet) (ip : List ℕ)
      → (contains libs d ip ≡ true) ↔ Some (λ n. libs.network_contains n ip ≡ true) d
  unfolding contains
  contains_iff [] ip = ground arith
  contains_iff (n ∷ d) ip = ground (arith, contains_iff d ip)
