-- ===== src/Auth/Allowed/Permissions.antt =====
-- matchesPermission of mediamtx/internal/auth/manager.go.
use go_live_vod.Prelude.{
  ℕ, List, Some, [], false, true, ◌↔◌, ◌∷◌, ◌≡◌, Bool-cases, arith, inl, inr, refl, ◌==◌, ap,
}
use go_live_vod.Auth.{Permission, Libraries}
use go_live_vod.Auth.Manager.{same_action, Request, matches_permission, matches_path}
use go_live_vod.Auth.Credential.{verified}
use go_live_vod.Conf.Settings.{AuthAction, publish}
use go_live_vod.Prelude.Text.{has_prefix, same, same_iff}
use go_live_vod.Auth.Allowed.{Permits, Covers}
use go_live_vod.Auth.Allowed.Credentials.{verified_iff}

module _ (libs : Libraries) where
  pattern_iff :
      (c : ℕ) (s path : List ℕ)
      → (c == b'~') ≡ true
      → (verified (libs.regexp s path) ≡ true) ↔ Covers libs (c ∷ s) path
  unfolding has_prefix
  pattern_iff c s path tilde = (
    λ h.
        let e : c ≡ b'~' = ground arith in
        inr (inl (s, ap (λ x. x ∷ s) e, (verified_iff libs (libs.regexp s path)).0 h)),
    λ covers. elim covers [
      | inl e ↦ cc
      | inr (inl (s', e, known)) ↦
          let tail : s' ≡ s = cc in (verified_iff libs (libs.regexp s path)).1 (rw tail at known)
      | inr (inr (other, e)) ↦ ground arith
    ],
  )

  literal_iff :
      (c : ℕ) (s path : List ℕ)
      → (c == b'~') ≡ false
      → (same (c ∷ s) path ≡ true) ↔ Covers libs (c ∷ s) path
  unfolding has_prefix
  literal_iff c s path plain = (
    λ h. inr (inr (rw plain refl, (same_iff (c ∷ s) path).0 h)),
    λ covers. elim covers [
      | inl e ↦ cc
      | inr (inl (s', e, known)) ↦ ground arith
      | inr (inr (other, e)) ↦ (same_iff (c ∷ s) path).1 e
    ],
  )

  matches_path_iff :
      (pattern path : List ℕ) → (matches_path libs pattern path ≡ true) ↔ Covers libs pattern path
  unfolding matches_path
  matches_path_iff [] path = ((λ h. inl refl), (λ h. refl))
  matches_path_iff (c ∷ s) path = elim (Bool-cases (c == b'~')) [
    | inl tilde ↦ rw tilde (pattern_iff c s path tilde)
    | inr plain ↦ rw plain (literal_iff c s path plain)
  ]

  same_action_iff : (a b : AuthAction) → (same_action a b ≡ true) ↔ (a ≡ b)
  same_action_iff publish b = ground arith
  same_action_iff _ b = ground arith

  pub matches_permission_iff :
      (perms : List Permission) (req : Request libs)
      → (matches_permission libs perms req ≡ true) ↔ Some (Permits libs req) perms
  unfolding matches_permission
  matches_permission_iff [] req = ground arith
  matches_permission_iff (perm ∷ perms) req = ground (
    arith,
    same_action_iff perm.action req.action,
    matches_path_iff perm.path req.path,
    matches_permission_iff perms req,
  )
