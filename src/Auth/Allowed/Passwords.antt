-- ===== src/Auth/Allowed/Passwords.antt =====
-- The check of a password by authenticateWithUser of mediamtx/internal/auth/manager.go.
use go_live_vod.Prelude.{
  ℕ, List, some, true, ◌↔◌, ◌≡◌, ◌⊎◌, Bool-cases, inl, inr, sym, ◌∙◌, ap, Option-cases,
}
use go_live_vod.Auth.{InternalUser, Libraries}
use go_live_vod.Auth.Manager.{Request, Manager, check_password, is_any, rtsp_auth_header}
use go_live_vod.Auth.Credential.{check}
use go_live_vod.Prelude.Text.{bytes, same_iff}
use go_live_vod.Auth.Allowed.{KnowsPassword, UsesDigest}
use go_live_vod.Auth.Allowed.Credentials.{Accepts-check, check-Accepts}

module _ (libs : Libraries) where
  pub is_any_iff : (user : List ℕ) → (is_any libs user ≡ true) ↔ (user ≡ bytes "any")
  unfolding is_any
  is_any_iff user = same_iff user (bytes "any")

  -- Of the two ways to check a password one is taken.
  digest_or_not :
      (req : Request libs)
      → ((rtsp : libs.RtspRequest) × UsesDigest libs req rtsp)
        ⊎ ((rtsp : libs.RtspRequest) → ¬ (UsesDigest libs req rtsp))
  digest_or_not req = elim (Option-cases (req.rtsp_request)) [
    | inl other ↦ inr (λ rtsp (e, h, a, d). cc)
    | inr (rtsp, e) ↦ elim (Option-cases (libs.authorization rtsp)) [
      | inl unreadable ↦ inr (λ rtsp' (e', h, a, d).
          let one : rtsp' ≡ rtsp = cc in
          let again : libs.authorization rtsp ≡ some h = rw one at a in cc)
      | inr (h, a) ↦ elim (Bool-cases (h.is_digest)) [
        | inl d ↦ inl (rtsp, (e, h, a, d))
        | inr basic ↦ inr (λ rtsp' (e', h', a', d').
            let one : rtsp' ≡ rtsp = cc in
            let again : libs.authorization rtsp ≡ some h' = rw one at a' in
            let same_header : h' ≡ h = cc in cc (ap (λ x. x.is_digest) same_header))
      ]
    ]
  ]

  check_digest :
      (m : Manager libs) (req : Request libs) (u : InternalUser) (rtsp : libs.RtspRequest)
      → UsesDigest libs req rtsp
      → check_password libs m req (rtsp_auth_header libs req) u
        ≡ libs.validate rtsp u.user u.pass m.rtsp_auth_methods req.rtsp_nonce
  unfolding check_password rtsp_auth_header
  check_digest m req u rtsp (e, h, a, d) = rw (e, a, d)

  check_no_digest :
      (m : Manager libs) (req : Request libs) (u : InternalUser)
      → ((rtsp : libs.RtspRequest) → ¬ (UsesDigest libs req rtsp))
      → check_password libs m req (rtsp_auth_header libs req) u ≡ check libs u.pass req.pass
  unfolding check_password rtsp_auth_header
  check_no_digest m req u no_digest = elim (Option-cases (req.rtsp_request)) [
    | inl other ↦ rw other
    | inr (rtsp, e) ↦ elim (Option-cases (libs.authorization rtsp)) [
      | inl unreadable ↦ rw (e, unreadable)
      | inr (h, a) ↦ elim (Bool-cases (h.is_digest)) [
        | inl d ↦ absurd (no_digest rtsp (e, h, a, d))
        | inr basic ↦ rw (e, a, basic)
      ]
    ]
  ]

  pub check_password_iff :
      (m : Manager libs) (req : Request libs) (u : InternalUser)
      → (check_password libs m req (rtsp_auth_header libs req) u ≡ true)
        ↔ KnowsPassword libs m req u
  check_password_iff m req u = elim (digest_or_not req) [
    | inl (rtsp, used) ↦ (
      (λ h. inl (rtsp, used, sym (check_digest m req u rtsp used) ∙ h)),
      λ knows. elim knows [
        | inl (rtsp', used', valid) ↦ check_digest m req u rtsp' used' ∙ valid
        | inr (no_digest, accepts) ↦ absurd (no_digest rtsp used)
      ],
    )
    | inr no_digest ↦ (
      λ h. inr (
        no_digest,
        check-Accepts libs u.pass req.pass (sym (check_no_digest m req u no_digest) ∙ h),
      ),
      λ knows. elim knows [
        | inl (rtsp', used', valid) ↦ absurd (no_digest rtsp' used')
        | inr (_, accepts) ↦
            check_no_digest m req u no_digest ∙ Accepts-check libs u.pass req.pass accepts
      ],
    )
  ]
