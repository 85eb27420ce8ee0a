-- ===== src/Auth/Allowed/Users.antt =====
-- authenticateWithUser, authenticateInternal and Authenticate of mediamtx/internal/auth/manager.go.
use go_live_vod.Prelude.{
  ℕ, List, Some, [], false, true, ◌↔◌, ◌∷◌, ◌≡◌, ◌⊎◌, Bool, arith, if◌then◌else◌, inl, inr, refl,
  sym, ap, not, ◌&&◌, subst,
}
use go_live_vod.Auth.{InternalUser, IpNet, Libraries}
use go_live_vod.Auth.Manager.{
  Request, matches_permission, Manager, authenticate_with_user, check_password, is_any,
  rtsp_auth_header, invalid_credentials, ip_not_allowed, is_some_network, no_permission, wrong_user,
  AuthError, Refusal, authenticate, authenticate_by, authenticate_internal, try_users, attempt,
  refuse,
}
use go_live_vod.Auth.Credential.{contains, check, is_text}
use go_live_vod.Conf.Settings.{internal, AuthMethod, http, jwt}
use go_live_vod.Prelude.Result.{ok, err, Result}
use go_live_vod.Prelude.Iff.{iff_trans, iff_and, iff_or, iff_and3}
use go_live_vod.Auth.Allowed.{Accepts, Allows}
use go_live_vod.Auth.Allowed.Credentials.{contains_iff, Accepts-check, check-Accepts}
use go_live_vod.Auth.Allowed.Passwords.{check_password_iff, is_any_iff}
use go_live_vod.Auth.Allowed.Permissions.{matches_permission_iff}

module _ (libs : Libraries) where
  -- The checks in the order of the code.
  abbrev checked :
      (any user some_ips inside permitted password : Bool) → Result AuthError (Unit {0})
  checked any user some_ips inside permitted password =
      if not any && not user
      then err wrong_user
      else if some_ips && not inside
      then err ip_not_allowed
      else if not permitted
      then err no_permission
      else if not any && not password
      then err invalid_credentials
      else ok tt

  -- The order does not matter for who passes them.
  passes :
      (any user some_ips inside permitted password : Bool)
      → (checked any user some_ips inside permitted password ≡ ok tt) ↔ (
          (any ≡ true ⊎ (user ≡ true × password ≡ true))
          × (some_ips ≡ false ⊎ inside ≡ true)
          × permitted ≡ true)
  passes any user some_ips inside permitted password = ground arith

  no_network_iff : (d : List IpNet) → (is_some_network libs d ≡ false) ↔ (d ≡ [])
  no_network_iff [] = ground arith
  no_network_iff (n ∷ d) = ground arith

  authenticate_with_user_iff :
      (m : Manager libs) (req : Request libs) (u : InternalUser)
      → (authenticate_with_user libs m req (rtsp_auth_header libs req) u ≡ ok tt)
        ↔ Allows libs m req u
  unfolding authenticate_with_user
  authenticate_with_user_iff m req u =
      let user : (check libs u.user req.user ≡ true) ↔ Accepts libs u.user req.user =
        (check-Accepts libs u.user req.user, Accepts-check libs u.user req.user) in
      let known =
        iff_or (is_any_iff libs u.user) (iff_and user (check_password_iff libs m req u)) in
      let inside = iff_or (no_network_iff u.ips) (contains_iff libs u.ips req.ip) in
      let permitted = matches_permission_iff libs u.permissions req in
      iff_trans
        (passes (is_any libs u.user) (check libs u.user req.user) (is_some_network libs u.ips)
          (contains libs u.ips req.ip) (matches_permission libs u.permissions req)
          (check_password libs m req (rtsp_auth_header libs req) u))
        (iff_and3 known inside permitted)

  first_or_rest :
      (first rest : Result AuthError (Unit {0}))
      → (attempt libs first rest ≡ ok tt) ↔ (first ≡ ok tt ⊎ rest ≡ ok tt)
  first_or_rest (ok t) rest = ((λ h. inl refl), (λ h. refl))
  first_or_rest (err e) rest = ((λ h. inr h), (λ h. elim h [ inl first ↦ cc | inr r ↦ r ]))

  try_users_iff :
      (m : Manager libs) (req : Request libs) (us : List InternalUser)
      → (try_users libs m req (rtsp_auth_header libs req) us ≡ ok tt) ↔ Some (Allows libs m req) us
  unfolding try_users
  try_users_iff m req [] = ((λ h. cc), (λ h. absurd h))
  try_users_iff m req (u ∷ us) =
      iff_trans
        (first_or_rest (authenticate_with_user libs m req (rtsp_auth_header libs req) u)
          (try_users libs m req (rtsp_auth_header libs req) us))
        (iff_or (authenticate_with_user_iff m req u) (try_users_iff m req us))

  by_internal :
      (method : AuthMethod) (now : ℕ) (m : Manager libs) (req : Request libs)
      → method ≡ internal
      → authenticate_by libs method now m req ≡ (m, authenticate_internal libs m req)
  unfolding authenticate_by
  by_internal internal now m req e = refl
  by_internal http now m req e = cc
  by_internal jwt now m req e = cc

  refuse_iff :
      (req : Request libs) (r : Result AuthError (Unit {0}))
      → (refuse libs req r ≡ ok tt) ↔ (r ≡ ok tt)
  unfolding refuse
  refuse_iff req (ok t) = ((λ h. refl), (λ h. refl))
  refuse_iff req (err e) = ((λ h. cc), (λ h. cc))

  is_text_iff : (s : List ℕ) → (is_text s ≡ false) ↔ (s ≡ [])
  is_text_iff [] = ground arith
  is_text_iff (c ∷ s) = ground arith

  both_empty :
      (user pass : List ℕ)
      → ((not (is_text user) && not (is_text pass)) ≡ true) ↔ (user ≡ [] × pass ≡ [])
  both_empty user pass = ground (arith, is_text_iff user, is_text_iff pass)

  -- A refusal asks for credentials just where none were given.
  abbrev pub AsksRightly : Request libs → Result Refusal (Unit {0}) → Type 0
  AsksRightly req (ok t) = Unit {0}
  AsksRightly req (err e) = (e.ask_credentials ≡ true) ↔ (req.user ≡ [] × req.pass ≡ [])

  refuse-AsksRightly :
      (req : Request libs) (r : Result AuthError (Unit {0})) → AsksRightly req (refuse libs req r)
  unfolding refuse
  refuse-AsksRightly req (ok t) = tt
  refuse-AsksRightly req (err e) = both_empty req.user req.pass

  -- With the internal users, a request is authenticated just where some user allows it; the manager
  -- stays as it is, and a refusal asks for credentials just where none were given.
  pub authenticate_iff :
      (now : ℕ) (m : Manager libs) (req : Request libs)
      → m.method ≡ internal
      → ((authenticate libs now m req).0 ≡ m)
        × (((authenticate libs now m req).1 ≡ ok tt) ↔ Some (Allows libs m req) m.internal_users)
        × AsksRightly req (authenticate libs now m req).1
  unfolding authenticate authenticate_internal
  authenticate_iff now m req method =
      let by = by_internal m.method now m req method in
      let result = authenticate_internal libs m req in
      (
        ap (λ a. a.0) by,
        rw by (iff_trans (refuse_iff req result) (try_users_iff m req m.internal_users)),
        subst (λ a. AsksRightly req (refuse libs req a.1)) (sym by) (refuse-AsksRightly req result),
      )
