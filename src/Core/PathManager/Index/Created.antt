-- ===== src/Core/PathManager/Index/Created.antt =====
-- createPath of mediamtx/internal/core/path_manager.go.
use go_live_vod.Prelude.{
  ℕ, List, [], inl, inr, none, some, subst, suc, sym, ◌<◌, ◌↔◌, ◌∙◌, ◌∷◌, ◌≡◌, ◌≢◌, ap, arith, refl,
}
use go_live_vod.Core.PathManager.{members, Managed}
use go_live_vod.Prelude.Maps.{key_cases, lookup-insert_other, lookup-insert, insert, lookup}
use go_live_vod.Core.PathManager.Index.{
  members-insert_other, NoTwice, taken, members-insert, added, IsIndexed, In,
}

fresh : (old i new next : ℕ) → old < next → i ≡ new → new ≡ next → ¬ (i ≡ old)
fresh old i new next below e e' h = omega (arith, below, e, e', h)

created_iff :
    (paths : List (List ℕ × Managed)) (by_conf : List (List ℕ × List Managed)) (pa : Managed)
    → lookup paths pa.name ≡ none
    → ((c : List ℕ) (p : Managed)
        → In p (members by_conf c) ↔ (lookup paths p.name ≡ some p × p.conf_name ≡ c))
    → (c : List ℕ) (p : Managed)
    → In p (members (insert by_conf pa.conf_name (pa ∷ members by_conf pa.conf_name)) c)
      ↔ (lookup (insert paths pa.name pa) p.name ≡ some p × p.conf_name ≡ c)
created_iff paths by_conf pa free index c p = elim (key_cases pa.conf_name c) [
  | inl e ↦
      subst
        (λ x.
          In p (members (insert by_conf pa.conf_name (pa ∷ members by_conf pa.conf_name)) x)
          ↔ (lookup (insert paths pa.name pa) p.name ≡ some p × p.conf_name ≡ x))
        e
        (rw (members-insert by_conf pa.conf_name (pa ∷ members by_conf pa.conf_name)) (
          λ h. elim h [
            | inl here ↦ (
              subst (λ x. lookup (insert paths pa.name pa) x.name ≡ some x) here
                  (lookup-insert paths pa.name pa),
              ap (λ x. x.conf_name) (sym here),
            )
            | inr old ↦
                let (there, conf) = (index pa.conf_name p).0 old in
                let apart : pa.name ≢ p.name =
                  λ name. absurd (taken paths pa.name p.name p free there name) in
                (lookup-insert_other paths pa.name p.name pa apart ∙ there, conf)
          ],
          λ (there, conf). elim (added paths pa.name p.name pa p there) [
            | inl (name, here) ↦ inl (sym here)
            | inr (other, old) ↦ inr ((index pa.conf_name p).1 (old, conf))
          ],
        ))
  | inr apart ↦
      rw (members-insert_other by_conf pa.conf_name c (pa ∷ members by_conf pa.conf_name) apart) (
        λ h.
            let (there, conf) = (index c p).0 h in
            let apart' : pa.name ≢ p.name =
              λ e. absurd (taken paths pa.name p.name p free there e) in
            (lookup-insert_other paths pa.name p.name pa apart' ∙ there, conf),
        λ (there, conf). elim (added paths pa.name p.name pa p there) [
          | inl (name, e) ↦ absurd (apart (sym (ap (λ x. x.conf_name) e) ∙ conf))
          | inr (other, old) ↦ (index c p).1 (old, conf)
        ],
      )
]

-- A path is created where there was none of its name.
pub create_path-IsIndexed :
    (paths : List (List ℕ × Managed)) (by_conf : List (List ℕ × List Managed)) (next_id : ℕ)
    (pa : Managed)
    → pa.id ≡ next_id
    → lookup paths pa.name ≡ none
    → IsIndexed paths by_conf next_id
    → IsIndexed
        (insert paths pa.name pa)
        (insert by_conf pa.conf_name (pa ∷ members by_conf pa.conf_name))
        (suc next_id)
create_path-IsIndexed paths by_conf next_id pa new free (names, ids, index, filled, once) = (
  λ n p h. elim (added paths pa.name n pa p h) [
    | inl (name, e) ↦
        let same_name : p.name ≡ pa.name = ap (λ x. x.name) e in
        let same_id : p.id ≡ pa.id = ap (λ x. x.id) e in
        (same_name ∙ sym name, omega (arith, same_id, new))
    | inr (apart, old) ↦ let (name, below) = names n p old in (name, omega (arith, below))
  ],
  λ n n' p p' h h' same_id. elim (added paths pa.name n pa p h) [
    | inl (name, e) ↦ elim (added paths pa.name n' pa p' h') [
      | inl (name', e') ↦ name ∙ sym name'
      | inr (apart, old) ↦
          let below = (names n' p' old).1 in
          let id : p.id ≡ pa.id = ap (λ x. x.id) e in
          absurd (fresh p'.id p.id pa.id next_id below id new same_id)
    ]
    | inr (apart, old) ↦ elim (added paths pa.name n' pa p' h') [
      | inl (name', e') ↦
          let below = (names n p old).1 in
          let id : p'.id ≡ pa.id = ap (λ x. x.id) e' in
          absurd (fresh p.id p'.id pa.id next_id below id new (sym same_id))
      | inr (apart', old') ↦ ids n n' p p' old old' same_id
    ]
  ],
  λ c p. created_iff paths by_conf pa free index c p,
  λ c h. elim (added by_conf pa.conf_name c (pa ∷ members by_conf pa.conf_name) [] h) [
    | inl (e, empty) ↦ cc
    | inr (apart, old) ↦ filled c old
  ],
  λ c. elim (key_cases pa.conf_name c) [
    | inl e ↦
        subst
          (λ x.
            NoTwice (members (insert by_conf pa.conf_name (pa ∷ members by_conf pa.conf_name)) x))
          e
          (rw (members-insert by_conf pa.conf_name (pa ∷ members by_conf pa.conf_name)) (
            λ q h.
                let there = ((index pa.conf_name q).0 h).0 in
                let below = (names q.name q there).1 in
                λ same_id. fresh q.id pa.id pa.id next_id below refl new (sym same_id),
            once pa.conf_name,
          ))
    | inr apart ↦
        rw (members-insert_other by_conf pa.conf_name c (pa ∷ members by_conf pa.conf_name) apart)
          (once c)
  ],
)
