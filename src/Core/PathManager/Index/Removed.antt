-- ===== src/Core/PathManager/Index/Removed.antt =====
-- removePath of mediamtx/internal/core/path_manager.go.
use go_live_vod.Prelude.{
  ℕ, List, [], inl, inr, some, subst, sym, ◌↔◌, ◌∙◌, ◌∷◌, ◌≡◌, ◌≢◌, Bool-cases, ap, arith, false,
  ◌==◌,
}
use go_live_vod.Core.PathManager.{keep_set, members, drop_path, Managed}
use go_live_vod.Prelude.Maps.{
  key_cases, lookup-insert_other, lookup-insert, lookup-delete_other, lookup-delete, delete, lookup,
}
use go_live_vod.Core.PathManager.Index.{one_path, added, NoTwice, IsIndexed, deleted, In}

members-keep_set :
    (by_conf : List (List ℕ × List Managed)) (c : List ℕ) (set : List Managed)
    → members (keep_set by_conf c set) c ≡ set
unfolding members
members-keep_set by_conf c [] = rw (lookup-delete by_conf c)
members-keep_set by_conf c (p ∷ set) = rw (lookup-insert by_conf c (p ∷ set))

members-keep_set_other :
    (by_conf : List (List ℕ × List Managed)) (c c' : List ℕ) (set : List Managed)
    → c ≢ c'
    → members (keep_set by_conf c set) c' ≡ members by_conf c'
unfolding members
members-keep_set_other by_conf c c' [] apart = rw (lookup-delete_other by_conf c c' apart)
members-keep_set_other by_conf c c' (p ∷ set) apart =
    rw (lookup-insert_other by_conf c c' (p ∷ set) apart)

keep_set_filled :
    (by_conf : List (List ℕ × List Managed)) (c : List ℕ) (set : List Managed)
    → ((c' : List ℕ) → lookup by_conf c' ≢ some [])
    → (c' : List ℕ) → lookup (keep_set by_conf c set) c' ≢ some []
keep_set_filled by_conf c [] filled c' h = filled c' (deleted by_conf c c' [] h).1
keep_set_filled by_conf c (p ∷ set) filled c' h = elim (added by_conf c c' (p ∷ set) [] h) [
  | inl (e, empty) ↦ cc
  | inr (apart, old) ↦ filled c' old
]

ids_apart : (a b c : ℕ) → (a == c) ≡ false → a ≡ b → ¬ (b ≡ c)
ids_apart a b c e h h' = ground arith

drop_path_iff :
    (set : List Managed) (pa p : Managed) → In p (drop_path set pa) ↔ (In p set × (p.id ≢ pa.id))
unfolding drop_path
drop_path_iff [] pa p = ((λ h. absurd h), (λ (h, e). h))
drop_path_iff (q ∷ set) pa p = elim (Bool-cases (q.id == pa.id)) [
  | inl e ↦ rw e (
    (λ h. let (old, apart) = (drop_path_iff set pa p).0 h in (inr old, apart)),
    λ (h, apart). elim h [
      | inl here ↦ let same_id : q.id ≡ p.id = ap (λ x. x.id) here in absurd (apart (ground arith))
      | inr old ↦ (drop_path_iff set pa p).1 (old, apart)
    ],
  )
  | inr e ↦ rw e (
    λ h. elim h [
      | inl here ↦
          let same_id : q.id ≡ p.id = ap (λ x. x.id) here in
          (inl here, λ same. absurd (ids_apart q.id p.id pa.id e same_id same))
      | inr kept ↦ let (old, apart) = (drop_path_iff set pa p).0 kept in (inr old, apart)
    ],
    λ (h, apart). elim h [
      | inl here ↦ inl here
      | inr old ↦ inr ((drop_path_iff set pa p).1 (old, apart))
    ],
  )
]

drop_path-NoTwice : (set : List Managed) (pa : Managed) → NoTwice set → NoTwice (drop_path set pa)
unfolding drop_path
drop_path-NoTwice [] pa once = tt
drop_path-NoTwice (p ∷ set) pa (apart, once) = elim (Bool-cases (p.id == pa.id)) [
  | inl e ↦ rw e (drop_path-NoTwice set pa once)
  | inr e ↦ rw e (λ q h. apart q ((drop_path_iff set pa q).0 h).0, drop_path-NoTwice set pa once)
]

removed_iff :
    (paths : List (List ℕ × Managed)) (by_conf : List (List ℕ × List Managed)) (pa : Managed)
    → lookup paths pa.name ≡ some pa
    → ((n n' : List ℕ) (p p' : Managed)
        → lookup paths n ≡ some p
        → lookup paths n' ≡ some p'
        → p.id ≡ p'.id
        → n ≡ n')
    → ((c : List ℕ) (p : Managed)
        → In p (members by_conf c) ↔ (lookup paths p.name ≡ some p × p.conf_name ≡ c))
    → (c : List ℕ) (p : Managed)
    → In p (members (keep_set by_conf pa.conf_name (drop_path (members by_conf pa.conf_name) pa)) c)
      ↔ (lookup (delete paths pa.name) p.name ≡ some p × p.conf_name ≡ c)
removed_iff paths by_conf pa there ids index c p =
    let set = members by_conf pa.conf_name in
    elim (key_cases pa.conf_name c) [
      | inl e ↦
          subst
            (λ x.
              In p (members (keep_set by_conf pa.conf_name (drop_path set pa)) x)
              ↔ (lookup (delete paths pa.name) p.name ≡ some p × p.conf_name ≡ x))
            e
            (rw (members-keep_set by_conf pa.conf_name (drop_path set pa)) (
              λ h.
                  let (old, other_id) = (drop_path_iff set pa p).0 h in
                  let (there', conf) = (index pa.conf_name p).0 old in
                  let apart : pa.name ≢ p.name = λ name.
                    other_id (
                      ap (λ x. x.id)
                        (one_path paths pa.name p.name p pa there' there (sym name))) in
                  (lookup-delete_other paths pa.name p.name apart ∙ there', conf),
              λ (there', conf).
                  let (other, old) = deleted paths pa.name p.name p there' in
                  (drop_path_iff set pa p).1 (
                    (index pa.conf_name p).1 (old, conf),
                    λ same_id. other (ids pa.name p.name pa p there old (sym same_id)),
                  ),
            ))
      | inr apart ↦ rw (members-keep_set_other by_conf pa.conf_name c (drop_path set pa) apart) (
        λ h.
            let (there', conf) = (index c p).0 h in
            let other : pa.name ≢ p.name = λ name. apart (
              ap (λ x. x.conf_name) (one_path paths p.name pa.name pa p there there' name)
              ∙ conf) in
            (lookup-delete_other paths pa.name p.name other ∙ there', conf),
        λ (there', conf). (index c p).1 ((deleted paths pa.name p.name p there').1, conf),
      )
    ]

pub remove_path-IsIndexed :
    (paths : List (List ℕ × Managed)) (by_conf : List (List ℕ × List Managed)) (next_id : ℕ)
    (pa : Managed)
    → lookup paths pa.name ≡ some pa
    → IsIndexed paths by_conf next_id
    → IsIndexed
        (delete paths pa.name)
        (keep_set by_conf pa.conf_name (drop_path (members by_conf pa.conf_name) pa))
        next_id
remove_path-IsIndexed paths by_conf next_id pa there (names, ids, index, filled, once) = (
  λ n p h. names n p (deleted paths pa.name n p h).1,
  λ n n' p p' h h'.
      ids n n' p p' (deleted paths pa.name n p h).1 (deleted paths pa.name n' p' h').1,
  λ c p. removed_iff paths by_conf pa there ids index c p,
  keep_set_filled by_conf pa.conf_name (drop_path (members by_conf pa.conf_name) pa) filled,
  λ c. elim (key_cases pa.conf_name c) [
    | inl e ↦
        subst
          (λ x. NoTwice (
            members (keep_set by_conf pa.conf_name (drop_path (members by_conf pa.conf_name) pa))
              x))
          e
          (rw (members-keep_set by_conf pa.conf_name (drop_path (members by_conf pa.conf_name) pa))
            (drop_path-NoTwice (members by_conf pa.conf_name) pa (once pa.conf_name)))
    | inr apart ↦
        rw
          (members-keep_set_other by_conf pa.conf_name c
            (drop_path (members by_conf pa.conf_name) pa) apart)
          (once c)
  ],
)
