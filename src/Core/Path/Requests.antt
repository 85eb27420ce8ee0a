-- ===== src/Core/Path/Requests.antt =====
-- mediamtx/internal/core/path.go: every request that a path takes is answered once, or it is on hold.
pub mod Handled
pub mod Runs
use go_live_vod.Prelude.{
  ℕ, ◌+◌, ◌≡◌, refl, ap, Bool, true, false, List, [], ◌∷◌, ◌++◌, ◌∙◌, Option, none, arith, ◌==◌,
}
use go_live_vod.Prelude.Result.{Result, ok, err, ◌>>=◌}
use go_live_vod.Core.Path.{
  PathState, Outcome, Event, Answer, Reason, Panic, answer, reader_closed, failed, to_stream,
  path_not_ready,
}
use go_live_vod.Core.Path.Operations.{
  close_readers, answer_all, answer_readers, add_readers, add_reader_post, consume_on_hold_requests,
  fail_on_hold_requests, set_ready, become_ready, set_not_ready, execute_remove_publisher,
  reader_added, on_demand_static_source_start, on_demand_static_source_stop,
  on_demand_publisher_stop, end_stream,
}

-- Of the requests, the number of those that are `r`.
abbrev pub one_if : Bool → ℕ
one_if true = 1
one_if false = 0

unfoldable pub answers : ℕ → List Event → ℕ
answers r [] = 0
answers r (e ∷ es) =
    let others = answers r es in elim e [ answer q a ↦ one_if (q == r) + others | _ ↦ others ]

unfoldable pub count : ℕ → List ℕ → ℕ
count r [] = 0
count r (q ∷ qs) = one_if (q == r) + count r qs

unfoldable pub count_readers : ℕ → List (ℕ × ℕ) → ℕ
count_readers r [] = 0
count_readers r ((q, a) ∷ qs) = one_if (q == r) + count_readers r qs

-- How often `r` was answered or is on hold.
abbrev pub tally : ℕ → PathState → ℕ
tally r s =
    answers r s.events
    + (count r s.describe_requests_on_hold + count_readers r s.reader_add_requests_on_hold)

-- If the handler returns, `r` was counted `n` times more.
abbrev pub Adds : ℕ → ℕ → PathState → Result Panic PathState → Type 0
Adds r n s (ok s') = tally r s' ≡ n + tally r s
Adds r n s (err p) = Unit {0}

module _ (r : ℕ) where
  pub answers-close_readers :
      (rs : List ℕ) (es : List Event) → answers r (close_readers rs es) ≡ answers r es
  unfolding answers close_readers
  answers-close_readers [] es = refl
  answers-close_readers (x ∷ rs) es = answers-close_readers rs (reader_closed x ∷ es)

  pub answers-answer_all :
      (a : Answer) (qs : List ℕ) (es : List Event)
      → answers r (answer_all a qs es) ≡ count r qs + answers r es
  unfolding answers answer_all count
  answers-answer_all a [] es = omega arith
  answers-answer_all a (q ∷ qs) es = omega (arith, answers-answer_all a qs (answer q a ∷ es))

  pub answers-answer_readers :
      (a : Answer) (qs : List (ℕ × ℕ)) (es : List Event)
      → answers r (answer_readers a qs es) ≡ count_readers r qs + answers r es
  unfolding answers answer_readers count_readers
  answers-answer_readers a [] es = omega arith
  answers-answer_readers a ((q, b) ∷ qs) es =
      omega (arith, answers-answer_readers a qs (answer q a ∷ es))

  pub count-append : (qs : List ℕ) (q : ℕ) → count r (qs ++ (q ∷ [])) ≡ one_if (q == r) + count r qs
  unfolding count
  count-append [] q = refl
  count-append (x ∷ qs) q = omega (arith, count-append qs q)

  pub count_readers-append :
      (qs : List (ℕ × ℕ)) (q a : ℕ)
      → count_readers r (qs ++ ((q, a) ∷ [])) ≡ one_if (q == r) + count_readers r qs
  unfolding count_readers
  count_readers-append [] q a = refl
  count_readers-append (x ∷ qs) q a = omega (arith, count_readers-append qs q a)

  -- A reader's request is answered once in any case, and nothing else is.
  pub tally-add_reader_post :
      (q a : ℕ) (s : PathState) → tally r (add_reader_post q a s) ≡ one_if (q == r) + tally r s
  unfolding add_reader_post answers reader_added
  tally-add_reader_post q a s = ground arith

  on_hold-add_reader_post :
      (q a : ℕ) (s : PathState)
      → ((add_reader_post q a s).describe_requests_on_hold ≡ s.describe_requests_on_hold)
        × ((add_reader_post q a s).reader_add_requests_on_hold ≡ s.reader_add_requests_on_hold)
  unfolding add_reader_post reader_added
  on_hold-add_reader_post q a s = ground arith

  -- What neither answers nor holds a request.
  pub Adds-set_not_ready : (s : PathState) → Adds r 0 s (set_not_ready s)
  unfolding set_not_ready answers
  Adds-set_not_ready s = ground (arith, answers-close_readers s.readers (path_not_ready ∷ s.events))

  pub Adds-on_demand_static_source_stop :
      (s : PathState) → Adds r 0 s (on_demand_static_source_stop s)
  unfolding on_demand_static_source_stop answers
  Adds-on_demand_static_source_stop s = ground arith

  pub Adds-on_demand_static_source_start :
      (s : PathState) → Adds r 0 s (on_demand_static_source_start s)
  unfolding on_demand_static_source_start answers
  Adds-on_demand_static_source_start s = ground arith

  pub Adds-on_demand_publisher_stop : (s : PathState) → Adds r 0 s (on_demand_publisher_stop s)
  unfolding on_demand_publisher_stop answers
  Adds-on_demand_publisher_stop s = ground arith

  pub tally-fail_on_hold_requests :
      (why : Reason) (s : PathState) → tally r (fail_on_hold_requests why s) ≡ tally r s
  unfolding fail_on_hold_requests count count_readers
  tally-fail_on_hold_requests why s = omega (
    arith,
    answers-answer_readers (failed why) s.reader_add_requests_on_hold
        (answer_all (failed why) s.describe_requests_on_hold s.events),
    answers-answer_all (failed why) s.describe_requests_on_hold s.events,
  )

  pub tally-add_readers :
      (qs : List (ℕ × ℕ)) (s : PathState)
      → (tally r (add_readers qs s) ≡ count_readers r qs + tally r s)
        × ((add_readers qs s).describe_requests_on_hold ≡ s.describe_requests_on_hold)
        × ((add_readers qs s).reader_add_requests_on_hold ≡ s.reader_add_requests_on_hold)
  unfolding add_readers count_readers
  tally-add_readers [] s = (omega arith, refl, refl)
  tally-add_readers ((q, a) ∷ qs) s =
      let (same, described, added) = tally-add_readers qs (add_reader_post q a s) in
      let (d, e) = on_hold-add_reader_post q a s in
      (omega (arith, same, tally-add_reader_post q a s), described ∙ d, added ∙ e)

  pub tally-consume : (s : PathState) → tally r (consume_on_hold_requests s) ≡ tally r s
  unfolding consume_on_hold_requests count count_readers
  tally-consume s =
      let s1 : PathState = record s {
        events = answer_all (to_stream s.stream) s.describe_requests_on_hold s.events;
        describe_requests_on_hold = [];
      } in
      let (same, described, added) = tally-add_readers s.reader_add_requests_on_hold s1 in
      omega (
        arith,
        same,
        ap (count r) described,
        ap (count_readers r) added,
        answers-answer_all (to_stream s.stream) s.describe_requests_on_hold s.events,
      )

  -- The rule for a chain of calls.
  pub Adds-bind :
      (n k : ℕ) (s : PathState) (m : Result Panic PathState)
      (f : PathState → Result Panic PathState)
      → Adds r n s m
      → ((s1 : PathState) → tally r s1 ≡ n + tally r s → Adds r k s (f s1))
      → Adds r k s (m >>= f)
  Adds-bind n k s (ok s1) f h g = g s1 h
  Adds-bind n k s (err p) f h g = tt

  -- From a state that was counted the same.
  pub Adds-from :
      (n : ℕ) (s1 s : PathState) (m : Result Panic PathState)
      → tally r s1 ≡ tally r s
      → Adds r n s1 m
      → Adds r n s m
  Adds-from n s1 s (ok s2) e h = omega (arith, e, h)
  Adds-from n s1 s (err p) e h = tt

  abbrev pub Sets : PathState → Result Panic (PathState × Option Reason) → Type 0
  Sets s (ok (s1, why)) = tally r s1 ≡ tally r s
  Sets s (err p) = Unit {0}

  Sets-become_ready : (new : ℕ) (s : PathState) → Sets s (become_ready new s)
  unfolding become_ready answers
  Sets-become_ready new s = ground arith

  pub Sets-set_ready : (out : Outcome) (s : PathState) → Sets s (set_ready out s)
  unfolding set_ready answers become_ready
  Sets-set_ready out s = ground arith

  Adds-end_stream : (s : PathState) → Adds r 0 s (end_stream s)
  Adds-end_stream s = ground (arith, Adds-set_not_ready s)

  pub Adds-execute_remove_publisher : (s : PathState) → Adds r 0 s (execute_remove_publisher s)
  unfolding execute_remove_publisher
  Adds-execute_remove_publisher s =
      Adds-bind 0 0 s (end_stream s) (λ s1. ok (record s1 { source = none })) (Adds-end_stream s)
        λ s1 h. h
