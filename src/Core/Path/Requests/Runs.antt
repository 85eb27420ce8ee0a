-- ===== src/Core/Path/Requests/Runs.antt =====
-- mediamtx/internal/core/path.go: the requests that a path takes between its start and its end.
use go_live_vod.Prelude.{
  ℕ, Bool-cases, List, [], arith, if◌then◌else◌, inl, inr, ◌&&◌, ◌+◌, ◌∷◌, ◌≡◌, Option, ◌∙◌, subst,
}
use go_live_vod.Prelude.Result.{Result, ok, err, ◌>>=◌, between}
use go_live_vod.Core.LiveStream.{LiveStream}
use go_live_vod.Core.Path.{
  PathState, Outcome, Panic, Conf, failed, path_closed, path_not_ready, terminated,
}
use go_live_vod.Core.Path.Operations.{set_not_ready, answer_all, end_stream}
use go_live_vod.Core.Path.Requests.{
  answers, Adds, tally, answers-answer_all, answers-answer_readers, answers-close_readers, count,
  count_readers,
}
use go_live_vod.Core.Path.Requests.Handled.{asked, Adds-handle}
use go_live_vod.Core.Path.Loop.{
  handle, should_close, close_source, checks_close, end_run, un_demand, terminate, new_path, run,
  run_inner, Message,
}

module _ (r : ℕ) where
  -- How many requests `r` are among the messages.
  unfoldable pub asked_all : List (Outcome × Message) → ℕ
  asked_all [] = 0
  asked_all ((out, msg) ∷ msgs) = asked r msg + asked_all msgs

  abbrev pub Takes : ℕ → PathState → Result Panic (PathState × List (Outcome × Message)) → Type 0
  Takes n s (ok (s', rest)) = tally r s' + asked_all rest ≡ n + tally r s
  Takes n s (err p) = Unit {0}

  Takes-from :
      (n k : ℕ) (s s1 : PathState) (m : Result Panic (PathState × List (Outcome × Message)))
      → tally r s1 ≡ k + tally r s
      → Takes n s1 m
      → Takes (k + n) s m
  Takes-from n k s s1 (ok (s', rest)) e h = omega (arith, e, h)
  Takes-from n k s s1 (err p) e h = tt

  Takes-run_inner :
      (msgs : List (Outcome × Message)) (s : PathState)
      → Takes (asked_all msgs) s (run_inner msgs s)
  unfolding run_inner asked_all
  Takes-run_inner [] s = omega arith
  Takes-run_inner ((out, msg) ∷ msgs) s =
      step (handle out msg s) (Adds-handle r out msg s) (Takes-run_inner msgs)
    where
      step :
          (m : Result Panic PathState)
          → Adds r (asked r msg) s m
          → ((s1 : PathState) → Takes (asked_all msgs) s1 (run_inner msgs s1))
          → Takes (asked r msg + asked_all msgs) s (
              m >>= λ s1.
              if checks_close msg && should_close s1 then ok (s1, msgs) else run_inner msgs s1)
      step (err p) h ih = tt
      step (ok s1) h ih = elim (Bool-cases (checks_close msg && should_close s1)) [
        | inl e ↦ rw e (omega (arith, h))
        | inr e ↦
            rw e (Takes-from (asked_all msgs) (asked r msg) s s1 (run_inner msgs s1) h (ih s1))
      ]

  answers-close_source :
      (s : PathState) → answers r (un_demand (close_source s)).events ≡ answers r s.events
  unfolding answers
  answers-close_source s = ground arith

  -- If it returns, `r` has been answered `n` times.
  abbrev pub Settles : ℕ → Result Panic PathState → Type 0
  Settles n (ok s') = answers r s'.events ≡ n
  Settles n (err p) = Unit {0}

  Settles-end_stream : (s : PathState) → Settles (answers r s.events) (end_stream s)
  unfolding set_not_ready answers
  Settles-end_stream s =
      ground (arith, answers-close_readers r s.readers (path_not_ready ∷ s.events))

  answers-terminate : (s : PathState) → answers r (terminate s).events ≡ tally r s
  unfolding answers
  answers-terminate s = omega (
    arith,
    answers-answer_readers r (failed terminated) s.reader_add_requests_on_hold
        (answer_all (failed terminated) s.describe_requests_on_hold (path_closed ∷ s.events)),
    answers-answer_all r (failed terminated) s.describe_requests_on_hold (path_closed ∷ s.events),
  )

  -- The end of a path answers all that is on hold.
  Settles-end_run : (s : PathState) → Settles (tally r s) (end_run s)
  unfolding end_run
  Settles-end_run s =
      finish (end_stream (terminate s))
        (rw (answers-terminate s) at (Settles-end_stream (terminate s)))
    where
      finish :
          (m : Result Panic PathState)
          → Settles (tally r s) m
          → Settles (tally r s) (m >>= λ s1. ok (un_demand (close_source s1)))
      finish (ok s1) h = answers-close_source s1 ∙ h
      finish (err p) h = tt

  answers-new_path :
      (conf : Conf) (name : List ℕ) (live_stream : Option LiveStream)
      → tally r (new_path conf name live_stream) ≡ 0
  unfolding new_path answers count count_readers
  answers-new_path conf name live_stream = ground arith

  -- A run of a new path that ends without a run-time error has answered each request as often as it
  -- has taken it: as it occurs in the messages, less those that the path left.
  pub answers-run :
      (conf : Conf) (name : List ℕ) (live_stream : Option LiveStream)
      (msgs rest : List (Outcome × Message)) (s : PathState)
      → run msgs (new_path conf name live_stream) ≡ ok (s, rest)
      → answers r s.events + asked_all rest ≡ asked_all msgs
  unfolding run
  answers-run conf name live_stream msgs rest s e =
      let new = new_path conf name live_stream in
      let ((s1, left), e1, took) =
        between (run_inner msgs new) (λ (s1, left). end_run s1 >>= λ s2. ok (s2, left)) e in
      let (s2, e2, ended) = between (end_run s1) (λ s2. ok (s2, left)) e1 in
      let taken : tally r s1 + asked_all left ≡ asked_all msgs + tally r new =
        subst (Takes (asked_all msgs) new) took (Takes-run_inner msgs new) in
      let settled : answers r s2.events ≡ tally r s1 =
        subst (Settles (tally r s1)) ended (Settles-end_run s1) in
      let same_path : s2 ≡ s = cc in
      let same_rest : left ≡ rest = cc in
      rw (← same_path, ← same_rest)
        (omega (arith, taken, settled, answers-new_path conf name live_stream))
