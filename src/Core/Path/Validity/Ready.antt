-- ===== src/Core/Path/Validity/Ready.antt =====
-- mediamtx/internal/core/path.go: a path stays valid where its stream becomes ready and the requests
-- on hold are served.
use go_live_vod.Prelude.{
  ℕ, ◌≡◌, List, Option, [], ap, arith, false, none, refl, some, true, ◌∙◌, ◌∷◌, Bool-cases, inl,
  inr, subst, sym,
}
use go_live_vod.Prelude.Result.{Result, ok, err, ◌>>=◌}
use go_live_vod.Core.LiveStream.{new_live_stream, LiveStream}
use go_live_vod.Core.Path.{
  PathState, Event, Outcome, Panic, Reason, answer, is_publisher, static, to_stream, emit, failed,
  not_assigned,
}
use go_live_vod.Core.Path.Operations.{
  add_reader_post, add_readers, answer_all, become_ready, consume_on_hold_requests, keep_open,
  reader_added, set_ready, is_nil,
}
use go_live_vod.Core.Path.Handlers.{
  serve, settle_publisher, settle_static_source, do_start_publisher, do_static_set_ready, is_author,
}
use go_live_vod.Core.Path.Validity.{IsValid, IsAdmissible, Keeps}
use go_live_vod.Core.Path.Loop.{start_publisher, static_set_ready}

-- The path with nothing on hold.
abbrev clear : PathState → PathState
clear s = record s { describe_requests_on_hold = []; reader_add_requests_on_hold = [] }

abbrev forget : PathState → PathState
forget s = record s { reader_add_requests_on_hold = [] }

forget-add_reader_post :
    (q a : ℕ) (s : PathState) → forget (add_reader_post q a s) ≡ add_reader_post q a (forget s)
unfolding add_reader_post reader_added
forget-add_reader_post q a s = ground arith

forget-add_readers :
    (qs : List (ℕ × ℕ)) (s : PathState) → forget (add_readers qs s) ≡ add_readers qs (forget s)
unfolding add_readers
forget-add_readers [] s = refl
forget-add_readers ((q, a) ∷ qs) s =
    forget-add_readers qs (add_reader_post q a s)
    ∙ ap (add_readers qs) (forget-add_reader_post q a s)

IsValid-add_reader_post :
    (q a : ℕ) (s : PathState)
    → IsValid s
    → is_nil s.stream ≡ false
    → IsValid (add_reader_post q a s) × (is_nil (add_reader_post q a s).stream ≡ false)
unfolding add_reader_post reader_added keep_open
IsValid-add_reader_post q a s v h = ground arith

IsValid-add_readers :
    (qs : List (ℕ × ℕ)) (s : PathState)
    → IsValid s
    → is_nil s.stream ≡ false
    → IsValid (add_readers qs s)
unfolding add_readers
IsValid-add_readers [] s v h = v
IsValid-add_readers ((q, a) ∷ qs) s v h =
    let (v1, h1) = IsValid-add_reader_post q a s v h in
    IsValid-add_readers qs (add_reader_post q a s) v1 h1

IsValid-events : (s : PathState) (es : List Event) → IsValid s → IsValid (record s { events = es })
IsValid-events s es v = ground arith

IsValid-serve :
    (q : ℕ) (s : PathState) → IsValid (clear s) → is_nil s.stream ≡ false → IsValid (serve q s)
unfolding consume_on_hold_requests
IsValid-serve q s v h =
    let served = answer_all (to_stream s.stream) s.describe_requests_on_hold s.events in
    let s1 : PathState = record s { events = served; describe_requests_on_hold = [] } in
    let s2 = forget (add_readers s.reader_add_requests_on_hold s1) in
    IsValid-events s2 (answer q (to_stream s2.stream) ∷ s2.events) (
      rw (forget-add_readers s.reader_add_requests_on_hold s1) (
        IsValid-add_readers s.reader_add_requests_on_hold (forget s1)
          (IsValid-events (clear s) served v) h))

-- `s` with the stream and all else that `setReady` writes taken from `s1`.
abbrev streamed : PathState → PathState → PathState
streamed s s1 = record s {
  stream = s1.stream;
  recorder = s1.recorder;
  on_not_ready_hook = true;
  live_stream = s1.live_stream;
  events = s1.events;
}

-- `setReady` where there is no stream: with an error the path has none either, and otherwise it has
-- one. Of the rest, only what is named here changes.
abbrev Yields : PathState → Result Panic (PathState × Option Reason) → Type 0
Yields s (ok (s1, some why)) = s1 ≡ record s { live_stream = s1.live_stream; events = s1.events }
Yields s (ok (s1, none)) = (s1 ≡ streamed s s1) × (is_nil s1.stream ≡ false)
Yields s (err p) = ⊥

Yields-set_ready :
    (out : Outcome) (s : PathState)
    → is_nil s.source ≡ false
    → is_nil s.stream ≡ true
    → is_nil (new_live_stream s.name) ≡ false
    → Yields s (set_ready out s)
unfolding set_ready become_ready
Yields-set_ready out s a h n = ground arith

IsValid-failed :
    (s : PathState) (ls : Option LiveStream) (es : List Event)
    → IsValid s
    → IsValid (record s { live_stream = ls; events = es })
IsValid-failed s ls es v = ground arith

IsValid-static_streamed :
    (s s1 : PathState)
    → IsValid s
    → s.conf.source ≡ static
    → is_nil s.stream ≡ true
    → is_nil s1.stream ≡ false
    → IsValid (clear (settle_static_source (streamed s s1)))
IsValid-static_streamed s s1 v e h n = ground arith

IsValid-publisher_streamed :
    (s s1 : PathState)
    → IsValid s
    → is_publisher s.conf.source ≡ true
    → is_nil s.source ≡ false
    → is_nil s.stream ≡ true
    → is_nil s1.stream ≡ false
    → IsValid (clear (settle_publisher (streamed s s1)))
IsValid-publisher_streamed s s1 v e a h n = ground arith

-- What follows `setReady` keeps the path valid if it does where a stream is there.
Keeps-ready :
    (q : ℕ) (s : PathState) (settle : PathState → PathState)
    (m : Result Panic (PathState × Option Reason))
    → IsValid s
    → Yields s m
    → ((s1 : PathState)
        → is_nil s1.stream ≡ false
        → IsValid (clear (settle (streamed s s1)))
          × (is_nil (settle (streamed s s1)).stream ≡ false))
    → Keeps (
        m >>= λ (s1, problem).
        ok (elim problem [
          | some why ↦ emit (answer q (failed why)) s1
          | none ↦ serve q (settle s1)
        ]))
Keeps-ready q s settle (ok (s1, some why)) v y k =
    subst (λ t. IsValid (emit (answer q (failed why)) t)) (sym y)
      (IsValid-failed s s1.live_stream (answer q (failed why) ∷ s1.events) v)
Keeps-ready q s settle (ok (s1, none)) v y k =
    subst (λ t. IsValid (serve q (settle t))) (sym y.0)
      (IsValid-serve q (settle (streamed s s1)) (k s1 y.1).0 (k s1 y.1).1)
Keeps-ready q s settle (err p) v y k = absurd y

pub Keeps-static_set_ready :
    (out : Outcome) (q : ℕ) (s : PathState)
    → IsValid s
    → IsAdmissible (static_set_ready q) s
    → Keeps (do_static_set_ready out q s)
unfolding do_static_set_ready
Keeps-static_set_ready out q s v (e, h, n) =
    Keeps-ready q s settle_static_source (set_ready out s) v
      (Yields-set_ready out s (ground arith) h n)
      λ s1 k. (IsValid-static_streamed s s1 v e h k, ground arith)

pub Keeps-start_publisher :
    (out : Outcome) (q a : ℕ) (s : PathState)
    → IsValid s
    → IsAdmissible (start_publisher q a) s
    → Keeps (do_start_publisher out q a s)
unfolding do_start_publisher
Keeps-start_publisher out q a s v (h, n) = elim (Bool-cases (is_author a s.source)) [
  | inr e ↦ rw e (IsValid-failed s s.live_stream (answer q (failed not_assigned) ∷ s.events) v)
  | inl e ↦ rw e (
      Keeps-ready q s settle_publisher (set_ready out s) v
        (Yields-set_ready out s (ground arith) h n)
        λ s1 k. (IsValid-publisher_streamed s s1 v (ground arith) (ground arith) h k, ground arith))
]
