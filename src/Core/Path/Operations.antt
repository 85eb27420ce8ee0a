-- ===== src/Core/Path/Operations.antt =====
-- mediamtx/internal/core/path.go: what the handlers of a path are made of.
use go_live_vod.Prelude.{
  ℕ, Bool, true, false, not, ◌&&◌, List, [], ◌∷◌, Option, none, some, leb, ◌==◌, if◌then◌else◌,
  length,
}
use go_live_vod.Prelude.Result.{Result, ok, err, ◌>>=◌}
use go_live_vod.Core.LiveStream.{new_live_stream}
use go_live_vod.Core.Path.{
  PathState, OnDemand, initial, waiting_ready, ready, closing, OnDemandState, Outcome, emit, Event,
  answer, Answer, Reason, static_source_handler, publisher_source, source_redirect, Source, Panic,
  index_out_of_range, nil_hook, nil_source, wrong_source, path_ready, path_not_ready, reader_closed,
  source_started, source_stopped, on_demand, on_un_demand, on_ready, on_not_ready, recorder_started,
  recorder_closed, stream_closed, transcoder_started, transcoder_failed, stream_failed,
  maximum_reached, to_stream, failed, has_on_demand_static_source, has_on_demand_publisher,
}

abbrev pub is_empty {ℓ} : {A : Type ℓ} → List A → Bool
is_empty [] = true
is_empty (x ∷ xs) = false

abbrev pub is_nil {ℓ} : {A : Type ℓ} → Option A → Bool
is_nil none = true
is_nil (some x) = false

abbrev pub is_initial : OnDemandState → Bool
is_initial initial = true
is_initial waiting_ready = false
is_initial ready = false
is_initial closing = false

abbrev pub is_waiting : OnDemandState → Bool
is_waiting initial = false
is_waiting waiting_ready = true
is_waiting ready = false
is_waiting closing = false

abbrev pub is_ready : OnDemandState → Bool
is_ready initial = false
is_ready waiting_ready = false
is_ready ready = true
is_ready closing = false

abbrev pub is_closing : OnDemandState → Bool
is_closing initial = false
is_closing waiting_ready = false
is_closing ready = false
is_closing closing = true

-- A new timer in place of the ready timer.
abbrev pub start_waiting : OnDemand → OnDemand
start_waiting o = record o { ready_timer = true; state = waiting_ready }

abbrev pub schedule_close : OnDemand → OnDemand
schedule_close o = record o { close_timer = true; state = closing }

-- The ready timer is replaced by one that will not fire.
abbrev pub stop_ready_timer : OnDemand → OnDemand
stop_ready_timer o = record o { ready_timer = false }

-- The close timer is replaced only in the closing state.
unfoldable pub stop : OnDemand → OnDemand
stop o = record o {
  close_timer = if is_closing o.state then false else o.close_timer;
  state = initial;
}

-- `if state == closing { state = ready; ... }` of addReaderPost
unfoldable pub keep_open : OnDemand → OnDemand
keep_open o = if is_closing o.state then record o { state = ready; close_timer = false } else o

-- `pa.source.(*staticSourceHandler)`, whose methods the handlers call.
abbrev pub with_static_source : {A : Type 0} → Option Source → Result Panic A → Result Panic A
with_static_source none r = err wrong_source
with_static_source (some source_redirect) r = err wrong_source
with_static_source (some static_source_handler) r = r
with_static_source (some (publisher_source a)) r = err wrong_source

unfoldable pub on_demand_static_source_start : PathState → Result Panic PathState
on_demand_static_source_start s =
    with_static_source s.source
      (ok (emit source_started (record s { static_source = start_waiting s.static_source })))

abbrev pub on_demand_static_source_schedule_close : PathState → PathState
on_demand_static_source_schedule_close s = record s {
  static_source = schedule_close s.static_source;
}

unfoldable pub on_demand_static_source_stop : PathState → Result Panic PathState
on_demand_static_source_stop s =
    with_static_source s.source
      (ok (emit source_stopped (record s { static_source = stop s.static_source })))

abbrev pub on_demand_publisher_start : PathState → PathState
on_demand_publisher_start s =
    emit on_demand (record s { on_un_demand_hook = true; publisher = start_waiting s.publisher })

abbrev pub on_demand_publisher_schedule_close : PathState → PathState
on_demand_publisher_schedule_close s = record s { publisher = schedule_close s.publisher }

unfoldable pub on_demand_publisher_stop : PathState → Result Panic PathState
on_demand_publisher_stop s =
    if s.on_un_demand_hook
    then ok
        (emit on_un_demand (record s { on_un_demand_hook = false; publisher = stop s.publisher }))
    else err nil_hook

abbrev pub start_recording : PathState → PathState
start_recording s = emit recorder_started (record s { recorder = true })

-- The end of `setReady`: `pa.stream` is set, the rest follows. The hooks need the source.
unfoldable pub become_ready : ℕ → PathState → Result Panic (PathState × Option Reason)
become_ready new s =
    let s1 = record s { stream = some new } in
    let s2 = if s.conf.recording then start_recording s1 else s1 in
    elim s.source [
      | none ↦ err nil_source
      | some src ↦
          ok (emit path_ready (emit on_ready (record s2 { on_not_ready_hook = true })), none)
    ]

-- `setReady`, with the error it returns.
unfoldable pub set_ready : Outcome → PathState → Result Panic (PathState × Option Reason)
set_ready out s = elim (new_live_stream s.name) [
  | none ↦ err index_out_of_range
  | some ls ↦
      let s1 =
        emit (transcoder_started out.starts_transcoder) (record s { live_stream = some ls }) in
      if out.starts_transcoder
      then elim out.new_stream [
        | none ↦ ok (record s1 { stream = none }, some stream_failed)
        | some new ↦ become_ready new s1
      ]
      else ok (s1, some transcoder_failed)
]

-- The loop of `setNotReady`: each reader is taken out and closed.
unfoldable pub close_readers : List ℕ → List Event → List Event
close_readers [] es = es
close_readers (r ∷ rs) es = close_readers rs (reader_closed r ∷ es)

abbrev pub close_recorder : PathState → PathState
close_recorder s = if s.recorder then emit recorder_closed (record s { recorder = false }) else s

abbrev pub close_stream : PathState → PathState
close_stream s = elim s.stream [
  | none ↦ s
  | some st ↦ emit (stream_closed st) (record s { stream = none })
]

unfoldable pub set_not_ready : PathState → Result Panic PathState
set_not_ready s =
    let s1 = record s {
      events = close_readers s.readers (path_not_ready ∷ s.events);
      readers = [];
    } in
    if s.on_not_ready_hook
    then ok (close_stream (close_recorder (emit on_not_ready s1)))
    else err nil_hook

-- `if pa.stream != nil { pa.setNotReady() }`
abbrev pub end_stream : PathState → Result Panic PathState
end_stream s = elim s.stream [ none ↦ ok s | some st ↦ set_not_ready s ]

unfoldable pub execute_remove_publisher : PathState → Result Panic PathState
execute_remove_publisher s = end_stream s >>= λ s1. ok (record s1 { source = none })

unfoldable pub mem : ℕ → List ℕ → Bool
mem r [] = false
mem r (x ∷ xs) = if x == r then true else mem r xs

-- `delete(pa.readers, r)`
unfoldable pub remove : ℕ → List ℕ → List ℕ
remove r [] = []
remove r (x ∷ xs) = let rest = remove r xs in if x == r then rest else x ∷ rest

-- The on-demand part of `addReaderPost`.
unfoldable pub reader_added : PathState → PathState
reader_added s =
    if has_on_demand_static_source s.conf
    then record s { static_source = keep_open s.static_source }
    else if has_on_demand_publisher s.conf
    then record s { publisher = keep_open s.publisher }
    else s

unfoldable pub add_reader_post : ℕ → ℕ → PathState → PathState
add_reader_post req author s =
    if mem author s.readers
    then emit (answer req (to_stream s.stream)) s
    else if not (s.conf.max_readers == 0) && leb s.conf.max_readers (length s.readers)
    then emit (answer req (failed maximum_reached)) s
    else emit (answer req (to_stream s.stream))
        (reader_added (record s { readers = author ∷ s.readers }))

-- The same answer to each request of a list.
unfoldable pub answer_all : Answer → List ℕ → List Event → List Event
answer_all a [] es = es
answer_all a (req ∷ reqs) es = answer_all a reqs (answer req a ∷ es)

unfoldable pub answer_readers : Answer → List (ℕ × ℕ) → List Event → List Event
answer_readers a [] es = es
answer_readers a ((req, author) ∷ reqs) es = answer_readers a reqs (answer req a ∷ es)

unfoldable pub add_readers : List (ℕ × ℕ) → PathState → PathState
add_readers [] s = s
add_readers ((req, author) ∷ reqs) s = add_readers reqs (add_reader_post req author s)

unfoldable pub consume_on_hold_requests : PathState → PathState
consume_on_hold_requests s =
    let s1 = record s {
      events = answer_all (to_stream s.stream) s.describe_requests_on_hold s.events;
      describe_requests_on_hold = [];
    } in
    record (add_readers s.reader_add_requests_on_hold s1) { reader_add_requests_on_hold = [] }

-- Both lists of requests are answered with an error.
unfoldable pub fail_on_hold_requests : Reason → PathState → PathState
fail_on_hold_requests why s = record s {
  events =
      answer_readers (failed why) s.reader_add_requests_on_hold
        (answer_all (failed why) s.describe_requests_on_hold s.events);
  describe_requests_on_hold = [];
  reader_add_requests_on_hold = [];
}
