-- ===== src/Core/Path/Faults.antt =====
-- mediamtx/internal/core/path.go: messages at which a path panics, and requests that it leaves on hold.
use go_live_vod.Prelude.{ℕ, ◌≡◌, Bool, List, [], arith, false, none, some, true, ◌||◌, ◌∷◌}
use go_live_vod.Prelude.Result.{ok, err}
use go_live_vod.Core.LiveStream.Names.{has_slash, new_live_stream-no_slash}
use go_live_vod.Core.Path.{
  PathState, Conf, Outcome, closing, emit, index_out_of_range, initial, is_publisher,
  nil_live_stream, on_un_demand, publisher_source, ready,
}
use go_live_vod.Core.Path.Operations.{
  set_ready, execute_remove_publisher, on_demand_publisher_stop, stop,
}
use go_live_vod.Core.Path.Handlers.{
  do_add_publisher, do_describe, do_publisher_close_timer, do_remove_publisher, do_start_publisher,
  hold_describe, on_demand_or,
}
use go_live_vod.Core.Path.Validity.{IsValid}
use go_live_vod.Core.Path.Loop.{
  add_publisher, new_path, describe, start_publisher, publisher_close_fires, run_inner, handle, run,
  remove_publisher,
}

-- On a new path for publishers whose name has no live stream yet, a publisher that is added and
-- removed before it starts makes the path panic: `StopPublishToTranscoder` reads a nil live stream.
pub leaving_early :
    (conf : Conf) (name : List ℕ) (first second : Outcome) (q1 q2 a : ℕ)
    → is_publisher conf.source ≡ true
    → run
        ((first, add_publisher q1 a) ∷ (second, remove_publisher q2 a) ∷ [])
        (new_path conf name none)
      ≡ err nil_live_stream
unfolding run run_inner handle new_path do_add_publisher do_remove_publisher
    execute_remove_publisher
leaving_early conf name first second q1 q2 a h = ground arith

-- A publisher that starts on a path whose name has no slash makes the path panic: `NewLiveStream`
-- takes the second part of the name.
pub starting_without_slash :
    (out : Outcome) (q a : ℕ) (s : PathState)
    → s.source ≡ some (publisher_source a)
    → has_slash s.name ≡ false
    → handle out (start_publisher q a) s ≡ err index_out_of_range
unfolding handle do_start_publisher set_ready
starting_without_slash out q a s e h = ground (arith, new_live_stream-no_slash s.name h)

-- A timer of the path runs.
abbrev pub is_armed : PathState → Bool
is_armed s =
    (s.static_source.ready_timer || s.static_source.close_timer)
    || (s.publisher.ready_timer || s.publisher.close_timer)

-- On a valid path whose publisher was started on demand and has left, so that there is no stream
-- while the on-demand state is ready, a describe request is put on hold and no timer runs.
pub stranded_when_ready :
    (out : Outcome) (q : ℕ) (s : PathState)
    → IsValid s
    → s.conf.run_on_demand ≡ true
    → s.stream ≡ none
    → s.publisher.state ≡ ready
    → (handle out (describe q) s ≡ ok (hold_describe q s)) × (is_armed (hold_describe q s) ≡ false)
unfolding handle do_describe on_demand_or
stranded_when_ready out q s v d h e = (ground arith, ground arith)

-- On a valid path whose publisher was started on demand and has left, while the on-demand state is
-- closing, the requests that are on hold stay there when the close timer has fired, and no timer runs
-- then.
pub stranded_when_closing :
    (out : Outcome) (s : PathState)
    → IsValid s
    → s.conf.run_on_demand ≡ true
    → s.stream ≡ none
    → s.publisher.state ≡ closing
    → (s' : PathState) × (handle out publisher_close_fires s ≡ ok s')
      × (s'.describe_requests_on_hold ≡ s.describe_requests_on_hold)
      × (s'.reader_add_requests_on_hold ≡ s.reader_add_requests_on_hold)
      × (is_armed s' ≡ false)
unfolding handle do_publisher_close_timer on_demand_publisher_stop stop
stranded_when_closing out s v d h e = (
  emit on_un_demand (record s {
    on_un_demand_hook = false;
    publisher = record s.publisher { close_timer = false; state = initial };
  }),
  ground arith,
  ground arith,
  ground arith,
  ground arith,
)
