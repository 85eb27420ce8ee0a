-- ===== src/Core/Path/Handlers.antt =====
-- mediamtx/internal/core/path.go: the handlers of a path's messages.
use go_live_vod.Prelude.{
  ℕ, Bool, true, false, not, ◌&&◌, List, [], ◌∷◌, ◌++◌, Option, none, some, ◌==◌, if◌then◌else◌,
}
use go_live_vod.Prelude.Result.{Result, ok, err, ◌>>=◌}
use go_live_vod.Core.Path.{
  PathState, Conf, Outcome, emit, Panic, Source, nil_live_stream, wrong_source, answer,
  publisher_closed, source_redirect, static_source_handler, publisher_source, source_reloaded,
  transcoder_stopped, timed_out, no_one_publishing, not_a_publisher_path, already_publishing,
  not_assigned, to_redirect, to_fallback, to_path, to_data, to_stream, closed, failed, is_publisher,
  has_static_source, has_on_demand_static_source, has_on_demand_publisher, Reason,
}
use go_live_vod.Core.Path.Operations.{
  is_initial, is_ready, stop_ready_timer, with_static_source, on_demand_static_source_start,
  on_demand_static_source_schedule_close, on_demand_static_source_stop, on_demand_publisher_start,
  on_demand_publisher_schedule_close, on_demand_publisher_stop, start_recording, close_recorder,
  set_ready, set_not_ready, execute_remove_publisher, mem, remove, add_reader_post,
  consume_on_hold_requests, fail_on_hold_requests,
}

unfoldable pub do_static_ready_timer : PathState → Result Panic PathState
do_static_ready_timer s = on_demand_static_source_stop (fail_on_hold_requests timed_out s)

unfoldable pub do_static_close_timer : PathState → Result Panic PathState
do_static_close_timer s = do s1 ← set_not_ready s; on_demand_static_source_stop s1

unfoldable pub do_publisher_ready_timer : PathState → Result Panic PathState
do_publisher_ready_timer s = on_demand_publisher_stop (fail_on_hold_requests timed_out s)

unfoldable pub do_publisher_close_timer : PathState → Result Panic PathState
do_publisher_close_timer s = on_demand_publisher_stop s

-- The part of `doReloadConf` behind the source's.
abbrev pub reload_recording : PathState → PathState
reload_recording s =
    if s.conf.recording
    then elim s.stream [ none ↦ s | some st ↦ if s.recorder then s else start_recording s ]
    else close_recorder s

unfoldable pub do_reload_conf : Conf → PathState → Result Panic PathState
do_reload_conf conf s =
    let s1 = record s { conf = conf } in
    if has_static_source conf
    then with_static_source s.source (ok (reload_recording (emit source_reloaded s1)))
    else ok (reload_recording s1)

-- The end of `doSourceStaticSetReady` and of `doStartPublisher`, behind `setReady`.
abbrev pub serve : ℕ → PathState → PathState
serve req s = let s1 = consume_on_hold_requests s in emit (answer req (to_stream s1.stream)) s1

abbrev pub settle_static_source : PathState → PathState
settle_static_source s =
    if has_on_demand_static_source s.conf
    then on_demand_static_source_schedule_close
        (record s { static_source = stop_ready_timer s.static_source })
    else s

abbrev pub static_source_ready : ℕ → PathState × Option Reason → Result Panic PathState
static_source_ready req (s, problem) = ok (elim problem [
  | some why ↦ emit (answer req (failed why)) s
  | none ↦ serve req (settle_static_source s)
])

unfoldable pub do_static_set_ready : Outcome → ℕ → PathState → Result Panic PathState
do_static_set_ready out req s = set_ready out s >>= static_source_ready req

unfoldable pub do_static_set_not_ready : ℕ → PathState → Result Panic PathState
do_static_set_not_ready req s = do
  s1 ← set_not_ready s
  let s2 = emit (answer req closed) s1
  if has_on_demand_static_source s2.conf && not (is_initial s2.static_source.state)
      then on_demand_static_source_stop s2
      else ok s2

abbrev pub is_redirect : Option Source → Bool
is_redirect none = false
is_redirect (some source_redirect) = true
is_redirect (some static_source_handler) = false
is_redirect (some (publisher_source a)) = false

-- What `doDescribe` and `doAddReader` do where there is no stream but one on demand: the source is
-- started if it is not, and `hold` puts the request on hold. `otherwise` is the case of neither.
unfoldable pub on_demand_or :
    (PathState → PathState) → PathState → PathState → Result Panic PathState
on_demand_or hold otherwise s =
    if has_on_demand_static_source s.conf
    then (do
      s1 ← (if is_initial s.static_source.state then on_demand_static_source_start s else ok s)
      ok (hold s1))
    else if has_on_demand_publisher s.conf
    then ok (hold (if is_initial s.publisher.state then on_demand_publisher_start s else s))
    else ok otherwise

abbrev pub hold_describe : ℕ → PathState → PathState
hold_describe req s = record s {
  describe_requests_on_hold = s.describe_requests_on_hold ++ (req ∷ []);
}

abbrev pub hold_reader : ℕ → ℕ → PathState → PathState
hold_reader req author s = record s {
  reader_add_requests_on_hold = s.reader_add_requests_on_hold ++ ((req, author) ∷ []);
}

unfoldable pub do_describe : ℕ → PathState → Result Panic PathState
do_describe req s =
    if is_redirect s.source then ok (emit (answer req to_redirect) s) else elim s.stream [
      | some st ↦ ok (emit (answer req (to_stream (some st))) s)
      | none ↦
          on_demand_or (hold_describe req)
            (if s.conf.fallback
              then emit (answer req to_fallback) s
              else emit (answer req (failed no_one_publishing)) s)
            s
    ]

-- `pa.source == author`
abbrev pub is_author : ℕ → Option Source → Bool
is_author a none = false
is_author a (some source_redirect) = false
is_author a (some static_source_handler) = false
is_author a (some (publisher_source b)) = b == a

unfoldable pub do_remove_publisher : Outcome → ℕ → ℕ → PathState → Result Panic PathState
do_remove_publisher out req author s = do
  s1 ← (if is_author author s.source then execute_remove_publisher s else ok s)
  elim s1.live_stream [
    | none ↦ err nil_live_stream
    | some ls ↦ ok (emit (answer req closed) (emit (transcoder_stopped out.stops_transcoder) s1))
  ]

abbrev pub assign_publisher : ℕ → ℕ → PathState → PathState
assign_publisher req author s =
    emit (answer req to_path) (record s { source = some (publisher_source author) })

abbrev pub replace_publisher : ℕ → ℕ → ℕ → PathState → Result Panic PathState
replace_publisher req author old s = do
  s1 ← execute_remove_publisher (emit (publisher_closed old) s)
  ok (assign_publisher req author s1)

unfoldable pub do_add_publisher : ℕ → ℕ → PathState → Result Panic PathState
do_add_publisher req author s =
    if not (is_publisher s.conf.source)
    then ok (emit (answer req (failed not_a_publisher_path)) s)
    else elim s.source [
      | none ↦ ok (assign_publisher req author s)
      | some src ↦
          if not s.conf.override_publisher
          then ok (emit (answer req (failed already_publishing)) s)
          else elim src [
            | source_redirect ↦ err wrong_source
            | static_source_handler ↦ err wrong_source
            | publisher_source old ↦ replace_publisher req author old s
          ]
    ]

abbrev pub settle_publisher : PathState → PathState
settle_publisher s =
    if has_on_demand_publisher s.conf && not (is_initial s.publisher.state)
    then on_demand_publisher_schedule_close (record s { publisher = stop_ready_timer s.publisher })
    else s

abbrev pub publisher_ready : ℕ → PathState × Option Reason → Result Panic PathState
publisher_ready req (s, problem) = ok (elim problem [
  | some why ↦ emit (answer req (failed why)) s
  | none ↦ serve req (settle_publisher s)
])

unfoldable pub do_start_publisher : Outcome → ℕ → ℕ → PathState → Result Panic PathState
do_start_publisher out req author s =
    if not (is_author author s.source)
    then ok (emit (answer req (failed not_assigned)) s)
    else set_ready out s >>= publisher_ready req

unfoldable pub do_stop_publisher : ℕ → ℕ → PathState → Result Panic PathState
do_stop_publisher req author s = do
  s1 ←
      (if is_author author s.source
        then elim s.stream [ none ↦ ok s | some st ↦ set_not_ready s ]
        else ok s)
  ok (emit (answer req closed) s1)

unfoldable pub do_add_reader : ℕ → ℕ → PathState → Result Panic PathState
do_add_reader req author s = elim s.stream [
  | some st ↦ ok (add_reader_post req author s)
  | none ↦ on_demand_or (hold_reader req author) (emit (answer req (failed no_one_publishing)) s) s
]

-- The last reader is gone.
unfoldable pub readers_gone : PathState → PathState
readers_gone s =
    if has_on_demand_static_source s.conf
    then (if is_ready s.static_source.state then on_demand_static_source_schedule_close s else s)
    else if has_on_demand_publisher s.conf
    then (if is_ready s.publisher.state then on_demand_publisher_schedule_close s else s)
    else s

abbrev pub when_empty : List ℕ → (PathState → PathState) → PathState → PathState
when_empty [] f s = f s
when_empty (r ∷ rs) f s = s

unfoldable pub do_remove_reader : ℕ → ℕ → PathState → Result Panic PathState
do_remove_reader req author s =
    let s1 =
      emit (answer req closed)
        (if mem author s.readers then record s { readers = remove author s.readers } else s) in
    ok (when_empty s1.readers readers_gone s1)

unfoldable pub do_api_paths_get : ℕ → PathState → Result Panic PathState
do_api_paths_get req s = ok (emit (answer req to_data) s)
