-- ===== src/Core/Path/Loop.antt =====
-- mediamtx/internal/core/path.go: the messages of a path, its loop, its start and its end.
use go_live_vod.Prelude.{
  ℕ, Bool, true, false, not, ◌&&◌, List, [], ◌∷◌, Option, none, some, if◌then◌else◌,
}
use go_live_vod.Prelude.Result.{Result, ok, ◌>>=◌}
use go_live_vod.Core.LiveStream.{LiveStream}
use go_live_vod.Core.Path.{
  PathState, Conf, Outcome, emit, Panic, Source, SourceKind, publisher, redirect, static, OnDemand,
  initial, publisher_closed, source_redirect, static_source_handler, publisher_source,
  source_started, source_stopped, on_un_demand, path_closed, terminated, failed, has_static_source,
}
use go_live_vod.Core.Path.Operations.{
  is_initial, answer_all, answer_readers, end_stream, is_empty, is_nil,
}
use go_live_vod.Core.Path.Handlers.{
  do_publisher_close_timer, do_publisher_ready_timer, do_static_close_timer, do_static_ready_timer,
  do_add_publisher, do_add_reader, do_api_paths_get, do_describe, do_reload_conf,
  do_remove_publisher, do_remove_reader, do_start_publisher, do_static_set_not_ready,
  do_static_set_ready, do_stop_publisher,
}

-- What the goroutine of a path selects from. A request comes with a number of its own, and with the
-- identity of its author where that matters.
pub data Message : Type 0 where
  static_ready_fires static_close_fires publisher_ready_fires publisher_close_fires : Message
  reload_conf : Conf → Message
  static_set_ready static_set_not_ready describe api_paths_get : ℕ → Message
  add_publisher remove_publisher start_publisher stop_publisher add_reader remove_reader :
      ℕ → ℕ → Message

-- One case of the select in `runInner`. A timer that has fired will not fire again.
unfoldable pub handle : Outcome → Message → PathState → Result Panic PathState
handle out static_ready_fires s =
    do_static_ready_timer
      (record s { static_source = record s.static_source { ready_timer = false } })
handle out static_close_fires s =
    do_static_close_timer
      (record s { static_source = record s.static_source { close_timer = false } })
handle out publisher_ready_fires s =
    do_publisher_ready_timer (record s { publisher = record s.publisher { ready_timer = false } })
handle out publisher_close_fires s =
    do_publisher_close_timer (record s { publisher = record s.publisher { close_timer = false } })
handle out (reload_conf conf) s = do_reload_conf conf s
handle out (static_set_ready req) s = do_static_set_ready out req s
handle out (static_set_not_ready req) s = do_static_set_not_ready req s
handle out (describe req) s = do_describe req s
handle out (api_paths_get req) s = do_api_paths_get req s
handle out (add_publisher req a) s = do_add_publisher req a s
handle out (remove_publisher req a) s = do_remove_publisher out req a s
handle out (start_publisher req a) s = do_start_publisher out req a s
handle out (stop_publisher req a) s = do_stop_publisher req a s
handle out (add_reader req a) s = do_add_reader req a s
handle out (remove_reader req a) s = do_remove_reader req a s

unfoldable pub should_close : PathState → Bool
should_close s =
    s.conf.regexp
    && (is_nil s.source
        && (is_empty s.readers
            && (is_empty s.describe_requests_on_hold && is_empty s.reader_add_requests_on_hold)))

-- The cases of the select that are followed by `if pa.shouldClose() { return }`.
abbrev pub checks_close : Message → Bool
checks_close static_ready_fires = true
checks_close static_close_fires = true
checks_close publisher_ready_fires = true
checks_close publisher_close_fires = false
checks_close (reload_conf conf) = false
checks_close (static_set_ready req) = false
checks_close (static_set_not_ready req) = true
checks_close (describe req) = true
checks_close (api_paths_get req) = false
checks_close (add_publisher req a) = false
checks_close (remove_publisher req a) = true
checks_close (start_publisher req a) = false
checks_close (stop_publisher req a) = true
checks_close (add_reader req a) = true
checks_close (remove_reader req a) = false

-- `runInner`: the messages one after the other. It ends with them, when the context is done, or when
-- the path is not in use any more; what it has not taken by then is given back.
unfoldable pub run_inner :
    List (Outcome × Message) → PathState → Result Panic (PathState × List (Outcome × Message))
run_inner [] s = ok (s, [])
run_inner ((out, msg) ∷ msgs) s = do
  s1 ← handle out msg s
  if checks_close msg && should_close s1 then ok (s1, msgs) else run_inner msgs s1

-- The source is closed at the end of `run`.
abbrev pub close_source : PathState → PathState
close_source s = elim s.source [
  | none ↦ s
  | some src ↦ elim src [
    | source_redirect ↦ s
    | static_source_handler ↦
        if s.conf.source_on_demand && is_initial s.static_source.state
        then s
        else emit source_stopped s
    | publisher_source a ↦ emit (publisher_closed a) s
  ]
]

abbrev pub stop_timers : OnDemand → OnDemand
stop_timers o = record o { ready_timer = false; close_timer = false }

abbrev pub un_demand : PathState → PathState
un_demand s = if s.on_un_demand_hook then emit on_un_demand s else s

-- The timers are stopped and what is on hold is answered. The lists of requests are not emptied:
-- the path is gone.
abbrev pub terminate : PathState → PathState
terminate s = record s {
  static_source = stop_timers s.static_source;
  publisher = stop_timers s.publisher;
  events =
      answer_readers (failed terminated) s.reader_add_requests_on_hold
        (answer_all (failed terminated) s.describe_requests_on_hold (path_closed ∷ s.events));
}

-- What `run` does behind `runInner`.
unfoldable pub end_run : PathState → Result Panic PathState
end_run s = end_stream (terminate s) >>= λ s1. ok (un_demand (close_source s1))

-- `initialize`, and what `run` does before `runInner`.
abbrev idle_source : OnDemand
idle_source = record { state = initial; ready_timer = false; close_timer = false }

abbrev pub first_source : SourceKind → Option Source
first_source publisher = none
first_source redirect = some source_redirect
first_source static = some static_source_handler

unfoldable pub new_path : Conf → List ℕ → Option LiveStream → PathState
new_path conf name live_stream = record {
  conf = conf;
  name = name;
  source = first_source conf.source;
  stream = none;
  recorder = false;
  on_un_demand_hook = false;
  on_not_ready_hook = false;
  readers = [];
  describe_requests_on_hold = [];
  reader_add_requests_on_hold = [];
  static_source = idle_source;
  publisher = idle_source;
  live_stream = live_stream;
  events = if has_static_source conf && not conf.source_on_demand then source_started ∷ [] else [];
}

unfoldable pub run :
    List (Outcome × Message) → PathState → Result Panic (PathState × List (Outcome × Message))
run msgs s = do (s1, rest) ← run_inner msgs s; s2 ← end_run s1; ok (s2, rest)
