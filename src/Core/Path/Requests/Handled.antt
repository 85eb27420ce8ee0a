-- ===== src/Core/Path/Requests/Handled.antt =====
-- mediamtx/internal/core/path.go: each handler answers its own request or puts it on hold, and
-- answers of those on hold what it takes off.
use go_live_vod.Prelude.{
  ℕ, ◌+◌, ◌≡◌, not, ◌&&◌, arith, ◌==◌, if◌then◌else◌, Option, Option-cases, inl, inr, none, some,
  false,
}
use go_live_vod.Prelude.Result.{ok, Result, err, ◌>>=◌}
use go_live_vod.Core.Path.{
  PathState, Conf, emit, answer, timed_out, failed, closed, has_on_demand_static_source,
  no_one_publishing, source_started, to_fallback, Outcome, Panic, Reason, nil_live_stream,
  publisher_closed, publisher_source, source_redirect, static_source_handler, transcoder_stopped,
}
use go_live_vod.Core.Path.Operations.{
  set_not_ready, on_demand_static_source_start, on_demand_static_source_stop, fail_on_hold_requests,
  is_initial, on_demand_publisher_start, start_waiting, execute_remove_publisher, set_ready,
}
use go_live_vod.Core.Path.Handlers.{
  do_reload_conf, do_reload_conf, do_reload_conf, do_static_ready_timer, do_static_close_timer,
  do_publisher_ready_timer, do_reload_conf, do_static_set_not_ready, do_describe, on_demand_or,
  hold_describe, hold_reader, assign_publisher, do_add_publisher, do_add_reader,
  do_remove_publisher, do_remove_reader, do_start_publisher, do_static_set_ready, do_stop_publisher,
  is_author, readers_gone, replace_publisher, do_api_paths_get, publisher_ready, serve,
  settle_publisher, settle_static_source, static_source_ready, do_publisher_close_timer,
}
use go_live_vod.Core.Path.Requests.{
  one_if, answers, tally, Adds, count-append, count_readers-append, Adds-set_not_ready,
  Adds-on_demand_static_source_stop, Adds-on_demand_publisher_stop, tally-fail_on_hold_requests,
  Adds-bind, Adds-from, Adds-execute_remove_publisher, Sets, tally-add_reader_post, tally-consume,
  Sets-set_ready,
}
use go_live_vod.Core.Path.Loop.{
  Message, handle, add_publisher, add_reader, api_paths_get, describe, publisher_close_fires,
  publisher_ready_fires, reload_conf, remove_publisher, remove_reader, start_publisher,
  static_close_fires, static_ready_fires, static_set_not_ready, static_set_ready, stop_publisher,
}

module _ (r : ℕ) where
  Adds-do_static_ready_timer : (s : PathState) → Adds r 0 s (do_static_ready_timer s)
  unfolding do_static_ready_timer
  Adds-do_static_ready_timer s =
      Adds-from r 0 (fail_on_hold_requests timed_out s) s _
        (tally-fail_on_hold_requests r timed_out s)
        (Adds-on_demand_static_source_stop r (fail_on_hold_requests timed_out s))

  Adds-do_publisher_ready_timer : (s : PathState) → Adds r 0 s (do_publisher_ready_timer s)
  unfolding do_publisher_ready_timer
  Adds-do_publisher_ready_timer s =
      Adds-from r 0 (fail_on_hold_requests timed_out s) s _
        (tally-fail_on_hold_requests r timed_out s)
        (Adds-on_demand_publisher_stop r (fail_on_hold_requests timed_out s))

  Adds-do_static_close_timer : (s : PathState) → Adds r 0 s (do_static_close_timer s)
  unfolding do_static_close_timer
  Adds-do_static_close_timer s =
      Adds-bind r 0 0 s (set_not_ready s) on_demand_static_source_stop (Adds-set_not_ready r s)
        λ s1 h. Adds-from r 0 s1 s _ (omega (arith, h)) (Adds-on_demand_static_source_stop r s1)

  Adds-do_reload_conf : (conf : Conf) (s : PathState) → Adds r 0 s (do_reload_conf conf s)
  unfolding do_reload_conf answers
  Adds-do_reload_conf conf s = ground arith

  Adds-on_demand_or :
      (n : ℕ) (hold : PathState → PathState) (otherwise s : PathState)
      → ((t : PathState) → tally r (hold t) ≡ n + tally r t)
      → tally r otherwise ≡ n + tally r s
      → Adds r n s (on_demand_or hold otherwise s)
  unfolding on_demand_or on_demand_static_source_start answers
  Adds-on_demand_or n hold otherwise s held other =
      let started : PathState =
        emit source_started (record s { static_source = start_waiting s.static_source }) in
      ground (arith, held s, held started, held (on_demand_publisher_start s), other)

  tally-hold_describe :
      (q : ℕ) (s : PathState) → tally r (hold_describe q s) ≡ one_if (q == r) + tally r s
  tally-hold_describe q s = omega (arith, count-append r s.describe_requests_on_hold q)

  tally-hold_reader :
      (q a : ℕ) (s : PathState) → tally r (hold_reader q a s) ≡ one_if (q == r) + tally r s
  tally-hold_reader q a s = omega (arith, count_readers-append r s.reader_add_requests_on_hold q a)

  abbrev unserved : ℕ → PathState → PathState
  unserved q s =
      if s.conf.fallback
      then emit (answer q to_fallback) s
      else emit (answer q (failed no_one_publishing)) s

  Adds-do_describe : (q : ℕ) (s : PathState) → Adds r (one_if (q == r)) s (do_describe q s)
  unfolding do_describe answers
  Adds-do_describe q s = ground (
    arith,
    Adds-on_demand_or (one_if (q == r)) (hold_describe q) (unserved q s) s (tally-hold_describe q)
        (ground arith),
  )

  Adds-do_static_set_not_ready :
      (q : ℕ) (s : PathState) → Adds r (one_if (q == r)) s (do_static_set_not_ready q s)
  unfolding do_static_set_not_ready answers on_demand_static_source_stop
  Adds-do_static_set_not_ready q s =
      Adds-bind r 0 (one_if (q == r)) s (set_not_ready s)
        (λ s1.
          let s2 = emit (answer q closed) s1 in
          if has_on_demand_static_source s2.conf && not (is_initial s2.static_source.state)
          then on_demand_static_source_stop s2
          else ok s2)
        (Adds-set_not_ready r s) λ s1 h. ground (arith, h)

  Adds-do_remove_publisher :
      (out : Outcome) (q a : ℕ) (s : PathState)
      → Adds r (one_if (q == r)) s (do_remove_publisher out q a s)
  unfolding do_remove_publisher answers
  Adds-do_remove_publisher out q a s =
      Adds-bind r 0 (one_if (q == r)) s
        (if is_author a s.source then execute_remove_publisher s else ok s)
        (λ s1. elim s1.live_stream [
          | none ↦ err nil_live_stream
          | some ls ↦
              ok (emit (answer q closed) (emit (transcoder_stopped out.stops_transcoder) s1))
        ])
        (ground (arith, Adds-execute_remove_publisher r s)) λ s1 h. ground (arith, h)

  Adds-do_stop_publisher :
      (q a : ℕ) (s : PathState) → Adds r (one_if (q == r)) s (do_stop_publisher q a s)
  unfolding do_stop_publisher answers
  Adds-do_stop_publisher q a s =
      Adds-bind r 0 (one_if (q == r)) s
        (if is_author a s.source
          then elim s.stream [ none ↦ ok s | some st ↦ set_not_ready s ]
          else ok s)
        (λ s1. ok (emit (answer q closed) s1)) (ground (arith, Adds-set_not_ready r s))
        λ s1 h. ground (arith, h)

  Adds-replace_publisher :
      (q a old : ℕ) (s : PathState) → Adds r (one_if (q == r)) s (replace_publisher q a old s)
  unfolding answers
  Adds-replace_publisher q a old s =
      Adds-bind r 0 (one_if (q == r)) s (execute_remove_publisher (emit (publisher_closed old) s))
        (λ s1. ok (assign_publisher q a s1))
        (Adds-from r 0 (emit (publisher_closed old) s) s
          (execute_remove_publisher (emit (publisher_closed old) s)) (omega arith)
          (Adds-execute_remove_publisher r (emit (publisher_closed old) s)))
        λ s1 h. ground (arith, h)

  Adds-do_add_publisher :
      (q a : ℕ) (s : PathState) → Adds r (one_if (q == r)) s (do_add_publisher q a s)
  unfolding do_add_publisher answers
  Adds-do_add_publisher q a s = elim (Option-cases s.source) [
    | inl e ↦ rw (e, Adds) (ground arith)
    | inr (source_redirect, e) ↦ rw (e, Adds) (ground arith)
    | inr (static_source_handler, e) ↦ rw (e, Adds) (ground arith)
    | inr (publisher_source old, e) ↦
        rw (e, Adds) (ground (arith, Adds-replace_publisher q a old s))
  ]

  Adds-do_remove_reader :
      (q a : ℕ) (s : PathState) → Adds r (one_if (q == r)) s (do_remove_reader q a s)
  unfolding do_remove_reader answers readers_gone
  Adds-do_remove_reader q a s = ground arith

  Adds-do_add_reader : (q a : ℕ) (s : PathState) → Adds r (one_if (q == r)) s (do_add_reader q a s)
  unfolding do_add_reader answers
  Adds-do_add_reader q a s = ground (
    arith,
    tally-add_reader_post r q a s,
    Adds-on_demand_or (one_if (q == r)) (hold_reader q a)
        (emit (answer q (failed no_one_publishing)) s) s (tally-hold_reader q a) (ground arith),
  )

  -- The rule for what follows `setReady`.
  Sets-bind :
      (k : ℕ) (s : PathState) (m : Result Panic (PathState × Option Reason))
      (f : PathState × Option Reason → Result Panic PathState)
      → Sets r s m
      → ((s1 : PathState) (problem : Option Reason)
          → tally r s1 ≡ tally r s
          → Adds r k s (f (s1, problem)))
      → Adds r k s (m >>= f)
  Sets-bind k s (ok (s1, problem)) f h g = g s1 problem h
  Sets-bind k s (err p) f h g = tt

  -- The requests on hold are served, and the one that asked is answered.
  tally-serve : (q : ℕ) (s : PathState) → tally r (serve q s) ≡ one_if (q == r) + tally r s
  unfolding answers
  tally-serve q s = omega (arith, tally-consume r s)

  Adds-do_static_set_ready :
      (out : Outcome) (q : ℕ) (s : PathState)
      → Adds r (one_if (q == r)) s (do_static_set_ready out q s)
  unfolding do_static_set_ready answers
  Adds-do_static_set_ready out q s =
      Sets-bind (one_if (q == r)) s (set_ready out s) (static_source_ready q)
        (Sets-set_ready r out s)
        λ s1 problem h. ground (arith, h, tally-serve q (settle_static_source s1))

  Adds-do_start_publisher :
      (out : Outcome) (q a : ℕ) (s : PathState)
      → Adds r (one_if (q == r)) s (do_start_publisher out q a s)
  unfolding do_start_publisher answers
  Adds-do_start_publisher out q a s = ground (
    arith,
    Sets-bind (one_if (q == r)) s (set_ready out s) (publisher_ready q) (Sets-set_ready r out s)
        (λ s1 problem h. ground (arith, h, tally-serve q (settle_publisher s1))),
  )

  -- How many requests `r` a message carries.
  abbrev pub asked : Message → ℕ
  asked static_ready_fires = 0
  asked static_close_fires = 0
  asked publisher_ready_fires = 0
  asked publisher_close_fires = 0
  asked (reload_conf conf) = 0
  asked (static_set_ready q) = one_if (q == r)
  asked (static_set_not_ready q) = one_if (q == r)
  asked (describe q) = one_if (q == r)
  asked (api_paths_get q) = one_if (q == r)
  asked (add_publisher q a) = one_if (q == r)
  asked (remove_publisher q a) = one_if (q == r)
  asked (start_publisher q a) = one_if (q == r)
  asked (stop_publisher q a) = one_if (q == r)
  asked (add_reader q a) = one_if (q == r)
  asked (remove_reader q a) = one_if (q == r)

  pub Adds-handle :
      (out : Outcome) (msg : Message) (s : PathState) → Adds r (asked msg) s (handle out msg s)
  unfolding handle do_api_paths_get do_publisher_close_timer answers
  Adds-handle out static_ready_fires s =
      Adds-do_static_ready_timer
        (record s { static_source = record s.static_source { ready_timer = false } })
  Adds-handle out static_close_fires s =
      Adds-do_static_close_timer
        (record s { static_source = record s.static_source { close_timer = false } })
  Adds-handle out publisher_ready_fires s =
      Adds-do_publisher_ready_timer
        (record s { publisher = record s.publisher { ready_timer = false } })
  Adds-handle out publisher_close_fires s =
      Adds-on_demand_publisher_stop r
        (record s { publisher = record s.publisher { close_timer = false } })
  Adds-handle out (reload_conf conf) s = Adds-do_reload_conf conf s
  Adds-handle out (static_set_ready q) s = Adds-do_static_set_ready out q s
  Adds-handle out (static_set_not_ready q) s = Adds-do_static_set_not_ready q s
  Adds-handle out (describe q) s = Adds-do_describe q s
  Adds-handle out (api_paths_get q) s = omega arith
  Adds-handle out (add_publisher q a) s = Adds-do_add_publisher q a s
  Adds-handle out (remove_publisher q a) s = Adds-do_remove_publisher out q a s
  Adds-handle out (start_publisher q a) s = Adds-do_start_publisher out q a s
  Adds-handle out (stop_publisher q a) s = Adds-do_stop_publisher q a s
  Adds-handle out (add_reader q a) s = Adds-do_add_reader q a s
  Adds-handle out (remove_reader q a) s = Adds-do_remove_reader q a s
