-- ===== src/Core/Path/Validity/Kept.antt =====
-- mediamtx/internal/core/path.go: each handler keeps a path valid, and does not panic.
use go_live_vod.Prelude.{
  ℕ, ◌≡◌, arith, false, true, List, [], length, ◌∷◌, ◌≤◌, Bool-cases, inl, inr,
}
use go_live_vod.Core.Path.{PathState, Conf, Outcome, static, Event, answer, closed}
use go_live_vod.Core.Path.Operations.{
  set_not_ready, add_reader_post, execute_remove_publisher, fail_on_hold_requests, keep_open,
  on_demand_publisher_stop, on_demand_static_source_start, on_demand_static_source_stop,
  reader_added, stop, remove, is_nil, mem,
}
use go_live_vod.Core.Path.Handlers.{
  do_reload_conf, do_reload_conf, do_reload_conf, do_add_publisher, do_add_reader, do_describe,
  do_publisher_close_timer, do_publisher_ready_timer, do_reload_conf, do_remove_publisher,
  do_static_close_timer, do_static_ready_timer, do_static_set_not_ready, do_stop_publisher,
  on_demand_or, do_remove_reader, readers_gone, when_empty,
}
use go_live_vod.Core.Path.Validity.{IsValid, CanBeUpdated, Keeps}

pub Keeps-static_ready :
    (s : PathState)
    → IsValid s
    → s.static_source.ready_timer ≡ true
    → Keeps (
        do_static_ready_timer
          (record s { static_source = record s.static_source { ready_timer = false } }))
unfolding do_static_ready_timer fail_on_hold_requests on_demand_static_source_stop stop
Keeps-static_ready s v h = ground arith

pub Keeps-static_close :
    (s : PathState)
    → IsValid s
    → s.static_source.close_timer ≡ true
    → Keeps (
        do_static_close_timer
          (record s { static_source = record s.static_source { close_timer = false } }))
unfolding do_static_close_timer set_not_ready on_demand_static_source_stop stop
Keeps-static_close s v h = ground arith

pub Keeps-publisher_ready :
    (s : PathState)
    → IsValid s
    → s.publisher.ready_timer ≡ true
    → Keeps (
        do_publisher_ready_timer
          (record s { publisher = record s.publisher { ready_timer = false } }))
unfolding do_publisher_ready_timer fail_on_hold_requests on_demand_publisher_stop stop
Keeps-publisher_ready s v h = ground arith

pub Keeps-publisher_close :
    (s : PathState)
    → IsValid s
    → s.publisher.close_timer ≡ true
    → Keeps (
        do_publisher_close_timer
          (record s { publisher = record s.publisher { close_timer = false } }))
unfolding do_publisher_close_timer on_demand_publisher_stop stop
Keeps-publisher_close s v h = ground arith

pub Keeps-describe : (q : ℕ) (s : PathState) → IsValid s → Keeps (do_describe q s)
unfolding do_describe on_demand_or on_demand_static_source_start
Keeps-describe q s v = ground arith

pub Keeps-reload_conf :
    (c : Conf) (s : PathState) → IsValid s → CanBeUpdated s.conf c → Keeps (do_reload_conf c s)
unfolding do_reload_conf
Keeps-reload_conf c s v e = ground arith

pub Keeps-static_set_not_ready :
    (q : ℕ) (s : PathState)
    → IsValid s
    → s.conf.source ≡ static
    → is_nil s.stream ≡ false
    → Keeps (do_static_set_not_ready q s)
unfolding do_static_set_not_ready set_not_ready on_demand_static_source_stop stop
Keeps-static_set_not_ready q s v e h = ground arith

pub Keeps-remove_publisher :
    (out : Outcome) (q a : ℕ) (s : PathState)
    → IsValid s
    → is_nil s.live_stream ≡ false
    → Keeps (do_remove_publisher out q a s)
unfolding do_remove_publisher execute_remove_publisher set_not_ready
Keeps-remove_publisher out q a s v h = ground arith

pub Keeps-add_publisher : (q a : ℕ) (s : PathState) → IsValid s → Keeps (do_add_publisher q a s)
unfolding do_add_publisher execute_remove_publisher set_not_ready
Keeps-add_publisher q a s v = ground arith

pub Keeps-stop_publisher : (q a : ℕ) (s : PathState) → IsValid s → Keeps (do_stop_publisher q a s)
unfolding do_stop_publisher set_not_ready
Keeps-stop_publisher q a s v = ground arith

pub Keeps-add_reader : (q a : ℕ) (s : PathState) → IsValid s → Keeps (do_add_reader q a s)
unfolding do_add_reader add_reader_post reader_added keep_open on_demand_or
    on_demand_static_source_start
Keeps-add_reader q a s v = ground arith

length-remove-le : (r : ℕ) (rs : List ℕ) → length (remove r rs) ≤ length rs
unfolding remove
length-remove-le r [] = omega arith
length-remove-le r (x ∷ rs) = ground (arith, length-remove-le r rs)

IsValid-fewer_readers :
    (s : PathState) (rs : List ℕ) (es : List Event)
    → IsValid s
    → length rs ≤ length s.readers
    → (s.readers ≡ [] → rs ≡ [])
    → IsValid (record s { readers = rs; events = es })
IsValid-fewer_readers s rs es v h e = ground arith

IsValid-readers_gone : (s : PathState) → IsValid s → IsValid (readers_gone s)
unfolding readers_gone
IsValid-readers_gone s v = ground arith

IsValid-when_empty :
    (rs : List ℕ) (s : PathState) → IsValid s → IsValid (when_empty rs readers_gone s)
IsValid-when_empty [] s v = IsValid-readers_gone s v
IsValid-when_empty (r ∷ rs) s v = v

remove-nil : (r : ℕ) (rs : List ℕ) → rs ≡ [] → remove r rs ≡ []
unfolding remove
remove-nil r rs e = rw e

pub Keeps-remove_reader : (q a : ℕ) (s : PathState) → IsValid s → Keeps (do_remove_reader q a s)
unfolding do_remove_reader
Keeps-remove_reader q a s v =
    let es = answer q closed ∷ s.events in
    elim (Bool-cases (mem a s.readers)) [
      | inl e ↦ rw e (
          IsValid-when_empty (remove a s.readers)
            (record s { readers = remove a s.readers; events = es })
            (IsValid-fewer_readers s (remove a s.readers) es v (length-remove-le a s.readers)
              (remove-nil a s.readers)))
      | inr e ↦ rw e (
          IsValid-when_empty s.readers (record s { events = es })
            (IsValid-fewer_readers s s.readers es v (omega arith) (λ e. e)))
    ]
