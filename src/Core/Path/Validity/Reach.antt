-- ===== src/Core/Path/Validity/Reach.antt =====
-- mediamtx/internal/core/path.go: every path that is reached from a new one is valid, so that its
-- handlers return.
use go_live_vod.Prelude.{ℕ, ◌≡◌, List, Option, [], arith, false, none, refl, subst, true}
use go_live_vod.Prelude.Result.{Result, ok, err}
use go_live_vod.Core.LiveStream.{LiveStream}
use go_live_vod.Core.Path.{PathState, Conf, Outcome, Panic}
use go_live_vod.Core.Path.Operations.{set_not_ready}
use go_live_vod.Core.Path.Handlers.{do_api_paths_get}
use go_live_vod.Core.Path.Validity.{IsValid, IsAdmissible, Keeps, is_accepted}
use go_live_vod.Core.Path.Validity.Kept.{
  Keeps-describe, Keeps-add_publisher, Keeps-add_reader, Keeps-publisher_close,
  Keeps-publisher_ready, Keeps-reload_conf, Keeps-remove_publisher, Keeps-remove_reader,
  Keeps-static_close, Keeps-static_ready, Keeps-static_set_not_ready, Keeps-stop_publisher,
}
use go_live_vod.Core.Path.Validity.Ready.{Keeps-static_set_ready, Keeps-start_publisher}
use go_live_vod.Core.Path.Loop.{
  end_run, handle, Message, new_path, add_publisher, add_reader, api_paths_get, describe,
  publisher_close_fires, publisher_ready_fires, reload_conf, remove_publisher, remove_reader,
  start_publisher, static_close_fires, static_ready_fires, static_set_not_ready, static_set_ready,
  stop_publisher,
}

-- On a valid path every admissible message is handled without a run-time error, and leaves a valid
-- path.
pub Keeps-handle :
    (out : Outcome) (msg : Message) (s : PathState)
    → IsValid s
    → IsAdmissible msg s
    → Keeps (handle out msg s)
unfolding handle do_api_paths_get
Keeps-handle out static_ready_fires s v h = Keeps-static_ready s v h
Keeps-handle out static_close_fires s v h = Keeps-static_close s v h
Keeps-handle out publisher_ready_fires s v h = Keeps-publisher_ready s v h
Keeps-handle out publisher_close_fires s v h = Keeps-publisher_close s v h
Keeps-handle out (reload_conf conf) s v h = Keeps-reload_conf conf s v h
Keeps-handle out (static_set_ready q) s v h = Keeps-static_set_ready out q s v h
Keeps-handle out (static_set_not_ready q) s v (e, h) = Keeps-static_set_not_ready q s v e h
Keeps-handle out (describe q) s v h = Keeps-describe q s v
Keeps-handle out (api_paths_get q) s v h = ground arith
Keeps-handle out (add_publisher q a) s v h = Keeps-add_publisher q a s v
Keeps-handle out (remove_publisher q a) s v h = Keeps-remove_publisher out q a s v h
Keeps-handle out (start_publisher q a) s v h = Keeps-start_publisher out q a s v h
Keeps-handle out (stop_publisher q a) s v h = Keeps-stop_publisher q a s v
Keeps-handle out (add_reader q a) s v h = Keeps-add_reader q a s v
Keeps-handle out (remove_reader q a) s v h = Keeps-remove_reader q a s v

-- A path that was reached from `s` by admissible messages.
pub data Reach (s : PathState) : PathState → Type 0 where
  here : Reach s s
  next :
      {t u : PathState} (out : Outcome) (msg : Message)
      → Reach s t
      → IsAdmissible msg t
      → handle out msg t ≡ ok u
      → Reach s u

Reach-IsValid : {s t : PathState} → IsValid s → Reach s t → IsValid t
Reach-IsValid v here = v
Reach-IsValid v (next {t} out msg r h e) =
    subst Keeps e (Keeps-handle out msg t (Reach-IsValid v r) h)

new_path-IsValid :
    (conf : Conf) (name : List ℕ) (live_stream : Option LiveStream)
    → is_accepted conf ≡ true
    → IsValid (new_path conf name live_stream)
unfolding new_path
new_path-IsValid conf name live_stream h = ground arith

-- A path that was reached from a new one with an accepted configuration is valid, and whatever
-- admissible message comes next, its handler returns a valid path.
pub handle-returns :
    (conf : Conf) (name : List ℕ) (live_stream : Option LiveStream) {s : PathState} (out : Outcome)
    (msg : Message)
    → is_accepted conf ≡ true
    → Reach (new_path conf name live_stream) s
    → IsAdmissible msg s
    → IsValid s × (s' : PathState) × (handle out msg s ≡ ok s') × IsValid s'
handle-returns conf name live_stream {s} out msg a r h =
    let v = Reach-IsValid (new_path-IsValid conf name live_stream a) r in
    let (s', e, k) = returned (handle out msg s) (Keeps-handle out msg s v h) in (v, s', e, k)
  where
    returned : (m : Result Panic PathState) → Keeps m → (s' : PathState) × (m ≡ ok s') × IsValid s'
    returned (ok s') k = (s', refl, k)
    returned (err p) k = absurd k

-- Nothing of the path is left running.
pub record IsOver (s : PathState) : Type 0 where
  pub no_stream : s.stream ≡ none
  pub no_readers : s.readers ≡ []
  pub no_recorder : s.recorder ≡ false
  pub no_static_timer :
      (s.static_source.ready_timer ≡ false) × (s.static_source.close_timer ≡ false)
  pub no_publisher_timer : (s.publisher.ready_timer ≡ false) × (s.publisher.close_timer ≡ false)

abbrev Ends : Result Panic PathState → Type 0
Ends (ok s) = IsOver s
Ends (err p) = ⊥

Ends-end_run : (s : PathState) → IsValid s → Ends (end_run s)
unfolding end_run set_not_ready
Ends-end_run s v = ground arith

-- The end of a path that was reached from a new one with an accepted configuration returns, and
-- leaves no stream, no reader, no recorder and no timer.
pub end_run-returns :
    (conf : Conf) (name : List ℕ) (live_stream : Option LiveStream) {s : PathState}
    → is_accepted conf ≡ true
    → Reach (new_path conf name live_stream) s
    → (s' : PathState) × (end_run s ≡ ok s') × IsOver s'
end_run-returns conf name live_stream {s} a r =
    ended (end_run s) (Ends-end_run s (Reach-IsValid (new_path-IsValid conf name live_stream a) r))
  where
    ended : (m : Result Panic PathState) → Ends m → (s' : PathState) × (m ≡ ok s') × IsOver s'
    ended (ok s') k = (s', refl, k)
    ended (err p) k = absurd k
