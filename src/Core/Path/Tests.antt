-- ===== src/Core/Path/Tests.antt =====
-- mediamtx/internal/core/path.go on concrete messages.
use go_live_vod.Prelude.{ℕ, ◌≡◌, refl, List, [], false, none, some, true, ◌∷◌, ◌+◌, ◌++◌}
use go_live_vod.Prelude.Result.{ok, err}
use go_live_vod.Core.LiveStream.{new_live_stream, in_front, split, LiveStream}
use go_live_vod.Core.Path.{
  PathState, Conf, Outcome, publisher, ready, closing, index_out_of_range, nil_live_stream,
  publisher_source,
}
use go_live_vod.Core.Path.Handlers.{
  do_add_publisher, do_add_reader, do_describe, do_remove_publisher, do_start_publisher,
  on_demand_or, do_publisher_close_timer, hold_describe, do_stop_publisher,
}
use go_live_vod.Core.Path.Operations.{
  set_not_ready, set_ready, execute_remove_publisher, add_reader_post, add_readers, answer_all,
  answer_readers, become_ready, close_readers, consume_on_hold_requests, keep_open, mem,
  on_demand_publisher_stop, reader_added,
}
use go_live_vod.Core.Path.Validity.Reach.{
  here, next, Reach, IsOver, end_run-returns, handle-returns,
}
use go_live_vod.Core.Path.Requests.Runs.{answers-run, asked_all}
use go_live_vod.Core.Path.Requests.{answers}
use go_live_vod.Core.Path.Validity.{IsValid}
use go_live_vod.Core.Path.Faults.{
  stranded_when_closing, stranded_when_ready, leaving_early, is_armed, starting_without_slash,
}
use go_live_vod.Core.LiveStream.Names.{new_live_stream-slash, AtSlash, has_slash}
use go_live_vod.Core.Path.Loop.{
  should_close, remove_publisher, add_reader, add_publisher, start_publisher, remove_publisher,
  publisher_close_fires, stop_publisher, run_inner, end_run, handle, describe, remove_publisher,
  new_path, Message, run,
}

-- A path that runs a command when its stream is asked for, and the name "live/cam".
abbrev conf : Conf
conf = record {
  source = publisher;
  source_on_demand = false;
  run_on_demand = true;
  fallback = false;
  regexp = false;
  override_publisher = true;
  recording = true;
  max_readers = 2;
}

abbrev name : List ℕ
name = 108 ∷ 105 ∷ 118 ∷ 101 ∷ 47 ∷ 99 ∷ 97 ∷ 109 ∷ []

abbrev fine : Outcome
fine = record { starts_transcoder = true; stops_transcoder = true; new_stream = some 7 }

-- A reader describes, the command's publisher comes, a reader is added, and the publisher goes.
abbrev messages : List (Outcome × Message)
messages =
    (fine, describe 1)
    ∷ (fine, add_publisher 2 50)
    ∷ (fine, start_publisher 3 50)
    ∷ (fine, add_reader 4 60)
    ∷ (fine, remove_publisher 5 50)
    ∷ (fine, describe 6)
    ∷ []

abbrev start : PathState
start = new_path conf name none

-- All that a run computes with.
opened : Unit {0}
unfolding run run_inner do_stop_publisher end_run handle new_path do_describe on_demand_or
    do_add_publisher do_start_publisher set_ready become_ready new_live_stream split in_front
    consume_on_hold_requests answer_all add_readers do_add_reader add_reader_post reader_added
    keep_open mem do_remove_publisher execute_remove_publisher set_not_ready close_readers
    should_close answer_readers on_demand_publisher_stop do_publisher_close_timer
opened = tt

ends_well : (s : PathState) × (run messages start ≡ ok (s, []))
unfolding opened
ends_well = (_, refl)

answers-run_example : answers 1 ends_well.0.events + 0 ≡ 1
unfolding asked_all
answers-run_example = answers-run 1 conf name none messages [] ends_well.0 ends_well.1

-- The path that a reader has asked for, and that its publisher has left.
reached : (s : PathState) × Reach start s × (s.stream ≡ none) × (s.publisher.state ≡ ready)
unfolding opened
reached = (
  _,
  next fine (remove_publisher 5 50)
      (next fine (add_reader 4 60)
        (next fine (start_publisher 3 50)
          (next fine (add_publisher 2 50) (next fine (describe 1) here tt refl) tt refl)
          (refl, refl) refl)
        tt refl)
      refl refl,
  refl,
  refl,
)

handle-returns_example :
    IsValid reached.0 × (s' : PathState) × (handle fine (describe 6) reached.0 ≡ ok s') × IsValid s'
handle-returns_example = handle-returns conf name none fine (describe 6) refl reached.1 tt

end_run-returns_example : (s' : PathState) × (end_run reached.0 ≡ ok s') × IsOver s'
end_run-returns_example = end_run-returns conf name none refl reached.1

stranded_when_ready_example :
    (handle fine (describe 6) reached.0 ≡ ok (hold_describe 6 reached.0))
    × (is_armed (hold_describe 6 reached.0) ≡ false)
unfolding opened reached
stranded_when_ready_example =
    stranded_when_ready fine 6 reached.0 handle-returns_example.0 refl reached.2 reached.3

-- The same, where the publisher leaves before a reader is added.
left_closing : (s : PathState) × Reach start s × (s.stream ≡ none) × (s.publisher.state ≡ closing)
unfolding opened
left_closing = (
  _,
  next fine (describe 6)
      (next fine (stop_publisher 5 50)
        (next fine (start_publisher 3 50)
          (next fine (add_publisher 2 50) (next fine (describe 1) here tt refl) tt refl)
          (refl, refl) refl)
        tt refl)
      tt refl,
  refl,
  refl,
)

stranded_when_closing_example :
    (s' : PathState) × (handle fine publisher_close_fires left_closing.0 ≡ ok s')
    × (s'.describe_requests_on_hold ≡ left_closing.0.describe_requests_on_hold)
    × (s'.reader_add_requests_on_hold ≡ left_closing.0.reader_add_requests_on_hold)
    × (is_armed s' ≡ false)
unfolding opened left_closing
stranded_when_closing_example =
    stranded_when_closing fine left_closing.0
      (handle-returns conf name none fine (describe 7) refl left_closing.1 tt).0 refl left_closing.2
      left_closing.3

leaving_early_example :
    run ((fine, add_publisher 1 50) ∷ (fine, remove_publisher 2 50) ∷ []) start
    ≡ err nil_live_stream
leaving_early_example = leaving_early conf name fine fine 1 2 50 refl

-- A publisher has been added to the path "cam".
abbrev plain : PathState
plain = record (new_path conf (99 ∷ 97 ∷ 109 ∷ []) none) { source = some (publisher_source 50) }

starting_without_slash_example : handle fine (start_publisher 3 50) plain ≡ err index_out_of_range
unfolding new_path
starting_without_slash_example = starting_without_slash fine 3 50 plain refl refl

new_live_stream-slash_example :
    (ls : LiveStream) × (more : List ℕ) × (new_live_stream name ≡ some ls)
    × (ls.stream_name ≡ name)
    × (name ≡ ls.namespace_ ++ (47 ∷ (ls.id ++ more)))
    × (has_slash ls.namespace_ ≡ false)
    × (has_slash ls.id ≡ false)
    × AtSlash more
new_live_stream-slash_example = new_live_stream-slash name refl
