-- ===== src/Core/Path/Validity.antt =====
-- mediamtx/internal/core/path.go: what holds of a path between two messages.
pub mod Kept
pub mod Ready
pub mod Reach
use go_live_vod.Prelude.{
  ◌≡◌, Bool, Option, [], false, if◌then◌else◌, length, none, not, some, true, ◌&&◌, ◌||◌, ◌≤◌, ◌⊎◌,
}
use go_live_vod.Prelude.Result.{Result, ok, err}
use go_live_vod.Core.LiveStream.{new_live_stream}
use go_live_vod.Core.Path.{
  PathState, Conf, Panic, Source, SourceKind, has_on_demand_publisher, has_on_demand_static_source,
  is_publisher, publisher, publisher_source, redirect, source_redirect, static,
  static_source_handler,
}
use go_live_vod.Core.Path.Operations.{is_closing, is_initial, is_waiting, is_empty, is_nil}
use go_live_vod.Core.Path.Loop.{
  Message, add_publisher, add_reader, api_paths_get, describe, publisher_close_fires,
  publisher_ready_fires, reload_conf, remove_publisher, remove_reader, start_publisher,
  static_close_fires, static_ready_fires, static_set_not_ready, static_set_ready, stop_publisher,
}

-- The source of a path is of the kind that its configuration names.
abbrev pub fits : SourceKind → Option Source → Bool
fits publisher none = true
fits publisher (some source_redirect) = false
fits publisher (some static_source_handler) = false
fits publisher (some (publisher_source a)) = true
fits redirect none = false
fits redirect (some source_redirect) = true
fits redirect (some static_source_handler) = false
fits redirect (some (publisher_source a)) = false
fits static none = false
fits static (some source_redirect) = false
fits static (some static_source_handler) = true
fits static (some (publisher_source a)) = false

-- Nothing is on hold.
abbrev pub none_held : PathState → Bool
none_held s = is_empty s.describe_requests_on_hold && is_empty s.reader_add_requests_on_hold

-- A configuration that was accepted: runOnDemand wants a publisher as its source.
abbrev pub is_accepted : Conf → Bool
is_accepted c = if c.run_on_demand then is_publisher c.source else true

pub record IsValid (s : PathState) : Type 0 where
  pub accepted : is_accepted s.conf ≡ true
  pub source_fits : fits s.conf.source s.source ≡ true
  pub hooked : is_nil s.stream ≡ false → s.on_not_ready_hook ≡ true
  pub sourced : is_nil s.source ≡ true → is_nil s.stream ≡ true
  pub recorded : s.recorder ≡ true → is_nil s.stream ≡ false
  pub unread : is_nil s.stream ≡ true → s.readers ≡ []
  pub bounded : (s.conf.max_readers ≡ 0) ⊎ (length s.readers ≤ s.conf.max_readers)
  pub static_waits : s.static_source.ready_timer ≡ is_waiting s.static_source.state
  pub static_closes : s.static_source.close_timer ≡ is_closing s.static_source.state
  pub static_on_demand :
      is_initial s.static_source.state ≡ false → has_on_demand_static_source s.conf ≡ true
  pub static_streams :
      has_on_demand_static_source s.conf ≡ true
      → is_nil s.stream ≡ (is_initial s.static_source.state || is_waiting s.static_source.state)
  pub publisher_waits : s.publisher.ready_timer ≡ is_waiting s.publisher.state
  pub publisher_closes : s.publisher.close_timer ≡ is_closing s.publisher.state
  pub publisher_hooked : s.on_un_demand_hook ≡ not (is_initial s.publisher.state)
  pub publisher_on_demand : is_initial s.publisher.state ≡ false → s.conf.run_on_demand ≡ true
  pub held_without_stream : is_nil s.stream ≡ false → none_held s ≡ true
  pub held_on_demand :
      none_held s ≡ false
      → (has_on_demand_static_source s.conf || has_on_demand_publisher s.conf) ≡ true
  pub held_waits :
      none_held s ≡ false
      → has_on_demand_static_source s.conf ≡ true
      → is_waiting s.static_source.state ≡ true

-- `pathConfCanBeUpdated`: of what the model has, only `record` may differ.
abbrev pub CanBeUpdated : Conf → Conf → Type 0
CanBeUpdated old new = new ≡ record old { recording = new.recording }

-- What the senders of a message see to: a timer fires if it runs, the path manager reloads what can
-- be updated, a source announces a stream where there is none and takes back one that is there, and
-- the path's name and live stream are what the transcoder needs.
abbrev pub IsAdmissible : Message → PathState → Type 0
IsAdmissible static_ready_fires s = s.static_source.ready_timer ≡ true
IsAdmissible static_close_fires s = s.static_source.close_timer ≡ true
IsAdmissible publisher_ready_fires s = s.publisher.ready_timer ≡ true
IsAdmissible publisher_close_fires s = s.publisher.close_timer ≡ true
IsAdmissible (reload_conf conf) s = CanBeUpdated s.conf conf
IsAdmissible (static_set_ready q) s =
    (s.conf.source ≡ static) × (is_nil s.stream ≡ true) × (is_nil (new_live_stream s.name) ≡ false)
IsAdmissible (static_set_not_ready q) s = (s.conf.source ≡ static) × (is_nil s.stream ≡ false)
IsAdmissible (describe q) s = Unit {0}
IsAdmissible (api_paths_get q) s = Unit {0}
IsAdmissible (add_publisher q a) s = Unit {0}
IsAdmissible (remove_publisher q a) s = is_nil s.live_stream ≡ false
IsAdmissible (start_publisher q a) s =
    (is_nil s.stream ≡ true) × (is_nil (new_live_stream s.name) ≡ false)
IsAdmissible (stop_publisher q a) s = Unit {0}
IsAdmissible (add_reader q a) s = Unit {0}
IsAdmissible (remove_reader q a) s = Unit {0}

-- The handler returns, and leaves a valid path.
abbrev pub Keeps : Result Panic PathState → Type 0
Keeps (ok s) = IsValid s
Keeps (err p) = ⊥
