-- ===== src/Core/Path.antt =====
-- mediamtx/internal/core/path.go: the state of a path, and what its goroutine gives out.
pub mod Operations
pub mod Handlers
pub mod Loop
pub mod Requests
pub mod Validity
pub mod Faults
pub mod Tests
use go_live_vod.Prelude.{ℕ, Bool, true, false, not, ◌&&◌, List, ◌∷◌, Option}
use go_live_vod.Core.LiveStream.{LiveStream}

-- `conf.Source`: "publisher", "redirect", or the URL of a static source.
pub data SourceKind : Type 0 where
  publisher redirect static : SourceKind

-- The configuration that the path reads (mediamtx/internal/conf/path.go); a string that is only
-- compared with the empty one is a Boolean.
pub record Conf : Type 0 where
  pub source : SourceKind
  pub source_on_demand : Bool
  pub run_on_demand : Bool
  pub fallback : Bool
  pub regexp : Bool
  pub override_publisher : Bool
  pub recording : Bool
  pub max_readers : ℕ

abbrev pub is_static : SourceKind → Bool
is_static publisher = false
is_static redirect = false
is_static static = true

abbrev pub is_publisher : SourceKind → Bool
is_publisher publisher = true
is_publisher redirect = false
is_publisher static = false

abbrev pub has_static_source : Conf → Bool
has_static_source c = is_static c.source

abbrev pub has_on_demand_static_source : Conf → Bool
has_on_demand_static_source c = has_static_source c && c.source_on_demand

abbrev pub has_on_demand_publisher : Conf → Bool
has_on_demand_publisher c = c.run_on_demand

-- The dynamic type of `pa.source`; a publisher by its identity.
pub data Source : Type 0 where
  source_redirect static_source_handler : Source
  publisher_source : ℕ → Source

pub data OnDemandState : Type 0 where
  initial waiting_ready ready closing : OnDemandState

-- The state and the two timers of an on-demand source: whether each will fire.
pub record OnDemand : Type 0 where
  pub state : OnDemandState
  pub ready_timer : Bool
  pub close_timer : Bool

-- Why a request fails.
pub data Reason : Type 0 where
  timed_out terminated no_one_publishing not_a_publisher_path already_publishing : Reason
  not_assigned transcoder_failed stream_failed maximum_reached : Reason

-- What is sent to `req.Res`. `closed` is the channel closed without a value.
pub data Answer : Type 0 where
  to_redirect to_fallback to_path to_data closed : Answer
  to_stream : Option ℕ → Answer
  failed : Reason → Answer

-- What the path's goroutine does to the others.
pub data Event : Type 0 where
  answer : ℕ → Answer → Event
  path_ready path_not_ready path_closed : Event
  reader_closed publisher_closed : ℕ → Event
  source_started source_stopped source_reloaded : Event
  on_demand on_un_demand on_ready on_not_ready : Event
  recorder_started recorder_closed : Event
  stream_closed : ℕ → Event
  transcoder_started transcoder_stopped : Bool → Event

-- A run-time error of Go.
pub data Panic : Type 0 where
  index_out_of_range nil_live_stream nil_hook nil_source wrong_source : Panic

-- `live_stream` is GlobalLiveStreamInstance[pa.name]; `readers` is a map's key set; a reader's request
-- on hold stands with its author. `events` has the newest first.
pub record PathState : Type 0 where
  pub conf : Conf
  pub name : List ℕ
  pub source : Option Source
  pub stream : Option ℕ
  pub recorder : Bool
  pub on_un_demand_hook : Bool
  pub on_not_ready_hook : Bool
  pub readers : List ℕ
  pub describe_requests_on_hold : List ℕ
  pub reader_add_requests_on_hold : List (ℕ × ℕ)
  pub static_source : OnDemand
  pub publisher : OnDemand
  pub live_stream : Option LiveStream
  pub events : List Event

-- What the calls out of the path come to: the HTTP calls of the transcoder, and `stream.New`.
pub record Outcome : Type 0 where
  pub starts_transcoder : Bool
  pub stops_transcoder : Bool
  pub new_stream : Option ℕ

abbrev pub emit : Event → PathState → PathState
emit e s = record s { events = e ∷ s.events }
