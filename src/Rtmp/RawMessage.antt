-- ===== src/Rtmp/RawMessage.antt =====
-- protocols/rtmp/rawmessage: the messages above the chunks (message.go), and what the reader
-- (reader.go) and the writer (writer.go) share.
pub mod Reader
pub mod Writer
pub mod Steps
pub mod Fragments
pub mod Sync
pub mod RoundTrip
pub mod Exchange
pub mod StaleDelta
pub mod Bounds
mod Tests
use go_live_vod.Prelude.{
  ℕ, ◌*◌, List, Option, none, some, Bool, true, false, not, ◌==◌, if◌then◌else◌,
}

-- `Timestamp` is a time.Duration: nanoseconds. Negative durations are not modelled.
pub record Message : Type 0 where
  pub chunk_stream_id : ℕ
  pub timestamp : ℕ
  pub type : ℕ
  pub message_stream_id : ℕ
  pub body : List ℕ

abbrev pub millisecond : ℕ
millisecond = 1000000

-- `maxBodySize`
abbrev pub max_body_size : ℕ
max_body_size = 10 * 1024 * 1024

-- A Go map from chunk stream IDs.
abbrev pub Streams : Type 0 → Type 0
Streams A = ℕ → Option A

abbrev pub store : {A : Type 0} → ℕ → A → Streams A → Streams A
store k a m j = if k == j then some a else m j

-- `v, ok := m[k]; if !ok { v = fresh }`
abbrev pub get_or_new : {A : Type 0} → ℕ → A → Streams A → A
get_or_new k fresh m = elim (m k) [ none ↦ fresh | some a ↦ a ]
