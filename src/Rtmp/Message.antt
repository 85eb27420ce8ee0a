-- ===== src/Rtmp/Message.antt =====
-- mediamtx/internal/protocols/rtmp/message: the messages (message.go, msg_*.go) and what fails. Of the
-- extended messages those of coded frames and sequence ends are here; the others, which other
-- libraries' codecs fill, are left out.
pub mod Control
pub mod Media
pub mod Extended
pub mod Amf
pub mod Dispatch
pub mod Flags
pub mod Carried
pub mod AudioRoundTrip
pub mod VideoRoundTrip
pub mod ExtendedRoundTrip
pub mod AmfRoundTrip
pub mod RoundTrip
pub mod Connection
pub mod Tests
use go_live_vod.Prelude.{ℕ, Bool, List, ◌<◌, ◌≡◌, ◌^◌}
use go_live_vod.Rtmp.Amf0.{Values, AmfError}

-- `extended_message` is no error of the source: it stands for what the extended messages that
-- are left out are unmarshalled to.
pub data MessageError : Type 0 where
  unexpected_chunk_stream_id invalid_body_size not_enough_bytes extended_message : MessageError
  invalid_command_payload : MessageError
  invalid_message_type invalid_user_control_type : ℕ → MessageError
  unsupported_audio_codec unsupported_audio_type : ℕ → MessageError
  unsupported_video_codec unsupported_video_type : ℕ → MessageError
  unsupported_audio_extended_type unsupported_video_extended_type : ℕ → MessageError
  unsupported_four_cc : ℕ → MessageError
  amf0_error : AmfError → MessageError

-- A time.Duration is a number of nanoseconds, as in the raw message.
pub record Audio : Type 0 where
  pub chunk_stream_id : ℕ
  pub dts : ℕ
  pub message_stream_id : ℕ
  pub codec : ℕ
  pub rate : ℕ
  pub depth : ℕ
  pub is_stereo : Bool
  pub aac_type : ℕ
  pub payload : List ℕ

pub record Video : Type 0 where
  pub chunk_stream_id : ℕ
  pub dts : ℕ
  pub message_stream_id : ℕ
  pub codec : ℕ
  pub is_key_frame : Bool
  pub type : ℕ
  pub pts_delta : ℕ
  pub payload : List ℕ

-- AudioExSequenceEnd and VideoExSequenceEnd have the same fields, and so have AudioExCodedFrames and
-- VideoExFramesX.
pub record ExSequenceEnd : Type 0 where
  pub chunk_stream_id : ℕ
  pub message_stream_id : ℕ
  pub four_cc : ℕ

pub record ExFrames : Type 0 where
  pub chunk_stream_id : ℕ
  pub dts : ℕ
  pub message_stream_id : ℕ
  pub four_cc : ℕ
  pub payload : List ℕ

pub record VideoExCodedFrames : Type 0 where
  pub chunk_stream_id : ℕ
  pub dts : ℕ
  pub message_stream_id : ℕ
  pub four_cc : ℕ
  pub pts_delta : ℕ
  pub payload : List ℕ

pub record DataAmf0 : Type 0 where
  pub chunk_stream_id : ℕ
  pub message_stream_id : ℕ
  pub payload : Values

pub record CommandAmf0 : Type 0 where
  pub chunk_stream_id : ℕ
  pub message_stream_id : ℕ
  pub name : List ℕ
  pub command_id : ℕ
  pub arguments : Values

-- The types behind the interface `Message`.
pub data RtmpMessage : Type 0 where
  set_chunk_size acknowledge set_window_ack_size : ℕ → RtmpMessage
  set_peer_bandwidth : ℕ → ℕ → RtmpMessage
  stream_begin stream_eof stream_dry stream_is_recorded ping_request ping_response : ℕ → RtmpMessage
  set_buffer_length : ℕ → ℕ → RtmpMessage
  command_amf0 : CommandAmf0 → RtmpMessage
  data_amf0 : DataAmf0 → RtmpMessage
  audio : Audio → RtmpMessage
  video : Video → RtmpMessage
  audio_ex_sequence_end video_ex_sequence_end : ExSequenceEnd → RtmpMessage
  audio_ex_coded_frames video_ex_frames_x : ExFrames → RtmpMessage
  video_ex_coded_frames : VideoExCodedFrames → RtmpMessage

-- Go's conversions between int and float64, the latter as its bit pattern. A number below 2^53 is
-- converted exactly.
pub record Floats : Type 0 where
  pub of_int : ℕ → ℕ
  pub to_int : ℕ → ℕ
  pub of_int-bits : (n : ℕ) → of_int n < 2 ^ 64
  pub to_int-of_int : (n : ℕ) → n < 2 ^ 53 → to_int (of_int n) ≡ n

-- ControlChunkStreamID
abbrev pub control_chunk_stream_id : ℕ
control_chunk_stream_id = 2
