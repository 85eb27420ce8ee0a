-- ===== src/Rtmp/Message/Control.antt =====
-- protocols/rtmp/message: msg_set_chunk_size.go, msg_acknowledge.go, msg_set_window_ack_size.go,
-- msg_set_peer_bandwidth.go and msg_user_control_*.go.
use go_live_vod.Prelude.{ℕ, ◌+◌, not, List, [], ◌∷◌, ◌++◌, ◌==◌, if◌then◌else◌, length, get_or}
use go_live_vod.Prelude.Bits.{shr, u8}
use go_live_vod.Prelude.Result.{Result, ok, err}
use go_live_vod.Rtmp.Stream.{be32}
use go_live_vod.Rtmp.RawMessage.{Message as Raw}
use go_live_vod.Rtmp.Message.{
  RtmpMessage, MessageError, acknowledge, control_chunk_stream_id, invalid_body_size,
  set_buffer_length, set_chunk_size, set_peer_bandwidth, set_window_ack_size,
  unexpected_chunk_stream_id,
}

-- `uint32(body[i])<<24 | uint32(body[i+1])<<16 | uint32(body[i+2])<<8 | uint32(body[i+3])`
unfoldable pub u32_at : ℕ → List ℕ → ℕ
u32_at i b = be32 (get_or b i 0) (get_or b (i + 1) 0) (get_or b (i + 2) 0) (get_or b (i + 3) 0)

-- `buf[i] = byte(v >> 24)` and the three bytes that follow.
abbrev pub u32_bytes : ℕ → List ℕ
u32_bytes v = u8 (shr v 24) ∷ u8 (shr v 16) ∷ u8 (shr v 8) ∷ u8 v ∷ []

-- `buf[0] = byte(t >> 8)`, `buf[1] = byte(t)`
abbrev pub u16_bytes : ℕ → List ℕ
u16_bytes t = u8 (shr t 8) ∷ u8 t ∷ []

-- The checks at the head of each control message's `unmarshal`, then `read` on the body.
unfoldable pub control : ℕ → (List ℕ → RtmpMessage) → Raw → Result MessageError RtmpMessage
control size read raw =
    if not (raw.chunk_stream_id == control_chunk_stream_id)
    then err unexpected_chunk_stream_id
    else if not (length raw.body == size)
    then err invalid_body_size
    else ok (read raw.body)

abbrev pub control_message : ℕ → List ℕ → Raw
control_message type body = record {
  chunk_stream_id = control_chunk_stream_id;
  timestamp = 0;
  type = type;
  message_stream_id = 0;
  body = body;
}

unfoldable pub unmarshal_set_chunk_size : Raw → Result MessageError RtmpMessage
unmarshal_set_chunk_size = control 4 (λ b. set_chunk_size (u32_at 0 b))

unfoldable pub marshal_set_chunk_size : ℕ → Raw
marshal_set_chunk_size v = control_message 1 (u32_bytes v)

unfoldable pub unmarshal_acknowledge : Raw → Result MessageError RtmpMessage
unmarshal_acknowledge = control 4 (λ b. acknowledge (u32_at 0 b))

unfoldable pub marshal_acknowledge : ℕ → Raw
marshal_acknowledge v = control_message 3 (u32_bytes v)

unfoldable pub unmarshal_set_window_ack_size : Raw → Result MessageError RtmpMessage
unmarshal_set_window_ack_size = control 4 (λ b. set_window_ack_size (u32_at 0 b))

unfoldable pub marshal_set_window_ack_size : ℕ → Raw
marshal_set_window_ack_size v = control_message 5 (u32_bytes v)

unfoldable pub unmarshal_set_peer_bandwidth : Raw → Result MessageError RtmpMessage
unmarshal_set_peer_bandwidth = control 5 (λ b. set_peer_bandwidth (u32_at 0 b) (get_or b 4 0))

unfoldable pub marshal_set_peer_bandwidth : ℕ → ℕ → Raw
marshal_set_peer_bandwidth v t = control_message 6 (u32_bytes v ++ (t ∷ []))

-- The user control messages with one value; `wrap` is the message's type.
unfoldable pub unmarshal_user_control : (ℕ → RtmpMessage) → Raw → Result MessageError RtmpMessage
unmarshal_user_control wrap = control 6 (λ b. wrap (u32_at 2 b))

unfoldable pub marshal_user_control : ℕ → ℕ → Raw
marshal_user_control type v = control_message 4 (u16_bytes type ++ u32_bytes v)

unfoldable pub unmarshal_set_buffer_length : Raw → Result MessageError RtmpMessage
unmarshal_set_buffer_length = control 10 (λ b. set_buffer_length (u32_at 2 b) (u32_at 6 b))

unfoldable pub marshal_set_buffer_length : ℕ → ℕ → Raw
marshal_set_buffer_length id v = control_message 4 (u16_bytes 3 ++ (u32_bytes id ++ u32_bytes v))
