-- ===== src/Rtmp/Message/Dispatch.antt =====
-- protocols/rtmp/message: allocateMessage of reader.go with the message's unmarshal, and marshal.
use go_live_vod.Prelude.{ℕ, List, bit_and, bit_or, get_or, if◌then◌else◌, length, ltb, not, ◌==◌}
use go_live_vod.Prelude.Result.{Result, ok, err, ◌>>=◌}
use go_live_vod.Rtmp.RawMessage.{Message as Raw}
use go_live_vod.Rtmp.Message.{
  RtmpMessage, MessageError, Floats, acknowledge, audio, command_amf0, data_amf0, extended_message,
  invalid_message_type, invalid_user_control_type, not_enough_bytes, ping_request, ping_response,
  set_buffer_length, set_chunk_size, set_peer_bandwidth, set_window_ack_size, stream_begin,
  stream_dry, stream_eof, stream_is_recorded, video, audio_ex_coded_frames, audio_ex_sequence_end,
  unsupported_audio_extended_type, unsupported_video_extended_type, video_ex_coded_frames,
  video_ex_frames_x, video_ex_sequence_end,
}
use go_live_vod.Rtmp.Message.Control.{
  marshal_acknowledge, marshal_set_buffer_length, marshal_set_chunk_size,
  marshal_set_peer_bandwidth, marshal_set_window_ack_size, marshal_user_control,
  unmarshal_acknowledge, unmarshal_set_buffer_length, unmarshal_set_chunk_size,
  unmarshal_set_peer_bandwidth, unmarshal_set_window_ack_size, unmarshal_user_control,
}
use go_live_vod.Rtmp.Message.Media.{marshal_video, marshal_audio, unmarshal_audio, unmarshal_video}
use go_live_vod.Rtmp.Message.Amf.{
  marshal_data_amf0, marshal_command_amf0, unmarshal_command_amf0, unmarshal_data_amf0,
}
use go_live_vod.Prelude.Bits.{shl, shr}
use go_live_vod.Rtmp.Message.Extended.{
  unmarshal_video_ex_frames_x, marshal_video_ex_frames_x, marshal_video_ex_coded_frames,
  unmarshal_video_ex_coded_frames, marshal_video_ex_sequence_end, unmarshal_video_ex_sequence_end,
  marshal_audio_ex_coded_frames, unmarshal_audio_ex_coded_frames, unmarshal_audio_ex_sequence_end,
  marshal_audio_ex_sequence_end,
}

-- The types that `allocateMessage` allocates.
pub data Allocated : Type 0 where
  is_set_chunk_size is_acknowledge is_set_window_ack_size is_set_peer_bandwidth : Allocated
  is_stream_begin is_stream_eof is_stream_dry is_set_buffer_length is_stream_is_recorded : Allocated
  is_ping_request is_ping_response is_command_amf0 is_data_amf0 is_audio is_video : Allocated
  is_audio_ex_sequence_start is_audio_ex_sequence_end is_audio_ex_multichannel_config : Allocated
  is_audio_ex_coded_frames is_audio_ex_multitrack : Allocated
  is_video_ex_sequence_start is_video_ex_sequence_end is_video_ex_coded_frames : Allocated
  is_video_ex_frames_x is_video_ex_metadata is_video_ex_multitrack : Allocated

unfoldable pub allocate_user_control : List ℕ → Result MessageError Allocated
allocate_user_control body =
    let t = bit_or (shl (get_or body 0 0) 8) (get_or body 1 0) in
    if ltb (length body) 2
    then err not_enough_bytes
    else if t == 0
    then ok is_stream_begin
    else if t == 1
    then ok is_stream_eof
    else if t == 2
    then ok is_stream_dry
    else if t == 3
    then ok is_set_buffer_length
    else if t == 4
    then ok is_stream_is_recorded
    else if t == 6
    then ok is_ping_request
    else if t == 7
    then ok is_ping_response
    else err (invalid_user_control_type t)

-- `switch extendedType`
unfoldable pub allocate_audio_ex : ℕ → Result MessageError Allocated
allocate_audio_ex t =
    if t == 0
    then ok is_audio_ex_sequence_start
    else if t == 2
    then ok is_audio_ex_sequence_end
    else if t == 4
    then ok is_audio_ex_multichannel_config
    else if t == 1
    then ok is_audio_ex_coded_frames
    else if t == 5
    then ok is_audio_ex_multitrack
    else err (unsupported_audio_extended_type t)

unfoldable pub allocate_video_ex : ℕ → Result MessageError Allocated
allocate_video_ex t =
    if t == 0
    then ok is_video_ex_sequence_start
    else if t == 2
    then ok is_video_ex_sequence_end
    else if t == 1
    then ok is_video_ex_coded_frames
    else if t == 3
    then ok is_video_ex_frames_x
    else if t == 4
    then ok is_video_ex_metadata
    else if t == 6
    then ok is_video_ex_multitrack
    else err (unsupported_video_extended_type t)

unfoldable pub allocate_audio : List ℕ → Result MessageError Allocated
allocate_audio body =
    if ltb (length body) 1
    then err not_enough_bytes
    else if shr (get_or body 0 0) 4 == 9
    then allocate_audio_ex (bit_and (get_or body 0 0) 0x0f)
    else ok is_audio

unfoldable pub allocate_video : List ℕ → Result MessageError Allocated
allocate_video body =
    if ltb (length body) 1
    then err not_enough_bytes
    else if not (bit_and (get_or body 0 0) 0x80 == 0)
    then allocate_video_ex (bit_and (get_or body 0 0) 0x0f)
    else ok is_video

unfoldable pub allocate_message : Raw → Result MessageError Allocated
allocate_message raw =
    if raw.type == 1
    then ok is_set_chunk_size
    else if raw.type == 3
    then ok is_acknowledge
    else if raw.type == 5
    then ok is_set_window_ack_size
    else if raw.type == 6
    then ok is_set_peer_bandwidth
    else if raw.type == 4
    then allocate_user_control raw.body
    else if raw.type == 20
    then ok is_command_amf0
    else if raw.type == 18
    then ok is_data_amf0
    else if raw.type == 8
    then allocate_audio raw.body
    else if raw.type == 9
    then allocate_video raw.body
    else err (invalid_message_type raw.type)

-- `msg.unmarshal(raw)`, save that of the extended messages that are left out, in place of which
-- stands an error of its own.
unfoldable pub unmarshal_allocated : Floats → Allocated → Raw → Result MessageError RtmpMessage
unmarshal_allocated fl is_set_chunk_size raw = unmarshal_set_chunk_size raw
unmarshal_allocated fl is_acknowledge raw = unmarshal_acknowledge raw
unmarshal_allocated fl is_set_window_ack_size raw = unmarshal_set_window_ack_size raw
unmarshal_allocated fl is_set_peer_bandwidth raw = unmarshal_set_peer_bandwidth raw
unmarshal_allocated fl is_stream_begin raw = unmarshal_user_control stream_begin raw
unmarshal_allocated fl is_stream_eof raw = unmarshal_user_control stream_eof raw
unmarshal_allocated fl is_stream_dry raw = unmarshal_user_control stream_dry raw
unmarshal_allocated fl is_set_buffer_length raw = unmarshal_set_buffer_length raw
unmarshal_allocated fl is_stream_is_recorded raw = unmarshal_user_control stream_is_recorded raw
unmarshal_allocated fl is_ping_request raw = unmarshal_user_control ping_request raw
unmarshal_allocated fl is_ping_response raw = unmarshal_user_control ping_response raw
unmarshal_allocated fl is_command_amf0 raw = do
  m ← unmarshal_command_amf0 fl raw
  ok (command_amf0 m)
unmarshal_allocated fl is_data_amf0 raw = do m ← unmarshal_data_amf0 raw; ok (data_amf0 m)
unmarshal_allocated fl is_audio raw = do m ← unmarshal_audio raw; ok (audio m)
unmarshal_allocated fl is_video raw = do m ← unmarshal_video raw; ok (video m)
unmarshal_allocated fl is_audio_ex_sequence_end raw = do
  m ← unmarshal_audio_ex_sequence_end raw
  ok (audio_ex_sequence_end m)
unmarshal_allocated fl is_audio_ex_coded_frames raw = do
  m ← unmarshal_audio_ex_coded_frames raw
  ok (audio_ex_coded_frames m)
unmarshal_allocated fl is_video_ex_sequence_end raw = do
  m ← unmarshal_video_ex_sequence_end raw
  ok (video_ex_sequence_end m)
unmarshal_allocated fl is_video_ex_coded_frames raw = do
  m ← unmarshal_video_ex_coded_frames raw
  ok (video_ex_coded_frames m)
unmarshal_allocated fl is_video_ex_frames_x raw = do
  m ← unmarshal_video_ex_frames_x raw
  ok (video_ex_frames_x m)
unmarshal_allocated fl is_audio_ex_sequence_start raw = err extended_message
unmarshal_allocated fl is_audio_ex_multichannel_config raw = err extended_message
unmarshal_allocated fl is_audio_ex_multitrack raw = err extended_message
unmarshal_allocated fl is_video_ex_sequence_start raw = err extended_message
unmarshal_allocated fl is_video_ex_metadata raw = err extended_message
unmarshal_allocated fl is_video_ex_multitrack raw = err extended_message

-- What `Reader.Read` makes of a raw message.
unfoldable pub unmarshal_message : Floats → Raw → Result MessageError RtmpMessage
unmarshal_message fl raw = do a ← allocate_message raw; unmarshal_allocated fl a raw

-- `msg.marshal()`
unfoldable pub marshal_message : Floats → RtmpMessage → Result MessageError Raw
marshal_message fl (set_chunk_size v) = ok (marshal_set_chunk_size v)
marshal_message fl (acknowledge v) = ok (marshal_acknowledge v)
marshal_message fl (set_window_ack_size v) = ok (marshal_set_window_ack_size v)
marshal_message fl (set_peer_bandwidth v t) = ok (marshal_set_peer_bandwidth v t)
marshal_message fl (stream_begin v) = ok (marshal_user_control 0 v)
marshal_message fl (stream_eof v) = ok (marshal_user_control 1 v)
marshal_message fl (stream_dry v) = ok (marshal_user_control 2 v)
marshal_message fl (stream_is_recorded v) = ok (marshal_user_control 4 v)
marshal_message fl (ping_request v) = ok (marshal_user_control 6 v)
marshal_message fl (ping_response v) = ok (marshal_user_control 7 v)
marshal_message fl (set_buffer_length id v) = ok (marshal_set_buffer_length id v)
marshal_message fl (command_amf0 m) = marshal_command_amf0 fl m
marshal_message fl (data_amf0 m) = marshal_data_amf0 m
marshal_message fl (audio m) = ok (marshal_audio m)
marshal_message fl (video m) = ok (marshal_video m)
marshal_message fl (audio_ex_sequence_end m) = ok (marshal_audio_ex_sequence_end m)
marshal_message fl (audio_ex_coded_frames m) = ok (marshal_audio_ex_coded_frames m)
marshal_message fl (video_ex_sequence_end m) = ok (marshal_video_ex_sequence_end m)
marshal_message fl (video_ex_coded_frames m) = ok (marshal_video_ex_coded_frames m)
marshal_message fl (video_ex_frames_x m) = ok (marshal_video_ex_frames_x m)
