-- ===== src/Rtmp/Message/RoundTrip.antt =====
-- protocols/rtmp/message: what is marshalled is unmarshalled again.
use go_live_vod.Rtmp.Message.Carried.{IsCarried}
use go_live_vod.Prelude.{refl, ◌≡◌}
use go_live_vod.Rtmp.Message.{
  stream_is_recorded, stream_dry, stream_eof, stream_begin, set_window_ack_size, acknowledge,
  set_chunk_size, video, audio, data_amf0, command_amf0, set_buffer_length, set_peer_bandwidth,
  Floats, RtmpMessage, ping_request, ping_response, audio_ex_coded_frames, audio_ex_sequence_end,
  video_ex_coded_frames, video_ex_frames_x, video_ex_sequence_end,
}
use go_live_vod.Rtmp.Message.Media.{marshal_audio, marshal_video}
use go_live_vod.Rtmp.Message.Dispatch.{
  unmarshal_allocated, allocate_user_control, allocate_message, unmarshal_message, marshal_message,
}
use go_live_vod.Rtmp.RawMessage.{Message as Raw}
use go_live_vod.Prelude.Result.{ok}
use go_live_vod.Rtmp.Message.Control.{
  marshal_user_control, unmarshal_user_control, u32_at, marshal_set_chunk_size,
  unmarshal_set_chunk_size, control, marshal_acknowledge, marshal_set_buffer_length,
  marshal_set_peer_bandwidth, marshal_set_window_ack_size, unmarshal_acknowledge,
  unmarshal_set_buffer_length, unmarshal_set_peer_bandwidth, unmarshal_set_window_ack_size,
}
use go_live_vod.Rtmp.Message.AmfRoundTrip.{data_read, command_read}
use go_live_vod.Rtmp.Message.AudioRoundTrip.{unmarshal_audio-marshal}
use go_live_vod.Rtmp.Message.VideoRoundTrip.{unmarshal_video-marshal}
use go_live_vod.Rtmp.Message.ExtendedRoundTrip.{
  unmarshal_video_ex_frames_x-marshal, unmarshal_video_ex_coded_frames-marshal,
  unmarshal_audio_ex_coded_frames-marshal, unmarshal_video_ex_sequence_end-marshal,
  unmarshal_audio_ex_sequence_end-marshal, u32_at-bytes,
}
use go_live_vod.Rtmp.Message.Extended.{
  marshal_video_ex_frames_x, marshal_video_ex_coded_frames, marshal_audio_ex_coded_frames,
  marshal_video_ex_sequence_end, marshal_audio_ex_sequence_end,
}

module _ (fl : Floats) where
  -- Of a message that its format carries whole (`IsCarried`), `marshal` makes a raw message, from
  -- which `allocateMessage` and `unmarshal` make the same message again.
  pub unmarshal-marshal :
      (m : RtmpMessage)
      → IsCarried m
      → (raw : Raw) × (marshal_message fl m ≡ ok raw) × (unmarshal_message fl raw ≡ ok m)
  unfolding IsCarried marshal_message unmarshal_message allocate_message allocate_user_control
      unmarshal_allocated control unmarshal_set_chunk_size marshal_set_chunk_size
      unmarshal_acknowledge marshal_acknowledge unmarshal_set_window_ack_size
      marshal_set_window_ack_size unmarshal_set_peer_bandwidth marshal_set_peer_bandwidth u32_at
      unmarshal_user_control marshal_user_control unmarshal_set_buffer_length
      marshal_set_buffer_length
  unmarshal-marshal (set_chunk_size v) h = (marshal_set_chunk_size v, refl, rw (u32_at-bytes v h))
  unmarshal-marshal (acknowledge v) h = (marshal_acknowledge v, refl, rw (u32_at-bytes v h))
  unmarshal-marshal (set_window_ack_size v) h =
      (marshal_set_window_ack_size v, refl, rw (u32_at-bytes v h))
  unmarshal-marshal (set_peer_bandwidth v t) h =
      (marshal_set_peer_bandwidth v t, refl, rw (u32_at-bytes v h))
  unmarshal-marshal (stream_begin v) h = (marshal_user_control 0 v, refl, rw (u32_at-bytes v h))
  unmarshal-marshal (stream_eof v) h = (marshal_user_control 1 v, refl, rw (u32_at-bytes v h))
  unmarshal-marshal (stream_dry v) h = (marshal_user_control 2 v, refl, rw (u32_at-bytes v h))
  unmarshal-marshal (stream_is_recorded v) h =
      (marshal_user_control 4 v, refl, rw (u32_at-bytes v h))
  unmarshal-marshal (ping_request v) h = (marshal_user_control 6 v, refl, rw (u32_at-bytes v h))
  unmarshal-marshal (ping_response v) h = (marshal_user_control 7 v, refl, rw (u32_at-bytes v h))
  unmarshal-marshal (set_buffer_length id v) (hid, hv) =
      (marshal_set_buffer_length id v, refl, rw (u32_at-bytes id hid, u32_at-bytes v hv))
  unmarshal-marshal (command_amf0 m) h = command_read fl m h
  unmarshal-marshal (data_amf0 m) h = data_read fl m h
  unmarshal-marshal (audio m) h = (marshal_audio m, refl, unmarshal_audio-marshal fl m h)
  unmarshal-marshal (video m) h = (marshal_video m, refl, unmarshal_video-marshal fl m h)
  unmarshal-marshal (audio_ex_sequence_end m) h =
      (marshal_audio_ex_sequence_end m, refl, unmarshal_audio_ex_sequence_end-marshal fl m h)
  unmarshal-marshal (video_ex_sequence_end m) h =
      (marshal_video_ex_sequence_end m, refl, unmarshal_video_ex_sequence_end-marshal fl m h)
  unmarshal-marshal (audio_ex_coded_frames m) h =
      (marshal_audio_ex_coded_frames m, refl, unmarshal_audio_ex_coded_frames-marshal fl m h)
  unmarshal-marshal (video_ex_coded_frames m) h =
      (marshal_video_ex_coded_frames m, refl, unmarshal_video_ex_coded_frames-marshal fl m h)
  unmarshal-marshal (video_ex_frames_x m) (h, some_payload) =
      (marshal_video_ex_frames_x m, refl, unmarshal_video_ex_frames_x-marshal fl m h some_payload)
