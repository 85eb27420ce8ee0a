-- ===== src/Rtmp/Message/Carried.antt =====
-- protocols/rtmp/message: the messages that their format carries whole.
use go_live_vod.Prelude.{ℕ, length, ◌*◌, ◌<◌, ◌^◌, ◌≡◌, ◌⊎◌}
use go_live_vod.Rtmp.Message.{
  stream_is_recorded, stream_dry, stream_eof, stream_begin, set_window_ack_size, acknowledge,
  set_chunk_size, video, audio, data_amf0, command_amf0, set_buffer_length, set_peer_bandwidth,
  Audio, Video, CommandAmf0, RtmpMessage, ping_request, ping_response, VideoExCodedFrames,
  audio_ex_coded_frames, audio_ex_sequence_end, video_ex_coded_frames, video_ex_frames_x,
  video_ex_sequence_end,
}
use go_live_vod.Rtmp.Message.Media.{mpeg1_audio, mpeg4_audio, h264}
use go_live_vod.Rtmp.Amf0.{count}
use go_live_vod.Rtmp.RawMessage.{millisecond}
use go_live_vod.Rtmp.Amf0.Bytes.{AllEncodable}
use go_live_vod.Rtmp.Message.Extended.{
  four_cc_mp3, four_cc_mp4a, four_cc_avc, four_cc_ac3, four_cc_vp9, four_cc_hevc, four_cc_opus,
  four_cc_av1,
}

-- Integers fit in their fields. Audio is MPEG-4 audio, or MPEG-1 audio with a payload; video is H264
-- with a whole number of milliseconds; a command has an argument and an id that a float64 holds.
unfoldable pub IsCarriedAudio : Audio → Type 0
IsCarriedAudio m =
    m.rate < 4
    × m.depth < 2
    × ((m.codec ≡ mpeg4_audio × (m.aac_type ≡ 0 ⊎ m.aac_type ≡ 1))
        ⊎ (m.codec ≡ mpeg1_audio × m.aac_type ≡ 0 × 0 < length m.payload))

unfoldable pub IsCarriedVideo : Video → Type 0
IsCarriedVideo m =
    m.codec ≡ h264 × m.type < 3 × (k : ℕ) × k < 2 ^ 24 × m.pts_delta ≡ k * millisecond

unfoldable pub IsCarriedCommand : CommandAmf0 → Type 0
IsCarriedCommand m =
    length m.name < 2 ^ 16
    × m.command_id < 2 ^ 53
    × 0 < count m.arguments
    × AllEncodable m.arguments

abbrev pub IsAudioFourCc : ℕ → Type 0
IsAudioFourCc c = c ≡ four_cc_opus ⊎ c ≡ four_cc_ac3 ⊎ c ≡ four_cc_mp4a ⊎ c ≡ four_cc_mp3

abbrev pub IsVideoFourCc : ℕ → Type 0
IsVideoFourCc c = c ≡ four_cc_av1 ⊎ c ≡ four_cc_vp9 ⊎ c ≡ four_cc_hevc ⊎ c ≡ four_cc_avc

-- Coded frames of HEVC with a whole number of milliseconds, or of AV1 or VP9 without a delta. AVC,
-- whose delta `marshal` does not write, is not among them.
unfoldable pub IsCarriedCodedFrames : VideoExCodedFrames → Type 0
IsCarriedCodedFrames m =
    (m.four_cc ≡ four_cc_hevc × (k : ℕ) × k < 2 ^ 24 × m.pts_delta ≡ k * millisecond)
    ⊎ ((m.four_cc ≡ four_cc_av1 ⊎ m.four_cc ≡ four_cc_vp9) × m.pts_delta ≡ 0)

-- An extended message has a codec that it may have, and FramesX a payload.
unfoldable pub IsCarried : RtmpMessage → Type 0
IsCarried (set_peer_bandwidth v t) = v < 2 ^ 32
IsCarried (set_buffer_length id v) = id < 2 ^ 32 × v < 2 ^ 32
IsCarried (command_amf0 m) = IsCarriedCommand m
IsCarried (data_amf0 m) = AllEncodable m.payload
IsCarried (audio m) = IsCarriedAudio m
IsCarried (video m) = IsCarriedVideo m
IsCarried (set_chunk_size v) = v < 2 ^ 32
IsCarried (acknowledge v) = v < 2 ^ 32
IsCarried (set_window_ack_size v) = v < 2 ^ 32
IsCarried (stream_begin v) = v < 2 ^ 32
IsCarried (stream_eof v) = v < 2 ^ 32
IsCarried (stream_dry v) = v < 2 ^ 32
IsCarried (stream_is_recorded v) = v < 2 ^ 32
IsCarried (ping_request v) = v < 2 ^ 32
IsCarried (ping_response v) = v < 2 ^ 32
IsCarried (audio_ex_sequence_end m) = IsAudioFourCc m.four_cc
IsCarried (video_ex_sequence_end m) = IsVideoFourCc m.four_cc
IsCarried (audio_ex_coded_frames m) = IsAudioFourCc m.four_cc
IsCarried (video_ex_frames_x m) = IsVideoFourCc m.four_cc × 0 < length m.payload
IsCarried (video_ex_coded_frames m) = IsCarriedCodedFrames m
