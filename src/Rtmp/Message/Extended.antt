-- ===== src/Rtmp/Message/Extended.antt =====
-- protocols/rtmp/message: the extended messages of msg_audio_ex_sequence_end.go,
-- msg_audio_ex_coded_frames.go, msg_video_ex_sequence_end.go, msg_video_ex_coded_frames.go and
-- msg_video_ex_frames_x.go, and the codec identifiers of message.go.
use go_live_vod.Prelude.{
  ℕ, Bool, List, bit_or, drop, get_or, if◌then◌else◌, length, ltb, not, ◌*◌, ◌++◌, ◌+◌, ◌/◌, ◌==◌,
  ◌||◌, ◌∷◌,
}
use go_live_vod.Rtmp.Message.{
  ExFrames, VideoExCodedFrames, ExSequenceEnd, MessageError, not_enough_bytes, unsupported_four_cc,
}
use go_live_vod.Rtmp.RawMessage.{millisecond, Message as Raw}
use go_live_vod.Prelude.Bits.{shl, shr, u32, u8}
use go_live_vod.Rtmp.Message.Control.{u32_bytes, u32_at}
use go_live_vod.Rtmp.Amf0.Marshal.{zeros}
use go_live_vod.Prelude.Result.{ok, err, Result}
use go_live_vod.Rtmp.Message.Media.{copy}
use go_live_vod.Rtmp.Stream.{be24}

-- FourCCAV1, FourCCVP9, FourCCHEVC and FourCCAVC.
abbrev pub four_cc_av1 : ℕ
four_cc_av1 = 0x61763031

abbrev pub four_cc_vp9 : ℕ
four_cc_vp9 = 0x76703039

abbrev pub four_cc_hevc : ℕ
four_cc_hevc = 0x68766331

abbrev pub four_cc_avc : ℕ
four_cc_avc = 0x61766331

-- FourCCOpus, FourCCAC3, FourCCMP4A and FourCCMP3.
abbrev pub four_cc_opus : ℕ
four_cc_opus = 0x4f707573

abbrev pub four_cc_ac3 : ℕ
four_cc_ac3 = 0x61632d33

abbrev pub four_cc_mp4a : ℕ
four_cc_mp4a = 0x6d703461

abbrev pub four_cc_mp3 : ℕ
four_cc_mp3 = 0x2e6d7033

abbrev pub is_audio_four_cc : ℕ → Bool
is_audio_four_cc c =
    c == four_cc_opus || (c == four_cc_ac3 || (c == four_cc_mp4a || c == four_cc_mp3))

abbrev pub is_video_four_cc : ℕ → Bool
is_video_four_cc c =
    c == four_cc_av1 || (c == four_cc_vp9 || (c == four_cc_hevc || c == four_cc_avc))

abbrev sequence_end_of : Raw → ExSequenceEnd
sequence_end_of raw = record {
  chunk_stream_id = raw.chunk_stream_id;
  message_stream_id = raw.message_stream_id;
  four_cc = u32_at 1 raw.body;
}

abbrev frames_of : Raw → ExFrames
frames_of raw = record {
  chunk_stream_id = raw.chunk_stream_id;
  dts = raw.timestamp;
  message_stream_id = raw.message_stream_id;
  four_cc = u32_at 1 raw.body;
  payload = drop 5 raw.body;
}

abbrev coded_frames_of : Raw → ℕ → List ℕ → VideoExCodedFrames
coded_frames_of raw pts_delta payload = record {
  chunk_stream_id = raw.chunk_stream_id;
  dts = raw.timestamp;
  message_stream_id = raw.message_stream_id;
  four_cc = u32_at 1 raw.body;
  pts_delta = pts_delta;
  payload = payload;
}

unfoldable pub unmarshal_audio_ex_sequence_end : Raw → Result MessageError ExSequenceEnd
unmarshal_audio_ex_sequence_end raw =
    if not (length raw.body == 5)
    then err not_enough_bytes
    else if not (is_audio_four_cc (u32_at 1 raw.body))
    then err (unsupported_four_cc (u32_at 1 raw.body))
    else ok (sequence_end_of raw)

unfoldable pub unmarshal_video_ex_sequence_end : Raw → Result MessageError ExSequenceEnd
unmarshal_video_ex_sequence_end raw =
    if not (length raw.body == 5)
    then err not_enough_bytes
    else if not (is_video_four_cc (u32_at 1 raw.body))
    then err (unsupported_four_cc (u32_at 1 raw.body))
    else ok (sequence_end_of raw)

unfoldable pub unmarshal_audio_ex_coded_frames : Raw → Result MessageError ExFrames
unmarshal_audio_ex_coded_frames raw =
    if ltb (length raw.body) 5
    then err not_enough_bytes
    else if not (is_audio_four_cc (u32_at 1 raw.body))
    then err (unsupported_four_cc (u32_at 1 raw.body))
    else ok (frames_of raw)

unfoldable pub unmarshal_video_ex_frames_x : Raw → Result MessageError ExFrames
unmarshal_video_ex_frames_x raw =
    if ltb (length raw.body) 6
    then err not_enough_bytes
    else if not (is_video_four_cc (u32_at 1 raw.body))
    then err (unsupported_four_cc (u32_at 1 raw.body))
    else ok (frames_of raw)

unfoldable pub unmarshal_video_ex_coded_frames : Raw → Result MessageError VideoExCodedFrames
unmarshal_video_ex_coded_frames raw =
    let c = u32_at 1 raw.body in
    let b = raw.body in
    if ltb (length b) 5
    then err not_enough_bytes
    else if c == four_cc_avc || c == four_cc_hevc
    then (if ltb (length b) 8
        then err not_enough_bytes
        else ok (
            coded_frames_of raw (be24 (get_or b 5 0) (get_or b 6 0) (get_or b 7 0) * millisecond)
              (drop 8 b)))
    else if c == four_cc_av1 || c == four_cc_vp9
    then ok (coded_frames_of raw 0 (drop 5 b))
    else err (unsupported_four_cc c)

-- `(9 << 4) | byte(t)` and `0b10000000 | byte(t)`
abbrev pub audio_ex_byte : ℕ → ℕ
audio_ex_byte t = bit_or (shl 9 4) t

abbrev pub video_ex_byte : ℕ → ℕ
video_ex_byte t = bit_or 0x80 t

unfoldable pub marshal_audio_ex_sequence_end : ExSequenceEnd → Raw
marshal_audio_ex_sequence_end m = record {
  chunk_stream_id = m.chunk_stream_id;
  timestamp = 0;
  type = 8;
  message_stream_id = m.message_stream_id;
  body = audio_ex_byte 2 ∷ u32_bytes m.four_cc;
}

unfoldable pub marshal_video_ex_sequence_end : ExSequenceEnd → Raw
marshal_video_ex_sequence_end m = record {
  chunk_stream_id = m.chunk_stream_id;
  timestamp = 0;
  type = 9;
  message_stream_id = m.message_stream_id;
  body = video_ex_byte 2 ∷ u32_bytes m.four_cc;
}

unfoldable pub marshal_audio_ex_coded_frames : ExFrames → Raw
marshal_audio_ex_coded_frames m = record {
  chunk_stream_id = m.chunk_stream_id;
  timestamp = m.dts;
  type = 8;
  message_stream_id = m.message_stream_id;
  body =
      audio_ex_byte 1
      ∷ (u32_bytes m.four_cc ++ copy (drop 5 (zeros (5 + length m.payload))) m.payload);
}

unfoldable pub marshal_video_ex_frames_x : ExFrames → Raw
marshal_video_ex_frames_x m = record {
  chunk_stream_id = m.chunk_stream_id;
  timestamp = m.dts;
  type = 9;
  message_stream_id = m.message_stream_id;
  body =
      video_ex_byte 3
      ∷ (u32_bytes m.four_cc ++ copy (drop 5 (zeros (5 + length m.payload))) m.payload);
}

unfoldable pub coded_frames_body_size : VideoExCodedFrames → ℕ
coded_frames_body_size m =
    if m.four_cc == four_cc_avc || m.four_cc == four_cc_hevc
    then 8 + length m.payload
    else 5 + length m.payload

unfoldable pub marshal_video_ex_coded_frames : VideoExCodedFrames → Raw
marshal_video_ex_coded_frames m =
    let tmp = u32 (m.pts_delta / millisecond) in
    let rest = drop 5 (zeros (coded_frames_body_size m)) in
    record {
      chunk_stream_id = m.chunk_stream_id;
      timestamp = m.dts;
      type = 9;
      message_stream_id = m.message_stream_id;
      body =
          video_ex_byte 1
          ∷ (u32_bytes m.four_cc
              ++ (if m.four_cc == four_cc_hevc
                  then u8 (shr tmp 16) ∷ u8 (shr tmp 8) ∷ u8 tmp ∷ copy (drop 3 rest) m.payload
                  else copy rest m.payload));
    }
