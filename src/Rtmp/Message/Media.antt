-- ===== src/Rtmp/Message/Media.antt =====
-- protocols/rtmp/message/msg_audio.go and msg_video.go.
use go_live_vod.Prelude.{
  ℕ, ◌+◌, ◌*◌, ◌/◌, bit_and, bit_or, Bool, not, List, [], ◌∷◌, ◌==◌, ltb, if◌then◌else◌, length,
  drop, get_or, ◌||◌,
}
use go_live_vod.Prelude.Bits.{shl, shr, u8, u32}
use go_live_vod.Prelude.Result.{Result, ok, err}
use go_live_vod.Rtmp.Stream.{be24}
use go_live_vod.Rtmp.RawMessage.{millisecond, Message as Raw}
use go_live_vod.Rtmp.Amf0.Marshal.{zeros}
use go_live_vod.Rtmp.Message.{
  MessageError, Audio, Video, invalid_body_size, unsupported_audio_codec, unsupported_audio_type,
  unsupported_video_codec, unsupported_video_type,
}

-- `copy(dst, src)`
unfoldable pub copy : List ℕ → List ℕ → List ℕ
copy [] src = []
copy (d ∷ dst) [] = d ∷ dst
copy (d ∷ dst) (s ∷ src) = s ∷ copy dst src

-- CodecMPEG1Audio, CodecLPCM, CodecPCMA, CodecPCMU and CodecMPEG4Audio.
abbrev pub mpeg1_audio : ℕ
mpeg1_audio = 2

abbrev pub lpcm : ℕ
lpcm = 3

abbrev pub pcma : ℕ
pcma = 7

abbrev pub pcmu : ℕ
pcmu = 8

abbrev pub mpeg4_audio : ℕ
mpeg4_audio = 10

abbrev pub is_audio_codec : ℕ → Bool
is_audio_codec c = c == mpeg4_audio || (c == mpeg1_audio || (c == pcma || (c == pcmu || c == lpcm)))

-- What the first byte of the body gives: rate, depth and whether it is stereo.
unfoldable pub audio_rate : ℕ → ℕ
audio_rate b = bit_and (shr b 2) 0x03

unfoldable pub audio_depth : ℕ → ℕ
audio_depth b = bit_and (shr b 1) 0x01

unfoldable pub audio_is_stereo : ℕ → Bool
audio_is_stereo b = not (bit_and b 0x01 == 0)

abbrev pub audio_of : Raw → ℕ → List ℕ → Audio
audio_of raw aac_type payload =
    let b = get_or raw.body 0 0 in
    record {
      chunk_stream_id = raw.chunk_stream_id;
      dts = raw.timestamp;
      message_stream_id = raw.message_stream_id;
      codec = shr b 4;
      rate = audio_rate b;
      depth = audio_depth b;
      is_stereo = audio_is_stereo b;
      aac_type = aac_type;
      payload = payload;
    }

unfoldable pub unmarshal_audio : Raw → Result MessageError Audio
unmarshal_audio raw =
    let codec = shr (get_or raw.body 0 0) 4 in
    let aac_type = get_or raw.body 1 0 in
    if ltb (length raw.body) 2
    then err invalid_body_size
    else if not (is_audio_codec codec)
    then err (unsupported_audio_codec codec)
    else if codec == mpeg4_audio
    then (if not (aac_type == 0 || aac_type == 1)
        then err (unsupported_audio_type aac_type)
        else ok (audio_of raw aac_type (drop 2 raw.body)))
    else ok (audio_of raw 0 (drop 1 raw.body))

unfoldable pub audio_body_size : Audio → ℕ
audio_body_size m = if m.codec == mpeg1_audio then 1 + length m.payload else 2 + length m.payload

-- `m.Codec<<4 | m.Rate<<2 | m.Depth<<1`, and `|= 1` if it is stereo.
unfoldable pub audio_flags : ℕ → ℕ → ℕ → Bool → ℕ
audio_flags codec rate depth is_stereo =
    let b = bit_or (bit_or (u8 (shl codec 4)) (u8 (shl rate 2))) (u8 (shl depth 1)) in
    if is_stereo then bit_or b 1 else b

unfoldable pub marshal_audio : Audio → Raw
marshal_audio m =
    let flags = audio_flags m.codec m.rate m.depth m.is_stereo in
    let rest = drop 1 (zeros (audio_body_size m)) in
    record {
      chunk_stream_id = m.chunk_stream_id;
      timestamp = m.dts;
      type = 8;
      message_stream_id = m.message_stream_id;
      body =
          flags
          ∷ (if m.codec == mpeg4_audio
              then m.aac_type ∷ copy (drop 1 rest) m.payload
              else copy rest m.payload);
    }

-- CodecH264
abbrev pub h264 : ℕ
h264 = 7

unfoldable pub unmarshal_video : Raw → Result MessageError Video
unmarshal_video raw =
    let b = get_or raw.body 0 0 in
    let codec = bit_and b 0x0f in
    let type = get_or raw.body 1 0 in
    if ltb (length raw.body) 5
    then err invalid_body_size
    else if not (codec == h264)
    then err (unsupported_video_codec codec)
    else if not (type == 0 || (type == 1 || type == 2))
    then err (unsupported_video_type type)
    else ok (record {
      chunk_stream_id = raw.chunk_stream_id;
      dts = raw.timestamp;
      message_stream_id = raw.message_stream_id;
      codec = codec;
      is_key_frame = shr b 4 == 1;
      type = type;
      pts_delta =
          be24 (get_or raw.body 2 0) (get_or raw.body 3 0) (get_or raw.body 4 0) * millisecond;
      payload = drop 5 raw.body;
    })

unfoldable pub marshal_video : Video → Raw
marshal_video m =
    let tmp = u32 (m.pts_delta / millisecond) in
    record {
      chunk_stream_id = m.chunk_stream_id;
      timestamp = m.dts;
      type = 9;
      message_stream_id = m.message_stream_id;
      body =
          bit_or (if m.is_key_frame then 16 else 32) m.codec
          ∷ m.type
          ∷ u8 (shr tmp 16)
          ∷ u8 (shr tmp 8)
          ∷ u8 tmp
          ∷ copy (drop 5 (zeros (5 + length m.payload))) m.payload;
    }
