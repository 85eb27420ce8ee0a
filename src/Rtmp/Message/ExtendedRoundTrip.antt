-- ===== src/Rtmp/Message/ExtendedRoundTrip.antt =====
-- protocols/rtmp/message: writing an extended message and reading it.
use go_live_vod.Prelude.{
  ℕ, arith, false, inl, inr, length, ltb, suc, true, ◌*◌, ◌/◌, ◌<◌, ◌==◌, ◌^◌, ◌||◌, ◌≡◌, [], drop,
  get_or, length-append, refl, ◌++◌, ◌∷◌,
}
use go_live_vod.Rtmp.Stream.{be32_bytes, be32, be24, be24_bytes}
use go_live_vod.Rtmp.Message.Carried.{IsCarriedCodedFrames, IsVideoFourCc, IsAudioFourCc}
use go_live_vod.Rtmp.Message.{
  video_ex_coded_frames, VideoExCodedFrames, audio_ex_coded_frames, video_ex_sequence_end,
  video_ex_frames_x, audio_ex_sequence_end, ExFrames, ExSequenceEnd, Floats,
}
use go_live_vod.Rtmp.Message.Extended.{
  coded_frames_body_size, marshal_video_ex_coded_frames, marshal_video_ex_frames_x,
  marshal_audio_ex_sequence_end, marshal_video_ex_sequence_end, marshal_audio_ex_coded_frames,
  unmarshal_video_ex_coded_frames, unmarshal_audio_ex_coded_frames, unmarshal_audio_ex_sequence_end,
  unmarshal_video_ex_frames_x, unmarshal_video_ex_sequence_end, is_audio_four_cc, is_video_four_cc,
  four_cc_av1, four_cc_avc, four_cc_hevc, four_cc_vp9,
}
use go_live_vod.Prelude.Bits.{u32, shr, u8}
use go_live_vod.Rtmp.Message.Dispatch.{
  unmarshal_allocated, allocate_video_ex, allocate_audio_ex, allocate_video, allocate_audio,
  allocate_message, unmarshal_message, marshal_message,
}
use go_live_vod.Rtmp.Message.Control.{u32_at}
use go_live_vod.Prelude.Result.{ok}
use go_live_vod.Rtmp.Message.Flags.{copy_after_five, copy_after_eight, copy_before_three}
use go_live_vod.Rtmp.RawMessage.{millisecond, Message as Raw}

pub u32_at-bytes :
    (v : ℕ) → v < 2 ^ 32 → be32 (u8 (shr v 24)) (u8 (shr v 16)) (u8 (shr v 8)) (u8 v) ≡ v
u32_at-bytes v h = omega (arith, be32_bytes v)

audio_four_cc : (c : ℕ) → IsAudioFourCc c → (c < 2 ^ 32) × (is_audio_four_cc c ≡ true)
audio_four_cc c h = (omega arith, ground arith)

video_four_cc : (c : ℕ) → IsVideoFourCc c → (c < 2 ^ 32) × (is_video_four_cc c ≡ true)
video_four_cc c h = (omega arith, ground arith)

-- What is read of coded frames that are sent without their delta.
abbrev pub shifted : VideoExCodedFrames → VideoExCodedFrames
shifted m =
    let sent = m.payload ++ (0 ∷ 0 ∷ 0 ∷ []) in
    record {
      chunk_stream_id = m.chunk_stream_id;
      dts = m.dts;
      message_stream_id = m.message_stream_id;
      four_cc = m.four_cc;
      pts_delta = be24 (get_or sent 0 0) (get_or sent 1 0) (get_or sent 2 0) * millisecond;
      payload = drop 3 sent;
    }

module _ (fl : Floats) where
  pub unmarshal_audio_ex_sequence_end-marshal :
      (m : ExSequenceEnd)
      → IsAudioFourCc m.four_cc
      → unmarshal_message fl (marshal_audio_ex_sequence_end m) ≡ ok (audio_ex_sequence_end m)
  unfolding unmarshal_message allocate_message allocate_audio allocate_audio_ex unmarshal_allocated
      unmarshal_audio_ex_sequence_end marshal_audio_ex_sequence_end u32_at
  unmarshal_audio_ex_sequence_end-marshal m h =
      let c = audio_four_cc m.four_cc h in rw (u32_at-bytes m.four_cc c.0, c.1)

  pub unmarshal_video_ex_sequence_end-marshal :
      (m : ExSequenceEnd)
      → IsVideoFourCc m.four_cc
      → unmarshal_message fl (marshal_video_ex_sequence_end m) ≡ ok (video_ex_sequence_end m)
  unfolding unmarshal_message allocate_message allocate_video allocate_video_ex unmarshal_allocated
      unmarshal_video_ex_sequence_end marshal_video_ex_sequence_end u32_at
  unmarshal_video_ex_sequence_end-marshal m h =
      let c = video_four_cc m.four_cc h in rw (u32_at-bytes m.four_cc c.0, c.1)

  pub unmarshal_audio_ex_coded_frames-marshal :
      (m : ExFrames)
      → IsAudioFourCc m.four_cc
      → unmarshal_message fl (marshal_audio_ex_coded_frames m) ≡ ok (audio_ex_coded_frames m)
  unfolding unmarshal_message allocate_message allocate_audio allocate_audio_ex unmarshal_allocated
      unmarshal_audio_ex_coded_frames marshal_audio_ex_coded_frames u32_at
  unmarshal_audio_ex_coded_frames-marshal m h =
      let c = audio_four_cc m.four_cc h in
      let some : ltb (suc (suc (suc (suc (suc (length m.payload)))))) 1 ≡ false = ground arith in
      let size : ltb (suc (suc (suc (suc (suc (length m.payload)))))) 5 ≡ false = ground arith in
      rw (copy_after_five m.payload, some, size, u32_at-bytes m.four_cc c.0, c.1)

  pub unmarshal_video_ex_frames_x-marshal :
      (m : ExFrames)
      → IsVideoFourCc m.four_cc
      → 0 < length m.payload
      → unmarshal_message fl (marshal_video_ex_frames_x m) ≡ ok (video_ex_frames_x m)
  unfolding unmarshal_message allocate_message allocate_video allocate_video_ex unmarshal_allocated
      unmarshal_video_ex_frames_x marshal_video_ex_frames_x u32_at
  unmarshal_video_ex_frames_x-marshal m h some_payload =
      let c = video_four_cc m.four_cc h in
      let some : ltb (suc (suc (suc (suc (suc (length m.payload)))))) 1 ≡ false = ground arith in
      let size : ltb (suc (suc (suc (suc (suc (length m.payload)))))) 6 ≡ false = ground arith in
      rw (copy_after_five m.payload, some, size, u32_at-bytes m.four_cc c.0, c.1)

  pub unmarshal_video_ex_coded_frames-marshal :
      (m : VideoExCodedFrames)
      → IsCarriedCodedFrames m
      → unmarshal_message fl (marshal_video_ex_coded_frames m) ≡ ok (video_ex_coded_frames m)
  unfolding unmarshal_message allocate_message allocate_video allocate_video_ex unmarshal_allocated
      unmarshal_video_ex_coded_frames marshal_video_ex_coded_frames u32_at IsCarriedCodedFrames
      coded_frames_body_size
  unmarshal_video_ex_coded_frames-marshal m (inl (codec, k, fits, delta)) =
      let tmp = u32 (m.pts_delta / millisecond) in
      let n = suc (suc (suc (suc (suc (suc (suc (suc (length m.payload)))))))) in
      let pts : be24 (u8 (shr tmp 16)) (u8 (shr tmp 8)) (u8 tmp) * millisecond ≡ m.pts_delta =
        omega (arith, be24_bytes tmp) in
      let is_hevc : (m.four_cc == four_cc_hevc) ≡ true = ground arith in
      let has_delta : (m.four_cc == four_cc_avc || m.four_cc == four_cc_hevc) ≡ true =
        ground arith in
      let e1 : ltb n 1 ≡ false = ground arith in
      let e5 : ltb n 5 ≡ false = ground arith in
      let e8 : ltb n 8 ≡ false = ground arith in
      rw (
        has_delta,
        is_hevc,
        copy_after_eight m.payload,
        e1,
        e5,
        e8,
        u32_at-bytes m.four_cc (omega arith),
        has_delta,
        pts,
      )
  unmarshal_video_ex_coded_frames-marshal m (inr (codec, delta)) =
      let n = suc (suc (suc (suc (suc (length m.payload))))) in
      let is_hevc : (m.four_cc == four_cc_hevc) ≡ false = ground arith in
      let has_delta : (m.four_cc == four_cc_avc || m.four_cc == four_cc_hevc) ≡ false =
        ground arith in
      let is_other : (m.four_cc == four_cc_av1 || m.four_cc == four_cc_vp9) ≡ true = ground arith in
      let e1 : ltb n 1 ≡ false = ground arith in
      let e5 : ltb n 5 ≡ false = ground arith in
      rw (
        has_delta,
        is_hevc,
        copy_after_five m.payload,
        e1,
        e5,
        u32_at-bytes m.four_cc (omega arith),
        has_delta,
        is_other,
        delta,
      )

  -- Coded frames of AVC are marshalled to a raw message from which other frames are read: the first
  -- three bytes of the payload, with three zero bytes after it, are the delta in milliseconds, and
  -- the others are the payload.
  pub misread_avc :
      (m : VideoExCodedFrames)
      → m.four_cc ≡ four_cc_avc
      → (raw : Raw) × (marshal_message fl (video_ex_coded_frames m) ≡ ok raw)
        × (unmarshal_message fl raw ≡ ok (video_ex_coded_frames (shifted m)))
  unfolding marshal_message unmarshal_message allocate_message allocate_video allocate_video_ex
      unmarshal_allocated unmarshal_video_ex_coded_frames marshal_video_ex_coded_frames u32_at
      coded_frames_body_size
  misread_avc m codec =
      let sent = m.payload ++ (0 ∷ 0 ∷ 0 ∷ []) in
      let n = suc (suc (suc (suc (suc (length sent))))) in
      let is_hevc : (m.four_cc == four_cc_hevc) ≡ false = ground arith in
      let has_delta : (m.four_cc == four_cc_avc || m.four_cc == four_cc_hevc) ≡ true =
        ground arith in
      let e1 : ltb n 1 ≡ false = ground arith in
      let e5 : ltb n 5 ≡ false = ground arith in
      let e8 : ltb n 8 ≡ false = ground (arith, length-append m.payload (0 ∷ 0 ∷ 0 ∷ [])) in
      (
        marshal_video_ex_coded_frames m,
        refl,
        rw (
          has_delta,
          is_hevc,
          copy_before_three m.payload,
          e1,
          e5,
          e8,
          u32_at-bytes m.four_cc (omega arith),
          has_delta,
        ),
      )
