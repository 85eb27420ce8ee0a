-- ===== src/Rtmp/Message/VideoRoundTrip.antt =====
-- protocols/rtmp/message/msg_video.go: writing a video message and reading it.
use go_live_vod.Rtmp.Message.Flags.{copy_after_five}
use go_live_vod.Prelude.{
  ℕ, arith, inl, inr, length, ◌*◌, ◌<◌, ◌^◌, ◌≡◌, false, ltb, suc, Bool, true, ◌/◌, ◌==◌, ◌||◌,
  Bool-cases, ap, subst, sym, ◌∙◌, drop, ◌+◌,
}
use go_live_vod.Rtmp.Message.{video, Floats, Video}
use go_live_vod.Rtmp.Message.Media.{h264, marshal_video, unmarshal_video, copy}
use go_live_vod.Rtmp.Stream.{be24, be24_bytes}
use go_live_vod.Rtmp.Message.Dispatch.{
  unmarshal_allocated, allocate_message, unmarshal_message, allocate_video,
}
use go_live_vod.Prelude.Bits.{shr, u8, u32}
use go_live_vod.Rtmp.RawMessage.{millisecond}
use go_live_vod.Prelude.Result.{ok, ◌>>=◌}
use go_live_vod.Rtmp.Amf0.Marshal.{zeros}
use go_live_vod.Rtmp.Message.Carried.{IsCarriedVideo}

abbrev with_video_codec : Video → ℕ → Bool → Video
with_video_codec m codec is_key_frame = record {
  chunk_stream_id = m.chunk_stream_id;
  dts = m.dts;
  message_stream_id = m.message_stream_id;
  codec = codec;
  is_key_frame = is_key_frame;
  type = m.type;
  pts_delta = m.pts_delta;
  payload = m.payload;
}

module _ (fl : Floats) where
  video_read :
      (m : Video) (key : Bool)
      → m.type < 3
      → (k : ℕ) → k < 2 ^ 24
      → m.pts_delta ≡ k * millisecond
      → unmarshal_video (marshal_video (with_video_codec m h264 key))
        ≡ ok (with_video_codec m h264 key)
  unfolding unmarshal_video marshal_video
  video_read m key type k fits delta =
      let tmp = u32 (m.pts_delta / millisecond) in
      let pts : be24 (u8 (shr tmp 16)) (u8 (shr tmp 8)) (u8 tmp) * millisecond ≡ m.pts_delta =
        omega (arith, be24_bytes tmp) in
      let known : (m.type == 0 || (m.type == 1 || m.type == 2)) ≡ true = ground arith in
      let size : ltb (suc (suc (suc (suc (suc (length m.payload)))))) 5 ≡ false = ground arith in
      elim (Bool-cases key) [
        | inl e ↦ rw (e, pts, known, copy_after_five m.payload, size)
        | inr e ↦ rw (e, pts, known, copy_after_five m.payload, size)
      ]

  video_dispatched :
      (m : Video)
      → m.codec ≡ h264
      → unmarshal_message fl (marshal_video m)
        ≡ (unmarshal_video (marshal_video m) >>= λ v. ok (video v))
  unfolding unmarshal_message allocate_message allocate_video unmarshal_allocated marshal_video
  video_dispatched m codec =
      let n = length (copy (drop 5 (zeros (5 + length m.payload))) m.payload) in
      let size : ltb (suc (suc (suc (suc (suc n))))) 1 ≡ false = ground arith in
      elim (Bool-cases m.is_key_frame) [
        | inl key ↦ rw (size, codec, key)
        | inr key ↦ rw (size, codec, key)
      ]

  pub unmarshal_video-marshal :
      (m : Video) → IsCarriedVideo m → unmarshal_message fl (marshal_video m) ≡ ok (video m)
  unfolding IsCarriedVideo
  unmarshal_video-marshal m (codec, type, k, fits, delta) =
      let read =
        subst
          (λ c.
            unmarshal_video (marshal_video (with_video_codec m c m.is_key_frame))
            ≡ ok (with_video_codec m c m.is_key_frame))
          (sym codec) (video_read m m.is_key_frame type k fits delta) in
      video_dispatched m codec ∙ ap (λ v. v >>= λ v. ok (video v)) read
