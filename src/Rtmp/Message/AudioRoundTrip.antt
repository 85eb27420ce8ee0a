-- ===== src/Rtmp/Message/AudioRoundTrip.antt =====
-- protocols/rtmp/message/msg_audio.go: writing an audio message and reading it.
use go_live_vod.Rtmp.Message.Flags.{
  copy_after_one, copy_after_two, audio_depth-flags, audio_flags-codec, audio_is_stereo-flags,
  audio_rate-flags, copy_before_last,
}
use go_live_vod.Prelude.{
  ℕ, arith, inl, inr, length, refl, ◌<◌, ◌≡◌, ◌⊎◌, List, [], ◌∷◌, false, ltb, suc, true, ◌++◌, ◌/◌,
  ◌==◌, ◌||◌, length-append, ◌≢◌, ap, get_or, subst, sym, ◌∙◌,
}
use go_live_vod.Rtmp.Message.{audio, Audio, Floats}
use go_live_vod.Rtmp.Message.Media.{
  mpeg1_audio, marshal_audio, mpeg4_audio, unmarshal_audio, audio_body_size, audio_depth,
  audio_flags, audio_is_stereo, audio_rate, lpcm, pcma, pcmu,
}
use go_live_vod.Rtmp.Message.Dispatch.{
  unmarshal_allocated, allocate_message, unmarshal_message, marshal_message, allocate_audio,
}
use go_live_vod.Prelude.Bits.{shr}
use go_live_vod.Rtmp.RawMessage.{Message as Raw}
use go_live_vod.Prelude.Result.{ok, ◌>>=◌}
use go_live_vod.Rtmp.Message.Carried.{IsCarriedAudio}

marshal_audio-not_empty : (m : Audio) → ltb (length (marshal_audio m).body) 1 ≡ false
unfolding marshal_audio
marshal_audio-not_empty m = ground arith

abbrev pub with_codec : Audio → ℕ → ℕ → List ℕ → Audio
with_codec m codec aac_type payload = record {
  chunk_stream_id = m.chunk_stream_id;
  dts = m.dts;
  message_stream_id = m.message_stream_id;
  codec = codec;
  rate = m.rate;
  depth = m.depth;
  is_stereo = m.is_stereo;
  aac_type = aac_type;
  payload = payload;
}

module _ (fl : Floats) where
  module _ (m : Audio) (rate_fits : m.rate < 4) (depth_fits : m.depth < 2) where
    flags_read :
        (c : ℕ)
        → c < 16
        → let b = audio_flags c m.rate m.depth m.is_stereo in
          (b / 16 ≡ c)
          × (audio_rate b ≡ m.rate)
          × (audio_depth b ≡ m.depth)
          × (audio_is_stereo b ≡ m.is_stereo)
    flags_read c h = (
      audio_flags-codec c m.rate m.depth m.is_stereo h rate_fits depth_fits,
      audio_rate-flags c m.rate m.depth m.is_stereo h rate_fits depth_fits,
      audio_depth-flags c m.rate m.depth m.is_stereo h rate_fits depth_fits,
      audio_is_stereo-flags c m.rate m.depth m.is_stereo h rate_fits depth_fits,
    )

    mpeg4_read :
        (t : ℕ)
        → t ≡ 0 ⊎ t ≡ 1
        → unmarshal_audio (marshal_audio (with_codec m mpeg4_audio t m.payload))
          ≡ ok (with_codec m mpeg4_audio t m.payload)
    unfolding unmarshal_audio marshal_audio audio_body_size
    mpeg4_read t known =
        let f = flags_read mpeg4_audio (omega arith) in
        let size : ltb (suc (suc (length m.payload))) 2 ≡ false = ground arith in
        let type : (t == 0 || t == 1) ≡ true = ground arith in
        rw (f.0, f.1, f.2, f.3, copy_after_two m.payload, size, type)

    mpeg1_read :
        (payload : List ℕ)
        → 0 < length payload
        → unmarshal_audio (marshal_audio (with_codec m mpeg1_audio 0 payload))
          ≡ ok (with_codec m mpeg1_audio 0 payload)
    unfolding unmarshal_audio marshal_audio audio_body_size
    mpeg1_read [] h = absurd (omega arith)
    mpeg1_read (p ∷ payload) h =
        let f = flags_read mpeg1_audio (omega arith) in
        let size : ltb (suc (suc (length payload))) 2 ≡ false = ground arith in
        rw (f.0, f.1, f.2, f.3, copy_after_one (p ∷ payload), size)

    pcm_read :
        (c t : ℕ)
        → c ≡ lpcm ⊎ c ≡ pcma ⊎ c ≡ pcmu
        → unmarshal_audio (marshal_audio (with_codec m c t m.payload))
          ≡ ok (with_codec m c 0 (m.payload ++ (0 ∷ [])))
    unfolding unmarshal_audio marshal_audio audio_body_size
    pcm_read c t known =
        let f = flags_read c (omega arith) in
        let is_mpeg4 : (c == mpeg4_audio) ≡ false = ground arith in
        let is_mpeg1 : (c == mpeg1_audio) ≡ false = ground arith in
        let supported : (c == pcma || (c == pcmu || c == lpcm)) ≡ true = ground arith in
        let last = length-append m.payload (0 ∷ []) in
        let size : ltb (suc (length (m.payload ++ (0 ∷ [])))) 2 ≡ false = ground (arith, last) in
        rw (f.0, f.1, f.2, f.3, is_mpeg4, is_mpeg1, copy_before_last m.payload, size, supported)

    audio_flags_plain :
        m.codec < 16 → m.codec ≢ 9 → (shr (get_or (marshal_audio m).body 0 0) 4 == 9) ≡ false
    unfolding marshal_audio
    audio_flags_plain fits plain = let f = flags_read m.codec fits in rw (f.0) (ground arith)

  audio_dispatched :
      (raw : Raw)
      → raw.type ≡ 8
      → ltb (length raw.body) 1 ≡ false
      → (shr (get_or raw.body 0 0) 4 == 9) ≡ false
      → unmarshal_message fl raw ≡ (unmarshal_audio raw >>= λ a. ok (audio a))
  unfolding unmarshal_message allocate_message allocate_audio unmarshal_allocated
  audio_dispatched raw type size plain = rw (type, size, plain)

  audio_message_read :
      (m r : Audio)
      → m.rate < 4
      → m.depth < 2
      → m.codec < 16
      → m.codec ≢ 9
      → unmarshal_audio (marshal_audio m) ≡ ok r
      → unmarshal_message fl (marshal_audio m) ≡ ok (audio r)
  unfolding marshal_audio
  audio_message_read m r rate depth codec plain e =
      audio_dispatched (marshal_audio m) refl (marshal_audio-not_empty m)
        (audio_flags_plain m rate depth codec plain)
      ∙ ap (λ a. a >>= λ a. ok (audio a)) e

  pub unmarshal_audio-marshal :
      (m : Audio) → IsCarriedAudio m → unmarshal_message fl (marshal_audio m) ≡ ok (audio m)
  unfolding IsCarriedAudio
  unmarshal_audio-marshal m (rate, depth, inl (codec, aac)) =
      let read =
        subst
          (λ c.
            unmarshal_audio (marshal_audio (with_codec m c m.aac_type m.payload))
            ≡ ok (with_codec m c m.aac_type m.payload))
          (sym codec) (mpeg4_read m rate depth m.aac_type aac) in
      audio_message_read m m rate depth (omega arith) (ground arith) read
  unmarshal_audio-marshal m (rate, depth, inr (codec, aac, some_payload)) =
      let read =
        subst
          (λ (p : ℕ × ℕ).
            unmarshal_audio (marshal_audio (with_codec m p.0 p.1 m.payload))
            ≡ ok (with_codec m p.0 p.1 m.payload))
          (sym (λ i. (codec i, aac i))) (mpeg1_read m rate depth m.payload some_payload) in
      audio_message_read m m rate depth (omega arith) (ground arith) read

  -- An LPCM, PCMA or PCMU audio message, its rate and depth within their bits, is marshalled to a
  -- raw message from which its payload is read with a zero byte after it, and AAC type 0.
  pub padded_audio :
      (m : Audio)
      → m.rate < 4
      → m.depth < 2
      → m.codec ≡ lpcm ⊎ m.codec ≡ pcma ⊎ m.codec ≡ pcmu
      → (raw : Raw) × (marshal_message fl (audio m) ≡ ok raw)
        × (unmarshal_message fl raw ≡ ok (audio (with_codec m m.codec 0 (m.payload ++ (0 ∷ [])))))
  unfolding marshal_message
  padded_audio m rate depth known = (
    marshal_audio m,
    refl,
    audio_message_read m (with_codec m m.codec 0 (m.payload ++ (0 ∷ []))) rate depth (omega arith)
        (ground arith) (pcm_read m rate depth m.codec m.aac_type known),
  )
