-- ===== src/Rtmp/Message/Tests.antt =====
-- protocols/rtmp/message on concrete messages.
use go_live_vod.Rtmp.Amf0.Marshal.{zeros}
use go_live_vod.Prelude.{
  ℕ, List, [], arith, false, inl, inr, refl, true, ◌%◌, ◌^◌, ◌∷◌, ◌≡◌, none, ◌++◌, ◌+◌,
}
use go_live_vod.Rtmp.Message.Carried.{IsCarried, IsCarriedAudio}
use go_live_vod.Rtmp.RawMessage.{max_body_size, Message as Raw}
use go_live_vod.Rtmp.RawMessage.Writer.{Writer, new_writer, ack_overdue, Env}
use go_live_vod.Rtmp.RawMessage.Writer
use go_live_vod.Rtmp.RawMessage.Reader.{Reader, new_reader}
use go_live_vod.Rtmp.RawMessage.Reader
use go_live_vod.Rtmp.RawMessage.Sync
use go_live_vod.Rtmp.Message.Connection.Coupled.{IsSteady}
use go_live_vod.Rtmp.Message.Connection.Conversation.{IsConversation, read_messages-write_messages}
use go_live_vod.Rtmp.RawMessage.Exchange.{IsCoupled}
use go_live_vod.Rtmp.Message.Control.{marshal_set_chunk_size, u32_at}
use go_live_vod.Rtmp.Message.Connection.{read_messages, write_messages}
use go_live_vod.Rtmp.Message.{
  set_chunk_size, Audio, Floats, RtmpMessage, audio, invalid_message_type, VideoExCodedFrames,
  unsupported_audio_extended_type, unsupported_four_cc, video_ex_coded_frames,
}
use go_live_vod.Rtmp.Message.Dispatch.{
  allocate_message, marshal_message, unmarshal_message, allocate_audio, allocate_audio_ex,
  allocate_video, allocate_video_ex, unmarshal_allocated,
}
use go_live_vod.Rtmp.Message.Media.{copy, audio_body_size, audio_flags, marshal_audio}
use go_live_vod.Prelude.Result.{ok, err}
use go_live_vod.Rtmp.Message.AudioRoundTrip.{padded_audio, with_codec}
use go_live_vod.Rtmp.Message.RoundTrip.{unmarshal-marshal}
use go_live_vod.Rtmp.Stream.{be24, be32}
use go_live_vod.Rtmp.Message.Extended.{unmarshal_video_ex_sequence_end, four_cc_avc}
use go_live_vod.Rtmp.Message.ExtendedRoundTrip.{misread_avc}

-- A conversion that keeps the integers up to 64 bits as they are.
abbrev floats : Floats
floats = record {
  of_int = λ n. n % 2 ^ 64;
  to_int = λ n. n;
  of_int-bits = λ n. omega arith;
  to_int-of_int = λ n h. omega arith;
}

abbrev aac : RtmpMessage
aac = audio (record {
  chunk_stream_id = 4;
  dts = 2000000;
  message_stream_id = 1;
  codec = 10;
  rate = 3;
  depth = 1;
  is_stereo = true;
  aac_type = 1;
  payload = 9 ∷ 8 ∷ [];
})

abbrev g711 : Audio
g711 = record {
  chunk_stream_id = 4;
  dts = 0;
  message_stream_id = 1;
  codec = 7;
  rate = 0;
  depth = 1;
  is_stereo = false;
  aac_type = 0;
  payload = 1 ∷ 2 ∷ [];
}

raw_aac :
    marshal_message floats aac
    ≡ ok (record {
      chunk_stream_id = 4;
      timestamp = 2000000;
      type = 8;
      message_stream_id = 1;
      body = 0xaf ∷ 1 ∷ 9 ∷ 8 ∷ [];
    })
unfolding marshal_message marshal_audio audio_flags audio_body_size copy zeros
raw_aac = refl

unknown_type :
    (b : List ℕ)
    → unmarshal_message floats
        (record { chunk_stream_id = 4; timestamp = 0; type = 22; message_stream_id = 1; body = b })
      ≡ err (invalid_message_type 22)
unfolding unmarshal_message allocate_message
unknown_type b = refl

-- Extended audio messages: one whose type there is not, and one of an unknown codec.
unknown_extended_type :
    unmarshal_message floats (record {
      chunk_stream_id = 4;
      timestamp = 0;
      type = 8;
      message_stream_id = 1;
      body = 0x97 ∷ [];
    })
    ≡ err (unsupported_audio_extended_type 7)
unfolding unmarshal_message allocate_message allocate_audio allocate_audio_ex
unknown_extended_type = refl

unknown_codec :
    unmarshal_message floats (record {
      chunk_stream_id = 4;
      timestamp = 0;
      type = 9;
      message_stream_id = 1;
      body = 0x82 ∷ 0 ∷ 0 ∷ 1 ∷ 2 ∷ [];
    })
    ≡ err (unsupported_four_cc 258)
unfolding unmarshal_message allocate_message allocate_video allocate_video_ex unmarshal_allocated
    unmarshal_video_ex_sequence_end u32_at be32
unknown_codec = refl

abbrev avc_frames : VideoExCodedFrames
avc_frames = record {
  chunk_stream_id = 6;
  dts = 0;
  message_stream_id = 1;
  four_cc = four_cc_avc;
  pts_delta = 40000000;
  payload = 0 ∷ 0 ∷ 1 ∷ 5 ∷ [];
}

misread_avc_example :
    (raw : Raw) × (marshal_message floats (video_ex_coded_frames avc_frames) ≡ ok raw)
    × (unmarshal_message floats raw
        ≡ ok (
            video_ex_coded_frames
              (record avc_frames { pts_delta = 1000000; payload = 5 ∷ 0 ∷ 0 ∷ 0 ∷ [] })))
unfolding be24
misread_avc_example = misread_avc floats avc_frames refl

unmarshal-marshal_example :
    (raw : Raw) × (marshal_message floats aac ≡ ok raw) × (unmarshal_message floats raw ≡ ok aac)
unfolding IsCarried IsCarriedAudio
unmarshal-marshal_example =
    unmarshal-marshal floats aac (omega arith, omega arith, inl (refl, inr refl))

padded_audio_example :
    (raw : Raw) × (marshal_message floats (audio g711) ≡ ok raw)
    × (unmarshal_message floats raw ≡ ok (audio (with_codec g711 7 0 (1 ∷ 2 ∷ 0 ∷ []))))
padded_audio_example = padded_audio floats g711 (omega arith) (omega arith) (inr (inl refl))

-- A connection that takes everything, and counters that stay at 0.
abbrev wenv : Writer.Env
wenv = record { count = λ o. 0; accepts = λ o b. true; flushes = λ o. true }

abbrev renv : Reader.Env
renv = record { count = λ i. 0; on_ack_needed = λ n. true }

abbrev raw_size : Raw
raw_size = marshal_set_chunk_size 200

abbrev raw_audio : Raw
raw_audio = record {
  chunk_stream_id = 4;
  timestamp = 2000000;
  type = 8;
  message_stream_id = 1;
  body = 0xaf ∷ 1 ∷ 9 ∷ 8 ∷ [];
}

new-IsCoupled : IsCoupled wenv (λ id. none) (new_writer false) (new_reader [])
unfolding ack_overdue new_writer new_reader
new-IsCoupled = record {
  same_size = refl;
  some_size = omega arith;
  quiet = refl;
  opened = record { accepts = λ o b. refl; flushes = λ o. refl; in_window = λ o. refl };
  in_step = λ id. record {
    no_stream = refl;
    no_timestamp = refl;
    no_delta = refl;
    idle = record { nothing_received = refl; no_fragments = refl };
  };
}

raw_size-IsCarried : Sync.IsCarried raw_size
unfolding marshal_set_chunk_size
raw_size-IsCarried = record {
  id_fits = omega arith;
  id_plain = omega arith;
  stream_fits = omega arith;
  body_fits = omega arith;
  whole_ms = refl;
  ms_fits = omega arith;
}

raw_audio-IsCarried : Sync.IsCarried raw_audio
raw_audio-IsCarried = record {
  id_fits = omega arith;
  id_plain = omega arith;
  stream_fits = omega arith;
  body_fits = omega arith;
  whole_ms = refl;
  ms_fits = omega arith;
}

size_then_audio-IsConversation :
    IsConversation floats (λ id. none) (set_chunk_size 200 ∷ aac ∷ []) (raw_size ∷ raw_audio ∷ [])
unfolding marshal_message marshal_audio audio_flags audio_body_size copy zeros IsCarried
    IsCarriedAudio IsSteady marshal_set_chunk_size
size_then_audio-IsConversation = (
  refl,
  omega arith,
  (omega arith, omega arith),
  raw_size-IsCarried,
  tt,
  (refl, (omega arith, omega arith, inl (refl, inr refl)), tt, raw_audio-IsCarried, tt, tt),
)

read_messages-write_messages_example :
    (w' : Writer) × (bytes : List ℕ) × (r' : Reader) × (write_messages floats wenv
        (set_chunk_size 200 ∷ aac ∷ [])
        (new_writer false)
      ≡ ok w')
    × (w'.output ≡ (new_writer false).output ++ bytes)
    × (read_messages floats
          (1 + max_body_size)
          renv
          2
          (record (new_reader []) { input = bytes ++ (7 ∷ []) })
        ≡ ok (set_chunk_size 200 ∷ aac ∷ [], r'))
    × (r'.input ≡ 7 ∷ [])
read_messages-write_messages_example =
    read_messages-write_messages floats wenv renv max_body_size (omega arith) (λ id. none)
      (set_chunk_size 200 ∷ aac ∷ []) (raw_size ∷ raw_audio ∷ []) (new_writer false) (new_reader [])
      (7 ∷ []) new-IsCoupled size_then_audio-IsConversation
