-- ===== src/Rtmp/RawMessage/Steps.antt =====
-- One round of the reader's loop (readMessage of protocols/rtmp/rawmessage/reader.go) on each kind of
-- chunk that `Marshal` wrote, where no acknowledgement is due.
use go_live_vod.Prelude.{
  ℕ, ◌+◌, ◌-◌, ◌^◌, ◌≤◌, ◌<◌, ◌≡◌, refl, Bool, true, false, List, ◌++◌, Option, arith, bit_or, leb,
  ltb, ◌==◌,
}
use go_live_vod.Prelude.Bits.{shr, u32, bit_or_tags}
use go_live_vod.Prelude.Result.{Result, ok, err}
use go_live_vod.Rtmp.Stream.{Error, no_previous_chunk}
use go_live_vod.Rtmp.Chunk.{
  Chunk0, Chunk1, Chunk2, Chunk3, extended, cap_len, marshal0, marshal1, marshal2, marshal3,
}
use go_live_vod.Rtmp.Chunk.RoundTrip.{
  IsValid0, IsValid1, IsValid2, IsValid3, read0-marshal0, read1-marshal1, read2-marshal2,
  read3-marshal3, low_six_tagged, low_six,
}
use go_live_vod.Rtmp.RawMessage.{Message, max_body_size, store, get_or_new}
use go_live_vod.Rtmp.RawMessage.Reader.{
  Env, Reader, ReaderChunkStream, new_stream, check_ack, first_chunk, next_fragment, read_type0,
  read_type1, read_type2, read_type3, read_message, read_chunk, with_first_byte, stamp,
}

-- The state of chunk stream `id`.
abbrev pub stream : Reader → ℕ → ReaderChunkStream
stream r id = get_or_new id new_stream r.chunk_streams

-- What a round leaves: the rest of the input, and the new state of chunk stream `id`.
abbrev pub after_chunk :
    Reader
    → ℕ
    → List ℕ
    → ReaderChunkStream × Option Message
    → Result Error (Reader × Option Message)
after_chunk r id tail (rc, m) =
    ok (record r { input = tail; chunk_streams = store id rc r.chunk_streams }, stamp id m)

peek0 :
    {A : Type 0} (c : Chunk0) (s : List ℕ) (f : ℕ → Result Error A)
    → with_first_byte (marshal0 c ++ s) f ≡ f c.chunk_stream_id
unfolding marshal0
peek0 c s f = refl

peek1 :
    {A : Type 0} (c : Chunk1) (s : List ℕ) (f : ℕ → Result Error A)
    → with_first_byte (marshal1 c ++ s) f ≡ f (bit_or 64 c.chunk_stream_id)
unfolding marshal1
peek1 c s f = refl

peek2 :
    {A : Type 0} (c : Chunk2) (s : List ℕ) (f : ℕ → Result Error A)
    → with_first_byte (marshal2 c ++ s) f ≡ f (bit_or 128 c.chunk_stream_id)
unfolding marshal2
peek2 c s f = refl

peek3 :
    {A : Type 0} (c : Chunk3) (e : Bool) (s : List ℕ) (f : ℕ → Result Error A)
    → with_first_byte (marshal3 c e ++ s) f ≡ f (bit_or 192 c.chunk_stream_id)
unfolding marshal3
peek3 c e s f = refl

-- The top two bits of the first byte tell the kind.
kinds :
    (i : ℕ)
    → i < 64
    → (shr (bit_or 64 i) 6 ≡ 1) × (shr (bit_or 128 i) 6 ≡ 2) × (shr (bit_or 192 i) 6 ≡ 3)
kinds i h = omega (arith, bit_or_tags i h)

module _ (env : Env) (r : Reader) (quiet : r.ack_window_size ≡ 0) (tail : List ℕ) where
  pub step0 :
      (c : Chunk0)
      → IsValid0 r.chunk_size c
      → 2 ≤ c.chunk_stream_id
      → c.body_len ≤ max_body_size
      → (stream r c.chunk_stream_id).cur_body_recv ≡ 0
      → read_chunk env (record r { input = marshal0 c ++ tail })
        ≡ after_chunk r c.chunk_stream_id tail (
            first_chunk
              (record (stream r c.chunk_stream_id) {
                cur_message_stream_id = c.message_stream_id;
                cur_type = c.type;
                cur_timestamp = c.timestamp;
                cur_timestamp_available = true;
                cur_timestamp_delta_available = false;
                cur_body_len = c.body_len;
                has_extended_timestamp = leb extended c.timestamp;
              })
              c.body)
  unfolding read_chunk read_message read_type0 check_ack
  step0 c v id small idle =
      let big : ltb max_body_size c.body_len ≡ false = ground arith in
      let own : ltb c.chunk_stream_id 2 ≡ false = ground arith in
      let kind : shr c.chunk_stream_id 6 ≡ 0 = omega (arith, v) in
      let body = read0-marshal0 r.chunk_size c tail v in
      rw (peek0, kind, low_six c.chunk_stream_id v.id_fits, own, idle, body, quiet, big)

  pub step1 :
      (c : Chunk1)
      → IsValid1 r.chunk_size c
      → 2 ≤ c.chunk_stream_id
      → c.body_len ≤ max_body_size
      → (stream r c.chunk_stream_id).cur_body_recv ≡ 0
      → (stream r c.chunk_stream_id).cur_timestamp_available ≡ true
      → read_chunk env (record r { input = marshal1 c ++ tail })
        ≡ after_chunk r c.chunk_stream_id tail (
            first_chunk
              (record (stream r c.chunk_stream_id) {
                cur_type = c.type;
                cur_timestamp =
                    u32 ((stream r c.chunk_stream_id).cur_timestamp + c.timestamp_delta);
                cur_timestamp_delta = c.timestamp_delta;
                cur_timestamp_delta_available = true;
                cur_body_len = c.body_len;
                has_extended_timestamp = leb extended c.timestamp_delta;
              })
              c.body)
  unfolding read_chunk read_message read_type1 check_ack
  step1 c v id small idle started =
      let big : ltb max_body_size c.body_len ≡ false = ground arith in
      let own : ltb c.chunk_stream_id 2 ≡ false = ground arith in
      let kind = (kinds c.chunk_stream_id v.id_fits).0 in
      let body = read1-marshal1 r.chunk_size c tail v in
      rw (
        peek1,
        kind,
        (low_six_tagged c.chunk_stream_id v.id_fits).0,
        own,
        started,
        idle,
        body,
        quiet,
        big,
      )

  pub step2 :
      (c : Chunk2)
      → IsValid2 (cap_len (stream r c.chunk_stream_id).cur_body_len r.chunk_size) c
      → 2 ≤ c.chunk_stream_id
      → (stream r c.chunk_stream_id).cur_body_recv ≡ 0
      → (stream r c.chunk_stream_id).cur_timestamp_available ≡ true
      → read_chunk env (record r { input = marshal2 c ++ tail })
        ≡ after_chunk r c.chunk_stream_id tail (
            first_chunk
              (record (stream r c.chunk_stream_id) {
                cur_timestamp =
                    u32 ((stream r c.chunk_stream_id).cur_timestamp + c.timestamp_delta);
                cur_timestamp_delta = c.timestamp_delta;
                cur_timestamp_delta_available = true;
                has_extended_timestamp = leb extended c.timestamp_delta;
              })
              c.body)
  unfolding read_chunk read_message read_type2 check_ack
  step2 c v id idle started =
      let own : ltb c.chunk_stream_id 2 ≡ false = ground arith in
      let kind = (kinds c.chunk_stream_id v.id_fits).1 in
      let body = read2-marshal2 _ c tail v in
      rw (
        peek2,
        kind,
        (low_six_tagged c.chunk_stream_id v.id_fits).1,
        own,
        started,
        idle,
        body,
        quiet,
      )

  -- A type 3 chunk that starts a message.
  pub step3_first :
      (c : Chunk3) (e : Bool)
      → IsValid3 (cap_len (stream r c.chunk_stream_id).cur_body_len r.chunk_size) c
      → 2 ≤ c.chunk_stream_id
      → (stream r c.chunk_stream_id).has_extended_timestamp ≡ e
      → (stream r c.chunk_stream_id).cur_body_recv ≡ 0
      → (stream r c.chunk_stream_id).cur_timestamp_delta_available ≡ true
      → read_chunk env (record r { input = marshal3 c e ++ tail })
        ≡ after_chunk r c.chunk_stream_id tail (
            first_chunk
              (record (stream r c.chunk_stream_id) {
                cur_timestamp = u32 (
                    (stream r c.chunk_stream_id).cur_timestamp
                    + (stream r c.chunk_stream_id).cur_timestamp_delta);
              })
              c.body)
  unfolding read_chunk read_message read_type3 check_ack
  step3_first c e v id wide idle started =
      let own : ltb c.chunk_stream_id 2 ≡ false = ground arith in
      let kind = (kinds c.chunk_stream_id v.id_fits).2 in
      let body = read3-marshal3 _ c e tail v in
      rw (
        peek3,
        kind,
        (low_six_tagged c.chunk_stream_id v.id_fits).2,
        own,
        started,
        idle,
        wide,
        body,
        quiet,
      )

  -- A type 3 chunk inside a message.
  pub step3_next :
      (c : Chunk3) (e : Bool)
      → IsValid3
          (cap_len
            (u32 (
              (stream r c.chunk_stream_id).cur_body_len
              + 2 ^ 32
              - (stream r c.chunk_stream_id).cur_body_recv))
            r.chunk_size)
          c
      → 2 ≤ c.chunk_stream_id
      → (stream r c.chunk_stream_id).has_extended_timestamp ≡ e
      → ((stream r c.chunk_stream_id).cur_body_recv == 0) ≡ false
      → read_chunk env (record r { input = marshal3 c e ++ tail })
        ≡ after_chunk r c.chunk_stream_id tail (next_fragment (stream r c.chunk_stream_id) c.body)
  unfolding read_chunk read_message read_type3 check_ack
  step3_next c e v id wide inside =
      let own : ltb c.chunk_stream_id 2 ≡ false = ground arith in
      let kind = (kinds c.chunk_stream_id v.id_fits).2 in
      let body = read3-marshal3 _ c e tail v in
      rw (
        peek3,
        kind,
        (low_six_tagged c.chunk_stream_id v.id_fits).2,
        own,
        inside,
        wide,
        body,
        quiet,
      )

  -- A type 3 chunk cannot start a message where no timestamp delta was received.
  pub step3_refused :
      (c : Chunk3) (e : Bool)
      → c.chunk_stream_id < 64
      → 2 ≤ c.chunk_stream_id
      → (stream r c.chunk_stream_id).cur_body_recv ≡ 0
      → (stream r c.chunk_stream_id).cur_timestamp_delta_available ≡ false
      → read_chunk env (record r { input = marshal3 c e ++ tail }) ≡ err (no_previous_chunk 3)
  unfolding read_chunk read_message read_type3 check_ack
  step3_refused c e fits id idle missing =
      let own : ltb c.chunk_stream_id 2 ≡ false = ground arith in
      let kind = (kinds c.chunk_stream_id fits).2 in
      rw (peek3, kind, (low_six_tagged c.chunk_stream_id fits).2, own, idle, missing)
