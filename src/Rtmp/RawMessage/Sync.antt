-- ===== src/Rtmp/RawMessage/Sync.antt =====
-- What the writer's and the reader's state of one chunk stream have in common between two messages,
-- and the first chunk of a message (writeMessage and readMessage of protocols/rtmp/rawmessage).
use go_live_vod.Prelude.{
  ℕ, ◌+◌, ◌-◌, ◌*◌, ◌/◌, ◌^◌, ◌≤◌, ◌<◌, ◌≡◌, refl, Bool, true, false, ◌||◌, List, [], ◌++◌, Option,
  none, some, arith, length, take, length-take, Bool-cases, Option-cases, inl, inr,
}
use go_live_vod.Prelude.Bits.{u32}
use go_live_vod.Rtmp.Chunk.{Chunk0, Chunk1, Chunk2, Chunk3, cap_len}
use go_live_vod.Rtmp.Chunk.RoundTrip.{IsValid0, IsValid1, IsValid2, IsValid3}
use go_live_vod.Rtmp.RawMessage.{Message, millisecond, max_body_size}
use go_live_vod.Rtmp.RawMessage.Reader.{Reader, ReaderChunkStream, read_chunk}
use go_live_vod.Rtmp.RawMessage.Reader
use go_live_vod.Rtmp.RawMessage.Writer.{
  WriterChunkStream, Header, differs, timestamp_delta, remember,
}
use go_live_vod.Rtmp.RawMessage.Writer
use go_live_vod.Rtmp.RawMessage.Steps.{stream, after_chunk, step0, step1, step2, step3_first}

-- A message that the protocol can carry: an unextended chunk stream ID, a body within the reader's
-- limit, and a timestamp in whole milliseconds that fits 32 bits.
pub record IsCarried (msg : Message) : Type 0 where
  pub id_fits : msg.chunk_stream_id < 64
  pub id_plain : 2 ≤ msg.chunk_stream_id
  pub stream_fits : msg.message_stream_id < 2 ^ 32
  pub body_fits : length msg.body ≤ max_body_size
  pub whole_ms : msg.timestamp / millisecond * millisecond ≡ msg.timestamp
  pub ms_fits : msg.timestamp / millisecond < 2 ^ 32

-- Between messages the reader holds no part of a body.
pub record IsIdle (rc : ReaderChunkStream) : Type 0 where
  pub nothing_received : rc.cur_body_recv ≡ 0
  pub no_fragments : rc.cur_body_fragments ≡ []

-- A delta that the writer would leave out is the one that the reader would put in.
abbrev pub DeltaSync : Option ℕ → ReaderChunkStream → Type 0
DeltaSync none rc = Unit {0}
DeltaSync (some d) rc = (rc.cur_timestamp_delta ≡ d) × (rc.cur_timestamp_delta_available ≡ true)

pub record IsUnused (wc : WriterChunkStream) (rc : ReaderChunkStream) : Type 0 where
  pub no_stream : wc.last_message_stream_id ≡ none
  pub no_timestamp : wc.last_timestamp ≡ none
  pub no_delta : wc.last_timestamp_delta ≡ none
  pub idle : IsIdle rc

-- After a message of message stream `i` at `ts` milliseconds.
pub record IsUsed (i ts : ℕ) (wc : WriterChunkStream) (rc : ReaderChunkStream) : Type 0 where
  pub w_stream : wc.last_message_stream_id ≡ some i
  pub w_type : wc.last_type ≡ some rc.cur_type
  pub w_len : wc.last_body_len ≡ some rc.cur_body_len
  pub w_timestamp : wc.last_timestamp ≡ some ts
  pub r_stream : rc.cur_message_stream_id ≡ i
  pub r_timestamp : rc.cur_timestamp ≡ ts
  pub r_started : rc.cur_timestamp_available ≡ true
  pub wide : rc.has_extended_timestamp ≡ wc.has_extended_timestamp
  pub delta : DeltaSync wc.last_timestamp_delta rc
  pub idle : IsIdle rc

-- By the message stream and the timestamp of the chunk stream's last message, if there was one.
abbrev pub Sync : Option (ℕ × ℕ) → WriterChunkStream → ReaderChunkStream → Type 0
Sync none wc rc = IsUnused wc rc
Sync (some (i, ts)) wc rc = IsUsed i ts wc rc

-- The message goes on where the chunk stream's last one stopped: the same message stream, and time
-- does not go back.
abbrev pub Follows : Option (ℕ × ℕ) → Message → Type 0
Follows none msg = Unit {0}
Follows (some (i, ts)) msg = (msg.message_stream_id ≡ i) × (ts ≤ msg.timestamp / millisecond)

-- The reader's state behind the message's header.
pub record IsStarted (msg : Message) (e : Bool) (wc : WriterChunkStream) (rc : ReaderChunkStream)
    : Type 0 where
  pub type_known : rc.cur_type ≡ msg.type
  pub len_known : rc.cur_body_len ≡ length msg.body
  pub sync : IsUsed msg.message_stream_id (msg.timestamp / millisecond) wc rc
  pub wide : rc.has_extended_timestamp ≡ e

-- The first chunk is read as the writer meant it.
abbrev pub Starts : Reader.Env → Reader → List ℕ → Message → WriterChunkStream → Option ℕ → Type 0
Starts env r tail msg wc delta =
    let ts = msg.timestamp / millisecond in
    let len = length msg.body in
    let piece = take r.chunk_size msg.body in
    let header = Writer.first_chunk wc msg ts delta len piece in
    (rc : ReaderChunkStream) × (read_chunk env (record r { input = header.0 ++ tail })
      ≡ after_chunk r msg.chunk_stream_id tail (Reader.first_chunk rc piece))
    × IsStarted msg header.1 (remember wc msg ts delta len header.1) rc

module _ (env : Reader.Env) (r : Reader) (quiet : r.ack_window_size ≡ 0) (tail : List ℕ)
    (msg : Message) (v : IsCarried msg) where
  cut_len : length (take r.chunk_size msg.body) ≡ cap_len (length msg.body) r.chunk_size
  cut_len = ground (arith, length-take r.chunk_size msg.body)

  -- On an unused chunk stream: a type 0 chunk.
  pub Starts-unused :
      (wc : WriterChunkStream)
      → IsUnused wc (stream r msg.chunk_stream_id)
      → Starts env r tail msg wc none
  unfolding Writer.first_chunk remember
  Starts-unused wc s =
      let ts = msg.timestamp / millisecond in
      let c : Chunk0 = record {
        chunk_stream_id = msg.chunk_stream_id;
        timestamp = u32 ts;
        body_len = length msg.body;
        type = msg.type;
        message_stream_id = msg.message_stream_id;
        body = take r.chunk_size msg.body;
      } in
      let fits : u32 ts ≡ ts = omega (arith, v.ms_fits) in
      let valid : IsValid0 r.chunk_size c = record {
        id_fits = v.id_fits;
        timestamp_fits = omega arith;
        body_len_fits = omega (arith, v.body_fits);
        message_stream_id_fits = v.stream_fits;
        body_cut = cut_len;
      } in
      (
        _,
        step0 env r quiet tail c valid v.id_plain v.body_fits s.idle.nothing_received,
        record {
          type_known = refl;
          len_known = refl;
          wide = refl;
          sync = record {
            w_stream = refl;
            w_type = refl;
            w_len = refl;
            w_timestamp = refl;
            r_stream = refl;
            r_timestamp = fits;
            r_started = refl;
            wide = refl;
            delta = rw s.no_delta tt;
            idle = record {
              nothing_received = s.idle.nothing_received;
              no_fragments = s.idle.no_fragments;
            };
          };
        },
      )

  -- On a chunk stream in use: a type 1, 2 or 3 chunk, by what the last message had in common.
  module _ (wc : WriterChunkStream) (last : ℕ)
      (s : IsUsed msg.message_stream_id last wc (stream r msg.chunk_stream_id))
      (on : last ≤ msg.timestamp / millisecond) where
    abbrev delta : ℕ
    delta = msg.timestamp / millisecond - last

    sum :
        u32 ((stream r msg.chunk_stream_id).cur_timestamp + u32 delta) ≡ msg.timestamp / millisecond
    sum = omega (arith, s.r_timestamp, v.ms_fits)

    same_stream : differs wc.last_message_stream_id msg.message_stream_id ≡ false
    same_stream = rw s.w_stream (ground arith)

    -- What is to be known of the state behind a type 1, 2 or 3 chunk.
    started :
        (e : Bool) (rc : ReaderChunkStream)
        → (rc.cur_type ≡ msg.type) × (rc.cur_body_len ≡ length msg.body)
        → rc.cur_message_stream_id ≡ msg.message_stream_id
        → rc.cur_timestamp ≡ msg.timestamp / millisecond
        → rc.cur_timestamp_available ≡ true
        → rc.has_extended_timestamp ≡ e
        → DeltaSync (some delta) rc
        → IsIdle rc
        → IsStarted msg e
            (remember wc msg (msg.timestamp / millisecond) (some delta) (length msg.body) e)
            rc
    unfolding remember
    started e rc (type, len) stream_ time avail wide d idle = record {
      type_known = type;
      len_known = len;
      wide = wide;
      sync = record {
        w_stream = refl;
        w_type = rw type;
        w_len = rw len;
        w_timestamp = refl;
        r_stream = stream_;
        r_timestamp = time;
        r_started = avail;
        wide = wide;
        delta = d;
        idle = idle;
      };
    }

    fits : u32 delta ≡ delta
    fits = omega (arith, v.ms_fits)

    idle : IsIdle (stream r msg.chunk_stream_id)
    idle = s.idle

    Starts-type1 :
        (differs wc.last_type msg.type || differs wc.last_body_len (length msg.body)) ≡ true
        → Starts env r tail msg wc (some delta)
    unfolding Writer.first_chunk
    Starts-type1 other =
        let c : Chunk1 = record {
          chunk_stream_id = msg.chunk_stream_id;
          timestamp_delta = u32 delta;
          body_len = length msg.body;
          type = msg.type;
          body = take r.chunk_size msg.body;
        } in
        let valid : IsValid1 r.chunk_size c = record {
          id_fits = v.id_fits;
          delta_fits = omega arith;
          body_len_fits = omega (arith, v.body_fits);
          body_cut = cut_len;
        } in
        rw (same_stream, other)
          (
            _,
            step1 env r quiet tail c valid v.id_plain v.body_fits idle.nothing_received s.r_started,
            started _ _ (refl, refl) s.r_stream sum s.r_started refl (fits, refl)
                (record {
                  nothing_received = idle.nothing_received;
                  no_fragments = idle.no_fragments;
                }),
          )

    -- The header may leave out the type and the length only if they are the last message's.
    unchanged :
        (differs wc.last_type msg.type || differs wc.last_body_len (length msg.body)) ≡ false
        → ((stream r msg.chunk_stream_id).cur_type ≡ msg.type)
          × ((stream r msg.chunk_stream_id).cur_body_len ≡ length msg.body)
    unchanged same = ground (arith, rw (s.w_type, s.w_len) at same)

    Starts-type2 :
        (differs wc.last_type msg.type || differs wc.last_body_len (length msg.body)) ≡ false
        → differs wc.last_timestamp_delta delta ≡ true
        → Starts env r tail msg wc (some delta)
    unfolding Writer.first_chunk
    Starts-type2 same other =
        let known = unchanged same in
        let c : Chunk2 = record {
          chunk_stream_id = msg.chunk_stream_id;
          timestamp_delta = u32 delta;
          body = take r.chunk_size msg.body;
        } in
        let valid : IsValid2 (cap_len (stream r msg.chunk_stream_id).cur_body_len r.chunk_size) c =
          record { id_fits = v.id_fits; delta_fits = omega arith; body_cut = rw known.1 cut_len } in
        rw (same_stream, same, other)
          (
            _,
            step2 env r quiet tail c valid v.id_plain idle.nothing_received s.r_started,
            started _ _ known s.r_stream sum s.r_started refl (fits, refl)
                (record {
                  nothing_received = idle.nothing_received;
                  no_fragments = idle.no_fragments;
                }),
          )

    same_delta :
        differs wc.last_timestamp_delta delta ≡ false
        → DeltaSync (some delta) (stream r msg.chunk_stream_id)
    same_delta same = elim (Option-cases wc.last_timestamp_delta) [
      | inl e ↦ cc (rw e at same)
      | inr (d, e) ↦
          let eq : d ≡ delta = ground (arith, rw e at same) in
          let known : DeltaSync (some d) (stream r msg.chunk_stream_id) = rw e at (s.delta) in
          rw (← eq) known
    ]

    Starts-type3 :
        (differs wc.last_type msg.type || differs wc.last_body_len (length msg.body)) ≡ false
        → differs wc.last_timestamp_delta delta ≡ false
        → Starts env r tail msg wc (some delta)
    unfolding Writer.first_chunk
    Starts-type3 same steady =
        let known = unchanged same in
        let d = same_delta steady in
        let c : Chunk3 = record {
          chunk_stream_id = msg.chunk_stream_id;
          body = take r.chunk_size msg.body;
        } in
        let valid : IsValid3 (cap_len (stream r msg.chunk_stream_id).cur_body_len r.chunk_size) c =
          record { id_fits = v.id_fits; body_cut = rw known.1 cut_len } in
        let time : u32 (
              (stream r msg.chunk_stream_id).cur_timestamp
              + (stream r msg.chunk_stream_id).cur_timestamp_delta)
            ≡ msg.timestamp / millisecond =
          omega (arith, s.r_timestamp, v.ms_fits, d.0) in
        rw (same_stream, same, steady)
          (
            _,
            step3_first env r quiet tail c wc.has_extended_timestamp valid v.id_plain s.wide
                idle.nothing_received d.1,
            started _ _ known s.r_stream time s.r_started s.wide d (record {
              nothing_received = idle.nothing_received;
              no_fragments = idle.no_fragments;
            }),
          )

    -- Whatever kind of chunk the writer chooses, the reader takes it as it was meant.
    pub Starts-used : Starts env r tail msg wc (some delta)
    Starts-used =
        elim (Bool-cases
          (differs wc.last_type msg.type || differs wc.last_body_len (length msg.body))) [
            | inl other ↦ Starts-type1 other
            | inr same ↦ elim (Bool-cases (differs wc.last_timestamp_delta delta)) [
              | inl new ↦ Starts-type2 same new
              | inr steady ↦ Starts-type3 same steady
            ]
          ]
