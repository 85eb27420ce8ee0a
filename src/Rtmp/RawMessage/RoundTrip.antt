-- ===== src/Rtmp/RawMessage/RoundTrip.antt =====
-- Writer and reader of protocols/rtmp/rawmessage together: what was written is read back.
use go_live_vod.Prelude.{
  ℕ, suc, ◌-◌, ◌/◌, ◌≤◌, ◌<◌, ◌≡◌, refl, ap, ◌∙◌, Bool, true, false, List, [], ◌∷◌, ◌++◌, Option,
  none, some, append-nil, append_assoc, arith, ◌==◌, leb, length, take, drop, take_all, drop_all,
  take-append-drop, length-take, length-drop, Bool-cases, inl, inr, leb→le,
}
use go_live_vod.Prelude.Bits.{u32}
use go_live_vod.Prelude.Result.{Result, ok}
use go_live_vod.Rtmp.Stream.{Error}
use go_live_vod.Rtmp.RawMessage.{Message, millisecond, store, get_or_new}
use go_live_vod.Rtmp.RawMessage.Reader.{Reader, ReaderChunkStream, read_chunk, read, message_of}
use go_live_vod.Rtmp.RawMessage.Reader
use go_live_vod.Rtmp.RawMessage.Writer.{
  Writer, WriterChunkStream, Header, write_chunk, write_rest, write_message, write, timestamp_delta,
  remember,
}
use go_live_vod.Rtmp.RawMessage.Writer
use go_live_vod.Rtmp.RawMessage.Steps.{stream, after_chunk}
use go_live_vod.Rtmp.RawMessage.Fragments.{
  IsOpen, IsOpen-output, write_chunk_open, write_rest-rest_bytes, rest_bytes, rest_bytes-nil,
  read-more, read-done, read-rest_bytes, Inside, eq_self, joined,
}
use go_live_vod.Rtmp.RawMessage.Sync.{
  DeltaSync, IsCarried, IsUsed, IsStarted, Sync, Follows, Starts, Starts-unused, Starts-used,
}

-- The state of the writer's chunk stream `id`.
abbrev pub out_stream : Writer → ℕ → WriterChunkStream
out_stream w id = get_or_new id Writer.new_stream w.chunk_streams

-- The first chunk of `msg` on a chunk stream in state `wc`.
abbrev pub header : WriterChunkStream → ℕ → Message → Header
header wc chunk_size msg =
    let ts = msg.timestamp / millisecond in
    Writer.first_chunk wc msg ts (timestamp_delta wc.last_timestamp ts) (length msg.body)
      (take chunk_size msg.body)

-- What the writer's state is then.
abbrev pub behind : WriterChunkStream → ℕ → Message → WriterChunkStream
behind wc chunk_size msg =
    let ts = msg.timestamp / millisecond in
    remember wc msg ts (timestamp_delta wc.last_timestamp ts) (length msg.body)
      (header wc chunk_size msg).1

abbrev pub tail_bytes : WriterChunkStream → ℕ → Message → List ℕ
tail_bytes wc chunk_size msg =
    rest_bytes (length msg.body) chunk_size msg.chunk_stream_id (header wc chunk_size msg).1
      (drop chunk_size msg.body)

-- All the bytes of `msg`.
abbrev pub message_bytes : WriterChunkStream → ℕ → Message → List ℕ
message_bytes wc chunk_size msg = (header wc chunk_size msg).0 ++ tail_bytes wc chunk_size msg

write_message_bytes :
    (env : Writer.Env) (w : Writer) (wc : WriterChunkStream) (msg : Message)
    → IsCarried msg
    → IsOpen env w
    → 1 ≤ w.chunk_size
    → write_message env wc msg w
      ≡ ok (
        record w { output = w.output ++ message_bytes wc w.chunk_size msg },
        behind wc w.chunk_size msg,
      )
unfolding write_message
write_message_bytes env w wc msg v h some_size =
    let len : u32 (length msg.body) ≡ length msg.body = omega (arith, v.body_fits) in
    let cut = take_all (length msg.body) msg.body (omega arith) in
    let first = write_chunk_open env (header wc w.chunk_size msg).0 w h in
    let o = w.output ++ (header wc w.chunk_size msg).0 in
    let enough : length (drop w.chunk_size msg.body) ≤ length msg.body =
      omega (arith, length-drop w.chunk_size msg.body) in
    let rest =
      write_rest-rest_bytes (length msg.body) env msg.chunk_stream_id (header wc w.chunk_size msg).1
        (drop w.chunk_size msg.body) (record w { output = o }) (IsOpen-output env w o h) some_size
        enough in
    rw (len, cut, first, rest, append_assoc)

-- What `Write` does with a message that the protocol can carry.
pub write-message_bytes :
    (env : Writer.Env) (w : Writer) (msg : Message)
    → IsCarried msg
    → IsOpen env w
    → 1 ≤ w.chunk_size
    → let wc = out_stream w msg.chunk_stream_id in
      write env msg w
      ≡ ok (record w {
        output = w.output ++ message_bytes wc w.chunk_size msg;
        chunk_streams = store msg.chunk_stream_id (behind wc w.chunk_size msg) w.chunk_streams;
      })
unfolding write
write-message_bytes env w msg v h some_size =
    rw (write_message_bytes env w (out_stream w msg.chunk_stream_id) msg v h some_size)

-- A message, with its state, that the reader returns once all its bytes are in.
abbrev Returned :
    Reader → List ℕ → Message → WriterChunkStream → Result Error (Message × Reader) → Type 0
Returned r tail msg wc result =
    (rc : ReaderChunkStream) × (result
      ≡ ok (
        msg,
        record r { input = tail; chunk_streams = store msg.chunk_stream_id rc r.chunk_streams },
      ))
    × IsUsed msg.message_stream_id (msg.timestamp / millisecond) wc rc

-- The reader's message is the writer's.
same_message :
    (msg : Message) (e : Bool) (wc : WriterChunkStream) (rc : ReaderChunkStream)
    → IsCarried msg
    → IsStarted msg e wc rc
    → record (message_of rc msg.body) { chunk_stream_id = msg.chunk_stream_id } ≡ msg
same_message msg e wc rc v s = rw (s.sync.r_timestamp, v.whole_ms, s.type_known, s.sync.r_stream)

reset-IsUsed :
    (i ts : ℕ) (wc : WriterChunkStream) (rc : ReaderChunkStream)
    → IsUsed i ts wc rc
    → IsUsed i ts wc (record rc { cur_body_fragments = []; cur_body_recv = 0 })
reset-IsUsed i ts wc rc s = record {
  w_stream = s.w_stream;
  w_type = s.w_type;
  w_len = s.w_len;
  w_timestamp = s.w_timestamp;
  r_stream = s.r_stream;
  r_timestamp = s.r_timestamp;
  r_started = s.r_started;
  wide = s.wide;
  delta = delta_kept wc.last_timestamp_delta s.delta;
  idle = record { nothing_received = refl; no_fragments = refl };
}
  where
    delta_kept :
        (d : Option ℕ)
        → DeltaSync d rc
        → DeltaSync d (record rc { cur_body_fragments = []; cur_body_recv = 0 })
    delta_kept none h = tt
    delta_kept (some d) h = h

module _ (env : Reader.Env) (r : Reader) (quiet : r.ack_window_size ≡ 0)
    (some_size : 1 ≤ r.chunk_size) (msg : Message) (v : IsCarried msg) where
  abbrev left_bytes : Bool → List ℕ
  left_bytes e =
      rest_bytes (length msg.body) r.chunk_size msg.chunk_stream_id e (drop r.chunk_size msg.body)

  -- The body fits one chunk.
  read_short :
      (g : ℕ) (hd tail : List ℕ) (wc : WriterChunkStream) (e : Bool) (rc : ReaderChunkStream)
      → IsStarted msg e wc rc
      → length msg.body ≤ r.chunk_size
      → read_chunk env (record r { input = hd ++ (left_bytes e ++ tail) })
        ≡ after_chunk r msg.chunk_stream_id
            (left_bytes e ++ tail)
            (Reader.first_chunk rc (take r.chunk_size msg.body))
      → Returned r tail msg wc
          (read (suc g) env (record r { input = hd ++ (left_bytes e ++ tail) }))
  unfolding Reader.first_chunk
  read_short g hd tail wc e rc s short chunk =
      let whole = take_all r.chunk_size msg.body short in
      let nothing : left_bytes e ≡ [] =
        ap (rest_bytes (length msg.body) r.chunk_size msg.chunk_stream_id e)
          (drop_all r.chunk_size msg.body short)
        ∙ rest_bytes-nil (length msg.body) r.chunk_size msg.chunk_stream_id e in
      let full : (rc.cur_body_len == length msg.body) ≡ true =
        rw s.len_known (eq_self (length msg.body)) in
      let now = rw (whole, full, nothing, same_message msg e wc rc v s) at chunk in
      (rc, rw nothing (read-done g env _ _ msg now), s.sync)

  -- It does not.
  read_long :
      (g : ℕ) (hd tail : List ℕ) (wc : WriterChunkStream) (e : Bool) (rc : ReaderChunkStream)
      → IsStarted msg e wc rc
      → r.chunk_size < length msg.body
      → length msg.body ≤ g
      → read_chunk env (record r { input = hd ++ (left_bytes e ++ tail) })
        ≡ after_chunk r msg.chunk_stream_id
            (left_bytes e ++ tail)
            (Reader.first_chunk rc (take r.chunk_size msg.body))
      → Returned r tail msg wc
          (read (suc g) env (record r { input = hd ++ (left_bytes e ++ tail) }))
  unfolding Reader.first_chunk
  read_long g hd tail wc e rc s long time chunk =
      let piece = take r.chunk_size msg.body in
      let left = drop r.chunk_size msg.body in
      let piece_len : length piece ≡ r.chunk_size =
        omega (arith, length-take r.chunk_size msg.body) in
      let left_len : length left ≡ length msg.body - r.chunk_size =
        omega (arith, length-drop r.chunk_size msg.body) in
      let more : (rc.cur_body_len == length piece) ≡ false =
        ground (arith, s.len_known, piece_len) in
      let rc1 : ReaderChunkStream = record rc {
        cur_body_fragments = rc.cur_body_fragments ++ (piece ∷ []);
        cur_body_recv = length piece;
      } in
      let one : rc.cur_body_fragments ++ (piece ∷ []) ≡ piece ∷ [] =
        rw s.sync.idle.no_fragments refl in
      let alone : joined (rc.cur_body_fragments ++ (piece ∷ [])) ≡ piece =
        rw (one, append-nil) refl in
      let inside : Inside msg.chunk_stream_id e rc1 left = record {
        id_fits = v.id_fits;
        id_plain = v.id_plain;
        wide = s.wide;
        some_received = omega arith;
        received = ap length alone;
        total = omega (arith, s.len_known);
        fits = omega (arith, s.len_known, v.body_fits);
      } in
      let rest =
        read-rest_bytes env r quiet some_size (length msg.body) g msg.chunk_stream_id e rc1 left
          tail r.chunk_streams inside (omega arith) (omega arith) (omega arith) in
      let body = rw (alone, take-append-drop r.chunk_size msg.body) at rest in
      (
        record rc { cur_body_fragments = []; cur_body_recv = 0 },
        read-more g env _ _ (rw more at chunk)
            ∙ body
            ∙ ap
                (λ (m : Message). ok (
                  m,
                  record r {
                    input = tail;
                    chunk_streams =
                        store msg.chunk_stream_id
                          (record rc { cur_body_fragments = []; cur_body_recv = 0 })
                          r.chunk_streams;
                  },
                ))
                (same_message msg e wc rc v s),
        reset-IsUsed _ _ wc rc s.sync,
      )

  returned :
      (g : ℕ) (tail : List ℕ) (wc : WriterChunkStream) (delta : Option ℕ)
      → timestamp_delta wc.last_timestamp (msg.timestamp / millisecond) ≡ delta
      → ((s : List ℕ) → Starts env r s msg wc delta)
      → length msg.body ≤ g
      → Returned r tail msg
          (behind wc r.chunk_size msg)
          (read (suc g) env (record r { input = message_bytes wc r.chunk_size msg ++ tail }))
  returned g tail wc delta known starts time =
      rw (known, append_assoc)
        (let e = (header_of delta).1 in
          let (rc, chunk, s) = starts (left_bytes e ++ tail) in
          elim (Bool-cases (leb (length msg.body) r.chunk_size)) [
            | inl short ↦ read_short g _ tail _ e rc s (leb→le _ _ short) chunk
            | inr long ↦ read_long g _ tail _ e rc s (ground arith) time chunk
          ])
    where
      header_of : Option ℕ → Header
      header_of d =
          Writer.first_chunk wc msg (msg.timestamp / millisecond) d (length msg.body)
            (take r.chunk_size msg.body)

  -- From states in step, the bytes of a message that follows are read as that message, and the
  -- states are in step again.
  pub read-message_bytes :
      (g : ℕ) (tail : List ℕ) (last : Option (ℕ × ℕ)) (wc : WriterChunkStream)
      → Sync last wc (stream r msg.chunk_stream_id)
      → Follows last msg
      → length msg.body ≤ g
      → Returned r tail msg
          (behind wc r.chunk_size msg)
          (read (suc g) env (record r { input = message_bytes wc r.chunk_size msg ++ tail }))
  unfolding timestamp_delta
  read-message_bytes g tail none wc s f time =
      returned g tail wc none (rw s.no_timestamp) (λ t. Starts-unused env r quiet t msg v wc s) time
  read-message_bytes g tail (some (i, last)) wc s (same, on) time =
      returned g tail wc (some (msg.timestamp / millisecond - last))
        (rw s.w_timestamp (ground arith))
        (λ t. Starts-used env r quiet t msg v wc last (rw (← same) at s) on) time
