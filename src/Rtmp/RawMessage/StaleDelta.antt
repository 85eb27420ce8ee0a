-- ===== src/Rtmp/RawMessage/StaleDelta.antt =====
-- Where Writer and Reader of protocols/rtmp/rawmessage fall out of step. Where time goes back the
-- writer starts afresh with a type 0 chunk and keeps `lastTimestampDelta`; the reader drops its own
-- delta at a type 0 chunk. A message that comes the kept delta later is then written as a type 3
-- chunk, which the reader has to refuse.
use go_live_vod.Prelude.{
  ℕ, suc, ◌+◌, ◌-◌, ◌/◌, ◌≤◌, ◌<◌, ◌≡◌, ap, ◌∙◌, Bool, true, false, List, [], ◌∷◌, ◌++◌, none, some,
  append-nil, append_assoc, arith, ◌==◌, leb, length, take, drop, take_all, drop_all,
}
use go_live_vod.Prelude.Bits.{u32}
use go_live_vod.Prelude.Result.{ok, err}
use go_live_vod.Rtmp.Stream.{no_previous_chunk}
use go_live_vod.Rtmp.Chunk.{Chunk0, Chunk3, extended, marshal0, marshal3}
use go_live_vod.Rtmp.Chunk.RoundTrip.{IsValid0}
use go_live_vod.Rtmp.RawMessage.{Message, millisecond, Streams, store, get_or_new}
use go_live_vod.Rtmp.RawMessage.Reader.{Reader, ReaderChunkStream, read_chunk, read, message_of}
use go_live_vod.Rtmp.RawMessage.Reader
use go_live_vod.Rtmp.RawMessage.Writer.{
  Writer, WriterChunkStream, Header, timestamp_delta, remember, differs,
}
use go_live_vod.Rtmp.RawMessage.Writer
use go_live_vod.Rtmp.RawMessage.Steps.{stream, step0, step3_refused}
use go_live_vod.Rtmp.RawMessage.Fragments.{
  IsOpen, rest_bytes, rest_bytes-nil, read-done, eq_self, stream-store,
}
use go_live_vod.Rtmp.RawMessage.Sync.{IsCarried, IsUsed}
use go_live_vod.Rtmp.RawMessage.RoundTrip.{out_stream, header, behind, message_bytes}
use go_live_vod.Rtmp.RawMessage.Exchange.{write_all, read_all, wire, write_all-wire}

-- `back` goes back in time behind a message at `last` milliseconds, fits one chunk, and `next` is of
-- its kind, the writer's last delta `d` later.
pub record IsTrap (last d chunk_size : ℕ) (back next : Message) : Type 0 where
  pub carried : IsCarried back
  pub next_carried : IsCarried next
  pub goes_back : back.timestamp / millisecond < last
  pub one_chunk : length back.body ≤ chunk_size
  pub same_chunk_stream : next.chunk_stream_id ≡ back.chunk_stream_id
  pub same_stream : next.message_stream_id ≡ back.message_stream_id
  pub same_type : next.type ≡ back.type
  pub same_len : length next.body ≡ length back.body
  pub delta_later : next.timestamp / millisecond ≡ back.timestamp / millisecond + d

module _ (r : Reader) (quiet : r.ack_window_size ≡ 0) (wc : WriterChunkStream) (i last d : ℕ)
    (back next : Message) (t : IsTrap last d r.chunk_size back next)
    (s : IsUsed i last wc (stream r back.chunk_stream_id))
    (kept : wc.last_timestamp_delta ≡ some d) where
  abbrev ts : ℕ
  ts = back.timestamp / millisecond

  abbrev fresh_chunk : Chunk0
  fresh_chunk = record {
    chunk_stream_id = back.chunk_stream_id;
    timestamp = u32 ts;
    body_len = length back.body;
    type = back.type;
    message_stream_id = back.message_stream_id;
    body = take r.chunk_size back.body;
  }

  no_delta : timestamp_delta wc.last_timestamp ts ≡ none
  unfolding timestamp_delta
  no_delta = rw s.w_timestamp (ground (arith, t.goes_back))

  -- The message that goes back is written as one type 0 chunk.
  back-header : header wc r.chunk_size back ≡ (marshal0 fresh_chunk, leb extended (u32 ts))
  unfolding Writer.first_chunk
  back-header = rw no_delta

  back_bytes : message_bytes wc r.chunk_size back ≡ marshal0 fresh_chunk
  back_bytes =
      rw (back-header, drop_all r.chunk_size back.body t.one_chunk)
        (ap (λ (b : List ℕ). marshal0 fresh_chunk ++ b)
            (rest_bytes-nil (length back.body) r.chunk_size back.chunk_stream_id
              (leb extended (u32 ts)))
          ∙ append-nil (marshal0 fresh_chunk))

  abbrev next_chunk : Chunk3
  next_chunk = record { chunk_stream_id = next.chunk_stream_id; body = take r.chunk_size next.body }

  -- The next one leaves everything out that the last one had, and the delta.
  next-header :
      header (behind wc r.chunk_size back) r.chunk_size next
      ≡ (marshal3 next_chunk (leb extended (u32 ts)), leb extended (u32 ts))
  unfolding Writer.first_chunk remember timestamp_delta
  next-header =
      let on : leb ts (next.timestamp / millisecond) ≡ true = ground (arith, t.delta_later) in
      let again : next.timestamp / millisecond - ts ≡ d = omega (arith, t.delta_later) in
      rw (
        no_delta,
        on,
        again,
        t.same_stream,
        t.same_type,
        t.same_len,
        eq_self back.message_stream_id,
        eq_self back.type,
        eq_self (length back.body),
        kept,
        eq_self d,
      )

  abbrev rest_of : List ℕ → List ℕ
  rest_of tail =
      rest_bytes (length next.body) r.chunk_size next.chunk_stream_id (leb extended (u32 ts))
        (drop r.chunk_size next.body)
      ++ tail

  -- The reader's state behind a type 0 chunk.
  abbrev restarted : ReaderChunkStream
  restarted = record (stream r back.chunk_stream_id) {
    cur_message_stream_id = back.message_stream_id;
    cur_type = back.type;
    cur_timestamp = u32 ts;
    cur_timestamp_available = true;
    cur_timestamp_delta_available = false;
    cur_body_len = length back.body;
    has_extended_timestamp = leb extended (u32 ts);
  }

  abbrev between : Reader
  between = record r { chunk_streams = store back.chunk_stream_id restarted r.chunk_streams }

  taken :
      (env : Reader.Env) (g : ℕ) (x : List ℕ)
      → (m : Message) × (read (suc g) env (record r { input = marshal0 fresh_chunk ++ x })
          ≡ ok (m, record between { input = x }))
  unfolding Reader.first_chunk
  taken env g x =
      let c = t.carried in
      let cut = take_all r.chunk_size back.body t.one_chunk in
      let valid : IsValid0 r.chunk_size fresh_chunk = record {
        id_fits = c.id_fits;
        timestamp_fits = omega arith;
        body_len_fits = omega (arith, c.body_fits);
        message_stream_id_fits = c.stream_fits;
        body_cut = rw cut (ground (arith, t.one_chunk));
      } in
      let one =
        step0 env r quiet x fresh_chunk valid c.id_plain c.body_fits s.idle.nothing_received in
      let full : (length back.body == length (take r.chunk_size back.body)) ≡ true =
        rw cut (eq_self (length back.body)) in
      (_, read-done g env _ _ _ (rw full at one))

  stuck :
      (env : Reader.Env) (g : ℕ) (e : Bool) (x : List ℕ)
      → read (suc g) env (record between { input = marshal3 next_chunk e ++ x })
        ≡ err (no_previous_chunk 3)
  unfolding read
  stuck env g e x =
      let here = stream-store back.chunk_stream_id restarted r.chunk_streams in
      let v = t.next_carried in
      let second =
        step3_refused env between quiet x next_chunk e v.id_fits v.id_plain
          (rw (t.same_chunk_stream, here) s.idle.nothing_received)
          (rw (t.same_chunk_stream, here)) in
      rw second

  -- The reader takes the first message, and refuses the second.
  pub refused :
      (env : Reader.Env) (g : ℕ) (tail : List ℕ)
      → read_all (suc g) env 2 (record r {
        input =
            message_bytes wc r.chunk_size back
            ++ (message_bytes (behind wc r.chunk_size back) r.chunk_size next ++ tail);
      })
        ≡ err (no_previous_chunk 3)
  unfolding read_all
  refused env g tail =
      let (m, first) = taken env g (marshal3 next_chunk (leb extended (u32 ts)) ++ rest_of tail) in
      let second = stuck env g (leb extended (u32 ts)) (rest_of tail) in
      rw (
        back_bytes,
        next-header,
        append_assoc (marshal3 next_chunk (leb extended (u32 ts))) _ tail,
        first,
        second,
      )

out_stored :
    (k j : ℕ) (wc : WriterChunkStream) (m : Streams WriterChunkStream)
    → j ≡ k
    → get_or_new j Writer.new_stream (store k wc m) ≡ wc
out_stored k j wc m e = let hit : (k == j) ≡ true = ground arith in rw (hit, get_or_new)

wire-two :
    (chunk_size : ℕ) (m : Streams WriterChunkStream) (a b : Message) (tail : List ℕ)
    → b.chunk_stream_id ≡ a.chunk_stream_id
    → let wc = get_or_new a.chunk_stream_id Writer.new_stream m in
      wire chunk_size m (a ∷ b ∷ []) ++ tail
      ≡ message_bytes wc chunk_size a
        ++ (message_bytes (behind wc chunk_size a) chunk_size b ++ tail)
unfolding wire
wire-two chunk_size m a b tail e =
    let wc = get_or_new a.chunk_stream_id Writer.new_stream m in
    let stored = out_stored a.chunk_stream_id b.chunk_stream_id (behind wc chunk_size a) m e in
    rw (stored, append-nil (message_bytes (behind wc chunk_size a) chunk_size b))
      (append_assoc (message_bytes wc chunk_size a) _ tail)

-- The writer has no trouble with the two messages, and the reader that was in step with it up to the
-- message before them fails on the second.
pub stale_delta :
    (wenv : Writer.Env) (renv : Reader.Env) (w : Writer) (r : Reader) (i last d : ℕ)
    (back next : Message) (tail : List ℕ) (g : ℕ)
    → IsOpen wenv w
    → w.chunk_size ≡ r.chunk_size
    → 1 ≤ r.chunk_size
    → r.ack_window_size ≡ 0
    → IsUsed i last (out_stream w back.chunk_stream_id) (stream r back.chunk_stream_id)
    → (out_stream w back.chunk_stream_id).last_timestamp_delta ≡ some d
    → IsTrap last d r.chunk_size back next
    → (w' : Writer) × (bytes : List ℕ) × (write_all wenv (back ∷ next ∷ []) w ≡ ok w')
      × (w'.output ≡ w.output ++ bytes)
      × (read_all (suc g) renv 2 (record r { input = bytes ++ tail }) ≡ err (no_previous_chunk 3))
stale_delta wenv renv w r i last d back next tail g opened same some_size quiet s kept t =
    let wc = out_stream w back.chunk_stream_id in
    let (w', written, out) =
      write_all-wire wenv (back ∷ next ∷ []) w (t.carried, (t.next_carried, tt)) opened
        (rw same some_size) in
    let bytes = wire r.chunk_size w.chunk_streams (back ∷ next ∷ []) in
    let two = wire-two r.chunk_size w.chunk_streams back next tail t.same_chunk_stream in
    (
      w',
      bytes,
      written,
      out ∙ ap (λ (n : ℕ). w.output ++ wire n w.chunk_streams (back ∷ next ∷ [])) same,
      rw two (refused r quiet wc i last d back next t s kept renv g tail),
    )
