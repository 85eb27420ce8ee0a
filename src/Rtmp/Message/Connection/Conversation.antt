-- ===== src/Rtmp/Message/Connection/Conversation.antt =====
-- A whole conversation over protocols/rtmp/message: messages of any kinds, those that change the
-- chunk size among them, written by one Writer and read by one Reader.
use go_live_vod.Prelude.{
  ℕ, suc, ◌/◌, ◌≤◌, ◌≡◌, refl, sym, subst, List, [], ◌∷◌, ◌++◌, append-nil, append_assoc, arith,
  length,
}
use go_live_vod.Prelude.Result.{ok}
use go_live_vod.Rtmp.RawMessage.{millisecond, max_body_size, store, Message as Raw}
use go_live_vod.Rtmp.RawMessage.Reader.{Reader, read}
use go_live_vod.Rtmp.RawMessage.Reader
use go_live_vod.Rtmp.RawMessage.Writer.{Writer}
use go_live_vod.Rtmp.RawMessage.Writer
use go_live_vod.Rtmp.RawMessage.Fragments.{IsOpen, IsOpen-output, IsOpen-streams}
use go_live_vod.Rtmp.RawMessage.Sync.{Follows}
use go_live_vod.Rtmp.RawMessage.Sync
use go_live_vod.Rtmp.RawMessage.RoundTrip.{
  out_stream, message_bytes, behind, write-message_bytes, read-message_bytes,
}
use go_live_vod.Rtmp.RawMessage.Exchange.{Last, IsCoupled}
use go_live_vod.Rtmp.Message.{RtmpMessage, Floats}
use go_live_vod.Rtmp.Message.Carried.{IsCarried}
use go_live_vod.Rtmp.Message.Dispatch.{marshal_message, unmarshal_message}
use go_live_vod.Rtmp.Message.RoundTrip.{unmarshal-marshal}
use go_live_vod.Rtmp.Message.Connection.{
  adjust_writer, read_message, read_messages, write_message, write_messages,
}
use go_live_vod.Rtmp.Message.Connection.Coupled.{
  adjusted-input, adjust_reader-IsSteady, IsCoupled-adjusted, adjusted, adjust_writer-output,
  IsCoupled-behind, adjust_writer-IsOpen, IsSteady,
}

-- The messages with what they are marshalled to. Each is carried whole, by its own format and by
-- the raw one, and goes on where its chunk stream stopped.
abbrev pub IsConversation : Floats → Last → List RtmpMessage → List Raw → Type 0
IsConversation fl last [] [] = Unit {0}
IsConversation fl last [] (raw ∷ raws) = ⊥
IsConversation fl last (m ∷ ms) [] = ⊥
IsConversation fl last (m ∷ ms) (raw ∷ raws) =
    (marshal_message fl m ≡ ok raw)
    × IsCarried m
    × IsSteady m
    × Sync.IsCarried raw
    × Follows (last raw.chunk_stream_id) raw
    × IsConversation fl
        (store raw.chunk_stream_id (raw.message_stream_id, raw.timestamp / millisecond) last) ms
        raws

-- The writer behind a message, and all the bytes of the messages.
abbrev writer_behind : Writer → Raw → Writer
writer_behind w raw =
    let id = raw.chunk_stream_id in
    record w {
      output = w.output ++ message_bytes (out_stream w id) w.chunk_size raw;
      chunk_streams = store id (behind (out_stream w id) w.chunk_size raw) w.chunk_streams;
    }

wire : Writer → List RtmpMessage → List Raw → List ℕ
wire w [] raws = []
wire w (m ∷ ms) [] = []
wire w (m ∷ ms) (raw ∷ raws) =
    message_bytes (out_stream w raw.chunk_stream_id) w.chunk_size raw
    ++ wire (adjust_writer m (writer_behind w raw)) ms raws

unmarshal-ok :
    (fl : Floats) (m : RtmpMessage) (raw : Raw)
    → marshal_message fl m ≡ ok raw
    → IsCarried m
    → unmarshal_message fl raw ≡ ok m
unmarshal-ok fl m raw e carried =
    let (raw', marshalled, back) = unmarshal-marshal fl m carried in
    let same : raw' ≡ raw = cc in subst (λ x. unmarshal_message fl x ≡ ok m) same back

module _ (fl : Floats) (wenv : Writer.Env) (renv : Reader.Env) (g : ℕ)
    (time : max_body_size ≤ g) where
  write_messages-wire :
      (last : Last) (ms : List RtmpMessage) (raws : List Raw) (w : Writer)
      → IsOpen wenv w
      → 1 ≤ w.chunk_size
      → IsConversation fl last ms raws
      → (w' : Writer) × (write_messages fl wenv ms w ≡ ok w')
        × (w'.output ≡ w.output ++ wire w ms raws)
  unfolding write_messages write_message wire
  write_messages-wire last [] [] w h some_size v = (w, refl, rw append-nil)
  write_messages-wire last [] (raw ∷ raws) w h some_size v = absurd v
  write_messages-wire last (m ∷ ms) [] w h some_size v = absurd v
  write_messages-wire last (m ∷ ms) (raw ∷ raws) w h some_size (e, carried, steady, v, f, vs) =
      let id = raw.chunk_stream_id in
      let p : ℕ × ℕ = (raw.message_stream_id, raw.timestamp / millisecond) in
      let w1 = writer_behind w raw in
      let h1 : IsOpen wenv w1 =
        IsOpen-streams wenv (record w { output = w1.output }) w1.chunk_streams
          (IsOpen-output wenv w w1.output h) in
      let (h2, some_size2) = adjust_writer-IsOpen wenv m w1 steady h1 some_size in
      let (w', written, out) =
        write_messages-wire (store id p last) ms raws (adjust_writer m w1) h2 some_size2 vs in
      (
        w',
        rw (e, write-message_bytes wenv w raw v h some_size) written,
        rw (out, adjust_writer-output m w1, append_assoc),
      )

  read_raw :
      (last : Last) (w : Writer) (r : Reader) (raw : Raw) (t : List ℕ)
      → IsCoupled wenv last w r
      → Sync.IsCarried raw
      → Follows (last raw.chunk_stream_id) raw
      → (rc : Reader.ReaderChunkStream) × (read (suc g) renv (record r {
        input = message_bytes (out_stream w raw.chunk_stream_id) w.chunk_size raw ++ t;
      })
          ≡ ok (
            raw,
            record r { input = t; chunk_streams = store raw.chunk_stream_id rc r.chunk_streams },
          ))
        × Sync.IsUsed raw.message_stream_id
            (raw.timestamp / millisecond)
            (behind (out_stream w raw.chunk_stream_id) w.chunk_size raw)
            rc
  read_raw last w r raw t c v f =
      let wc = out_stream w raw.chunk_stream_id in
      subst
        (λ n.
          (rc : Reader.ReaderChunkStream) × (read (suc g) renv
              (record r { input = message_bytes wc n raw ++ t })
            ≡ ok (
              raw,
              record r { input = t; chunk_streams = store raw.chunk_stream_id rc r.chunk_streams },
            ))
          × Sync.IsUsed raw.message_stream_id (raw.timestamp / millisecond) (behind wc n raw) rc)
        (sym c.same_size)
        (read-message_bytes renv r c.quiet c.some_size raw v g t (last raw.chunk_stream_id) wc
          (c.in_step raw.chunk_stream_id) f (omega (arith, v.body_fits)))

  read_messages-wire :
      (last : Last) (ms : List RtmpMessage) (raws : List Raw) (w : Writer) (r : Reader)
      (tail : List ℕ)
      → IsCoupled wenv last w r
      → IsConversation fl last ms raws
      → (r' : Reader) × (read_messages fl
            (suc g)
            renv
            (length ms)
            (record r { input = wire w ms raws ++ tail })
          ≡ ok (ms, r'))
        × (r'.input ≡ tail)
  unfolding read_messages read_message wire
  read_messages-wire last [] [] w r tail c v = (record r { input = tail }, refl, refl)
  read_messages-wire last [] (raw ∷ raws) w r tail c v = absurd v
  read_messages-wire last (m ∷ ms) [] w r tail c v = absurd v
  read_messages-wire last (m ∷ ms) (raw ∷ raws) w r tail c (e, carried, steady, v, f, vs) =
      let id = raw.chunk_stream_id in
      let w1 = writer_behind w raw in
      let t = wire (adjust_writer m w1) ms raws ++ tail in
      let (rc, one, used) = read_raw last w r raw t c v f in
      let r1 : Reader = record r { chunk_streams = store id rc r.chunk_streams } in
      let c1 =
        IsCoupled-behind wenv last w r raw w1.output (behind (out_stream w id) w.chunk_size raw) rc
          used c in
      let p : ℕ × ℕ = (raw.message_stream_id, raw.timestamp / millisecond) in
      let (r', all, left) =
        read_messages-wire (store id p last) ms raws (adjust_writer m w1) (adjusted m r1) tail
          (IsCoupled-adjusted wenv (store id p last) m w1 r1 steady c1) vs in
      (
        r',
        rw (
          append_assoc,
          one,
          unmarshal-ok fl m raw e carried,
          adjust_reader-IsSteady m (record r1 { input = t }) steady,
          adjusted-input m r1 t,
          all,
        ),
        left,
      )

  -- A conversation (`IsConversation`: messages that are carried whole, none of which sets a window,
  -- with chunk sizes from 1 to the largest body) is written without an error by a writer coupled
  -- with the reader, and what it writes is read as exactly those messages, a change of the chunk
  -- size taking effect on both sides behind its message. What follows is left in the
  -- stream. Each call of `Read` has one round more than the largest body has bytes, or more.
  pub read_messages-write_messages :
      (last : Last) (ms : List RtmpMessage) (raws : List Raw) (w : Writer) (r : Reader)
      (tail : List ℕ)
      → IsCoupled wenv last w r
      → IsConversation fl last ms raws
      → (w' : Writer) × (bytes : List ℕ) × (r' : Reader) × (write_messages fl wenv ms w ≡ ok w')
        × (w'.output ≡ w.output ++ bytes)
        × (read_messages fl (suc g) renv (length ms) (record r { input = bytes ++ tail })
            ≡ ok (ms, r'))
        × (r'.input ≡ tail)
  read_messages-write_messages last ms raws w r tail c v =
      let (w', written, out) =
        write_messages-wire last ms raws w c.opened (omega (arith, c.same_size, c.some_size)) v in
      let (r', all, left) = read_messages-wire last ms raws w r tail c v in
      (w', wire w ms raws, r', written, out, all, left)
