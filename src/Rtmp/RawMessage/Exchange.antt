-- ===== src/Rtmp/RawMessage/Exchange.antt =====
-- A whole exchange over protocols/rtmp/rawmessage: any number of messages on any chunk streams,
-- written by one Writer and read by one Reader.
use go_live_vod.Prelude.{
  ℕ, zero, suc, ◌/◌, ◌≤◌, ◌≡◌, refl, ap, ◌∙◌, List, [], ◌∷◌, ◌++◌, append-nil, append_assoc, arith,
  ◌==◌, length, All, Bool-cases, inl, inr,
}
use go_live_vod.Prelude.Result.{Result, ok, ◌>>=◌}
use go_live_vod.Rtmp.Stream.{Error}
use go_live_vod.Rtmp.RawMessage.{Message, millisecond, max_body_size, Streams, store, get_or_new}
use go_live_vod.Rtmp.RawMessage.Reader.{Reader, ReaderChunkStream, read}
use go_live_vod.Rtmp.RawMessage.Reader
use go_live_vod.Rtmp.RawMessage.Writer.{Writer, WriterChunkStream, write}
use go_live_vod.Rtmp.RawMessage.Writer
use go_live_vod.Rtmp.RawMessage.Steps.{stream}
use go_live_vod.Rtmp.RawMessage.Fragments.{IsOpen, IsOpen-output, IsOpen-streams}
use go_live_vod.Rtmp.RawMessage.Sync.{IsCarried, Sync, IsUsed, Follows}
use go_live_vod.Rtmp.RawMessage.RoundTrip.{
  out_stream, message_bytes, behind, write-message_bytes, read-message_bytes,
}

-- Calls of `Write` one after the other, up to the first that fails.
unfoldable pub write_all : Writer.Env → List Message → Writer → Result Error Writer
write_all env [] w = ok w
write_all env (msg ∷ msgs) w = do w1 ← write env msg w; write_all env msgs w1

-- `n` calls of `Read`, each with the same fuel, up to the first that fails.
unfoldable pub read_all : ℕ → Reader.Env → ℕ → Reader → Result Error (List Message × Reader)
read_all fuel env zero r = ok ([], r)
read_all fuel env (suc n) r = do
  (msg, r1) ← read fuel env r
  (msgs, r2) ← read_all fuel env n r1
  ok (msg ∷ msgs, r2)

-- For each chunk stream the message stream and the time in milliseconds of its last message.
abbrev pub Last : Type 0
Last = Streams (ℕ × ℕ)

-- Every message can be carried, and on each chunk stream the message stream stays the same and time
-- does not go back.
abbrev pub IsOrderly : Last → List Message → Type 0
IsOrderly last [] = Unit {0}
IsOrderly last (msg ∷ msgs) =
    IsCarried msg
    × Follows (last msg.chunk_stream_id) msg
    × IsOrderly
        (store msg.chunk_stream_id (msg.message_stream_id, msg.timestamp / millisecond) last) msgs

-- Writer and reader use one chunk size, no acknowledgement stops them, and they are in step on
-- every chunk stream.
pub record IsCoupled (env : Writer.Env) (last : Last) (w : Writer) (r : Reader) : Type 0 where
  pub same_size : w.chunk_size ≡ r.chunk_size
  pub some_size : 1 ≤ r.chunk_size
  pub quiet : r.ack_window_size ≡ 0
  pub opened : IsOpen env w
  pub in_step : (id : ℕ) → Sync (last id) (out_stream w id) (stream r id)

-- A message on one chunk stream leaves the others alone.
pub store-Sync :
    (k j : ℕ) (p : ℕ × ℕ) (wc : WriterChunkStream) (rc : ReaderChunkStream) (last : Last)
    (wm : Streams WriterChunkStream) (rm : Streams ReaderChunkStream)
    → IsUsed p.0 p.1 wc rc
    → Sync (last j) (get_or_new j Writer.new_stream wm) (get_or_new j Reader.new_stream rm)
    → Sync
        (store k p last j)
        (get_or_new j Writer.new_stream (store k wc wm))
        (get_or_new j Reader.new_stream (store k rc rm))
store-Sync k j p wc rc last wm rm now before = elim (Bool-cases (k == j)) [
  | inl own ↦ rw (own, get_or_new) now
  | inr other ↦ rw (other, get_or_new) before
]

-- All the bytes of the messages, and the writer's streams behind them.
unfoldable pub wire : ℕ → Streams WriterChunkStream → List Message → List ℕ
wire chunk_size m [] = []
wire chunk_size m (msg ∷ msgs) =
    let id = msg.chunk_stream_id in
    let wc = get_or_new id Writer.new_stream m in
    message_bytes wc chunk_size msg ++ wire chunk_size (store id (behind wc chunk_size msg) m) msgs

-- Writing succeeds, whether time goes back or not.
pub write_all-wire :
    (env : Writer.Env) (msgs : List Message) (w : Writer)
    → All IsCarried msgs
    → IsOpen env w
    → 1 ≤ w.chunk_size
    → (w' : Writer) × (write_all env msgs w ≡ ok w')
      × (w'.output ≡ w.output ++ wire w.chunk_size w.chunk_streams msgs)
unfolding write_all wire
write_all-wire env [] w v h some_size = (w, refl, rw append-nil)
write_all-wire env (msg ∷ msgs) w (v, vs) h some_size =
    let id = msg.chunk_stream_id in
    let wc = out_stream w id in
    let w1 : Writer = record w {
      output = w.output ++ message_bytes wc w.chunk_size msg;
      chunk_streams = store id (behind wc w.chunk_size msg) w.chunk_streams;
    } in
    let h1 : IsOpen env w1 =
      IsOpen-streams env _ (store id (behind wc w.chunk_size msg) w.chunk_streams)
        (IsOpen-output env w (w.output ++ message_bytes wc w.chunk_size msg) h) in
    let (w', all, out) = write_all-wire env msgs w1 vs h1 some_size in
    (w', rw (write-message_bytes env w msg v h some_size) all, rw (out, append_assoc))

All-IsCarried : (last : Last) (msgs : List Message) → IsOrderly last msgs → All IsCarried msgs
All-IsCarried last [] v = tt
All-IsCarried last (msg ∷ msgs) (v, _, vs) = (
  v,
  All-IsCarried
      (store msg.chunk_stream_id (msg.message_stream_id, msg.timestamp / millisecond) last) msgs vs,
)

module _ (env : Reader.Env) (g : ℕ) (time : max_body_size ≤ g) where
  read_all-wire :
      (last : Last) (msgs : List Message) (wm : Streams WriterChunkStream) (r : Reader)
      (tail : List ℕ)
      → IsOrderly last msgs
      → 1 ≤ r.chunk_size
      → r.ack_window_size ≡ 0
      → ((id : ℕ) → Sync (last id) (get_or_new id Writer.new_stream wm) (stream r id))
      → (r' : Reader) × (read_all
            (suc g)
            env
            (length msgs)
            (record r { input = wire r.chunk_size wm msgs ++ tail })
          ≡ ok (msgs, r'))
        × (r'.input ≡ tail)
  unfolding read_all wire
  read_all-wire last [] wm r tail v some_size quiet s = (record r { input = tail }, refl, refl)
  read_all-wire last (msg ∷ msgs) wm r tail (v, f, vs) some_size quiet s =
      let id = msg.chunk_stream_id in
      let wc = get_or_new id Writer.new_stream wm in
      let wm1 = store id (behind wc r.chunk_size msg) wm in
      let t = wire r.chunk_size wm1 msgs ++ tail in
      let (rc, one, used) =
        read-message_bytes env r quiet some_size msg v g t (last id) wc (s id) f
          (omega (arith, v.body_fits)) in
      let r1 : Reader = record r { chunk_streams = store id rc r.chunk_streams } in
      let p : ℕ × ℕ = (msg.message_stream_id, msg.timestamp / millisecond) in
      let (r', all, left) =
        read_all-wire (store id p last) msgs wm1 r1 tail vs some_size quiet (λ j.
          store-Sync id j p (behind wc r.chunk_size msg) rc last wm r.chunk_streams used (s j)) in
      (r', rw (append_assoc, one, all), left)

-- Whatever sequence of orderly messages is written, the bytes that come out are read back as exactly
-- that sequence, and what follows them is left in the stream: over all chunk sizes, all bodies up to
-- the limit and any interleaving of chunk streams. Reading a message takes no more rounds than the
-- largest body has bytes, and one.
pub read_all-write_all :
    (wenv : Writer.Env) (renv : Reader.Env) (last : Last) (w : Writer) (r : Reader)
    (msgs : List Message) (tail : List ℕ) (g : ℕ)
    → IsCoupled wenv last w r
    → IsOrderly last msgs
    → max_body_size ≤ g
    → (w' : Writer) × (bytes : List ℕ) × (r' : Reader) × (write_all wenv msgs w ≡ ok w')
      × (w'.output ≡ w.output ++ bytes)
      × (read_all (suc g) renv (length msgs) (record r { input = bytes ++ tail }) ≡ ok (msgs, r'))
      × (r'.input ≡ tail)
read_all-write_all wenv renv last w r msgs tail g c v time =
    let (w', written, out) =
      write_all-wire wenv msgs w (All-IsCarried last msgs v) c.opened
        (rw c.same_size c.some_size) in
    let (r', all, left) =
      read_all-wire renv g time last msgs w.chunk_streams r tail v c.some_size c.quiet c.in_step in
    (
      w',
      wire r.chunk_size w.chunk_streams msgs,
      r',
      written,
      out ∙ ap (λ (n : ℕ). w.output ++ wire n w.chunk_streams msgs) c.same_size,
      all,
      left,
    )
