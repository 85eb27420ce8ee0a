-- ===== src/Rtmp/RawMessage/Fragments.antt =====
-- The chunks behind a message's first: what the loop of writeMessage
-- (protocols/rtmp/rawmessage/writer.go) puts out, and the reader (reader.go) putting the body
-- together again from them.
use go_live_vod.Prelude.{
  ℕ, zero, suc, ◌+◌, ◌-◌, ◌^◌, ◌≤◌, ◌<◌, ◌≡◌, refl, sym, ap, ◌∙◌, fun_ext, Bool, true, false, List,
  [], ◌∷◌, ◌++◌, none, some, append-nil, append_assoc, arith, ◌==◌, length, take, drop,
  length-append, length-take, length-drop, take_all, take-append-drop,
}
use go_live_vod.Prelude.Bits.{u32}
use go_live_vod.Prelude.Result.{Result, ok}
use go_live_vod.Rtmp.Stream.{Error}
use go_live_vod.Rtmp.Chunk.{Chunk3, cap_len, marshal3}
use go_live_vod.Rtmp.Chunk.RoundTrip.{IsValid3}
use go_live_vod.Rtmp.RawMessage.{Message, Streams, store, get_or_new}
use go_live_vod.Rtmp.RawMessage.Reader.{
  Reader, ReaderChunkStream, new_stream, join_fragments, next_fragment, read_chunk, read,
  message_of, stamp,
}
use go_live_vod.Rtmp.RawMessage.Reader
use go_live_vod.Rtmp.RawMessage.Writer.{
  Writer, WriterChunkStream, write_chunk, write_rest, ack_overdue,
}
use go_live_vod.Rtmp.RawMessage.Writer
use go_live_vod.Rtmp.RawMessage.Steps.{stream, after_chunk, step3_next}

-- The bytes of the chunks behind the first.
pub rest_bytes : ℕ → ℕ → ℕ → Bool → List ℕ → List ℕ
rest_bytes fuel chunk_size id e [] = []
rest_bytes zero chunk_size id e (b ∷ rest) = []
rest_bytes (suc fuel) chunk_size id e (b ∷ rest) =
    marshal3 (record { chunk_stream_id = id; body = take chunk_size (b ∷ rest) }) e
    ++ rest_bytes fuel chunk_size id e (drop chunk_size (b ∷ rest))

pub rest_bytes-nil : (fuel chunk_size id : ℕ) (e : Bool) → rest_bytes fuel chunk_size id e [] ≡ []
unfolding rest_bytes
rest_bytes-nil zero chunk_size id e = refl
rest_bytes-nil (suc fuel) chunk_size id e = refl

-- The connection takes all that is written, and the peer's acknowledgements keep up.
pub record IsOpen (env : Writer.Env) (w : Writer) : Type 0 where
  pub accepts : (o buf : List ℕ) → env.accepts o buf ≡ true
  pub flushes : (o : List ℕ) → env.flushes o ≡ true
  pub in_window : (o : List ℕ) → ack_overdue env (record w { output = o }) ≡ false

pub write_chunk_open :
    (env : Writer.Env) (buf : List ℕ) (w : Writer)
    → IsOpen env w
    → write_chunk env buf w ≡ ok (record w { output = w.output ++ buf })
unfolding write_chunk
write_chunk_open env buf w open_ = rw (open_.in_window w.output, open_.accepts w.output buf)

pub IsOpen-output :
    (env : Writer.Env) (w : Writer) (o : List ℕ)
    → IsOpen env w
    → IsOpen env (record w { output = o })
IsOpen-output env w o h = record {
  accepts = h.accepts;
  flushes = h.flushes;
  in_window = λ o'. h.in_window o';
}

-- The chunk streams have no part in it.
pub IsOpen-streams :
    (env : Writer.Env) (w : Writer) (m : Streams WriterChunkStream)
    → IsOpen env w
    → IsOpen env (record w { chunk_streams = m })
unfolding ack_overdue
IsOpen-streams env w m h = record {
  accepts = h.accepts;
  flushes = h.flushes;
  in_window = λ o. h.in_window o;
}

-- The loop of `writeMessage` writes those bytes, and ends with as much fuel as there are bytes.
pub write_rest-rest_bytes :
    (fuel : ℕ) (env : Writer.Env) (id : ℕ) (e : Bool) (rest : List ℕ) (w : Writer)
    → IsOpen env w
    → 1 ≤ w.chunk_size
    → length rest ≤ fuel
    → write_rest fuel env id e rest w
      ≡ ok (record w { output = w.output ++ rest_bytes fuel w.chunk_size id e rest })
unfolding write_rest rest_bytes
write_rest-rest_bytes zero env id e [] w h some_size enough = rw (h.flushes w.output, append-nil)
write_rest-rest_bytes (suc fuel) env id e [] w h some_size enough =
    rw (h.flushes w.output, append-nil)
write_rest-rest_bytes zero env id e (b ∷ rest) w h some_size enough = absurd (omega arith)
write_rest-rest_bytes (suc fuel) env id e (b ∷ rest) w h some_size enough =
    let c : Chunk3 = record { chunk_stream_id = id; body = take w.chunk_size (b ∷ rest) } in
    let o : List ℕ = w.output ++ marshal3 c e in
    let left : length (drop w.chunk_size (b ∷ rest)) ≤ fuel =
      omega (arith, length-drop w.chunk_size (b ∷ rest)) in
    let ih =
      write_rest-rest_bytes fuel env id e (drop w.chunk_size (b ∷ rest)) (record w { output = o })
        (IsOpen-output env w o h) some_size left in
    rw (write_chunk_open env (marshal3 c e) w h, ih, append_assoc)

-- All fragments, one behind the other.
abbrev pub joined : List (List ℕ) → List ℕ
joined [] = []
joined (p ∷ ps) = p ++ joined ps

pub joined-snoc : (ps : List (List ℕ)) (p : List ℕ) → joined (ps ++ (p ∷ [])) ≡ joined ps ++ p
joined-snoc [] p = append-nil p
joined-snoc (q ∷ ps) p = ap (◌++◌ q) (joined-snoc ps p) ∙ sym (append_assoc q (joined ps) p)

-- A buffer of the right size is filled exactly.
pub join_fragments-joined :
    (ps : List (List ℕ)) (n : ℕ) → length (joined ps) ≡ n → join_fragments ps n ≡ joined ps
unfolding join_fragments
join_fragments-joined [] zero h = refl
join_fragments-joined [] (suc n) h = absurd (omega arith)
join_fragments-joined (p ∷ ps) n h =
    let fits : length p ≤ n = omega (arith, length-append p (joined ps)) in
    let rest : length (joined ps) ≡ n - length p = omega (arith, length-append p (joined ps)) in
    rw (take_all n p fits, join_fragments-joined ps (n - length p) rest)

pub eq_self : (k : ℕ) → (k == k) ≡ true
eq_self k = ground arith

-- The later of two writes to one key wins.
pub store-store :
    {A : Type 0} (k : ℕ) (a b : A) (m : Streams A) → store k a (store k b m) ≡ store k a m
store-store k a b m = fun_ext λ j. ground arith

-- What a message's last chunk leaves: the message, and the stream ready for the next one.
abbrev pub complete :
    Reader
    → ℕ
    → List ℕ
    → Streams ReaderChunkStream
    → ReaderChunkStream
    → List ℕ
    → Result Error (Message × Reader)
complete r id tail m rc body = ok (
  record (message_of rc body) { chunk_stream_id = id },
  record r {
    input = tail;
    chunk_streams = store id (record rc { cur_body_fragments = []; cur_body_recv = 0 }) m;
  },
)

-- `Read` goes on after a chunk that completes nothing, and ends with one that does.
pub read-more :
    (g : ℕ) (env : Reader.Env) (r r1 : Reader)
    → read_chunk env r ≡ ok (r1, none)
    → read (suc g) env r ≡ read g env r1
unfolding read
read-more g env r r1 h = rw h

pub read-done :
    (g : ℕ) (env : Reader.Env) (r r1 : Reader) (msg : Message)
    → read_chunk env r ≡ ok (r1, some msg)
    → read (suc g) env r ≡ ok (msg, r1)
unfolding read
read-done g env r r1 msg h = rw h

-- The reader stands inside a message: some bytes of the body are there, `rest` is still to come.
pub record Inside (id : ℕ) (e : Bool) (rc : ReaderChunkStream) (rest : List ℕ) : Type 0 where
  pub id_fits : id < 64
  pub id_plain : 2 ≤ id
  pub wide : rc.has_extended_timestamp ≡ e
  pub some_received : 0 < rc.cur_body_recv
  pub received : length (joined rc.cur_body_fragments) ≡ rc.cur_body_recv
  pub total : rc.cur_body_len ≡ rc.cur_body_recv + length rest
  pub fits : rc.cur_body_len < 2 ^ 32

pub stream-store :
    (id : ℕ) (rc : ReaderChunkStream) (m : Streams ReaderChunkStream)
    → get_or_new id new_stream (store id rc m) ≡ rc
stream-store id rc m = rw (eq_self id, get_or_new)

-- The stream's state with one more fragment.
abbrev with_piece : ReaderChunkStream → List ℕ → ReaderChunkStream
with_piece rc piece = record rc {
  cur_body_fragments = rc.cur_body_fragments ++ (piece ∷ []);
  cur_body_recv = rc.cur_body_recv + length piece;
}

-- The length that the reader asks for is the length of the piece that the writer cut.
piece_len :
    (id : ℕ) (e : Bool) (rc : ReaderChunkStream) (rest : List ℕ) (chunk_size : ℕ)
    → Inside id e rc rest
    → length (take chunk_size rest)
      ≡ cap_len (u32 (rc.cur_body_len + 2 ^ 32 - rc.cur_body_recv)) chunk_size
piece_len id e rc rest chunk_size h =
    let left : u32 (rc.cur_body_len + 2 ^ 32 - rc.cur_body_recv) ≡ length rest = omega (arith, h) in
    rw left (ground (arith, length-take chunk_size rest))

module _ (env : Reader.Env) (r : Reader) (quiet : r.ack_window_size ≡ 0) where
  -- One chunk of the rest.
  next_piece :
      (id : ℕ) (e : Bool) (rc : ReaderChunkStream) (rest tail : List ℕ)
      (m : Streams ReaderChunkStream)
      → Inside id e rc rest
      → read_chunk env (record r {
        input = marshal3 (record { chunk_stream_id = id; body = take r.chunk_size rest }) e ++ tail;
        chunk_streams = store id rc m;
      })
        ≡ after_chunk
            (record r { chunk_streams = store id rc m })
            id
            tail
            (next_fragment rc (take r.chunk_size rest))
  next_piece id e rc rest tail m h =
      let c : Chunk3 = record { chunk_stream_id = id; body = take r.chunk_size rest } in
      let s = stream-store id rc m in
      let valid : IsValid3
          (cap_len
            (u32 (
              (stream (record r { chunk_streams = store id rc m }) id).cur_body_len
              + 2 ^ 32
              - (stream (record r { chunk_streams = store id rc m }) id).cur_body_recv))
            r.chunk_size)
          c =
        rw s (record { id_fits = h.id_fits; body_cut = piece_len id e rc rest r.chunk_size h }) in
      (rw s at (
        step3_next env (record r { chunk_streams = store id rc m }) quiet tail c e valid h.id_plain
          (rw s h.wide) (rw s (ground (arith, h.some_received)))))

-- The last piece completes the message.
last_fragment :
    (id : ℕ) (e : Bool) (rc : ReaderChunkStream) (rest : List ℕ)
    → Inside id e rc rest
    → next_fragment rc rest ≡ (
      record rc { cur_body_fragments = []; cur_body_recv = 0 },
      some (message_of rc (joined rc.cur_body_fragments ++ rest)),
    )
unfolding next_fragment
last_fragment id e rc rest h =
    let recv : u32 (rc.cur_body_recv + length rest) ≡ rc.cur_body_len = omega (arith, h) in
    let size : length (joined (rc.cur_body_fragments ++ (rest ∷ []))) ≡ rc.cur_body_len =
      rw (joined-snoc rc.cur_body_fragments rest)
        (omega (arith, h, length-append (joined rc.cur_body_fragments) rest)) in
    rw (recv, eq_self rc.cur_body_len, join_fragments-joined _ _ size, joined-snoc)

-- Any other piece is kept.
middle_fragment :
    (id : ℕ) (e : Bool) (rc : ReaderChunkStream) (piece left : List ℕ)
    → Inside id e rc (piece ++ left)
    → 0 < length left
    → next_fragment rc piece ≡ (with_piece rc piece, none)
unfolding next_fragment
middle_fragment id e rc piece left h more =
    let recv : u32 (rc.cur_body_recv + length piece) ≡ rc.cur_body_recv + length piece =
      omega (arith, h, length-append piece left) in
    let open_ : (rc.cur_body_len == rc.cur_body_recv + length piece) ≡ false =
      ground (arith, h.total, length-append piece left) in
    rw (recv, open_)

still-Inside :
    (id : ℕ) (e : Bool) (rc : ReaderChunkStream) (piece left : List ℕ)
    → Inside id e rc (piece ++ left)
    → Inside id e (with_piece rc piece) left
still-Inside id e rc piece left h = record {
  id_fits = h.id_fits;
  id_plain = h.id_plain;
  wide = h.wide;
  some_received = omega (arith, h.some_received);
  received =
      rw (joined-snoc rc.cur_body_fragments piece)
        (omega (arith, h.received, length-append (joined rc.cur_body_fragments) piece));
  total = omega (arith, h.total, length-append piece left);
  fits = h.fits;
}

module _ (env : Reader.Env) (r : Reader) (quiet : r.ack_window_size ≡ 0)
    (some_size : 1 ≤ r.chunk_size) where
  -- One chunk of the rest, and then what follows it: nothing, or what `ih` reads.
  read_piece :
      (g id : ℕ) (e : Bool) (rc : ReaderChunkStream) (piece left tail rb : List ℕ)
      (m : Streams ReaderChunkStream)
      → Inside id e rc (piece ++ left)
      → take r.chunk_size (piece ++ left) ≡ piece
      → (left ≡ [] → rb ≡ [])
      → (0 < length left
          → read g env (record r {
            input = rb ++ tail;
            chunk_streams = store id (with_piece rc piece) (store id rc m);
          })
            ≡ complete r id tail
                (store id rc m)
                (with_piece rc piece)
                (joined (rc.cur_body_fragments ++ (piece ∷ [])) ++ left))
      → read (suc g) env (record r {
        input =
            (marshal3 (record { chunk_stream_id = id; body = take r.chunk_size (piece ++ left) }) e
              ++ rb)
            ++ tail;
        chunk_streams = store id rc m;
      })
        ≡ complete r id tail m rc (joined rc.cur_body_fragments ++ (piece ++ left))
  read_piece g id e rc piece [] tail rb m h cut none_left ih =
      let whole = append-nil piece in
      let h' : Inside id e rc piece = rw whole at h in
      let cut' : take r.chunk_size piece ≡ piece = rw whole at cut in
      let last = last_fragment id e rc piece h' in
      let chunk = next_piece env r quiet id e rc piece tail m h' in
      let reset = record rc { cur_body_fragments = []; cur_body_recv = 0 } in
      let now = rw (cut', last, store-store id reset rc m) at chunk in
      rw (none_left refl, append-nil (marshal3 _ e), whole, cut') (read-done g env _ _ _ now)
  read_piece g id e rc piece (x ∷ xs) tail rb m h cut none_left ih =
      let middle = middle_fragment id e rc piece (x ∷ xs) h (omega arith) in
      let chunk = next_piece env r quiet id e rc (piece ++ (x ∷ xs)) (rb ++ tail) m h in
      let reset = record rc { cur_body_fragments = []; cur_body_recv = 0 } in
      let now = rw (cut, middle) at chunk in
      let later = ih (omega arith) in
      let later' =
        rw
          (
            joined-snoc rc.cur_body_fragments piece,
            append_assoc (joined rc.cur_body_fragments) piece (x ∷ xs),
            store-store id reset rc m,
          )
          at later in
      rw (cut, append_assoc (marshal3 _ e) rb tail) (read-more g env _ _ now ∙ later')

  -- Reading all that the writer's loop wrote completes the message with the whole body.
  pub read-rest_bytes :
      (fuel g : ℕ) (id : ℕ) (e : Bool) (rc : ReaderChunkStream) (rest tail : List ℕ)
      (m : Streams ReaderChunkStream)
      → Inside id e rc rest
      → 0 < length rest
      → length rest ≤ fuel
      → length rest ≤ g
      → read g env (record r {
        input = rest_bytes fuel r.chunk_size id e rest ++ tail;
        chunk_streams = store id rc m;
      })
        ≡ complete r id tail m rc (joined rc.cur_body_fragments ++ rest)
  unfolding rest_bytes
  read-rest_bytes fuel g id e rc [] tail m h more enough time = absurd (omega arith)
  read-rest_bytes zero g id e rc (b ∷ rest) tail m h more enough time = absurd (omega arith)
  read-rest_bytes (suc fuel) zero id e rc (b ∷ rest) tail m h more enough time =
      absurd (omega arith)
  read-rest_bytes (suc fuel) (suc g) id e rc (b ∷ rest) tail m h more enough time =
      let cs = r.chunk_size in
      let piece = take cs (b ∷ rest) in
      let left = drop cs (b ∷ rest) in
      let whole = take-append-drop cs (b ∷ rest) in
      let shorter : length left ≤ fuel × length left ≤ g =
        omega (arith, length-drop cs (b ∷ rest)) in
      let h' : Inside id e rc (piece ++ left) = rw whole h in
      let cut : take cs (piece ++ left) ≡ piece = rw whole refl in
      let ih : 0 < length left
          → read g env (record r {
            input = rest_bytes fuel cs id e left ++ tail;
            chunk_streams = store id (with_piece rc piece) (store id rc m);
          })
            ≡ complete r id tail (store id rc m) (with_piece rc piece)
                (joined (rc.cur_body_fragments ++ (piece ∷ [])) ++ left) =
        λ p.
          read-rest_bytes fuel g id e (with_piece rc piece) left tail (store id rc m)
            (still-Inside id e rc piece left h') p shorter.0 shorter.1 in
      let empty : left ≡ [] → rest_bytes fuel cs id e left ≡ [] =
        λ z. ap (rest_bytes fuel cs id e) z ∙ rest_bytes-nil fuel cs id e in
      rw whole at
        (read_piece g id e rc piece left tail (rest_bytes fuel cs id e left) m h' cut empty ih)
