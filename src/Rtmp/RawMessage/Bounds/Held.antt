-- ===== src/Rtmp/RawMessage/Bounds/Held.antt =====
-- What a chunk stream of protocols/rtmp/rawmessage/reader.go holds of a body: bounded by the body's
-- length, and that by the limit.
use go_live_vod.Prelude.{
  ℕ, zero, suc, ◌+◌, ◌-◌, ◌≤◌, ◌<◌, ◌≡◌, refl, ap, List, [], ◌∷◌, ◌++◌, Option, none, some, arith,
  ltb, if◌then◌else◌, length, length-append, take, length-take, Bool-cases, inl, inr,
}
use go_live_vod.Prelude.Bits.{u32}
use go_live_vod.Prelude.Result.{ok, err, ◌>>=◌}
use go_live_vod.Rtmp.Stream.{body_too_big}
use go_live_vod.Rtmp.Ensures.{Ensures, Ensures-bind}
use go_live_vod.Rtmp.RawMessage.{Message, max_body_size, Streams, get_or_new}
use go_live_vod.Rtmp.RawMessage.Reader.{
  Env, Reader, ReaderChunkStream, Step, new_stream, zeros, join_fragments, check_ack, first_chunk,
  next_fragment, with_reader,
}
use go_live_vod.Rtmp.RawMessage.Fragments.{joined, joined-snoc}

-- A chunk stream holds what it received of the body, and that is no more than the body.
pub record IsBounded (rc : ReaderChunkStream) : Type 0 where
  pub received : length (joined rc.cur_body_fragments) ≡ rc.cur_body_recv
  pub within : rc.cur_body_recv ≤ rc.cur_body_len
  pub len_allowed : rc.cur_body_len ≤ max_body_size

abbrev pub AllBounded : Streams ReaderChunkStream → Type 0
AllBounded m = (id : ℕ) → IsBounded (get_or_new id new_stream m)

abbrev pub SmallBody : Option Message → Type 0
SmallBody none = Unit {0}
SmallBody (some msg) = length msg.body ≤ max_body_size

-- Acknowledging leaves the stream and the chunk streams alone.
abbrev SameInput : Reader → Reader → Type 0
SameInput r s =
    (s.input ≡ r.input) × (s.chunk_streams ≡ r.chunk_streams) × (s.chunk_size ≡ r.chunk_size)

check_ack-Ensures : (env : Env) (r : Reader) → Ensures (SameInput r) (check_ack env r)
unfolding check_ack
check_ack-Ensures env r = ground arith

-- What a chunk leaves: a bounded state, and a message within the limit if it is complete.
abbrev pub After : Reader → Step → Type 0
After r (rc, s, m) =
    IsBounded rc
    × SmallBody m
    × (length s.input < length r.input)
    × (s.chunk_streams ≡ r.chunk_streams)
    × (s.chunk_size ≡ r.chunk_size)

length-zeros : (n : ℕ) → length (zeros n) ≡ n
unfolding zeros
length-zeros zero = refl
length-zeros (suc n) = ap suc (length-zeros n)

length-join_fragments : (ps : List (List ℕ)) (n : ℕ) → length (join_fragments ps n) ≡ n
unfolding join_fragments
length-join_fragments [] n = length-zeros n
length-join_fragments (p ∷ ps) n = omega (
  arith,
  length-append (take n p) (join_fragments ps (n - length (take n p))),
  length-join_fragments ps (n - length (take n p)),
  length-take n p,
)

-- A first chunk of at most the body's length, on an idle stream.
pub first_chunk-IsBounded :
    (rc : ReaderChunkStream) (body : List ℕ)
    → length (joined rc.cur_body_fragments) ≡ 0
    → rc.cur_body_recv ≡ 0
    → rc.cur_body_len ≤ max_body_size
    → length body ≤ rc.cur_body_len
    → IsBounded (first_chunk rc body).0 × SmallBody (first_chunk rc body).1
unfolding first_chunk
first_chunk-IsBounded rc body none_held idle small fits = ground (
  arith,
  joined-snoc rc.cur_body_fragments body,
  length-append (joined rc.cur_body_fragments) body,
)

pub next_fragment-IsBounded :
    (rc : ReaderChunkStream) (body : List ℕ)
    → IsBounded rc
    → rc.cur_body_recv + length body ≤ rc.cur_body_len
    → IsBounded (next_fragment rc body).0 × SmallBody (next_fragment rc body).1
unfolding next_fragment
next_fragment-IsBounded rc body b fits = ground (
  arith,
  joined-snoc rc.cur_body_fragments body,
  length-append (joined rc.cur_body_fragments) body,
  length-join_fragments (rc.cur_body_fragments ++ (body ∷ []))
      (u32 (rc.cur_body_recv + length body)),
)

-- Behind the chunk itself: the acknowledgement, and what is made of the body.
pub After-ack :
    (env : Env) (r : Reader) (rest : List ℕ) (p : ReaderChunkStream × Option Message)
    → length rest < length r.input
    → IsBounded p.0 × SmallBody p.1
    → Ensures (After r) (check_ack env (record r { input = rest }) >>= λ r1. ok (with_reader r1 p))
After-ack env r rest p less good =
    Ensures-bind (SameInput (record r { input = rest })) (After r)
      (check_ack env (record r { input = rest })) _
      (check_ack-Ensures env (record r { input = rest }))
      λ s same. (good.0, good.1, rw same.0 less, same.1, same.2)

-- The same where the body's length is checked against the limit.
pub After-ack_limited :
    (env : Env) (r : Reader) (rest : List ℕ) (len : ℕ) (p : ReaderChunkStream × Option Message)
    → length rest < length r.input
    → (len ≤ max_body_size → IsBounded p.0 × SmallBody p.1)
    → Ensures (After r) (
        check_ack env (record r { input = rest }) >>= λ r1.
        if ltb max_body_size len then err (body_too_big len) else ok (with_reader r1 p))
After-ack_limited env r rest len p less good = elim (Bool-cases (ltb max_body_size len)) [
  | inr fine ↦ rw fine (After-ack env r rest p less (good (ground arith)))
  | inl big ↦ rw big (
      Ensures-bind (SameInput (record r { input = rest })) (After r)
        (check_ack env (record r { input = rest })) _
        (check_ack-Ensures env (record r { input = rest })) λ s same e. cc)
]
