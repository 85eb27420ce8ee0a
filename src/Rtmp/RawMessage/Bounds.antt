-- ===== src/Rtmp/RawMessage/Bounds.antt =====
-- What the reader of protocols/rtmp/rawmessage/reader.go ensures on any bytes at all: it ends, and
-- never holds nor returns more than a body of the maximum size for a chunk stream.
pub mod Held
pub mod Kinds
use go_live_vod.Prelude.{
  ℕ, zero, suc, ◌+◌, ◌-◌, ◌%◌, ◌^◌, ◌≤◌, ◌<◌, ◌≡◌, ◌≢◌, refl, ap, Bool, true, false, not, List, [],
  ◌∷◌, ◌++◌, Option, none, some, arith, bit_and, ltb, leb, ◌==◌, if◌then◌else◌, length,
  length-append, take, length-take, Bool-cases, Option-cases, inl, inr,
}
use go_live_vod.Prelude.Bits.{u32, shr}
use go_live_vod.Prelude.Result.{Result, ok, err, ◌>>=◌}
use go_live_vod.Rtmp.Stream.{Error, out_of_fuel, body_too_big}
use go_live_vod.Rtmp.Ensures.{Ensures, Ensures-bind, Ensures-weaken}
use go_live_vod.Rtmp.Chunk.{Chunk0, cap_len, read0, read1, read2, read3}
use go_live_vod.Rtmp.Chunk.Lengths.{
  Took0, Took1, Took2, Took3, read0-Ensures, read1-Ensures, read2-Ensures, read3-Ensures,
}
use go_live_vod.Rtmp.RawMessage.{Message, max_body_size, Streams, store, get_or_new}
use go_live_vod.Rtmp.RawMessage.Reader.{
  Env, Reader, ReaderChunkStream, Step, new_stream, zeros, join_fragments, check_ack, first_chunk,
  next_fragment, read_type0, read_type1, read_type2, read_type3, read_message, read_chunk, read,
  with_reader, with_first_byte, stamp,
}
use go_live_vod.Rtmp.RawMessage.Fragments.{joined, joined-snoc}
use go_live_vod.Rtmp.RawMessage.Bounds.Held.{IsBounded, AllBounded, SmallBody, After}
use go_live_vod.Rtmp.RawMessage.Bounds.Kinds.{read_message-Ensures}

-- A stream's new state among the others.
store-AllBounded :
    (id : ℕ) (rc : ReaderChunkStream) (m : Streams ReaderChunkStream)
    → IsBounded rc
    → AllBounded m
    → AllBounded (store id rc m)
store-AllBounded id rc m b all j = elim (Bool-cases (id == j)) [
  | inl own ↦ rw (own, get_or_new) b
  | inr other ↦ rw (other, get_or_new) (all j)
]

with_first_byte-Ensures :
    {A : Type 0} (P : A → Type 0) (xs : List ℕ) (f : ℕ → Result Error A)
    → ((b : ℕ) → Ensures P (f b))
    → Ensures P (with_first_byte xs f)
with_first_byte-Ensures P [] f h = λ e. cc
with_first_byte-Ensures P (b ∷ xs) f h = h b

stamp_small : (id : ℕ) (m : Option Message) → SmallBody m → SmallBody (stamp id m)
stamp_small id none h = tt
stamp_small id (some m) h = h

-- One round of `Read`.
abbrev Progress : Reader → Reader × Option Message → Type 0
Progress r (s, m) = AllBounded s.chunk_streams × SmallBody m × (length s.input < length r.input)

read_chunk-Ensures :
    (env : Env) (r : Reader) → AllBounded r.chunk_streams → Ensures (Progress r) (read_chunk env r)
unfolding read_chunk
read_chunk-Ensures env r all = with_first_byte-Ensures (Progress r) r.input _ λ byt.
    let id = bit_and byt 0x3f in
    elim (Bool-cases (ltb id 2)) [
      | inl extended_ ↦ rw (extended_, Ensures) (λ e. cc)
      | inr plain ↦
          let rc = get_or_new id new_stream r.chunk_streams in
          rw (plain, Ensures)
            (Ensures-bind (After r) (Progress r) (read_message (shr byt 6) env r rc) _
              (read_message-Ensures env r rc (all id) (shr byt 6))
              λ (rc1, s, m) a. (
                rw a.3 (store-AllBounded id rc1 r.chunk_streams a.0 all),
                stamp_small id m a.1,
                a.2,
              ))
    ]

-- What `Read` ensures: a body within the limit, and the chunk streams within it too.
abbrev pub Received : Reader → Message × Reader → Type 0
Received r (msg, s) =
    (length msg.body ≤ max_body_size)
    × AllBounded s.chunk_streams
    × (length s.input < length r.input)

-- What follows a round: the message, or the rounds behind it.
read_on :
    (r s : Reader) (m : Option Message) (later : Result Error (Message × Reader))
    → Progress r (s, m)
    → (m ≡ none → Ensures (Received s) later)
    → Ensures (Received r) (elim m [ none ↦ later | some msg ↦ ok (msg, s) ])
read_on r s none later p go =
    Ensures-weaken (Received s) (Received r) later (go refl)
      λ (msg, t) q. (q.0, q.1, omega (arith, q.2, p.2))
read_on r s (some msg) later p go = (p.1, p.0, p.2)

-- On any input whatever, with a round for each byte and one more, `Read` comes to an end: it returns
-- a message whose body is within the limit, with every chunk stream still bounded by it and some
-- input consumed, or it fails with an error that the source gives.
pub read-Ensures :
    (fuel : ℕ) (env : Env) (r : Reader)
    → length r.input < fuel
    → AllBounded r.chunk_streams
    → Ensures (Received r) (read fuel env r)
unfolding read
read-Ensures zero env r h all = absurd (omega arith)
read-Ensures (suc fuel) env r h all =
    Ensures-bind (Progress r) (Received r) (read_chunk env r) _ (read_chunk-Ensures env r all)
      λ (s, m) p.
        read_on r s m (read fuel env s) p (λ _. read-Ensures fuel env s (omega (arith, p.2)) p.0)
