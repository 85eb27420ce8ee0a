-- ===== src/Rtmp/Chunk.antt =====
-- protocols/rtmp/chunk/chunk0.go to chunk3.go: the four kinds of chunk. `Read` fills a chunk from
-- the stream, `Marshal` gives its bytes. A `make`d buffer that is filled index by index is the list
-- of those bytes; `marshal_size` is the length that the source allocates.
pub mod RoundTrip
pub mod Lengths
mod Tests
use go_live_vod.Prelude.{
  ℕ, ◌+◌, Bool, List, [], ◌∷◌, ◌++◌, bit_and, bit_or, leb, ltb, if◌then◌else◌, length, get_or,
}
use go_live_vod.Prelude.Bits.{shr, u8}
use go_live_vod.Prelude.Result.{Result, ok, err, ◌>>=◌}
use go_live_vod.Rtmp.Stream.{Error, read_full, be24, be32}

pub record Chunk0 : Type 0 where
  pub chunk_stream_id : ℕ
  pub timestamp : ℕ
  pub body_len : ℕ
  pub type : ℕ
  pub message_stream_id : ℕ
  pub body : List ℕ

pub record Chunk1 : Type 0 where
  pub chunk_stream_id : ℕ
  pub timestamp_delta : ℕ
  pub body_len : ℕ
  pub type : ℕ
  pub body : List ℕ

pub record Chunk2 : Type 0 where
  pub chunk_stream_id : ℕ
  pub timestamp_delta : ℕ
  pub body : List ℕ

pub record Chunk3 : Type 0 where
  pub chunk_stream_id : ℕ
  pub body : List ℕ

-- `0xFFFFFF`: from here on a timestamp takes four more bytes.
abbrev pub extended : ℕ
extended = 0xffffff

-- The extended timestamp, read if the 24-bit field `t` is saturated.
unfoldable pub read_extended : ℕ → List ℕ → Result Error (ℕ × List ℕ)
read_extended t r =
    if leb extended t
    then (do
      (h, s) ← read_full 4 r
      ok (be32 (get_or h 0 0) (get_or h 1 0) (get_or h 2 0) (get_or h 3 0), s))
    else ok (t, r)

-- `if chunkBodyLen > maxBodyLen { chunkBodyLen = maxBodyLen }`
abbrev pub cap_len : ℕ → ℕ → ℕ
cap_len n max_len = if ltb max_len n then max_len else n

abbrev three : List ℕ → ℕ → ℕ
three h i = be24 (get_or h i 0) (get_or h (i + 1) 0) (get_or h (i + 2) 0)

unfoldable pub read0 : List ℕ → ℕ → Result Error (Chunk0 × List ℕ)
read0 r max_body_len = do
  (h, r1) ← read_full 12 r
  (ts, r2) ← read_extended (three h 1) r1
  (body, r3) ← read_full (cap_len (three h 4) max_body_len) r2
  ok (
    record {
      chunk_stream_id = bit_and (get_or h 0 0) 0x3f;
      timestamp = ts;
      body_len = three h 4;
      type = get_or h 7 0;
      message_stream_id = be32 (get_or h 8 0) (get_or h 9 0) (get_or h 10 0) (get_or h 11 0);
      body = body;
    },
    r3,
  )

unfoldable pub read1 : List ℕ → ℕ → Result Error (Chunk1 × List ℕ)
read1 r max_body_len = do
  (h, r1) ← read_full 8 r
  (delta, r2) ← read_extended (three h 1) r1
  (body, r3) ← read_full (cap_len (three h 4) max_body_len) r2
  ok (
    record {
      chunk_stream_id = bit_and (get_or h 0 0) 0x3f;
      timestamp_delta = delta;
      body_len = three h 4;
      type = get_or h 7 0;
      body = body;
    },
    r3,
  )

unfoldable pub read2 : List ℕ → ℕ → Result Error (Chunk2 × List ℕ)
read2 r body_len = do
  (h, r1) ← read_full 4 r
  (delta, r2) ← read_extended (three h 1) r1
  (body, r3) ← read_full body_len r2
  ok (
    record { chunk_stream_id = bit_and (get_or h 0 0) 0x3f; timestamp_delta = delta; body = body },
    r3,
  )

-- A type 3 chunk repeats the extended timestamp, which is skipped.
unfoldable pub skip_extended : Bool → List ℕ → Result Error (List ℕ × List ℕ)
skip_extended has_extended_timestamp r =
    if has_extended_timestamp then read_full 4 r else ok ([], r)

unfoldable pub read3 : List ℕ → ℕ → Bool → Result Error (Chunk3 × List ℕ)
read3 r body_len has_extended_timestamp = do
  (h, r1) ← read_full 1 r
  (_, r2) ← skip_extended has_extended_timestamp r1
  (body, r3) ← read_full body_len r2
  ok (record { chunk_stream_id = bit_and (get_or h 0 0) 0x3f; body = body }, r3)

unfoldable pub marshal_size0 : Chunk0 → ℕ
marshal_size0 c = let n = 12 + length c.body in if leb extended c.timestamp then n + 4 else n

unfoldable pub marshal_size1 : Chunk1 → ℕ
marshal_size1 c = let n = 8 + length c.body in if leb extended c.timestamp_delta then n + 4 else n

unfoldable pub marshal_size2 : Chunk2 → ℕ
marshal_size2 c = let n = 4 + length c.body in if leb extended c.timestamp_delta then n + 4 else n

unfoldable pub marshal_size3 : Chunk3 → Bool → ℕ
marshal_size3 c has_extended_timestamp =
    let n = 1 + length c.body in if has_extended_timestamp then n + 4 else n

-- The bytes of `n`, most significant first: `byte(n >> 16)`, `byte(n >> 8)`, `byte(n)`, then `t`.
abbrev pub put24 : ℕ → List ℕ → List ℕ
put24 n t = u8 (shr n 16) ∷ u8 (shr n 8) ∷ u8 n ∷ t

abbrev pub put32 : ℕ → List ℕ → List ℕ
put32 n t = u8 (shr n 24) ∷ put24 n t

abbrev saturated : List ℕ → List ℕ
saturated t = 0xff ∷ 0xff ∷ 0xff ∷ t

unfoldable pub marshal0 : Chunk0 → List ℕ
marshal0 c =
    c.chunk_stream_id
    ∷ (if leb extended c.timestamp
        then saturated
            (put24 c.body_len (c.type ∷ put32 c.message_stream_id (put32 c.timestamp c.body)))
        else put24 c.timestamp (put24 c.body_len (c.type ∷ put32 c.message_stream_id c.body)))

unfoldable pub marshal1 : Chunk1 → List ℕ
marshal1 c =
    bit_or 64 c.chunk_stream_id
    ∷ (if leb extended c.timestamp_delta
        then saturated (put24 c.body_len (c.type ∷ put32 c.timestamp_delta c.body))
        else put24 c.timestamp_delta (put24 c.body_len (c.type ∷ c.body)))

unfoldable pub marshal2 : Chunk2 → List ℕ
marshal2 c =
    bit_or 128 c.chunk_stream_id
    ∷ (if leb extended c.timestamp_delta
        then saturated (put32 c.timestamp_delta c.body)
        else put24 c.timestamp_delta c.body)

-- The four bytes of the extended timestamp are left at zero.
unfoldable pub marshal3 : Chunk3 → Bool → List ℕ
marshal3 c has_extended_timestamp =
    bit_or 192 c.chunk_stream_id
    ∷ (if has_extended_timestamp then 0 ∷ 0 ∷ 0 ∷ 0 ∷ c.body else c.body)
