-- ===== src/Rtmp/Chunk/RoundTrip.antt =====
-- Reading a chunk back from the bytes that `Marshal` gave.
use go_live_vod.Prelude.{
  ℕ, ◌+◌, ◌^◌, ◌<◌, ◌≡◌, refl, Bool, true, false, List, ◌++◌, arith, bit_and, bit_or, leb, length,
  Bool-cases, inl, inr,
}
use go_live_vod.Prelude.Bits.{shr, u8, bit_and_low_six, bit_or_tags}
use go_live_vod.Prelude.Result.{ok}
use go_live_vod.Rtmp.Stream.{
  read_full, take_exact, read_full-append, be24, be32, be24_bytes, be32_bytes,
}
use go_live_vod.Rtmp.Chunk.{
  Chunk0, Chunk1, Chunk2, Chunk3, extended, read_extended, put32, cap_len, read0, marshal0, read1,
  marshal1, read2, marshal2, read3, marshal3, marshal_size0, marshal_size1, marshal_size2,
  marshal_size3, skip_extended,
}

-- The fields fit what `Marshal` writes them to, and the body is what the reader will cut off.
pub record IsValid0 (max_len : ℕ) (c : Chunk0) : Type 0 where
  pub id_fits : c.chunk_stream_id < 64
  pub timestamp_fits : c.timestamp < 2 ^ 32
  pub body_len_fits : c.body_len < 2 ^ 24
  pub message_stream_id_fits : c.message_stream_id < 2 ^ 32
  pub body_cut : length c.body ≡ cap_len c.body_len max_len

pub record IsValid1 (max_len : ℕ) (c : Chunk1) : Type 0 where
  pub id_fits : c.chunk_stream_id < 64
  pub delta_fits : c.timestamp_delta < 2 ^ 32
  pub body_len_fits : c.body_len < 2 ^ 24
  pub body_cut : length c.body ≡ cap_len c.body_len max_len

pub record IsValid2 (body_len : ℕ) (c : Chunk2) : Type 0 where
  pub id_fits : c.chunk_stream_id < 64
  pub delta_fits : c.timestamp_delta < 2 ^ 32
  pub body_cut : length c.body ≡ body_len

pub record IsValid3 (body_len : ℕ) (c : Chunk3) : Type 0 where
  pub id_fits : c.chunk_stream_id < 64
  pub body_cut : length c.body ≡ body_len

-- The reader masks the kind off the first byte.
pub low_six_tagged :
    (i : ℕ)
    → i < 64
    → (bit_and (bit_or 64 i) 0x3f ≡ i)
      × (bit_and (bit_or 128 i) 0x3f ≡ i)
      × (bit_and (bit_or 192 i) 0x3f ≡ i)
low_six_tagged i h =
    let (one, two, three) = bit_or_tags i h in
    rw (one, two, three)
      (
        omega (arith, bit_and_low_six (64 + i)),
        omega (arith, bit_and_low_six (128 + i)),
        omega (arith, bit_and_low_six (192 + i)),
      )

pub low_six : (i : ℕ) → i < 64 → bit_and i 0x3f ≡ i
low_six i h = omega (arith, bit_and_low_six i (omega arith))

-- A saturated field announces the extended timestamp.
be24_saturated : be24 0xff 0xff 0xff ≡ 0xffffff
unfolding be24
be24_saturated = refl

read_extended_wide :
    (n : ℕ) (s : List ℕ) → n < 2 ^ 32 → read_extended (be24 0xff 0xff 0xff) (put32 n s) ≡ ok (n, s)
unfolding read_extended read_full take_exact
read_extended_wide n s h =
    let value : be32 (u8 (shr n 24)) (u8 (shr n 16)) (u8 (shr n 8)) (u8 n) ≡ n =
      omega (arith, be32_bytes n) in
    rw (be24_saturated, value)

read_extended_narrow :
    (n : ℕ) (s : List ℕ)
    → leb extended n ≡ false
    → read_extended (be24 (u8 (shr n 16)) (u8 (shr n 8)) (u8 n)) s ≡ ok (n, s)
unfolding read_extended
read_extended_narrow n s h =
    let value : be24 (u8 (shr n 16)) (u8 (shr n 8)) (u8 n) ≡ n = ground (arith, be24_bytes n) in
    rw (value, h)

be24_fits : (n : ℕ) → n < 2 ^ 24 → be24 (u8 (shr n 16)) (u8 (shr n 8)) (u8 n) ≡ n
be24_fits n h = omega (arith, be24_bytes n)

be32_fits : (n : ℕ) → n < 2 ^ 32 → be32 (u8 (shr n 24)) (u8 (shr n 16)) (u8 (shr n 8)) (u8 n) ≡ n
be32_fits n h = omega (arith, be32_bytes n)

-- A type 0 chunk whose fields fit, its body cut as the reader will cut it, is read back from the bytes
-- of `Marshal`, with a timestamp in 24 bits or extended, and what follows is left in the stream.
pub read0-marshal0 :
    (max_len : ℕ) (c : Chunk0) (r : List ℕ)
    → IsValid0 max_len c
    → read0 (marshal0 c ++ r) max_len ≡ ok (c, r)
unfolding read0 marshal0 read_full take_exact
read0-marshal0 max_len c r v =
    let id = low_six c.chunk_stream_id v.id_fits in
    let len = be24_fits c.body_len v.body_len_fits in
    let stream = be32_fits c.message_stream_id v.message_stream_id_fits in
    let body = read_full-append (cap_len c.body_len max_len) c.body r v.body_cut in
    elim (Bool-cases (leb extended c.timestamp)) [
      | inl wide ↦ rw (
        wide,
        read_extended_wide c.timestamp (c.body ++ r) v.timestamp_fits,
        len,
        body,
        id,
        stream,
      )
      | inr narrow ↦
          rw (narrow, read_extended_narrow c.timestamp (c.body ++ r) narrow, len, body, id, stream)
    ]

-- The same of a type 1 chunk: it is read back from the bytes of `Marshal` if its fields fit and its
-- body is cut as the reader will cut it.
pub read1-marshal1 :
    (max_len : ℕ) (c : Chunk1) (r : List ℕ)
    → IsValid1 max_len c
    → read1 (marshal1 c ++ r) max_len ≡ ok (c, r)
unfolding read1 marshal1 read_full take_exact
read1-marshal1 max_len c r v =
    let id = (low_six_tagged c.chunk_stream_id v.id_fits).0 in
    let len = be24_fits c.body_len v.body_len_fits in
    let body = read_full-append (cap_len c.body_len max_len) c.body r v.body_cut in
    elim (Bool-cases (leb extended c.timestamp_delta)) [
      | inl wide ↦
          rw (wide, read_extended_wide c.timestamp_delta (c.body ++ r) v.delta_fits, len, body, id)
      | inr narrow ↦
          rw (narrow, read_extended_narrow c.timestamp_delta (c.body ++ r) narrow, len, body, id)
    ]

-- The same of a type 2 chunk, whose body has the length that the reader is told.
pub read2-marshal2 :
    (body_len : ℕ) (c : Chunk2) (r : List ℕ)
    → IsValid2 body_len c
    → read2 (marshal2 c ++ r) body_len ≡ ok (c, r)
unfolding read2 marshal2 read_full take_exact
read2-marshal2 body_len c r v =
    let id = (low_six_tagged c.chunk_stream_id v.id_fits).1 in
    let body = read_full-append body_len c.body r v.body_cut in
    elim (Bool-cases (leb extended c.timestamp_delta)) [
      | inl wide ↦
          rw (wide, read_extended_wide c.timestamp_delta (c.body ++ r) v.delta_fits, body, id)
      | inr narrow ↦
          rw (narrow, read_extended_narrow c.timestamp_delta (c.body ++ r) narrow, body, id)
    ]

-- The same of a type 3 chunk, where reader and writer agree on the extended timestamp.
pub read3-marshal3 :
    (body_len : ℕ) (c : Chunk3) (has_extended_timestamp : Bool) (r : List ℕ)
    → IsValid3 body_len c
    → read3 (marshal3 c has_extended_timestamp ++ r) body_len has_extended_timestamp ≡ ok (c, r)
unfolding read3 marshal3 read_full take_exact skip_extended
read3-marshal3 body_len c true r v =
    rw (
      read_full-append body_len c.body r v.body_cut,
      (low_six_tagged c.chunk_stream_id v.id_fits).2,
    )
read3-marshal3 body_len c false r v =
    rw (
      read_full-append body_len c.body r v.body_cut,
      (low_six_tagged c.chunk_stream_id v.id_fits).2,
    )

-- `Marshal` fills exactly the buffer that it allocates, whatever the chunk.
pub length-marshal :
    ((c : Chunk0) → length (marshal0 c) ≡ marshal_size0 c)
    × ((c : Chunk1) → length (marshal1 c) ≡ marshal_size1 c)
    × ((c : Chunk2) → length (marshal2 c) ≡ marshal_size2 c)
    × ((c : Chunk3) (e : Bool) → length (marshal3 c e) ≡ marshal_size3 c e)
unfolding marshal0 marshal1 marshal2 marshal3 marshal_size0 marshal_size1 marshal_size2
    marshal_size3
length-marshal = (λ c. ground arith, λ c. ground arith, λ c. ground arith, λ c e. ground arith)
