-- ===== src/Rtmp/RawMessage/Bounds/Kinds.antt =====
-- The four branches of `readMessage` (protocols/rtmp/rawmessage/reader.go) keep to the bounds.
use go_live_vod.Prelude.{ℕ, ◌+◌, ◌-◌, ◌^◌, ◌≤◌, ◌≡◌, arith, ◌==◌, length, Bool-cases, inl, inr}
use go_live_vod.Prelude.Bits.{u32}
use go_live_vod.Rtmp.Ensures.{Ensures, Ensures-bind}
use go_live_vod.Rtmp.Chunk.{cap_len, read0, read1, read2}
use go_live_vod.Rtmp.Chunk.Lengths.{
  Took0, Took1, Took2, Took3, read0-Ensures, read1-Ensures, read2-Ensures, read3-Ensures,
}
use go_live_vod.Rtmp.RawMessage.Reader.{
  Env, Reader, ReaderChunkStream, next_fragment, read_type0, read_type1, read_type2, read_type3,
  read_message,
}
use go_live_vod.Rtmp.RawMessage.Fragments.{joined}
use go_live_vod.Rtmp.RawMessage.Bounds.Held.{
  IsBounded, After, first_chunk-IsBounded, next_fragment-IsBounded, After-ack, After-ack_limited,
}

module _ (env : Env) (r : Reader) (rc : ReaderChunkStream) (b : IsBounded rc) where
  idle_empty : rc.cur_body_recv ≡ 0 → length (joined rc.cur_body_fragments) ≡ 0
  idle_empty e = omega (arith, b.received)

  -- A first chunk whose body has the length asked for.
  cut_fits : (n len : ℕ) → n ≡ cap_len len r.chunk_size → n ≤ len
  cut_fits n len e = ground arith

  read_type0-Ensures : Ensures (After r) (read_type0 env r rc)
  unfolding read_type0
  read_type0-Ensures = elim (Bool-cases (rc.cur_body_recv == 0)) [
    | inr inside ↦ rw (inside, Ensures) (λ e. cc)
    | inl idle ↦
        let none_in : rc.cur_body_recv ≡ 0 = ground arith in
        rw (idle, Ensures)
          (Ensures-bind (Took0 r.input r.chunk_size) (After r) (read0 r.input r.chunk_size) _
            (read0-Ensures r.input r.chunk_size)
            λ (c, rest) t. After-ack_limited env r rest c.body_len _ t.1 (λ small.
              first_chunk-IsBounded _ c.body (idle_empty none_in) none_in small
                (cut_fits _ c.body_len t.0)))
  ]

  read_type1-Ensures : Ensures (After r) (read_type1 env r rc)
  unfolding read_type1
  read_type1-Ensures = elim (Bool-cases rc.cur_timestamp_available) [
    | inr unstarted ↦ rw (unstarted, Ensures) (λ e. cc)
    | inl started ↦ elim (Bool-cases (rc.cur_body_recv == 0)) [
      | inr inside ↦ rw (started, inside, Ensures) (λ e. cc)
      | inl idle ↦
          let none_in : rc.cur_body_recv ≡ 0 = ground arith in
          rw (started, idle, Ensures)
            (Ensures-bind (Took1 r.input r.chunk_size) (After r) (read1 r.input r.chunk_size) _
              (read1-Ensures r.input r.chunk_size)
              λ (c, rest) t. After-ack_limited env r rest c.body_len _ t.1 (λ small.
                first_chunk-IsBounded _ c.body (idle_empty none_in) none_in small
                  (cut_fits _ c.body_len t.0)))
    ]
  ]

  read_type2-Ensures : Ensures (After r) (read_type2 env r rc)
  unfolding read_type2
  read_type2-Ensures = elim (Bool-cases rc.cur_timestamp_available) [
    | inr unstarted ↦ rw (unstarted, Ensures) (λ e. cc)
    | inl started ↦ elim (Bool-cases (rc.cur_body_recv == 0)) [
      | inr inside ↦ rw (started, inside, Ensures) (λ e. cc)
      | inl idle ↦
          let none_in : rc.cur_body_recv ≡ 0 = ground arith in
          let n = cap_len rc.cur_body_len r.chunk_size in
          rw (started, idle, Ensures)
            (Ensures-bind (Took2 r.input n) (After r) (read2 r.input n) _ (read2-Ensures r.input n)
              λ (c, rest) t. After-ack env r rest _ t.1 (
                first_chunk-IsBounded _ c.body (idle_empty none_in) none_in b.len_allowed
                  (cut_fits _ rc.cur_body_len t.0)))
    ]
  ]

  read_type3-Ensures : Ensures (After r) (read_type3 env r rc)
  unfolding read_type3
  read_type3-Ensures = elim (Bool-cases (rc.cur_body_recv == 0)) [
    | inr inside ↦
        let left : u32 (rc.cur_body_len + 2 ^ 32 - rc.cur_body_recv)
            ≡ rc.cur_body_len - rc.cur_body_recv =
          omega (arith, b) in
        let n = cap_len (rc.cur_body_len - rc.cur_body_recv) r.chunk_size in
        rw (inside, left, Ensures)
          (Ensures-bind (Took3 r.input n) (After r) _ _
            (read3-Ensures r.input n rc.has_extended_timestamp)
            λ (c, rest) t.
              After-ack env r rest (next_fragment rc c.body) t.1
                (next_fragment-IsBounded rc c.body b (ground (arith, t.0, b.within))))
    | inl idle ↦ elim (Bool-cases rc.cur_timestamp_delta_available) [
      | inr unstarted ↦ rw (idle, unstarted, Ensures) (λ e. cc)
      | inl started ↦
          let none_in : rc.cur_body_recv ≡ 0 = ground arith in
          let n = cap_len rc.cur_body_len r.chunk_size in
          rw (idle, started, Ensures)
            (Ensures-bind (Took3 r.input n) (After r) _ _
              (read3-Ensures r.input n rc.has_extended_timestamp)
              λ (c, rest) t. After-ack env r rest _ t.1 (
                first_chunk-IsBounded _ c.body (idle_empty none_in) none_in b.len_allowed
                  (cut_fits _ rc.cur_body_len t.0)))
    ]
  ]

  pub read_message-Ensures : (typ : ℕ) → Ensures (After r) (read_message typ env r rc)
  unfolding read_message
  read_message-Ensures typ = elim (Bool-cases (typ == 0)) [
    | inl zero_ ↦ rw (zero_, Ensures) read_type0-Ensures
    | inr not_zero ↦ elim (Bool-cases (typ == 1)) [
      | inl one ↦ rw (not_zero, one, Ensures) read_type1-Ensures
      | inr not_one ↦ elim (Bool-cases (typ == 2)) [
        | inl two ↦ rw (not_zero, not_one, two, Ensures) read_type2-Ensures
        | inr not_two ↦ rw (not_zero, not_one, not_two, Ensures) read_type3-Ensures
      ]
    ]
  ]
