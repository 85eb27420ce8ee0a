-- ===== src/Rtmp/Chunk/Lengths.antt =====
-- What a `Read` of protocols/rtmp/chunk/*.go ensures on any input: the body has the length asked
-- for, and the chunk took something off the stream.
use go_live_vod.Prelude.{
  ℕ, ◌≤◌, ◌<◌, ◌≡◌, Bool, true, false, List, arith, leb, length, Bool-cases, inl, inr,
}
use go_live_vod.Rtmp.Stream.{read_full}
use go_live_vod.Rtmp.Ensures.{Ensures, Reads, Ensures-bind, Ensures-weaken, read_full-Reads}
use go_live_vod.Rtmp.Chunk.{
  Chunk0, Chunk1, Chunk2, Chunk3, extended, cap_len, read_extended, skip_extended, read0, read1,
  read2, read3, three,
}

abbrev Shorter {ℓ} : {A : Type ℓ} → List ℕ → A × List ℕ → Type 0
Shorter r (a, s) = length s ≤ length r

read_extended-Ensures : (t : ℕ) (r : List ℕ) → Ensures (Shorter r) (read_extended t r)
unfolding read_extended
read_extended-Ensures t r = elim (Bool-cases (leb extended t)) [
  | inl wide ↦
      rw (wide, Ensures)
        (Ensures-bind (Reads 4 r) (Shorter r) (read_full 4 r) _ (read_full-Reads 4 r)
          λ (h, s) p. omega arith)
  | inr narrow ↦ rw (narrow, Ensures) (omega arith)
]

skip_extended-Ensures : (e : Bool) (r : List ℕ) → Ensures (Shorter r) (skip_extended e r)
unfolding skip_extended
skip_extended-Ensures true r =
    Ensures-weaken (Reads 4 r) (Shorter r) (read_full 4 r) (read_full-Reads 4 r)
      λ (h, s) p. omega arith
skip_extended-Ensures false r = omega arith

-- The body behind a header of at least one byte.
abbrev pub Took0 : List ℕ → ℕ → Chunk0 × List ℕ → Type 0
Took0 r max_len (c, s) = (length c.body ≡ cap_len c.body_len max_len) × (length s < length r)

abbrev pub Took1 : List ℕ → ℕ → Chunk1 × List ℕ → Type 0
Took1 r max_len (c, s) = (length c.body ≡ cap_len c.body_len max_len) × (length s < length r)

abbrev pub Took2 : List ℕ → ℕ → Chunk2 × List ℕ → Type 0
Took2 r len (c, s) = (length c.body ≡ len) × (length s < length r)

abbrev pub Took3 : List ℕ → ℕ → Chunk3 × List ℕ → Type 0
Took3 r len (c, s) = (length c.body ≡ len) × (length s < length r)

pub read0-Ensures : (r : List ℕ) (max_len : ℕ) → Ensures (Took0 r max_len) (read0 r max_len)
unfolding read0
read0-Ensures r max_len =
    Ensures-bind (Reads 12 r) _ (read_full 12 r) _ (read_full-Reads 12 r) λ (h, r1) p.
      Ensures-bind (Shorter r1) _ (read_extended (three h 1) r1) _
        (read_extended-Ensures (three h 1) r1)
        λ (t, r2) q.
          Ensures-bind (Reads (cap_len (three h 4) max_len) r2) _
            (read_full (cap_len (three h 4) max_len) r2) _
            (read_full-Reads (cap_len (three h 4) max_len) r2) λ (b, r3) s. (s.0, omega arith)

pub read1-Ensures : (r : List ℕ) (max_len : ℕ) → Ensures (Took1 r max_len) (read1 r max_len)
unfolding read1
read1-Ensures r max_len =
    Ensures-bind (Reads 8 r) _ (read_full 8 r) _ (read_full-Reads 8 r) λ (h, r1) p.
      Ensures-bind (Shorter r1) _ (read_extended (three h 1) r1) _
        (read_extended-Ensures (three h 1) r1)
        λ (t, r2) q.
          Ensures-bind (Reads (cap_len (three h 4) max_len) r2) _
            (read_full (cap_len (three h 4) max_len) r2) _
            (read_full-Reads (cap_len (three h 4) max_len) r2) λ (b, r3) s. (s.0, omega arith)

pub read2-Ensures : (r : List ℕ) (len : ℕ) → Ensures (Took2 r len) (read2 r len)
unfolding read2
read2-Ensures r len =
    Ensures-bind (Reads 4 r) _ (read_full 4 r) _ (read_full-Reads 4 r) λ (h, r1) p.
      Ensures-bind (Shorter r1) _ (read_extended (three h 1) r1) _
        (read_extended-Ensures (three h 1) r1)
        λ (t, r2) q.
          Ensures-bind (Reads len r2) _ (read_full len r2) _ (read_full-Reads len r2)
            λ (b, r3) s. (s.0, omega arith)

pub read3-Ensures : (r : List ℕ) (len : ℕ) (e : Bool) → Ensures (Took3 r len) (read3 r len e)
unfolding read3
read3-Ensures r len e =
    Ensures-bind (Reads 1 r) _ (read_full 1 r) _ (read_full-Reads 1 r) λ (h, r1) p.
      Ensures-bind (Shorter r1) _ (skip_extended e r1) _ (skip_extended-Ensures e r1) λ (t, r2) q.
        Ensures-bind (Reads len r2) _ (read_full len r2) _ (read_full-Reads len r2)
          λ (b, r3) s. (s.0, omega arith)
