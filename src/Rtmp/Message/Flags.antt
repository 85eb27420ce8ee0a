-- ===== src/Rtmp/Message/Flags.antt =====
-- protocols/rtmp/message: the first byte of an audio or video message, and what `copy` leaves.
use go_live_vod.Prelude.{
  ℕ, Bool, arith, bit_and, false, refl, true, ◌%◌, ◌*◌, ◌+◌, ◌/◌, ◌<◌, ◌==◌, ◌≡◌, Bool-cases, List,
  [], ap, inl, inr, length, suc, zero, ◌++◌, ◌∙◌, ◌∷◌, drop, length-drop,
}
use go_live_vod.Prelude.Bits.{agree_at, agree_below}
use go_live_vod.Rtmp.Message.Media.{audio_flags, audio_depth, audio_rate, audio_is_stereo, copy}
use go_live_vod.Rtmp.Amf0.Marshal.{zeros}
use go_live_vod.Rtmp.Amf0.Buffers.{drop-drop, length-zeros}

-- The fields of a byte, put together again.
abbrev repacked : ℕ → ℕ
repacked b = audio_flags (b / 16) (b / 4 % 4) (b / 2 % 2) (b % 2 == 1)

repacked_table : agree_below 256 repacked (λ b. b) ≡ true
unfolding agree_below audio_flags
repacked_table = refl

rate_table : agree_below 256 audio_rate (λ b. b / 4 % 4) ≡ true
unfolding agree_below audio_rate
rate_table = refl

depth_table : agree_below 256 audio_depth (λ b. b / 2 % 2) ≡ true
unfolding agree_below audio_depth
depth_table = refl

stereo_table : agree_below 256 (λ b. bit_and b 0x01) (λ b. b % 2) ≡ true
unfolding agree_below
stereo_table = refl

abbrev one_bit : Bool → ℕ
one_bit true = 1
one_bit false = 0

one_bit_below : (s : Bool) → one_bit s < 2
one_bit_below true = omega arith
one_bit_below false = omega arith

-- Codec, rate, depth and channels stand side by side in the byte.
module _ (codec rate depth : ℕ) (is_stereo : Bool) (hc : codec < 16) (hr : rate < 4)
    (hd : depth < 2) where
  abbrev b : ℕ
  b = codec * 16 + rate * 4 + depth * 2 + one_bit is_stereo

  flags_byte : b < 256
  flags_byte = omega (arith, one_bit_below is_stereo)

  codec_part : b / 16 ≡ codec
  codec_part = omega (arith, one_bit_below is_stereo)

  rate_part : b / 4 % 4 ≡ rate
  rate_part = omega (arith, one_bit_below is_stereo)

  depth_part : b / 2 % 2 ≡ depth
  depth_part = omega (arith, one_bit_below is_stereo)

  stereo_part : b % 2 ≡ one_bit is_stereo
  stereo_part = omega (arith, one_bit_below is_stereo)

  stereo_test : (b % 2 == 1) ≡ is_stereo
  stereo_test = elim (Bool-cases is_stereo) [
    | inl s ↦ rw (stereo_part, s)
    | inr s ↦ rw (stereo_part, s)
  ]

  audio_flags-eq : audio_flags codec rate depth is_stereo ≡ b
  audio_flags-eq =
      rw (codec_part, rate_part, depth_part, stereo_test) at
        (agree_at repacked (λ b. b) 256 repacked_table b flags_byte)

  pub audio_flags-codec : audio_flags codec rate depth is_stereo / 16 ≡ codec
  audio_flags-codec = rw audio_flags-eq codec_part

  pub audio_rate-flags : audio_rate (audio_flags codec rate depth is_stereo) ≡ rate
  audio_rate-flags =
      rw audio_flags-eq
        (agree_at audio_rate (λ b. b / 4 % 4) 256 rate_table b flags_byte ∙ rate_part)

  pub audio_depth-flags : audio_depth (audio_flags codec rate depth is_stereo) ≡ depth
  audio_depth-flags =
      rw audio_flags-eq
        (agree_at audio_depth (λ b. b / 2 % 2) 256 depth_table b flags_byte ∙ depth_part)

  pub audio_is_stereo-flags : audio_is_stereo (audio_flags codec rate depth is_stereo) ≡ is_stereo
  unfolding audio_is_stereo
  audio_is_stereo-flags = elim (Bool-cases is_stereo) [
    | inl s ↦ rw (
      audio_flags-eq,
      agree_at (λ b. bit_and b 0x01) (λ b. b % 2) 256 stereo_table b flags_byte,
      stereo_part,
      s,
    )
    | inr s ↦ rw (
      audio_flags-eq,
      agree_at (λ b. bit_and b 0x01) (λ b. b % 2) 256 stereo_table b flags_byte,
      stereo_part,
      s,
    )
  ]

-- A copy into a buffer of the source's length, and into one that has a byte more.
pub copy_fits : (dst src : List ℕ) → length dst ≡ length src → copy dst src ≡ src
unfolding copy
copy_fits [] [] h = refl
copy_fits [] (s ∷ src) h = absurd (omega arith)
copy_fits (d ∷ dst) [] h = absurd (omega arith)
copy_fits (d ∷ dst) (s ∷ src) h = ap (◌∷◌ s) (copy_fits dst src (omega arith))

-- The payload, copied into the `n` bytes that follow the first `k` of a fresh body.
copy-zeros : (k : ℕ) (src : List ℕ) → copy (drop k (zeros (k + length src))) src ≡ src
copy-zeros k src =
    copy_fits (drop k (zeros (k + length src))) src
      (omega (arith, length-drop k (zeros (k + length src)), length-zeros (k + length src)))

pub copy_after_one : (src : List ℕ) → copy (drop 1 (zeros (1 + length src))) src ≡ src
copy_after_one = copy-zeros 1

pub copy_after_two : (src : List ℕ) → copy (drop 1 (drop 1 (zeros (2 + length src)))) src ≡ src
copy_after_two src = rw (drop-drop 1 1 2 (zeros (2 + length src)) refl) (copy-zeros 2 src)

pub copy_after_five : (src : List ℕ) → copy (drop 5 (zeros (5 + length src))) src ≡ src
copy_after_five = copy-zeros 5

pub copy_after_eight : (src : List ℕ) → copy (drop 3 (drop 5 (zeros (8 + length src)))) src ≡ src
copy_after_eight src = rw (drop-drop 5 3 8 (zeros (8 + length src)) refl) (copy-zeros 8 src)

one_more : (src : List ℕ) → copy (zeros (suc (length src))) src ≡ src ++ (0 ∷ [])
unfolding copy zeros
one_more [] = refl
one_more (s ∷ src) = ap (◌∷◌ s) (one_more src)

drop-zeros : (n : ℕ) → drop 1 (zeros (2 + n)) ≡ zeros (suc n)
unfolding zeros
drop-zeros n = let e : 2 + n ≡ suc (suc n) = omega arith in ap (λ k. drop 1 (zeros k)) e

-- A body that has a byte too many ends in a zero.
pub copy_before_last : (src : List ℕ) → copy (drop 1 (zeros (2 + length src))) src ≡ src ++ (0 ∷ [])
copy_before_last src = rw (drop-zeros (length src)) (one_more src)

copy_nothing : (dst : List ℕ) → copy dst [] ≡ dst
unfolding copy
copy_nothing [] = refl
copy_nothing (d ∷ dst) = refl

copy-longer : (n k : ℕ) (src : List ℕ) → n ≡ k + length src → copy (zeros n) src ≡ src ++ zeros k
unfolding copy zeros
copy-longer n k [] e = copy_nothing (zeros n) ∙ ap zeros (omega (arith, e))
copy-longer zero k (s ∷ src) e = absurd (omega (arith, e))
copy-longer (suc n) k (s ∷ src) e = ap (◌∷◌ s) (copy-longer n k src (omega (arith, e)))

drop-zeros_five : (n : ℕ) → drop 5 (zeros (8 + n)) ≡ zeros (3 + n)
unfolding zeros
drop-zeros_five n =
    let e : 8 + n ≡ suc (suc (suc (suc (suc (3 + n))))) = omega arith in
    ap (λ k. drop 5 (zeros k)) e

-- A body that has three bytes too many ends in three zeros.
pub copy_before_three :
    (src : List ℕ) → copy (drop 5 (zeros (8 + length src))) src ≡ src ++ (0 ∷ 0 ∷ 0 ∷ [])
unfolding zeros
copy_before_three src = rw (drop-zeros_five (length src)) (copy-longer (3 + length src) 3 src refl)
