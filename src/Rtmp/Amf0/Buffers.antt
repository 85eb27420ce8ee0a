-- ===== src/Rtmp/Amf0/Buffers.antt =====
-- protocols/rtmp/amf0: writing into a buffer of zeros, from left to right.
use go_live_vod.Prelude.{
  ℕ, ◌≡◌, All, List, [], ap, arith, drop, false, get_or, length, length-append, refl, suc, sym,
  zero, ◌+◌, ◌∷◌, drop_all, ◌++◌, append_assoc, length-drop, ltb, take, take_all, ◌≤◌, ◌∙◌,
}
use go_live_vod.Rtmp.Amf0.{AmfError}
use go_live_vod.Rtmp.Amf0.Marshal.{zeros, copy_at, put, put_at, slice, object_end_mark}
use go_live_vod.Prelude.Result.{ok, Result}

abbrev pub AllZero : List ℕ → Type 0
AllZero = All (λ b. b ≡ 0)

get_or-zero : (buf : List ℕ) (i : ℕ) → AllZero buf → get_or buf i 0 ≡ 0
get_or-zero [] i z = refl
get_or-zero (b ∷ buf) zero z = z.0
get_or-zero (b ∷ buf) (suc i) z = get_or-zero buf i z.1

pub AllZero-drop : (n : ℕ) (buf : List ℕ) → AllZero buf → AllZero (drop n buf)
AllZero-drop zero buf z = z
AllZero-drop (suc n) [] z = tt
AllZero-drop (suc n) (b ∷ buf) z = AllZero-drop n buf z.1

pub AllZero-zeros : (n : ℕ) → AllZero (zeros n)
unfolding zeros
AllZero-zeros zero = tt
AllZero-zeros (suc n) = (refl, AllZero-zeros n)

pub length-zeros : (n : ℕ) → length (zeros n) ≡ n
unfolding zeros
length-zeros zero = refl
length-zeros (suc n) = ap suc (length-zeros n)

take_front : (pre z : List ℕ) → take (length pre) (pre ++ z) ≡ pre
take_front [] z = refl
take_front (x ∷ pre) z = ap (◌∷◌ x) (take_front pre z)

drop_front : (pre z : List ℕ) → drop (length pre) (pre ++ z) ≡ z
drop_front [] z = refl
drop_front (x ∷ pre) z = drop_front pre z

pub drop-drop : (n m k : ℕ) (xs : List ℕ) → n + m ≡ k → drop m (drop n xs) ≡ drop k xs
drop-drop zero m k xs e = let same : m ≡ k = omega arith in ap (λ (j : ℕ). drop j xs) same
drop-drop (suc n) zero k [] e = sym (drop_all k [] (omega arith))
drop-drop (suc n) (suc m) k [] e = sym (drop_all k [] (omega arith))
drop-drop (suc n) m zero (x ∷ xs) e = absurd (omega arith)
drop-drop (suc n) m (suc k) (x ∷ xs) e = drop-drop n m k xs (omega arith)

-- The buffer is cut where `pre` ends.
pub slice_fits :
    (buf : List ℕ) (n : ℕ) (pre z : List ℕ) → buf ≡ pre ++ z → n ≡ length pre → slice n buf ≡ ok z
unfolding slice
slice_fits buf n pre z e en =
    let inside : ltb (length (pre ++ z)) (length pre) ≡ false =
      ground (arith, length-append pre z) in
    rw (e, en, inside, drop_front pre z)

pub take_fits :
    (buf : List ℕ) (n : ℕ) (pre z : List ℕ) → buf ≡ pre ++ z → n ≡ length pre → take n buf ≡ pre
take_fits buf n pre z e en = rw (e, en, take_front pre z)

pub put_fits : (bs z : List ℕ) → length bs ≤ length z → put bs z ≡ ok (bs ++ drop (length bs) z)
unfolding put
put_fits bs z h = let inside : ltb (length z) (length bs) ≡ false = ground arith in rw inside

pub put_at_fits :
    (buf : List ℕ) (n : ℕ) (pre bs z : List ℕ)
    → buf ≡ pre ++ z
    → n ≡ length pre
    → length bs ≤ length z
    → put_at n bs buf ≡ ok (pre ++ (bs ++ drop (length bs) z))
unfolding put_at
put_at_fits buf n pre bs z e en h =
    rw (slice_fits buf n pre z e en, put_fits bs z h, take_fits buf n pre z e en)

pub copy_at_fits :
    (buf : List ℕ) (n : ℕ) (pre s z : List ℕ)
    → buf ≡ pre ++ z
    → n ≡ length pre
    → length s ≤ length z
    → copy_at n s buf ≡ pre ++ (s ++ drop (length s) z)
unfolding copy_at
copy_at_fits buf n pre s z e en h =
    rw (e, en, take_front pre z, drop_front pre z, take_all (length z) s h)

pub written :
    (a b : List ℕ) (n m : ℕ)
    → a ≡ b
    → n ≡ m
    → Path (Result AmfError (List ℕ × ℕ)) (ok (a, n)) (ok (b, m))
written a b n m e en = rw (e, en)

-- One piece behind another.
pub regrouped :
    (pre a b z : List ℕ)
    → (pre ++ a) ++ (b ++ drop (length b) (drop (length a) z))
      ≡ pre ++ ((a ++ b) ++ drop (length (a ++ b)) z)
regrouped pre a b z = rw (
  drop-drop (length a) (length b) (length (a ++ b)) z (sym (length-append a b)),
  append_assoc,
  append_assoc,
)

regroup : (a b c d : List ℕ) → (a ++ b) ++ (c ++ d) ≡ (a ++ (b ++ c)) ++ d
regroup a b c d =
    append_assoc a b (c ++ d)
    ∙ ap (◌++◌ a) (sym (append_assoc b c d))
    ∙ sym (append_assoc a (b ++ c) d)

-- The parts of an entry and what follows it.
pub grouped :
    (pre a b c d z : List ℕ)
    → (((pre ++ a) ++ b) ++ c)
        ++ (d ++ drop (length d) (drop (length c) (drop (length b) (drop (length a) z))))
      ≡ pre ++ ((a ++ (b ++ (c ++ d))) ++ drop (length (a ++ (b ++ (c ++ d)))) z)
grouped pre a b c d z =
    let la = length-append a (b ++ (c ++ d)) in
    let lb = length-append b (c ++ d) in
    let lc = length-append c d in
    let ab = drop-drop (length a) (length b) (length a + length b) z refl in
    let abc = drop-drop (length a + length b) (length c) (length a + length b + length c) z refl in
    let all =
      drop-drop (length a + length b + length c) (length d) (length (a ++ (b ++ (c ++ d)))) z
        (omega (arith, la, lb, lc)) in
    rw (ab, abc, all) (simp append_assoc)

-- The end mark, behind what has been written.
pub ended :
    (mark inner : List ℕ) (m : ℕ) (buf : List ℕ)
    → m ≡ length mark
    → m + (length inner + 3) ≤ length buf
    → put_at
        (m + length inner)
        object_end_mark
        (mark ++ (inner ++ drop (length inner) (drop m buf)))
      ≡ ok (
          (mark ++ (inner ++ object_end_mark))
          ++ drop (length (mark ++ (inner ++ object_end_mark))) buf)
ended mark inner m buf e room =
    let z = drop (length inner) (drop m buf) in
    let l = length-append mark inner in
    let total : m + length inner + 3 ≡ length (mark ++ (inner ++ object_end_mark)) = omega (
      arith,
      e,
      length-append mark (inner ++ object_end_mark),
      length-append inner object_end_mark,
    ) in
    let left : drop 3 z ≡ drop (length (mark ++ (inner ++ object_end_mark))) buf =
      ap (drop 3) (drop-drop m (length inner) (m + length inner) buf refl)
      ∙ drop-drop (m + length inner) 3 (length (mark ++ (inner ++ object_end_mark))) buf total in
    put_at_fits (mark ++ (inner ++ z)) (m + length inner) (mark ++ inner) object_end_mark z
      (sym (append_assoc mark inner z)) (omega (arith, e, l))
      (omega (arith, room, length-drop m buf, length-drop (length inner) (drop m buf)))
    ∙ ap ok (
        ap (λ t. (mark ++ inner) ++ (object_end_mark ++ t)) left
        ∙ regroup mark inner object_end_mark _)

-- The second byte of a buffer of zeros.
pub second_zero : (buf : List ℕ) → AllZero buf → 2 ≤ length buf → drop 1 buf ≡ 0 ∷ drop 2 buf
second_zero [] az h = absurd (omega arith)
second_zero (a ∷ []) az h = absurd (omega arith)
second_zero (a ∷ b ∷ buf) az h = rw (az.1.0)
