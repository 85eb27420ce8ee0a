-- ===== src/Rtmp/Amf0/Total.antt =====
-- protocols/rtmp/amf0: unmarshalling any bytes ends, and gives what can be marshalled again.
use go_live_vod.Prelude.{
  ℕ, ◌≡◌, All, Bool-cases, List, Option-cases, [], arith, get_or, inl, inr, length, not, some, suc,
  zero, ◌+◌, ◌<◌, ◌==◌, ◌^◌, ◌∷◌, ◌≢◌, ap, refl, ◌*◌, ◌≤◌, Bool, false, true, ◌⊎◌,
}
use go_live_vod.Prelude.Result.{ok, Result, err, ◌>>=◌}
use go_live_vod.Rtmp.Stream.{take_exact, IsByte, be32_sum}
use go_live_vod.Rtmp.Amf0.{
  Value, AmfError, boolean, fuel_ran_out, number, string, Entries, Values, count, ecma_array,
  object, strict_array, entry, value,
}
use go_live_vod.Rtmp.Amf0.Unmarshal.{
  array_count, be16, float_bits, next_bytes, object_end, read_boolean, read_number, read_string,
  Kind, boolean_kind, ecma_array_kind, kind_of, null_kind, number_kind, object_kind, of_kind,
  strict_array_kind, string_kind, unknown, unmarshal, unmarshal_entries, unmarshal_values, is_last,
  of_key, unmarshal_data, unmarshal_rounds,
}
use go_live_vod.Rtmp.Amf0.Bytes.{IsEncodable, be64_sum, AllEncodable, AreEncodable, bytes}
use go_live_vod.Prelude.Bits.{bit_or_fields}
use go_live_vod.Rtmp.Amf0.Marshal.{marshal}
use go_live_vod.Rtmp.Amf0.RoundTrip.{unmarshal_data-marshal}

abbrev AllBytes : List ℕ → Type 0
AllBytes = All IsByte

-- A result has the property, and an error is one that the source returns.
abbrev Gives : {A : Type 0} → (A → Type 0) → Result AmfError A → Type 0
Gives P (ok a) = P a
Gives P (err e) = e ≢ fuel_ran_out

Gives-bind :
    {A B : Type 0} (P : A → Type 0) (Q : B → Type 0) (m : Result AmfError A)
    (f : A → Result AmfError B)
    → Gives P m
    → ((a : A) → P a → Gives Q (f a))
    → Gives Q (m >>= f)
Gives-bind P Q (ok a) f h g = g a h
Gives-bind P Q (err e) f h g = h

Gives-weaken :
    {A : Type 0} (P Q : A → Type 0) (m : Result AmfError A)
    → Gives P m
    → ((a : A) → P a → Q a)
    → Gives Q m
Gives-weaken P Q (ok a) h g = g a h
Gives-weaken P Q (err e) h g = h

-- What was decoded can be encoded, and fewer than `n` bytes are left.
abbrev Decodes : {A : Type 0} → (A → Type 0) → ℕ → A × List ℕ → Type 0
Decodes E n (a, rest) = E a × (length rest < n) × AllBytes rest

abbrev Parts : ℕ → List ℕ → List ℕ × List ℕ → Type 0
Parts n buf (xs, rest) =
    (length xs ≡ n) × (length rest + n ≡ length buf) × AllBytes xs × AllBytes rest

take_exact-Parts :
    (n : ℕ) (buf xs rest : List ℕ)
    → AllBytes buf
    → take_exact n buf ≡ some (xs, rest)
    → Parts n buf (xs, rest)
unfolding take_exact
take_exact-Parts zero buf xs rest b e =
    let all : buf ≡ rest = cc in
    let nothing : [] ≡ xs = cc in rw (← all, ← nothing) (refl, omega arith, tt, b)
take_exact-Parts (suc n) [] xs rest b e = cc
take_exact-Parts (suc n) (x ∷ buf) xs rest b e = elim (Option-cases (take_exact n buf)) [
  | inl h ↦ cc (rw h at e)
  | inr ((ys, t), h) ↦
      let e1 = rw h at e in
      let first : x ∷ ys ≡ xs = cc in
      let last : t ≡ rest = cc in
      let (taken, left, byte, bytes) = take_exact-Parts n buf ys t b.1 h in
      rw (← first, ← last) (ap suc taken, omega arith, (b.0, byte), bytes)
]

next_bytes-Gives : (n : ℕ) (buf : List ℕ) → AllBytes buf → Gives (Parts n buf) (next_bytes n buf)
unfolding next_bytes
next_bytes-Gives n buf b = elim (Option-cases (take_exact n buf)) [
  | inl h ↦ rw (h, Gives) (λ e. cc)
  | inr (p, h) ↦ rw (h, Gives) (take_exact-Parts n buf p.0 p.1 b h)
]

byte_at : (b : List ℕ) (i : ℕ) → AllBytes b → get_or b i 0 < 256
byte_at [] i h = omega arith
byte_at (x ∷ b) zero h = h.0
byte_at (x ∷ b) (suc i) h = byte_at b i h.1

be16-lt : (b : List ℕ) → AllBytes b → be16 b < 2 ^ 16
unfolding be16
be16-lt b h = omega (
  arith,
  bit_or_fields 8 (get_or b 0 0) (get_or b 1 0) (byte_at b 1 h),
  byte_at b 0 h,
  byte_at b 1 h,
)

array_count-lt : (b : List ℕ) → AllBytes b → array_count b < 2 ^ 32
array_count-lt b h = omega (
  arith,
  be32_sum (get_or b 0 0) (get_or b 1 0) (get_or b 2 0) (get_or b 3 0) (byte_at b 1 h)
      (byte_at b 2 h) (byte_at b 3 h),
  byte_at b 0 h,
  byte_at b 1 h,
  byte_at b 2 h,
  byte_at b 3 h,
)

float_bits-lt : (b : List ℕ) → AllBytes b → float_bits b < 2 ^ 64
float_bits-lt b h = omega (
  arith,
  be64_sum (get_or b 0 0) (get_or b 1 0) (get_or b 2 0) (get_or b 3 0) (get_or b 4 0) (get_or b 5 0)
      (get_or b 6 0) (get_or b 7 0) (byte_at b 1 h) (byte_at b 2 h) (byte_at b 3 h) (byte_at b 4 h)
      (byte_at b 5 h) (byte_at b 6 h) (byte_at b 7 h),
  byte_at b 0 h,
  byte_at b 1 h,
  byte_at b 2 h,
  byte_at b 3 h,
  byte_at b 4 h,
  byte_at b 5 h,
  byte_at b 6 h,
  byte_at b 7 h,
)

read_number-Gives :
    (buf : List ℕ) → AllBytes buf → Gives (Decodes IsEncodable (suc (length buf))) (read_number buf)
unfolding read_number IsEncodable
read_number-Gives buf b =
    Gives-bind (Parts 8 buf) (Decodes IsEncodable (suc (length buf))) (next_bytes 8 buf)
      (λ (b, rest). ok (number (float_bits b), rest)) (next_bytes-Gives 8 buf b)
      λ (xs, rest) p. (float_bits-lt xs p.2, omega arith, p.3)

read_boolean-Gives :
    (buf : List ℕ)
    → AllBytes buf
    → Gives (Decodes IsEncodable (suc (length buf))) (read_boolean buf)
unfolding read_boolean IsEncodable
read_boolean-Gives buf b =
    Gives-bind (Parts 1 buf) (Decodes IsEncodable (suc (length buf))) (next_bytes 1 buf)
      (λ (b, rest). ok (boolean (not (get_or b 0 0 == 0)), rest)) (next_bytes-Gives 1 buf b)
      λ (xs, rest) p. (tt, omega arith, p.3)

read_string-Gives :
    (buf : List ℕ) → AllBytes buf → Gives (Decodes IsEncodable (suc (length buf))) (read_string buf)
unfolding read_string IsEncodable
read_string-Gives buf b =
    Gives-bind (Parts 2 buf) (Decodes IsEncodable (suc (length buf))) (next_bytes 2 buf)
      (λ (le, rest). next_bytes (be16 le) rest >>= λ (s, rest2). ok (string s, rest2))
      (next_bytes-Gives 2 buf b)
      λ (le, rest) p.
        Gives-bind (Parts (be16 le) rest) (Decodes IsEncodable (suc (length buf)))
          (next_bytes (be16 le) rest) (λ (s, rest2). ok (string s, rest2))
          (next_bytes-Gives (be16 le) rest p.3)
          λ (s, rest2) q. (omega (arith, q.0, be16-lt le p.2), omega arith, q.3)

object_end-Gives :
    (v : Value) (n : ℕ) (buf : List ℕ)
    → IsEncodable v
    → length buf < n
    → AllBytes buf
    → Gives (Decodes IsEncodable n) (object_end v buf)
unfolding object_end
object_end-Gives v n [] e h b = λ x. cc
object_end-Gives v n (m ∷ buf) e h b = elim (Bool-cases (m == 0x09)) [
  | inl t ↦ rw t (e, omega arith, b.1)
  | inr t ↦ rw t (λ x. cc)
]

of_kind-Gives :
    (k : Kind) (marker : ℕ) (buf : List ℕ) (entries : List ℕ → Result AmfError (Entries × List ℕ))
    (values : ℕ → List ℕ → Result AmfError (Values × List ℕ))
    → AllBytes buf
    → ((r : List ℕ)
        → AllBytes r
        → length r ≤ length buf
        → Gives (Decodes AreEncodable (length r)) (entries r))
    → ((n : ℕ) (r : List ℕ)
        → AllBytes r
        → length r + 4 ≤ length buf
        → Gives (Decodes (λ vs. AllEncodable vs × (count vs ≡ n)) (suc (length r))) (values n r))
    → Gives (Decodes IsEncodable (suc (length buf))) (of_kind entries values k marker buf)
unfolding of_kind IsEncodable
of_kind-Gives number_kind marker buf entries values b he hv = read_number-Gives buf b
of_kind-Gives boolean_kind marker buf entries values b he hv = read_boolean-Gives buf b
of_kind-Gives string_kind marker buf entries values b he hv = read_string-Gives buf b
of_kind-Gives object_kind marker buf entries values b he hv =
    let n = suc (length buf) in
    Gives-bind (Decodes AreEncodable (length buf)) (Decodes IsEncodable n) (entries buf)
      (λ (es, rest). object_end (object es) rest) (he buf b (omega arith))
      λ (es, rest) p. object_end-Gives (object es) n rest p.0 (omega arith) p.2
of_kind-Gives null_kind marker buf entries values b he hv = (tt, omega arith, b)
of_kind-Gives ecma_array_kind marker buf entries values b he hv =
    let n = suc (length buf) in
    Gives-bind (Parts 4 buf) (Decodes IsEncodable n) (next_bytes 4 buf)
      (λ (ignored, rest). entries rest >>= λ (es, rest2). object_end (ecma_array es) rest2)
      (next_bytes-Gives 4 buf b)
      λ (ignored, rest) q.
        Gives-bind (Decodes AreEncodable (length rest)) (Decodes IsEncodable n) (entries rest)
          (λ (es, rest2). object_end (ecma_array es) rest2) (he rest q.3 (omega arith))
          λ (es, rest2) p. object_end-Gives (ecma_array es) n rest2 p.0 (omega arith) p.2
of_kind-Gives strict_array_kind marker buf entries values b he hv =
    let n = suc (length buf) in
    Gives-bind (Parts 4 buf) (Decodes IsEncodable n) (next_bytes 4 buf)
      (λ (c, rest). values (array_count c) rest >>= λ (vs, rest2). ok (strict_array vs, rest2))
      (next_bytes-Gives 4 buf b)
      λ (c, rest) q.
        Gives-bind
          (Decodes (λ vs. AllEncodable vs × (count vs ≡ array_count c)) (suc (length rest)))
          (Decodes IsEncodable n) (values (array_count c) rest)
          (λ (vs, rest2). ok (strict_array vs, rest2)) (hv (array_count c) rest q.3 (omega arith))
          λ (vs, rest2) p. ((omega (arith, p.0.1, array_count-lt c q.2), p.0.0), omega arith, p.2)
of_kind-Gives unknown marker buf entries values b he hv = λ e. cc

of_key-Gives :
    (last : Bool) (n : ℕ) (buf : List ℕ) (item : List ℕ → Result AmfError (Value × List ℕ))
    (entries : List ℕ → Result AmfError (Entries × List ℕ))
    → AllBytes buf
    → n < 2 ^ 16
    → (last ≡ false → 0 < n)
    → ((r : List ℕ)
        → AllBytes r
        → length r ≤ length buf
        → Gives (Decodes IsEncodable (length r)) (item r))
    → ((r : List ℕ)
        → AllBytes r
        → length r ≤ length buf
        → Gives (Decodes AreEncodable (length r)) (entries r))
    → Gives (Decodes AreEncodable (suc (length buf))) (of_key item entries last n buf)
unfolding of_key IsEncodable
of_key-Gives true n buf item entries b hn pos hi he = (tt, omega arith, b)
of_key-Gives false n buf item entries b hn pos hi he =
    let goal = Decodes AreEncodable (suc (length buf)) in
    Gives-bind (Parts n buf) goal (next_bytes n buf)
      (λ (key, rest).
        item rest >>= λ (v, rest2). entries rest2 >>= λ (es, rest3). ok (entry key v es, rest3))
      (next_bytes-Gives n buf b)
      λ (key, rest) p.
        Gives-bind (Decodes IsEncodable (length rest)) goal (item rest)
          (λ (v, rest2). entries rest2 >>= λ (es, rest3). ok (entry key v es, rest3))
          (hi rest p.3 (omega arith))
          λ (v, rest2) q.
            Gives-bind (Decodes AreEncodable (length rest2)) goal (entries rest2)
              (λ (es, rest3). ok (entry key v es, rest3)) (he rest2 q.2 (omega arith))
              λ (es, rest3) r.
                ((omega (arith, p.0, pos refl), omega (arith, p.0), q.0, r.0), omega arith, r.2)

is_last-pos : (le : List ℕ) → is_last le ≡ false → 0 < be16 le
unfolding is_last
is_last-pos le h = ground arith

mutual
  unfolding unmarshal IsEncodable

  unmarshal-Gives :
      (f : ℕ) (buf : List ℕ)
      → AllBytes buf
      → 2 * length buf < f
      → Gives (Decodes IsEncodable (length buf)) (unmarshal f buf)
  unmarshal-Gives zero buf b h = absurd (omega arith)
  unmarshal-Gives (suc f) [] b h = λ e. cc
  unmarshal-Gives (suc f) (marker ∷ buf) b h =
      of_kind-Gives (kind_of marker) marker buf (unmarshal_entries f) (unmarshal_values f) b.1
        (λ r br hr. unmarshal_entries-Gives f r br (omega arith))
        (λ n r br hr. unmarshal_values-Gives f n r br (omega arith))

  unmarshal_entries-Gives :
      (f : ℕ) (buf : List ℕ)
      → AllBytes buf
      → 2 * length buf + 1 < f
      → Gives (Decodes AreEncodable (length buf)) (unmarshal_entries f buf)
  unmarshal_entries-Gives zero buf b h = absurd (omega arith)
  unmarshal_entries-Gives (suc f) buf b h =
      let goal = Decodes AreEncodable (length buf) in
      Gives-bind (Parts 2 buf) goal (next_bytes 2 buf)
        (λ (le, rest). of_key (unmarshal f) (unmarshal_entries f) (is_last le) (be16 le) rest)
        (next_bytes-Gives 2 buf b)
        λ (le, rest) p.
          Gives-weaken (Decodes AreEncodable (suc (length rest))) goal
            (of_key (unmarshal f) (unmarshal_entries f) (is_last le) (be16 le) rest)
            (of_key-Gives (is_last le) (be16 le) rest (unmarshal f) (unmarshal_entries f) p.3
              (be16-lt le p.2) (is_last-pos le) (λ r br hr. unmarshal-Gives f r br (omega arith))
              (λ r br hr. unmarshal_entries-Gives f r br (omega arith)))
            λ (es, rest2) q. (q.0, omega arith, q.2)

  unmarshal_values-Gives :
      (f n : ℕ) (buf : List ℕ)
      → AllBytes buf
      → 2 * length buf + 1 < f
      → Gives
          (Decodes (λ vs. AllEncodable vs × (count vs ≡ n)) (suc (length buf)))
          (unmarshal_values f n buf)
  unmarshal_values-Gives zero n buf b h = absurd (omega arith)
  unmarshal_values-Gives (suc f) zero buf b h = ((tt, refl), omega arith, b)
  unmarshal_values-Gives (suc f) (suc n) buf b h =
      let goal = Decodes (λ vs. AllEncodable vs × (count vs ≡ suc n)) (suc (length buf)) in
      Gives-bind (Decodes IsEncodable (length buf)) goal (unmarshal f buf)
        (λ (v, rest). unmarshal_values f n rest >>= λ (vs, rest2). ok (value v vs, rest2))
        (unmarshal-Gives f buf b (omega arith))
        λ (v, rest) p.
          Gives-bind (Decodes (λ vs. AllEncodable vs × (count vs ≡ n)) (suc (length rest))) goal
            (unmarshal_values f n rest) (λ (vs, rest2). ok (value v vs, rest2))
            (unmarshal_values-Gives f n rest p.2 (omega arith))
            λ (vs, rest2) q. (((p.0, q.0.0), ap suc q.0.1), omega arith, q.2)

unmarshal_rounds-Gives :
    (f : ℕ) (buf : List ℕ)
    → AllBytes buf
    → length buf < f
    → Gives AllEncodable (unmarshal_rounds f buf)
unfolding unmarshal_rounds IsEncodable
unmarshal_rounds-Gives zero buf b h = absurd (omega arith)
unmarshal_rounds-Gives (suc f) [] b h = tt
unmarshal_rounds-Gives (suc f) (x ∷ buf) b h =
    let whole = x ∷ buf in
    Gives-bind (Decodes IsEncodable (length whole)) AllEncodable
      (unmarshal (2 * length whole + 1) whole)
      (λ (v, rest). unmarshal_rounds f rest >>= λ vs. ok (value v vs))
      (unmarshal-Gives (2 * length whole + 1) whole b (omega arith))
      λ (v, rest) p.
        Gives-bind AllEncodable AllEncodable (unmarshal_rounds f rest) (λ vs. ok (value v vs))
          (unmarshal_rounds-Gives f rest p.2 (omega arith)) λ vs q. (p.0, q)

-- Unmarshalling any bytes ends, with an error of the source or with data that the format can carry:
-- marshalled and unmarshalled again, they are the same.
pub unmarshal_data-total :
    (buf : List ℕ)
    → All IsByte buf
    → ((e : AmfError) × (unmarshal_data buf ≡ err e) × (e ≢ fuel_ran_out))
      ⊎ ((d : Values) × (unmarshal_data buf ≡ ok d)
          × (b : List ℕ) × (marshal d ≡ ok b)
          × (unmarshal_data b ≡ ok d))
unfolding unmarshal_data
unmarshal_data-total buf h =
    given (unmarshal_data buf) (unmarshal_rounds-Gives (length buf + 1) buf h (omega arith))
  where
    given :
        (m : Result AmfError Values)
        → Gives AllEncodable m
        → ((e : AmfError) × (m ≡ err e) × (e ≢ fuel_ran_out))
          ⊎ ((d : Values) × (m ≡ ok d)
              × (b : List ℕ) × (marshal d ≡ ok b)
              × (unmarshal_data b ≡ ok d))
    given (err e) k = inl (e, refl, k)
    given (ok d) k =
        let (b, written, read) = unmarshal_data-marshal d k in inr (d, refl, b, written, read)
