-- ===== src/Api/Paginate/Pages.antt =====
-- What the pages of mediamtx/internal/api/paginate.go have to do with the list.
use go_live_vod.Prelude.{
  ℕ, zero, suc, ◌+◌, ◌-◌, ◌*◌, ◌/◌, ◌≤◌, ◌<◌, ◌≡◌, ◌==◌, arith, false, length-take, length-drop,
  take_all, ap, sym, refl, ◌∙◌, List, [], ◌∷◌, ◌++◌, length, take, drop, Option-cases, inl, inr,
  ◌^◌, some, subst,
}
use native.Mathlib.Nat.{le_trans, zero-mod, zero-div, div-add-mod', mul-le-mul, mul-le-mul_right}
use go_live_vod.Api.Paginate.{
  paginate2, min_val, max_val, page_count, at_most, ParseUint, items_per_page, paginate, parse_or,
}
use go_live_vod.Prelude.Result.{between, ok}

take_nil {ℓ} : {A : Type ℓ} (n : ℕ) → take {A = A} n [] ≡ []
take_nil zero = refl
take_nil (suc n) = refl

-- The pages before the `k`-th, one behind the other.
abbrev pub pages_before {ℓ} : {A : Type ℓ} → List A → ℕ → ℕ → List A
pages_before items n zero = []
pages_before items n (suc k) = pages_before items n k ++ (paginate2 items n k).0

take-take-drop {ℓ} :
    {A : Type ℓ} (a b : ℕ) (xs : List A) → a ≤ b → take a xs ++ take (b - a) (drop a xs) ≡ take b xs
take-take-drop zero b xs h = let e : b - 0 ≡ b = omega arith in rw e
take-take-drop (suc a) b [] h = take_nil (b - suc a) ∙ sym (take_nil b)
take-take-drop (suc a) zero (x ∷ xs) h = absurd (omega arith)
take-take-drop (suc a) (suc b) (x ∷ xs) h =
    let e : suc b - suc a ≡ b - a = omega arith in
    rw e (ap (◌∷◌ x) (take-take-drop a b xs (omega arith)))

min_val-le-max_val : (len n k : ℕ) → min_val len n k ≤ max_val len n k
unfolding min_val max_val
min_val-le-max_val len n k = grind arith

max_val-eq : (len n k : ℕ) → max_val len n k ≡ min_val len n (suc k)
unfolding min_val max_val
max_val-eq len n k = let e : k + 1 ≡ suc k = omega arith in rw e

max_val-le : (len n k : ℕ) → max_val len n k ≤ len
unfolding max_val
max_val-le len n k = ground arith

next_page : (n k : ℕ) → (k + 1) * n ≡ k * n + n
next_page n k = grind arith

-- A page has at most the items asked for, as many where the list goes on, and none behind its end.
page_bounds :
    (len n k : ℕ)
    → (max_val len n k - min_val len n k ≤ n)
      × (suc k * n ≤ len → max_val len n k - min_val len n k ≡ n)
      × (len ≤ k * n → max_val len n k - min_val len n k ≡ 0)
unfolding max_val min_val
page_bounds len n k =
    let e : suc k ≡ k + 1 = omega arith in
    rw (e, next_page n k) (ground arith, (λ h. ground arith), (λ h. ground arith))

-- The pages reach the end of the list, and the last but one does not.
page_count_bounds :
    (len n : ℕ)
    → 0 < n
    → (len ≤ page_count len n * n) × ((k : ℕ) → suc k < page_count len n → suc k * n ≤ len)
unfolding page_count
page_count_bounds len n h = (reaches, λ k below. inside k below)
  where
    reaches : len ≤ page_count len n * n
    reaches = grind arith

    inside : (k : ℕ) → suc k < page_count len n → suc k * n ≤ len
    inside k below =
        let full : suc k ≤ len / n = ground arith in
        omega (arith, mul-le-mul_right n full, div-add-mod' len n)

page_take {ℓ} :
    {A : Type ℓ} (items : List A) (n k : ℕ)
    → (paginate2 items n k).0
      ≡ take
          (max_val (length items) n k - min_val (length items) n k)
          (drop (min_val (length items) n k) items)
unfolding paginate2 min_val max_val
page_take [] n k = let e : at_most 0 (k * n) ≡ 0 = ground arith in rw (e, take_nil)
page_take (x ∷ items) n k = let more : (suc (length items) == 0) ≡ false = ground arith in rw more

module _ {ℓ} {A : Type ℓ} (items : List A) (n : ℕ) where
  pages_before-take : (k : ℕ) → pages_before items n k ≡ take (min_val (length items) n k) items
  unfolding min_val
  pages_before-take zero = let e : at_most (length items) (0 * n) ≡ 0 = ground arith in rw e
  pages_before-take (suc k) = rw (
    pages_before-take k,
    page_take items n k,
    take-take-drop (min_val (length items) n k) (max_val (length items) n k) items
        (min_val-le-max_val (length items) n k),
    max_val-eq (length items) n k,
  )

  length-page :
      (k : ℕ)
      → length (paginate2 items n k).0 ≡ max_val (length items) n k - min_val (length items) n k
  length-page k =
      let from = min_val (length items) n k in
      let to = max_val (length items) n k in
      rw (page_take items n k) (
        omega (
          arith,
          length-take (to - from) (drop from items),
          length-drop from items,
          max_val-le (length items) n k,
        ))

empty_of_length {ℓ} : {A : Type ℓ} (xs : List A) → length xs ≡ 0 → xs ≡ []
empty_of_length [] h = refl
empty_of_length (x ∷ xs) h = absurd (omega arith)

min_val_behind : (len n k : ℕ) → len ≤ k * n → min_val len n k ≡ len
unfolding min_val
min_val_behind len n k h = ground arith

count_lem {ℓ} :
    {A : Type ℓ} (items : List A) (n page : ℕ)
    → (paginate2 items n page).1 ≡ page_count (length items) n
unfolding paginate2 page_count
count_lem [] n page = rw (zero-mod n, zero-div n)
count_lem (x ∷ items) n page =
    let more : (suc (length items) == 0) ≡ false = ground arith in rw more

-- The pages up to the count that is given out are the list, cut into pieces: each but the last holds
-- as many items as asked for and none holds more, and a page behind the last is empty.
pub paginate2-pages {ℓ} :
    {A : Type ℓ} (items : List A) (n : ℕ)
    → 0 < n
    → (page : ℕ)
    → let count = (paginate2 items n page).1 in
      (pages_before items n count ≡ items)
      × ((k : ℕ) → length (paginate2 items n k).0 ≤ n)
      × ((k : ℕ) → suc k < count → length (paginate2 items n k).0 ≡ n)
      × ((k : ℕ) → count ≤ k → (paginate2 items n k).0 ≡ [])
paginate2-pages items n h page =
    let len = length items in
    let count = page_count len n in
    let bounds = page_count_bounds len n h in
    rw (count_lem items n page) (
      pages_before-take items n count
          ∙ rw (min_val_behind len n count bounds.0) (take_all len items (omega arith)),
      (λ k. rw (length-page items n k) (page_bounds len n k).0),
      (λ k below. rw (length-page items n k) ((page_bounds len n k).1 (bounds.1 k below))),
      (λ k behind.
          let passed : len ≤ k * n = le_trans bounds.0 (mul-le-mul_right n behind) in
          empty_of_length _ (rw (length-page items n k) ((page_bounds len n k).2 passed))),
    )

module _ (u : ParseUint) where
  parse_or_fits : (d n : ℕ) (s : List ℕ) → d < 2 ^ 31 → parse_or u d s ≡ ok n → n < 2 ^ 31
  unfolding parse_or
  parse_or_fits d n [] h e = ground arith
  parse_or_fits d n (c ∷ s) h e = elim (Option-cases (u.parse (c ∷ s) 31)) [
    | inl failed ↦ cc (rw (failed, parse_or) at e)
    | inr (m, parsed) ↦
        let same : m ≡ n = cc (rw (parsed, parse_or) at e) in
        rw (← same) (u.parse_fits (c ∷ s) 31 m parsed)
  ]

  items_per_page_fits : (n : ℕ) (s : List ℕ) → items_per_page u s ≡ ok n → (0 < n) × (n < 2 ^ 31)
  unfolding items_per_page
  items_per_page_fits n s e =
      let (m, rest, parsed) = between (parse_or u 100 s) _ e in
      let fits = parse_or_fits 100 m s (omega arith) parsed in ground arith

  -- A parameter that is left out has its default, any other the number that is parsed with 31 bits.
  abbrev pub IsNumberOf : ℕ → List ℕ → ℕ → Type 0
  IsNumberOf default [] n = n ≡ default
  IsNumberOf default (c ∷ s) n = u.parse (c ∷ s) 31 ≡ some n

  parse_or-IsNumberOf : (d n : ℕ) (s : List ℕ) → parse_or u d s ≡ ok n → IsNumberOf d s n
  unfolding parse_or
  parse_or-IsNumberOf d n [] e = cc
  parse_or-IsNumberOf d n (c ∷ s) e = elim (Option-cases (u.parse (c ∷ s) 31)) [
    | inl failed ↦ cc (rw (failed, parse_or) at e)
    | inr (m, parsed) ↦ let same : m ≡ n = cc (rw (parsed, parse_or) at e) in parsed ∙ ap some same
  ]

  items_per_page-IsNumberOf : (n : ℕ) (s : List ℕ) → items_per_page u s ≡ ok n → IsNumberOf 100 s n
  unfolding items_per_page
  items_per_page-IsNumberOf n s e =
      let (m, rest, parsed) = between (parse_or u 100 s) _ e in
      let same : m ≡ n = ground arith in
      subst (IsNumberOf 100 s) same (parse_or-IsNumberOf 100 m s parsed)

  -- What `paginate` answers without an error is the page that the page parameter says (0 if it is left
  -- out) of as many items as the items-per-page parameter says (100 if it is left out), which are more
  -- than 0; these numbers have 31 bits, and the bounds of the page are computed within 62 bits.
  pub paginate_bounds {ℓ} :
      {A : Type ℓ} (items : List A) (items_per_page_str page_str : List ℕ) (out : List A × ℕ)
      → paginate u items items_per_page_str page_str ≡ ok out
      → (n page : ℕ) × IsNumberOf 100 items_per_page_str n
        × IsNumberOf 0 page_str page
        × (0 < n)
        × (n < 2 ^ 31)
        × (page < 2 ^ 31)
        × ((page + 1) * n ≤ 2 ^ 62)
        × (out ≡ paginate2 items n page)
  unfolding paginate
  paginate_bounds items items_per_page_str page_str out e =
      let (n, rest, per_page) = between (items_per_page u items_per_page_str) _ e in
      let (page, last, paged) = between (parse_or u 0 page_str) _ rest in
      let (some_items, fits) = items_per_page_fits n items_per_page_str per_page in
      let page_fits = parse_or_fits 0 page page_str (omega arith) paged in
      let next : page + 1 ≤ 2 ^ 31 = omega arith in
      let fits_le : n ≤ 2 ^ 31 = omega arith in
      let product : (page + 1) * n ≤ 2 ^ 31 * 2 ^ 31 = mul-le-mul next fits_le in
      (
        n,
        page,
        items_per_page-IsNumberOf n items_per_page_str per_page,
        parse_or-IsNumberOf 0 page page_str paged,
        some_items,
        fits,
        page_fits,
        omega (arith, product),
        cc,
      )
