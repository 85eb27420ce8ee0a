-- ===== src/Api/Paginate.antt =====
-- mediamtx/internal/api/paginate.go.
pub mod Pages
pub mod Tests
use go_live_vod.Prelude.{
  ℕ, ◌+◌, ◌-◌, ◌*◌, ◌/◌, ◌%◌, ◌^◌, ◌<◌, ◌≡◌, ◌==◌, ltb, if◌then◌else◌, not, List, [], ◌∷◌, Option,
  none, some, length, take, drop,
}
use go_live_vod.Prelude.Result.{Result, ok, err, ◌>>=◌}

pub data PaginateError : Type 0 where
  not_a_number invalid_items_per_page : PaginateError

-- `strconv.ParseUint(s, 10, bit_size)`: a number that fits in so many bits, or an error.
pub record ParseUint : Type 0 where
  pub parse : List ℕ → ℕ → Option ℕ
  pub parse_fits : (s : List ℕ) (bit_size n : ℕ) → parse s bit_size ≡ some n → n < 2 ^ bit_size

abbrev pub at_most : ℕ → ℕ → ℕ
at_most limit n = if ltb limit n then limit else n

-- `minVal` and `maxVal`
unfoldable pub min_val : ℕ → ℕ → ℕ → ℕ
min_val items_len items_per_page page = at_most items_len (page * items_per_page)

unfoldable pub max_val : ℕ → ℕ → ℕ → ℕ
max_val items_len items_per_page page = at_most items_len ((page + 1) * items_per_page)

unfoldable pub page_count : ℕ → ℕ → ℕ
page_count items_len items_per_page =
    if not (items_len % items_per_page == 0)
    then items_len / items_per_page + 1
    else items_len / items_per_page

-- The page that is left in `itemsPtr`, and the number of pages.
unfoldable pub paginate2 {ℓ} : {A : Type ℓ} → List A → ℕ → ℕ → List A × ℕ
paginate2 items items_per_page page =
    let n = length items in
    let from = min_val n items_per_page page in
    if n == 0 then (items, 0) else (
      take (max_val n items_per_page page - from) (drop from items),
      page_count n items_per_page,
    )

module _ (u : ParseUint) where
  -- `tmp, err := strconv.ParseUint(s, 10, 31)`, of a parameter that may be left out.
  unfoldable pub parse_or : ℕ → List ℕ → Result PaginateError ℕ
  parse_or default [] = ok default
  parse_or default (c ∷ s) = elim (u.parse (c ∷ s) 31) [ none ↦ err not_a_number | some n ↦ ok n ]

  unfoldable pub items_per_page : List ℕ → Result PaginateError ℕ
  items_per_page s = do n ← parse_or 100 s; if n == 0 then err invalid_items_per_page else ok n

  unfoldable pub paginate {ℓ} :
      {A : Type ℓ} → List A → List ℕ → List ℕ → Result PaginateError (List A × ℕ)
  paginate items items_per_page_str page_str = do
    n ← items_per_page items_per_page_str
    page ← parse_or 0 page_str
    ok (paginate2 items n page)
