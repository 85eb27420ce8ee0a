-- ===== src/Api/Paginate/Tests.antt =====
-- mediamtx/internal/api/paginate.go on concrete lists.
use go_live_vod.Prelude.{
  ℕ, List, Option, [], arith, if◌then◌else◌, length, ltb, none, refl, some, suc, ◌*◌, ◌+◌, ◌-◌, ◌<◌,
  ◌^◌, ◌∷◌, ◌≡◌, ◌≤◌, ◌&&◌,
}
use go_live_vod.Api.Paginate.Pages.{paginate_bounds, paginate2-pages, pages_before, IsNumberOf}
use go_live_vod.Api.Paginate.{
  invalid_items_per_page, page_count, max_val, parse_or, items_per_page, min_val, paginate2,
  paginate, ParseUint,
}
use go_live_vod.Prelude.Result.{ok, err}

abbrev five : List ℕ
five = 10 ∷ 11 ∷ 12 ∷ 13 ∷ 14 ∷ []

-- A parser that reads one decimal digit.
abbrev digit : List ℕ → ℕ → Option ℕ
digit [] bit_size = none
digit (c ∷ s) bit_size = if ltb c 58 && ltb (c - 48) (2 ^ bit_size) then some (c - 48) else none

digit_fits : (s : List ℕ) (bit_size n : ℕ) → digit s bit_size ≡ some n → n < 2 ^ bit_size
digit_fits [] bit_size n h = cc
digit_fits (c ∷ s) bit_size n h = ground arith

abbrev digits : ParseUint
digits = record { parse = digit; parse_fits = digit_fits }

second_page : paginate2 five 2 1 ≡ (12 ∷ 13 ∷ [], 3)
unfolding paginate2 min_val max_val page_count
second_page = refl

beyond_the_last : paginate digits five (50 ∷ []) (57 ∷ []) ≡ ok ([], 3)
unfolding paginate items_per_page parse_or paginate2 min_val max_val page_count
beyond_the_last = refl

no_items_per_page : paginate digits five (48 ∷ []) [] ≡ err invalid_items_per_page
unfolding paginate items_per_page parse_or
no_items_per_page = refl

paginate2-pages_example :
    (pages_before five 2 (paginate2 five 2 0).1 ≡ five)
    × ((k : ℕ) → length (paginate2 five 2 k).0 ≤ 2)
    × ((k : ℕ) → suc k < (paginate2 five 2 0).1 → length (paginate2 five 2 k).0 ≡ 2)
    × ((k : ℕ) → (paginate2 five 2 0).1 ≤ k → (paginate2 five 2 k).0 ≡ [])
paginate2-pages_example = paginate2-pages five 2 (omega arith) 0

paginate_bounds_example :
    (n page : ℕ) × IsNumberOf digits 100 (50 ∷ []) n
    × IsNumberOf digits 0 (57 ∷ []) page
    × (0 < n)
    × (n < 2 ^ 31)
    × (page < 2 ^ 31)
    × ((page + 1) * n ≤ 2 ^ 62)
    × (([], 3) ≡ paginate2 five n page)
paginate_bounds_example = paginate_bounds digits five (50 ∷ []) (57 ∷ []) ([], 3) beyond_the_last
