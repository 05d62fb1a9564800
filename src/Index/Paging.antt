-- ===== src/Index/Paging.antt =====
-- The page that Search cuts out of the ranking, and the ranking of filterScan.
use telemetry_search_engine.Common.{
  ℕ, ◌+◌, ◌-◌, ◌*◌, ◌%◌, ◌^◌, ◌≤◌, ◌<◌, ◌≡◌, none, some, nat_eq, true, arith, min,
}
use telemetry_search_engine.Common.Words.{
  mul64, is_negative, sub64-eq, mul64-eq, min64-eq, add64-eq, is_negative-eq, less64-eq,
  min64_negative,
}
use telemetry_search_engine.Index.Search.{page_bounds}

-- For a page and a page size of at least 1 whose product fits an int, the page is the stretch of
-- `page_size` results that starts at (page - 1) * page_size, cut off at the end.
pub page_bounds_exact :
    (page page_size total : ℕ)
    → 1 ≤ page
    → page < 2 ^ 63
    → page_size < 2 ^ 62
    → total < 2 ^ 62
    → (page - 1) * page_size < 2 ^ 63
    → page_bounds page page_size total
      ≡ some (min ((page - 1) * page_size) total, min page_size (total - (page - 1) * page_size))
unfolding page_bounds
page_bounds_exact page page_size total p q r s t =
    let lo = (page - 1) * page_size in
    rw
      (
        sub64-eq page 1 p (omega arith),
        mul64-eq (page - 1) page_size (omega arith),
        min64-eq lo total t (omega arith),
        add64-eq (min lo total) page_size (omega arith),
        min64-eq (min lo total + page_size) total (omega arith) (omega arith),
        is_negative-eq (min lo total) (omega arith),
        less64-eq (min (min lo total + page_size) total) (min lo total) (omega arith) (omega arith),
      )
      (ground arith)

-- Where the product wraps to a negative number, the slice panics.
pub page_bounds_panics :
    (page page_size total : ℕ)
    → 1 ≤ page
    → page < 2 ^ 63
    → 2 ^ 63 ≤ (page - 1) * page_size % 2 ^ 64
    → total < 2 ^ 63
    → page_bounds page page_size total ≡ none
unfolding page_bounds
page_bounds_panics page page_size total p q h t =
    let lo = mul64 (page - 1) page_size in
    rw
      (
        sub64-eq page 1 p (omega arith),
        min64_negative lo total (unfold mul64 in h) (unfold mul64 in omega arith) t,
      )
      (ground (arith, is_negative_of lo (unfold mul64 in h)))
  where
    is_negative_of : (a : ℕ) → 2 ^ 63 ≤ a → is_negative a ≡ true
    is_negative_of a k = unfold is_negative in ground arith
