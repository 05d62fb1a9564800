-- ===== src/Index/CacheKey.antt =====
-- buildCacheKey and itoa of search-service/internal/indexer/index.go.
use telemetry_search_engine.Common.{
  ℕ, zero, suc, ◌+◌, ◌/◌, ◌%◌, [], ◌∷◌, Text, codes, join, eqb, if◌then◌else◌,
}
use telemetry_search_engine.Common.Words.{is_negative}
use telemetry_search_engine.Index.{SearchQuery}

-- The loop of itoa; an int has at most 19 digits.
unfoldable pub itoa_loop : ℕ → ℕ → Text → Text
itoa_loop zero n b = b
itoa_loop (suc fuel) n b =
    let more = itoa_loop fuel (n / 10) ((b'0' + n % 10) ∷ b) in if eqb n 0 then b else more

unfoldable pub itoa : ℕ → Text
unfolding itoa_loop
itoa n = if eqb n 0 then codes "0" else if is_negative n then [] else itoa_loop 19 n []

unfoldable pub build_cache_key : SearchQuery → Text
unfolding join
build_cache_key q =
    join
      (q.query
        ∷ q.sender
        ∷ q.hostname
        ∷ q.app_name
        ∷ q.proc_id
        ∷ q.msg_id
        ∷ q.groupings
        ∷ q.facility
        ∷ q.raw_message
        ∷ q.structured_data
        ∷ q.severity
        ∷ itoa q.page
        ∷ itoa q.page_size
        ∷ [])
      (codes "|")
