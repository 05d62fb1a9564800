-- ===== src/Coordinator.antt =====
-- coordinator/internal/api/coordinator.go: the query that the coordinator sends to every shard.
pub mod Params
pub mod Shards
pub mod Merge
pub mod Routing
pub mod Merged
mod Tests
use telemetry_search_engine.Common.{
  ℕ, List, [], ◌∷◌, ◌++◌, Text, codes, has_prefix, split_byte, join, Bool, true, false, not, ◌&&◌,
  if◌then◌else◌,
}

-- The test that a parameter is forwarded.
unfoldable pub is_forwarded : Text → Bool
is_forwarded p = not (has_prefix p (codes "page=")) && not (has_prefix p (codes "page_size="))

unfoldable pub filter_params : List Text → List Text
filter_params [] = []
filter_params (p ∷ ps) = let rest = filter_params ps in if is_forwarded p then p ∷ rest else rest

unfoldable pub strip_pagination_params : Text → Text
strip_pagination_params [] = []
strip_pagination_params (c ∷ raw) = join (filter_params (split_byte b'&' [] (c ∷ raw))) (codes "&")

abbrev pub with_page : Text → Text
with_page [] = codes "page=1&page_size=1000"
with_page (c ∷ raw) = (c ∷ raw) ++ codes "&page=1&page_size=1000"

-- The head of handleSearch.
unfoldable pub shard_query : Text → Text
shard_query raw = with_page (strip_pagination_params raw)
