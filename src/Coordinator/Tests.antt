-- ===== src/Coordinator/Tests.antt =====
-- Runs of the coordinator, and the theorems on them.
use mathlib.Core.List.{Perm}
use mathlib.Core.List.Perm
use telemetry_search_engine.Common.{
  ℕ, zero, suc, ◌-◌, ◌*◌, ◌≤◌, ◌<◌, ◌%◌, ◌^◌, ◌≡◌, refl, List, [], ◌∷◌, Text, Map, codes,
  split_byte, has_prefix, join, Option, none, some, inr, map, take, drop, length, get_elem?,
  contains, nat_eq, ltb, true, false, gather, sum_of, sort_by, sort_by-perm, sort_by-IsSortedBy,
  IsSortedBy, IsWeakOrder, arith,
}
use telemetry_search_engine.Common.Int.{ℤ, pos}
use telemetry_search_engine.Float
use telemetry_search_engine.Float.{Float}
use telemetry_search_engine.Fixed.{fixed, fixed-FloatOrder}
use telemetry_search_engine.Coordinator.{
  is_forwarded, filter_params, strip_pagination_params, shard_query,
}
use telemetry_search_engine.Coordinator.Shards
use telemetry_search_engine.Coordinator.Merge
use telemetry_search_engine.Coordinator.Shards.{
  Web, shard_index, shard_urls, reindex_at, handle_reindex, all_build, handle_stats,
}
use telemetry_search_engine.Coordinator.Merge.{
  MergedDoc, SearchAnswer, parse_pagination, above_score, SortFunc, Codec, handle_search,
}
use telemetry_search_engine.Coordinator.Routing.{
  IsServed, handle_reindex_all, shard_stats, shard_count, stats_merged,
}
use telemetry_search_engine.Coordinator.Merged.{shard_docs, search_merged}

abbrev client : Text
client = codes "page=3&q=a&page_size=9"

abbrev rest : Text
rest = codes "=a"

client-stripped : strip_pagination_params client ≡ b'q' ∷ rest
unfolding strip_pagination_params filter_params is_forwarded has_prefix split_byte join
client-stripped = refl

-- Values are texts, and a shard answers with its own address.
abbrev first_code : Text → ℕ
first_code [] = 0
first_code (c ∷ s) = c

abbrev web : Web Text
web = record {
  trim_space = λ s. s;
  builds = λ url. true;
  send = λ method url body auth. inr (200, url);
  unmarshal = λ body. some ((codes "from", body) ∷ []);
  decode = λ body. (codes "total_documents", body) ∷ [];
  marshal = λ obj. [];
  number = λ n. n ∷ [];
  string = λ s. s;
  as_string = λ v. some v;
  as_int64 = λ v. some (first_code v);
}

abbrev shards : List Text
shards = codes "a" ∷ codes "b" ∷ []

-- A document is a number, which is its score.
abbrev codec : Codec fixed ℕ
codec = record {
  score_of = λ doc. some (pos doc);
  decode_result = λ body.
      some (record {
        documents = body;
        total_count = length body;
        took_ms = pos 3;
        cache_hit = false;
      });
}

above_score-IsWeakOrder : IsWeakOrder (above_score fixed ℕ)
unfolding Float.float_less
above_score-IsWeakOrder = record {
  asym = λ x y h. fixed-FloatOrder.asym y.score x.score h;
  negative_trans = λ x y z h k. fixed-FloatOrder.negative_trans z.score y.score x.score refl k h;
}

abbrev sort_func : SortFunc fixed ℕ
sort_func = record {
  sort = sort_by (above_score fixed ℕ);
  keeps = sort_by-perm (above_score fixed ℕ);
  orders = sort_by-IsSortedBy (above_score fixed ℕ) above_score-IsWeakOrder;
}

-- "f" hashes to the shard 1 of 2.
hashed : shard_index (codes "f") 2 ≡ 1
unfolding shard_index Shards.fnv32
hashed = refl

both-swapped : Perm (codes "b" ∷ codes "a" ∷ []) shards
both-swapped = Perm.swap (codes "a") (codes "b") []

two-IsServed : (i : ℕ) → i < 2 → IsServed web [] shards i
unfolding Shards.reindex_shard
two-IsServed zero h = (_, refl)
two-IsServed (suc zero) h = (_, refl)
two-IsServed (suc (suc i)) h = absurd (omega arith)

all_listed : (i : ℕ) → contains (1 ∷ 0 ∷ []) i ≡ ltb i 2
unfolding contains
all_listed i = ground arith

handle_reindex_all_example :
    (results : List (Map Text Text)) × (handle_reindex web shards [] (1 ∷ 0 ∷ []) ≡ some results)
    × (length results ≡ 2)
    × ((i : ℕ) → i < 2 → get_elem? results i ≡ reindex_at web [] shards i)
handle_reindex_all_example = handle_reindex_all web [] shards (1 ∷ 0 ∷ []) all_listed two-IsServed

both_build : all_build web (codes "b" ∷ codes "a" ∷ []) ≡ true
unfolding Shards.all_build
both_build = refl

stats_merged_example :
    (shard_list : List (Map Text Text)) × (total : ℕ) × (handle_stats web []
        (codes "b" ∷ codes "a" ∷ [])
      ≡ some (shard_list, total))
    × Perm shard_list (gather (shard_stats web []) shards)
    × (total ≡ sum_of (shard_count web []) shards % 2 ^ 64)
stats_merged_example =
    stats_merged web [] shards (codes "b" ∷ codes "a" ∷ []) both-swapped both_build

abbrev no_number : Text → Option ℤ
no_number s = none

near : (parse_pagination no_number [] []).0 ≤ 2 ^ 56
unfolding parse_pagination
near = omega arith

few : length (gather (shard_docs fixed ℕ codec web (codes "q=a") []) shards) < 2 ^ 62
unfolding Merge.query_shard_search shard_query strip_pagination_params filter_params is_forwarded
    has_prefix split_byte join
few = omega arith

search_merged_example :
    let (page, page_size) = parse_pagination no_number [] [] in
    (a : SearchAnswer ℕ ℤ) × (sorted : List (MergedDoc ℕ ℤ)) × (handle_search fixed ℕ codec web
        sort_func no_number [] []
        (codes "q=a")
        []
        (codes "b" ∷ codes "a" ∷ [])
      ≡ some a)
    × Perm sorted (gather (shard_docs fixed ℕ codec web (codes "q=a") []) shards)
    × IsSortedBy (above_score fixed ℕ) sorted
    × (a.documents
        ≡ map
            (λ (md : MergedDoc ℕ ℤ). md.doc)
            (take page_size (drop ((page - 1) * page_size) sorted)))
    × (a.total_count ≡ length (gather (shard_docs fixed ℕ codec web (codes "q=a") []) shards))
search_merged_example =
    search_merged fixed ℕ codec web (codes "q=a") [] sort_func no_number [] [] shards
      (codes "b" ∷ codes "a" ∷ []) both-swapped near few
