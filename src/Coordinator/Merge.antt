-- ===== src/Coordinator/Merge.antt =====
-- handleSearch of coordinator/internal/api/coordinator.go: the results of the shards merged.
use mathlib.Core.List.{Perm}
use telemetry_search_engine.Common.{
  ℕ, List, [], ◌∷◌, ◌++◌, Text, codes, Option, none, some, Bool, false, ◌||◌, ltb, if◌then◌else◌,
  length, map, take, drop, ◌⊎◌, inl, inr, IsSortedBy,
}
use telemetry_search_engine.Common.Int.{ℤ, pos, negsuc}
use telemetry_search_engine.Float.{Float, float_less}
use telemetry_search_engine.Index.Search.{page_bounds}
use telemetry_search_engine.Coordinator.{shard_query}
use telemetry_search_engine.Coordinator.Shards.{Web}

-- `Doc` is a JSON object.
pub record ShardResult (Doc F : Type 0) : Type 0 where
  pub documents : List Doc
  pub total_count : ℕ
  pub took_ms : F
  pub cache_hit : Bool

pub record MergedDoc (Doc F : Type 0) : Type 0 where
  pub doc : Doc
  pub score : F

-- The variables of the merging loop.
pub record Merge (Doc F : Type 0) : Type 0 where
  pub all_docs : List (MergedDoc Doc F)
  pub any_cache_hit : Bool
  pub max_shard_ms : F

-- What the coordinator answers but the time that it took.
pub record SearchAnswer (Doc F : Type 0) : Type 0 where
  pub documents : List Doc
  pub total_count : ℕ
  pub page : ℕ
  pub page_size : ℕ
  pub shard_ms : F
  pub cache_hit : Bool
  pub num_shards : ℕ

-- page and pageSize after Sscanf with %d, which leaves the variable where it fails, and the clamps.
abbrev pub scanned : ℤ → Option ℤ → ℤ
scanned default none = default
scanned default (some n) = n

abbrev pub clamp_page : ℤ → ℕ
clamp_page (pos n) = if ltb n 1 then 1 else n
clamp_page (negsuc n) = 1

abbrev pub clamp_page_size : ℤ → ℕ
clamp_page_size (pos n) = if ltb n 1 then 1 else if ltb 100 n then 100 else n
clamp_page_size (negsuc n) = 1

-- parsePagination, on the two parameters or their defaults.
unfoldable pub parse_pagination : (Text → Option ℤ) → Text → Text → ℕ × ℕ
parse_pagination sscanf page page_size = (
  clamp_page (scanned (pos 1) (sscanf page)),
  clamp_page_size (scanned (pos 20) (sscanf page_size)),
)

module _ (fl : Float) (Doc : Type 0) where
  open fl use {F, of_nat, lt}

  abbrev pub above_score : MergedDoc Doc F → MergedDoc Doc F → Bool
  above_score a b = float_less fl b.score a.score

  -- slices.SortFunc by score, greatest first: it orders documents of one score in any way.
  pub record SortFunc : Type 0 where
    pub sort : List (MergedDoc Doc F) → List (MergedDoc Doc F)
    pub keeps : (docs : List (MergedDoc Doc F)) → Perm (sort docs) docs
    pub orders : (docs : List (MergedDoc Doc F)) → IsSortedBy above_score (sort docs)

  -- What the merge calls of a document and of encoding/json: doc["_score"] where it is a float64,
  -- and the decoding of a shard's body, `none` where that fails.
  pub record Codec : Type 0 where
    pub score_of : Doc → Option F
    pub decode_result : Text → Option (ShardResult Doc F)

  module _ (codec : Codec) where
    abbrev pub score_or_zero : Option F → F
    score_or_zero none = of_nat 0
    score_or_zero (some s) = s

    abbrev pub scored : Doc → MergedDoc Doc F
    scored doc = record { doc = doc; score = score_or_zero (codec.score_of doc) }

    abbrev pub merge_response : Option (ShardResult Doc F) → Merge Doc F → Merge Doc F
    merge_response none m = m
    merge_response (some r) m = record {
      all_docs = m.all_docs ++ map scored r.documents;
      any_cache_hit = m.any_cache_hit || r.cache_hit;
      max_shard_ms = if lt m.max_shard_ms r.took_ms then r.took_ms else m.max_shard_ms;
    }

    module _ {V : Type 0} (web : Web V) where
      abbrev pub decoded_result : Text ⊎ (ℕ × Text) → Option (ShardResult Doc F)
      decoded_result (inl err) = none
      decoded_result (inr (status, body)) = codec.decode_result body

      abbrev pub with_query : Text → Text → Text
      with_query url [] = url
      with_query url (c ∷ raw) = url ++ codes "?" ++ c ∷ raw

      unfoldable pub query_shard_search : Text → Text → Text → Option (ShardResult Doc F)
      query_shard_search base raw auth =
          let url = with_query (base ++ codes "/api/v1/search") raw in
          if web.builds url then decoded_result (web.send (codes "GET") url [] auth) else none

      -- The loop over the channel: the shards in the order of their answers.
      unfoldable pub merge_all : Text → Text → List Text → Merge Doc F → Merge Doc F
      merge_all raw auth [] m = m
      merge_all raw auth (base ∷ order) m =
          merge_all raw auth order (merge_response (query_shard_search base raw auth) m)

      abbrev pub no_docs : Merge Doc F
      no_docs = record { all_docs = []; any_cache_hit = false; max_shard_ms = of_nat 0 }

      -- The answer for the bounds of a page; `none` is the panic of the slice.
      abbrev pub paged :
          ℕ
          → ℕ
          → ℕ
          → Merge Doc F
          → List (MergedDoc Doc F)
          → Option (ℕ × ℕ)
          → Option (SearchAnswer Doc F)
      paged page page_size num_shards m sorted none = none
      paged page page_size num_shards m sorted (some (lo, n)) = some (record {
        documents = map (λ (md : MergedDoc Doc F). md.doc) (take n (drop lo sorted));
        total_count = length sorted;
        page = page;
        page_size = page_size;
        shard_ms = m.max_shard_ms;
        cache_hit = m.any_cache_hit;
        num_shards = num_shards;
      })

      -- handleSearch on the raw query and its two parameters of pagination.
      unfoldable pub handle_search :
          SortFunc
          → (Text → Option ℤ)
          → Text
          → Text
          → Text
          → Text
          → List Text
          → Option (SearchAnswer Doc F)
      handle_search sf sscanf page_text size_text raw auth order =
          let (page, page_size) = parse_pagination sscanf page_text size_text in
          let m = merge_all (shard_query raw) auth order no_docs in
          let sorted = sf.sort m.all_docs in
          paged page page_size (length order) m sorted (page_bounds page page_size (length sorted))
