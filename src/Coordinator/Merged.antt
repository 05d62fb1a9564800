-- ===== src/Coordinator/Merged.antt =====
-- What the coordinator answers to a search.
use mathlib.Core.List.{Perm, append-nil, append_assoc}
use mathlib.Core.List.Perm
use telemetry_search_engine.Common.{
  ℕ, zero, suc, ◌-◌, ◌*◌, ◌^◌, ◌≤◌, ◌<◌, min, ◌≡◌, refl, ap, ◌∙◌, sym, List, [], ◌∷◌, ◌++◌, Text,
  Option, none, some, length, map, take, drop, length-drop, gather, gather-perm, length-perm,
  IsSortedBy, arith,
}
use native.Mathlib.Nat.{mul-le-mul}
use telemetry_search_engine.Common.Int.{ℤ, pos, negsuc}
use telemetry_search_engine.Float.{Float}
use telemetry_search_engine.Index.Search.{page_bounds}
use telemetry_search_engine.Index.Paging.{page_bounds_exact}
use telemetry_search_engine.Coordinator.{shard_query}
use telemetry_search_engine.Coordinator.Shards.{Web}
use telemetry_search_engine.Coordinator.Merge.{
  ShardResult, MergedDoc, Merge, SearchAnswer, scanned, clamp_page, clamp_page_size,
  parse_pagination, above_score, SortFunc, Codec, scored, merge_response, query_shard_search,
  merge_all, no_docs, paged, handle_search,
}

module _ {ℓ} {A : Type ℓ} where
  take-min : (n : ℕ) (xs : List A) → take (min n (length xs)) xs ≡ take n xs
  take-min zero xs = let e : min 0 (length xs) ≡ 0 = omega arith in rw e refl
  take-min (suc n) [] = let e : min (suc n) 0 ≡ 0 = omega arith in rw e refl
  take-min (suc n) (x ∷ xs) =
      let e : min (suc n) (suc (length xs)) ≡ suc (min n (length xs)) = omega arith in
      rw e (ap (◌∷◌ x) (take-min n xs))

  drop-min : (n : ℕ) (xs : List A) → drop (min n (length xs)) xs ≡ drop n xs
  drop-min zero xs = let e : min 0 (length xs) ≡ 0 = omega arith in rw e refl
  drop-min (suc n) [] = let e : min (suc n) 0 ≡ 0 = omega arith in rw e refl
  drop-min (suc n) (x ∷ xs) =
      let e : min (suc n) (suc (length xs)) ≡ suc (min n (length xs)) = omega arith in
      rw e (drop-min n xs)

  -- The bounds of a page cut off at the end of the list change nothing.
  page_slice :
      (offset size : ℕ) (xs : List A)
      → take (min size (length xs - offset)) (drop (min offset (length xs)) xs)
        ≡ take size (drop offset xs)
  page_slice offset size xs =
      rw (drop-min offset xs, ← length-drop offset xs) (take-min size (drop offset xs))

clamp_page_lem : (n : ℤ) → 1 ≤ clamp_page n
clamp_page_lem (pos n) = ground arith
clamp_page_lem (negsuc n) = omega arith

clamp_page_size_le : (n : ℤ) → clamp_page_size n ≤ 100
clamp_page_size_le (pos n) = ground arith
clamp_page_size_le (negsuc n) = omega arith

module _ (fl : Float) (Doc : Type 0) (codec : Codec fl Doc) {V : Type 0} (web : Web V)
    (raw auth : Text) where
  open fl use {F}

  -- The scored documents of a shard's answer; a shard that fails gives none.
  abbrev pub scored_docs : Option (ShardResult Doc F) → List (MergedDoc Doc F)
  scored_docs none = []
  scored_docs (some r) = map (scored fl Doc codec) r.documents

  abbrev pub shard_docs : Text → List (MergedDoc Doc F)
  shard_docs base = scored_docs (query_shard_search fl Doc codec web base (shard_query raw) auth)

  merge_response_lem :
      (r : Option (ShardResult Doc F)) (m : Merge Doc F)
      → (merge_response fl Doc codec r m).all_docs ≡ m.all_docs ++ scored_docs r
  merge_response_lem none m = sym (append-nil m.all_docs)
  merge_response_lem (some r) m = refl

  merge_all_lem :
      (order : List Text) (m : Merge Doc F)
      → (merge_all fl Doc codec web (shard_query raw) auth order m).all_docs
        ≡ m.all_docs ++ gather shard_docs order
  unfolding merge_all
  merge_all_lem [] m = sym (append-nil m.all_docs)
  merge_all_lem (base ∷ order) m =
      let r = query_shard_search fl Doc codec web base (shard_query raw) auth in
      merge_all_lem order (merge_response fl Doc codec r m)
      ∙ ap (λ ds. ds ++ gather shard_docs order) (merge_response_lem r m)
      ∙ append_assoc m.all_docs (scored_docs r) (gather shard_docs order)

  abbrev IsPageOf : ℕ → ℕ → List (MergedDoc Doc F) → SearchAnswer Doc F → Type 0
  IsPageOf page size sorted a =
      (a.documents
        ≡ map (λ (md : MergedDoc Doc F). md.doc) (take size (drop ((page - 1) * size) sorted)))
      × (a.total_count ≡ length sorted)

  paged_exact :
      (page size num_shards : ℕ) (m : Merge Doc F) (sorted : List (MergedDoc Doc F))
      → 1 ≤ page
      → page ≤ 2 ^ 56
      → size ≤ 100
      → length sorted < 2 ^ 62
      → (a : SearchAnswer Doc F) × (paged fl Doc codec web page size num_shards m sorted
            (page_bounds page size (length sorted))
          ≡ some a)
        × IsPageOf page size sorted a
  paged_exact page size num_shards m sorted first near high few =
      let bound : (page - 1) * size ≤ 2 ^ 56 * 100 = mul-le-mul {n₂ = 2 ^ 56} (omega arith) high in
      let cut =
        page_bounds_exact page size (length sorted) first (omega arith) (omega arith) few
          (omega arith) in
      rw cut (
        _,
        refl,
        (
          ap (map (λ (md : MergedDoc Doc F). md.doc)) (page_slice ((page - 1) * size) size sorted),
          refl,
        ),
      )

  -- With a page of at most 2^56 and less than 2^62 documents, the answer to a search does not
  -- depend on the order in which the shards answer but for documents of one score: it has the
  -- number of the documents of all the shards that answered, and the page of their list by
  -- descending score. A shard that fails is left out.
  pub search_merged :
      (sf : SortFunc fl Doc) (sscanf : Text → Option ℤ) (page_text size_text : Text)
      (shards order : List Text)
      → Perm order shards
      → (parse_pagination sscanf page_text size_text).0 ≤ 2 ^ 56
      → length (gather shard_docs shards) < 2 ^ 62
      → let (page, page_size) = parse_pagination sscanf page_text size_text in
        (a : SearchAnswer Doc F) × (sorted : List (MergedDoc Doc F)) × (handle_search fl Doc codec
            web sf sscanf page_text size_text raw auth order
          ≡ some a)
        × Perm sorted (gather shard_docs shards)
        × IsSortedBy (above_score fl Doc) sorted
        × (a.documents
            ≡ map
                (λ (md : MergedDoc Doc F). md.doc)
                (take page_size (drop ((page - 1) * page_size) sorted)))
        × (a.total_count ≡ length (gather shard_docs shards))
  unfolding handle_search parse_pagination
  search_merged sf sscanf page_text size_text shards order perm near few =
      let m = merge_all fl Doc codec web (shard_query raw) auth order (no_docs fl Doc codec web) in
      let sorted = sf.sort m.all_docs in
      let same : Perm sorted (gather shard_docs shards) =
        Perm.trans (sf.keeps m.all_docs)
          (rw (merge_all_lem order (no_docs fl Doc codec web)) (gather-perm shard_docs perm)) in
      let count : length sorted ≡ length (gather shard_docs shards) = length-perm same in
      let (a, ran, (documents, total)) =
        paged_exact (clamp_page (scanned (pos 1) (sscanf page_text)))
          (clamp_page_size (scanned (pos 20) (sscanf size_text))) (length order) m sorted
          (clamp_page_lem (scanned (pos 1) (sscanf page_text))) near
          (clamp_page_size_le (scanned (pos 20) (sscanf size_text))) (omega arith) in
      (a, sorted, ran, same, sf.orders m.all_docs, documents, total ∙ count)
