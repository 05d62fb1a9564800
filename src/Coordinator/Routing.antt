-- ===== src/Coordinator/Routing.antt =====
-- Where the coordinator sends a notification, and what it answers for all its shards.
use mathlib.Core.List.{Perm, append-nil, append_assoc}
use telemetry_search_engine.Common.{
  ℕ, ◌+◌, ◌%◌, ◌^◌, ◌≤◌, ◌<◌, ◌≡◌, refl, ap, ◌∙◌, sym, List, [], ◌∷◌, ◌++◌, Text, Map, codes,
  split_byte, Option, none, some, inl, inr, get, text_eq, contains, nat_eq, true, ltb, eqb, eqb_iff,
  if◌then◌else◌, length, get_elem?, get_elem?-lt, get_elem?-set, length-set, length-map, map, set,
  gather, gather-perm, sum_of, sum_of-perm, arith, Bool-cases,
}
use telemetry_search_engine.Common.Words.{add64}
use telemetry_search_engine.Coordinator.Shards.{
  Web, shard_index, shard_urls, reindex_at, complete, handle_reindex, documents_of,
  query_shard_stats, add_stats, collect_stats, all_build, handle_stats,
}

length-split_byte : (sep : ℕ) (cur s : Text) → 1 ≤ length (split_byte sep cur s)
unfolding split_byte
length-split_byte sep cur [] = omega arith
length-split_byte sep cur (c ∷ s) = ground (arith, length-split_byte sep (cur ++ c ∷ []) s)

shard_index_lt : (filename : Text) (n : ℕ) → 1 ≤ n → shard_index filename n < n
unfolding shard_index
shard_index_lt filename n h = ground arith

module _ {V : Type 0} (web : Web V) where
  -- Whatever the list of addresses and the file name, the shard that the name hashes to is one of
  -- the coordinator's, so the notification has a shard to go to.
  pub shard_index_has_shard :
      (urls filename : Text)
      → let shards = shard_urls web urls in
        (base : Text) × (get_elem? shards (shard_index filename (length shards)) ≡ some base)
  unfolding shard_urls
  shard_index_has_shard urls filename =
      let pieces = split_byte b',' [] urls in
      let shards = map web.trim_space pieces in
      get_elem?-lt shards (shard_index filename (length shards)) (
        shard_index_lt filename (length shards)
          (omega (arith, length-map web.trim_space pieces, length-split_byte b',' [] urls)))

  module _ (auth : Text) (shards : List Text) where
    -- The goroutine of a shard ends with an object, and does not panic.
    abbrev pub IsServed : ℕ → Type 0
    IsServed i = (obj : Map Text V) × (reindex_at web auth shards i ≡ some obj)

    -- The results after some goroutines have ended.
    abbrev Written : List ℕ → List (Map Text V) → List (Map Text V) → Type 0
    Written order before after =
        (length after ≡ length before)
        × ((i : ℕ)
            → i < length shards
            → get_elem? after i
              ≡ (if contains order i then reindex_at web auth shards i else get_elem? before i))

    complete-Written :
        (order : List ℕ) (results : List (Map Text V))
        → ((i : ℕ) → contains order i ≡ true → (i < length shards) × IsServed i)
        → length results ≡ length shards
        → (after : List (Map Text V)) × (complete web auth shards order results ≡ some after)
          × Written order results after
    unfolding complete contains
    complete-Written [] results served n = (results, refl, (refl, λ i h. refl))
    complete-Written (j ∷ order) results served n =
        let (bound, (obj, reply)) = served j (ground arith) in
        let (after, ran, (count, slots)) =
          complete-Written order (set results j obj) (λ i h. served i (ground arith))
            (length-set results j obj ∙ n) in
        (
          after,
          rw reply ran,
          (
            count ∙ length-set results j obj,
            λ i h.
                slots i h ∙ rw (get_elem?-set results j i obj (omega arith)) (merged i obj reply),
          ),
        )
      where
        merged :
            (i : ℕ) (obj : Map Text V)
            → reindex_at web auth shards j ≡ some obj
            → (if contains order i
                then reindex_at web auth shards i
                else if eqb j i
                then some obj
                else get_elem? results i)
              ≡ (if contains (j ∷ order) i
                  then reindex_at web auth shards i
                  else get_elem? results i)
        merged i obj reply = elim (Bool-cases (eqb j i)) [
          | inl e ↦
              let same : j ≡ i = (eqb_iff j i).0 e in
              let here : reindex_at web auth shards i ≡ some obj = rw same at reply in
              rw (e, here) (ground arith)
          | inr e ↦ rw e (ground arith)
        ]

    -- If every shard's goroutine ends, in whatever order, without a panic, the answer has one
    -- object for each shard, at the shard's place: what that shard's goroutine made.
    pub handle_reindex_all :
        (order : List ℕ)
        → ((i : ℕ) → contains order i ≡ ltb i (length shards))
        → ((i : ℕ) → i < length shards → IsServed i)
        → (results : List (Map Text V)) × (handle_reindex web shards auth order ≡ some results)
          × (length results ≡ length shards)
          × ((i : ℕ) → i < length shards → get_elem? results i ≡ reindex_at web auth shards i)
    unfolding handle_reindex
    handle_reindex_all order all served =
        let (results, ran, (count, slots)) =
          complete-Written order (map (λ base. []) shards)
            (λ i h. (ground (arith, all i), served i (ground (arith, all i))))
            (length-map (λ base. []) shards) in
        (
          results,
          ran,
          count ∙ length-map (λ base. []) shards,
          λ i h.
              slots i h
              ∙ (let here : contains order i ≡ true = ground (arith, all i) in rw here refl),
        )

  module _ (auth : Text) where
    abbrev pub listed_stats : Option (Map Text V) → List (Map Text V)
    listed_stats none = []
    listed_stats (some obj) = obj ∷ []

    abbrev pub counted : Option (Map Text V) → ℕ
    counted none = 0
    counted (some obj) = documents_of web (get (codes "total_documents") obj)

    -- The stats of a shard that answers, and the documents that they count.
    abbrev pub shard_stats : Text → List (Map Text V)
    shard_stats base = listed_stats (query_shard_stats web auth base)

    abbrev pub shard_count : Text → ℕ
    shard_count base = counted (query_shard_stats web auth base)

    add_stats_lem :
        (o : Option (Map Text V)) (acc : List (Map Text V) × ℕ)
        → acc.1 < 2 ^ 64
        → ((add_stats web o acc).0 ≡ acc.0 ++ listed_stats o)
          × ((add_stats web o acc).1 ≡ (acc.1 + counted o) % 2 ^ 64)
    add_stats_lem none (objs, total) h = (sym (append-nil objs), omega arith)
    add_stats_lem (some obj) (objs, total) h = (refl, unfold add64 in refl)

    collect_stats_lem :
        (order : List Text) (acc : List (Map Text V) × ℕ)
        → acc.1 < 2 ^ 64
        → ((collect_stats web auth order acc).0 ≡ acc.0 ++ gather shard_stats order)
          × ((collect_stats web auth order acc).1 ≡ (acc.1 + sum_of shard_count order) % 2 ^ 64)
    unfolding collect_stats sum_of
    collect_stats_lem [] acc h = (sym (append-nil acc.0), omega arith)
    collect_stats_lem (base ∷ order) acc h =
        let o = query_shard_stats web auth base in
        let (objs, total) = add_stats_lem o acc h in
        let (all, sum) = collect_stats_lem order (add_stats web o acc) (omega arith) in
        (
          all
              ∙ ap (λ xs. xs ++ gather shard_stats order) objs
              ∙ append_assoc acc.0 (listed_stats o) (gather shard_stats order),
          sum ∙ omega arith,
        )

    -- If a request can be built for every shard, then in whatever order they answer, the stats list
    -- those of every shard that answered, and count the sum of their documents, in 64 bits.
    pub stats_merged :
        (shards order : List Text)
        → Perm order shards
        → all_build web order ≡ true
        → (shard_list : List (Map Text V)) × (total : ℕ) × (handle_stats web auth order
            ≡ some (shard_list, total))
          × Perm shard_list (gather shard_stats shards)
          × (total ≡ sum_of shard_count shards % 2 ^ 64)
    unfolding handle_stats
    stats_merged shards order perm built =
        let (all, sum) = collect_stats_lem order ([], 0) (omega arith) in
        let (shard_list, total) = collect_stats web auth order ([], 0) in
        (
          shard_list,
          total,
          rw built refl,
          rw all (gather-perm shard_stats perm),
          sum ∙ omega (arith, sum_of-perm shard_count perm),
        )
