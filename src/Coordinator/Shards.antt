-- ===== src/Coordinator/Shards.antt =====
-- coordinator/internal/api/coordinator.go: the shards, and what is asked of each. The HTTP client
-- and the JSON package are inputs.
use Prim.Native.Nat.{bit_xor}
use telemetry_search_engine.Common.{
  ℕ, ◌*◌, ◌%◌, ◌^◌, List, [], ◌∷◌, ◌++◌, Text, Map, codes, split_byte, Option, none, some, ◌⊎◌, inl,
  inr, get, put, text_eq, Bool, true, false, leb, if◌then◌else◌, length, get_elem?, map, set,
}
use telemetry_search_engine.Common.Words.{add64}

-- What the coordinator calls of net/http, encoding/json and strings: one request of the client,
-- with its method, address, body and Authorization header, answered with a status and a body; and
-- the reading and writing of JSON objects. `inl` is an error of the client with its text, and
-- `none` the unmarshalling of a text that is no object.
pub record Web (V : Type 0) : Type 0 where
  pub trim_space : Text → Text
  pub builds : Text → Bool
  pub send : Text → Text → Text → Text → Text ⊎ (ℕ × Text)
  pub unmarshal : Text → Option (Map Text V)
  -- what Decoder.Decode leaves in a nil map, an error or not
  pub decode : Text → Map Text V
  pub marshal : Map Text V → Text
  pub number : ℕ → V
  pub string : Text → V
  -- v.(string)
  pub as_string : V → Option Text
  -- int64(v.(float64)), as the bits of the int64
  pub as_int64 : V → Option ℕ

-- The loop of shardIndex: FNV-32 over the bytes of the name.
unfoldable pub fnv32 : ℕ → Text → ℕ
fnv32 h [] = h
fnv32 h (c ∷ s) = fnv32 (bit_xor h c * 16777619 % 2 ^ 32) s

unfoldable pub shard_index : Text → ℕ → ℕ
shard_index filename num_shards =
    if leb num_shards 1 then 0 else fnv32 2166136261 filename % num_shards

-- An answer to the client, or a panic of its handler.
pub data Reply (V : Type 0) : Type 0 where
  json : ℕ → Map Text V → Reply V
  error_reply : ℕ → Reply V
  nil_map out_of_range : Reply V

infixl 5 ◌>>=◌
abbrev pub ◌>>=◌ : {A B : Type 0} → Option A → (A → Option B) → Option B
none >>= k = none
some a >>= k = k a

abbrev pub text_or_empty : Option Text → Text
text_or_empty none = []
text_or_empty (some s) = s

abbrev pub count_or_zero : Option ℕ → ℕ
count_or_zero none = 0
count_or_zero (some n) = n

module _ {V : Type 0} (web : Web V) where
  -- The shards of NewCoordinator.
  unfoldable pub shard_urls : Text → List Text
  shard_urls urls = map web.trim_space (split_byte b',' [] urls)

  abbrev pub string_of : Option V → Text
  string_of none = []
  string_of (some v) = text_or_empty (web.as_string v)

  abbrev pub with_shard_id : ℕ → Map Text V → Map Text V
  with_shard_id id obj = put (codes "shard_id") (web.number id) obj

  abbrev pub relayed : ℕ → ℕ → Option (Map Text V) → Reply V
  relayed target status none = nil_map
  relayed target status (some obj) = json status (with_shard_id target obj)

  abbrev pub notify_reply : ℕ → Text ⊎ (ℕ × Text) → Reply V
  notify_reply target (inl err) = error_reply 502
  notify_reply target (inr (status, body)) = relayed target status (web.unmarshal body)

  abbrev pub notify_shard : Text → Map Text V → ℕ → Option Text → Reply V
  notify_shard auth body target none = out_of_range
  notify_shard auth body target (some base) =
      let url = base ++ codes "/api/v1/ingest-notify" in
      if web.builds url
      then notify_reply target (web.send (codes "POST") url (web.marshal body) auth)
      else error_reply 500

  -- handleIngestNotify, on what ShouldBindJSON makes of the body.
  unfoldable pub handle_ingest_notify : List Text → Text → Option (Map Text V) → Reply V
  handle_ingest_notify shards auth none = error_reply 400
  handle_ingest_notify shards auth (some body) =
      let target = shard_index (string_of (get (codes "filename") body)) (length shards) in
      notify_shard auth body target (get_elem? shards target)

  abbrev pub reindexed : ℕ → Text ⊎ (ℕ × Text) → Option (Map Text V)
  reindexed idx (inl err) =
      some ((codes "shard_id", web.number idx) ∷ (codes "error", web.string err) ∷ [])
  reindexed idx (inr (status, body)) = do obj ← web.unmarshal body; some (with_shard_id idx obj)

  -- The goroutine of handleReindex for a shard; `none` is a panic, which ends the process.
  unfoldable pub reindex_shard : Text → ℕ → Text → Option (Map Text V)
  reindex_shard auth idx base =
      let url = base ++ codes "/api/v1/reindex" in
      if web.builds url then reindexed idx (web.send (codes "POST") url [] auth) else none

  abbrev pub reindex_at : Text → List Text → ℕ → Option (Map Text V)
  reindex_at auth shards idx = do base ← get_elem? shards idx; reindex_shard auth idx base

  -- The writes to `results`, in the order in which the goroutines end.
  unfoldable pub complete :
      Text → List Text → List ℕ → List (Map Text V) → Option (List (Map Text V))
  complete auth shards [] results = some results
  complete auth shards (idx ∷ order) results = do
    obj ← reindex_at auth shards idx
    complete auth shards order (set results idx obj)

  -- handleReindex: the results that it answers 202 with.
  unfoldable pub handle_reindex : List Text → Text → List ℕ → Option (List (Map Text V))
  handle_reindex shards auth order = complete auth shards order (map (λ base. []) shards)

  abbrev decoded : Text ⊎ (ℕ × Text) → Option (Map Text V)
  decoded (inl err) = none
  decoded (inr (status, body)) = some (web.decode body)

  -- queryShardStats, where a request can be built: the object, or an error.
  unfoldable pub query_shard_stats : Text → Text → Option (Map Text V)
  query_shard_stats auth base =
      decoded (web.send (codes "GET") (base ++ codes "/api/v1/stats") [] auth)

  abbrev pub documents_of : Option V → ℕ
  documents_of none = 0
  documents_of (some v) = count_or_zero (web.as_int64 v)

  abbrev pub add_stats : Option (Map Text V) → List (Map Text V) × ℕ → List (Map Text V) × ℕ
  add_stats none acc = acc
  add_stats (some obj) (shard_list, total) =
      (shard_list ++ obj ∷ [], add64 total (documents_of (get (codes "total_documents") obj)))

  -- The loop of handleStats over the channel: the shards in the order of their answers.
  unfoldable pub collect_stats : Text → List Text → List (Map Text V) × ℕ → List (Map Text V) × ℕ
  collect_stats auth [] acc = acc
  collect_stats auth (base ∷ order) acc =
      collect_stats auth order (add_stats (query_shard_stats auth base) acc)

  unfoldable pub all_build : List Text → Bool
  all_build [] = true
  all_build (base ∷ order) =
      let rest = all_build order in
      if web.builds (base ++ codes "/api/v1/stats") then rest else false

  -- handleStats: the stats and the total that it answers; `none` is the panic of a goroutine whose
  -- request could not be built, which ends the process.
  unfoldable pub handle_stats : Text → List Text → Option (List (Map Text V) × ℕ)
  handle_stats auth order =
      if all_build order then some (collect_stats auth order ([], 0)) else none
