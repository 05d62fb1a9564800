-- ===== src/Index.antt =====
-- search-service/internal/indexer/index.go and search-service/internal/model/document.go: the data
-- of the inverted index.
pub mod Add
pub mod Finalize
pub mod Inversion
pub mod Loaded
pub mod Blocks
pub mod Bounds
pub mod Final
pub mod Finalized
pub mod Clean
pub mod Cursor
pub mod Seek
pub mod Below
pub mod Landing
pub mod Remaining
pub mod Active
pub mod Ends
pub mod Conjunctive
pub mod Turns
pub mod Kept
pub mod Complete
pub mod EveryToken
pub mod Distinct
pub mod Once
pub mod Overlap
pub mod Cached
pub mod Fresh
pub mod Serial
mod OverlapTests
pub mod Tally
pub mod Total
pub mod Heap
pub mod Heaped
pub mod Sound
pub mod Filters
pub mod Wand
pub mod CacheKey
pub mod Search
pub mod Answer
pub mod Content
pub mod Runs
pub mod Cache
pub mod Paging
mod Tests
mod RankTests
mod RunTests
use telemetry_search_engine.Common.{
  ℕ, Bool, false, List, [], ◌∷◌, ◌++◌, Text, Map, Option, none, some, get, ◌+◌, zero, suc, length,
  map, join, codes,
}
use telemetry_search_engine.Common.Int.{ℤ, pos}
use telemetry_search_engine.Float.{Float}

pub record Document : Type 0 where
  pub id : ℕ
  pub msg_id : Text
  pub partition_id : Text
  pub timestamp : Text
  pub hostname : Text
  pub priority : ℤ
  pub facility : ℤ
  pub facility_string : Text
  pub severity : ℤ
  pub severity_string : Text
  pub app_name : Text
  pub proc_id : Text
  pub message : Text
  pub message_raw : Text
  pub structured_data : Text
  pub tag : Text
  pub sender : Text
  pub groupings : Text
  pub event : Text
  pub event_id : Text
  pub nano_time_stamp : ℤ
  pub namespace : Text

-- model.Document{}, which a read of a missing key gives.
abbrev pub zero_document : Document
zero_document = record {
  id = 0;
  msg_id = [];
  partition_id = [];
  timestamp = [];
  hostname = [];
  priority = pos 0;
  facility = pos 0;
  facility_string = [];
  severity = pos 0;
  severity_string = [];
  app_name = [];
  proc_id = [];
  message = [];
  message_raw = [];
  structured_data = [];
  tag = [];
  sender = [];
  groupings = [];
  event = [];
  event_id = [];
  nano_time_stamp = pos 0;
  namespace = [];
}

pub record PostingEntry : Type 0 where
  pub doc_id : ℕ
  pub freq : ℕ

pub record Block (F : Type 0) : Type 0 where
  pub entries : List PostingEntry
  pub max_norm : F

pub record PostingList (F : Type 0) : Type 0 where
  pub blocks : List (Block F)
  pub doc_freq : ℕ
  pub max_score : F

pub record ScoredDoc (F : Type 0) : Type 0 where
  pub id : ℕ
  pub score : F

pub record SearchResult (F : Type 0) : Type 0 where
  pub documents : List Document
  pub total_count : ℕ
  pub page : ℕ
  pub page_size : ℕ
  pub took_ms : F
  pub cache_hit : Bool

pub record IndexStats : Type 0 where
  pub total_documents : ℕ
  pub total_terms : ℕ
  pub files : List Text
  pub index_ready : Bool

-- `page` and `page_size` are the bit patterns of the source's 64-bit ints.
pub record SearchQuery : Type 0 where
  pub query : Text
  pub sender : Text
  pub hostname : Text
  pub app_name : Text
  pub proc_id : Text
  pub msg_id : Text
  pub groupings : Text
  pub facility : Text
  pub raw_message : Text
  pub structured_data : Text
  pub severity : Text
  pub page : ℕ
  pub page_size : ℕ

-- Times are nanoseconds of one clock.
pub record CacheEntry (F : Type 0) : Type 0 where
  pub result : SearchResult F
  pub expires_at : ℕ

-- The counters are int64 in the source, and count what is in memory, so they do not overflow.
-- The locks have no field: an operation runs from its start to its end here.
pub record Index (F : Type 0) : Type 0 where
  pub docs : Map ℕ Document
  pub doc_lengths : Map ℕ F
  pub total_length : ℕ
  pub next_id : ℕ
  pub files : List Text
  pub ready : Bool
  pub inverted : Map Text (PostingList F)
  pub dirty : Map Text (Unit {0})
  pub cache : Map Text (CacheEntry F)

unfoldable pub new_index : (F : Type 0) → Index F
new_index F = record {
  docs = [];
  doc_lengths = [];
  total_length = 0;
  next_id = 0;
  files = [];
  ready = false;
  inverted = [];
  dirty = [];
  cache = [];
}

-- The entries of a list of blocks, in order.
abbrev pub flat_entries : {F : Type 0} → List (Block F) → List PostingEntry
flat_entries [] = []
flat_entries (blk ∷ blks) = blk.entries ++ flat_entries blks

unfoldable pub num_entries : {F : Type 0} → List (Block F) → ℕ
num_entries [] = 0
num_entries (blk ∷ blks) = length blk.entries + num_entries blks

unfoldable pub searchable_text : Document → Text
unfolding join
searchable_text doc =
    join
      (doc.message ∷ doc.message_raw ∷ doc.structured_data ∷ doc.tag ∷ doc.sender ∷ doc.hostname
        ∷ doc.app_name ∷ doc.proc_id ∷ doc.msg_id ∷ doc.groupings ∷ doc.facility_string
        ∷ doc.severity_string ∷ doc.event ∷ doc.namespace ∷ [])
      (codes " ")
