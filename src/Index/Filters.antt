-- ===== src/Index/Filters.antt =====
-- The field filters of search-service/internal/indexer/index.go.
use telemetry_search_engine.Common.{
  [], ◌∷◌, Bool, true, false, not, ◌&&◌, ◌||◌, Text, contains_text, to_lower, if◌then◌else◌,
}
use telemetry_search_engine.Index.{Document, SearchQuery}

abbrev pub is_blank : Text → Bool
is_blank [] = true
is_blank (c ∷ s) = false

module _ (unicode : Text → Text) where
  -- The closure `check`.
  unfoldable pub check : Text → Text → Bool
  check field filter =
      if is_blank filter
      then true
      else contains_text (to_lower unicode field) (to_lower unicode filter)

  unfoldable pub field_filters_match : Document → SearchQuery → Bool
  field_filters_match doc q =
      check doc.sender q.sender
      && check doc.hostname q.hostname
      && check doc.app_name q.app_name
      && check doc.proc_id q.proc_id
      && check doc.msg_id q.msg_id
      && check doc.groupings q.groupings
      && check doc.facility_string q.facility
      && check doc.message_raw q.raw_message
      && check doc.structured_data q.structured_data
      && check doc.severity_string q.severity

unfoldable pub has_field_filters : SearchQuery → Bool
has_field_filters q =
    not (is_blank q.sender)
    || not (is_blank q.hostname)
    || not (is_blank q.app_name)
    || not (is_blank q.proc_id)
    || not (is_blank q.msg_id)
    || not (is_blank q.groupings)
    || not (is_blank q.facility)
    || not (is_blank q.raw_message)
    || not (is_blank q.structured_data)
    || not (is_blank q.severity)
