-- ===== src/Index/Filters.antt =====
-- Which entries the filters of a query select (`query_index`, ugoite-core/src/index.rs).
use ugoite.Common.{
  String, ◌≡◌, refl, Bool, true, false, ◌&&◌, Option, none, some, List, [], ◌∷◌, Result, ok,
  if◌then◌else◌, retain,
}
use ugoite.Json.{Value, Fields, end, field, is_object, as_object}
use ugoite.Sql.Syntax.{Statement}
use ugoite.Sql.Values.{Library}
use ugoite.Entry.Types.{EntryRow}
use ugoite.Index.Tables.{entry_values}
use ugoite.Index.Query.{
  holds_filter, matches_filters, filter_entries, query_value, extract_sql_query, query_index,
}

-- No filter asks for a structured operator.
abbrev pub IsPlain : Fields → Type 0
IsPlain end = Unit
IsPlain (field key expected filters) = (is_object expected ≡ false) × IsPlain filters

-- Every filter holds of an entry.
abbrev pub holds_filters : Fields → Value → Bool
holds_filters end entry = true
holds_filters (field key expected filters) entry =
    holds_filter entry key expected && holds_filters filters entry

matches_filters-holds :
    (entry : Value) (filters : Fields)
    → IsPlain filters
    → matches_filters entry filters ≡ ok (holds_filters filters entry)
unfolding matches_filters
matches_filters-holds entry end h = refl
matches_filters-holds entry (field key expected filters) (plain, h) =
    rw (plain, matches_filters-holds entry filters h)
      (by_test (holds_filter entry key expected) (holds_filters filters entry))
  where
    by_test :
        (a b : Bool) → ◌≡◌ {A = Result String Bool} (if a then ok b else ok false) (ok (a && b))
    by_test true b = refl
    by_test false b = refl

filter_entries-retain :
    (filters : Fields) (entries : List Value)
    → IsPlain filters
    → filter_entries (some filters) entries ≡ ok (retain (holds_filters filters) entries)
unfolding filter_entries retain
filter_entries-retain filters [] h = refl
filter_entries-retain filters (entry ∷ entries) h =
    rw (matches_filters-holds entry filters h, filter_entries-retain filters entries h) refl

-- A query that is no SQL and whose filters are plain values succeeds, and returns exactly the
-- entries of which every filter holds, in their order.
pub query_index-retain :
    (lib : Library) (parser : String → Result String (List Statement))
    (from_str : String → Option Value) (form_names : List String) (entries : Fields)
    (rows : List EntryRow) (query : String) (filters : Fields)
    → extract_sql_query (query_value from_str query) ≡ none
    → as_object (query_value from_str query) ≡ some filters
    → IsPlain filters
    → query_index lib parser from_str form_names entries rows query
      ≡ ok (retain (holds_filters filters) (entry_values entries))
unfolding query_index
query_index-retain lib parser from_str form_names entries rows query filters no_sql object_query
      plain =
    rw (query_index, no_sql, object_query)
      (filter_entries-retain filters (entry_values entries) plain)
