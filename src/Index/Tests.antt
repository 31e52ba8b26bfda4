-- ===== src/Index/Tests.antt =====
-- A scoped query over one entry.
use ugoite.Common.{
  String, Option, none, some, retain, ◌≡◌, refl, false, none, List, [], ◌∷◌, ok, ◌==◌, All, subst,
  sym, ◌>>=◌,
}
use ugoite.Common.Text.{trim}
use ugoite.Common.Maps.{lookup, put}
use ugoite.Json.{null, as_object, Value, object, string, Fields}
use ugoite.Json.Object.{insert, from_list, get, value_get}
use ugoite.Sql.Parse.Tests.{all_query, all_parser, parsed_all}
use ugoite.Sql.Values.{Library}
use ugoite.Sql.Context.{new_context, to_value, canonical_table_key}
use ugoite.Sql.Run.{
  filter_entries_by_sql, table_rows, run_joins, select_rows, order_rows, base_contexts,
}
use ugoite.Sql.Provenance.{IsOutput}
use ugoite.Entry.Types.{EntryRow}
use ugoite.Index.Tables.{
  form_of, entry_values, is_visible, related_rows, form_tables, build_sql_tables, is_readable,
  in_forms, filter_entries_for_sql_scope, execute_sql_query_scoped,
}
use ugoite.Index.Query.{extract_sql_query, query_value, sql_entry, query_index}
use ugoite.Index.Filters.{holds_filters, query_index-retain}
use ugoite.Index.Scope.{InScope, execute_sql_query_scoped-InScope}

abbrev lib : Library
lib = record {
  f64_of_pos = λ n. n;
  f64_of_neg = λ n. n;
  parse_f64 = λ s. none;
  to_lowercase = λ s. s;
  regex_escape = λ c. "x";
  regex_is_match = λ p t. false;
}

abbrev task : Value
task = object (from_list (("form", string "Task") ∷ []))

abbrev secret : Value
secret = object (from_list (("form", string "Secret") ∷ []))

abbrev space_entries : Fields
space_entries = from_list (("e1", task) ∷ ("e2", secret) ∷ [])

abbrev rows : List EntryRow
rows =
    record {
      entry_id = "e2";
      title = "Hidden";
      form = "Secret";
      tags = [];
      links = [];
      created_at = 0;
      updated_at = 0;
      fields = null;
      extra_attributes = null;
      revision_id = "r1";
      parent_revision_id = none;
      assets = object (from_list []) ∷ [];
      integrity = record { checksum = ""; signature = "" };
      deleted = false;
      deleted_at = none;
      author = "u1";
    }
    ∷ []

scoped_all :
    filter_entries_by_sql lib
      (build_sql_tables lib rows []
        (filter_entries_for_sql_scope lib space_entries ("Task" ∷ []) false))
      all_query
    ≡ ok (task ∷ [])
unfolding filter_entries_by_sql table_rows run_joins select_rows order_rows base_contexts
    new_context put lookup to_value canonical_table_key from_list insert get value_get form_of
    entry_values is_visible related_rows form_tables build_sql_tables is_readable in_forms
    filter_entries_for_sql_scope ◌==◌
scoped_all = refl

scoped :
    execute_sql_query_scoped lib all_parser [] space_entries rows "SELECT * FROM entries"
      ("Task" ∷ [])
      false
    ≡ ok (task ∷ [])
unfolding execute_sql_query_scoped
scoped =
    subst
      (λ r.
        (r
          >>= filter_entries_by_sql lib (
              build_sql_tables lib rows []
                (filter_entries_for_sql_scope lib space_entries ("Task" ∷ []) false)))
        ≡ ok (task ∷ []))
      (sym parsed_all) scoped_all

execute_sql_query_scoped-InScope_example :
    All (IsOutput (InScope lib ("Task" ∷ []) false space_entries)) (task ∷ [])
execute_sql_query_scoped-InScope_example =
    execute_sql_query_scoped-InScope lib ("Task" ∷ []) false space_entries all_parser [] rows
      "SELECT * FROM entries" (task ∷ []) scoped

abbrev by_form : Fields
by_form = from_list (("form", string "Task") ∷ [])

abbrev reads_filter : String → Option Value
reads_filter = λ text. some (object by_form)

no_sql : extract_sql_query (query_value reads_filter "{}") ≡ none
unfolding extract_sql_query query_value sql_entry trim from_list get ◌==◌ insert
no_sql = refl

has_filters : as_object (query_value reads_filter "{}") ≡ some by_form
unfolding query_value trim
has_filters = refl

query_index-retain_example :
    query_index lib all_parser reads_filter [] space_entries rows "{}"
    ≡ ok (retain (holds_filters by_form) (entry_values space_entries))
unfolding from_list insert
query_index-retain_example =
    query_index-retain lib all_parser reads_filter [] space_entries rows "{}" by_form no_sql
      has_filters (refl, tt)
