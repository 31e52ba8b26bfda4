-- ===== src/Session/Tests.antt =====
-- Runs of a session: one page of one entry, an expired session, and a limit that overflows.
use ugoite.Common.{
  ◌≡◌, refl, sym, subst, true, false, none, some, [], ◌∷◌, ◌++◌, ok, err, ◌>>=◌, All, take, drop,
  length, arith, ◌==◌,
}
use ugoite.Common.Maps.{lookup, put}
use ugoite.Json.{Value, null, object, string, Fields}
use ugoite.Json.Object.{get, insert, from_list, value_get}
use ugoite.Sql.Values.{Library}
use ugoite.Sql.Parse.Tests.{all_query, all_parser, parsed_all}
use ugoite.Sql.Context.{new_context, to_value, canonical_table_key}
use ugoite.Sql.Run.{
  filter_entries_by_sql, table_rows, run_joins, select_rows, order_rows, base_contexts,
}
use ugoite.Sql.Provenance.{IsOutput}
use ugoite.Entry.Types.{}
use ugoite.Index.Tables.{
  form_of, entry_values, is_visible, related_rows, form_tables, build_sql_tables, is_readable,
  in_forms, filter_entries_for_sql_scope, execute_sql_query_scoped,
}
use ugoite.Index.Scope.{InScope}
use ugoite.Session.{
  SessionEnv, SessionPage, is_expired, meta_str, load_session_meta, session_sql, live_sql,
  execute_session_sql_scoped, session_page, slice, get_sql_session_rows,
  get_sql_session_rows_scoped, get_sql_session_count, get_sql_session_count_scoped,
  get_sql_session_status, get_sql_session_rows_all, get_sql_session_rows_all_scoped, meta_str,
}
use ugoite.Session.Pages.{session_page-take, session_page-append, session_page-overflow}
use ugoite.Session.Guards.{sql_session-expired, get_sql_session_rows_scoped-InScope}

abbrev lib : Library
lib = record {
  f64_of_pos = λ n. n;
  f64_of_neg = λ n. n;
  parse_f64 = λ s. none;
  to_lowercase = λ s. s;
  regex_escape = λ c. "x";
  regex_is_match = λ p t. false;
}

abbrev task : Value
task = object (from_list (("form", string "Task") ∷ []))

abbrev env : SessionEnv
env = record {
  lib = lib;
  clock = record { parse_from_rfc3339 = λ s. some 20; now = 10 };
  parser = all_parser;
  space = record { form_names = []; entries = from_list (("e1", task) ∷ []); rows = [] };
}

abbrev meta : Fields
meta =
    from_list
      (("sql", string "SELECT * FROM entries") ∷ ("expires_at", string "2026-01-01T00:00:00Z") ∷ [])

abbrev page : SessionPage
page = record { rows = task ∷ []; offset = 0; limit = 5; total_count = 1 }

scoped_all :
    filter_entries_by_sql lib
      (build_sql_tables lib [] []
        (filter_entries_for_sql_scope lib env.space.entries ("Task" ∷ []) false))
      all_query
    ≡ ok (task ∷ [])
unfolding filter_entries_by_sql table_rows run_joins select_rows order_rows base_contexts
    new_context put lookup to_value canonical_table_key from_list insert get value_get form_of
    entry_values is_visible related_rows form_tables build_sql_tables is_readable in_forms
    filter_entries_for_sql_scope ◌==◌
scoped_all = refl

live : live_sql env.clock (ok (object meta)) ≡ ok "SELECT * FROM entries"
unfolding live_sql load_session_meta session_sql is_expired meta_str value_get get from_list insert
    ◌==◌
live = refl

paged : session_page 0 5 (task ∷ []) ≡ ok page
unfolding session_page slice
paged = refl

scoped :
    execute_sql_query_scoped lib all_parser [] env.space.entries [] "SELECT * FROM entries"
      ("Task" ∷ [])
      false
    ≡ ok (task ∷ [])
unfolding execute_sql_query_scoped
scoped =
    subst
      (λ r.
        (r
          >>= filter_entries_by_sql lib (
              build_sql_tables lib [] []
                (filter_entries_for_sql_scope lib env.space.entries ("Task" ∷ []) false)))
        ≡ ok (task ∷ []))
      (sym parsed_all) scoped_all

rows_read : get_sql_session_rows_scoped env (ok (object meta)) 0 5 ("Task" ∷ []) false ≡ ok page
unfolding get_sql_session_rows_scoped execute_session_sql_scoped
rows_read = rw (live, scoped) paged

get_sql_session_rows_scoped-InScope_example :
    All (IsOutput (InScope lib ("Task" ∷ []) false env.space.entries)) (task ∷ [])
get_sql_session_rows_scoped-InScope_example =
    get_sql_session_rows_scoped-InScope env (ok (object meta)) 0 5 ("Task" ∷ []) false page
      rows_read

session_page-take_example :
    session_page 0 5 (task ∷ [])
    ≡ ok (record {
      rows = take 5 (drop 0 (task ∷ []));
      offset = 0;
      limit = 5;
      total_count = length (task ∷ []);
    })
session_page-take_example = session_page-take 0 5 (task ∷ []) (omega arith)

abbrev first_page : SessionPage
first_page = record { rows = task ∷ []; offset = 0; limit = 1; total_count = 2 }

abbrev second_page : SessionPage
second_page = record { rows = null ∷ []; offset = 1; limit = 1; total_count = 2 }

abbrev both_pages : SessionPage
both_pages = record { rows = task ∷ null ∷ []; offset = 0; limit = 2; total_count = 2 }

first_paged : session_page 0 1 (task ∷ null ∷ []) ≡ ok first_page
unfolding session_page slice
first_paged = refl

second_paged : session_page 1 1 (task ∷ null ∷ []) ≡ ok second_page
unfolding session_page slice
second_paged = refl

both_paged : session_page 0 2 (task ∷ null ∷ []) ≡ ok both_pages
unfolding session_page slice
both_paged = refl

session_page-append_example : first_page.rows ++ second_page.rows ≡ both_pages.rows
session_page-append_example =
    session_page-append 0 1 1 (task ∷ null ∷ []) first_page second_page both_pages (omega arith)
      first_paged second_paged both_paged

session_page-overflow_example :
    session_page 1 18446744073709551615 (task ∷ []) ≡ err "slice index out of range"
session_page-overflow_example =
    session_page-overflow 1 18446744073709551615 (task ∷ []) (omega arith) (omega arith)
      (omega arith) (omega arith)

abbrev stale : Fields
stale = from_list (("sql", string "SELECT * FROM entries") ∷ [])

no_expiry : is_expired env.clock (object stale) ≡ true
unfolding is_expired meta_str value_get get from_list insert ◌==◌
no_expiry = refl

sql_session-expired_example :
    (get_sql_session_rows env (ok (object stale)) 0 5 ≡ err "SQL session expired")
    × (get_sql_session_rows_scoped env (ok (object stale)) 0 5 ("Task" ∷ []) false
        ≡ err "SQL session expired")
    × (get_sql_session_rows_all env (ok (object stale)) ≡ err "SQL session expired")
    × (get_sql_session_rows_all_scoped env (ok (object stale)) ("Task" ∷ []) false
        ≡ err "SQL session expired")
    × (get_sql_session_count env (ok (object stale)) ≡ err "SQL session expired")
    × (get_sql_session_count_scoped env (ok (object stale)) ("Task" ∷ []) false
        ≡ err "SQL session expired")
    × ((shown : Value) × (get_sql_session_status env.clock (ok (object stale)) ≡ ok shown)
        × (meta_str "status" shown ≡ some "expired"))
sql_session-expired_example = sql_session-expired env stale 0 5 ("Task" ∷ []) false no_expiry
