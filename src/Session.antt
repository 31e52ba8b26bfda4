-- ===== src/Session.antt =====
-- SQL sessions: a stored query that is run again for each page (ugoite-core/src/sql_session.rs). The
-- folder of a session is a value: the content of its `meta.json`, if it can be read.
pub mod Pages
mod Guards
mod Tests
use ugoite.Common.{
  ℕ, ◌+◌, ◌%◌, ◌-◌, ◌^◌, min, String, Bool, true, false, ◌&&◌, Option, none, some, List, [], ◌∷◌,
  Result, ok, err, guard, ok_or, ◌>>=◌, ◌>>◌, ◌==◌, leb, if◌then◌else◌, length, take, drop,
}
use ugoite.Json.{Value, null, string, object, Fields, end, as_str}
use ugoite.Json.Object.{get, insert, value_get}
use ugoite.Sql.Syntax.{Statement}
use ugoite.Sql.Values.{Library}
use ugoite.Entry.Types.{EntryRow}
use ugoite.Index.Tables.{execute_sql_query, execute_sql_query_scoped}

-- `DateTime::parse_from_rfc3339`, as an instant, and `Utc::now`.
pub record Clock : Type 0 where
  pub parse_from_rfc3339 : String → Option ℕ
  pub now : ℕ

-- What the space holds when a query runs.
pub record SpaceData : Type 0 where
  pub form_names : List String
  pub entries : Fields
  pub rows : List EntryRow

-- What the calls that read a session share.
pub record SessionEnv : Type 0 where
  pub lib : Library
  pub clock : Clock
  pub parser : String → Result String (List Statement)
  pub space : SpaceData

-- `meta.get(key).and_then(|v| v.as_str())`
unfoldable pub meta_str : String → Value → Option String
unfolding value_get
meta_str key meta = elim (value_get key meta) [ none ↦ none | some v ↦ as_str v ]

unfoldable pub is_expired : Clock → Value → Bool
unfolding meta_str
is_expired clock meta = elim (meta_str "expires_at" meta) [
  | none ↦ true
  | some expires_at ↦ elim (clock.parse_from_rfc3339 expires_at) [
    | none ↦ true
    | some time ↦ leb time clock.now
  ]
]

-- `meta["status"] = "expired"`, which panics for a value that is neither an object nor null.
unfoldable pub mark_expired : Value → Result String Value
unfolding insert
mark_expired (object fs) = ok (object (insert "status" (string "expired") fs))
mark_expired null = ok (object (insert "status" (string "expired") end))
mark_expired _ = err "cannot access key \"status\""

-- `read_json` of the session's `meta.json`: an error if there is none.
unfoldable pub load_session_meta : Clock → Result String Value → Result String Value
unfolding is_expired mark_expired
load_session_meta clock file = do
  meta ← file
  if is_expired clock meta then mark_expired meta else ok meta

unfoldable pub session_sql : Value → Result String String
unfolding meta_str
session_sql meta = ok_or (meta_str "sql" meta) "SQL session missing sql"

abbrev pub says_expired : Option String → Bool
says_expired none = false
says_expired (some status) = status == "expired"

-- The query of a session that has not expired.
unfoldable pub live_sql : Clock → Result String Value → Result String String
unfolding load_session_meta session_sql
live_sql clock file = do
  meta ← load_session_meta clock file
  if says_expired (meta_str "status" meta) then err "SQL session expired" else session_sql meta

unfoldable pub execute_session_sql : SessionEnv → Result String Value → Result String (List Value)
unfolding live_sql execute_sql_query
execute_session_sql env file =
    live_sql env.clock file
    >>= execute_sql_query env.lib env.parser env.space.form_names env.space.entries env.space.rows

unfoldable pub execute_session_sql_scoped :
    SessionEnv → Result String Value → List String → Bool → Result String (List Value)
unfolding live_sql execute_sql_query_scoped
execute_session_sql_scoped env file readable_forms include_untyped =
    live_sql env.clock file >>= λ sql.
    execute_sql_query_scoped env.lib env.parser env.space.form_names env.space.entries
      env.space.rows sql readable_forms include_untyped

-- `rows[start..end]`, which panics if the range is not one of the rows.
unfoldable pub slice : ℕ → ℕ → List Value → Result String (List Value)
slice start end_index rows =
    if leb start end_index && leb end_index (length rows)
    then ok (take (end_index - start) (drop start rows))
    else err "slice index out of range"

pub record SessionPage : Type 0 where
  pub rows : List Value
  pub offset : ℕ
  pub limit : ℕ
  pub total_count : ℕ

-- The sum of two `usize` wraps in a release build.
abbrev pub usize_add : ℕ → ℕ → ℕ
usize_add a b = (a + b) % 2 ^ 64

unfoldable pub session_page : ℕ → ℕ → List Value → Result String SessionPage
unfolding slice
session_page offset limit rows = do
  let total = length rows
  part ← slice (min offset total) (min (usize_add offset limit) total) rows
  ok (record { rows = part; offset = offset; limit = limit; total_count = total })

unfoldable pub get_sql_session_status : Clock → Result String Value → Result String Value
unfolding load_session_meta
get_sql_session_status clock file = load_session_meta clock file

unfoldable pub get_sql_session_rows_all :
    SessionEnv → Result String Value → Result String (List Value)
unfolding execute_session_sql
get_sql_session_rows_all env file = execute_session_sql env file

unfoldable pub get_sql_session_rows_all_scoped :
    SessionEnv → Result String Value → List String → Bool → Result String (List Value)
unfolding execute_session_sql_scoped
get_sql_session_rows_all_scoped env file readable_forms include_untyped =
    execute_session_sql_scoped env file readable_forms include_untyped

unfoldable pub get_sql_session_count : SessionEnv → Result String Value → Result String ℕ
unfolding execute_session_sql
get_sql_session_count env file = execute_session_sql env file >>= λ rows. ok (length rows)

unfoldable pub get_sql_session_count_scoped :
    SessionEnv → Result String Value → List String → Bool → Result String ℕ
unfolding execute_session_sql_scoped
get_sql_session_count_scoped env file readable_forms include_untyped =
    execute_session_sql_scoped env file readable_forms include_untyped >>= λ rows. ok (length rows)

unfoldable pub get_sql_session_rows :
    SessionEnv → Result String Value → ℕ → ℕ → Result String SessionPage
unfolding execute_session_sql session_page
get_sql_session_rows env file offset limit =
    execute_session_sql env file >>= session_page offset limit

unfoldable pub get_sql_session_rows_scoped :
    SessionEnv → Result String Value → ℕ → ℕ → List String → Bool → Result String SessionPage
unfolding execute_session_sql_scoped session_page
get_sql_session_rows_scoped env file offset limit readable_forms include_untyped =
    execute_session_sql_scoped env file readable_forms include_untyped >>= session_page offset limit
