-- ===== src/Session/Guards.antt =====
-- What a session lets a caller read, and when (ugoite-core/src/sql_session.rs).
use ugoite.Common.{
  ℕ, String, ◌≡◌, refl, Bool, true, false, List, Result, ok, err, >>=-inv, All, ok-injective,
  if◌then◌else◌, subst, some, All-take, All-drop, take, drop, length, min, ◌-◌, leb, ◌&&◌,
  str_eq_refl,
}
use ugoite.Json.{Value, object, string, Fields}
use ugoite.Json.Object.{insert, get-insert, value_get}
use ugoite.Sql.Provenance.{IsOutput}
use ugoite.Index.Scope.{InScope, execute_sql_query_scoped-InScope}
use ugoite.Session.{
  Clock, SessionEnv, SessionPage, meta_str, is_expired, mark_expired, load_session_meta, live_sql,
  execute_session_sql, execute_session_sql_scoped, slice, session_page, usize_add,
  get_sql_session_rows, get_sql_session_rows_scoped, get_sql_session_count,
  get_sql_session_count_scoped, says_expired, get_sql_session_status, get_sql_session_rows_all,
  get_sql_session_rows_all_scoped,
}

meta_str-expired :
    (meta : Fields)
    → meta_str "status" (object (insert "status" (string "expired") meta)) ≡ some "expired"
unfolding meta_str value_get
meta_str-expired meta =
    rw
      (
        meta_str,
        value_get,
        get-insert "status" "status" (string "expired") meta,
        str_eq_refl "status",
      )
      refl

says_expired-status :
    (meta : Fields)
    → says_expired (meta_str "status" (object (insert "status" (string "expired") meta))) ≡ true
unfolding meta_str value_get
says_expired-status meta =
    rw
      (
        meta_str,
        value_get,
        get-insert "status" "status" (string "expired") meta,
        str_eq_refl "status",
      )
      (str_eq_refl "expired")

load_session_meta-expired :
    (clock : Clock) (meta : Fields)
    → is_expired clock (object meta) ≡ true
    → load_session_meta clock (ok (object meta))
      ≡ ok (object (insert "status" (string "expired") meta))
unfolding load_session_meta mark_expired
load_session_meta-expired clock meta h = rw h refl

live_sql-expired :
    (clock : Clock) (meta : Fields)
    → is_expired clock (object meta) ≡ true
    → live_sql clock (ok (object meta)) ≡ err "SQL session expired"
unfolding live_sql
live_sql-expired clock meta h =
    rw (load_session_meta-expired clock meta h, says_expired-status meta) refl

-- Once its time has come, a session answers every read of rows, of a page or of all, and every count
-- with the same error, scoped or not, and its status is that it has expired.
pub sql_session-expired :
    (env : SessionEnv) (meta : Fields) (offset limit : ℕ) (readable_forms : List String)
    (include_untyped : Bool)
    → is_expired env.clock (object meta) ≡ true
    → (get_sql_session_rows env (ok (object meta)) offset limit ≡ err "SQL session expired")
      × (get_sql_session_rows_scoped env
            (ok (object meta))
            offset
            limit
            readable_forms
            include_untyped
          ≡ err "SQL session expired")
      × (get_sql_session_rows_all env (ok (object meta)) ≡ err "SQL session expired")
      × (get_sql_session_rows_all_scoped env (ok (object meta)) readable_forms include_untyped
          ≡ err "SQL session expired")
      × (get_sql_session_count env (ok (object meta)) ≡ err "SQL session expired")
      × (get_sql_session_count_scoped env (ok (object meta)) readable_forms include_untyped
          ≡ err "SQL session expired")
      × ((shown : Value) × (get_sql_session_status env.clock (ok (object meta)) ≡ ok shown)
          × (meta_str "status" shown ≡ some "expired"))
unfolding get_sql_session_status get_sql_session_rows_all get_sql_session_rows_all_scoped
    get_sql_session_rows get_sql_session_rows_scoped get_sql_session_count
    get_sql_session_count_scoped execute_session_sql execute_session_sql_scoped
sql_session-expired env meta offset limit readable_forms include_untyped h =
    let e = live_sql-expired env.clock meta h in
    let status : (shown : Value) × (load_session_meta env.clock (ok (object meta)) ≡ ok shown)
        × (meta_str "status" shown ≡ some "expired") =
      (_, load_session_meta-expired env.clock meta h, meta_str-expired meta) in
    rw e (refl, refl, refl, refl, refl, refl, status)

session_page-All :
    (P : Value → Type 0) (offset limit : ℕ) (rows : List Value) (page : SessionPage)
    → session_page offset limit rows ≡ ok page
    → All P rows
    → All P page.rows
unfolding session_page slice
session_page-All P offset limit rows page h ps =
    let start = min offset (length rows) in
    let stop = min (usize_add offset limit) (length rows) in
    >>=-inv (slice start stop rows) _ h λ part e k.
      subst (λ p. All P p.rows) (ok-injective k)
        (cut (leb start stop && leb stop (length rows)) part (stop - start) start e)
  where
    cut :
        (b : Bool) (part : List Value) (m n : ℕ)
        → ◌≡◌ {A = Result String (List Value)}
            (if b then ok (take m (drop n rows)) else err "slice index out of range")
            (ok part)
        → All P part
    cut true part m n e =
        subst (All P) (ok-injective e) (All-take P m (drop n rows) (All-drop P n rows ps))
    cut false part m n e = cc

-- A page that is read within a scope shows readable entries only, as a scoped query does.
pub get_sql_session_rows_scoped-InScope :
    (env : SessionEnv) (file : Result String Value) (offset limit : ℕ)
    (readable_forms : List String) (include_untyped : Bool) (page : SessionPage)
    → get_sql_session_rows_scoped env file offset limit readable_forms include_untyped ≡ ok page
    → All (IsOutput (InScope env.lib readable_forms include_untyped env.space.entries)) page.rows
unfolding get_sql_session_rows_scoped execute_session_sql_scoped
get_sql_session_rows_scoped-InScope env file offset limit readable_forms include_untyped page h =
    >>=-inv (execute_session_sql_scoped env file readable_forms include_untyped)
      (session_page offset limit) h
      λ rows e k. >>=-inv (live_sql env.clock file) _ e λ sql e1 k1.
        session_page-All _ offset limit rows page k (
          execute_sql_query_scoped-InScope env.lib readable_forms include_untyped env.space.entries
            env.parser env.space.form_names env.space.rows sql rows k1)
