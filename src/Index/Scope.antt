-- ===== src/Index/Scope.antt =====
-- What a reader of some forms can see through SQL (`execute_sql_query_scoped`,
-- ugoite-core/src/index.rs).
use ugoite.Common.{
  String, ◌≡◌, refl, subst, Bool, true, false, ◌&&◌, ◌||◌, not, Option, none, some, List, [], ◌∷◌,
  ◌++◌, Result, ok, >>=-inv, All, All-append, if◌then◌else◌, ◌==◌, arith, str_eq_iff,
}
use ugoite.Common.Maps.{AllValues, AllValues-put}
use ugoite.Json.{Value, null, string, object, Fields, end, field, array, number, bool}
use ugoite.Json.Object.{get}
use ugoite.Sql.Syntax.{Statement}
use ugoite.Sql.Parse.{parse_sql}
use ugoite.Sql.Values.{Library}
use ugoite.Sql.Run.{Tables}
use ugoite.Sql.Provenance.{IsOutput, filter_entries_by_sql-IsOutput}
use ugoite.Entry.Types.{Link, EntryRow}
use ugoite.Index.Tables.{
  entry_values, is_visible, has_form, form_rows, link_row, link_rows, asset_row, asset_rows,
  related_rows, form_tables, build_sql_tables, is_readable, filter_entries_for_sql_scope,
  execute_sql_query_scoped,
}

-- An entry of a map, with its id.
pub data IsEntry (entry_id : String) (entry : Value) : Fields → Type 0 where
  here : (fs : Fields) → IsEntry entry_id entry (field entry_id entry fs)
  there :
      (k : String) (v : Value) (fs : Fields)
      → IsEntry entry_id entry fs
      → IsEntry entry_id entry (field k v fs)

module _ (lib : Library) (readable_forms : List String) (include_untyped : Bool)
    (entries : Fields) where
  -- An entry of the space that the reader may read.
  abbrev pub IsReadableEntry : String → Value → Type 0
  IsReadableEntry entry_id entry =
      IsEntry entry_id entry entries × (is_readable lib readable_forms include_untyped entry ≡ true)

  abbrev pub in_scope : Fields
  in_scope = filter_entries_for_sql_scope lib entries readable_forms include_untyped

  -- A row that shows readable entries only: such an entry, a link between two of them, an asset of
  -- one, or null.
  pub data InScope : Value → Type 0 where
    entry_row : (entry_id : String) (entry : Value) → IsReadableEntry entry_id entry → InScope entry
    link_between :
        (link : Link) (source target : Value)
        → IsReadableEntry link.source source
        → IsReadableEntry link.target target
        → InScope (link_row in_scope link)
    asset_of :
        (entry_id : String) (entry : Value) (asset : Fields)
        → IsReadableEntry entry_id entry
        → InScope (asset_row entry_id asset)
    padding : InScope null

  values-InScope :
      (fs : Fields)
      → ((k : String) (v : Value) → IsEntry k v fs → IsEntry k v entries)
      → All InScope
          (entry_values (filter_entries_for_sql_scope lib fs readable_forms include_untyped))
  unfolding entry_values filter_entries_for_sql_scope
  values-InScope end sub = tt
  values-InScope (field k v fs) sub =
      kept (is_readable lib readable_forms include_untyped v) refl
        (values-InScope fs (λ j w m. sub j w (there k v fs m)))
    where
      kept :
          (b : Bool)
          → is_readable lib readable_forms include_untyped v ≡ b
          → All InScope
              (entry_values (filter_entries_for_sql_scope lib fs readable_forms include_untyped))
          → All InScope (
              entry_values (
                if b
                then field k v (filter_entries_for_sql_scope lib fs readable_forms include_untyped)
                else filter_entries_for_sql_scope lib fs readable_forms include_untyped))
      kept true e rest = (entry_row k v (sub k v (here fs), e), rest)
      kept false e rest = rest

  found-IsReadableEntry :
      (fs : Fields) (entry_id : String) (entry : Value)
      → ((k : String) (v : Value) → IsEntry k v fs → IsEntry k v entries)
      → get entry_id (filter_entries_for_sql_scope lib fs readable_forms include_untyped)
        ≡ some entry
      → IsReadableEntry entry_id entry
  unfolding get filter_entries_for_sql_scope
  found-IsReadableEntry end entry_id entry sub h = cc
  found-IsReadableEntry (field k v fs) entry_id entry sub h =
      kept (is_readable lib readable_forms include_untyped v) refl h
        (found-IsReadableEntry fs entry_id entry (λ j w m. sub j w (there k v fs m)))
    where
      scoped : Fields
      scoped = filter_entries_for_sql_scope lib fs readable_forms include_untyped

      matched :
          (b : Bool)
          → (k == entry_id) ≡ b
          → is_readable lib readable_forms include_untyped v ≡ true
          → (if b then some v else get entry_id scoped) ≡ some entry
          → (get entry_id scoped ≡ some entry → IsReadableEntry entry_id entry)
          → IsReadableEntry entry_id entry
      matched true e r j rest =
          let same : k ≡ entry_id = ground (arith, str_eq_iff k entry_id) in
          let value : v ≡ entry = cc in
          (
            subst (λ i. IsEntry i entry entries) same
                (subst (λ w. IsEntry k w entries) value (sub k v (here fs))),
            subst (λ w. is_readable lib readable_forms include_untyped w ≡ true) value r,
          )
      matched false e r j rest = rest j

      kept :
          (b : Bool)
          → is_readable lib readable_forms include_untyped v ≡ b
          → get entry_id (if b then field k v scoped else scoped) ≡ some entry
          → (get entry_id scoped ≡ some entry → IsReadableEntry entry_id entry)
          → IsReadableEntry entry_id entry
      kept true e j rest = matched (k == entry_id) refl e j rest
      kept false e j rest = rest j

  is_visible-IsReadableEntry :
      (entry_id : String)
      → is_visible in_scope entry_id ≡ true
      → (entry : Value) × IsReadableEntry entry_id entry
  unfolding is_visible
  is_visible-IsReadableEntry entry_id h = found (get entry_id in_scope) refl
    where
      found :
          (o : Option Value)
          → get entry_id in_scope ≡ o
          → (entry : Value) × IsReadableEntry entry_id entry
      found none e = cc
      found (some entry) e = (entry, found-IsReadableEntry entries entry_id entry (λ k v m. m) e)

  form_rows-InScope :
      (name : String) (vs : List Value) → All InScope vs → All InScope (form_rows name vs)
  unfolding form_rows
  form_rows-InScope name [] h = tt
  form_rows-InScope name (v ∷ vs) (p, h) = kept (has_form name v) (form_rows-InScope name vs h)
    where
      kept :
          (b : Bool)
          → All InScope (form_rows name vs)
          → All InScope (if b then v ∷ form_rows name vs else form_rows name vs)
      kept true r = (p, r)
      kept false r = r

  form_tables-InScope :
      (names : List String) (vs : List Value) (tables : Tables)
      → All InScope vs
      → AllValues (All InScope) tables
      → AllValues (All InScope) (form_tables lib names vs tables)
  unfolding form_tables
  form_tables-InScope [] vs tables h t = t
  form_tables-InScope (name ∷ names) vs tables h t =
      form_tables-InScope names vs _ h
        (AllValues-put (All InScope) _ (form_rows name vs) tables (form_rows-InScope name vs h) t)

  link_rows-InScope : (links : List Link) → All InScope (link_rows in_scope links)
  unfolding link_rows
  link_rows-InScope [] = tt
  link_rows-InScope (link ∷ links) =
      kept (is_visible in_scope link.source) (is_visible in_scope link.target) refl refl
        (link_rows-InScope links)
    where
      kept :
          (a b : Bool)
          → is_visible in_scope link.source ≡ a
          → is_visible in_scope link.target ≡ b
          → All InScope (link_rows in_scope links)
          → All InScope (
              if a && b
              then link_row in_scope link ∷ link_rows in_scope links
              else link_rows in_scope links)
      kept true true e f more =
          let (source, s) = is_visible-IsReadableEntry link.source e in
          let (target, t) = is_visible-IsReadableEntry link.target f in
          (link_between link source target s t, more)
      kept true false e f more = more
      kept false b e f more = more

  asset_rows-InScope :
      (entry_id : String) (entry : Value) (assets : List Value)
      → IsReadableEntry entry_id entry
      → All InScope (asset_rows entry_id assets)
  unfolding asset_rows
  asset_rows-InScope entry_id entry [] r = tt
  asset_rows-InScope entry_id entry (object obj ∷ assets) r =
      (asset_of entry_id entry obj r, asset_rows-InScope entry_id entry assets r)
  asset_rows-InScope entry_id entry (null ∷ assets) r = asset_rows-InScope entry_id entry assets r
  asset_rows-InScope entry_id entry (bool _ ∷ assets) r = asset_rows-InScope entry_id entry assets r
  asset_rows-InScope entry_id entry (number _ ∷ assets) r =
      asset_rows-InScope entry_id entry assets r
  asset_rows-InScope entry_id entry (string _ ∷ assets) r =
      asset_rows-InScope entry_id entry assets r
  asset_rows-InScope entry_id entry (array _ ∷ assets) r =
      asset_rows-InScope entry_id entry assets r

  related_rows-InScope :
      (rows : List EntryRow)
      → All InScope (related_rows in_scope rows).0 × All InScope (related_rows in_scope rows).1
  unfolding related_rows
  related_rows-InScope [] = (tt, tt)
  related_rows-InScope (row ∷ rows) =
      kept row.deleted (is_visible in_scope row.entry_id) refl (related_rows-InScope rows)
    where
      Both : List Value × List Value → Type 0
      Both r = All InScope r.0 × All InScope r.1

      kept :
          (a b : Bool)
          → is_visible in_scope row.entry_id ≡ b
          → Both (related_rows in_scope rows)
          → Both (
              if a || not b then related_rows in_scope rows else (
                link_rows in_scope row.links ++ (related_rows in_scope rows).0,
                asset_rows row.entry_id row.assets ++ (related_rows in_scope rows).1,
              ))
      kept true b e r = r
      kept false false e r = r
      kept false true e (l, a) =
          let (entry, readable) = is_visible-IsReadableEntry row.entry_id e in
          (
            All-append InScope (link_rows in_scope row.links) _ (link_rows-InScope row.links) l,
            All-append InScope (asset_rows row.entry_id row.assets) _
                (asset_rows-InScope row.entry_id entry row.assets readable) a,
          )

  build_sql_tables-InScope :
      (rows : List EntryRow) (form_names : List String)
      → AllValues (All InScope) (build_sql_tables lib rows form_names in_scope)
  unfolding build_sql_tables
  build_sql_tables-InScope rows form_names =
      let values = values-InScope entries (λ k v m. m) in
      let (links, assets) = related_rows-InScope rows in
      AllValues-put (All InScope) "assets" _ _ assets (
        AllValues-put (All InScope) "links" _ _ links (
          form_tables-InScope form_names _ _ values
            (AllValues-put (All InScope) "entries" _ [] values tt)))

  -- Whatever the text of a scoped query, each of its rows, or each column of a joined row, is an
  -- entry of a readable form, a link between two such entries, an asset of one, or null.
  pub execute_sql_query_scoped-InScope :
      (parser : String → Result String (List Statement)) (form_names : List String)
      (rows : List EntryRow) (sql_query : String) (out : List Value)
      → execute_sql_query_scoped lib parser form_names entries rows sql_query readable_forms
          include_untyped
        ≡ ok out
      → All (IsOutput InScope) out
  unfolding execute_sql_query_scoped
  execute_sql_query_scoped-InScope parser form_names rows sql_query out h =
      >>=-inv (parse_sql parser sql_query) _ h λ query e k.
        filter_entries_by_sql-IsOutput InScope padding lib _ query out
          (build_sql_tables-InScope rows form_names) k
