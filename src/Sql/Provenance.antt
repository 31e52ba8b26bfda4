-- ===== src/Sql/Provenance.antt =====
-- Where the values in the rows of a query come from (`filter_entries_by_sql`, ugoite-core/src/sql.rs).
use Prim.Native.String.{compare}
use ugoite.Common.{
  String, ◌≡◌, refl, subst, Bool, true, false, ◌&&◌, not, Option, none, some, List, [], ◌∷◌, ◌++◌,
  map, ok, >>=-inv, ok-injective, All, All-take, All-append, if◌then◌else◌, ◌⊎◌, inl, inr, nat_eq,
  length, ◌==◌, any, Ordering,
}
use ugoite.Common.Maps.{HashMap, lookup, AllValues, AllValues-put, AllValues-lookup}
use ugoite.Json.{Value, null, object, Fields, end, field}
use ugoite.Json.Object.{insert}
use ugoite.Sql.Syntax.{Expr}
use ugoite.Sql.Parse.{SqlTableRef, SqlJoin, SqlQuery}
use ugoite.Sql.Values.{Library}
use ugoite.Sql.Context.{RowContext, or_else, new_context, add_table, output_fields, to_value}
use ugoite.Sql.Where.{matches_expr}
use ugoite.Sql.Run.{
  Tables, keeps_left, keeps_right, blank, table_rows, row_matches, scan_rows, padding,
  scan_contexts, right_only, run_join, run_joins, select_rows, order_rows, base_contexts,
  filter_entries_by_sql,
}
use ugoite.Sql.Bounds.{order_rows-All}

All-if :
    {A : Type 0} (P : A → Type 0) (b : Bool) (xs ys : List A)
    → All P xs
    → All P ys
    → All P (if b then xs else ys)
All-if P true xs ys h k = h
All-if P false xs ys h k = k

module _ (P : Value → Type 0) where
  -- The value of every field.
  abbrev pub AllFields : Fields → Type 0
  AllFields end = Unit
  AllFields (field k v fs) = P v × AllFields fs

  AllFields-insert :
      (k : String) (v : Value) (fs : Fields) → P v → AllFields fs → AllFields (insert k v fs)
  unfolding insert
  AllFields-insert k v end p h = (p, tt)
  AllFields-insert k v (field j w fs) p (q, h) =
      placed (j == k) (compare k j) (AllFields-insert k v fs p h)
    where
      placed :
          (same : Bool) (o : Ordering)
          → AllFields (insert k v fs)
          → AllFields (
              if same then field k v fs else elim o [
                | Ordering.lt ↦ field k v (field j w fs)
                | _ ↦ field j w (insert k v fs)
              ])
      placed true o r = (p, h)
      placed false Ordering.lt r = (p, (q, h))
      placed false Ordering.eq r = (q, r)
      placed false Ordering.gt r = (q, r)

  -- A row of a result is one row that was read, or an object of rows that were read.
  abbrev pub IsOutput : Value → Type 0
  IsOutput row = P row ⊎ ((fs : Fields) × (row ≡ object fs) × AllFields fs)

  -- Every table of a context holds such a row.
  abbrev pub IsJoined : RowContext → Type 0
  IsJoined context = AllValues P context.tables

  output_fields-AllFields :
      (names : HashMap String) (tables : HashMap Value)
      → AllValues P tables
      → AllFields (output_fields names tables)
  unfolding output_fields
  output_fields-AllFields names [] h = tt
  output_fields-AllFields names ((k, v) ∷ tables) (p, h) =
      AllFields-insert (or_else (lookup k names) k) v (output_fields names tables) p
        (output_fields-AllFields names tables h)

  module _ (p_null : P null) where
    lookup-or-null :
        (k : String) (tables : HashMap Value)
        → AllValues P tables
        → P (or_else (lookup k tables) null)
    lookup-or-null k tables h = found (lookup k tables) refl
      where
        found : (o : Option Value) → lookup k tables ≡ o → P (or_else o null)
        found none e = p_null
        found (some v) e = AllValues-lookup P k tables e h

    to_value-IsOutput : (c : RowContext) → IsJoined c → IsOutput (to_value c)
    unfolding to_value
    to_value-IsOutput c h = shaped (nat_eq (length c.tables) 1)
      where
        shaped :
            (one : Bool)
            → IsOutput (
                if one
                then or_else (lookup c.base_key c.tables) null
                else object (output_fields c.output_names c.tables))
        shaped true = inl (lookup-or-null c.base_key c.tables h)
        shaped false = inr (_, refl, output_fields-AllFields c.output_names c.tables h)

    blank-AllValues : (m : HashMap Value) → AllValues P (blank m)
    unfolding blank
    blank-AllValues [] = tt
    blank-AllValues ((k, v) ∷ m) = (p_null, blank-AllValues m)

    module _ (lib : Library) where
      add_table-IsJoined :
          (c : RowContext) (t : SqlTableRef) (row : Value)
          → IsJoined c
          → P row
          → IsJoined (add_table lib c t row)
      unfolding add_table
      add_table-IsJoined c t row h p = AllValues-put P _ row c.tables p h

      base_contexts-IsJoined :
          (t : SqlTableRef) (rows : List Value)
          → All P rows
          → All IsJoined (base_contexts lib t rows)
      unfolding base_contexts new_context
      base_contexts-IsJoined t [] h = tt
      base_contexts-IsJoined t (row ∷ rows) (p, h) =
          (AllValues-put P _ row [] p tt, base_contexts-IsJoined t rows h)

      scan_rows-IsJoined :
          (join : SqlJoin) (c : RowContext) (rows : List Value) (out : List RowContext)
          (flags : List Bool)
          → scan_rows lib join c rows ≡ ok (out, flags)
          → IsJoined c
          → All P rows
          → All IsJoined out
      unfolding scan_rows
      scan_rows-IsJoined join c [] out flags h j ps =
          subst (λ r. All IsJoined r.0) (ok-injective h) tt
      scan_rows-IsJoined join c (row ∷ rows) out flags h j (p, ps) =
          let next = add_table lib c join.table_ref row in
          >>=-inv (row_matches lib join.constraint c next row) _ h λ hit e0 h0.
            >>=-inv (scan_rows lib join c rows) _ h0 λ more e1 h1.
              let later = scan_rows-IsJoined join c rows more.0 more.1 e1 j ps in
              subst (λ r. All IsJoined r.0) (ok-injective h1)
                (All-if IsJoined hit (next ∷ more.0) more.0
                  (add_table-IsJoined c join.table_ref row j p, later) later)

      padding-IsJoined :
          (join : SqlJoin) (c : RowContext) (flags : List Bool)
          → IsJoined c
          → All IsJoined (padding lib join c flags)
      unfolding padding
      padding-IsJoined join c flags j =
          All-if IsJoined (not (any (λ b. b) flags) && keeps_left join.join_type)
            (add_table lib c join.table_ref null ∷ []) []
            (add_table-IsJoined c join.table_ref null j p_null, tt) tt

      scan_contexts-IsJoined :
          (join : SqlJoin) (rows : List Value) (cs : List RowContext) (matched : List Bool)
          (out : List RowContext) (flags : List Bool)
          → scan_contexts lib join rows cs matched ≡ ok (out, flags)
          → All IsJoined cs
          → All P rows
          → All IsJoined out
      unfolding scan_contexts
      scan_contexts-IsJoined join rows [] matched out flags h js ps =
          subst (λ r. All IsJoined r.0) (ok-injective h) tt
      scan_contexts-IsJoined join rows (c ∷ cs) matched out flags h (j, js) ps =
          >>=-inv (scan_rows lib join c rows) _ h λ part e0 h0.
            >>=-inv (scan_contexts lib join rows cs _) _ h0 λ rest e1 h1.
              subst (λ r. All IsJoined r.0) (ok-injective h1)
                (All-append IsJoined (part.0 ++ padding lib join c part.1) rest.0
                  (All-append IsJoined part.0 (padding lib join c part.1)
                    (scan_rows-IsJoined join c rows part.0 part.1 e0 j ps)
                    (padding-IsJoined join c part.1 j))
                  (scan_contexts-IsJoined join rows cs _ rest.0 rest.1 e1 js ps))

      right_only-IsJoined :
          (join : SqlJoin) (template : RowContext) (rows : List Value) (flags : List Bool)
          → All P rows
          → All IsJoined (right_only lib join template rows flags)
      unfolding right_only
      right_only-IsJoined join template [] flags h = tt
      right_only-IsJoined join template (row ∷ rows) [] h = tt
      right_only-IsJoined join template (row ∷ rows) (true ∷ flags) (p, h) =
          right_only-IsJoined join template rows flags h
      right_only-IsJoined join template (row ∷ rows) (false ∷ flags) (p, h) = (
        add_table-IsJoined _ join.table_ref row (blank-AllValues template.tables) p,
        right_only-IsJoined join template rows flags h,
      )

      table_rows-All :
          (tables : Tables) (name : String) (rows : List Value)
          → table_rows lib tables name ≡ ok rows
          → AllValues (All P) tables
          → All P rows
      unfolding table_rows
      table_rows-All tables name rows h ps = found (lookup (lib.to_lowercase name) tables) refl
        where
          found : (o : Option (List Value)) → lookup (lib.to_lowercase name) tables ≡ o → All P rows
          found none e = cc
          found (some rs) e =
              let read : lookup (lib.to_lowercase name) tables ≡ some rows = cc in
              AllValues-lookup (All P) (lib.to_lowercase name) tables read ps

      run_join-IsJoined :
          (tables : Tables) (from : SqlTableRef) (join : SqlJoin) (cs out : List RowContext)
          → run_join lib tables from join cs ≡ ok out
          → AllValues (All P) tables
          → All IsJoined cs
          → All IsJoined out
      unfolding run_join
      run_join-IsJoined tables from join cs out h ps js =
          >>=-inv (table_rows lib tables join.table_ref.name) _ h λ rows e0 h0.
            >>=-inv (scan_contexts lib join rows cs _) _ h0 λ joined e1 h1.
              let read = table_rows-All tables join.table_ref.name rows e0 ps in
              let scanned = scan_contexts-IsJoined join rows cs _ joined.0 joined.1 e1 js read in
              subst (All IsJoined) (ok-injective h1) (
                All-if IsJoined (keeps_right join.join_type) _ joined.0
                  (All-append IsJoined joined.0 _ scanned
                    (right_only-IsJoined join _ rows joined.1 read))
                  scanned)

      run_joins-IsJoined :
          (tables : Tables) (from : SqlTableRef) (joins : List SqlJoin) (cs out : List RowContext)
          → run_joins lib tables from joins cs ≡ ok out
          → AllValues (All P) tables
          → All IsJoined cs
          → All IsJoined out
      unfolding run_joins
      run_joins-IsJoined tables from [] cs out h ps js = subst (All IsJoined) (ok-injective h) js
      run_joins-IsJoined tables from (join ∷ joins) cs out h ps js =
          >>=-inv (run_join lib tables from join cs) _ h λ joined e0 h0.
            run_joins-IsJoined tables from joins joined out h0 ps
              (run_join-IsJoined tables from join cs joined e0 ps js)

      select_rows-All :
          (selection : Option Expr) (cs out : List RowContext)
          → select_rows lib selection cs ≡ ok out
          → All IsJoined cs
          → All IsJoined out
      unfolding select_rows
      select_rows-All none cs out h js = subst (All IsJoined) (ok-injective h) js
      select_rows-All (some expr) [] out h js = subst (All IsJoined) (ok-injective h) tt
      select_rows-All (some expr) (c ∷ cs) out h (j, js) =
          >>=-inv (matches_expr lib c expr) _ h λ keep e0 h0.
            >>=-inv (select_rows lib (some expr) cs) _ h0 λ rest e1 h1.
              let later = select_rows-All (some expr) cs rest e1 js in
              subst (All IsJoined) (ok-injective h1)
                (All-if IsJoined keep (c ∷ rest) rest (j, later) later)

      All-outputs : (cs : List RowContext) → All IsJoined cs → All IsOutput (map to_value cs)
      All-outputs [] h = tt
      All-outputs (c ∷ cs) (j, h) = (to_value-IsOutput c j, All-outputs cs h)

      -- Whatever holds of every row of every table, and of null, holds of every value in the
      -- rows that a query returns, with any joins and any condition.
      pub filter_entries_by_sql-IsOutput :
          (tables : Tables) (query : SqlQuery) (rows : List Value)
          → AllValues (All P) tables
          → filter_entries_by_sql lib tables query ≡ ok rows
          → All IsOutput rows
      unfolding filter_entries_by_sql
      filter_entries_by_sql-IsOutput tables query rows ps h =
          >>=-inv (table_rows lib tables query.from.name) _ h λ base e0 h0.
            >>=-inv
              (run_joins lib tables query.from query.joins (base_contexts lib query.from base)) _ h0
              λ contexts e1 h1.
                >>=-inv (select_rows lib query.selection contexts) _ h1 λ filtered e2 h2.
                  >>=-inv (order_rows lib query.order_by filtered) _ h2 λ ordered e3 h3.
                    let based =
                      base_contexts-IsJoined query.from base
                        (table_rows-All tables query.from.name base e0 ps) in
                    let joined =
                      run_joins-IsJoined tables query.from query.joins _ contexts e1 ps based in
                    let kept =
                      order_rows-All lib IsJoined query.order_by filtered ordered e3
                        (select_rows-All query.selection contexts filtered e2 joined) in
                    subst (All IsOutput) (ok-injective h3)
                      (All-outputs _ (All-take IsJoined _ ordered kept))
