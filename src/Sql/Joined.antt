-- ===== src/Sql/Joined.antt =====
-- The rows that joins put together, described apart from the loops that do so, and the rows of a
-- query among them (`filter_entries_by_sql`, ugoite-core/src/sql.rs).
use ugoite.Common.{
  ◌≡◌, refl, sym, ap, subst, Bool, true, false, ◌&&◌, not, ◌⊎◌, inl, inr, Option, none, some, List,
  [], ◌∷◌, ◌++◌, map, ok, >>=-inv, ok-injective, All, All-take, All-append, All-imp, Among,
  All-Among, any, if◌then◌else◌,
}
use ugoite.Json.{Value, null}
use ugoite.Sql.Syntax.{Expr}
use ugoite.Sql.Parse.{SqlTableRef, SqlJoin, SqlQuery}
use ugoite.Sql.Values.{Library}
use ugoite.Sql.Context.{RowContext, new_context, add_table, to_value}
use ugoite.Sql.Where.{matches_expr}
use ugoite.Sql.Run.{
  Tables, keeps_left, keeps_right, blank, table_rows, row_matches, scan_rows, padding,
  scan_contexts, right_only, template_of, run_join, run_joins, select_rows, order_rows,
  base_contexts, filter_entries_by_sql,
}
use ugoite.Sql.Bounds.{order_rows-All}

module _ (lib : Library) where
  -- Whether the constraint of a join holds between a joined row and a row of the other table.
  abbrev pub Matches : SqlJoin → RowContext → Value → Bool → Type 0
  Matches join c row hit =
      row_matches lib join.constraint c (add_table lib c join.table_ref row) row ≡ ok hit

  -- A joined row, put together with a row of the other table that it matches.
  abbrev pub MatchedBy : SqlJoin → List Value → RowContext → RowContext → Type 0
  MatchedBy join rows c out =
      (row : Value) × Among row rows
      × Matches join c row true
      × (out ≡ add_table lib c join.table_ref row)

  -- What becomes of a joined row: it is put together with a row that it matches, or with null, in a
  -- left or full join where it matches no row.
  abbrev pub Continues : SqlJoin → List Value → RowContext → RowContext → Type 0
  Continues join rows c out =
      MatchedBy join rows c out
      ⊎ ((keeps_left join.join_type ≡ true)
          × All (λ row. Matches join c row false) rows
          × (out ≡ add_table lib c join.table_ref null))

  -- A row after a join: one from before it that continues, or, in a right or full join, a row of the
  -- other table beside nulls.
  abbrev pub JoinedTo :
      SqlTableRef → SqlJoin → List Value → (RowContext → Type 0) → RowContext → Type 0
  JoinedTo from join rows P out =
      ((c : RowContext) × P c × Continues join rows c out)
      ⊎ ((keeps_right join.join_type ≡ true)
          × (template : RowContext) × (row : Value) × (P template
              ⊎ (template ≡ new_context lib from null))
          × Among row rows
          × (out
              ≡ add_table lib (record template { tables = blank template.tables }) join.table_ref
                  row))

  -- A row after all the joins of a query, each with the rows of its table.
  abbrev pub JoinedBy :
      Tables → SqlTableRef → List SqlJoin → (RowContext → Type 0) → RowContext → Type 0
  JoinedBy tables from [] P out = P out
  JoinedBy tables from (join ∷ joins) P out =
      JoinedBy tables from joins
        (λ o.
          (rows : List Value) × (table_rows lib tables join.table_ref.name ≡ ok rows)
          × JoinedTo from join rows P o)
        out

  -- A row of the first table.
  abbrev pub IsBase : Tables → SqlTableRef → RowContext → Type 0
  IsBase tables from c =
      (rows : List Value) × (row : Value) × (table_rows lib tables from.name ≡ ok rows)
      × Among row rows
      × (c ≡ new_context lib from row)

  -- The condition of a query holds in a joined row.
  abbrev pub Holds : Option Expr → RowContext → Type 0
  Holds none context = Unit
  Holds (some expr) context = matches_expr lib context expr ≡ ok true

  -- A row that the joins of a query make, in which its condition holds.
  abbrev pub IsAnswer : Tables → SqlQuery → RowContext → Type 0
  IsAnswer tables query c =
      JoinedBy tables query.from query.joins (IsBase tables query.from) c × Holds query.selection c

  module _ (join : SqlJoin) (rows : List Value) where
    scan_rows-MatchedBy :
        (c : RowContext) (rs : List Value) (out : List RowContext) (flags : List Bool)
        → All (λ row. Among row rows) rs
        → scan_rows lib join c rs ≡ ok (out, flags)
        → All (MatchedBy join rows c) out
    unfolding scan_rows
    scan_rows-MatchedBy c [] out flags among h =
        subst (λ r. All (MatchedBy join rows c) r.0) (ok-injective h) tt
    scan_rows-MatchedBy c (row ∷ rs) out flags (here, among) h =
        >>=-inv (row_matches lib join.constraint c (add_table lib c join.table_ref row) row) _ h
          λ hit e0 h0. >>=-inv (scan_rows lib join c rs) _ h0 λ more e1 h1.
            subst (λ r. All (MatchedBy join rows c) r.0) (ok-injective h1)
              (kept hit more.0 e0 (scan_rows-MatchedBy c rs more.0 more.1 among e1))
      where
        kept :
            (hit : Bool) (more : List RowContext)
            → Matches join c row hit
            → All (MatchedBy join rows c) more
            → All
                (MatchedBy join rows c)
                (if hit then add_table lib c join.table_ref row ∷ more else more)
        kept true more e later = ((row, here, e, refl), later)
        kept false more e later = later

    scan_rows-unmatched :
        (c : RowContext) (rs : List Value) (out : List RowContext) (flags : List Bool)
        → scan_rows lib join c rs ≡ ok (out, flags)
        → any (λ b. b) flags ≡ false
        → All (λ row. Matches join c row false) rs
    unfolding scan_rows any
    scan_rows-unmatched c [] out flags h missed = tt
    scan_rows-unmatched c (row ∷ rs) out flags h missed =
        >>=-inv (row_matches lib join.constraint c (add_table lib c join.table_ref row) row) _ h
          λ hit e0 h0. >>=-inv (scan_rows lib join c rs) _ h0 λ more e1 h1.
            let same : hit ∷ more.1 ≡ flags = ap (λ r. r.1) (ok-injective h1) in
            kept hit more.1 e0 (λ m. scan_rows-unmatched c rs more.0 more.1 e1 m)
              (subst (λ fs. any (λ b. b) fs ≡ false) (sym same) missed)
      where
        kept :
            (hit : Bool) (more : List Bool)
            → Matches join c row hit
            → (any (λ b. b) more ≡ false → All (λ r. Matches join c r false) rs)
            → any (λ b. b) (hit ∷ more) ≡ false
            → All (λ r. Matches join c r false) (row ∷ rs)
        kept true more e later m = cc
        kept false more e later m = (e, later m)

    padding-Continues :
        (c : RowContext) (out : List RowContext) (flags : List Bool)
        → scan_rows lib join c rows ≡ ok (out, flags)
        → All (Continues join rows c) (padding lib join c flags)
    unfolding padding
    padding-Continues c out flags h =
        padded (any (λ b. b) flags) (keeps_left join.join_type) refl refl
      where
        padded :
            (hit left : Bool)
            → any (λ b. b) flags ≡ hit
            → keeps_left join.join_type ≡ left
            → All
                (Continues join rows c)
                (if not hit && left then add_table lib c join.table_ref null ∷ [] else [])
        padded true left e l = tt
        padded false true e l = (inr (l, scan_rows-unmatched c rows out flags h e, refl), tt)
        padded false false e l = tt

    -- What a scan makes of one joined row.
    pub scanned-Continues :
        (c : RowContext) (out : List RowContext) (flags : List Bool)
        → scan_rows lib join c rows ≡ ok (out, flags)
        → All (Continues join rows c) (out ++ padding lib join c flags)
    scanned-Continues c out flags h =
        All-append (Continues join rows c) out (padding lib join c flags)
          (All-imp (MatchedBy join rows c) (Continues join rows c) out (λ o m. inl m)
            (scan_rows-MatchedBy c rows out flags (All-Among rows) h))
          (padding-Continues c out flags h)

    module _ (from : SqlTableRef) (P : RowContext → Type 0) where
      scan_contexts-JoinedTo :
          (cs : List RowContext) (matched : List Bool) (out : List RowContext) (flags : List Bool)
          → All P cs
          → scan_contexts lib join rows cs matched ≡ ok (out, flags)
          → All (JoinedTo from join rows P) out
      unfolding scan_contexts
      scan_contexts-JoinedTo [] matched out flags ps h =
          subst (λ r. All (JoinedTo from join rows P) r.0) (ok-injective h) tt
      scan_contexts-JoinedTo (c ∷ cs) matched out flags (p, ps) h =
          >>=-inv (scan_rows lib join c rows) _ h λ part e0 h0.
            >>=-inv (scan_contexts lib join rows cs _) _ h0 λ rest e1 h1.
              subst (λ r. All (JoinedTo from join rows P) r.0) (ok-injective h1)
                (All-append (JoinedTo from join rows P) (part.0 ++ padding lib join c part.1) rest.0
                  (All-imp (Continues join rows c) (JoinedTo from join rows P)
                    (part.0 ++ padding lib join c part.1) (λ o k. inl (c, p, k))
                    (scanned-Continues c part.0 part.1 e0))
                  (scan_contexts-JoinedTo cs _ rest.0 rest.1 ps e1))

      right_only-JoinedTo :
          (template : RowContext) (rs : List Value) (flags : List Bool)
          → keeps_right join.join_type ≡ true
          → P template ⊎ (template ≡ new_context lib from null)
          → All (λ row. Among row rows) rs
          → All (JoinedTo from join rows P) (right_only lib join template rs flags)
      unfolding right_only
      right_only-JoinedTo template [] flags right t among = tt
      right_only-JoinedTo template (row ∷ rs) [] right t among = tt
      right_only-JoinedTo template (row ∷ rs) (true ∷ flags) right t (here, among) =
          right_only-JoinedTo template rs flags right t among
      right_only-JoinedTo template (row ∷ rs) (false ∷ flags) right t (here, among) = (
        inr (right, template, row, t, here, refl),
        right_only-JoinedTo template rs flags right t among,
      )

      run_join-JoinedTo :
          (cs joined : List RowContext)
          → All P cs
          → All (JoinedTo from join rows P) joined
          → (matched : List Bool)
          → All (JoinedTo from join rows P) (
              if keeps_right join.join_type
              then joined ++ right_only lib join (template_of lib from cs) rows matched
              else joined)
      run_join-JoinedTo cs joined ps js matched = either (keeps_right join.join_type) refl
        where
          is_template :
              (ds : List RowContext)
              → All P ds
              → P (template_of lib from ds) ⊎ (template_of lib from ds ≡ new_context lib from null)
          is_template [] qs = inr refl
          is_template (d ∷ ds) (q, qs) = inl q

          either :
              (right : Bool)
              → keeps_right join.join_type ≡ right
              → All (JoinedTo from join rows P) (
                  if right
                  then joined ++ right_only lib join (template_of lib from cs) rows matched
                  else joined)
          either true e = All-append (JoinedTo from join rows P) joined _ js (
              right_only-JoinedTo (template_of lib from cs) rows matched e (is_template cs ps)
                (All-Among rows))
          either false e = js

  run_joins-JoinedBy :
      (tables : Tables) (from : SqlTableRef) (joins : List SqlJoin) (P : RowContext → Type 0)
      (cs out : List RowContext)
      → All P cs
      → run_joins lib tables from joins cs ≡ ok out
      → All (JoinedBy tables from joins P) out
  unfolding run_joins run_join
  run_joins-JoinedBy tables from [] P cs out ps h = subst (All P) (ok-injective h) ps
  run_joins-JoinedBy tables from (join ∷ joins) P cs out ps h =
      >>=-inv (run_join lib tables from join cs) _ h λ joined e0 h0.
        >>=-inv (table_rows lib tables join.table_ref.name) _ e0 λ rows r e1.
          >>=-inv (scan_contexts lib join rows cs _) _ e1 λ scanned e2 e3.
            let Next : RowContext → Type 0 = λ o.
              (rs : List Value) × (table_rows lib tables join.table_ref.name ≡ ok rs)
              × JoinedTo from join rs P o in
            let step =
              run_join-JoinedTo join rows from P cs scanned.0 ps
                (scan_contexts-JoinedTo join rows from P cs _ scanned.0 scanned.1 ps e2)
                scanned.1 in
            run_joins-JoinedBy tables from joins Next joined out
              (subst (All Next) (ok-injective e3)
                (All-imp (JoinedTo from join rows P) Next _ (λ o j. (rows, r, j)) step))
              h0

  select_rows-Holds :
      (P : RowContext → Type 0) (selection : Option Expr) (cs out : List RowContext)
      → All P cs
      → select_rows lib selection cs ≡ ok out
      → All (λ c. P c × Holds selection c) out
  unfolding select_rows
  select_rows-Holds P none cs out ps h =
      subst (All (λ c. P c × Holds none c)) (ok-injective h)
        (All-imp P (λ c. P c × Holds none c) cs (λ c p. (p, tt)) ps)
  select_rows-Holds P (some expr) [] out ps h = rw (← ok-injective h) tt
  select_rows-Holds P (some expr) (c ∷ cs) out (p, ps) h =
      >>=-inv (matches_expr lib c expr) _ h λ keep e0 h0.
        >>=-inv (select_rows lib (some expr) cs) _ h0 λ rest e1 h1.
          subst (All (λ d. P d × Holds (some expr) d)) (ok-injective h1)
            (kept keep rest e0 (select_rows-Holds P (some expr) cs rest ps e1))
    where
      kept :
          (keep : Bool) (rest : List RowContext)
          → matches_expr lib c expr ≡ ok keep
          → All (λ d. P d × Holds (some expr) d) rest
          → All (λ d. P d × Holds (some expr) d) (if keep then c ∷ rest else rest)
      kept true rest e later = ((p, e), later)
      kept false rest e later = later

  All-values :
      (P : RowContext → Type 0) (cs : List RowContext)
      → All P cs
      → All (λ r. (c : RowContext) × (r ≡ to_value c) × P c) (map to_value cs)
  All-values P [] ps = tt
  All-values P (c ∷ cs) (p, ps) = ((c, refl, p), All-values P cs ps)

  All-bases :
      (tables : Tables) (from : SqlTableRef) (rows rs : List Value)
      → table_rows lib tables from.name ≡ ok rows
      → All (λ row. Among row rows) rs
      → All (IsBase tables from) (base_contexts lib from rs)
  unfolding base_contexts
  All-bases tables from rows [] h among = tt
  All-bases tables from rows (row ∷ rs) h (here, among) =
      ((rows, row, h, here, refl), All-bases tables from rows rs h among)

  -- Every row that a query returns is the value of a row that its joins make of the rows of its
  -- tables, and in which its condition holds.
  pub filter_entries_by_sql-Holds :
      (tables : Tables) (query : SqlQuery) (rows : List Value)
      → filter_entries_by_sql lib tables query ≡ ok rows
      → All (λ r. (c : RowContext) × (r ≡ to_value c) × IsAnswer tables query c) rows
  unfolding filter_entries_by_sql
  filter_entries_by_sql-Holds tables query rows h =
      >>=-inv (table_rows lib tables query.from.name) _ h λ base e0 h0.
        >>=-inv (run_joins lib tables query.from query.joins (base_contexts lib query.from base)) _
          h0
          λ contexts e1 h1.
            >>=-inv (select_rows lib query.selection contexts) _ h1 λ filtered e2 h2.
              >>=-inv (order_rows lib query.order_by filtered) _ h2 λ ordered e3 h3.
                let Joined : RowContext → Type 0 =
                  JoinedBy tables query.from query.joins (IsBase tables query.from) in
                let Kept : RowContext → Type 0 = IsAnswer tables query in
                let joined =
                  run_joins-JoinedBy tables query.from query.joins (IsBase tables query.from) _
                    contexts (All-bases tables query.from base base e0 (All-Among base)) e1 in
                let kept =
                  order_rows-All lib Kept query.order_by filtered ordered e3
                    (select_rows-Holds Joined query.selection contexts filtered joined e2) in
                subst (All (λ r. (c : RowContext) × (r ≡ to_value c) × Kept c)) (ok-injective h3)
                  (All-values Kept _ (All-take Kept _ ordered kept))
