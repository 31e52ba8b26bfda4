-- ===== src/Sql/Joins.antt =====
-- What a join keeps of the rows that it joins to (`filter_entries_by_sql`, ugoite-core/src/sql.rs).
use ugoite.Common.{
  ◌+◌, ◌≤◌, ◌≡◌, refl, subst, Bool, true, false, List, [], ◌∷◌, ◌++◌, ok, >>=-inv, ok-injective,
  if◌then◌else◌, length, length-append, arith, any, All, All-imp, ◌⊎◌, inl, inr,
}
use ugoite.Json.{Value}
use ugoite.Sql.Parse.{SqlTableRef, SqlJoin}
use ugoite.Sql.Values.{Library}
use ugoite.Sql.Context.{RowContext, add_table}
use ugoite.Sql.Joined.{Continues, scanned-Continues}
use ugoite.Sql.Run.{
  Tables, keeps_left, keeps_right, table_rows, row_matches, scan_rows, padding, scan_contexts,
  right_only, template_of, run_join,
}

-- Some item of a list has a property.
abbrev pub Some : {A : Type 0} → (A → Type 0) → List A → Type 0
Some P [] = ⊥
Some P (x ∷ xs) = P x ⊎ Some P xs

Some-left : {A : Type 0} (P : A → Type 0) (xs ys : List A) → Some P xs → Some P (xs ++ ys)
Some-left P [] ys h = absurd h
Some-left P (x ∷ xs) ys (inl p) = inl p
Some-left P (x ∷ xs) ys (inr h) = inr (Some-left P xs ys h)

Some-right : {A : Type 0} (P : A → Type 0) (xs ys : List A) → Some P ys → Some P (xs ++ ys)
Some-right P [] ys h = h
Some-right P (x ∷ xs) ys h = inr (Some-right P xs ys h)

Some-All : {A : Type 0} (P : A → Type 0) (xs : List A) → All P xs → 1 ≤ length xs → Some P xs
Some-All P [] h n = absurd (omega arith)
Some-All P (x ∷ xs) (p, h) n = inl p

module _ (lib : Library) (join : SqlJoin) where
  scan_rows-any :
      (c : RowContext) (rows : List Value) {out : List RowContext} {flags : List Bool}
      → scan_rows lib join c rows ≡ ok (out, flags)
      → any (λ b. b) flags ≡ true
      → 1 ≤ length out
  unfolding scan_rows any
  scan_rows-any c [] h a = absurd (cc)
  scan_rows-any c (row ∷ rows) {out} {flags} h a =
      >>=-inv (row_matches lib join.constraint c (add_table lib c join.table_ref row) row) _ h
        λ hit e0 h0. >>=-inv (scan_rows lib join c rows) _ h0 λ more e1 h1.
          let later = scan_rows-any c rows e1 in by_hit hit more later (ok-injective h1)
    where
      by_hit :
          (hit : Bool) (more : List RowContext × List Bool)
          → (any (λ b. b) more.1 ≡ true → 1 ≤ length more.0)
          → ◌≡◌ {A = List RowContext × List Bool}
              (if hit then add_table lib c join.table_ref row ∷ more.0 else more.0, hit ∷ more.1)
              (out, flags)
          → 1 ≤ length out
      by_hit true more later e = ground arith
      by_hit false more later e = ground arith

  at_least_one :
      (c : RowContext) (rows : List Value) (part : List RowContext × List Bool)
      → keeps_left join.join_type ≡ true
      → scan_rows lib join c rows ≡ ok part
      → 1 ≤ length part.0 + length (padding lib join c part.1)
  unfolding padding
  at_least_one c rows part kept h = by_match (any (λ b. b) part.1) refl
    where
      by_match :
          (b : Bool)
          → any (λ b. b) part.1 ≡ b
          → 1 ≤ length part.0 + length (padding lib join c part.1)
      by_match true e = let found = scan_rows-any c rows h e in omega arith
      by_match false e = rw (e, kept) (omega arith)

  scan_contexts-kept :
      (rows : List Value) (cs : List RowContext) (matched : List Bool) (out : List RowContext)
      (flags : List Bool)
      → keeps_left join.join_type ≡ true
      → scan_contexts lib join rows cs matched ≡ ok (out, flags)
      → All (λ c. Some (Continues lib join rows c) out) cs
  unfolding scan_contexts
  scan_contexts-kept rows [] matched out flags kept h = tt
  scan_contexts-kept rows (c ∷ cs) matched out flags kept h =
      >>=-inv (scan_rows lib join c rows) _ h λ part e0 h0.
        >>=-inv (scan_contexts lib join rows cs _) _ h0 λ rest e1 h1.
          let padded = padding lib join c part.1 in
          let first : List RowContext = part.0 ++ padded in
          let size : 1 ≤ length first =
            omega (arith, at_least_one c rows part kept e0, length-append part.0 padded) in
          let here : Some (Continues lib join rows c) (first ++ rest.0) =
            Some-left (Continues lib join rows c) first rest.0 (
              Some-All (Continues lib join rows c) first
                (scanned-Continues lib join rows c part.0 part.1 e0) size) in
          let later =
            All-imp (λ d. Some (Continues lib join rows d) rest.0)
              (λ d. Some (Continues lib join rows d) (first ++ rest.0)) cs
              (λ d s. Some-right (Continues lib join rows d) first rest.0 s)
              (scan_contexts-kept rows cs _ rest.0 rest.1 kept e1) in
          subst (λ r. All (λ d. Some (Continues lib join rows d) r.0) (c ∷ cs)) (ok-injective h1)
            (here, later)

  -- A left or full join gives, for each row that it joins to, a row in which this one is put together
  -- with a row of the other table that it matches, or with null where it matches none.
  pub run_join-Continues :
      (tables : Tables) (from : SqlTableRef) (cs out : List RowContext)
      → keeps_left join.join_type ≡ true
      → run_join lib tables from join cs ≡ ok out
      → (rows : List Value) × (table_rows lib tables join.table_ref.name ≡ ok rows)
        × All (λ c. Some (Continues lib join rows c) out) cs
  unfolding run_join
  run_join-Continues tables from cs out kept h =
      >>=-inv (table_rows lib tables join.table_ref.name) _ h λ rows e0 h0.
        >>=-inv (scan_contexts lib join rows cs _) _ h0 λ joined e1 h1.
          let scanned = scan_contexts-kept rows cs _ joined.0 joined.1 kept e1 in
          let extra = right_only lib join (template_of lib from cs) rows joined.1 in
          (
            rows,
            e0,
            subst (λ r. All (λ c. Some (Continues lib join rows c) r) cs) (ok-injective h1)
                (either (keeps_right join.join_type) rows joined.0 extra scanned),
          )
    where
      either :
          (b : Bool) (rows : List Value) (xs ys : List RowContext)
          → All (λ c. Some (Continues lib join rows c) xs) cs
          → All (λ c. Some (Continues lib join rows c) (if b then xs ++ ys else xs)) cs
      either true rows xs ys h =
          All-imp (λ c. Some (Continues lib join rows c) xs)
            (λ c. Some (Continues lib join rows c) (xs ++ ys)) cs
            (λ c s. Some-left (Continues lib join rows c) xs ys s) h
      either false rows xs ys h = h
