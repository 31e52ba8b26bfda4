-- ===== src/Entry/Frame.antt =====
-- The tables of a space as a map from entries to their current rows, which a change updates at one
-- entry (`write_entry_row` and `append_revision_row_for_form`, ugoite-core/src/entry.rs).
use ugoite.Common.{
  String, ◌≡◌, refl, ap, sym, ◌∙◌, subst, false, Bool-cases, inl, inr, Option, none, some, List, [],
  ◌∷◌, ◌++◌, arith, Result, ok, ok_or, ◌>>=◌, ◌==◌, str_eq_iff, if◌then◌else◌,
}
use ugoite.Common.Text.{◌⧺◌}
use ugoite.Common.Maps.{lookup, put, lookup-put}
use ugoite.Entry.Types.{EntryRow, RevisionRow}
use ugoite.Entry.Rows.{
  map_option, entry_row_from_batch, entry_columns, revision_row_from_batch, revision_columns,
}
use ugoite.Entry.Store.{
  Store, FormTables, newer_entry, newer_revision, latest_entry, latest_revision, with_revision,
  load_form, read_entry_row, entry_rows_of, latest_revision_for_entry, list_form_revision_rows,
  find_entry_form,
}
use ugoite.Entry.Write.{EntryEnv, append_change, current_row}
use ugoite.Entry.Latest.{latest_entry-append, latest_revision-append}
use ugoite.Entry.Home.{Home, best_in, best_of, find-best_of}
use ugoite.Entry.Appended.{
  Takes, lookup-put-same, stored_entry, stored_revision, with_entry, with_both, append_change-both,
  entry_rows_of-with_entry, entry_rows_of-with_both, revision_rows-with_both, append_change-current,
}

best_in-other :
    (f k : String) (rows : List EntryRow) (row : EntryRow) (found : Option (String × EntryRow))
    → (row.entry_id == k) ≡ false
    → best_in f k (rows ++ row ∷ []) found ≡ best_in f k rows found
unfolding best_in
best_in-other f k [] row found e = rw e refl
best_in-other f k (x ∷ rows) row found e = best_in-other f k rows row _ e

latest_entry-other :
    (k : String) (rows : List EntryRow) (row : EntryRow)
    → (row.entry_id == k) ≡ false
    → latest_entry k (rows ++ row ∷ []) none ≡ latest_entry k rows none
unfolding latest_entry
latest_entry-other k rows row e = latest_entry-append k rows (row ∷ []) none ∙ rw e refl

latest_revision-other :
    (k : String) (rows : List RevisionRow) (row : RevisionRow)
    → (row.entry_id == k) ≡ false
    → latest_revision k (rows ++ row ∷ []) none ≡ latest_revision k rows none
unfolding latest_revision
latest_revision-other k rows row e = latest_revision-append k rows (row ∷ []) none ∙ rw e refl

module _ (env : EntryEnv) where
  open env use {properties, floats}
  open properties use {columns}

  -- A form that shows the same of an entry can take the place of another.
  best_of-put :
      (k f : String) (form new : FormTables) (store : Store) (found : Option (String × EntryRow))
      → lookup f store ≡ some form
      → ((o : Option (String × EntryRow))
          → best_in f k (entry_rows_of columns floats f new) o
            ≡ best_in f k (entry_rows_of columns floats f form) o)
      → best_of columns floats k (put f new store) found ≡ best_of columns floats k store found
  unfolding best_of lookup put
  best_of-put k f form new [] found l h = cc
  best_of-put k f form new ((g, old) ∷ store) found l h = elim (Bool-cases (g == f)) [
    | inl e ↦
        let same : f ≡ g = ground (arith, str_eq_iff g f) in
        let here : ◌≡◌ {A = Option FormTables} (some old) (some form) = rw e at l in
        let is_old : form ≡ old = cc in
        rw e (
          ap (best_of columns floats k store) (
            h found
            ∙ ap (λ x. best_in f k (entry_rows_of columns floats f x) found) is_old
            ∙ ap (λ x. best_in x k (entry_rows_of columns floats x old) found) same))
    | inr e ↦
        let rest : lookup f store ≡ some form = rw e at l in
        rw e (
          best_of-put k f form new store (best_in g k (entry_rows_of columns floats g old) found)
            rest h)
  ]

  abbrev answer_of : String → Option EntryRow → Option RevisionRow → Result String EntryRow
  answer_of k selected latest =
      ok_or selected ("Entry not found: " ⧺ k) >>= λ row. ok (with_revision latest row)

  -- What is read of an entry from the tables of a form.
  shown : String → String → FormTables → Result String EntryRow
  shown g k form =
      answer_of k (latest_entry k (entry_rows_of columns floats g form) none)
        (latest_revision_for_entry columns floats form k)

  read-shown :
      (store : Store) (g k : String) (form : FormTables)
      → lookup g store ≡ some form
      → read_entry_row columns floats store g k ≡ shown g k form
  unfolding read_entry_row load_form shown
  read-shown store g k form l = rw l refl

  read-lookup :
      (a b : Store) (g k : String)
      → lookup g a ≡ lookup g b
      → read_entry_row columns floats a g k ≡ read_entry_row columns floats b g k
  unfolding read_entry_row load_form
  read-lookup a b g k l = rw l refl

  module _ (store : Store) (f k : String) (form : FormTables) (row : EntryRow)
      (revision : RevisionRow) (is_form : lookup f store ≡ some form)
      (other : (row.entry_id == k) ≡ false) (other' : (revision.entry_id == k) ≡ false) where
    abbrev written : Store
    written = put f (with_entry env form row) store

    abbrev after : Store
    after = put f (with_both env form row revision) written

    find-other : find_entry_form columns floats after k ≡ find_entry_form columns floats store k
    unfolding stored_entry entry_row_from_batch entry_columns
    find-other =
        let rows = entry_rows_of columns floats f form in
        let new = stored_entry env f form row in
        find-best_of columns floats k after
        ∙ ap (map_option (λ e. e.0)) (
            best_of-put k f (with_entry env form row) (with_both env form row revision) written none
              (lookup-put-same f (with_entry env form row) store)
              (λ o.
                ap (λ rs. best_in f k rs o)
                  (entry_rows_of-with_both env f form row revision
                    ∙ sym (entry_rows_of-with_entry env f form row)))
            ∙ best_of-put k f form (with_entry env form row) store none is_form (λ o.
              ap (λ rs. best_in f k rs o) (entry_rows_of-with_entry env f form row)
              ∙ best_in-other f k rows new o other))
        ∙ sym (find-best_of columns floats k store)

    same_shown : shown f k (with_both env form row revision) ≡ shown f k form
    unfolding shown latest_revision_for_entry stored_entry entry_row_from_batch entry_columns
        stored_revision revision_row_from_batch revision_columns
    same_shown =
        let rows : latest_entry k (entry_rows_of columns floats f (with_both env form row revision))
              none
            ≡ latest_entry k (entry_rows_of columns floats f form) none =
          ap (λ rs. latest_entry k rs none) (entry_rows_of-with_both env f form row revision)
          ∙ latest_entry-other k (entry_rows_of columns floats f form) (stored_entry env f form row)
              other in
        let revisions : latest_revision k
              (list_form_revision_rows columns floats (with_both env form row revision)) none
            ≡ latest_revision k (list_form_revision_rows columns floats form) none =
          ap (λ rs. latest_revision k rs none) (revision_rows-with_both env form row revision)
          ∙ latest_revision-other k (list_form_revision_rows columns floats form)
              (stored_revision env form revision) other' in
        ap
          (λ o.
            answer_of k o
              (latest_revision_for_entry columns floats (with_both env form row revision) k))
          rows
        ∙ ap (answer_of k (latest_entry k (entry_rows_of columns floats f form) none)) revisions

    read-other :
        (g : String)
        → read_entry_row columns floats after g k ≡ read_entry_row columns floats store g k
    read-other g = elim (Bool-cases (f == g)) [
      | inl e ↦
          let same : f ≡ g = ground (arith, str_eq_iff f g) in
          subst
            (λ x. read_entry_row columns floats after x k ≡ read_entry_row columns floats store x k)
            same
            (read-shown after f k (with_both env form row revision)
                (lookup-put-same f (with_both env form row revision) written)
              ∙ same_shown
              ∙ sym (read-shown store f k form is_form))
      | inr e ↦ read-lookup after store g k (
          lookup-put f g (with_both env form row revision) written
          ∙ rw e (lookup-put f g (with_entry env form row) store ∙ rw e refl))
    ]

    abbrev with_form : Store → String → Result String (String × EntryRow)
    with_form s g = read_entry_row columns floats s g k >>= λ r. ok (g, r)

    same_read :
        (o : Option String)
        → (ok_or o ("Entry not found: " ⧺ k) >>= with_form after)
          ≡ (ok_or o ("Entry not found: " ⧺ k) >>= with_form store)
    same_read none = refl
    same_read (some g) = rw (read-other g) refl

    current-other : current_row env after k ≡ current_row env store k
    unfolding current_row
    current-other = rw find-other (same_read (find_entry_form columns floats store k))

  -- After a row and a revision of an entry are appended in a form that takes rows, where they are not
  -- older than those before them and the entry has rows in no other form, this entry is read as they
  -- say, and every other entry as before.
  pub append_change-update :
      (store : Store) (f j k : String) (form : FormTables) (row : EntryRow) (revision : RevisionRow)
      → lookup f store ≡ some form
      → Takes env form
      → Home columns floats f j store
      → row.entry_id ≡ j
      → revision.entry_id ≡ j
      → newer_entry
          (stored_entry env f form row)
          (latest_entry j (entry_rows_of columns floats f form) none)
        ≡ some (stored_entry env f form row)
      → newer_revision
          (stored_revision env form revision)
          (latest_revision_for_entry columns floats form j)
        ≡ some (stored_revision env form revision)
      → current_row env
          (append_change env store
            (record { form_name = f; entry_row = row; revision = some revision })).1
          k
        ≡ (if j == k
            then ok (
              f,
              with_revision
                  (some (stored_revision env form revision))
                  (stored_entry env f form row),
            )
            else current_row env store k)
  append_change-update store f j k form row revision l takes home is_j is_j' newest latest =
      let written = ap (λ p. p.1) (append_change-both env store f form row revision l takes) in
      rw written (elim (Bool-cases (j == k)) [
        | inl e ↦
            let same : j ≡ k = ground (arith, str_eq_iff j k) in
            rw (e, ← same)
              (append_change-current env store f j form row revision l home is_j is_j' newest
                latest)
        | inr e ↦ rw e (
            current-other store f k form row revision l (subst (λ i. (i == k) ≡ false) (sym is_j) e)
              (subst (λ i. (i == k) ≡ false) (sym is_j') e))
      ])
