-- ===== src/Entry/Appended.antt =====
-- The tables after a change (`write_entry_row`, then `append_revision_row_for_form`,
-- ugoite-core/src/entry.rs).
use ugoite.Common.{
  String, ◌≡◌, refl, ap, ◌∙◌, Option, none, some, List, [], ◌∷◌, ◌++◌, ok, ok_or, str_eq_refl,
  subst, >>=-inv, ok-injective,
}
use ugoite.Common.Maps.{lookup, put, lookup-put}
use ugoite.Entry.Types.{EntryRow, RevisionRow}
use ugoite.Entry.Cells.{
  entries_table, revisions_table, declared_types, arrays_of, struct_array_from_fields,
}
use ugoite.Entry.Rows.{
  batch_of, StoredEntry, StoredRevision, entry_columns, entry_row_to_record_batch,
  revision_row_to_record_batch, entry_row_from_batch, entry_rows_from_batches, revision_columns,
  revision_row_from_batch, revision_rows_from_batches,
}
use ugoite.Entry.Store.{
  Store, FormTables, newer_entry, newer_revision, latest_entry, latest_revision, with_revision,
  load_form, entry_rows_of, list_form_revision_rows, latest_revision_for_entry, read_entry_row,
  write_entry_row, append_revision_row_for_form, find_entry_form,
}
use ugoite.Entry.Write.{EntryEnv, append_change, current_row}
use ugoite.Entry.Latest.{map_append, latest_entry-newest, latest_revision-newest}
use ugoite.Entry.Home.{Home, Home-put, find-Home}

pub lookup-put-same {ℓ} :
    {V : Type ℓ} (k : String) (v : V) (m : List (String × V)) → lookup k (put k v m) ≡ some v
lookup-put-same k v m = lookup-put k k v m ∙ rw (str_eq_refl k) refl

pub ok_or-some {ℓ ν} :
    {E : Type ν} {A : Type ℓ} (failure : E) {a : A} (o : Option A)
    → ok_or o failure ≡ ok a
    → o ≡ some a
ok_or-some failure none h = cc
ok_or-some failure (some b) h = cc

module _ (env : EntryEnv) where
  open env use {properties, floats}
  open properties use {columns}

  -- The tables of a form take rows: arrow accepts the arrays that are built for their fields,
  -- and the row of these.
  abbrev pub Takes : FormTables → Type 0
  Takes form =
      let types = declared_types form.definition form.field_names in
      (columns.struct_error entries_table types ≡ none)
      × (columns.batch_error entries_table types ≡ none)
      × (columns.struct_error revisions_table types ≡ none)
      × (columns.batch_error revisions_table types ≡ none)

  -- The columns that a table gets for a row.
  abbrev pub entry_batch : FormTables → EntryRow → StoredEntry
  entry_batch form row =
      entry_columns columns floats form.definition
        (arrays_of columns form.definition row.fields form.field_names) row

  abbrev pub revision_batch : FormTables → RevisionRow → StoredRevision
  revision_batch form row =
      revision_columns columns floats form.definition
        (arrays_of columns form.definition row.fields form.field_names) row

  pub entry_row-taken :
      (form : FormTables) (row : EntryRow)
      → Takes form
      → entry_row_to_record_batch columns floats form.definition form.field_names row
        ≡ ok (entry_batch form row)
  unfolding entry_row_to_record_batch struct_array_from_fields batch_of
  entry_row-taken form row takes = rw (takes.0, struct_array_from_fields, batch_of, takes.1) refl

  pub revision_row-taken :
      (form : FormTables) (row : RevisionRow)
      → Takes form
      → revision_row_to_record_batch columns floats form.definition form.field_names row
        ≡ ok (revision_batch form row)
  unfolding revision_row_to_record_batch struct_array_from_fields batch_of
  revision_row-taken form row takes = rw (takes.2, struct_array_from_fields, batch_of, takes.3) refl

  -- What the tables of a form give back for a row that they take.
  unfoldable pub stored_entry : String → FormTables → EntryRow → EntryRow
  unfolding entry_columns entry_row_from_batch
  stored_entry f form row =
      entry_row_from_batch columns floats form.definition f (entry_batch form row)

  unfoldable pub stored_revision : FormTables → RevisionRow → RevisionRow
  unfolding revision_columns revision_row_from_batch
  stored_revision form row =
      revision_row_from_batch columns floats form.definition (revision_batch form row)

  unfoldable pub with_entry : FormTables → EntryRow → FormTables
  unfolding entry_columns
  with_entry form row = record form { entry_rows = form.entry_rows ++ entry_batch form row ∷ [] }

  unfoldable pub with_both : FormTables → EntryRow → RevisionRow → FormTables
  unfolding revision_columns with_entry
  with_both form row revision = record (with_entry form row) {
    revision_rows = form.revision_rows ++ revision_batch form revision ∷ [];
  }

  pub append_change-both :
      (store : Store) (f : String) (form : FormTables) (row : EntryRow) (revision : RevisionRow)
      → lookup f store ≡ some form
      → Takes form
      → append_change env store
          (record { form_name = f; entry_row = row; revision = some revision })
        ≡ (ok tt, put f (with_both form row revision) (put f (with_entry form row) store))
  unfolding append_change write_entry_row append_revision_row_for_form load_form with_both
      with_entry
  append_change-both store f form row revision l takes =
      rw
        (
          l,
          entry_row-taken form row takes,
          append_change,
          lookup-put-same f (with_entry form row) store,
          revision_row-taken (with_entry form row) revision takes,
        )
        refl

  pub append_change-entry :
      (store : Store) (f : String) (form : FormTables) (row : EntryRow)
      → lookup f store ≡ some form
      → Takes form
      → append_change env store (record { form_name = f; entry_row = row; revision = none })
        ≡ (ok tt, put f (with_entry form row) store)
  unfolding append_change write_entry_row load_form with_entry
  append_change-entry store f form row l takes =
      rw (l, entry_row-taken form row takes, append_change) refl

  pub entry_rows_of-with_entry :
      (f : String) (form : FormTables) (row : EntryRow)
      → entry_rows_of columns floats f (with_entry form row)
        ≡ entry_rows_of columns floats f form ++ stored_entry f form row ∷ []
  unfolding entry_rows_of entry_rows_from_batches with_entry stored_entry
  entry_rows_of-with_entry f form row =
      map_append (entry_row_from_batch columns floats form.definition f) form.entry_rows
        (entry_batch form row ∷ [])

  pub entry_rows_of-with_both :
      (f : String) (form : FormTables) (row : EntryRow) (revision : RevisionRow)
      → entry_rows_of columns floats f (with_both form row revision)
        ≡ entry_rows_of columns floats f form ++ stored_entry f form row ∷ []
  unfolding entry_rows_of entry_rows_from_batches with_both stored_entry
  entry_rows_of-with_both f form row revision =
      map_append (entry_row_from_batch columns floats form.definition f) form.entry_rows
        (entry_batch form row ∷ [])

  pub revision_rows-with_both :
      (form : FormTables) (row : EntryRow) (revision : RevisionRow)
      → list_form_revision_rows columns floats (with_both form row revision)
        ≡ list_form_revision_rows columns floats form ++ stored_revision form revision ∷ []
  unfolding list_form_revision_rows revision_rows_from_batches with_both stored_revision with_entry
  revision_rows-with_both form row revision =
      map_append (revision_row_from_batch columns floats form.definition) form.revision_rows
        (revision_batch form revision ∷ [])

  pub current_row-found :
      (store : Store) (f j : String) (form : FormTables) {selected : EntryRow}
      {latest : Option RevisionRow}
      → find_entry_form columns floats store j ≡ some f
      → lookup f store ≡ some form
      → latest_entry j (entry_rows_of columns floats f form) none ≡ some selected
      → latest_revision_for_entry columns floats form j ≡ latest
      → current_row env store j ≡ ok (f, with_revision latest selected)
  unfolding current_row read_entry_row load_form
  current_row-found store f j form found l s r = rw (found, l, s, r) refl

  -- What stands behind the row that a call reads.
  pub record IsCurrent (store : Store) (f j : String) (row : EntryRow) : Type 0 where
    pub form : FormTables
    pub selected : EntryRow
    pub is_form : lookup f store ≡ some form
    pub is_latest : latest_entry j (entry_rows_of columns floats f form) none ≡ some selected
    pub is_row : with_revision (latest_revision_for_entry columns floats form j) selected ≡ row

  pub current_row-IsCurrent :
      (store : Store) (f j : String) (row : EntryRow)
      → current_row env store j ≡ ok (f, row)
      → IsCurrent store f j row
  unfolding current_row read_entry_row load_form
  current_row-IsCurrent store f j row h =
      >>=-inv (ok_or (find_entry_form columns floats store j) _) _ h λ g found h1.
        >>=-inv (read_entry_row columns floats store g j) _ h1 λ read e h2.
          let same : g ≡ f = cc h2 in
          let is_row : read ≡ row = cc h2 in
          >>=-inv (ok_or (lookup g store) _) _ e λ form l h3.
            >>=-inv (ok_or (latest_entry j (entry_rows_of columns floats g form) none) _) _ h3
              λ selected s h4.
                subst (λ k. IsCurrent store k j row) same
                  (record {
                    form = form;
                    selected = selected;
                    is_form = ok_or-some _ (lookup g store) l;
                    is_latest =
                        ok_or-some _ (latest_entry j (entry_rows_of columns floats g form) none) s;
                    is_row = ok-injective h4 ∙ is_row;
                  })

  -- After both rows of an entry are appended, it is read as these rows say, where they are not
  -- older than those before them and the entry has rows in no other form.
  pub append_change-current :
      (store : Store) (f j : String) (form : FormTables) (row : EntryRow) (revision : RevisionRow)
      → lookup f store ≡ some form
      → Home columns floats f j store
      → row.entry_id ≡ j
      → revision.entry_id ≡ j
      → newer_entry
          (stored_entry f form row)
          (latest_entry j (entry_rows_of columns floats f form) none)
        ≡ some (stored_entry f form row)
      → newer_revision
          (stored_revision form revision)
          (latest_revision_for_entry columns floats form j)
        ≡ some (stored_revision form revision)
      → current_row env (put f (with_both form row revision) (put f (with_entry form row) store)) j
        ≡ ok (f, with_revision (some (stored_revision form revision)) (stored_entry f form row))
  unfolding latest_revision_for_entry stored_entry stored_revision
  append_change-current store f j form row revision l home is_j is_j' newest latest =
      let written : Store = put f (with_entry form row) store in
      let both : FormTables = with_both form row revision in
      let here : lookup f (put f both written) ≡ some both = lookup-put-same f both written in
      let rows : latest_entry j (entry_rows_of columns floats f both) none
          ≡ some (stored_entry f form row) =
        ap (λ rs. latest_entry j rs none) (entry_rows_of-with_both f form row revision)
        ∙ latest_entry-newest j (entry_rows_of columns floats f form) (stored_entry f form row) is_j
            newest in
      let revisions : latest_revision_for_entry columns floats both j
          ≡ some (stored_revision form revision) =
        ap (λ rs. latest_revision j rs none) (revision_rows-with_both form row revision)
        ∙ latest_revision-newest j (list_form_revision_rows columns floats form)
            (stored_revision form revision) is_j' latest in
      current_row-found (put f both written) f j both
        (find-Home columns floats f j (put f both written)
          (Home-put columns floats f j both written
            (Home-put columns floats f j (with_entry form row) store home))
          here rows)
        here rows revisions
