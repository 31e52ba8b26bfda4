-- ===== src/Entry/Partial.antt =====
-- What a creation that fails leaves in the tables (`create_entry`, ugoite-core/src/entry.rs).
use ugoite.Common.{
  String, ◌≡◌, refl, ap, sym, ◌∙◌, subst, ◌⊎◌, inl, inr, Option, none, some, List, [], ◌∷◌, ◌++◌,
  Result, ok, err, ◌>>=◌, ok-injective, >>=-inv,
}
use ugoite.Common.Text.{◌⧺◌}
use ugoite.Common.Maps.{lookup, put}
use ugoite.Entry.Types.{EntryRow, RevisionRow}
use ugoite.Entry.Cells.{Cell, entries_table, declared_types, arrays_of, struct_array_from_fields}
use ugoite.Entry.Rows.{StoredEntry, batch_of, entry_columns, entry_row_to_record_batch}
use ugoite.Entry.Store.{
  Store, FormTables, and_then, load_form, write_entry_row, append_revision_row_for_form,
}
use ugoite.Entry.Write.{
  EntryEnv, EntryMeta, Moment, Change, append_change, commit, revision_for, plan_create,
  create_entry,
}
use ugoite.Entry.Appended.{with_entry, entry_batch}
use ugoite.Entry.Created.{plan_create-IsCreated}

module _ (env : EntryEnv) where
  open env use {properties, floats}
  open properties use {columns}

  batch-taken :
      (form : FormTables) (row : EntryRow) (stored : StoredEntry)
      → entry_row_to_record_batch columns floats form.definition form.field_names row ≡ ok stored
      → stored ≡ entry_batch env form row
  unfolding entry_row_to_record_batch struct_array_from_fields batch_of
  batch-taken form row stored =
      taken (columns.struct_error entries_table types) (columns.batch_error entries_table types)
    where
      types : List (String × String)
      types = declared_types form.definition form.field_names

      batched : Option String → StoredEntry → Result String StoredEntry
      batched o s = elim o [ none ↦ ok s | some e ↦ err ("Record batch error: " ⧺ e) ]

      taken :
          (o p : Option String)
          → ((elim o as (λ _. Result String (List (String × Cell))) [
            | none ↦ ok (arrays_of columns form.definition row.fields form.field_names)
            | some e ↦ err ("Failed to build fields struct array: " ⧺ e)
          ])
              >>= λ fields. batched p (entry_columns columns floats form.definition fields row))
            ≡ ok stored
          → stored ≡ entry_batch env form row
      taken none none k = sym (ok-injective k)
      taken none (some e) k = cc
      taken (some e) p k = cc

  -- A row that is written goes to the end of its table.
  written-with_entry :
      (store after : Store) (f : String) (form : FormTables) (row : EntryRow)
      → lookup f store ≡ some form
      → write_entry_row columns floats store f row ≡ ok after
      → after ≡ put f (with_entry env form row) store
  unfolding write_entry_row load_form entry_row_to_record_batch struct_array_from_fields with_entry
  written-with_entry store after f form row l h =
      let found : (entry_row_to_record_batch columns floats form.definition form.field_names row
            >>= λ stored.
                ok (put f (record form { entry_rows = form.entry_rows ++ stored ∷ [] }) store))
          ≡ ok after =
        rw l at h in
      >>=-inv (entry_row_to_record_batch columns floats form.definition form.field_names row) _
        found
        λ stored e k.
          sym (ok-injective k)
          ∙ ap (λ s. put f (record form { entry_rows = form.entry_rows ++ s ∷ [] }) store)
              (batch-taken form row stored e)

  -- A change that fails has written nothing, or the row of the entry without its revision.
  append_change-partial :
      (store : Store) (f : String) (form : FormTables) (row : EntryRow) (revision : RevisionRow)
      (message : String)
      → lookup f store ≡ some form
      → (append_change env store
          (record { form_name = f; entry_row = row; revision = some revision })).0
        ≡ err message
      → ((append_change env store
            (record { form_name = f; entry_row = row; revision = some revision })).1
          ≡ store)
        ⊎ ((append_change env store
              (record { form_name = f; entry_row = row; revision = some revision })).1
            ≡ put f (with_entry env form row) store)
  unfolding append_change
  append_change-partial store f form row revision message l =
      first (write_entry_row columns floats store f row)
        λ after. written-with_entry store after f form row l
    where
      both : Store → Result String Store → Result String (Unit {0}) × Store
      both written r = and_then written r λ after. (ok tt, after)

      second :
          (written : Store) (r : Result String Store)
          → (both written r).0 ≡ err message
          → (both written r).1 ≡ written
      second written (err e) h = refl
      second written (ok after) h = cc

      first :
          (w : Result String Store)
          → ((after : Store) → w ≡ ok after → after ≡ put f (with_entry env form row) store)
          → (and_then store w λ written.
              both written (append_revision_row_for_form columns floats written f revision)).0
            ≡ err message
          → ((and_then store w λ written.
                both written (append_revision_row_for_form columns floats written f revision)).1
              ≡ store)
            ⊎ ((and_then store w λ written.
                  both written (append_revision_row_for_form columns floats written f revision)).1
                ≡ put f (with_entry env form row) store)
      first (err e) is h = inl refl
      first (ok written) is h = inr (
          second written (append_revision_row_for_form columns floats written f revision) h
          ∙ is written refl)

  -- A creation that fails leaves the tables as they were, or with one new row of the entry at the end
  -- of a form, whose revision is missing.
  pub create_entry-error :
      (moment : Moment) (store : Store) (ws_path j content author message : String)
      → (create_entry env moment store ws_path j content author).0 ≡ err message
      → ((create_entry env moment store ws_path j content author).1 ≡ store)
        ⊎ ((f : String) × (form : FormTables) × (row : EntryRow) × (lookup f store ≡ some form)
            × (row.entry_id ≡ j)
            × ((create_entry env moment store ws_path j content author).1
                ≡ put f (with_entry env form row) store))
  unfolding create_entry commit
  create_entry-error moment store ws_path j content author message h =
      planned (plan_create env moment store ws_path j content author) refl h
    where
      finished : EntryMeta → Result String (Unit {0}) × Store → Result String EntryMeta × Store
      finished meta done = and_then done.1 done.0 λ _. (ok meta, done.1)

      refused :
          (meta : EntryMeta) (done : Result String (Unit {0}) × Store)
          → (finished meta done).0 ≡ err message
          → (done.0 ≡ err message) × ((finished meta done).1 ≡ done.1)
      refused meta (err e, after) k = (cc, refl)
      refused meta (ok u, after) k = cc

      Left : Store → Type 0
      Left after =
          (after ≡ store)
          ⊎ ((f : String) × (form : FormTables) × (row : EntryRow) × (lookup f store ≡ some form)
              × (row.entry_id ≡ j)
              × (after ≡ put f (with_entry env form row) store))

      planned :
          (p : Result String (Change × EntryMeta))
          → plan_create env moment store ws_path j content author ≡ p
          → (and_then store p λ plan. finished plan.1 (append_change env store plan.0)).0
            ≡ err message
          → Left (and_then store p λ plan. finished plan.1 (append_change env store plan.0)).1
      planned (err e) is k = inl refl
      planned (ok (change, meta)) is k =
          let c = plan_create-IsCreated env moment store ws_path j content author is in
          let (failed, left) = refused meta (append_change env store change) k in
          subst Left (sym left) (
            subst
              (λ ch.
                (append_change env store ch).0 ≡ err message → Left (append_change env store ch).1)
              c.is_change
              (λ bad.
                elim (append_change-partial store c.f c.form c.row
                  (revision_for env c.row c.sum none) message c.is_form bad) [
                    | inl same ↦ inl same
                    | inr one ↦ inr (c.f, c.form, c.row, c.is_form, c.is_id, one)
                  ])
              failed)
