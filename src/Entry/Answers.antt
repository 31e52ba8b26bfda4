-- ===== src/Entry/Answers.antt =====
-- What callers are answered after a change (`update_entry`, `delete_entry` and `get_entry`,
-- ugoite-core/src/entry.rs).
use ugoite.Common.{
  String, ◌≡◌, refl, ap, sym, ◌∙◌, subst, true, false, some, ok, err, ok_or, ◌==◌, >>=-inv,
  ok-injective,
}
use ugoite.Common.Text.{◌⧺◌}
use ugoite.Json.{string}
use ugoite.Json.Object.{value_get, from_list, get-insert}
use ugoite.Entry.Types.{EntryRow}
use ugoite.Entry.Store.{Store, FormTables, load_form, read_entry_row, find_entry_form}
use ugoite.Entry.Read.{get_entry, json_full}
use ugoite.Entry.Write.{EntryEnv, current_row}
use ugoite.Entry.Appended.{current_row-IsCurrent}

module _ (env : EntryEnv) where
  open env use {properties, floats}
  open properties use {columns}

  pub get_entry-deleted :
      (store : Store) (f j : String) (row : EntryRow)
      → current_row env store j ≡ ok (f, row)
      → row.deleted ≡ true
      → get_entry columns floats store j ≡ err ("Entry not found: " ⧺ j)
  unfolding current_row get_entry
  get_entry-deleted store f j row h gone =
      >>=-inv (ok_or (find_entry_form columns floats store j) _) _ h λ g found h1.
        >>=-inv (read_entry_row columns floats store g j) _ h1 λ read e h2.
          let same : read ≡ row = cc h2 in
          let deleted : read.deleted ≡ true = ap (λ r. r.deleted) same ∙ gone in
          rw (found, e, deleted) refl

  pub get_entry-live :
      (store : Store) (f j : String) (row : EntryRow)
      → current_row env store j ≡ ok (f, row)
      → row.deleted ≡ false
      → (form : FormTables) × (get_entry columns floats store j
          ≡ ok (json_full columns floats j f row form))
  unfolding current_row get_entry load_form
  get_entry-live store f j row h live =
      let c = current_row-IsCurrent env store f j row h in
      >>=-inv (ok_or (find_entry_form columns floats store j) _) _ h λ g found h1.
        >>=-inv (read_entry_row columns floats store g j) _ h1 λ read e h2.
          let same : read ≡ row = cc h2 in
          let name : g ≡ f = cc h2 in
          let here : read.deleted ≡ false = ap (λ r. r.deleted) same ∙ live in
          let opened : load_form store g ≡ ok c.form =
            subst (λ k. load_form store k ≡ ok c.form) (sym name)
              (ap (λ o. ok_or o ("Form " ⧺ f ⧺ " not found")) c.is_form) in
          (
            c.form,
            rw (found, e, here, opened)
                (ap (λ p. ok (json_full columns floats j p.0 p.1 c.form)) (ok-injective h2)),
          )

  pub json_full-revision_id :
      (f j : String) (row : EntryRow) (form : FormTables)
      → value_get "revision_id" (json_full columns floats j f row form)
        ≡ some (string row.revision_id)
  unfolding json_full value_get from_list ◌==◌
  json_full-revision_id f j row form = simp get-insert
