-- ===== src/Entry/Growth.antt =====
-- The tables of a space only grow, whatever calls are made (`append_entry_row_to_table` and
-- `append_revision_row_to_table` of ugoite-core/src/entry.rs, and ugoite-core/src/link.rs).
mod Prefixes
unfoldable pub use Prefixes.*
use ugoite.Common.{
  ℕ, suc, String, ◌≡◌, refl, ap, sym, ◌∙◌, subst, Bool, true, false, Bool-cases, inl, inr, Option,
  none, some, List, [], ◌∷◌, ◌++◌, arith, Result, ok, err, ok_or, ◌==◌, str_eq_iff, >>=-inv,
  ok-injective, nat_eq, length,
}
use ugoite.Common.Maps.{lookup, put}
use ugoite.Json.{Value}
use ugoite.Entry.Types.{Link, EntryRow, RevisionRow}
use ugoite.Entry.Cells.{ℤ, ColumnCrates}
use ugoite.Entry.Rows.{FloatOps, now_ts, entry_row_to_record_batch, revision_row_to_record_batch}
use ugoite.Entry.Store.{
  and_then, Store, FormTables, load_form, read_entry_row, write_entry_row,
  append_revision_row_for_form, list_entry_rows, find_entry_form,
}
use ugoite.Entry.Write.{
  EntryEnv, Moment, Change, append_change, commit, create_entry, update_entry, delete_entry,
  restore_entry,
}
use ugoite.Entry.Read.{get_entry}
use ugoite.Entry.Appended.{ok_or-some}
use ugoite.Links.{without_link, update_entry_links, create_link, delete_from_rows, delete_link}

and_then-Extends :
    {A B : Type 0} (store : Store) (r : Result String B) (next : B → Result String A × Store)
    → ((b : B) → r ≡ ok b → Extends store (next b).1)
    → Extends store (and_then store r next).1
and_then-Extends store (err message) next h = Extends-refl store
and_then-Extends store (ok b) next h = h b refl

-- What follows a call that has grown the tables, and writes nothing.
done-Extends :
    {A B : Type 0} (store : Store) (done : Result String B × Store) (answer : B → Result String A)
    → Extends store done.1
    → Extends store (and_then done.1 done.0 λ b. (answer b, done.1)).1
done-Extends store (err message, after) answer h = h
done-Extends store (ok b, after) answer h = h

module _ (crates : ColumnCrates) (floats : FloatOps) where
  write-Extends :
      (store : Store) (f : String) (row : EntryRow) {after : Store}
      → write_entry_row crates floats store f row ≡ ok after
      → Extends store after
  unfolding write_entry_row load_form
  write-Extends store f row h = >>=-inv (ok_or (lookup f store) _) _ h λ form l h1.
      >>=-inv (entry_row_to_record_batch crates floats form.definition form.field_names row) _ h1
        λ stored _ e. subst (Extends store) (ok-injective e) (
          Extends-put f form _ store (ok_or-some _ _ l) (record {
            definition = refl;
            field_names = refl;
            entries = (_, refl);
            revisions = IsPrefix-refl form.revision_rows;
          }))

  revision-Extends :
      (store : Store) (f : String) (row : RevisionRow) {after : Store}
      → append_revision_row_for_form crates floats store f row ≡ ok after
      → Extends store after
  unfolding append_revision_row_for_form load_form
  revision-Extends store f row h = >>=-inv (ok_or (lookup f store) _) _ h λ form l h1.
      >>=-inv (revision_row_to_record_batch crates floats form.definition form.field_names row) _ h1
        λ stored _ e. subst (Extends store) (ok-injective e) (
          Extends-put f form _ store (ok_or-some _ _ l) (record {
            definition = refl;
            field_names = refl;
            entries = IsPrefix-refl form.entry_rows;
            revisions = (_, refl);
          }))

  links-Extends :
      (millis : ℤ) (store : Store) (f j : String) (link : Link) {after : Store}
      → update_entry_links crates floats millis store f j link ≡ ok after
      → Extends store after
  unfolding update_entry_links
  links-Extends millis store f j link h =
      >>=-inv (read_entry_row crates floats store f j) _ h λ row _ e.
        write-Extends store f
          (record row {
            links = without_link link.id row.links ++ link ∷ [];
            updated_at = now_ts floats millis;
          })
          e

  create_link-Extends :
      (first second : ℤ) (store : Store) (source target kind link_id : String)
      → Extends store (create_link crates floats first second store source target kind link_id).1
  unfolding create_link
  create_link-Extends first second store source target kind link_id =
      and_then-Extends store (ok_or (find_entry_form crates floats store source) _) _ λ f _.
        and_then-Extends store (ok_or (find_entry_form crates floats store target) _) _ λ g _.
          and_then-Extends store (update_entry_links crates floats first store f source _) _
            λ written e.
              let h = links-Extends first store f source _ e in
              Extends-trans store written _ h (
                and_then-Extends written
                  (update_entry_links crates floats second written g target _) _
                  λ both e'. links-Extends second written g target _ e')

  delete_from_rows-Extends :
      (clock : ℕ → ℤ) (n : ℕ) (link_id : String) (rows : List (String × EntryRow)) (found : Bool)
      (store : Store)
      → Extends store (delete_from_rows crates floats clock n link_id rows found store).1
  unfolding delete_from_rows
  delete_from_rows-Extends clock n link_id [] found store = Extends-refl store
  delete_from_rows-Extends clock n link_id ((f, row) ∷ rows) found store =
      changed (nat_eq (length (without_link link_id row.links)) (length row.links))
        (delete_from_rows-Extends clock n link_id rows found store)
        (λ written. delete_from_rows-Extends clock (suc n) link_id rows true written)
    where
      kept : EntryRow
      kept = record row {
        links = without_link link_id row.links;
        updated_at = now_ts floats (clock n);
      }

      changed :
          (b : Bool)
          → Extends store (delete_from_rows crates floats clock n link_id rows found store).1
          → ((written : Store)
              → Extends written
                  (delete_from_rows crates floats clock (suc n) link_id rows true written).1)
          → Extends store
              (elim b as (λ _. Result String Bool × Store) [
                | true ↦ delete_from_rows crates floats clock n link_id rows found store
                | false ↦ and_then store (write_entry_row crates floats store f kept) λ written.
                    delete_from_rows crates floats clock (suc n) link_id rows true written
              ]).1
      changed true h k = h
      changed false h k =
          and_then-Extends store (write_entry_row crates floats store f kept) _
            λ written e. Extends-trans store written _ (write-Extends store f kept e) (k written)

  delete_link-Extends :
      (clock : ℕ → ℤ) (store : Store) (link_id : String)
      → Extends store (delete_link crates floats clock store link_id).1
  unfolding delete_link
  delete_link-Extends clock store link_id =
      done-Extends store
        (delete_from_rows crates floats clock 0 link_id (list_entry_rows crates floats store) false
          store)
        _
        (delete_from_rows-Extends clock 0 link_id (list_entry_rows crates floats store) false store)

module _ (env : EntryEnv) where
  open env use {properties, floats}
  open properties use {columns}

  append_change-Extends :
      (store : Store) (change : Change) → Extends store (append_change env store change).1
  unfolding append_change
  append_change-Extends store change =
      and_then-Extends store
        (write_entry_row columns floats store change.form_name change.entry_row) _
        λ written e.
          second written change.revision
            (write-Extends columns floats store change.form_name change.entry_row e)
    where
      second :
          (written : Store) (revision : Option RevisionRow)
          → Extends store written
          → Extends store
              (elim revision as (λ _. Result String (Unit {0}) × Store) [
                | none ↦ (ok tt, written)
                | some row ↦
                    and_then written
                      (append_revision_row_for_form columns floats written change.form_name row)
                      λ both. (ok tt, both)
              ]).1
      second written none h = h
      second written (some row) h = Extends-trans store written _ h (
          and_then-Extends written
            (append_revision_row_for_form columns floats written change.form_name row) _
            λ both e. revision-Extends columns floats written change.form_name row e)

  commit-Extends :
      {A : Type 0} (store : Store) (planned : Result String (Change × A))
      (answer : Store → A → Result String A)
      → Extends store (commit env store planned answer).1
  unfolding commit
  commit-Extends store planned answer = and_then-Extends store planned _ λ plan _.
      done-Extends store (append_change env store plan.0) _ (append_change-Extends store plan.0)

  -- A call of the library that writes.
  pub data Step : Store → Store → Type 0 where
    creates :
        (moment : Moment) (store : Store) (ws_path j content author : String)
        → Step store (create_entry env moment store ws_path j content author).1
    updates :
        (moment : Moment) (store : Store) (j content : String) (given : Option String)
        (author : String) (assets : Option (List Value))
        → Step store (update_entry env moment store j content given author assets).1
    deletes :
        (moment : Moment) (store : Store) (j : String) (hard : Bool)
        → Step store (delete_entry env moment store j hard).1
    restores :
        (moment : Moment) (store : Store) (j revision_id author : String)
        → Step store (restore_entry env moment store j revision_id author).1
    links :
        (first second : ℤ) (store : Store) (source target kind link_id : String)
        → Step store (create_link columns floats first second store source target kind link_id).1
    unlinks :
        (clock : ℕ → ℤ) (store : Store) (link_id : String)
        → Step store (delete_link columns floats clock store link_id).1

  -- Any number of calls, accepted or refused, in any order.
  pub data Reach : Store → Store → Type 0 where
    start : (store : Store) → Reach store store
    next : (a b c : Store) → Reach a b → Step b c → Reach a c

  Step-Extends : (a b : Store) → Step a b → Extends a b
  unfolding create_entry update_entry delete_entry restore_entry
  Step-Extends _ _ (creates moment store ws_path j content author) =
      commit-Extends store _ (λ written meta. ok meta)
  Step-Extends _ _ (updates moment store j content given author assets) =
      commit-Extends store _ (λ written unit. get_entry columns floats written j)
  Step-Extends _ _ (deletes moment store j hard) = commit-Extends store _ (λ written unit. ok tt)
  Step-Extends _ _ (restores moment store j revision_id author) =
      commit-Extends store _ (λ written answer. ok answer)
  Step-Extends _ _ (links first second store source target kind link_id) =
      create_link-Extends columns floats first second store source target kind link_id
  Step-Extends _ _ (unlinks clock store link_id) =
      delete_link-Extends columns floats clock store link_id

  -- Whatever calls create, update, delete, restore, link and unlink entries, in whatever order and
  -- with whatever result, every form keeps its definition, and every row that its two tables held is
  -- still there, in its place.
  pub Reach-Extends : (a b : Store) → Reach a b → Extends a b
  Reach-Extends _ _ (start store) = Extends-refl store
  Reach-Extends _ _ (next a b c before step) =
      Extends-trans a b c (Reach-Extends a b before) (Step-Extends b c step)
