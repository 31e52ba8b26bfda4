-- ===== src/Links.antt =====
-- Links between entries (ugoite-core/src/link.rs). Each of the two entries holds a record of a link,
-- and a change of its links appends a row for the entry.
pub mod Lost
use ugoite.Common.{
  ℕ, suc, String, Bool, true, false, not, List, [], ◌∷◌, ◌++◌, Result, ok, err, ok_or, ◌>>=◌, ◌==◌,
  nat_eq, if◌then◌else◌, length, retain,
}
use ugoite.Common.Text.{◌⧺◌}
use ugoite.Common.Maps.{HashMap, put}
use ugoite.Entry.Types.{Link, EntryRow}
use ugoite.Entry.Cells.{ℤ, ColumnCrates}
use ugoite.Entry.Rows.{FloatOps, now_ts}
use ugoite.Entry.Store.{
  Store, and_then, into_values, read_entry_row, write_entry_row, list_entry_rows, find_entry_form,
}

-- `links.retain(|l| l.id != link_id)`
unfoldable pub without_link : String → List Link → List Link
unfolding retain
without_link link_id links = retain (λ l. not (l.id == link_id)) links

-- `links.insert(link.id.clone(), link)`, for the links of one entry
unfoldable pub put_links : List Link → HashMap Link → HashMap Link
unfolding put
put_links [] found = found
put_links (link ∷ links) found = put_links links (put link.id link found)

unfoldable pub links_of_rows : List (String × EntryRow) → HashMap Link → HashMap Link
unfolding put_links
links_of_rows [] found = found
links_of_rows ((form_name, row) ∷ rows) found =
    links_of_rows rows (if row.deleted then found else put_links row.links found)

module _ (crates : ColumnCrates) (floats : FloatOps) where
  -- `millis` is what the clock says at this call.
  unfoldable pub update_entry_links :
      ℤ → Store → (form_name entry_id : String) → Link → Result String Store
  unfolding read_entry_row write_entry_row without_link now_ts
  update_entry_links millis store form_name entry_id link =
      read_entry_row crates floats store form_name entry_id >>= λ row.
      write_entry_row crates floats store form_name (record row {
        links = without_link link.id row.links ++ link ∷ [];
        updated_at = now_ts floats millis;
      })

  -- The two ends are found before anything is written; the target is read after the source is
  -- written, at a later time of the clock.
  unfoldable pub create_link :
      (first second : ℤ)
      → Store
      → (source target kind link_id : String) → Result String Link × Store
  unfolding find_entry_form update_entry_links
  create_link first second store source target kind link_id =
      let link : Link = record { id = link_id; source = source; target = target; kind = kind } in
      let reciprocal : Link = record {
        id = link_id;
        source = target;
        target = source;
        kind = kind;
      } in
      and_then store
        (ok_or (find_entry_form crates floats store source) ("Source entry not found: " ⧺ source))
        λ source_form.
          and_then store
            (ok_or (find_entry_form crates floats store target)
              ("Target entry not found: " ⧺ target))
            λ target_form.
              and_then store (update_entry_links first store source_form source link) λ written.
                and_then written (update_entry_links second written target_form target reciprocal)
                  λ both. (ok link, both)

  unfoldable pub list_links : Store → List Link
  unfolding links_of_rows into_values list_entry_rows
  list_links store = into_values (links_of_rows (list_entry_rows crates floats store) [])

  -- The loop over the rows that were listed; `clock` is what the clock says at each write.
  unfoldable pub delete_from_rows :
      (ℕ → ℤ) → ℕ → String → List (String × EntryRow) → Bool → Store → Result String Bool × Store
  unfolding without_link write_entry_row now_ts
  delete_from_rows clock n link_id [] found store = (ok found, store)
  delete_from_rows clock n link_id ((form_name, row) ∷ rows) found store =
      let kept = without_link link_id row.links in
      elim (nat_eq (length kept) (length row.links)) [
        | true ↦ delete_from_rows clock n link_id rows found store
        | false ↦
            and_then store
              (write_entry_row crates floats store form_name
                (record row { links = kept; updated_at = now_ts floats (clock n) }))
              λ written. delete_from_rows clock (suc n) link_id rows true written
      ]

  unfoldable pub delete_link : (ℕ → ℤ) → Store → String → Result String (Unit {0}) × Store
  unfolding delete_from_rows list_entry_rows
  delete_link clock store link_id =
      let done =
        delete_from_rows clock 0 link_id (list_entry_rows crates floats store) false store in
      and_then done.1 done.0
        λ found. (if found then ok tt else err ("Link not found: " ⧺ link_id), done.1)
