-- ===== src/Entry/Revised.antt =====
-- What is read after an update or a restoration, and updates from one revision (`update_entry` and
-- `restore_entry`, ugoite-core/src/entry.rs).
use ugoite.Common.{
  String, ◌≡◌, ap, sym, ◌∙◌, subst, true, Option, none, some, List, ok, ok-injective,
}
use ugoite.Common.Maps.{lookup, put}
use ugoite.Json.{Value}
use ugoite.Entry.Types.{EntryRow, RevisionRow}
use ugoite.Entry.Rows.{
  entry_row_from_batch, entry_columns, revision_row_from_batch, revision_columns,
}
use ugoite.Entry.Store.{
  and_then, Store, FormTables, f64_ge, newer_entry, newer_revision, latest_entry, with_revision,
  entry_rows_of, latest_revision_for_entry,
}
use ugoite.Entry.Write.{
  EntryEnv, Moment, Change, append_change, commit, current_row, revision_for, plan_update,
  update_entry,
}
use ugoite.Entry.Read.{get_entry}
use ugoite.Entry.Latest.{
  FloatLaws, latest_entry-id, f64_ge_trans, with_revision-updated_at, with_revision-entry_id,
}
use ugoite.Entry.Home.{Home}
use ugoite.Entry.Appended.{
  Takes, stored_entry, stored_revision, with_entry, with_both, append_change-both, IsCurrent,
  current_row-IsCurrent, append_change-current,
}
use ugoite.Entry.Conflicts.{
  IsStored, NotNewer, rounded, rounded-ge, next_time-ge, newer_entry-ge, newer_revision-ge,
  IsRevised, plan_update-IsRevised,
}

module _ (env : EntryEnv) (laws : FloatLaws env.floats) where
  open env use {properties, floats}
  open properties use {columns}

  -- What the tables must be for an entry to be read as it was written: its rows stand in one form,
  -- its times are those of a table, its form takes rows, and its latest revision is not newer than
  -- its row.
  pub record IsSettled (store : Store) (f j : String) (row : EntryRow) : Type 0 where
    pub home : Home columns floats f j store
    pub stored : IsStored floats row.updated_at
    pub takes : (form : FormTables) → lookup f store ≡ some form → Takes env form
    pub settled :
        (form : FormTables)
        → lookup f store ≡ some form
        → NotNewer floats (latest_revision_for_entry columns floats form j) row.updated_at

  -- The tables after a change, and the row that is read from them.
  pub record IsRead (moment : Moment) (store : Store) (f j : String) (row : EntryRow)
      (change : Change) : Type 0 where
    pub after : Store
    pub current : EntryRow
    pub is_after : append_change env store change ≡ (ok tt, after)
    pub is_current : current_row env after j ≡ ok (f, current)
    pub is_fresh : current.revision_id ≡ moment.uuid
    pub is_child : current.parent_revision_id ≡ some row.revision_id
    pub same_deleted : current.deleted ≡ row.deleted

  pub revised-IsRead :
      (moment : Moment) (store : Store) (j : String) {change : Change}
      (r : IsRevised env moment store j change)
      → IsSettled store r.f j r.row
      → IsRead moment store r.f j r.row change
  unfolding with_revision stored_entry stored_revision entry_row_from_batch entry_columns
      revision_row_from_batch revision_columns revision_for
  revised-IsRead moment store j r s =
      let c : IsCurrent env store r.f j r.row =
        current_row-IsCurrent env store r.f j r.row r.is_current in
      let latest = latest_revision_for_entry columns floats c.form j in
      let revision : RevisionRow = revision_for env r.updated r.sum r.restored_from in
      let time : c.selected.updated_at ≡ r.row.updated_at =
        sym (with_revision-updated_at latest c.selected) ∙ ap (λ x. x.updated_at) c.is_row in
      let is_j : r.updated.entry_id ≡ j =
        r.same_id
        ∙ sym (ap (λ x. x.entry_id) c.is_row)
        ∙ with_revision-entry_id latest c.selected
        ∙ latest_entry-id j (entry_rows_of columns floats r.f c.form) none (λ x e. cc)
            c.is_latest in
      let later : f64_ge r.updated.updated_at r.row.updated_at ≡ true =
        subst (λ t. f64_ge t r.row.updated_at ≡ true) (sym r.is_later)
          (next_time-ge env laws moment.millis r.row.updated_at) in
      let newest : newer_entry (stored_entry env r.f c.form r.updated)
            (latest_entry j (entry_rows_of columns floats r.f c.form) none)
          ≡ some (stored_entry env r.f c.form r.updated) =
        subst
          (λ o.
            newer_entry (stored_entry env r.f c.form r.updated) o
            ≡ some (stored_entry env r.f c.form r.updated))
          (sym c.is_latest)
          (newer_entry-ge env laws (stored_entry env r.f c.form r.updated) c.selected (
            subst (λ t. f64_ge (rounded floats r.updated.updated_at) t ≡ true) (sym time)
              (rounded-ge floats laws r.updated.updated_at r.row.updated_at s.stored later))) in
      let newest_revision : newer_revision (stored_revision env c.form revision) latest
          ≡ some (stored_revision env c.form revision) =
        newer_revision-ge env laws (stored_revision env c.form revision) latest r.row.updated_at
          (s.settled c.form c.is_form)
          (λ stored is h.
            rounded-ge floats laws r.updated.updated_at stored is
              (f64_ge_trans r.updated.updated_at r.row.updated_at stored later h)) in
      record {
        after =
            put r.f (with_both env c.form r.updated revision)
              (put r.f (with_entry env c.form r.updated) store);
        current =
            with_revision (some (stored_revision env c.form revision))
              (stored_entry env r.f c.form r.updated);
        is_after =
            subst
              (λ ch. append_change env store ch ≡ (
                ok tt,
                put r.f (with_both env c.form r.updated revision)
                    (put r.f (with_entry env c.form r.updated) store),
              ))
              r.is_change
              (append_change-both env store r.f c.form r.updated revision c.is_form
                (s.takes c.form c.is_form));
        is_current =
            append_change-current env store r.f j c.form r.updated revision c.is_form s.home is_j
              is_j newest newest_revision;
        is_fresh = r.is_fresh;
        is_child = r.is_child;
        same_deleted = r.same_deleted;
      }

  pub update_entry-after :
      (moment : Moment) (store : Store) (j content : String) (given : Option String)
      (author : String) (assets : Option (List Value)) {change : Change} {after : Store}
      → plan_update env moment store j content given author assets ≡ ok change
      → append_change env store change ≡ (ok tt, after)
      → update_entry env moment store j content given author assets
        ≡ (get_entry columns floats after j, after)
  unfolding update_entry commit
  update_entry-after moment store j content given author assets planned appended =
      rw (planned, commit)
        (ap (λ d. and_then d.1 d.0 λ _. (get_entry columns floats d.1 j, d.1)) appended)

  -- What is read after an update that is accepted.
  pub update-IsRead :
      (moment : Moment) (store : Store) (f j content : String) (row : EntryRow)
      (given : Option String) (author : String) (assets : Option (List Value)) {change : Change}
      → current_row env store j ≡ ok (f, row)
      → IsSettled store f j row
      → plan_update env moment store j content given author assets ≡ ok change
      → IsRead moment store f j row change
  update-IsRead moment store f j content row given author assets {change} current settled planned =
      let r = plan_update-IsRevised env moment store j content given author assets planned in
      let same : ◌≡◌ {A = String × EntryRow} (f, row) (r.f, r.row) =
        ok-injective (sym current ∙ r.is_current) in
      subst (λ p. IsRead moment store p.0 j p.1 change) (sym same)
        (revised-IsRead moment store j r (subst (λ p. IsSettled store p.0 j p.1) same settled))
