-- ===== src/Entry/Conflicts.antt =====
-- Updates of an entry from one revision (`update_entry`, ugoite-core/src/entry.rs).
use ugoite.Common.{
  ℕ, ◌<◌, ◌^◌, String, ◌≡◌, refl, ap, sym, ◌∙◌, subst, true, Bool-cases, inl, inr, Option, none,
  some, List, ok, ok_or, >>=-inv, ok-injective,
}
use ugoite.Json.{F64, Value}
use ugoite.Entry.Types.{EntryRow, RevisionRow}
use ugoite.Entry.Cells.{ℤ, pos}
use ugoite.Entry.Rows.{FloatOps, now_ts, to_timestamp_micros, from_timestamp_micros}
use ugoite.Entry.Store.{
  Store, f64_ge, newer_entry, newer_revision, load_form, read_entry_row, find_entry_form,
}
use ugoite.Entry.Write.{
  EntryEnv, Moment, Change, next_time, current_row, plan_update, revision_for, plan_restore,
  update_values, updated_row,
}
use ugoite.Entry.Read.{revision_of, find_revision}
use ugoite.Entry.Latest.{FloatLaws, f64_ge_total}
use ugoite.Entry.Appended.{ok_or-some}

module _ (floats : FloatOps) where
  -- A time that was read from a table, before the year 2041.
  abbrev pub IsStored : F64 → Type 0
  IsStored t = (m : ℕ) × (m < 2 ^ 51) × (t ≡ from_timestamp_micros floats (pos m))

  -- The latest revision of an entry is not newer than its row.
  abbrev pub NotNewer : Option RevisionRow → F64 → Type 0
  NotNewer none t = Unit
  NotNewer (some revision) t = IsStored revision.timestamp × (f64_ge t revision.timestamp ≡ true)

  abbrev pub rounded : F64 → F64
  rounded t = from_timestamp_micros floats (to_timestamp_micros floats t)

  pub rounded-ge :
      FloatLaws floats
      → (t stored : F64) → IsStored stored
      → f64_ge t stored ≡ true
      → f64_ge (rounded t) stored ≡ true
  rounded-ge laws t stored (m, small, is_m) h =
      subst (λ s. f64_ge (rounded t) s ≡ true) (sym is_m)
        (laws.keeps_order m t small (subst (λ s. f64_ge t s ≡ true) is_m h))

module _ (env : EntryEnv) (laws : FloatLaws env.floats) where
  open env use {properties, floats}
  open properties use {columns}

  -- The time of a change is not before the row that it changes.
  pub next_time-ge : (millis : ℤ) (t : F64) → f64_ge (next_time env millis t) t ≡ true
  unfolding next_time
  next_time-ge millis t = elim (Bool-cases (f64_ge t (now_ts floats millis))) [
    | inl e ↦ rw e (laws.adds t)
    | inr e ↦ rw e (f64_ge_total t (now_ts floats millis) e)
  ]

  pub newer_entry-ge :
      (row : EntryRow) (selected : EntryRow)
      → f64_ge row.updated_at selected.updated_at ≡ true
      → newer_entry row (some selected) ≡ some row
  unfolding newer_entry
  newer_entry-ge row selected h = rw h refl

  pub newer_revision-ge :
      (row : RevisionRow) (latest : Option RevisionRow) (t : F64)
      → NotNewer floats latest t
      → ((stored : F64)
          → IsStored floats stored
          → f64_ge t stored ≡ true
          → f64_ge row.timestamp stored ≡ true)
      → newer_revision row latest ≡ some row
  unfolding newer_revision
  newer_revision-ge row none t h k = refl
  newer_revision-ge row (some latest) t (stored, h) k = rw (k latest.timestamp stored h) refl

module _ (env : EntryEnv) where
  open env use {properties, floats}
  open properties use {columns}

  -- A change of an entry by `update_entry` or `restore_entry`: a later row of the same entry, with a
  -- new revision whose parent is the one before.
  pub record IsRevised (moment : Moment) (store : Store) (j : String) (change : Change)
      : Type 0 where
    pub f : String
    pub row : EntryRow
    pub updated : EntryRow
    pub sum : String
    pub restored_from : Option String
    pub is_current : current_row env store j ≡ ok (f, row)
    pub is_change :
        record {
          form_name = f;
          entry_row = updated;
          revision = some (revision_for env updated sum restored_from);
        }
        ≡ change
    pub same_id : updated.entry_id ≡ row.entry_id
    pub same_deleted : updated.deleted ≡ row.deleted
    pub is_later : updated.updated_at ≡ next_time env moment.millis row.updated_at
    pub is_fresh : updated.revision_id ≡ moment.uuid
    pub is_child : updated.parent_revision_id ≡ some row.revision_id

  pub plan_update-IsRevised :
      (moment : Moment) (store : Store) (j content : String) (given : Option String)
      (author : String) (assets : Option (List Value)) {change : Change}
      → plan_update env moment store j content given author assets ≡ ok change
      → IsRevised moment store j change
  unfolding plan_update
  plan_update-IsRevised moment store j content given author assets h =
      >>=-inv (current_row env store j) _ h λ current e h1.
        >>=-inv (update_values env store current.0 current.1 content given) _ h1 λ values _ h2.
          record {
            f = current.0;
            row = current.1;
            updated = updated_row env moment current.1 content values author assets;
            sum =
                (updated_row env moment current.1 content values author assets).integrity.checksum;
            restored_from = none;
            is_current = e;
            is_change = ok-injective h2;
            same_id = refl;
            same_deleted = refl;
            is_later = refl;
            is_fresh = refl;
            is_child = refl;
          }

  find-current_row :
      (store : Store) (f j : String) {row : EntryRow}
      → find_entry_form columns floats store j ≡ some f
      → read_entry_row columns floats store f j ≡ ok row
      → current_row env store j ≡ ok (f, row)
  unfolding current_row
  find-current_row store f j found read = rw (found, read) refl

  pub plan_restore-IsRevised :
      (moment : Moment) (store : Store) (j revision_id author : String) {change : Change}
      {answer : Value}
      → plan_restore env moment store j revision_id author ≡ ok (change, answer)
      → IsRevised moment store j change
  unfolding plan_restore revision_of
  plan_restore-IsRevised moment store j revision_id author h =
      >>=-inv (revision_of columns floats store j revision_id) _ h λ found e h1.
        >>=-inv (read_entry_row columns floats store found.0 j) _ h1 λ row read h2.
          >>=-inv (load_form store found.0) _ h2 λ form _ h3.
            >>=-inv (ok_or (find_entry_form columns floats store j) _) _ e λ f found_form e1.
              >>=-inv (load_form store f) _ e1 λ form' _ e2.
                >>=-inv (ok_or (find_revision j revision_id _) _) _ e2 λ revision _ e3.
                  let same : f ≡ found.0 = cc e3 in
                  record {
                    f = found.0;
                    row = row;
                    updated = _;
                    sum = _;
                    restored_from = some revision_id;
                    is_current =
                        find-current_row store found.0 j (ok_or-some _ _ found_form ∙ ap some same)
                          read;
                    is_change = ap (λ p. p.0) (ok-injective h3);
                    same_id = refl;
                    same_deleted = refl;
                    is_later = refl;
                    is_fresh = refl;
                    is_child = refl;
                  }
