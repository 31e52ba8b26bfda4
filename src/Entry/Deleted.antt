-- ===== src/Entry/Deleted.antt =====
-- Deleting an entry (`delete_entry`, ugoite-core/src/entry.rs).
use ugoite.Common.{true, some}
use ugoite.Entry.Types.{EntryRow}
use ugoite.Entry.Store.{Store}
use ugoite.Entry.Write.{EntryEnv, Moment, next_time}
use ugoite.Entry.Home.{Home}

module _ (env : EntryEnv) where
  open env use {properties, floats}
  open properties use {columns}

  -- The row that a deletion appends.
  deleted_row : Moment → EntryRow → EntryRow
  unfolding next_time
  deleted_row moment row =
      let time = next_time env moment.millis row.updated_at in
      record row { deleted = true; deleted_at = some time; updated_at = time }
