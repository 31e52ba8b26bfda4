-- ===== src/Links/Lost.antt =====
-- Links that are written at a time before that of the entry (`update_entry_links`,
-- ugoite-core/src/link.rs).
use ugoite.Common.{[], ◌∷◌, ◌++◌}
use ugoite.Entry.Types.{Link, EntryRow}
use ugoite.Entry.Cells.{ℤ}
use ugoite.Entry.Rows.{now_ts}
use ugoite.Entry.Store.{Store}
use ugoite.Entry.Write.{EntryEnv}
use ugoite.Links.{without_link}

module _ (env : EntryEnv) where
  open env use {properties, floats}
  open properties use {columns}

  abbrev linked : ℤ → EntryRow → Link → EntryRow
  linked millis row link = record row {
    links = without_link link.id row.links ++ link ∷ [];
    updated_at = now_ts floats millis;
  }
