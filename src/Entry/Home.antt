-- ===== src/Entry/Home.antt =====
-- Which form an entry is found in (`find_entry_form` over `list_entry_rows`,
-- ugoite-core/src/entry.rs), where its rows stand in one form.
mod Best
unfoldable pub use Best.*
use ugoite.Common.{
  String, ◌≡◌, refl, ap, sym, ◌∙◌, Bool, true, false, Bool-cases, inl, inr, Option, none, some,
  List, [], ◌∷◌, arith, ◌==◌, str_eq_iff, str_eq_refl, if◌then◌else◌, All,
}
use ugoite.Common.Maps.{HashMap, lookup, put, lookup-put}
use ugoite.Entry.Types.{EntryRow}
use ugoite.Entry.Cells.{ColumnCrates}
use ugoite.Entry.Rows.{FloatOps, map_option}
use ugoite.Entry.Store.{
  Store, FormTables, f64_ge, newer_entry, latest_entry, keep_row, keep_latest, into_values,
  form_of_entry, entry_rows_of, latest_rows, list_entry_rows, find_entry_form,
}

module _ (crates : ColumnCrates) (floats : FloatOps) where
  -- No form of these has a row of the entry.
  abbrev pub Nowhere : String → Store → Type 0
  Nowhere j store = All (λ e. Absent j (entry_rows_of crates floats e.0 e.1)) store

  -- The rows of an entry stand in one form at most.
  abbrev pub Home : String → String → Store → Type 0
  Home f j [] = Unit
  Home f j ((g, form) ∷ store) = elim (g == f) [
    | true ↦ Nowhere j store
    | false ↦ Absent j (entry_rows_of crates floats g form) × Home f j store
  ]

  unfoldable pub best_of : String → Store → Option (String × EntryRow) → Option (String × EntryRow)
  best_of j [] found = found
  best_of j ((g, form) ∷ store) found =
      best_of j store (best_in g j (entry_rows_of crates floats g form) found)

  lookup-latest_rows :
      (j : String) (store : Store) (m : HashMap (String × EntryRow))
      → lookup j (latest_rows crates floats store m) ≡ best_of j store (lookup j m)
  unfolding latest_rows best_of
  lookup-latest_rows j [] m = refl
  lookup-latest_rows j ((g, form) ∷ store) m =
      let rows = entry_rows_of crates floats g form in
      lookup-latest_rows j store (keep_latest g rows m)
      ∙ ap (best_of j store) (lookup-keep_latest g j rows m)

  Keyed-latest_rows :
      (store : Store) (m : HashMap (String × EntryRow))
      → Keyed m
      → Keyed (latest_rows crates floats store m)
  unfolding latest_rows
  Keyed-latest_rows [] m h = h
  Keyed-latest_rows ((g, form) ∷ store) m h =
      let rows = entry_rows_of crates floats g form in
      Keyed-latest_rows store (keep_latest g rows m) (Keyed-keep_latest g rows m h)

  pub find-best_of :
      (j : String) (store : Store)
      → find_entry_form crates floats store j ≡ map_option (λ e. e.0) (best_of j store none)
  unfolding find_entry_form list_entry_rows lookup
  find-best_of j store =
      form_of_entry-into_values j (latest_rows crates floats store [])
        (Keyed-latest_rows store [] tt)
      ∙ ap (map_option (λ e. e.0)) (lookup-latest_rows j store [])

  best_of-Nowhere :
      (j : String) (store : Store) (found : Option (String × EntryRow))
      → Nowhere j store
      → best_of j store found ≡ found
  unfolding best_of
  best_of-Nowhere j [] found h = refl
  best_of-Nowhere j ((g, form) ∷ store) found (e, h) =
      ap (best_of j store) (best_in-Absent g j (entry_rows_of crates floats g form) found e)
      ∙ best_of-Nowhere j store found h

  best_of-none :
      (j : String) (store : Store) (found : Option (String × EntryRow))
      → best_of j store found ≡ none
      → (found ≡ none) × Nowhere j store
  unfolding best_of
  best_of-none j [] found h = (h, tt)
  best_of-none j ((g, form) ∷ store) found h =
      let rows = entry_rows_of crates floats g form in
      let (e, k) = best_of-none j store (best_in g j rows found) h in
      let (e', k') = best_in-none g j rows found e in (e', (k', k))

  best_of-Home :
      (f j : String) (store : Store) {form : FormTables} {row : EntryRow}
      → Home f j store
      → lookup f store ≡ some form
      → latest_entry j (entry_rows_of crates floats f form) none ≡ some row
      → best_of j store none ≡ some (f, row)
  unfolding best_of lookup
  best_of-Home f j [] h l r = cc
  best_of-Home f j ((g, other) ∷ store) {form} {row} h l r = elim (Bool-cases (g == f)) [
    | inl e ↦
        let same : g ≡ f = ground (arith, str_eq_iff g f) in
        let here : ◌≡◌ {A = Option FormTables} (some other) (some form) = rw e at l in
        let found : other ≡ form = cc in
        let rest : Nowhere j store = rw (e, Home) at h in
        let best : best_in g j (entry_rows_of crates floats g other) none ≡ some (f, row) =
          rw (same, found)
            (best_in-latest_entry f j (entry_rows_of crates floats f form) none
              ∙ ap (map_option (λ x. (f, x))) r) in
        ap (best_of j store) best ∙ best_of-Nowhere j store (some (f, row)) rest
    | inr e ↦
        let parts : Absent j (entry_rows_of crates floats g other) × Home f j store =
          rw (e, Home) at h in
        let rest : lookup f store ≡ some form = rw e at l in
        ap (best_of j store) (best_in-Absent g j (entry_rows_of crates floats g other) none parts.0)
        ∙ best_of-Home f j store parts.1 rest r
  ]

  -- An entry with a row in its form is found there.
  pub find-Home :
      (f j : String) (store : Store) {form : FormTables} {row : EntryRow}
      → Home f j store
      → lookup f store ≡ some form
      → latest_entry j (entry_rows_of crates floats f form) none ≡ some row
      → find_entry_form crates floats store j ≡ some f
  find-Home f j store h l r =
      find-best_of j store ∙ ap (map_option (λ e. e.0)) (best_of-Home f j store h l r)

  -- An entry that is not found has no row in any form.
  pub find-Nowhere :
      (j : String) (store : Store) → find_entry_form crates floats store j ≡ none → Nowhere j store
  find-Nowhere j store h =
      (best_of-none j store none
        (missing (best_of j store none) (sym (find-best_of j store) ∙ h))).1
    where
      missing : (o : Option (String × EntryRow)) → map_option (λ e. e.0) o ≡ none → o ≡ none
      missing none k = refl
      missing (some e) k = cc

  pub Nowhere-Home : (f j : String) (store : Store) → Nowhere j store → Home f j store
  Nowhere-Home f j [] h = tt
  Nowhere-Home f j ((g, form) ∷ store) (e, h) =
      elim (g == f)
        as (λ b. elim b [
          | true ↦ Nowhere j store
          | false ↦ Absent j (entry_rows_of crates floats g form) × Home f j store
        ]) [ true ↦ h | false ↦ (e, Nowhere-Home f j store h) ]

  -- New rows in the form of the entry leave it the only one.
  pub Home-put :
      (f j : String) (form : FormTables) (store : Store)
      → Home f j store
      → Home f j (put f form store)
  unfolding put
  Home-put f j form [] h = rw (str_eq_refl f, Home, put) tt
  Home-put f j form ((g, old) ∷ store) h = elim (Bool-cases (g == f)) [
    | inl e ↦
        let rest : Nowhere j store = rw (e, Home) at h in rw (e, str_eq_refl f, Home, put) rest
    | inr e ↦
        let parts : Absent j (entry_rows_of crates floats g old) × Home f j store =
          rw (e, Home) at h in
        rw (e, Home, e) (parts.0, Home-put f j form store parts.1)
  ]
