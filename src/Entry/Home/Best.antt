-- ===== src/Entry/Home/Best.antt =====
-- What one entry sees of the loop of `list_entry_rows` (ugoite-core/src/entry.rs).
use ugoite.Common.{
  String, ◌≡◌, refl, ap, ◌∙◌, Bool, true, false, Bool-cases, inl, inr, Option, none, some, List, [],
  ◌∷◌, arith, ◌==◌, str_eq_iff, if◌then◌else◌, All,
}
use ugoite.Common.Maps.{HashMap, lookup, put, lookup-put}
use ugoite.Entry.Types.{EntryRow}
use ugoite.Entry.Rows.{map_option}
use ugoite.Entry.Store.{
  f64_ge, newer_entry, latest_entry, keep_row, keep_latest, into_values, form_of_entry,
}

-- One row of the loop of `list_entry_rows`, as one entry sees it.
unfoldable pub newer_pair :
    String → EntryRow → Option (String × EntryRow) → Option (String × EntryRow)
newer_pair f row none = some (f, row)
newer_pair f row (some existing) =
    if f64_ge row.updated_at existing.1.updated_at then some (f, row) else some existing

unfoldable pub best_in :
    String → String → List EntryRow → Option (String × EntryRow) → Option (String × EntryRow)
unfolding newer_pair
best_in f j [] found = found
best_in f j (row ∷ rows) found =
    best_in f j rows (if row.entry_id == j then newer_pair f row found else found)

lookup-keep_row :
    (f j : String) (row : EntryRow) (m : HashMap (String × EntryRow))
    → lookup j (keep_row f row m)
      ≡ (if row.entry_id == j then newer_pair f row (lookup j m) else lookup j m)
unfolding keep_row newer_pair
lookup-keep_row f j row m =
    ground (arith, lookup-put row.entry_id j (f, row) m, str_eq_iff row.entry_id j)

-- The map of `list_entry_rows` holds, for every entry, what that entry alone would see.
pub lookup-keep_latest :
    (f j : String) (rows : List EntryRow) (m : HashMap (String × EntryRow))
    → lookup j (keep_latest f rows m) ≡ best_in f j rows (lookup j m)
unfolding keep_latest best_in
lookup-keep_latest f j [] m = refl
lookup-keep_latest f j (row ∷ rows) m =
    lookup-keep_latest f j rows (keep_row f row m)
    ∙ ap (best_in f j rows) (lookup-keep_row f j row m)

-- Every row stands under its own id.
abbrev pub Keyed : HashMap (String × EntryRow) → Type 0
Keyed m = All (λ e. e.0 ≡ e.1.1.entry_id) m

Keyed-put :
    (f : String) (row : EntryRow) (m : HashMap (String × EntryRow))
    → Keyed m
    → Keyed (put row.entry_id (f, row) m)
unfolding put
Keyed-put f row [] h = (refl, tt)
Keyed-put f row ((k, v) ∷ m) (e, h) =
    elim (k == row.entry_id)
      as (λ b.
        Keyed (if b then (row.entry_id, (f, row)) ∷ m else (k, v) ∷ put row.entry_id (f, row) m)) [
          | true ↦ (refl, h)
          | false ↦ (e, Keyed-put f row m h)
        ]

Keyed-keep_row :
    (f : String) (row : EntryRow) (m : HashMap (String × EntryRow))
    → Keyed m
    → Keyed (keep_row f row m)
unfolding keep_row
Keyed-keep_row f row m h = kept (lookup row.entry_id m)
  where
    newer : (b : Bool) → Keyed (if b then put row.entry_id (f, row) m else m)
    newer true = Keyed-put f row m h
    newer false = h

    kept :
        (o : Option (String × EntryRow))
        → Keyed (elim o [
          | none ↦ put row.entry_id (f, row) m
          | some existing ↦
              if f64_ge row.updated_at existing.1.updated_at then put row.entry_id (f, row) m else m
        ])
    kept none = Keyed-put f row m h
    kept (some existing) = newer (f64_ge row.updated_at existing.1.updated_at)

pub Keyed-keep_latest :
    (f : String) (rows : List EntryRow) (m : HashMap (String × EntryRow))
    → Keyed m
    → Keyed (keep_latest f rows m)
unfolding keep_latest
Keyed-keep_latest f [] m h = h
Keyed-keep_latest f (row ∷ rows) m h =
    Keyed-keep_latest f rows (keep_row f row m) (Keyed-keep_row f row m h)

-- Finding by the row is looking up by the key.
pub form_of_entry-into_values :
    (j : String) (m : HashMap (String × EntryRow))
    → Keyed m
    → form_of_entry j (into_values m) ≡ map_option (λ e. e.0) (lookup j m)
unfolding form_of_entry into_values lookup
form_of_entry-into_values j [] h = refl
form_of_entry-into_values j ((k, (f, row)) ∷ m) (e, h) =
    rw e (ground (arith, form_of_entry-into_values j m h))

-- Within one form, what is best is the latest row.
pub best_in-latest_entry :
    (f j : String) (rows : List EntryRow) (selected : Option EntryRow)
    → best_in f j rows (map_option (λ row. (f, row)) selected)
      ≡ map_option (λ row. (f, row)) (latest_entry j rows selected)
unfolding best_in newer_pair latest_entry newer_entry
best_in-latest_entry f j [] selected = refl
best_in-latest_entry f j (row ∷ rows) selected =
    ap (best_in f j rows) (pair_up (row.entry_id == j) selected)
    ∙ best_in-latest_entry f j rows
        (if row.entry_id == j then newer_entry row selected else selected)
  where
    pair_up :
        (b : Bool) (o : Option EntryRow)
        → (if b then newer_pair f row (map_option (λ r. (f, r)) o) else map_option (λ r. (f, r)) o)
          ≡ map_option (λ r. (f, r)) (if b then newer_entry row o else o)
    pair_up true none = refl
    pair_up true (some r) = ground arith
    pair_up false o = refl

-- No row of these is of the entry.
abbrev pub Absent : String → List EntryRow → Type 0
Absent j rows = All (λ row. (row.entry_id == j) ≡ false) rows

pub best_in-Absent :
    (f j : String) (rows : List EntryRow) (found : Option (String × EntryRow))
    → Absent j rows
    → best_in f j rows found ≡ found
unfolding best_in
best_in-Absent f j [] found h = refl
best_in-Absent f j (row ∷ rows) found (e, h) = rw e (best_in-Absent f j rows found h)

best_in-some :
    (f j : String) (rows : List EntryRow) (v : String × EntryRow)
    → (w : String × EntryRow) × (best_in f j rows (some v) ≡ some w)
unfolding best_in newer_pair
best_in-some f j [] v = (v, refl)
best_in-some f j (row ∷ rows) v =
    elim (row.entry_id == j)
      as (λ b.
        (w : String × EntryRow) × (best_in f j rows
            (if b then newer_pair f row (some v) else some v)
          ≡ some w)) [
            | false ↦ best_in-some f j rows v
            | true ↦
                elim (f64_ge row.updated_at v.1.updated_at)
                  as (λ b.
                    (w : String × EntryRow) × (best_in f j rows
                        (if b then some (f, row) else some v)
                      ≡ some w)) [
                        | true ↦ best_in-some f j rows (f, row)
                        | false ↦ best_in-some f j rows v
                      ]
          ]

-- Where nothing is found, there was nothing.
pub best_in-none :
    (f j : String) (rows : List EntryRow) (found : Option (String × EntryRow))
    → best_in f j rows found ≡ none
    → (found ≡ none) × Absent j rows
unfolding best_in newer_pair
best_in-none f j [] found h = (h, tt)
best_in-none f j (row ∷ rows) (some v) h =
    let (w, e) = best_in-some f j (row ∷ rows) v in absurd (cc)
best_in-none f j (row ∷ rows) none h = elim (Bool-cases (row.entry_id == j)) [
  | inl e ↦
      let (w, k) = best_in-some f j rows (f, row) in
      let gone : best_in f j rows (some (f, row)) ≡ none = rw e at h in absurd (cc)
  | inr e ↦ (refl, (e, (best_in-none f j rows none (rw e at h)).1))
]
