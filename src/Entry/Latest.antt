-- ===== src/Entry/Latest.antt =====
-- The latest row of an entry in a growing table (`read_entry_row` and `latest_revision_for_entry`,
-- ugoite-core/src/entry.rs), and the order of the times.
use ugoite.Common.{
  ℕ, ◌<◌, ◌^◌, String, ◌≡◌, refl, ap, ◌∙◌, true, false, Option, none, some, List, [], ◌∷◌, ◌++◌,
  map, arith, ◌==◌, if◌then◌else◌, str_eq_iff, Bool, Bool-cases, inl, inr,
}
use ugoite.Json.{F64}
use ugoite.Json.Float.{f64_cmp}
use ugoite.Entry.Types.{EntryRow, RevisionRow}
use ugoite.Entry.Cells.{pos}
use ugoite.Entry.Rows.{FloatOps, millisecond, to_timestamp_micros, from_timestamp_micros}
use ugoite.Entry.Store.{
  f64_ge, newer_entry, latest_entry, with_revision, newer_revision, latest_revision,
}

-- What the code relies on of f64: a time up to 2^51 microseconds, which is in the year 2041, is not
-- passed by rounding a later one to microseconds, and adding a millisecond does not go back.
pub record FloatLaws (floats : FloatOps) : Type 0 where
  pub keeps_order :
      (m : ℕ) (t : F64)
      → m < 2 ^ 51
      → f64_ge t (from_timestamp_micros floats (pos m)) ≡ true
      → f64_ge
          (from_timestamp_micros floats (to_timestamp_micros floats t))
          (from_timestamp_micros floats (pos m))
        ≡ true
  pub adds : (t : F64) → f64_ge (floats.add t millisecond) t ≡ true

pub f64_ge_refl : (a : F64) → f64_ge a a ≡ true
unfolding f64_ge f64_cmp
f64_ge_refl a = ground arith

pub f64_ge_total : (a b : F64) → f64_ge a b ≡ false → f64_ge b a ≡ true
unfolding f64_ge f64_cmp
f64_ge_total a b h = ground arith

pub f64_ge_trans : (a b c : F64) → f64_ge a b ≡ true → f64_ge b c ≡ true → f64_ge a c ≡ true
unfolding f64_ge f64_cmp
f64_ge_trans a b c h k = ground arith

pub map_append {ℓ κ} :
    {A : Type ℓ} {B : Type κ} (f : A → B) (xs ys : List A) → map f (xs ++ ys) ≡ map f xs ++ map f ys
map_append f [] ys = refl
map_append f (x ∷ xs) ys = ap (λ zs. f x ∷ zs) (map_append f xs ys)

pub latest_entry-append :
    (j : String) (xs ys : List EntryRow) (selected : Option EntryRow)
    → latest_entry j (xs ++ ys) selected ≡ latest_entry j ys (latest_entry j xs selected)
unfolding latest_entry
latest_entry-append j [] ys selected = refl
latest_entry-append j (x ∷ xs) ys selected =
    latest_entry-append j xs ys (if x.entry_id == j then newer_entry x selected else selected)

pub latest_revision-append :
    (j : String) (xs ys : List RevisionRow) (selected : Option RevisionRow)
    → latest_revision j (xs ++ ys) selected ≡ latest_revision j ys (latest_revision j xs selected)
unfolding latest_revision
latest_revision-append j [] ys selected = refl
latest_revision-append j (x ∷ xs) ys selected =
    latest_revision-append j xs ys (if x.entry_id == j then newer_revision x selected else selected)

-- A row of the entry that is not older than the latest one becomes the latest.
pub latest_entry-newest :
    (j : String) (xs : List EntryRow) (row : EntryRow)
    → row.entry_id ≡ j
    → newer_entry row (latest_entry j xs none) ≡ some row
    → latest_entry j (xs ++ row ∷ []) none ≡ some row
unfolding latest_entry
latest_entry-newest j xs row e h =
    latest_entry-append j xs (row ∷ []) none
    ∙ (let same : (row.entry_id == j) ≡ true = ground (arith, str_eq_iff row.entry_id j) in
        rw same h)

pub latest_revision-newest :
    (j : String) (xs : List RevisionRow) (row : RevisionRow)
    → row.entry_id ≡ j
    → newer_revision row (latest_revision j xs none) ≡ some row
    → latest_revision j (xs ++ row ∷ []) none ≡ some row
unfolding latest_revision
latest_revision-newest j xs row e h =
    latest_revision-append j xs (row ∷ []) none
    ∙ (let same : (row.entry_id == j) ≡ true = ground (arith, str_eq_iff row.entry_id j) in
        rw same h)

-- The latest row of an entry is one of the entry.
pub latest_entry-id :
    (j : String) (rows : List EntryRow) (selected : Option EntryRow) {row : EntryRow}
    → ((r : EntryRow) → selected ≡ some r → r.entry_id ≡ j)
    → latest_entry j rows selected ≡ some row
    → row.entry_id ≡ j
unfolding latest_entry newer_entry
latest_entry-id j [] selected h e = h _ e
latest_entry-id j (x ∷ rows) selected h e =
    latest_entry-id j rows (if x.entry_id == j then newer_entry x selected else selected)
      (kept (x.entry_id == j) refl selected h) e
  where
    kept :
        (b : Bool)
        → (x.entry_id == j) ≡ b
        → (o : Option EntryRow) → ((r : EntryRow) → o ≡ some r → r.entry_id ≡ j)
        → (r : EntryRow) → (if b then newer_entry x o else o) ≡ some r
        → r.entry_id ≡ j
    kept false e' o g r k = g r k
    kept true e' none g r k = ground (arith, str_eq_iff x.entry_id j)
    kept true e' (some s) g r k = elim (Bool-cases (f64_ge x.updated_at s.updated_at)) [
      | inl n ↦
          let same : ◌≡◌ {A = Option EntryRow} (some x) (some r) = rw n at k in
          let is_x : x ≡ r = cc in rw (← is_x) (ground (arith, str_eq_iff x.entry_id j))
      | inr n ↦ g r (rw n at k)
    ]

pub with_revision-updated_at :
    (latest : Option RevisionRow) (row : EntryRow)
    → (with_revision latest row).updated_at ≡ row.updated_at
unfolding with_revision
with_revision-updated_at none row = refl
with_revision-updated_at (some latest) row = refl

pub with_revision-entry_id :
    (latest : Option RevisionRow) (row : EntryRow)
    → (with_revision latest row).entry_id ≡ row.entry_id
unfolding with_revision
with_revision-entry_id none row = refl
with_revision-entry_id (some latest) row = refl
