-- ===== src/Entry/Growth/Prefixes.antt =====
-- Tables that keep the rows of earlier ones in their place.
use ugoite.Common.{
  String, ◌≡◌, refl, ap, sym, ◌∙◌, subst, Bool-cases, inl, inr, Option, some, List, [], ◌∷◌, ◌++◌,
  arith, ◌==◌, str_eq_iff,
}
use ugoite.Common.Maps.{lookup, put}
use ugoite.Entry.Store.{Store, FormTables}

-- `ys` starts with the rows `xs`.
abbrev pub IsPrefix {ℓ} : {A : Type ℓ} → List A → List A → Type ℓ
IsPrefix xs ys = (more : List _) × (xs ++ more ≡ ys)

append_assoc {ℓ} : {A : Type ℓ} (xs ys zs : List A) → xs ++ ys ++ zs ≡ xs ++ (ys ++ zs)
append_assoc [] ys zs = refl
append_assoc (x ∷ xs) ys zs = ap (λ l. x ∷ l) (append_assoc xs ys zs)

append_nil {ℓ} : {A : Type ℓ} (xs : List A) → xs ++ [] ≡ xs
append_nil [] = refl
append_nil (x ∷ xs) = ap (λ l. x ∷ l) (append_nil xs)

pub IsPrefix-refl {ℓ} : {A : Type ℓ} (xs : List A) → IsPrefix xs xs
IsPrefix-refl xs = ([], append_nil xs)

IsPrefix-trans {ℓ} :
    {A : Type ℓ} (xs ys zs : List A) → IsPrefix xs ys → IsPrefix ys zs → IsPrefix xs zs
IsPrefix-trans xs ys zs (m, h) (n, k) = (m ++ n, sym (append_assoc xs m n) ∙ ap (λ l. l ++ n) h ∙ k)

-- A form keeps its definition and its columns, and its tables start with the rows that they had.
pub record Grows (old new : FormTables) : Type 0 where
  pub definition : old.definition ≡ new.definition
  pub field_names : old.field_names ≡ new.field_names
  pub entries : IsPrefix old.entry_rows new.entry_rows
  pub revisions : IsPrefix old.revision_rows new.revision_rows

Grows-refl : (form : FormTables) → Grows form form
Grows-refl form = record {
  definition = refl;
  field_names = refl;
  entries = IsPrefix-refl form.entry_rows;
  revisions = IsPrefix-refl form.revision_rows;
}

Grows-trans : (a b c : FormTables) → Grows a b → Grows b c → Grows a c
Grows-trans a b c g h = record {
  definition = g.definition ∙ h.definition;
  field_names = g.field_names ∙ h.field_names;
  entries = IsPrefix-trans a.entry_rows b.entry_rows c.entry_rows g.entries h.entries;
  revisions =
      IsPrefix-trans a.revision_rows b.revision_rows c.revision_rows g.revisions h.revisions;
}

-- The same forms, each grown.
abbrev pub Extends : Store → Store → Type 0
Extends [] [] = Unit
Extends [] (_ ∷ _) = ⊥
Extends (_ ∷ _) [] = ⊥
Extends ((f, old) ∷ store) ((g, new) ∷ after) = (f ≡ g) × Grows old new × Extends store after

pub Extends-refl : (store : Store) → Extends store store
Extends-refl [] = tt
Extends-refl ((f, form) ∷ store) = (refl, Grows-refl form, Extends-refl store)

pub Extends-trans : (a b c : Store) → Extends a b → Extends b c → Extends a c
Extends-trans [] [] c g h = h
Extends-trans ((f, x) ∷ a) ((_, y) ∷ b) ((_, z) ∷ c) (e, g, r) (e', h, s) =
    (e ∙ e', Grows-trans x y z g h, Extends-trans a b c r s)
Extends-trans [] (_ ∷ b) c g h = elim g [ ]
Extends-trans ((f, x) ∷ a) [] c g h = elim g [ ]
Extends-trans ((f, x) ∷ a) ((_, y) ∷ b) [] g h = elim h [ ]

pub Extends-put :
    (f : String) (form new : FormTables) (store : Store)
    → lookup f store ≡ some form
    → Grows form new
    → Extends store (put f new store)
unfolding lookup put
Extends-put f form new [] l g = cc
Extends-put f form new ((k, old) ∷ store) l g = elim (Bool-cases (k == f)) [
  | inl e ↦
      let same : k ≡ f = ground (arith, str_eq_iff k f) in
      let here : ◌≡◌ {A = Option FormTables} (some old) (some form) = rw e at l in
      let found : old ≡ form = cc in
      rw e (same, subst (λ o. Grows o new) (sym found) g, Extends-refl store)
  | inr e ↦
      let rest : lookup f store ≡ some form = rw e at l in
      rw e (refl, Grows-refl old, Extends-put f form new store rest g)
]
