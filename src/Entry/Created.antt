-- ===== src/Entry/Created.antt =====
-- Creating an entry (`create_entry`, ugoite-core/src/entry.rs).
use ugoite.Common.{
  String, ◌≡◌, refl, subst, Bool, true, false, Option, none, some, Result, ok, guard, ok_or, ◌>>◌,
  >>=-inv, ok-injective,
}
use ugoite.Common.Maps.{lookup}
use ugoite.Entry.Types.{EntryRow}
use ugoite.Entry.Store.{Store, FormTables, load_form, find_entry_form}
use ugoite.Entry.Sections.{parse_markdown, normalize_ugoite_links, extract_form}
use ugoite.Entry.Write.{
  EntryEnv, EntryMeta, is_none, Moment, Change, revision_for, accepted_fields, plan_create,
}
use ugoite.Entry.Appended.{ok_or-some}

guard-inv {ν ℓ} :
    {E : Type ν} {A : Type ℓ} (b : Bool) (failure : E) (next : Result E A) {a : A}
    → (guard b failure >> next) ≡ ok a
    → (b ≡ true) × (next ≡ ok a)
guard-inv true failure next h = (refl, h)
guard-inv false failure next h = cc

is_none-none {ℓ} : {A : Type ℓ} (o : Option A) → is_none o ≡ true → o ≡ none
is_none-none none h = refl
is_none-none (some a) h = cc

module _ (env : EntryEnv) where
  open env use {properties, floats}
  open properties use {columns, markdown}

  -- What a creation that is accepted writes: the first row of the entry, and its first revision.
  pub record IsCreated (moment : Moment) (store : Store) (j : String) (change : Change)
      (meta : EntryMeta) : Type 0 where
    pub f : String
    pub row : EntryRow
    pub sum : String
    pub form : FormTables
    pub missing : find_entry_form columns floats store j ≡ none
    pub is_form : lookup f store ≡ some form
    pub is_change :
        record { form_name = f; entry_row = row; revision = some (revision_for env row sum none) }
        ≡ change
    pub is_id : row.entry_id ≡ j
    pub is_fresh : row.revision_id ≡ moment.uuid
    pub is_live : row.deleted ≡ false

  pub plan_create-IsCreated :
      (moment : Moment) (store : Store) (ws_path j content author : String) {change : Change}
      {meta : EntryMeta}
      → plan_create env moment store ws_path j content author ≡ ok (change, meta)
      → IsCreated moment store j change meta
  unfolding plan_create load_form
  plan_create-IsCreated moment store ws_path j content author h =
      let text = normalize_ugoite_links markdown content in
      let (free, h1) = guard-inv (is_none (find_entry_form columns floats store j)) _ _ h in
      >>=-inv (ok_or (extract_form (parse_markdown markdown text).0) _) _ h1 λ form_name _ h2.
        >>=-inv (ok_or (lookup form_name store) _) _ h2 λ form l h3.
          >>=-inv (accepted_fields env form.definition text (parse_markdown markdown text).1) _ h3
            λ values _ h4.
              subst (λ p. IsCreated moment store j p.0 p.1) (ok-injective h4)
                (record {
                  f = form_name;
                  row = _;
                  sum = env.checksum text;
                  form = form;
                  missing = is_none-none (find_entry_form columns floats store j) free;
                  is_form = ok_or-some _ _ l;
                  is_change = refl;
                  is_id = refl;
                  is_fresh = refl;
                  is_live = refl;
                })
