-- ===== src/Session/Pages.antt =====
-- The pages of a session (`get_sql_session_rows`, ugoite-core/src/sql_session.rs).
use ugoite.Common.{
  ℕ, zero, suc, ◌+◌, ◌-◌, ◌%◌, ◌^◌, ◌≤◌, ◌<◌, min, ◌≡◌, refl, sym, ap, ◌∙◌, List, [], ◌∷◌, ◌++◌, ok,
  err, arith, ok-injective, length, take, drop, leb, ◌&&◌, true, false,
}
use ugoite.Json.{Value}
use ugoite.Session.{SessionPage, slice, session_page}

take-nil : (n : ℕ) → take {A = Value} n [] ≡ []
take-nil zero = refl
take-nil (suc n) = refl

drop-nil : (n : ℕ) → drop {A = Value} n [] ≡ []
drop-nil zero = refl
drop-nil (suc n) = refl

cut-≡ :
    {m n i j : ℕ} (rows : List Value) → m ≡ i → n ≡ j → take m (drop n rows) ≡ take i (drop j rows)
cut-≡ rows h k = cc

take-≡ : {m i : ℕ} (rows : List Value) → m ≡ i → take m rows ≡ take i rows
take-≡ rows h = cc

take-all : (n : ℕ) (rows : List Value) → take (min n (length rows)) rows ≡ take n rows
take-all zero rows = take-≡ {i = zero} rows (omega arith)
take-all (suc n) [] = take-nil _
take-all (suc n) (row ∷ rows) =
    take-≡ {i = suc (min n (length rows))} (row ∷ rows) (omega arith)
    ∙ ap (λ r. row ∷ r) (take-all n rows)

-- Cutting the bounds of a page to the number of rows leaves the page as it is.
take-min :
    (limit offset : ℕ) (rows : List Value)
    → take
        (min (offset + limit) (length rows) - min offset (length rows))
        (drop (min offset (length rows)) rows)
      ≡ take limit (drop offset rows)
take-min limit zero rows =
    cut-≡ {i = min limit (length rows)} {j = zero} rows (omega arith) (omega arith)
    ∙ take-all limit rows
take-min limit (suc offset) [] = ap (take _) (drop-nil _) ∙ take-nil _ ∙ sym (take-nil limit)
take-min limit (suc offset) (row ∷ rows) =
    cut-≡ {i = min (offset + limit) (length rows) - min offset (length rows)}
      {j = suc (min offset (length rows))} (row ∷ rows) (omega arith) (omega arith)
    ∙ take-min limit offset rows

take-append :
    (a b : ℕ) (rows : List Value) → take a rows ++ take b (drop a rows) ≡ take (a + b) rows
take-append zero b rows = take-≡ rows (omega arith)
take-append (suc a) b [] = take-nil b ∙ sym (take-nil _)
take-append (suc a) b (row ∷ rows) =
    ap (λ r. row ∷ r) (take-append a b rows) ∙ take-≡ {m = suc (a + b)} (row ∷ rows) (omega arith)

drop-≡ : {m i : ℕ} (rows : List Value) → m ≡ i → drop m rows ≡ drop i rows
drop-≡ rows h = cc

drop-drop : (m n : ℕ) (rows : List Value) → drop n (drop m rows) ≡ drop (m + n) rows
drop-drop zero n rows = drop-≡ rows (omega arith)
drop-drop (suc m) n [] = drop-nil n ∙ sym (drop-nil _)
drop-drop (suc m) n (row ∷ rows) =
    drop-drop m n rows ∙ drop-≡ {m = suc (m + n)} (row ∷ rows) (omega arith)

-- A page whose bounds fit a machine word is the rows from the offset on, at most as many as the
-- limit, and the count of all rows.
pub session_page-take :
    (offset limit : ℕ) (rows : List Value)
    → offset + limit < 2 ^ 64
    → session_page offset limit rows
      ≡ ok (record {
        rows = take limit (drop offset rows);
        offset = offset;
        limit = limit;
        total_count = length rows;
      })
unfolding session_page slice
session_page-take offset limit rows h =
    let fits : (offset + limit) % 2 ^ 64 ≡ offset + limit = omega arith in
    let inside : (leb (min offset (length rows)) (min (offset + limit) (length rows))
          && leb (min (offset + limit) (length rows)) (length rows))
        ≡ true =
      ground arith in
    rw (session_page, slice, fits, inside, take-min limit offset rows) refl

-- Two pages, the second from the end of the first, are the page of both limits: paging neither
-- loses nor repeats a row.
pub session_page-append :
    (offset a b : ℕ) (rows : List Value) (first second both : SessionPage)
    → offset + (a + b) < 2 ^ 64
    → session_page offset a rows ≡ ok first
    → session_page (offset + a) b rows ≡ ok second
    → session_page offset (a + b) rows ≡ ok both
    → first.rows ++ second.rows ≡ both.rows
session_page-append offset a b rows first second both h p q r =
    let first_rows : take a (drop offset rows) ≡ first.rows =
      ap (λ s. s.rows) (ok-injective (sym (session_page-take offset a rows (omega arith)) ∙ p)) in
    let second_rows : take b (drop (offset + a) rows) ≡ second.rows =
      ap (λ s. s.rows)
        (ok-injective (sym (session_page-take (offset + a) b rows (omega arith)) ∙ q)) in
    let both_rows : take (a + b) (drop offset rows) ≡ both.rows =
      ap (λ s. s.rows) (ok-injective (sym (session_page-take offset (a + b) rows h) ∙ r)) in
    rw (← first_rows, ← second_rows, ← both_rows, ← drop-drop offset a rows)
      (take-append a b (drop offset rows))

-- Where the end of a page overflows, and wraps to less than the number of rows, the call panics.
pub session_page-overflow :
    (offset limit : ℕ) (rows : List Value)
    → offset < 2 ^ 64
    → limit < 2 ^ 64
    → 2 ^ 64 ≤ offset + limit
    → offset + limit - 2 ^ 64 < length rows
    → session_page offset limit rows ≡ err "slice index out of range"
unfolding session_page slice
session_page-overflow offset limit rows o l over short =
    let wraps : (offset + limit) % 2 ^ 64 ≡ offset + limit - 2 ^ 64 = omega arith in
    let outside : (leb (min offset (length rows)) (min (offset + limit - 2 ^ 64) (length rows))
          && leb (min (offset + limit - 2 ^ 64) (length rows)) (length rows))
        ≡ false =
      ground arith in
    rw (session_page, slice, wraps, outside) refl
