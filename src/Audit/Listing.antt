-- ===== src/Audit/Listing.antt =====
-- Listing the audit log, and the identifier of a space (`list_audit_events`, `validate_space_id` of
-- ugoite-core/src/audit.rs).
use Prim.Native.Char.{code}
use Prim.Native.String.{count}
use ugoite.Common.{
  ℕ, ◌-◌, ◌≤◌, min, String, ◌≡◌, ◌≢◌, refl, ap, ◌⊎◌, Bool, true, false, Option, none, some, List,
  [], ◌∷◌, arith, ok, >>=-inv, ◌∙◌, ◌==◌, str_eq_iff, length, length-sort_by, length-take,
  length-drop, drop, retain, sort_by, All, All-take, Among, All-Among, All-drop, All-sort_by,
  Bool-cases, inl, inr, ok-injective,
}
use ugoite.External.{External}
use ugoite.Json.{Value, object, string, Fields}
use ugoite.Json.Object.{get_str}
use ugoite.Audit.Space.{AuditListOptions, validate_space_id}
use ugoite.Audit.Hash.{verify_chain}
use ugoite.Audit.Log.{
  Files, AuditPage, filter_text, outcome_filter, field_matches, is_selected, newest_first, page_of,
  read_events, list_audit_events,
}

-- The events of a list that a test lets through.
All-retain {ℓ κ μ} :
    {A : Type ℓ} (P : A → Type κ) (Q : A → Type μ) (p : A → Bool) (xs : List A)
    → ((a : A) → p a ≡ true → P a)
    → All Q xs
    → All (λ a. P a × Q a) (retain p xs)
unfolding retain
All-retain P Q p [] h q = tt
All-retain P Q p (x ∷ xs) h (q, qs) = elim (Bool-cases (p x)) [
  | inl yes_p ↦ rw yes_p ((h x yes_p, q), All-retain P Q p xs h qs)
  | inr no_p ↦ rw no_p (All-retain P Q p xs h qs)
]

-- What a filter asks of a field of an event, if it is set.
abbrev pub Asks : String → Option String → Fields → Type 0
Asks key none obj = Unit
Asks key (some text) obj = get_str key obj ≡ some text

module _ (x : External) (options : AuditListOptions) where
  -- An event that meets every filter that is set.
  abbrev pub IsWanted : Value → Type 0
  IsWanted event =
      (obj : Fields) × (event ≡ object obj)
      × Asks "action" (filter_text options.action) obj
      × Asks "actor_user_id" (filter_text options.actor_user_id) obj
      × Asks "outcome" (outcome_filter x options.outcome) obj

field_matches-Asks :
    (key : String) (filter : Option String) (obj : Fields)
    → field_matches key filter obj ≡ true
    → Asks key filter obj
unfolding field_matches
field_matches-Asks key none obj h = tt
field_matches-Asks key (some text) obj h = found (get_str key obj) h
  where
    found :
        (o : Option String) → elim o [ none ↦ false | some s ↦ s == text ] ≡ true → o ≡ some text
    found none e = cc
    found (some s) e = ap some ((str_eq_iff s text).0 e)

is_selected-IsWanted :
    (x : External) (options : AuditListOptions) (event : Value)
    → is_selected x options event ≡ true
    → IsWanted x options event
unfolding is_selected
is_selected-IsWanted x options (object obj) h = (
  obj,
  refl,
  field_matches-Asks "action" (filter_text options.action) obj (ground arith),
  field_matches-Asks "actor_user_id" (filter_text options.actor_user_id) obj (ground arith),
  field_matches-Asks "outcome" (outcome_filter x options.outcome) obj (ground arith),
)
is_selected-IsWanted x options (string s) h = cc
is_selected-IsWanted x options _ h = cc

-- A page comes from the events of the log of the space that was asked for, which verify. Every event
-- on it is one of these and meets the filters; it holds at most its
-- limit, from 1 to 500 whatever was asked for; the total counts all the events that are selected,
-- and the page holds as many of those behind the offset as the limit lets it.
pub list-page :
    (x : External) (files : Files) (space_id : String) (options : AuditListOptions)
    (page : AuditPage)
    → list_audit_events x files space_id options ≡ ok page
    → (safe_id : String) × (events : List Value) × (validate_space_id space_id ≡ ok safe_id)
      × (read_events x files safe_id ≡ ok events)
      × (verify_chain x events ≡ ok tt)
      × All (λ event. IsWanted x options event × Among event events) page.items
      × (1 ≤ page.limit)
      × (page.limit ≤ 500)
      × (page.total ≡ length (retain (is_selected x options) events))
      × (length page.items ≡ min page.limit (page.total - options.offset))
unfolding list_audit_events page_of
list-page x files space_id options page h = >>=-inv (validate_space_id space_id) _ h λ safe e0 h0.
    >>=-inv (read_events x files safe) _ h0 λ events e1 h1.
      >>=-inv (verify_chain x events) _ h1 λ done verified h2.
        let selected : List Value = retain (is_selected x options) events in
        let sorted : List Value = sort_by newest_first selected in
        let IsListed : Value → Type 0 = λ event. IsWanted x options event × Among event events in
        let wanted = All-sort_by IsListed newest_first selected (
          All-retain (IsWanted x options) (λ event. Among event events) (is_selected x options)
            events (is_selected-IsWanted x options) (All-Among events)) in
        rw (← ok-injective h2) (
          safe,
          events,
          e0,
          e1,
          verified,
          All-take IsListed _ (drop options.offset sorted)
              (All-drop IsListed options.offset sorted wanted),
          ground arith,
          ground arith,
          length-sort_by newest_first selected,
          length-take _ (drop options.offset sorted)
              ∙ ap (min _) (length-drop options.offset sorted),
        )

-- The characters that a space identifier may hold: letters, digits, ".", "_" and "-".
abbrev pub IsSpaceChar : ℕ → Type 0
IsSpaceChar c =
    ((b'a' ≤ c) × (c ≤ b'z'))
    ⊎ ((b'A' ≤ c) × (c ≤ b'Z'))
    ⊎ ((b'0' ≤ c) × (c ≤ b'9'))
    ⊎ (c ≡ b'.')
    ⊎ (c ≡ b'_')
    ⊎ (c ≡ b'-')

abbrev pub AllSpaceChars : String → Type 0
AllSpaceChars String.[] = Unit
AllSpaceChars (String.◌∷◌ c s) = IsSpaceChar (code c) × AllSpaceChars s

-- It starts with a letter or a digit, so it is neither "." nor "..".
abbrev pub IsSpaceId : String → Type 0
IsSpaceId String.[] = ⊥
IsSpaceId (String.◌∷◌ c s) =
    (code c ≢ b'.') × IsSpaceChar (code c) × AllSpaceChars s × (count s ≤ 127)
