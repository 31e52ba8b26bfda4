-- ===== src/Audit/Space.antt =====
-- The identifier of a space, the limits of the audit log and the options of a listing
-- (ugoite-core/src/audit.rs).
use Prim.Native.Char.{code}
use Prim.Native.String.{count}
use ugoite.Common.{
  ℕ, String, Bool, true, false, ◌&&◌, ◌||◌, not, Option, none, some, Result, ok, guard, ◌>>◌, ltb,
  leb, nat_eq, if◌then◌else◌,
}
use ugoite.Common.Text.{trim, is_empty}

abbrev default_audit_limit : ℕ
default_audit_limit = 100

abbrev pub max_audit_limit : ℕ
max_audit_limit = 500

abbrev pub default_audit_retention : ℕ
default_audit_retention = 5000

abbrev pub max_audit_retention : ℕ
max_audit_retention = 50000

pub record AuditListOptions : Type 0 where
  pub offset : ℕ
  pub limit : ℕ
  pub action : Option String
  pub actor_user_id : Option String
  pub outcome : Option String

-- `AuditListOptions::default`
abbrev pub default_options : AuditListOptions
default_options = record {
  offset = 0;
  limit = default_audit_limit;
  action = none;
  actor_user_id = none;
  outcome = none;
}

-- `Ord::clamp`
abbrev pub clamp : ℕ → ℕ → ℕ → ℕ
clamp lo hi n = if ltb n lo then lo else if ltb hi n then hi else n

abbrev pub unwrap_or {ℓ} : {A : Type ℓ} → Option A → A → A
unwrap_or none d = d
unwrap_or (some a) d = a

unfoldable pub normalize_retention_limit : Option ℕ → ℕ
normalize_retention_limit limit =
    clamp 100 max_audit_retention (unwrap_or limit default_audit_retention)

-- Digits, letters and the punctuation of the pattern `[a-zA-Z0-9._-]`.
unfoldable pub is_alnum : ℕ → Bool
is_alnum c = (leb b'a' c && leb c b'z') || (leb b'A' c && leb c b'Z') || (leb b'0' c && leb c b'9')

unfoldable pub is_space_char : ℕ → Bool
unfolding is_alnum
is_space_char c = is_alnum c || nat_eq c b'.' || nat_eq c b'_' || nat_eq c b'-'

unfoldable pub all_space_chars : String → Bool
unfolding is_space_char
all_space_chars String.[] = true
all_space_chars (String.◌∷◌ c s) = is_space_char (code c) && all_space_chars s

-- `^[a-zA-Z0-9][a-zA-Z0-9._-]{0,127}$`
unfoldable pub is_space_id : String → Bool
unfolding all_space_chars
is_space_id String.[] = false
is_space_id (String.◌∷◌ c s) = is_alnum (code c) && all_space_chars s && leb (count s) 127

unfoldable pub validate_space_id : String → Result String String
unfolding is_space_id
validate_space_id space_id = do
  let normalized = trim space_id
  guard (not (is_empty normalized)) "space_id must not be empty"
  guard (is_space_id normalized) "invalid space_id"
  ok normalized
