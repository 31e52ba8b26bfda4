-- ===== src/Preferences.antt =====
-- The preferences of a user (ugoite-core/src/preferences.rs). The storage is the map of its files by
-- their paths; the code that serde derives for the preferences is a parameter.
mod Patched
mod Tests
use ugoite.Common.{
  String, Bool, not, Option, none, some, List, [], ◌∷◌, any, ◌==◌, Result, ok, err, guard, ◌>>=◌,
  ◌>>◌,
}
use ugoite.Common.Text.{◌⧺◌}
use ugoite.Common.Maps.{HashMap, lookup, put}
use ugoite.Json.{Value, object, Fields, entries}
use ugoite.Json.Object.{insert}

pub data LocalePreference : Type 0 where
  en : LocalePreference
  ja : LocalePreference

pub data UiThemePreference : Type 0 where
  materialize : UiThemePreference
  classic : UiThemePreference
  pop : UiThemePreference

pub data ColorModePreference : Type 0 where
  light : ColorModePreference
  dark : ColorModePreference

pub data PrimaryColorPreference : Type 0 where
  violet : PrimaryColorPreference
  blue : PrimaryColorPreference
  emerald : PrimaryColorPreference
  amber : PrimaryColorPreference

pub record UserPreferences : Type 0 where
  pub selected_space_id : Option String
  pub locale : Option LocalePreference
  pub ui_theme : Option UiThemePreference
  pub color_mode : Option ColorModePreference
  pub primary_color : Option PrimaryColorPreference

abbrev pub default_preferences : UserPreferences
default_preferences = record {
  selected_space_id = none;
  locale = none;
  ui_theme = none;
  color_mode = none;
  primary_color = none;
}

abbrev user_preference_fields : List String
user_preference_fields =
    "selected_space_id" ∷ "locale" ∷ "ui_theme" ∷ "color_mode" ∷ "primary_color" ∷ []

abbrev pub Files : Type 0
Files = HashMap String

-- What serde derives, and the hash of a user's name in hexadecimal digits.
pub record PreferenceCrates : Type 0 where
  pub to_value : UserPreferences → Value
  pub from_value : Value → Result String UserPreferences
  pub to_text : UserPreferences → String
  pub from_text : String → Result String UserPreferences
  pub sha256_hex : String → String

check_keys : List (String × Value) → Result String (Unit {0})
unfolding any ◌==◌
check_keys [] = ok tt
check_keys ((key, _) ∷ rest) =
    guard (any (λ name. name == key) user_preference_fields) ("Unknown preference field: " ⧺ key)
    >> check_keys rest

unfoldable pub validate_patch : Value → Result String Fields
unfolding check_keys entries
validate_patch (object fields) = check_keys (entries fields) >> ok fields
validate_patch _ = err "preferences patch must be a JSON object"

merge_entries : List (String × Value) → Fields → Fields
unfolding insert
merge_entries [] merged = merged
merge_entries ((key, value) ∷ rest) merged = merge_entries rest (insert key value merged)

-- `merged.as_object_mut()`, then the insertion of each entry.
unfoldable pub merge_patch : Fields → Value → Result String Value
unfolding merge_entries entries
merge_patch patch (object merged) = ok (object (merge_entries (entries patch) merged))
merge_patch patch _ = err "preferences payload must serialize to an object"

module _ (crates : PreferenceCrates) where
  open crates use {to_value, from_value, to_text, from_text, sha256_hex}

  unfoldable pub preferences_path : String → String
  preferences_path user_id = "users/" ⧺ sha256_hex user_id ⧺ "/preferences.json"

  unfoldable pub get_user_preferences : Files → String → Result String UserPreferences
  unfolding lookup preferences_path
  get_user_preferences files user_id = elim (lookup (preferences_path user_id) files) [
    | none ↦ ok default_preferences
    | some text ↦ from_text text
  ]

  -- The preferences that a patch leads to.
  unfoldable pub patched : Files → String → Value → Result String UserPreferences
  unfolding validate_patch get_user_preferences merge_patch
  patched files user_id patch = do
    patch_obj ← validate_patch patch
    current ← get_user_preferences files user_id
    merged ← merge_patch patch_obj (to_value current)
    from_value merged

  unfoldable pub patch_user_preferences :
      Files → String → Value → Result String UserPreferences × Files
  unfolding patched put preferences_path
  patch_user_preferences files user_id patch = elim (patched files user_id patch) [
    | err message ↦ (err message, files)
    | ok preferences ↦ (ok preferences, put (preferences_path user_id) (to_text preferences) files)
  ]
