-- ===== src/Preferences/Tests.antt =====
-- A user who chooses a locale, under a codec of one locale.
use ugoite.Common.{some, ok}
use ugoite.Json.{Value, null, string, object, field, end}
use ugoite.Preferences.{UserPreferences, default_preferences, ja, PreferenceCrates}

abbrev japanese : UserPreferences
japanese = record default_preferences { locale = some ja }

abbrev crates : PreferenceCrates
crates = record {
  to_value = λ p. object (field "locale" null end);
  from_value = λ v. ok japanese;
  to_text = λ p. "{\"locale\":\"ja\"}";
  from_text = λ s. ok japanese;
  sha256_hex = λ s. s;
}

abbrev patch : Value
patch = object (field "locale" (string "ja") end)
