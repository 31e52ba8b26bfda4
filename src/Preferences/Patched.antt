-- ===== src/Preferences/Patched.antt =====
-- What is read of the preferences after a patch (ugoite-core/src/preferences.rs).
use ugoite.Common.{String, Option, none, some, Result, ok}
use ugoite.Preferences.{UserPreferences, default_preferences, PreferenceCrates}

module _ (crates : PreferenceCrates) where
  open crates use {to_text, from_text}

  -- What the file of a user reads as.
  abbrev read_file : Option String → Result String UserPreferences
  read_file none = ok default_preferences
  read_file (some text) = from_text text
