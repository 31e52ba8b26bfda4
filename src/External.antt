-- ===== src/External.antt =====
-- Functions of the crates that the sources call and that are not part of the repository. They are
-- a parameter of the modules that use them.
use ugoite.Common.{String, Option}
use ugoite.Json.{Value}

pub record External : Type 0 where
  -- `serde_json::to_string` and `serde_json::from_str`
  pub to_string : Value → String
  pub from_str : String → Option Value
  -- `hex::encode(Sha256::digest(text))`
  pub sha256_hex : String → String
  -- `str::to_lowercase`, by the Unicode case tables
  pub to_lowercase : String → String
