-- ===== src/Entry/Sections.antt =====
-- The Markdown of an entry: its title, its frontmatter, its sections and its links
-- (`extract_title` to `normalize_ugoite_link`, `extract_tags` and `extract_form` of
-- ugoite-core/src/entry.rs).
use Prim.Native.Char.{code}
use Prim.Native.String as Native
use ugoite.Common.{
  String, ◌&&◌, ◌||◌, not, Option, none, some, List, [], ◌∷◌, ◌++◌, ◌==◌, if◌then◌else◌,
}
use ugoite.Common.Text.{
  ◌⧺◌, trim, is_empty, is_whitespace, eq_ignore_ascii_case, starts_with, lines, strip_prefix,
  trim_start_matches, join,
}
use ugoite.Json.{Value, string, array, object, Values, nil, cons, Fields, end, as_str}
use ugoite.Json.Object.{insert, value_get}

-- `Url::parse`, as far as the code looks at it.
pub record Url : Type 0 where
  pub host_str : Option String
  pub path : String
  pub query_pairs : List (String × String)

-- The crates `regex`, `serde_yaml` and `url`, and the Unicode case tables.
pub record MarkdownCrates : Type 0 where
  -- The captures of `(?s)^---\s*\n(.*?)\n---\s*\n`: its group, and the text after the match.
  pub match_frontmatter : String → Option (String × String)
  -- `serde_yaml::from_str`, then `serde_json::to_value`
  pub yaml_to_json : String → Option Value
  -- `replace_all` of the matches of `ugoite://[^\s)]+`
  pub replace_links : (String → String) → String → String
  pub parse_url : String → Option Url
  pub lowercase : String → String

-- The heading of a section, `^##\s+(.+)$`, trimmed: after the white space there is something, which
-- the expression finds if at least one character follows the first space.
unfoldable pub header_key : String → Option String
header_key line = elim (strip_prefix "##" line) [
  | none ↦ none
  | some Native.[] ↦ none
  | some (Native.◌∷◌ c s) ↦
      if is_whitespace (code c) && not (is_empty s) then some (trim s) else none
]

-- A section that ends is kept with its text; lines before the first heading are dropped.
unfoldable pub close_section :
    Option String → List String → List (String × String) → List (String × String)
unfolding join trim
close_section none buffer sections = sections
close_section (some key) buffer sections = (key, trim (join "\n" buffer)) ∷ sections

unfoldable pub push_line : Option String → List String → String → List String
push_line none buffer line = buffer
push_line (some key) buffer line = buffer ++ line ∷ []

-- The loop over the lines, with the current heading and the lines that stand below it.
unfoldable pub scan_sections : Option String → List String → List String → List (String × String)
unfolding header_key close_section push_line starts_with
scan_sections key buffer [] = close_section key buffer []
scan_sections key buffer (line ∷ rest) = elim (header_key line) [
  | some next ↦ close_section key buffer (scan_sections (some next) [] rest)
  | none ↦
      if starts_with "#" line
      then close_section key buffer (scan_sections none [] rest)
      else scan_sections key (push_line key buffer line) rest
]

unfoldable pub section_map : List (String × String) → Fields → Fields
unfolding insert
section_map [] sections = sections
section_map ((key, text) ∷ rest) sections = section_map rest (insert key (string text) sections)

unfoldable pub extract_sections : String → Value
unfolding scan_sections section_map lines
extract_sections body = object (section_map (scan_sections none [] (lines body)) end)

unfoldable pub title_of : List String → String → String
unfolding strip_prefix trim
title_of [] fallback = fallback
title_of (line ∷ rest) fallback = elim (strip_prefix "# " line) [
  | none ↦ title_of rest fallback
  | some stripped ↦ trim stripped
]

unfoldable pub extract_title : String → String → String
unfolding title_of lines
extract_title content fallback = title_of (lines content) fallback

-- `items.iter().filter_map(|v| v.as_str())`
unfoldable pub tag_texts : Values → List String
tag_texts nil = []
tag_texts (cons (string s) vs) = s ∷ tag_texts vs
tag_texts (cons _ vs) = tag_texts vs

unfoldable pub extract_tags : Value → List String
unfolding value_get tag_texts
extract_tags frontmatter = elim (value_get "tags" frontmatter) [
  | some (array vs) ↦ tag_texts vs
  | some (string tag) ↦ tag ∷ []
  | _ ↦ []
]

unfoldable pub extract_form : Value → Option String
unfolding value_get
extract_form frontmatter = elim (value_get "form" frontmatter) [ none ↦ none | some v ↦ as_str v ]

unfoldable pub canonical_kind : String → String
canonical_kind kind =
    if kind == "entries" || kind == "entry"
    then "entry"
    else (if kind == "assets" || kind == "asset" then "asset" else kind)

-- The first `id` of the query that is not empty.
unfoldable pub id_of_query : List (String × String) → String
unfolding eq_ignore_ascii_case
id_of_query [] = ""
id_of_query ((key, value) ∷ pairs) =
    let rest = id_of_query pairs in
    if eq_ignore_ascii_case key "id" && not (is_empty value) then value else rest

abbrev pub text_or_empty : Option String → String
text_or_empty none = ""
text_or_empty (some s) = s

unfoldable pub link_path : Url → String
unfolding trim_start_matches id_of_query
link_path url =
    let path = trim_start_matches b'/' url.path in
    if is_empty path then id_of_query url.query_pairs else path

module _ (crates : MarkdownCrates) where
  open crates use {match_frontmatter, yaml_to_json, replace_links, parse_url, lowercase}

  unfoldable pub normalize_ugoite_link : String → String
  unfolding canonical_kind link_path
  normalize_ugoite_link raw = elim (parse_url raw) [
    | none ↦ raw
    | some url ↦
        let kind = canonical_kind (lowercase (text_or_empty url.host_str)) in
        let path = link_path url in
        if is_empty path || is_empty kind then raw else "ugoite://" ⧺ kind ⧺ "/" ⧺ path
  ]

  unfoldable pub normalize_ugoite_links : String → String
  unfolding normalize_ugoite_link
  normalize_ugoite_links content = replace_links normalize_ugoite_link content

  unfoldable pub extract_frontmatter : String → Value × String
  extract_frontmatter content = elim (match_frontmatter content) [
    | none ↦ (object end, content)
    | some (yaml, body) ↦ elim (yaml_to_json yaml) [
      | none ↦ (object end, body)
      | some frontmatter ↦ (frontmatter, body)
    ]
  ]

  unfoldable pub parse_markdown : String → Value × Value
  unfolding extract_frontmatter extract_sections
  parse_markdown content =
      let parts = extract_frontmatter content in (parts.0, extract_sections parts.1)
