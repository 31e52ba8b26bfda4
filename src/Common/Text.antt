-- ===== src/Common/Text.antt =====
-- Operations of Rust's `str` that the sources use, over the scalar values of a text.
use Prim.Native.Nat.{ℕ, ◌+◌}
use Prim.Native.Char.{Char, code}
use Prim.Native.String.{String, [], ◌∷◌, ◌++◌ as append}
use mathlib.Core.Bool.{Bool, true, false, ◌&&◌, ◌||◌}
use mathlib.Core.Option.{Option, none, some}
use mathlib.Core.List.{List, [], ◌∷◌}
use ugoite.Common.Tests.{leb, nat_eq, if◌then◌else◌}

infixr 65 ◌⧺◌
-- `format!` and `push_str`
abbrev pub ◌⧺◌ : String → String → String
a ⧺ b = append a b

-- The code points with the property White_Space, which `str::trim` removes.
abbrev pub is_whitespace : ℕ → Bool
is_whitespace c =
    (leb 9 c && leb c 13)
    || nat_eq c 32
    || nat_eq c 133
    || nat_eq c 160
    || nat_eq c 5760
    || (leb 8192 c && leb c 8202)
    || nat_eq c 8232
    || nat_eq c 8233
    || nat_eq c 8239
    || nat_eq c 8287
    || nat_eq c 12288

-- `str::trim_start`
unfoldable pub trim_start : String → String
trim_start [] = []
trim_start (c ∷ s) = if is_whitespace (code c) then trim_start s else c ∷ s

drop_if_last : Char → String → String
drop_if_last c [] = if is_whitespace (code c) then [] else c ∷ []
drop_if_last c (d ∷ s) = c ∷ d ∷ s

-- `str::trim_end`
unfoldable pub trim_end : String → String
unfolding drop_if_last
trim_end [] = []
trim_end (c ∷ s) = drop_if_last c (trim_end s)

-- `str::trim`
unfoldable pub trim : String → String
unfolding trim_start trim_end
trim s = trim_end (trim_start s)

-- `str::is_empty`
abbrev pub is_empty : String → Bool
is_empty [] = true
is_empty (_ ∷ _) = false

-- `str::trim_end_matches`, for one character
drop_matching : ℕ → Char → String → String
drop_matching k c [] = if nat_eq (code c) k then [] else c ∷ []
drop_matching k c (d ∷ s) = c ∷ d ∷ s

unfoldable pub trim_end_matches : ℕ → String → String
unfolding drop_matching
trim_end_matches k [] = []
trim_end_matches k (c ∷ s) = drop_matching k c (trim_end_matches k s)

push_front : Char → List String → List String
push_front c [] = (c ∷ []) ∷ []
push_front c (s ∷ r) = (c ∷ s) ∷ r

-- `str::split`, at one character: never empty
unfoldable pub split : ℕ → String → List String
unfolding push_front
split k [] = [] ∷ []
split k (c ∷ s) = if nat_eq (code c) k then [] ∷ split k s else push_front c (split k s)

-- `u8::to_ascii_lowercase`, on a code point
abbrev pub ascii_lower : ℕ → ℕ
ascii_lower c = if leb b'A' c && leb c b'Z' then c + 32 else c

-- `str::eq_ignore_ascii_case`
unfoldable pub eq_ignore_ascii_case : String → String → Bool
eq_ignore_ascii_case [] [] = true
eq_ignore_ascii_case [] (_ ∷ _) = false
eq_ignore_ascii_case (_ ∷ _) [] = false
eq_ignore_ascii_case (c ∷ s) (d ∷ t) =
    nat_eq (ascii_lower (code c)) (ascii_lower (code d)) && eq_ignore_ascii_case s t

-- `str::starts_with`
unfoldable pub starts_with : String → String → Bool
starts_with [] s = true
starts_with (c ∷ p) [] = false
starts_with (c ∷ p) (d ∷ s) = nat_eq (code c) (code d) && starts_with p s

-- `str::splitn(2, k)`: the text up to the first `k`, and the text after it if there is one.
unfoldable pub splitn_two : ℕ → String → String × Option String
splitn_two k [] = ([], none)
splitn_two k (c ∷ s) =
    let rest = splitn_two k s in if nat_eq (code c) k then ([], some s) else (c ∷ rest.0, rest.1)

-- `str::lines`: a line ends with a line feed, or a carriage return and a line feed.
unfoldable pub lines : String → List String
unfolding push_front starts_with
lines [] = []
lines (c ∷ s) =
    let rest = lines s in
    if nat_eq (code c) 10
    then [] ∷ rest
    else (if nat_eq (code c) 13 && starts_with "\n" s then rest else push_front c rest)

-- `str::strip_prefix`
unfoldable pub strip_prefix : String → String → Option String
strip_prefix [] s = some s
strip_prefix (c ∷ p) [] = none
strip_prefix (c ∷ p) (d ∷ s) = if nat_eq (code c) (code d) then strip_prefix p s else none

-- `str::trim_start_matches`, for one character
unfoldable pub trim_start_matches : ℕ → String → String
trim_start_matches k [] = []
trim_start_matches k (c ∷ s) = if nat_eq (code c) k then trim_start_matches k s else c ∷ s

-- `str::contains`
unfoldable pub contains : String → String → Bool
unfolding starts_with
contains part [] = is_empty part
contains part (c ∷ s) = starts_with part (c ∷ s) || contains part s

-- `[String]::join`
unfoldable pub join : String → List String → String
join sep [] = []
join sep (s ∷ []) = s
join sep (s ∷ t ∷ rest) = s ⧺ sep ⧺ join sep (t ∷ rest)
