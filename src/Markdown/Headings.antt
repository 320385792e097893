-- ===== src/Markdown/Headings.antt =====
-- The headings of a section in backend/src/markdown.rs. `char::to_lowercase` is a parameter.
pub mod Levels
pub mod Shift
use doc_craft_agent.Prelude.{
  ℕ, ◌+◌, ◌-◌, min, Bool, true, false, not, ◌&&◌, ◌||◌, Option, none, some, List, [], ◌∷◌, ◌++◌,
  leb, ltb, ◌==◌, if◌then◌else◌, length, drop, replicate, Text, text, text_eq, len, trim,
  trim_start, filter, any, starts_with, is_whitespace, is_ascii_digit,
}
use doc_craft_agent.Prelude.Cuts.{split_inclusive, newline, concat}
use doc_craft_agent.Editorial.{trim_spaces, run}
use doc_craft_agent.Editorial.Spans.{code_ranges, in_ranges}
use doc_craft_agent.Markdown.{join}

-- U+C81C and U+C7A5, which stand before and behind the number of a chapter in Korean
abbrev pub chapter_prefix : ℕ
chapter_prefix = 0xC81C

abbrev pub chapter_suffix : ℕ
chapter_suffix = 0xC7A5

-- a colon or a closing bracket, also of full width, or a dash
abbrev is_mark : ℕ → Bool
is_mark c = any (λ m. m == c) (0x3A ∷ 0xFF1A ∷ 0x29 ∷ 0xFF09 ∷ 0x2D ∷ 0x2013 ∷ 0x2014 ∷ [])

-- behind the digits and dots that begin with a digit, and whether there is one
unfoldable pub after_number : Bool → Text → Bool × Text
after_number saw [] = (saw, [])
after_number saw (c ∷ s) =
    if is_ascii_digit c
    then after_number true s
    else if saw && c == b'.'
    then after_number saw s
    else (saw, c ∷ s)

-- `trim_start_matches` with these marks, a dot or a space
unfoldable pub trim_marks : Text → Text
trim_marks [] = []
trim_marks (c ∷ s) =
    let rest = trim_marks s in if is_mark c || c == b'.' || c == 32 then rest else c ∷ s

-- behind the number: `had_gap` says that a prefix or blanks stood there
unfoldable pub after_mark : Bool → Text → Text → Text
unfolding trim_marks
after_mark had_gap original [] = if had_gap then [] else original
after_mark had_gap original (c ∷ s) =
    if c == chapter_suffix || is_mark c
    then trim_marks (trim_start s)
    else if had_gap
    then trim_marks (c ∷ s)
    else original

unfoldable pub strip_number : Bool → Text → Text → Text
unfolding after_number after_mark
strip_number had_prefix original rest =
    let (saw_digit, behind) = after_number false rest in
    let trimmed = trim_start behind in
    if saw_digit
    then after_mark (had_prefix || not (len behind == len trimmed)) original trimmed
    else original

unfoldable pub strip_prefix_number : Text → Text → Text
unfolding strip_number
strip_prefix_number original [] = strip_number false original []
strip_prefix_number original (c ∷ s) =
    if c == chapter_prefix
    then strip_number true original (trim_start s)
    else strip_number false original (c ∷ s)

unfoldable pub strip_heading_number : Text → Text
unfolding strip_prefix_number
strip_heading_number s = let original = trim s in strip_prefix_number original original

-- the characters that a heading is compared without
abbrev is_ignored : ℕ → Bool
is_ignored c =
    is_whitespace c || is_mark c || any (λ m. m == c) (0x2E ∷ 0x2C ∷ 0xFF0C ∷ 0x28 ∷ 0xFF08 ∷ [])

unfoldable pub lower_all : (ℕ → Text) → Text → Text
lower_all lowercase [] = []
lower_all lowercase (c ∷ s) = lowercase c ++ lower_all lowercase s

unfoldable pub canonical_heading : (ℕ → Text) → Text → Text
unfolding strip_heading_number lower_all
canonical_heading lowercase s =
    lower_all lowercase (filter (λ c. not (is_ignored c)) (strip_heading_number s))

-- a line without its newline, then without a carriage return at its end
unfoldable pub strip_end : ℕ → Text → Text
strip_end last [] = []
strip_end last (c ∷ []) = if c == last then [] else c ∷ []
strip_end last (c ∷ d ∷ s) = c ∷ strip_end last (d ∷ s)

abbrev pub bare : Text → Text
bare line = strip_end 13 (strip_end newline line)

pub record Heading : Type 0 where
  pub level : ℕ
  pub content : Text

-- the heading that a line outside code is
unfoldable pub heading_of : Text → Option Heading
unfolding trim_spaces run
heading_of line =
    let heading = trim_spaces line in
    let level = run b'#' heading in
    if leb (len line - len heading) 3
      && leb 1 level
      && leb level 6
      && starts_with (drop level heading) (32 ∷ [])
    then some (record { level = level; content = trim (drop level heading) })
    else none

-- the lines without their ends, each with the heading that it is
unfoldable pub headings : List (ℕ × ℕ) → ℕ → List Text → List (Text × Option Heading)
unfolding heading_of strip_end
headings literals offset [] = []
headings literals offset (line ∷ ls) =
    (bare line, if in_ranges literals offset then none else heading_of (bare line))
    ∷ headings literals (offset + len line) ls

abbrev least : ℕ → Option ℕ → Option ℕ
least a none = some a
least a (some b) = some (min a b)

-- three or more
abbrev pub normal_level : ℕ → ℕ → ℕ
normal_level n shift = if ltb n 3 then 3 else n - shift

-- how far all headings go up, so that the least of them is at level three at most
abbrev pub shift_of : Option ℕ → ℕ
shift_of none = 0
shift_of (some level) = if ltb 3 level then level - 3 else 0

module _ (lowercase : ℕ → Text) (title : Text) where
  abbrev pub is_title : Heading → Bool
  is_title h = text_eq (canonical_heading lowercase h.content) title

  -- the least level of the headings that do not repeat the title
  unfoldable pub minimum : List (Text × Option Heading) → Option ℕ
  unfolding canonical_heading
  minimum [] = none
  minimum ((line, none) ∷ ls) = minimum ls
  minimum ((line, some h) ∷ ls) = if is_title h then minimum ls else least h.level (minimum ls)

  abbrev pub written : ℕ → Heading → Text
  written shift h = replicate (normal_level h.level shift) b'#' ++ (32 ∷ h.content)

  -- the lines that are written
  unfoldable pub normalized : ℕ → List (Text × Option Heading) → List Text
  unfolding canonical_heading
  normalized shift [] = []
  normalized shift ((line, none) ∷ ls) = line ∷ normalized shift ls
  normalized shift ((line, some h) ∷ ls) =
      let rest = normalized shift ls in if is_title h then rest else written shift h ∷ rest

unfoldable pub normalize_section_headings : (ℕ → Text) → Text → Text → Text
unfolding canonical_heading headings minimum normalized join split_inclusive
normalize_section_headings lowercase markdown section_title =
    let title = canonical_heading lowercase section_title in
    let ls = headings (code_ranges markdown) 0 (split_inclusive markdown) in
    trim
      (join (newline ∷ []) (normalized lowercase title (shift_of (minimum lowercase title ls)) ls))
