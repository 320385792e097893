-- ===== src/Editorial.antt =====
-- backend/src/editorial.rs: which parts of a Markdown text are code, and excerpts. Offsets are in
-- bytes.
pub mod Spans
pub mod Blocks
pub mod Excerpts
mod Tests
use doc_craft_agent.Prelude.{
  ℕ, zero, suc, ◌+◌, ◌-◌, Bool, true, false, not, ◌&&◌, ◌||◌, Option, none, some, List, [], ◌∷◌,
  ◌++◌, leb, ltb, ◌==◌, if◌then◌else◌, length, drop, get_or, Text, len, is_empty, trim,
  is_ascii_digit, any,
}
use doc_craft_agent.Prelude.Cuts.{split_inclusive}

abbrev pub backtick : ℕ
backtick = 96

abbrev pub tilde : ℕ
tilde = 126

-- `trim_start_matches(' ')`
unfoldable pub trim_spaces : Text → Text
trim_spaces [] = []
trim_spaces (c ∷ s) = let rest = trim_spaces s in if c == 32 then rest else c ∷ s

-- `take_while(|b| *b == marker).count()`
unfoldable pub run : ℕ → Text → ℕ
run marker [] = 0
run marker (c ∷ s) = let rest = run marker s in if c == marker then suc rest else 0

unfoldable pub digits : Text → ℕ
digits [] = 0
digits (c ∷ s) = let rest = digits s in if is_ascii_digit c then suc rest else 0

-- the bytes that are read here are ASCII, so a character stands for its first byte
abbrev byte_at : Text → ℕ → ℕ
byte_at s i = get_or s i 0

abbrev is_blank : ℕ → Bool
is_blank c = c == 32 || c == 9

unfoldable pub list_marker : Text → Bool
unfolding digits is_ascii_digit
list_marker s =
    let first = byte_at s 0 in
    let count = digits s in
    if first == b'-' || first == b'*' || first == b'+'
    then is_blank (byte_at s 1)
    else if is_ascii_digit first
    then leb count 9
      && (byte_at s count == b'.' || byte_at s count == b')')
      && is_blank (byte_at s (count + 1))
    else false

-- a fence that is open: its character, its width and the offset of its line
pub record Fence : Type 0 where
  pub marker : ℕ
  pub width : ℕ
  pub start : ℕ

-- what the loop over the lines keeps
pub record Scan : Type 0 where
  pub fence : Option Fence
  pub paragraph : Bool
  pub in_list : Bool
  pub offset : ℕ

-- the line in its parts
abbrev indent : Text → ℕ
indent line = len line - len (trim_spaces line)

abbrev marker_of : Text → ℕ
marker_of line = byte_at (trim_spaces line) 0

abbrev width_of : Text → ℕ
width_of line = run (marker_of line) (trim_spaces line)

abbrev after_marker : Text → Text
after_marker line = drop (width_of line) (trim_spaces line)

abbrev blank : Text → Bool
blank line = is_empty (trim line)

unfoldable pub closes_fence : Fence → Text → Bool
closes_fence f line =
    leb (indent line) 3
    && marker_of line == f.marker
    && leb f.width (width_of line)
    && blank (after_marker line)

unfoldable pub opens_fence : Text → Bool
opens_fence line =
    leb (indent line) 3
    && (marker_of line == backtick || marker_of line == tilde)
    && leb 3 (width_of line)
    && (not (marker_of line == backtick) || not (any (λ c. c == backtick) (after_marker line)))

abbrev is_indented : Text → Bool
is_indented line = leb 4 (indent line) || byte_at line 0 == 9

abbrev opened : Text → ℕ → Fence
opened line offset = record { marker = marker_of line; width = width_of line; start = offset }

-- where a line that is no code leaves the list
abbrev list_after : Bool → Text → Bool
list_after in_list line =
    if list_marker (trim_spaces line)
    then true
    else if not (blank line) && indent line == 0
    then false
    else in_list

-- one line: the range that it ends, and what the loop keeps behind it
unfoldable pub scan_line : Text → Scan → Option (ℕ × ℕ) × Scan
unfolding closes_fence opens_fence list_marker
scan_line line s =
    let next = s.offset + len line in
    elim s.fence [
      | some f ↦
          if closes_fence f line
          then (some (f.start, next), record s { fence = none; paragraph = false; offset = next })
          else (none, record s { paragraph = false; offset = next })
      | none ↦
          if opens_fence line
          then (
            none,
            record s { fence = some (opened line s.offset); paragraph = false; offset = next },
          )
          else if is_indented line && not s.paragraph && not s.in_list
          then (some (s.offset, next), record s { paragraph = false; offset = next })
          else (
            none,
            record s {
              paragraph = not (blank line);
              in_list = list_after s.in_list line;
              offset = next;
            },
          )
    ]

abbrev pub emit : Option (ℕ × ℕ) → List (ℕ × ℕ) → List (ℕ × ℕ)
emit none ranges = ranges
emit (some r) ranges = r ∷ ranges

-- the loop over the lines; an open fence reaches the end
unfoldable pub blocks_from : List Text → Scan → List (ℕ × ℕ) × Bool
unfolding scan_line
blocks_from [] s = elim s.fence [ none ↦ ([], false) | some f ↦ ((f.start, s.offset) ∷ [], true) ]
blocks_from (line ∷ lines) s =
    let (range, t) = scan_line line s in
    let (ranges, unclosed) = blocks_from lines t in (emit range ranges, unclosed)

abbrev pub at_start : Scan
at_start = record { fence = none; paragraph = false; in_list = false; offset = 0 }

unfoldable pub block_code_ranges : Text → List (ℕ × ℕ) × Bool
unfolding blocks_from
block_code_ranges markdown = blocks_from (split_inclusive markdown) at_start

unfoldable pub has_unclosed_fence : Text → Bool
unfolding block_code_ranges
has_unclosed_fence markdown = (block_code_ranges markdown).1
