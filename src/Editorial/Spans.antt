-- ===== src/Editorial/Spans.antt =====
-- Code spans between backticks, `code_ranges` of backend/src/editorial.rs. The byte index of the
-- source is an offset here, and a character that a step jumps into is jumped over.
use doc_craft_agent.Prelude.{
  ℕ, suc, ◌+◌, Bool, true, ◌&&◌, ◌||◌, drop, Option, none, some, List, [], ◌∷◌, ◌++◌, leb, ltb,
  ◌==◌, if◌then◌else◌, any, Text, len_utf8,
}
use doc_craft_agent.Editorial.{backtick, run, emit, block_code_ranges}

abbrev pub holds : ℕ × ℕ → ℕ → Bool
holds r i = leb r.0 i && ltb i r.1

-- `ranges.iter().any(|r| r.contains(&i))`
abbrev pub in_ranges : List (ℕ × ℕ) → ℕ → Bool
in_ranges ranges i = any (λ r. holds r i) ranges

-- the end of the block that holds the offset
unfoldable pub block_end : List (ℕ × ℕ) → ℕ → Option ℕ
block_end [] i = none
block_end (r ∷ ranges) i = if holds r i then some r.1 else block_end ranges i

-- behind a newline: nothing but blanks before the next one or the end
unfoldable pub blank_ahead : Text → Bool
blank_ahead [] = true
blank_ahead (c ∷ s) =
    let rest = blank_ahead s in if c == 32 || c == 9 || c == 13 then rest else c == 10

-- what the search for the closing run does at a character
pub data Look : Type 0 where
  found stop : Look
  go : ℕ → Look

-- `count` backticks stand before the character
unfoldable pub look : List (ℕ × ℕ) → ℕ → ℕ → ℕ → ℕ → Text → Look
unfolding blank_ahead
look blocks width count offset c s =
    if c == backtick && ltb 0 count
    then go (suc count)
    else if ltb 0 count && count == width
    then found
    else if in_ranges blocks offset
    then stop
    else if c == 10 && blank_ahead s
    then stop
    else if c == backtick
    then go 1
    else go 0

-- the offset behind a run of exactly `width` backticks
unfoldable pub find_close : List (ℕ × ℕ) → ℕ → ℕ → ℕ → Text → Option ℕ
unfolding look
find_close blocks width count offset [] =
    if ltb 0 count && count == width then some offset else none
find_close blocks width count offset (c ∷ s) = elim (look blocks width count offset c s) [
  | found ↦ some offset
  | stop ↦ none
  | go count' ↦ find_close blocks width count' (offset + len_utf8 c) s
]

abbrev span_to : ℕ → ℕ → Option ℕ → ℕ × Option (ℕ × ℕ)
span_to start behind none = (behind, none)
span_to start behind (some end) = (end, some (start, end))

-- one round of the loop: the offset that it goes on from, and the span that it finds
unfoldable pub span_at : List (ℕ × ℕ) → ℕ → ℕ → Text → ℕ × Option (ℕ × ℕ)
unfolding block_end find_close run
span_at blocks offset c s = elim (block_end blocks offset) [
  | some end ↦ (end, none)
  | none ↦
      if c == b'\\'
      then (offset + 2, none)
      else if c == backtick
      then (let width = run backtick (c ∷ s) in
          span_to offset (offset + width)
            (find_close blocks width 0 (offset + width) (drop width (c ∷ s))))
      else (offset + len_utf8 c, none)
]

-- the loop; it goes on from the offset `from`
unfoldable pub spans_from : List (ℕ × ℕ) → ℕ → ℕ → Text → List (ℕ × ℕ)
unfolding span_at
spans_from blocks offset from [] = []
spans_from blocks offset from (c ∷ s) =
    let (from', span) = if ltb offset from then (from, none) else span_at blocks offset c s in
    emit span (spans_from blocks (offset + len_utf8 c) from' s)

unfoldable pub code_ranges : Text → List (ℕ × ℕ)
unfolding spans_from
code_ranges markdown =
    let blocks = (block_code_ranges markdown).0 in blocks ++ spans_from blocks 0 0 markdown
