-- ===== src/Markdown.antt =====
-- backend/src/markdown.rs: the structure of a draft, its fences and its subsections. Offsets are in
-- bytes, and a draft is read line by line.
pub mod Headings
pub mod Splice
pub mod Parts
mod Tests
use doc_craft_agent.Prelude.{
  ℕ, zero, suc, ◌+◌, ◌-◌, min, Bool, true, false, not, ◌&&◌, ◌||◌, Option, none, some, List, [],
  ◌∷◌, ◌++◌, map, leb, ltb, ◌==◌, if◌then◌else◌, length, drop, Text, text, text_eq, len, is_empty,
  trim, filter, starts_with,
}
use doc_craft_agent.Prelude.Cuts.{split_inclusive, newline}
use doc_craft_agent.Editorial.{trim_spaces, run, backtick, tilde}
use doc_craft_agent.Editorial.Spans.{code_ranges, in_ranges}

-- a line that opens or closes a fence, with what stands behind its marker
pub record FenceSpec : Type 0 where
  pub marker : ℕ
  pub width : ℕ
  pub info : Text

unfoldable pub fence_of : Text → Option FenceSpec
unfolding run
fence_of [] = none
fence_of (c ∷ s) =
    let width = run c (c ∷ s) in
    if (c == backtick || c == tilde) && leb 3 width
    then some (record { marker = c; width = width; info = drop width (c ∷ s) })
    else none

unfoldable pub fence_spec : Text → Option FenceSpec
unfolding fence_of trim_spaces
fence_spec line =
    let trimmed = trim_spaces line in
    if ltb 3 (len line - len trimmed) then none else fence_of trimmed

-- `a.eq_ignore_ascii_case(b)`, where `b` is in lower case
abbrev lower_ascii : ℕ → ℕ
lower_ascii c = if leb b'A' c && leb c b'Z' then c + 32 else c

abbrev pub eq_ignore_ascii_case : Text → Text → Bool
eq_ignore_ascii_case a b = text_eq (map lower_ascii a) b

-- a line without its newline, and a carriage return before it
unfoldable pub strip_newline : Text → Text
strip_newline [] = []
strip_newline (c ∷ []) = if c == newline then [] else c ∷ []
strip_newline (c ∷ d ∷ []) =
    if c == 13 && d == newline then [] else c ∷ (if d == newline then [] else d ∷ [])
strip_newline (c ∷ d ∷ e ∷ s) = c ∷ strip_newline (d ∷ e ∷ s)

-- `str::lines`
unfoldable pub lines : Text → List Text
unfolding strip_newline split_inclusive
lines s = map strip_newline (split_inclusive s)

-- `join(separator)`
unfoldable pub join : Text → List Text → Text
join separator [] = []
join separator (s ∷ []) = s
join separator (s ∷ t ∷ ts) = s ++ (separator ++ join separator (t ∷ ts))

-- the last of some lines, with those before it
abbrev last_of : Text → List Text → Text
last_of first [] = first
last_of first (l ∷ ls) = last_of l ls

abbrev without_last : List Text → List Text
without_last [] = []
without_last (l ∷ []) = []
without_last (l ∷ m ∷ ls) = l ∷ without_last (m ∷ ls)

abbrev is_markdown : Text → Bool
is_markdown info =
    eq_ignore_ascii_case info (text "markdown") || eq_ignore_ascii_case info (text "md")

unfoldable pub is_closed_by : FenceSpec → Option FenceSpec → Bool
is_closed_by f none = false
is_closed_by f (some g) = g.marker == f.marker && leb f.width g.width && is_empty (trim g.info)

unfoldable pub unwrap_from : Text → List Text → Option FenceSpec → Option FenceSpec → Text
unfolding is_closed_by join
unwrap_from trimmed rest none last = trimmed
unwrap_from trimmed rest (some f) last =
    if is_markdown (trim f.info) && is_closed_by f last && ltb 0 (length rest)
    then trim (join (newline ∷ []) (without_last rest))
    else trimmed

unfoldable pub unwrap_lines : Text → List Text → Text
unfolding unwrap_from fence_spec
unwrap_lines trimmed [] = []
unwrap_lines trimmed (first ∷ rest) =
    unwrap_from trimmed rest (fence_spec first) (fence_spec (last_of first rest))

unfoldable pub unwrap_outer_markdown_fence : Text → Text
unfolding unwrap_lines lines
unwrap_outer_markdown_fence markdown =
    let trimmed = trim markdown in unwrap_lines trimmed (lines trimmed)

-- the fence that is open, where it starts, and whether it is a diagram
pub record Open : Type 0 where
  pub fence : FenceSpec
  pub start : ℕ
  pub is_mermaid : Bool

abbrev opened : ℕ → Option FenceSpec → Option Open
opened offset none = none
opened offset (some f) = some (record {
  fence = f;
  start = offset;
  is_mermaid = eq_ignore_ascii_case (trim f.info) (text "mermaid");
})

abbrev emit_if : Bool → ℕ × ℕ → List (ℕ × ℕ) → List (ℕ × ℕ)
emit_if b r ranges = if b then r ∷ ranges else ranges

-- the loop over the lines
unfoldable pub mermaid_from : Option Open → ℕ → List Text → List (ℕ × ℕ)
unfolding fence_spec is_closed_by
mermaid_from o offset [] = []
mermaid_from none offset (line ∷ ls) =
    mermaid_from (opened offset (fence_spec line)) (offset + len line) ls
mermaid_from (some o) offset (line ∷ ls) =
    let closed = mermaid_from none (offset + len line) ls in
    let still = mermaid_from (some o) (offset + len line) ls in
    if is_closed_by o.fence (fence_spec line)
    then emit_if o.is_mermaid (o.start, offset + len line) closed
    else still

unfoldable pub mermaid_blocks : Text → List (ℕ × ℕ)
unfolding mermaid_from split_inclusive
mermaid_blocks markdown = mermaid_from none 0 (split_inclusive markdown)

-- the closure `heading` of `subsections`
unfoldable pub heading_level : Text → Option ℕ
unfolding trim_spaces run
heading_level line =
    let trimmed = trim_spaces line in
    let level = run b'#' trimmed in
    if leb 1 level && leb level 6 && starts_with (drop level trimmed) (32 ∷ [])
    then some level
    else none

-- the lines, each with the level of the heading that it is, outside code
unfoldable pub tagged : List (ℕ × ℕ) → ℕ → List Text → List (Text × Option ℕ)
unfolding heading_level
tagged literals offset [] = []
tagged literals offset (line ∷ ls) =
    (line, if in_ranges literals offset then none else heading_level line)
    ∷ tagged literals (offset + len line) ls

abbrev least : Option ℕ → Option ℕ → Option ℕ
least none b = b
least (some a) none = some a
least (some a) (some b) = some (min a b)

unfoldable pub top_level : List (Text × Option ℕ) → Option ℕ
top_level [] = none
top_level ((line, level) ∷ ls) = least level (top_level ls)

abbrev is_level : ℕ → Option ℕ → Bool
is_level top none = false
is_level top (some level) = level == top

-- the slices between the cuts: a heading of the top level begins one
unfoldable pub slices : ℕ → Text → List (Text × Option ℕ) → List Text
slices top current [] = current ∷ []
slices top current ((line, level) ∷ ls) =
    if is_level top level then current ∷ slices top line ls else slices top (current ++ line) ls

unfoldable pub parts_from : Text → List (Text × Option ℕ) → Option ℕ → List Text
unfolding slices
parts_from markdown ls none = markdown ∷ []
parts_from markdown ls (some top) =
    filter (λ part. not (is_empty part)) (map trim (slices top [] ls))

unfoldable pub subsections : Text → List Text
unfolding parts_from tagged top_level split_inclusive code_ranges
subsections markdown =
    let ls = tagged (code_ranges markdown) 0 (split_inclusive markdown) in
    parts_from markdown ls (top_level ls)
