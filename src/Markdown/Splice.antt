-- ===== src/Markdown/Splice.antt =====
-- `splice_subsections` of backend/src/markdown.rs: a repair replaces the subsections it names. The
-- regular expression for a marker, and `parse` of its number, are a parameter: what they give for a
-- trimmed line.
pub mod Untouched
use doc_craft_agent.Prelude.{
  ℕ, zero, suc, ◌+◌, ◌*◌, Bool, true, false, not, ◌&&◌, ◌||◌, Option, none, some, List, [], ◌∷◌,
  ◌++◌, map, Result, ok, err, ◌>>=◌, ◌>>◌, ensure, leb, ltb, ◌==◌, if◌then◌else◌, length, get_or,
  set, replicate, sum, Text, len, is_empty, trim, filter, any,
}
use doc_craft_agent.Prelude.Cuts.{split_inclusive, newline}
use doc_craft_agent.Editorial.Spans.{code_ranges, in_ranges}
use doc_craft_agent.Markdown.{unwrap_outer_markdown_fence, join}

pub data SpliceError : Type 0 where
  bad_number no_markers too_short text_before not_shown no_subsection twice : SpliceError

-- what a marker line says: none is no marker, `some none` a number that does not fit
abbrev pub Marker : Type 0
Marker = Text → Option (Option ℕ)

-- the text before the first marker, and each number with the text behind its marker
abbrev pub Bodies : Type 0
Bodies = Text × List (ℕ × Text)

abbrev pub or_bad : Option ℕ → Result SpliceError ℕ
or_bad none = err bad_number
or_bad (some n) = ok n

-- a line before what stands behind it
unfoldable pub add_line : Text → Option (Option ℕ) → Bodies → Result SpliceError Bodies
add_line line none (front, bodies) = ok (line ++ front, bodies)
add_line line (some number) (front, bodies) = do n ← or_bad number; ok ([], (n, front) ∷ bodies)

module _ (marker : Marker) where
  -- the loop over the lines, and the slices between the markers
  unfoldable pub bodies_from : List (ℕ × ℕ) → ℕ → List Text → Result SpliceError Bodies
  unfolding add_line
  bodies_from literals offset [] = ok ([], [])
  bodies_from literals offset (line ∷ ls) = do
    rest ← bodies_from literals (offset + len line) ls
    add_line line (if in_ranges literals offset then none else marker (trim line)) rest

-- whether a repair may change the subsection `n` of `count`
unfoldable pub may_change : ℕ → Option (List ℕ) → ℕ → Result SpliceError (Unit {0})
may_change count none n = ensure (ltb n count) no_subsection
may_change count (some targets) n = ensure (any (λ t. t == n) targets) not_shown

abbrev pub is_none : Option Text → Bool
is_none none = true
is_none (some t) = false

-- the loop over the markers
unfoldable pub replace_all :
    ℕ
    → Option (List ℕ)
    → List (ℕ × Text)
    → List (Option Text)
    → Result SpliceError (List (Option Text))
unfolding may_change
replace_all count targets [] replaced = ok replaced
replace_all count targets ((n, body) ∷ bodies) replaced = do
  may_change count targets n
  ensure (is_none (get_or replaced n none)) twice
  replace_all count targets bodies (set replaced n (some (trim body)))

-- an answer without a marker; `ok none` is a whole rewrite
unfoldable pub replace_whole :
    List Text
    → Text
    → Option (List ℕ)
    → List (Option Text)
    → Result SpliceError (Option (List (Option Text)))
replace_whole parts output none replaced = do
  ensure (leb (sum (map len parts)) (len (trim output) * 2)) too_short
  ok none
replace_whole parts output (some []) replaced = err no_markers
replace_whole parts output (some (only ∷ [])) replaced =
    ok (some (set replaced only (some (trim output))))
replace_whole parts output (some (t ∷ u ∷ targets)) replaced = err no_markers

-- which subsections are replaced, and by what
unfoldable pub replacements :
    List Text → Text → Option (List ℕ) → Bodies → Result SpliceError (Option (List (Option Text)))
unfolding replace_whole replace_all
replacements parts output targets (front, []) =
    replace_whole parts output targets (replicate (length parts + 1) none)
replacements parts output targets (front, b ∷ bodies) = do
  ensure (is_empty (trim front)) text_before
  replaced ← replace_all (length parts) targets (b ∷ bodies) (replicate (length parts + 1) none)
  ok (some replaced)

abbrev pub or_part : Option Text → Text → Text
or_part none original = original
or_part (some t) original = t

-- the parts with what replaces them, and the new one behind them
unfoldable pub merged : List Text → List (Option Text) → List Text
merged [] [] = []
merged [] (none ∷ rs) = []
merged [] (some t ∷ rs) = t ∷ []
merged (p ∷ ps) [] = []
merged (p ∷ ps) (r ∷ rs) = or_part r p ∷ merged ps rs

abbrev pub blank_line : Text
blank_line = newline ∷ newline ∷ []

abbrev pub join_parts : List Text → Option (List (Option Text)) → Option Text
join_parts parts none = none
join_parts parts (some replaced) =
    some (join blank_line (filter (λ part. not (is_empty part)) (merged parts replaced)))

unfoldable pub splice_subsections :
    Marker → List Text → Text → Option (List ℕ) → Result SpliceError (Option Text)
unfolding bodies_from replacements merged
splice_subsections marker parts response targets = do
  let output = unwrap_outer_markdown_fence response
  bodies ← bodies_from marker (code_ranges output) 0 (split_inclusive output)
  replaced ← replacements parts output targets bodies
  ok (join_parts parts replaced)
