-- ===== src/Markdown/Parts.antt =====
-- Subsections lose nothing of a draft (`subsections` of backend/src/markdown.rs).
use doc_craft_agent.Prelude.{
  ℕ, ◌+◌, ◌≡◌, refl, ap, sym, ◌∙◌, Bool, true, false, not, Option, none, some, List, [], ◌∷◌, ◌++◌,
  map, if◌then◌else◌, ◌==◌, ◌⊎◌, arith, Bool-cases, inl, inr, Text, len, is_empty, trim, filter,
}
use doc_craft_agent.Prelude.Cuts.{split_inclusive, concat, concat-split_inclusive}
use doc_craft_agent.Editorial.Spans.{code_ranges, in_ranges}
use doc_craft_agent.Markdown.{
  heading_level, tagged, top_level, is_level, slices, parts_from, subsections,
}
use mathlib.Core.List.{append_assoc, append-nil}

-- the lines without their levels
abbrev untagged : List (Text × Option ℕ) → Text
untagged [] = []
untagged ((line, level) ∷ ls) = line ++ untagged ls

untagged-tagged :
    (literals : List (ℕ × ℕ)) (offset : ℕ) (ls : List Text)
    → untagged (tagged literals offset ls) ≡ concat ls
unfolding tagged
untagged-tagged literals offset [] = refl
untagged-tagged literals offset (line ∷ ls) =
    ap (λ r. line ++ r) (untagged-tagged literals (offset + len line) ls)

concat-slices :
    (top : ℕ) (current : Text) (ls : List (Text × Option ℕ))
    → concat (slices top current ls) ≡ current ++ untagged ls
unfolding slices
concat-slices top current [] = refl
concat-slices top current ((line, level) ∷ ls) = elim (Bool-cases (is_level top level)) [
  | inl cut ↦ rw cut (ap (λ r. current ++ r) (concat-slices top line ls))
  | inr goes_on ↦
      rw goes_on (concat-slices top (current ++ line) ls ∙ append_assoc current line (untagged ls))
]

-- the slices behind the first one begin with a heading of the top level, which stands on a line
abbrev pub Headed : ℕ → List Text → Type 0
Headed top [] = Unit
Headed top (s ∷ ss) =
    ((line rest : Text) × (s ≡ line ++ rest) × (heading_level line ≡ some top)) × Headed top ss

-- lines whose levels are those of their headings
abbrev Levels : List (Text × Option ℕ) → Type 0
Levels [] = Unit
Levels ((line, none) ∷ ls) = Levels ls
Levels ((line, some level) ∷ ls) = (heading_level line ≡ some level) × Levels ls

Levels-tagged :
    (literals : List (ℕ × ℕ)) (offset : ℕ) (ls : List Text) → Levels (tagged literals offset ls)
unfolding tagged
Levels-tagged literals offset [] = tt
Levels-tagged literals offset (line ∷ ls) =
    with_level (if in_ranges literals offset then none else heading_level line)
      (Levels-tagged literals (offset + len line) ls)
      (λ level e. some_unless (in_ranges literals offset) e)
  where
    some_unless :
        (b : Bool) {o : Option ℕ} {level : ℕ}
        → (if b then none else o) ≡ some level
        → o ≡ some level
    some_unless true e = cc
    some_unless false e = e

    with_level :
        (o : Option ℕ)
        → Levels (tagged literals (offset + len line) ls)
        → ((level : ℕ) → o ≡ some level → heading_level line ≡ some level)
        → Levels ((line, o) ∷ tagged literals (offset + len line) ls)
    with_level none h k = h
    with_level (some level) h k = (k level refl, h)

-- a first slice, and headed ones
record Sliced (top : ℕ) (current : Text) (out : List Text) : Type 0 where
  first : Text
  more : Text
  rest : List Text
  same : out ≡ first ∷ rest
  begins : first ≡ current ++ more
  headed : Headed top rest

of_level : (top level : ℕ) → (level == top) ≡ true → level ≡ top
of_level top level h = ground arith

-- a line that begins no slice is put behind the current one
Sliced-goes_on :
    (top : ℕ) (current line : Text) {out : List Text}
    → Sliced top (current ++ line) out
    → Sliced top current out
Sliced-goes_on top current line s = record {
  first = s.first;
  more = line ++ s.more;
  rest = s.rest;
  same = s.same;
  begins = s.begins ∙ append_assoc current line s.more;
  headed = s.headed;
}

slices-Sliced :
    (top : ℕ) (current : Text) (ls : List (Text × Option ℕ))
    → Levels ls
    → Sliced top current (slices top current ls)
unfolding slices
slices-Sliced top current [] h = record {
  first = current;
  more = [];
  rest = [];
  same = refl;
  begins = sym (append-nil current);
  headed = tt;
}
slices-Sliced top current ((line, none) ∷ ls) h =
    Sliced-goes_on top current line (slices-Sliced top (current ++ line) ls h)
slices-Sliced top current ((line, some level) ∷ ls) (l, h) = elim (Bool-cases (level == top)) [
  | inl cut ↦
      let s = slices-Sliced top line ls h in
      rw cut (record {
        first = current;
        more = [];
        rest = slices top line ls;
        same = refl;
        begins = sym (append-nil current);
        headed =
            rw s.same ((line, s.more, s.begins, l ∙ ap some (of_level top level cut)), s.headed);
      })
  | inr goes_on ↦
      rw goes_on (Sliced-goes_on top current line (slices-Sliced top (current ++ line) ls h))
]

-- how subsections stand in a draft
abbrev pub Divided : Text → List Text → Type 0
Divided markdown out =
    (out ≡ markdown ∷ [])
    ⊎ ((top : ℕ) × (first : Text) × (rest : List Text) × (first ++ concat rest ≡ markdown)
        × Headed top rest
        × (out ≡ filter (λ part. not (is_empty part)) (map trim (first ∷ rest))))

parts_from-Divided :
    (markdown : Text) (ls : List (Text × Option ℕ)) (top : Option ℕ)
    → Levels ls
    → untagged ls ≡ markdown
    → Divided markdown (parts_from markdown ls top)
unfolding parts_from
parts_from-Divided markdown ls none h e = inl refl
parts_from-Divided markdown ls (some top) h e =
    let s = slices-Sliced top [] ls h in
    inr (
      top,
      s.first,
      s.rest,
      ap concat (sym s.same) ∙ concat-slices top [] ls ∙ e,
      s.headed,
      ap (λ parts. filter (λ part. not (is_empty part)) (map trim parts)) s.same,
    )

-- The subsections of a draft are slices of it, one after the other with nothing lost, without their
-- outer blanks and without those that are blank; each slice but the first begins with a heading of
-- one level. A draft without a heading is one part.
pub subsections-Divided : (markdown : Text) → Divided markdown (subsections markdown)
unfolding subsections
subsections-Divided markdown =
    let literals = code_ranges markdown in
    let ls = tagged literals 0 (split_inclusive markdown) in
    parts_from-Divided markdown ls (top_level ls)
      (Levels-tagged literals 0 (split_inclusive markdown))
      (untagged-tagged literals 0 (split_inclusive markdown) ∙ concat-split_inclusive markdown)
