-- ===== src/Editorial/Blocks.antt =====
-- The ranges of code blocks, `block_code_ranges` of backend/src/editorial.rs.
use doc_craft_agent.Prelude.{
  ℕ, ◌+◌, ◌≤◌, ◌<◌, ◌≡◌, ap, Option, none, some, List, [], ◌∷◌, arith, Text, len,
}
use doc_craft_agent.Prelude.Cuts.{
  split_inclusive, concat, concat-split_inclusive, AllCons, split_inclusive-AllCons, IsCons,
  len-append,
}
use doc_craft_agent.Editorial.{Scan, scan_line, blocks_from, block_code_ranges, emit, at_start}

-- The ranges follow each other between two offsets, and none is empty.
abbrev pub Ranges : ℕ → ℕ → List (ℕ × ℕ) → Type 0
Ranges low high [] = Unit
Ranges low high ((a, b) ∷ ranges) = (low ≤ a) × (a < b) × (b ≤ high) × Ranges b high ranges

-- where the next range may start
abbrev floor : Scan → ℕ
floor s = elim s.fence [ none ↦ s.offset | some f ↦ f.start ]

-- an open fence started on a line before
abbrev Started : Scan → Type 0
Started s = elim s.fence [ none ↦ Unit | some f ↦ f.start < s.offset ]

-- a lower start
Ranges-lower :
    (low low' high : ℕ) (ranges : List (ℕ × ℕ))
    → low ≤ low'
    → Ranges low' high ranges
    → Ranges low high ranges
Ranges-lower low low' high [] h k = tt
Ranges-lower low low' high ((a, b) ∷ ranges) h k = (omega (arith, k.0), k.1, k.2, k.3)

IsCons-len : (s : Text) → IsCons s → 0 < len s
unfolding len
IsCons-len [] h = absurd h
IsCons-len (c ∷ s) h = ground arith

-- What one line does: the range that it ends, if any, lies between the floors.
LineDone : Text → Scan → Option (ℕ × ℕ) → Scan → Type 0
LineDone line s range t = (t.offset ≡ s.offset + len line) × Started t × (elim range [
  | none ↦ floor s ≤ floor t
  | some r ↦ (floor s ≤ r.0) × (r.0 < r.1) × (r.1 ≤ floor t) × (r.1 ≤ t.offset)
])

scan_line-LineDone :
    (line : Text) (s : Scan)
    → 0 < len line
    → Started s
    → LineDone line s (scan_line line s).0 (scan_line line s).1
unfolding scan_line LineDone
scan_line-LineDone line s h k = ground arith

-- The ranges of what is left, behind the range of a line.
Ranges-emit :
    (range : Option (ℕ × ℕ)) (line : Text) (s t : Scan) (high : ℕ) (ranges : List (ℕ × ℕ))
    → LineDone line s range t
    → t.offset ≤ high
    → Ranges (floor t) high ranges
    → Ranges (floor s) high (emit range ranges)
unfolding LineDone
Ranges-emit none line s t high ranges h k l = Ranges-lower (floor s) (floor t) high ranges h.2 l
Ranges-emit (some r) line s t high ranges (moved, started, (low, more, top, within)) k l =
    (low, more, omega arith, Ranges-lower r.1 (floor t) high ranges top l)

last_range :
    (s : Scan) (high : ℕ) → Started s → s.offset ≤ high → Ranges (floor s) high (blocks_from [] s).0
unfolding blocks_from
last_range s high k h = ground arith

Ranges-blocks_from :
    (lines : List Text) (s : Scan) (high : ℕ)
    → AllCons lines
    → Started s
    → s.offset + len (concat lines) ≡ high
    → Ranges (floor s) high (blocks_from lines s).0
unfolding blocks_from LineDone
Ranges-blocks_from [] s high h k e = last_range s high k (omega (arith, e))
Ranges-blocks_from (line ∷ lines) s high h k e =
    let (range, t) = scan_line line s in
    let (moved, started, within) = scan_line-LineDone line s (IsCons-len line h.0) k in
    let behind : t.offset + len (concat lines) ≡ high =
      omega (arith, len-append line (concat lines), e, moved) in
    Ranges-emit range line s t high (blocks_from lines t).0 (moved, started, within)
      (omega (arith, len-append line (concat lines), e, moved))
      (Ranges-blocks_from lines t high h.1 started behind)

-- The code blocks of a text are ranges inside it, in order and apart from each other.
pub block_code_ranges-Ranges :
    (markdown : Text) → Ranges 0 (len markdown) (block_code_ranges markdown).0
unfolding block_code_ranges
block_code_ranges-Ranges markdown =
    Ranges-blocks_from (split_inclusive markdown) at_start (len markdown)
      (split_inclusive-AllCons markdown) tt
      (omega (arith, ap len (concat-split_inclusive markdown)))
