-- ===== src/Parser.antt =====
-- `chunk_text` of backend/src/parser.rs: a file is cut into chunks at the boundaries of its
-- declarations, which tree-sitter finds and which enter as byte offsets.
pub mod Chunks
mod Tests
use doc_craft_agent.Prelude.{
  ℕ, zero, suc, ◌+◌, ◌-◌, max, ◌&&◌, Option, none, some, List, [], ◌∷◌, leb, ltb, if◌then◌else◌,
  Text, len, length,
}
use doc_craft_agent.Prelude.Cuts.{fit, cut_at, cut_line, newlines, ends_line}

pub record Chunk : Type 0 where
  pub start : ℕ
  pub end : ℕ
  pub symbols : List Text
  pub content : Text

abbrev pub chunk_bytes : ℕ
chunk_bytes = 12_000

abbrev larger : ℕ → Option ℕ → ℕ
larger b none = b
larger b (some c) = max b c

-- one of them before the others
unfoldable pub later_boundary : ℕ → ℕ → ℕ → Option ℕ → Option ℕ
later_boundary b low high rest = if ltb low b && leb b high then some (larger b rest) else rest

-- the last boundary above `low`, at most `high`
unfoldable pub last_boundary : List ℕ → ℕ → ℕ → Option ℕ
unfolding later_boundary
last_boundary [] low high = none
last_boundary (b ∷ bs) low high = later_boundary b low high (last_boundary bs low high)

-- where a chunk ends that the byte limit cuts off: `back` stands behind the limit
unfoldable pub cut_chunk : Option ℕ → ℕ → Text → Text → Text → Text × Text
unfolding cut_at
cut_chunk (some b) start s front back = fit (b - start) s
cut_chunk none start s front back = cut_at front back (cut_line front)

-- the chunk at the offset `start`, with what stands behind it
unfoldable pub chunk_at : List ℕ → ℕ → Text → Text × Text → Text × Text
unfolding cut_chunk
chunk_at boundaries start s (front, []) = (front, [])
chunk_at boundaries start s (front, c ∷ back) =
    cut_chunk (last_boundary boundaries (start + 4000) (start + len front)) start s front (c ∷ back)

-- the names that stand between two offsets
unfoldable pub symbols_in : ℕ → ℕ → List (ℕ × Text) → List Text
symbols_in start end [] = []
symbols_in start end ((at, name) ∷ names) =
    if leb start at && ltb at end
    then name ∷ symbols_in start end names
    else symbols_in start end names

unfoldable pub chunk : List (ℕ × Text) → ℕ → ℕ → Text → Chunk
chunk names start line content = record {
  start = line;
  end = max (line + newlines content - ends_line content) line;
  symbols = symbols_in start (start + len content) names;
  content = content;
}

module _ (boundaries : List ℕ) (names : List (ℕ × Text)) where
  -- the loop over what is left of the file, with fuel
  unfoldable pub chunks_from : ℕ → ℕ → ℕ → Text → List Chunk
  unfolding chunk_at chunk
  chunks_from fuel start line [] = []
  chunks_from zero start line (c ∷ s) = []
  chunks_from (suc fuel) start line (c ∷ s) =
      let (content, rest) = chunk_at boundaries start (c ∷ s) (fit chunk_bytes (c ∷ s)) in
      chunk names start line content
      ∷ chunks_from fuel (start + len content) (line + newlines content) rest

  unfoldable pub chunk_text : Text → List Chunk
  unfolding chunks_from
  chunk_text content = chunks_from (length content) 0 1 content
