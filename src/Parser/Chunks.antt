-- ===== src/Parser/Chunks.antt =====
-- Nothing of a file is lost when backend/src/parser.rs cuts it into chunks.
use doc_craft_agent.Prelude.{
  ℕ, zero, suc, ◌+◌, ◌-◌, ◌≤◌, ◌<◌, max, ◌≡◌, refl, ◌∙◌, Option, none, some, List, [], ◌∷◌, ◌++◌,
  arith, Text, len, length,
}
use doc_craft_agent.Prelude.Cuts.{
  fit, cut_line, newlines, ends_line, fit-append, len-fit, fit-IsCons, cut_line-append, IsCons,
  IsPiece, cut_at-IsPiece, length_rest,
}
use doc_craft_agent.Parser.{
  Chunk, chunk_bytes, later_boundary, last_boundary, cut_chunk, chunk_at, symbols_in, chunk,
  chunks_from, chunk_text,
}

-- a text without its last character
abbrev pub without_last : Text → Text
without_last [] = []
without_last (c ∷ []) = []
without_last (c ∷ d ∷ s) = c ∷ without_last (d ∷ s)

-- The newlines of a text are those before its last character, and that one.
newlines-without_last : (s : Text) → newlines s ≡ newlines (without_last s) + ends_line s
unfolding newlines ends_line
newlines-without_last [] = omega arith
newlines-without_last (c ∷ []) = omega arith
newlines-without_last (c ∷ d ∷ s) = omega (arith, newlines-without_last (d ∷ s))

-- The chunks follow each other through the text from an offset and a line on.
abbrev pub Chunked : List (ℕ × Text) → ℕ → ℕ → Text → List Chunk → Type 0
Chunked names start line s [] = s ≡ []
Chunked names start line s (c ∷ cs) =
    (rest : Text) × (c.content ++ rest ≡ s)
    × IsCons c.content
    × (len c.content ≤ chunk_bytes)
    × (c.start ≡ line)
    × (c.end ≡ line + newlines (without_last c.content))
    × (c.symbols ≡ symbols_in start (start + len c.content) names)
    × Chunked names (start + len c.content) (line + newlines c.content) rest cs

later_boundary_bounds :
    (c low high : ℕ) (rest : Option ℕ) {b : ℕ}
    → ((d : ℕ) → rest ≡ some d → (low < d) × (d ≤ high))
    → later_boundary c low high rest ≡ some b
    → (low < b) × (b ≤ high)
unfolding later_boundary
later_boundary_bounds c low high none k h = ground arith
later_boundary_bounds c low high (some d) k h = let within = k d refl in ground arith

last_boundary_bounds :
    (bs : List ℕ) (low high : ℕ) {b : ℕ}
    → last_boundary bs low high ≡ some b
    → (low < b) × (b ≤ high)
unfolding last_boundary
last_boundary_bounds [] low high h = cc
last_boundary_bounds (c ∷ bs) low high h =
    later_boundary_bounds c low high (last_boundary bs low high)
      (λ d e. last_boundary_bounds bs low high e) h

cut_chunk-IsPiece :
    (o : Option ℕ) (start c : ℕ) (s front back : Text)
    → ((b : ℕ) → o ≡ some b → (start + 4000 < b) × (b ≤ start + chunk_bytes))
    → front ++ back ≡ c ∷ s
    → IsCons front
    → len front ≤ chunk_bytes
    → IsPiece chunk_bytes (c ∷ s) (cut_chunk o start (c ∷ s) front back)
unfolding cut_chunk
cut_chunk-IsPiece (some b) start c s front back bounds e h k =
    let within = bounds b refl in
    (
      fit-append (b - start) (c ∷ s),
      fit-IsCons (b - start) c s (omega arith),
      omega (arith, len-fit (b - start) (c ∷ s)),
    )
cut_chunk-IsPiece none start c s front back bounds e h k =
    let (joined, more, short) =
      cut_at-IsPiece chunk_bytes front back (cut_line front) (λ parts e. cut_line-append front e) h
        k in
    (joined ∙ e, more, short)

chunk_at-IsPiece :
    (boundaries : List ℕ) (start c : ℕ) (s : Text) (parts : Text × Text)
    → IsPiece chunk_bytes (c ∷ s) parts
    → IsPiece chunk_bytes (c ∷ s) (chunk_at boundaries start (c ∷ s) parts)
unfolding chunk_at
chunk_at-IsPiece boundaries start c s (front, []) h = h
chunk_at-IsPiece boundaries start c s (front, d ∷ back) (joined, more, short) =
    cut_chunk-IsPiece (last_boundary boundaries (start + 4000) (start + len front)) start c s front
      (d ∷ back)
      (λ b e.
        let within = last_boundary_bounds boundaries (start + 4000) (start + len front) e in
        (within.0, omega arith))
      joined more short

-- the line that the last character of a chunk stands on
end_of_chunk :
    (line : ℕ) (content : Text)
    → max (line + newlines content - ends_line content) line
      ≡ line + newlines (without_last content)
end_of_chunk line content = omega (arith, newlines-without_last content)

module _ (boundaries : List ℕ) (names : List (ℕ × Text)) where
  Chunked-chunks_from :
      (fuel start line : ℕ) (s : Text)
      → length s ≤ fuel
      → Chunked names start line s (chunks_from boundaries names fuel start line s)
  unfolding chunks_from chunk
  Chunked-chunks_from fuel start line [] h = refl
  Chunked-chunks_from zero start line (c ∷ s) h = absurd (ground arith)
  Chunked-chunks_from (suc fuel) start line (c ∷ s) h =
      let (content, rest) = chunk_at boundaries start (c ∷ s) (fit chunk_bytes (c ∷ s)) in
      let (joined, more, short) = chunk_at-IsPiece boundaries start c s (fit chunk_bytes (c ∷ s)) (
        fit-append chunk_bytes (c ∷ s),
        fit-IsCons chunk_bytes c s (omega arith),
        len-fit chunk_bytes (c ∷ s),
      ) in
      (
        rest,
        joined,
        more,
        short,
        refl,
        end_of_chunk line content,
        refl,
        Chunked-chunks_from fuel (start + len content) (line + newlines content) rest
            (length_rest content rest fuel more (rw joined h)),
      )

  -- The chunks of a file are its text in order with nothing lost: each one is not empty, has at most
  -- 12,000 bytes, bears the lines on which its first and its last character stand, and has the names
  -- that stand in its bytes.
  pub chunk_text-Chunked :
      (content : Text) → Chunked names 0 1 content (chunk_text boundaries names content)
  unfolding chunk_text
  chunk_text-Chunked content = Chunked-chunks_from (length content) 0 1 content (omega arith)
