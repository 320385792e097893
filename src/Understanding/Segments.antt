-- ===== src/Understanding/Segments.antt =====
-- `segments` of backend/src/understanding.rs: a passage too long for one request is cut into pieces,
-- at the ends of lines where it has them. SHA-256 (`source::hash`) is a parameter.
use doc_craft_agent.Prelude.{
  ℕ, zero, suc, ◌+◌, ◌-◌, ◌≤◌, max, ◌≡◌, refl, ◌∙◌, List, [], ◌∷◌, ◌++◌, arith, Text, text, len,
  length,
}
use doc_craft_agent.Prelude.Cuts.{
  fit, cut_line, newlines, ends_line, decimal, fit-append, len-fit, fit-IsCons, cut_line-append,
  IsCons, IsPiece, cut_at, cut_at-IsPiece, length_rest,
}
use doc_craft_agent.Model.{Evidence}

-- where a piece ends that is not the last one: behind its last newline, if it has one
unfoldable pub cut_piece : Text → Text → Text × Text
unfolding cut_at
cut_piece front [] = (front, [])
cut_piece front (c ∷ back) = cut_at front (c ∷ back) (cut_line front)

-- the first piece, of at most `max maximum 4` bytes, and what stands behind it
unfoldable pub piece : ℕ → Text → Text × Text
unfolding cut_piece
piece maximum s = let (front, back) = fit (max maximum 4) s in cut_piece front back

module _ (hash : Text → Text) where
  unfoldable pub segment : Text → ℕ → Text → Evidence
  segment path line content = record {
    id = hash (path ++ text ":" ++ decimal line ++ text ":" ++ hash content);
    path = path;
    start = line;
    end = line + newlines content - ends_line content;
    content = content;
  }

  -- the loop over what is left of the content, with fuel
  unfoldable pub segments_from : ℕ → ℕ → Text → ℕ → Text → List Evidence
  unfolding piece segment
  segments_from fuel maximum path line [] = []
  segments_from zero maximum path line (c ∷ s) = []
  segments_from (suc fuel) maximum path line (c ∷ s) =
      let (content, rest) = piece maximum (c ∷ s) in
      segment path line content ∷ segments_from fuel maximum path (line + newlines content) rest

  unfoldable pub segments : Evidence → ℕ → List Evidence
  unfolding segments_from
  segments e maximum = segments_from (length e.content) maximum e.path e.start e.content

-- The pieces follow each other through the text, none is empty, and each has at most `most` bytes;
-- its lines are counted from `line`.
abbrev pub Cuts : ℕ → Text → ℕ → Text → List Evidence → Type 0
Cuts most path line s [] = s ≡ []
Cuts most path line s (e ∷ es) =
    (rest : Text) × (e.content ++ rest ≡ s)
    × IsCons e.content
    × (len e.content ≤ most)
    × (e.path ≡ path)
    × (e.start ≡ line)
    × (e.end ≡ line + newlines e.content - ends_line e.content)
    × Cuts most path (line + newlines e.content) rest es

cut_piece-IsPiece :
    (most : ℕ) (front back whole : Text)
    → front ++ back ≡ whole
    → IsCons front
    → len front ≤ most
    → IsPiece most whole (cut_piece front back)
unfolding cut_piece
cut_piece-IsPiece most front [] whole e h k = (e, h, k)
cut_piece-IsPiece most front (c ∷ back) whole e h k =
    let (joined, more, short) =
      cut_at-IsPiece most front (c ∷ back) (cut_line front) (λ parts e. cut_line-append front e) h
        k in
    (joined ∙ e, more, short)

piece-IsPiece : (maximum c : ℕ) (s : Text) → IsPiece (max maximum 4) (c ∷ s) (piece maximum (c ∷ s))
unfolding piece
piece-IsPiece maximum c s =
    let most = max maximum 4 in
    cut_piece-IsPiece most (fit most (c ∷ s)).0 (fit most (c ∷ s)).1 (c ∷ s)
      (fit-append most (c ∷ s)) (fit-IsCons most c s (omega arith)) (len-fit most (c ∷ s))

module _ (hash : Text → Text) where
  Cuts-segments_from :
      (fuel maximum : ℕ) (path : Text) (line : ℕ) (s : Text)
      → length s ≤ fuel
      → Cuts (max maximum 4) path line s (segments_from hash fuel maximum path line s)
  unfolding segments_from segment
  Cuts-segments_from fuel maximum path line [] h = refl
  Cuts-segments_from zero maximum path line (c ∷ s) h = absurd (ground arith)
  Cuts-segments_from (suc fuel) maximum path line (c ∷ s) h =
      let (content, rest) = piece maximum (c ∷ s) in
      let (joined, more, short) = piece-IsPiece maximum c s in
      (
        rest,
        joined,
        more,
        short,
        refl,
        refl,
        refl,
        Cuts-segments_from fuel maximum path (line + newlines content) rest
            (length_rest content rest fuel more (rw joined h)),
      )

  -- The segments of a passage are its content in order with nothing lost: each one is not empty, has
  -- at most the bytes allowed (four at least), and bears the path and the lines that it stands on.
  pub segments-Cuts :
      (e : Evidence) (maximum : ℕ)
      → Cuts (max maximum 4) e.path e.start e.content (segments hash e maximum)
  unfolding segments
  segments-Cuts e maximum =
      Cuts-segments_from (length e.content) maximum e.path e.start e.content (omega arith)
