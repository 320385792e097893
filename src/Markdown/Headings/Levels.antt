-- ===== src/Markdown/Headings/Levels.antt =====
-- The levels that headings are written at (`normalize_section_headings` of
-- backend/src/markdown.rs).
use doc_craft_agent.Prelude.{
  ℕ, ◌+◌, ◌≤◌, ◌<◌, ◌≡◌, true, false, ◌⊎◌, Option, none, some, List, [], ◌∷◌, ◌++◌, replicate, Text,
}
use doc_craft_agent.Markdown.Headings.{Heading, is_title}

-- a level that a heading of level `n` is written at
abbrev pub Moved : ℕ → ℕ → ℕ → Type 0
Moved shift n level = (n < 3 × level ≡ 3) ⊎ (level + shift ≡ n)

module _ (lowercase : ℕ → Text) (title : Text) where
  -- lines, and the lines that are written for them
  pub data Leveled (shift : ℕ) : List (Text × Option Heading) → List Text → Type 0 where
    nothing : Leveled shift [] []
    plain :
        (line : Text) {ls : List (Text × Option Heading)} {out : List Text}
        → Leveled shift ls out
        → Leveled shift ((line, none) ∷ ls) (line ∷ out)
    repeated :
        (line : Text) (h : Heading) {ls : List (Text × Option Heading)} {out : List Text}
        → is_title lowercase title h ≡ true
        → Leveled shift ls out
        → Leveled shift ((line, some h) ∷ ls) out
    moved :
        (line : Text) (h : Heading) (level : ℕ) {ls : List (Text × Option Heading)}
        {out : List Text}
        → is_title lowercase title h ≡ false
        → 3 ≤ level
        → level ≤ 6
        → Moved shift h.level level
        → Leveled shift ls out
        → Leveled shift ((line, some h) ∷ ls) ((replicate level b'#' ++ (32 ∷ h.content)) ∷ out)

  -- headings of six marks at most, and of `b` at least where they do not repeat the title
  abbrev Between : ℕ → List (Text × Option Heading) → Type 0
  Between b [] = Unit
  Between b ((line, none) ∷ ls) = Between b ls
  Between b ((line, some h) ∷ ls) =
      ((is_title lowercase title h ≡ false → b ≤ h.level) × (h.level ≤ 6)) × Between b ls

  abbrev Short : List (Text × Option Heading) → Type 0
  Short [] = Unit
  Short ((line, none) ∷ ls) = Short ls
  Short ((line, some h) ∷ ls) = (h.level ≤ 6) × Short ls

  abbrev Under : ℕ → Option ℕ → Type 0
  Under b none = Unit
  Under b (some m) = b ≤ m

-- the least level, or nothing
abbrev lowest : Option ℕ → ℕ
lowest none = 0
lowest (some m) = m
