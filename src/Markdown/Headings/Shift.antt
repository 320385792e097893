-- ===== src/Markdown/Headings/Shift.antt =====
-- By how much the headings of a section go up (`normalize_section_headings` of
-- backend/src/markdown.rs).
use doc_craft_agent.Prelude.{
  ℕ, min, ◌+◌, ◌≤◌, ◌≡◌, refl, sym, true, false, ◌⊎◌, Option, none, some, List, [], ◌∷◌, ltb, arith,
  Bool-cases, inl, inr, Text,
}
use doc_craft_agent.Markdown.Headings.{Heading, least, shift_of, is_title, minimum}

module _ (lowercase : ℕ → Text) (title : Text) where
  -- no heading, but for those that repeat the title
  abbrev pub NoHeading : List (Text × Option Heading) → Type 0
  NoHeading [] = Unit
  NoHeading ((line, none) ∷ ls) = NoHeading ls
  NoHeading ((line, some h) ∷ ls) = (is_title lowercase title h ≡ true) × NoHeading ls

  -- a heading of the level, that does not repeat the title
  abbrev pub HasHeading : ℕ → List (Text × Option Heading) → Type 0
  HasHeading level [] = ⊥
  HasHeading level ((line, none) ∷ ls) = HasHeading level ls
  HasHeading level ((line, some h) ∷ ls) =
      ((is_title lowercase title h ≡ false) × (h.level ≡ level)) ⊎ HasHeading level ls

  -- what is known of the least level
  abbrev pub Least : Option ℕ → List (Text × Option Heading) → Type 0
  Least none ls = NoHeading ls
  Least (some level) ls = HasHeading level ls

  HasHeading-same :
      (a b : ℕ) (ls : List (Text × Option Heading)) → a ≡ b → HasHeading b ls → HasHeading a ls
  HasHeading-same a b ls same l = rw same l

  Least-heading :
      (line : Text) (h : Heading) (ls : List (Text × Option Heading)) (o : Option ℕ)
      → is_title lowercase title h ≡ false
      → Least o ls
      → Least (least h.level o) ((line, some h) ∷ ls)
  Least-heading line h ls none other l = inl (other, refl)
  Least-heading line h ls (some m) other l = elim (least_of h.level m) [
    | inl own ↦ inl (other, sym own)
    | inr later ↦ inr (HasHeading-same _ _ ls later l)
  ]
    where
      least_of : (a b : ℕ) → (min a b ≡ a) ⊎ (min a b ≡ b)
      least_of a b = omega arith

  pub minimum-Least : (ls : List (Text × Option Heading)) → Least (minimum lowercase title ls) ls
  unfolding minimum
  minimum-Least [] = tt
  minimum-Least ((line, none) ∷ ls) = plain_line (minimum lowercase title ls) (minimum-Least ls)
    where
      plain_line : (o : Option ℕ) → Least o ls → Least o ((line, none) ∷ ls)
      plain_line none l = l
      plain_line (some m) l = l
  minimum-Least ((line, some h) ∷ ls) = elim (Bool-cases (is_title lowercase title h)) [
    | inl same ↦ rw same (dropped same (minimum lowercase title ls) (minimum-Least ls))
    | inr other ↦
        rw other (Least-heading line h ls (minimum lowercase title ls) other (minimum-Least ls))
  ]
    where
      dropped :
          is_title lowercase title h ≡ true
          → (o : Option ℕ) → Least o ls
          → Least o ((line, some h) ∷ ls)
      dropped same none l = (same, l)
      dropped same (some m) l = inr l

  -- by how much the headings go up: the highest of them comes to three, unless it stands there or
  -- above
  abbrev pub Shifted : ℕ → List (Text × Option Heading) → Type 0
  Shifted shift ls =
      (NoHeading ls × (shift ≡ 0))
      ⊎ ((level : ℕ) × HasHeading level ls × (((level ≤ 3) × (shift ≡ 0)) ⊎ (level ≡ shift + 3)))

  pub shift_of-Shifted :
      (o : Option ℕ) (ls : List (Text × Option Heading)) → Least o ls → Shifted (shift_of o) ls
  shift_of-Shifted none ls l = inl (l, refl)
  shift_of-Shifted (some m) ls l = elim (Bool-cases (ltb 3 m)) [
    | inl deep ↦ rw deep (inr (m, l, inr (ground arith)))
    | inr shallow ↦ rw shallow (inr (m, l, inl (ground arith, refl)))
  ]
