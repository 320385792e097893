-- ===== src/Prelude/Cuts.antt =====
-- Cutting a text at a number of bytes, as `is_char_boundary` and slices of `str` do it, and at the
-- ends of its lines.
use doc_craft_agent.Prelude.Tests.{ltb, leb, ◌==◌, if◌then◌else◌, Bool-cases, some_injective}
use doc_craft_agent.Prelude.Strings.{Text, len, len_utf8}
use Prim.Native.Nat.{ℕ, zero, suc, ◌+◌, ◌-◌, ◌/◌, ◌%◌, ◌≤◌}
use mathlib.Core.Path.{◌≡◌, refl, sym, ap, ◌∙◌}
use mathlib.Core.Logic.{inl, inr}
use mathlib.Core.Bool.{true, false}
use mathlib.Core.Option.{Option, none, some}
use mathlib.Core.List.{List, [], ◌∷◌, ◌++◌}
use doc_craft_agent.Prelude.Lists.{length, length-append}
use native.Mathlib.Omega.{arith}

-- Both parts of the text at the last boundary of a character within `n` bytes.
unfoldable pub fit : ℕ → Text → Text × Text
fit n [] = ([], [])
fit n (c ∷ s) =
    let (front, back) = fit (n - len_utf8 c) s in
    if leb (len_utf8 c) n then (c ∷ front, back) else ([], c ∷ s)

abbrev pub newline : ℕ
newline = 10

-- a character before a text that is cut, or not
unfoldable pub cut_before : ℕ → Text → Option (Text × Text) → Option (Text × Text)
cut_before c s (some parts) = some (c ∷ parts.0, parts.1)
cut_before c s none = if c == newline then some (c ∷ [], s) else none

-- Both parts behind the last newline, `s.rfind('\n')`.
unfoldable pub cut_line : Text → Option (Text × Text)
unfolding cut_before
cut_line [] = none
cut_line (c ∷ s) = cut_before c s (cut_line s)

abbrev before_lines : ℕ → List Text → List Text
before_lines c [] = (c ∷ []) ∷ []
before_lines c (line ∷ lines) = (c ∷ line) ∷ lines

-- `s.split_inclusive('\n')`
unfoldable pub split_inclusive : Text → List Text
split_inclusive [] = []
split_inclusive (c ∷ s) =
    let lines = split_inclusive s in if c == newline then (c ∷ []) ∷ lines else before_lines c lines

abbrev pub concat : List Text → Text
concat [] = []
concat (line ∷ lines) = line ++ concat lines

-- What stands behind the first `n` bytes, and the rest of a character that they cut.
unfoldable pub skip : ℕ → Text → Text
skip n [] = []
skip n (c ∷ s) = let rest = skip (n - len_utf8 c) s in if n == 0 then c ∷ s else rest

-- `bytes().filter(|b| *b == b'\n').count()`
unfoldable pub newlines : Text → ℕ
newlines [] = 0
newlines (c ∷ s) = (if c == newline then 1 else 0) + newlines s

-- `u32::from(s.ends_with('\n'))`
unfoldable pub ends_line : Text → ℕ
ends_line [] = 0
ends_line (c ∷ []) = if c == newline then 1 else 0
ends_line (c ∷ d ∷ s) = ends_line (d ∷ s)

-- a number in decimal, of at most 20 digits
unfoldable pub decimal_from : ℕ → ℕ → Text → Text
decimal_from zero n out = out
decimal_from (suc fuel) n out = elim (ltb n 10) [
  | true ↦ (b'0' + n) ∷ out
  | false ↦ decimal_from fuel (n / 10) ((b'0' + n % 10) ∷ out)
]

unfoldable pub decimal : ℕ → Text
unfolding decimal_from
decimal n = decimal_from 20 n []

pub fit-append : (n : ℕ) (s : Text) → (fit n s).0 ++ (fit n s).1 ≡ s
unfolding fit
fit-append n [] = refl
fit-append n (c ∷ s) = ground (arith, fit-append (n - len_utf8 c) s)

pub len-fit : (n : ℕ) (s : Text) → len (fit n s).0 ≤ n
unfolding fit len
len-fit n [] = omega arith
len-fit n (c ∷ s) = ground (arith, len-fit (n - len_utf8 c) s)

abbrev pub IsCons : Text → Type 0
IsCons [] = ⊥
IsCons (c ∷ s) = Unit

-- Four bytes hold a character.
pub fit-IsCons : (n c : ℕ) (s : Text) → 4 ≤ n → IsCons (fit n (c ∷ s)).0
unfolding fit
fit-IsCons n c s h = ground arith

cut_before-append :
    (c : ℕ) (s : Text) (o : Option (Text × Text)) {parts : Text × Text}
    → ((p : Text × Text) → o ≡ some p → p.0 ++ p.1 ≡ s)
    → cut_before c s o ≡ some parts
    → (parts.0 ++ parts.1 ≡ c ∷ s) × IsCons parts.0
unfolding cut_before
cut_before-append c s (some p) {parts} k h =
    let e : (c ∷ p.0, p.1) ≡ parts = some_injective h in rw⁻¹ e (ap (λ t. c ∷ t) (k p refl), tt)
cut_before-append c s none {parts} k h = elim (Bool-cases (c == newline)) [
  | inl line ↦ ground arith
  | inr other ↦ ground arith
]

-- Both parts of a cut behind a newline.
pub cut_line-append :
    (s : Text) {parts : Text × Text}
    → cut_line s ≡ some parts
    → (parts.0 ++ parts.1 ≡ s) × IsCons parts.0
unfolding cut_line
cut_line-append [] h = cc
cut_line-append (c ∷ s) h = cut_before-append c s (cut_line s) (λ p e. (cut_line-append s e).0) h

pub len-append : (s t : Text) → len (s ++ t) ≡ len s + len t
unfolding len
len-append [] t = omega arith
len-append (c ∷ s) t = omega (arith, len-append s t)

-- where a piece ends that is not the last one: behind its last newline, if it has one
unfoldable pub cut_at : Text → Text → Option (Text × Text) → Text × Text
cut_at front back none = (front, back)
cut_at front back (some parts) = (parts.0, parts.1 ++ back)

-- The piece and the rest are the text, and the piece is not empty and has at most `most` bytes.
abbrev pub IsPiece : ℕ → Text → Text × Text → Type 0
IsPiece most s parts = (parts.0 ++ parts.1 ≡ s) × IsCons parts.0 × (len parts.0 ≤ most)

append_assoc : (s t u : Text) → (s ++ t) ++ u ≡ s ++ (t ++ u)
append_assoc [] t u = refl
append_assoc (c ∷ s) t u = ap (λ r. c ∷ r) (append_assoc s t u)

len_front : {most : ℕ} (front back s : Text) → front ++ back ≡ s → len s ≤ most → len front ≤ most
len_front front back s e h = omega (arith, len-append front back, ap len e, h)

pub cut_at-IsPiece :
    (most : ℕ) (front back : Text) (o : Option (Text × Text))
    → ((parts : Text × Text) → o ≡ some parts → (parts.0 ++ parts.1 ≡ front) × IsCons parts.0)
    → IsCons front
    → len front ≤ most
    → IsPiece most (front ++ back) (cut_at front back o)
unfolding cut_at
cut_at-IsPiece most front back none cut h k = (refl, h, k)
cut_at-IsPiece most front back (some parts) cut h k =
    let (joined, more) = cut parts refl in
    (
      sym (append_assoc parts.0 parts.1 back) ∙ ap (λ t. t ++ back) joined,
      more,
      len_front parts.0 parts.1 front joined k,
    )

pub length_rest :
    (front back : Text) (n : ℕ) → IsCons front → length (front ++ back) ≤ suc n → length back ≤ n
length_rest [] back n h k = absurd h
length_rest (c ∷ front) back n h k = omega (arith, length-append front back, k)

concat-before_lines : (c : ℕ) (lines : List Text) → concat (before_lines c lines) ≡ c ∷ concat lines
concat-before_lines c [] = refl
concat-before_lines c (line ∷ lines) = refl

-- The lines of a text are the text.
pub concat-split_inclusive : (s : Text) → concat (split_inclusive s) ≡ s
unfolding split_inclusive
concat-split_inclusive [] = refl
concat-split_inclusive (c ∷ s) =
    ground (arith, concat-before_lines c (split_inclusive s), concat-split_inclusive s)

abbrev pub AllCons : List Text → Type 0
AllCons [] = Unit
AllCons (line ∷ lines) = IsCons line × AllCons lines

before_lines-AllCons : (c : ℕ) (lines : List Text) → AllCons lines → AllCons (before_lines c lines)
before_lines-AllCons c [] h = (tt, tt)
before_lines-AllCons c (line ∷ lines) h = (tt, h.1)

-- No line is empty.
pub split_inclusive-AllCons : (s : Text) → AllCons (split_inclusive s)
unfolding split_inclusive
split_inclusive-AllCons [] = tt
split_inclusive-AllCons (c ∷ s) = elim (Bool-cases (c == newline)) [
  | inl line ↦ rw line (tt, split_inclusive-AllCons s)
  | inr other ↦ rw other (before_lines-AllCons c (split_inclusive s) (split_inclusive-AllCons s))
]

pub skip-bytes : (n : ℕ) (s : Text) → len (skip n s) ≤ len s - n
unfolding skip len
skip-bytes n [] = omega arith
skip-bytes n (c ∷ s) = ground (arith, skip-bytes (n - len_utf8 c) s)

abbrev pub IsSuffix : Text → Text → Type 0
IsSuffix t s = (front : Text) × (front ++ t ≡ s)

pub skip-IsSuffix : (n : ℕ) (s : Text) → IsSuffix (skip n s) s
unfolding skip
skip-IsSuffix n [] = ([], refl)
skip-IsSuffix n (c ∷ s) = elim (Bool-cases (n == 0)) [
  | inl all ↦ rw all ([], refl)
  | inr some_bytes ↦
      let (front, e) = skip-IsSuffix (n - len_utf8 c) s in
      rw some_bytes (c ∷ front, ap (λ t. c ∷ t) e)
]
