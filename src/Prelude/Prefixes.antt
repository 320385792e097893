-- ===== src/Prelude/Prefixes.antt =====
-- Texts that begin other texts, and the ends of a text.
use doc_craft_agent.Prelude.Tests.{Bool-cases, some_injective}
use doc_craft_agent.Prelude.Strings.{
  Text, len, len_utf8, text_eq, eq_of_text_eq, trim_start, trim_end, is_whitespace,
}
use doc_craft_agent.Prelude.Cuts.{IsSuffix}
use Prim.Native.Nat.{ℕ, ◌≤◌}
use mathlib.Core.Path.{◌≡◌, refl, sym, ap, ◌∙◌}
use mathlib.Core.Logic.{inl, inr}
use mathlib.Core.Bool.{Bool, true, false}
use mathlib.Core.Option.{Option, none, some}
use mathlib.Core.List.{[], ◌∷◌, ◌++◌, reverse, reverse-append, reverse-reverse, cons-ne-nil}
use native.Mathlib.Omega.{arith}

abbrev pub IsPrefix : Text → Text → Type 0
IsPrefix s t = (rest : Text) × (s ++ rest ≡ t)

pub prefix_refl : (s : Text) → IsPrefix s s
prefix_refl [] = ([], refl)
prefix_refl (c ∷ s) = let (rest, e) = prefix_refl s in (rest, ap (λ t. c ∷ t) e)

pub prefix_append : (s t : Text) → IsPrefix s (s ++ t)
prefix_append s t = (t, refl)

prefix_assoc : (s t u : Text) → (s ++ t) ++ u ≡ s ++ (t ++ u)
prefix_assoc [] t u = refl
prefix_assoc (c ∷ s) t u = ap (λ r. c ∷ r) (prefix_assoc s t u)

pub prefix_trans : (s t u : Text) → IsPrefix s t → IsPrefix t u → IsPrefix s u
prefix_trans s t u (a, e) (b, f) = (a ++ b, sym (prefix_assoc s a b) ∙ ap (λ r. r ++ b) e ∙ f)

-- Of two beginnings of a text, the shorter one begins the other.
pub prefix_shorter : (s t u : Text) → IsPrefix s u → IsPrefix t u → len s ≤ len t → IsPrefix s t
unfolding len
prefix_shorter [] t u h k l = (t, refl)
prefix_shorter (c ∷ s) [] u h k l = absurd (ground arith)
prefix_shorter (c ∷ s) (d ∷ t) [] h (b, eb) l = absurd (cons-ne-nil _ _ eb)
prefix_shorter (c ∷ s) (d ∷ t) (e ∷ u) (a, ea) (b, eb) l =
    let same : c ≡ d = cc in
    let left : s ++ a ≡ u = cc in
    let right : t ++ b ≡ u = cc in
    let (rest, joined) =
      prefix_shorter s t u (a, left) (b, right) (omega (arith, l, ap len_utf8 same)) in
    (rest, cc)

trim_start-IsSuffix : (s : Text) → IsSuffix (trim_start s) s
unfolding trim_start
trim_start-IsSuffix [] = ([], refl)
trim_start-IsSuffix (c ∷ s) = elim (Bool-cases (is_whitespace c)) [
  | inl blank ↦ rw blank (let (front, e) = trim_start-IsSuffix s in (c ∷ front, ap (λ t. c ∷ t) e))
  | inr other ↦ rw other ([], refl)
]

-- What is left of a text without its last blanks begins it.
pub trim_end-IsPrefix : (s : Text) → IsPrefix (trim_end s) s
unfolding trim_end
trim_end-IsPrefix s =
    let (front, e) = trim_start-IsSuffix (reverse s) in
    (
      reverse front,
      sym (reverse-append front (trim_start (reverse s))) ∙ ap reverse e ∙ reverse-reverse s,
    )

-- the suffix starts here, or in the rest
unfoldable pub strip_at : ℕ → Bool → Option Text → Option Text
strip_at c true later = some []
strip_at c false none = none
strip_at c false (some s) = some (c ∷ s)

-- `s.strip_suffix(suffix)`
unfoldable pub strip_suffix : Text → Text → Option Text
unfolding strip_at
strip_suffix suffix [] = strip_at 0 (text_eq [] suffix) none
strip_suffix suffix (c ∷ s) = strip_at c (text_eq (c ∷ s) suffix) (strip_suffix suffix s)

strip_at-append :
    (c : ℕ) (here : Bool) (later : Option Text) (suffix s : Text) {front : Text}
    → (here ≡ true → c ∷ s ≡ suffix)
    → ((t : Text) → later ≡ some t → t ++ suffix ≡ s)
    → strip_at c here later ≡ some front
    → front ++ suffix ≡ c ∷ s
unfolding strip_at
strip_at-append c true later suffix s {front} k l h =
    let e : [] ≡ front = some_injective h in rw⁻¹ e (sym (k refl))
strip_at-append c false none suffix s k l h = cc
strip_at-append c false (some t) suffix s {front} k l h =
    let e : c ∷ t ≡ front = some_injective h in rw⁻¹ e (ap (λ r. c ∷ r) (l t refl))

pub strip_suffix-append :
    (suffix s : Text) {front : Text} → strip_suffix suffix s ≡ some front → front ++ suffix ≡ s
unfolding strip_suffix
strip_suffix-append suffix [] h = ground (arith, eq_of_text_eq [] suffix)
strip_suffix-append suffix (c ∷ s) h =
    strip_at-append c (text_eq (c ∷ s) suffix) (strip_suffix suffix s) suffix s
      (eq_of_text_eq (c ∷ s) suffix) (λ t e. strip_suffix-append suffix s e) h
