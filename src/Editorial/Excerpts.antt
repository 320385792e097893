-- ===== src/Editorial/Excerpts.antt =====
-- `excerpt` of backend/src/editorial.rs: a text shortened to its beginning and its end.
use doc_craft_agent.Prelude.{
  ℕ, ◌-◌, ◌/◌, ◌≤◌, ◌<◌, ◌≡◌, ◌⊎◌, refl, ap, inl, inr, false, [], ◌∷◌, ◌++◌, arith, leb, ltb, ◌==◌,
  if◌then◌else◌, Text, text, len, len_utf8, Bool-cases,
}
use doc_craft_agent.Prelude.Cuts.{fit, skip, len-fit, skip-bytes, skip-IsSuffix, len-append}

abbrev pub gap : Text
gap = text "\n[… excerpt …]\n"

abbrev usable : ℕ → ℕ
usable limit = limit - len gap

unfoldable pub excerpt : Text → ℕ → Text
unfolding fit skip
excerpt s limit =
    let head = usable limit / 2 in
    let tail = len s - (usable limit - head) in
    if leb (len s) limit
    then s
    else if ltb limit (len gap)
    then []
    else (fit head s).0 ++ (gap ++ skip tail s)

-- A beginning of at most `h` bytes and what stands behind the first `t` do not overlap.
fit-skip :
    (h t : ℕ) (s : Text) → h ≤ t → (middle : Text) × ((fit h s).0 ++ (middle ++ skip t s) ≡ s)
unfolding fit skip
fit-skip h t [] k = ([], refl)
fit-skip h t (c ∷ s) k = elim (Bool-cases (leb (len_utf8 c) h)) [
  | inl fits ↦
      let (middle, e) = fit-skip (h - len_utf8 c) (t - len_utf8 c) s (omega arith) in
      let positive : (t == 0) ≡ false = ground arith in
      rw (fits, positive) (middle, ap (λ r. c ∷ r) e)
  | inr full ↦ rw full (skip-IsSuffix t (c ∷ s))
]

gap_bytes : len gap ≡ 19
unfolding len
gap_bytes = refl

empty_bytes : len [] ≡ 0
unfolding len
empty_bytes = refl

-- the excerpt of a text that does not fit, where the mark does
abbrev short : Text → ℕ → Text
short s limit =
    let head = usable limit / 2 in (fit head s).0 ++ (gap ++ skip (len s - (usable limit - head)) s)

short_bytes : (s : Text) (limit : ℕ) → len gap ≤ limit → limit < len s → len (short s limit) ≤ limit
short_bytes s limit h k =
    let head = usable limit / 2 in
    let tail = len s - (usable limit - head) in
    omega (
      arith,
      len-append (fit head s).0 (gap ++ skip tail s),
      len-append gap (skip tail s),
      len-fit head s,
      skip-bytes tail s,
      h,
      k,
    )

short_parts :
    (s : Text) (limit : ℕ)
    → limit < len s
    → (middle : Text) × ((fit (usable limit / 2) s).0
          ++ (middle ++ skip (len s - (usable limit - usable limit / 2)) s)
        ≡ s)
short_parts s limit k =
    fit-skip (usable limit / 2) (len s - (usable limit - usable limit / 2)) s (omega arith)

-- An excerpt has at most the bytes allowed. It is the text where that fits, nothing where the mark of
-- the gap does not fit, and else a beginning and an end of the text around that mark.
pub excerpt_lem :
    (s : Text) (limit : ℕ)
    → (len (excerpt s limit) ≤ limit)
      × ((excerpt s limit ≡ s)
          ⊎ ((excerpt s limit ≡ []) × (limit < 19))
          ⊎ ((front middle back : Text) × (front ++ (middle ++ back) ≡ s)
              × (excerpt s limit ≡ front ++ (gap ++ back))))
unfolding excerpt
excerpt_lem s limit = elim (Bool-cases (leb (len s) limit)) [
  | inl fits ↦ rw fits (ground arith, inl refl)
  | inr longer ↦ elim (Bool-cases (ltb limit (len gap))) [
    | inl none_fits ↦
        rw (longer, none_fits)
          (ground (arith, empty_bytes), inr (inl (refl, ground (arith, gap_bytes))))
    | inr marked ↦
        rw (longer, marked)
          (
            short_bytes s limit (ground arith) (ground arith),
            inr (
                inr (
                  (fit (usable limit / 2) s).0,
                  (short_parts s limit (ground arith)).0,
                  skip (len s - (usable limit - usable limit / 2)) s,
                  (short_parts s limit (ground arith)).1,
                  refl,
                )),
          )
  ]
]
