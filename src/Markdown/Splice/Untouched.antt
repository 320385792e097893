-- ===== src/Markdown/Splice/Untouched.antt =====
-- A repair changes only the subsections it was shown (`splice_subsections` of
-- backend/src/markdown.rs).
use doc_craft_agent.Prelude.{
  ℕ, zero, suc, ◌+◌, ◌*◌, ◌≡◌, ◌≢◌, refl, ap, ◌∙◌, Bool, true, false, not, Option, none, some, List,
  [], ◌∷◌, ok, ensure->>=-ok, ensure-ok, >>=-eq-ok, ok_injective, leb, ltb, ◌==◌, length, get_or,
  get_elem?, length-set, length-replicate, set, replicate, sum, map, Text, len, is_empty, trim,
  filter, any, arith,
}
use doc_craft_agent.Prelude.Cuts.{split_inclusive}
use doc_craft_agent.Editorial.Spans.{code_ranges}
use doc_craft_agent.Markdown.{unwrap_outer_markdown_fence, join}
use doc_craft_agent.Markdown.Splice.{
  no_subsection, not_shown, too_short, text_before, twice, Marker, Bodies, bodies_from, may_change,
  is_none, replace_all, replace_whole, replacements, merged, blank_line, join_parts,
  splice_subsections,
}

-- a subsection that a repair may not change
abbrev pub Hidden : ℕ → Option (List ℕ) → ℕ → Type 0
Hidden count none i = leb count i ≡ true
Hidden count (some targets) i = any (λ t. t == i) targets ≡ false

module _ {ℓ} {A : Type ℓ} where
  get_or-set_ne :
      (xs : List A) (i j : ℕ) (v d : A) → i ≢ j → get_or (set xs i v) j d ≡ get_or xs j d
  get_or-set_ne [] i j v d h = refl
  get_or-set_ne (x ∷ xs) zero zero v d h = absurd (h refl)
  get_or-set_ne (x ∷ xs) zero (suc j) v d h = refl
  get_or-set_ne (x ∷ xs) (suc i) zero v d h = refl
  get_or-set_ne (x ∷ xs) (suc i) (suc j) v d h = get_or-set_ne xs i j v d (λ e. h (ap suc e))

  get_or-replicate : (n i : ℕ) (d : A) → get_or (replicate n d) i d ≡ d
  get_or-replicate zero i d = refl
  get_or-replicate (suc n) zero d = refl
  get_or-replicate (suc n) (suc i) d = get_or-replicate n i d

-- replacements for all parts and a new one, none of them of what is hidden
abbrev Untouched : ℕ → Option (List ℕ) → List (Option Text) → Type 0
Untouched count targets replaced =
    (length replaced ≡ count + 1)
    × ((i : ℕ) → Hidden count targets i → get_or replaced i none ≡ none)

not_both : (b : Bool) → b ≡ true → b ≡ false → ⊥
not_both b h k = cc

-- what may change is not hidden
may_change-other :
    (count : ℕ) (targets : Option (List ℕ)) (n i : ℕ)
    → may_change count targets n ≡ ok tt
    → Hidden count targets i
    → n ≢ i
unfolding may_change
may_change-other count none n i h hidden =
    let inside = ensure-ok (ltb n count) no_subsection h in λ e. ground arith
may_change-other count (some targets) n i h hidden =
    let shown = ensure-ok (any (λ t. t == n) targets) not_shown h in
    λ e. not_both (any (λ t. t == i) targets) (rw e at shown) hidden

Untouched-set :
    (count : ℕ) (targets : Option (List ℕ)) (replaced : List (Option Text)) (n : ℕ) (t : Text)
    → ((i : ℕ) → Hidden count targets i → n ≢ i)
    → Untouched count targets replaced
    → Untouched count targets (set replaced n (some t))
Untouched-set count targets replaced n t other (l, u) = (
  length-set replaced n (some t) ∙ l,
  λ i hidden. get_or-set_ne replaced n i (some t) none (other i hidden) ∙ u i hidden,
)

Untouched-replicate :
    (count : ℕ) (targets : Option (List ℕ)) → Untouched count targets (replicate (count + 1) none)
Untouched-replicate count targets =
    (length-replicate (count + 1) none, λ i hidden. get_or-replicate (count + 1) i none)

replace_all-Untouched :
    (count : ℕ) (targets : Option (List ℕ)) (bodies : List (ℕ × Text))
    (replaced : List (Option Text)) {out : List (Option Text)}
    → replace_all count targets bodies replaced ≡ ok out
    → Untouched count targets replaced
    → Untouched count targets out
unfolding replace_all
replace_all-Untouched count targets [] replaced h u = rw⁻¹ (ok_injective h) u
replace_all-Untouched count targets ((n, body) ∷ bodies) replaced h u =
    let (_, e, h1) = >>=-eq-ok (may_change count targets n) _ h in
    let (_, h2) = ensure->>=-ok (is_none (get_or replaced n none)) twice _ h1 in
    replace_all-Untouched count targets bodies (set replaced n (some (trim body))) h2 (
      Untouched-set count targets replaced n (trim body)
        (λ i hidden. may_change-other count targets n i e hidden) u)

replace_whole-Untouched :
    (parts : List Text) (output : Text) (targets : Option (List ℕ)) (replaced : List (Option Text))
    {out : List (Option Text)}
    → replace_whole parts output targets replaced ≡ ok (some out)
    → Untouched (length parts) targets replaced
    → Untouched (length parts) targets out
unfolding replace_whole
replace_whole-Untouched parts output none replaced h u =
    let (_, h1) = ensure->>=-ok (leb (sum (map len parts)) (len (trim output) * 2)) too_short _ h in
    cc
replace_whole-Untouched parts output (some []) replaced h u = cc
replace_whole-Untouched parts output (some (only ∷ [])) replaced {out} h u =
    let same : set replaced only (some (trim output)) ≡ out = cc in
    rw⁻¹ same (
      Untouched-set (length parts) (some (only ∷ [])) replaced only (trim output)
        (λ i hidden e. ground arith) u)
replace_whole-Untouched parts output (some (t ∷ v ∷ targets)) replaced h u = cc

replacements-Untouched :
    (parts : List Text) (output : Text) (targets : Option (List ℕ)) (bodies : Bodies)
    {out : List (Option Text)}
    → replacements parts output targets bodies ≡ ok (some out)
    → Untouched (length parts) targets out
unfolding replacements
replacements-Untouched parts output targets (front, []) h =
    replace_whole-Untouched parts output targets (replicate (length parts + 1) none) h
      (Untouched-replicate (length parts) targets)
replacements-Untouched parts output targets (front, b ∷ bodies) {out} h =
    let (_, h1) = ensure->>=-ok (is_empty (trim front)) text_before _ h in
    let (replaced, e, h2) =
      >>=-eq-ok
        (replace_all (length parts) targets (b ∷ bodies) (replicate (length parts + 1) none)) _
        h1 in
    let same : replaced ≡ out = cc in
    rw⁻¹ same (
      replace_all-Untouched (length parts) targets (b ∷ bodies) (replicate (length parts + 1) none)
        e (Untouched-replicate (length parts) targets))

merged-same :
    (parts : List Text) (rs : List (Option Text)) (i : ℕ)
    → length rs ≡ length parts + 1
    → get_or rs i none ≡ none
    → get_elem? (merged parts rs) i ≡ get_elem? parts i
unfolding merged
merged-same [] [] i l h = refl
merged-same [] (none ∷ rs) i l h = refl
merged-same [] (some t ∷ rs) zero l h = cc
merged-same [] (some t ∷ rs) (suc i) l h = refl
merged-same (p ∷ ps) [] i l h = absurd (omega arith)
merged-same (p ∷ ps) (none ∷ rs) zero l h = refl
merged-same (p ∷ ps) (some t ∷ rs) zero l h = cc
merged-same (p ∷ ps) (r ∷ rs) (suc i) l h = merged-same ps rs i (omega arith) h

-- Where a repair is taken, the result is a list of subsections, without the empty ones, in which
-- all that the repair was not shown stands unchanged at its place; no subsection is new unless that
-- was asked for. Without targets, what is not shown is what the draft does not have.
pub splice_subsections-Hidden :
    (marker : Marker) (parts : List Text) (response : Text) (targets : Option (List ℕ))
    {result : Text}
    → splice_subsections marker parts response targets ≡ ok (some result)
    → (out : List Text) × ((i : ℕ)
        → Hidden (length parts) targets i
        → get_elem? out i ≡ get_elem? parts i)
      × (result ≡ join blank_line (filter (λ part. not (is_empty part)) out))
unfolding splice_subsections
splice_subsections-Hidden marker parts response targets {result} h =
    let output = unwrap_outer_markdown_fence response in
    let (bodies, e, h1) =
      >>=-eq-ok (bodies_from marker (code_ranges output) 0 (split_inclusive output)) _ h in
    let (found, f, h2) = >>=-eq-ok (replacements parts output targets bodies) _ h1 in
    let (replaced, g, j) = joined parts found (ok_injective h2) in
    let (l, u) = replacements-Untouched parts output targets bodies (f ∙ ap ok g) in
    (merged parts replaced, λ i hidden. merged-same parts replaced i l (u i hidden), j)
  where
    joined :
        (parts : List Text) (found : Option (List (Option Text))) {result : Text}
        → join_parts parts found ≡ some result
        → (replaced : List (Option Text)) × (found ≡ some replaced)
          × (result
              ≡ join blank_line (filter (λ part. not (is_empty part)) (merged parts replaced)))
    joined parts none h = cc
    joined parts (some replaced) h = (replaced, refl, cc)
