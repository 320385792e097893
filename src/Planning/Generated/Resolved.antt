-- ===== src/Planning/Generated/Resolved.antt =====
-- What holds of a plan whose names are resolved (`decode_generated_outline` of
-- backend/src/planning.rs).
use doc_craft_agent.Prelude.{
  ℕ, suc, ◌≡◌, refl, ap, sym, ◌∙◌, Bool, true, false, not, ◌||◌, Option, none, some, List, [], ◌∷◌,
  ◌++◌, map, ok, ensure->>=-ok, >>=-eq-ok, ok_injective, ltb, ◌==◌, if◌then◌else◌, Text, any,
  contains, Dict, arith, Bool-cases, inl, inr,
}
use doc_craft_agent.Planning.Outlines
use doc_craft_agent.Planning.Outlines.{check_dependencies}
use doc_craft_agent.Planning.Generated.{
  RawPlan, ResolvedSection, branches_of, is_covered, reject_covered_exclusions, matching_sections,
  one_match, resolve_titles, resolve_prerequisites, resolve_order, resolve_each, resolve_exclusions,
  resolve_plan, counted_twice, not_earlier,
}

-- some number of a list
abbrev pub Names : List ℕ → ℕ → Type 0
Names ds d = any (λ e. e == d) ds ≡ true

-- each title is that of one section, which is in the list
abbrev pub AllNamed : List (Option Text) → List ℕ → List Text → Type 0
AllNamed titles ds [] = Unit
AllNamed titles ds (title ∷ references) =
    ((d : ℕ) × (matching_sections title 0 titles ≡ d ∷ []) × Names ds d)
    × AllNamed titles ds references

check_dependencies-append :
    (index d : ℕ) (seen ds : List ℕ)
    → check_dependencies index seen ds ≡ ok tt
    → ltb d index ≡ true
    → any (λ e. e == d) seen ≡ false
    → any (λ e. e == d) ds ≡ false
    → check_dependencies index seen (ds ++ (d ∷ [])) ≡ ok tt
unfolding check_dependencies
check_dependencies-append index d seen [] h l s n = rw l (rw s refl)
check_dependencies-append index d seen (x ∷ xs) h l s n =
    let (low, h1) = ensure->>=-ok (ltb x index) Outlines.bad_dependency _ h in
    let (new, h2) =
      ensure->>=-ok (not (any (λ e. e == x) seen)) Outlines.repeated_dependency _ h1 in
    let (other, rest) = apart (x == d) (any (λ e. e == d) xs) n in
    rw low
      (rw new (check_dependencies-append index d (x ∷ seen) xs h2 l (both_not _ _ other s) rest))
  where
    apart : (a b : Bool) → (a || b) ≡ false → (a ≡ false) × (b ≡ false)
    apart a b h = ground arith

    both_not : (a b : Bool) → a ≡ false → b ≡ false → (a || b) ≡ false
    both_not a b h k = ground arith

Names-append : (ds : List ℕ) (d e : ℕ) → Names ds d → Names (ds ++ (e ∷ [])) d
Names-append [] d e h = cc
Names-append (x ∷ xs) d e h = ground (arith, Names-append xs d e)

Names-last : (ds : List ℕ) (d : ℕ) → Names (ds ++ (d ∷ [])) d
Names-last [] d = ground arith
Names-last (x ∷ xs) d = ground (arith, Names-last xs d)

-- a list with one more number, where it is not there yet
abbrev added : List ℕ → ℕ → List ℕ
added ds d = if any (λ e. e == d) ds then ds else ds ++ (d ∷ [])

record Grown (index : ℕ) (ds : List ℕ) (d : ℕ) : Type 0 where
  sound : check_dependencies index [] (added ds d) ≡ ok tt
  more : (e : ℕ) → Names ds e → Names (added ds d) e
  there : Names (added ds d) d

added-Grown :
    (index : ℕ) (ds : List ℕ) (d : ℕ)
    → check_dependencies index [] ds ≡ ok tt
    → ltb d index ≡ true
    → Grown index ds d
added-Grown index ds d h l = elim (Bool-cases (any (λ e. e == d) ds)) [
  | inl old ↦ record { sound = rw old h; more = λ e k. rw old k; there = rw old old }
  | inr new ↦ record {
    sound = rw new (check_dependencies-append index d [] ds h l refl new);
    more = λ e k. rw new (Names-append ds e d k);
    there = rw new (Names-last ds d);
  }
]

-- what the titles of a section become
record Resolving (titles : List (Option Text)) (index : ℕ) (ds : List ℕ) (references : List Text)
    (out : List ℕ) : Type 0 where
  sound : check_dependencies index [] out ≡ ok tt
  more : (e : ℕ) → Names ds e → Names out e
  named : AllNamed titles out references

resolve_titles-Resolving :
    (titles : List (Option Text)) (index : ℕ) (ds : List ℕ) (references : List Text) {out : List ℕ}
    → resolve_titles titles index ds references ≡ ok out
    → check_dependencies index [] ds ≡ ok tt
    → Resolving titles index ds references out
unfolding resolve_titles
resolve_titles-Resolving titles index ds [] h c =
    let same = ok_injective h in rw⁻¹ same (record { sound = c; more = λ e k. k; named = tt })
resolve_titles-Resolving titles index ds (title ∷ references) h c =
    let (d, e, h1) = >>=-eq-ok (one_match (matching_sections title 0 titles)) _ h in
    let (low, h2) = ensure->>=-ok (ltb d index) not_earlier _ h1 in
    let g = added-Grown index ds d c low in
    let r = resolve_titles-Resolving titles index (added ds d) references h2 g.sound in
    record {
      sound = r.sound;
      more = λ x k. r.more x (g.more x k);
      named = ((d, only (matching_sections title 0 titles) e, r.more d g.there), r.named);
    }
  where
    only : (ds : List ℕ) {d : ℕ} → one_match ds ≡ ok d → ds ≡ d ∷ []
    only [] h = cc
    only (x ∷ []) h = ap (λ y. y ∷ []) (ok_injective h)
    only (x ∷ y ∷ ds) h = cc

-- what a section depends on, where the response names it
abbrev pub Prerequisites :
    List (Option Text) → ℕ → Option (Option (List Text)) → Option (List ℕ) → Type 0
Prerequisites titles index (some (some references)) (some ds) =
    (check_dependencies index [] ds ≡ ok tt) × AllNamed titles ds references
Prerequisites titles index none none = Unit
Prerequisites titles index none (some ds) = ⊥
Prerequisites titles index (some none) o = ⊥
Prerequisites titles index (some (some references)) none = ⊥

-- the sections from `index` on
abbrev pub Ordered : List (Option Text) → ℕ → List ResolvedSection → Type 0
Ordered titles index [] = Unit
Ordered titles index (s ∷ ss) =
    Prerequisites titles index s.prerequisites s.depends_on × Ordered titles (suc index) ss

resolve_prerequisites-Prerequisites :
    (titles : List (Option Text)) (index : ℕ) (raw : Option (Option (List Text)))
    {out : Option (List ℕ)}
    → resolve_prerequisites titles index raw ≡ ok out
    → Prerequisites titles index raw out
unfolding resolve_prerequisites check_dependencies
resolve_prerequisites-Prerequisites titles index none h = rw⁻¹ (ok_injective h) tt
resolve_prerequisites-Prerequisites titles index (some none) h = cc
resolve_prerequisites-Prerequisites titles index (some (some references)) h =
    let (ds, e, h1) = >>=-eq-ok (resolve_titles titles index [] references) _ h in
    let r = resolve_titles-Resolving titles index [] references e refl in
    let same = ok_injective h1 in rw⁻¹ same (r.sound, r.named)

resolve_order-Ordered :
    (titles : List (Option Text)) (index : ℕ) (ss : List ResolvedSection)
    {out : List ResolvedSection}
    → resolve_order titles index ss ≡ ok out
    → Ordered titles index out
      × (map (λ (s : ResolvedSection). s.branches) out
          ≡ map (λ (s : ResolvedSection). s.branches) ss)
      × (map (λ (s : ResolvedSection). s.title) out ≡ map (λ (s : ResolvedSection). s.title) ss)
unfolding resolve_order
resolve_order-Ordered titles index [] h = rw⁻¹ (ok_injective h) (tt, refl, refl)
resolve_order-Ordered titles index (s ∷ ss) h =
    let (ds, e, h1) = >>=-eq-ok (resolve_prerequisites titles index s.prerequisites) _ h in
    let (rest, f, h2) = >>=-eq-ok (resolve_order titles (suc index) ss) _ h1 in
    let (ordered, same_branches, same_titles) = resolve_order-Ordered titles (suc index) ss f in
    let same = ok_injective h2 in
    rw⁻¹ same (
      (resolve_prerequisites-Prerequisites titles index s.prerequisites e, ordered),
      ap (λ r. s.branches ∷ r) same_branches,
      ap (λ r. s.title ∷ r) same_titles,
    )

-- no section covers what is excluded
abbrev pub NoneCovered : List ResolvedSection → List Text → Type 0
NoneCovered sections [] = Unit
NoneCovered sections (key ∷ keys) = (is_covered sections key ≡ false) × NoneCovered sections keys

is_covered-same :
    (xs ys : List ResolvedSection) (key : Text)
    → map (λ (s : ResolvedSection). s.branches) xs ≡ map (λ (s : ResolvedSection). s.branches) ys
    → is_covered xs key ≡ is_covered ys key
unfolding is_covered
is_covered-same xs ys key h = by_branches xs ∙ ap (λ bs. any covers bs) h ∙ sym (by_branches ys)
  where
    covers : Option (List Text) → Bool
    covers b = contains (branches_of b) key

    by_branches :
        (zs : List ResolvedSection)
        → any (λ (s : ResolvedSection). contains (branches_of s.branches) key) zs
          ≡ any covers (map (λ (s : ResolvedSection). s.branches) zs)
    by_branches [] = refl
    by_branches (z ∷ zs) = ap (λ b. contains (branches_of z.branches) key || b) (by_branches zs)

reject_covered_exclusions-NoneCovered :
    (xs ys : List ResolvedSection) (keys : List Text)
    → map (λ (s : ResolvedSection). s.branches) ys ≡ map (λ (s : ResolvedSection). s.branches) xs
    → reject_covered_exclusions xs keys ≡ ok tt
    → NoneCovered ys keys
unfolding reject_covered_exclusions
reject_covered_exclusions-NoneCovered xs ys [] same h = tt
reject_covered_exclusions-NoneCovered xs ys (key ∷ keys) same h =
    let (free, h1) = ensure->>=-ok (not (is_covered xs key)) counted_twice _ h in
    (
      is_covered-same ys xs key same ∙ not_true _ free,
      reject_covered_exclusions-NoneCovered xs ys keys same h1,
    )
  where
    not_true : (b : Bool) → not b ≡ true → b ≡ false
    not_true b h = ground arith

-- the sections of a plan, and the branches that it excludes
abbrev pub Resolved : List ResolvedSection × List Text → Type 0
Resolved (sections, excluded) =
    Ordered (map (λ (s : ResolvedSection). s.title) sections) 0 sections
    × NoneCovered sections excluded

Resolved-same : (p q : List ResolvedSection × List Text) → p ≡ q → Resolved p → Resolved q
Resolved-same p q same h = rw⁻¹ same h

Ordered-same :
    (xs ys : List (Option Text)) (index : ℕ) (ss : List ResolvedSection)
    → ys ≡ xs
    → Ordered xs index ss
    → Ordered ys index ss
Ordered-same xs ys index ss same h = rw same h

-- Where the names of a plan are resolved, each title that a section names is the title of exactly
-- one section, an earlier one, and what the section depends on passes the check of an outline; and
-- no branch is both covered by a section and excluded.
pub resolve_plan-Resolved :
    (labels : Dict Text) (plan : RawPlan) {out : List ResolvedSection × List Text}
    → resolve_plan labels plan ≡ ok out
    → Resolved out
unfolding resolve_plan
resolve_plan-Resolved labels plan {out} h =
    let (found, e, h1) = >>=-eq-ok (resolve_each labels plan.sections) _ h in
    let (keys, f, h2) = >>=-eq-ok (resolve_exclusions labels plan.excluded_branches) _ h1 in
    let (_, g, h3) = >>=-eq-ok (reject_covered_exclusions found keys) _ h2 in
    let titles = map (λ (s : ResolvedSection). s.title) found in
    let (resolved, i, h4) = >>=-eq-ok (resolve_order titles 0 found) _ h3 in
    let (ordered, branches, same) = resolve_order-Ordered titles 0 found i in
    Resolved-same (resolved, keys) out (ok_injective h4)
      (
        Ordered-same titles (map (λ (s : ResolvedSection). s.title) resolved) 0 resolved same
            ordered,
        reject_covered_exclusions-NoneCovered found resolved keys branches g,
      )
