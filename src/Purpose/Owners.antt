-- ===== src/Purpose/Owners.antt =====
-- Each leaf of the reading tree is explained by one section (backend/src/purpose.rs).
use doc_craft_agent.Prelude.{
  ℕ, zero, suc, ◌+◌, ◌<◌, ◌≡◌, refl, ap, sym, ◌∙◌, Bool, true, false, not, ◌&&◌, ◌||◌, Option, none,
  some, List, [], ◌∷◌, map, leb, ◌==◌, length, get_or, replicate, arith, Bool-cases, inl, inr, Text,
  text_eq, text_eq_iff, text_eq_refl, eq_of_text_eq, contains, find, find-put,
}
use doc_craft_agent.Model.{Outline}
use doc_craft_agent.Understanding.Tree.{TreeIndex}
use doc_craft_agent.Purpose.{
  Ownership, Owners, claims_from, choose, chosen_or, award, award_all, ownership, goes_elsewhere,
  insert_leaf, kept_from, kept_leaves, assign_from, assign_all, leaf_text, term_score, maximum,
}
use doc_craft_agent.Purpose.Claims.{
  Has, choose-Has, chosen_or-Has, claimed_by, claims_from-Claimed, one_claim,
}

-- the owner of a leaf, where it has been asked for
abbrev Settled : List ℕ → Bool → Option ℕ → Type 0
Settled claims asked none = asked ≡ true → length claims < 2
Settled claims asked (some o) = Has claims o

Settled-asked :
    (claims : List ℕ) (o : Option ℕ) (b : Bool)
    → length claims < 2
    → Settled claims b o
    → Settled claims true o
Settled-asked claims none b l s = λ e. l
Settled-asked claims (some x) b l s = s

Settled-any :
    (claims : List ℕ) (o : Option ℕ) (b : Bool) → Settled claims true o → Settled claims b o
Settled-any claims none b s = λ e. s refl
Settled-any claims (some x) b s = s

module _ (is_alphanumeric : ℕ → Bool) (lowercase : Text → Text) (tree : TreeIndex) where
  award_self :
      (terms : List (List Text)) (leaf : Text) (b : Bool) (cs : List ℕ) (owners : Owners)
      → Settled cs b (find leaf owners.1)
      → Settled cs true (find leaf (award is_alphanumeric lowercase tree terms leaf cs owners).1)
  unfolding award
  award_self terms leaf b [] owners s = Settled-asked [] (find leaf owners.1) b (omega arith) s
  award_self terms leaf b (c ∷ []) owners s =
      Settled-asked (c ∷ []) (find leaf owners.1) b (omega arith) s
  award_self terms leaf b (c ∷ d ∷ cs) (won, owner) s =
      let score : ℕ → ℕ =
        (λ i. term_score (get_or terms i []) (leaf_text is_alphanumeric lowercase tree leaf)) in
      let best = maximum (map score (c ∷ d ∷ cs)) in
      let choice = choose won best (map (λ (i : ℕ). (i, score i)) (c ∷ d ∷ cs)) in
      let found = find-put leaf leaf (chosen_or c choice) owner in
      rw found (
        rw (text_eq_refl leaf)
          (chosen_or-Has c (d ∷ cs) choice (λ x e. choose-Has won best score (c ∷ d ∷ cs) x e)))

  award_other :
      (terms : List (List Text)) (leaf l : Text) (cs : List ℕ) (owners : Owners)
      → text_eq leaf l ≡ false
      → find leaf (award is_alphanumeric lowercase tree terms l cs owners).1 ≡ find leaf owners.1
  unfolding award
  award_other terms leaf l [] owners h = refl
  award_other terms leaf l (c ∷ []) owners h = refl
  award_other terms leaf l (c ∷ d ∷ cs) (won, owner) h = rw (find-put leaf l _ owner) (rw h refl)

  award_all-Settled :
      (reached terms : List (List Text)) (leaf : Text) (b : Bool) (leaves : List Text)
      (owners : Owners)
      → Settled (claims_from leaf 0 reached) b (find leaf owners.1)
      → Settled
          (claims_from leaf 0 reached)
          (b || contains leaves leaf)
          (find leaf (award_all is_alphanumeric lowercase tree reached terms leaves owners).1)
  unfolding award_all contains
  award_all-Settled reached terms leaf b [] owners s = rw (or_none b) s
    where
      or_none : (b : Bool) → (b || false) ≡ b
      or_none b = ground arith
  award_all-Settled reached terms leaf b (l ∷ leaves) owners s =
      elim (Bool-cases (text_eq l leaf)) [
        | inl same ↦
            let e = eq_of_text_eq l leaf same in
            let won = award_self terms leaf b (claims_from leaf 0 reached) owners s in
            let step =
              award is_alphanumeric lowercase tree terms leaf (claims_from leaf 0 reached) owners in
            rw e (
              Settled-any (claims_from leaf 0 reached) _ _
                (award_all-Settled reached terms leaf true leaves step won))
        | inr other ↦
            let step =
              award is_alphanumeric lowercase tree terms l (claims_from l 0 reached) owners in
            let same = award_other terms leaf l (claims_from l 0 reached) owners (not_same other) in
            let before : Settled (claims_from leaf 0 reached) b (find leaf step.1) = rw same s in
            rw other (award_all-Settled reached terms leaf b leaves step before)
      ]
    where
      not_same : text_eq l leaf ≡ false → text_eq leaf l ≡ false
      not_same h = ground (arith, text_eq_iff l leaf, text_eq_iff leaf l)

  contains-insert_leaf :
      (a : ℕ × Text) (ls : List (ℕ × Text)) (leaf : Text)
      → contains (map (λ (x : ℕ × Text). x.1) (insert_leaf a ls)) leaf
        ≡ (text_eq a.1 leaf || contains (map (λ (x : ℕ × Text). x.1) ls) leaf)
  unfolding insert_leaf contains
  contains-insert_leaf a [] leaf = refl
  contains-insert_leaf a (b ∷ bs) leaf = elim (Bool-cases (leb b.0 a.0)) [
    | inl before ↦ rw before refl
    | inr behind ↦
        rw behind
          (rw (contains-insert_leaf a bs leaf) (swapped (text_eq b.1 leaf) (text_eq a.1 leaf) _))
  ]
    where
      swapped : (p q r : Bool) → (p || (q || r)) ≡ (q || (p || r))
      swapped p q r = ground arith

  -- a section keeps what it reaches and no other one explains
  contains-kept_from :
      (own : Ownership) (index : ℕ) (mine : List Text) (leaf : Text)
      → contains
          (map (λ (x : ℕ × Text). x.1) (kept_from is_alphanumeric lowercase tree own index mine).0)
          leaf
        ≡ (contains mine leaf && not (goes_elsewhere (find leaf own.owners) index))
  unfolding kept_from contains
  contains-kept_from own index [] leaf = refl
  contains-kept_from own index (l ∷ mine) leaf =
      elim (Bool-cases (goes_elsewhere (find l own.owners) index)) [
        | inl away ↦ rw away (
            contains-kept_from own index mine leaf
            ∙ leaves_it (text_eq l leaf) (contains mine leaf) _ (λ e. moved true e away))
        | inr here ↦ rw here (
            contains-insert_leaf _ _ leaf
            ∙ ap (λ r. text_eq l leaf || r) (contains-kept_from own index mine leaf)
            ∙ keeps_it (text_eq l leaf) (contains mine leaf) _ (λ e. moved false e here))
      ]
    where
      moved :
          (v : Bool)
          → text_eq l leaf ≡ true
          → goes_elsewhere (find l own.owners) index ≡ v
          → goes_elsewhere (find leaf own.owners) index ≡ v
      moved v e h = rw (eq_of_text_eq l leaf e) at h

      leaves_it : (b c g : Bool) → (b ≡ true → g ≡ true) → (c && not g) ≡ ((b || c) && not g)
      leaves_it b c g h = ground arith

      keeps_it : (b c g : Bool) → (b ≡ true → g ≡ false) → (b || (c && not g)) ≡ ((b || c) && not g)
      keeps_it b c g h = ground arith

  get_or-assign_from :
      (own : Ownership) (base i : ℕ) (reached : List (List Text))
      → get_or (assign_from is_alphanumeric lowercase tree own base reached) i ([], 0)
        ≡ kept_leaves is_alphanumeric lowercase tree own (base + i) (get_or reached i [])
  unfolding assign_from kept_leaves kept_from
  get_or-assign_from own base i [] = refl
  get_or-assign_from own base zero (mine ∷ reached) =
      ap (λ n. kept_leaves is_alphanumeric lowercase tree own n mine) (omega arith)
  get_or-assign_from own base (suc i) (mine ∷ reached) =
      get_or-assign_from own (suc base) i reached
      ∙ ap (λ n. kept_leaves is_alphanumeric lowercase tree own n (get_or reached i []))
          (omega arith)

  -- what a section explains
  explains_iff :
      (own : Ownership) (i : ℕ) (leaf : Text)
      → contains
          (get_or (assign_from is_alphanumeric lowercase tree own 0 own.reached) i ([], 0)).0
          leaf
        ≡ (contains (get_or own.reached i []) leaf && not (goes_elsewhere (find leaf own.owners) i))
  unfolding kept_leaves
  explains_iff own i leaf =
      ap (λ (a : List Text × ℕ). contains a.0 leaf) (get_or-assign_from own 0 i own.reached)
      ∙ contains-kept_from own (0 + i) (get_or own.reached i []) leaf
      ∙ ap
          (λ n.
            contains (get_or own.reached i []) leaf
            && not (goes_elsewhere (find leaf own.owners) n))
          (omega arith)

-- one section has the leaf, and no other one
abbrev pub OnlyOne : List (List Text × ℕ) → Text → Type 0
OnlyOne assigned leaf =
    (o : ℕ) × (contains (get_or assigned o ([], 0)).0 leaf ≡ true)
    × ((j : ℕ) → contains (get_or assigned j ([], 0)).0 leaf ≡ true → j ≡ o)

both : (a b : Bool) → a ≡ true → b ≡ false → (a && not b) ≡ true
both a b h k = ground arith

parts : (a b : Bool) → (a && not b) ≡ true → (a ≡ true) × (b ≡ false)
parts a b h = ground arith

module _ (is_alphanumeric : ℕ → Bool) (lowercase : Text → Text) (tree : TreeIndex) where
  OnlyOne-assign_from :
      (own : Ownership) (leaf : Text) (i : ℕ) (o : Option ℕ)
      → find leaf own.owners ≡ o
      → Settled (claims_from leaf 0 own.reached) true o
      → contains (get_or own.reached i []) leaf ≡ true
      → OnlyOne (assign_from is_alphanumeric lowercase tree own 0 own.reached) leaf
  OnlyOne-assign_from own leaf i none f s h = (
    i,
    explains_iff is_alphanumeric lowercase tree own i leaf
        ∙ both _ _ h (ap (λ x. goes_elsewhere x i) f),
    λ j e.
        let (there, _) =
          parts _ _ (sym (explains_iff is_alphanumeric lowercase tree own j leaf) ∙ e) in
        one_claim (claims_from leaf 0 own.reached) j i (s refl)
          (claimed_by leaf j own.reached there) (claimed_by leaf i own.reached h),
  )
  OnlyOne-assign_from own leaf i (some x) f s h =
      let (k, e, there) = claims_from-Claimed leaf 0 x own.reached s in
      let at_k : (x == k) ≡ true = ground arith in
      (
        k,
        explains_iff is_alphanumeric lowercase tree own k leaf
            ∙ both _ _ there (ap (λ y. goes_elsewhere y k) f ∙ ap not at_k),
        λ j e2.
            let (_, away) =
              parts _ _ (sym (explains_iff is_alphanumeric lowercase tree own j leaf) ∙ e2) in
            let here : not (x == j) ≡ false = ap (λ y. goes_elsewhere y j) (sym f) ∙ away in
            ground arith,
      )

  -- A leaf of the reading tree that the branches of a section reach is explained by one section of
  -- the plan and by no other, whichever sections share it.
  pub assign_all-OnlyOne :
      (outline : Outline) (leaf : Text) (i : ℕ)
      → contains tree.leaves leaf ≡ true
      → contains (get_or (ownership is_alphanumeric lowercase tree outline).reached i []) leaf
        ≡ true
      → OnlyOne (assign_all is_alphanumeric lowercase tree outline) leaf
  unfolding assign_all ownership
  assign_all-OnlyOne outline leaf i l h =
      let own = ownership is_alphanumeric lowercase tree outline in
      let settled =
        award_all-Settled is_alphanumeric lowercase tree own.reached own.terms leaf false
          tree.leaves (replicate (length outline.sections) 0, []) (λ e. cc) in
      OnlyOne-assign_from own leaf i (find leaf own.owners) refl (rw l at settled) h
