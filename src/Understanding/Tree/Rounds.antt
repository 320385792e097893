-- ===== src/Understanding/Tree/Rounds.antt =====
-- `leaves_under` ends (backend/src/understanding.rs), whatever the nodes are.
use doc_craft_agent.Prelude.{
  ℕ, zero, suc, ◌+◌, ◌≤◌, ◌≡◌, refl, ap, sym, ◌∙◌, false, Option, none, some, List, [], ◌∷◌, ◌++◌,
  length, length-append, Text, text_eq, eq_of_text_eq, some_injective, contains, Dict, find, arith,
  Bool-cases, inl, inr,
}
use doc_craft_agent.Understanding.Tree.{
  TreeNode, TreeIndex, expand, round, walk, unseen, leaves_under, found_before, or_nothing,
}

-- what is seen only lowers the rest
unseen-more :
    (seen : List Text) (key : Text) (nodes : Dict TreeNode)
    → unseen (key ∷ seen) nodes ≤ unseen seen nodes
unfolding unseen contains
unseen-more seen key [] = omega arith
unseen-more seen key ((k, node) ∷ nodes) = ground (arith, unseen-more seen key nodes)

-- a node that is seen for the first time takes its children off the rest
unseen-first :
    (seen : List Text) (key : Text) (nodes : Dict TreeNode) (node : TreeNode)
    → contains seen key ≡ false
    → find key nodes ≡ some node
    → unseen (key ∷ seen) nodes + length node.children ≤ unseen seen nodes
unfolding unseen contains find
unseen-first seen key [] node h f = cc
unseen-first seen key ((k, n) ∷ nodes) node h f = elim (Bool-cases (text_eq key k)) [
  | inl same ↦
      let e : n ≡ node = some_injective (rw same at f) in
      let e2 : contains seen k ≡ false = rw⁻¹ (eq_of_text_eq key k same) h in
      let more = unseen-more seen key nodes in rw same (rw e2 (rw e (omega arith)))
  | inr other ↦
      let rest = unseen-first seen key nodes node h (rw other at f) in rw other (omega arith)
]

-- Each round takes the stack and the children that are not seen down by one at least.
round-less :
    (nodes : Dict TreeNode) (seen : List Text) (key : Text) (pending : List Text)
    → (length (round nodes seen key pending).1.0 + unseen (round nodes seen key pending).0 nodes)
      ≤ length pending + unseen seen nodes
unfolding round
round-less nodes seen key pending = elim (Bool-cases (contains seen key)) [
  | inl old ↦ rw old (omega arith)
  | inr new ↦ rw new (expanded (find key nodes) (λ node e. unseen-first seen key nodes node new e))
]
  where
    expanded :
        (o : Option TreeNode)
        → ((node : TreeNode)
            → o ≡ some node
            → unseen (key ∷ seen) nodes + length node.children ≤ unseen seen nodes)
        → (length (expand key o pending).1 + unseen (key ∷ seen) nodes)
          ≤ length pending + unseen seen nodes
    expanded none k = omega (arith, unseen-more seen key nodes)
    expanded (some node) k = with_children node.children (k node refl)
      where
        with_children :
            (cs : List Text)
            → unseen (key ∷ seen) nodes + length cs ≤ unseen seen nodes
            → (length
                  (elim cs as (λ c. List Text × List Text) [
                    | [] ↦ (key ∷ [], pending)
                    | c ∷ rest ↦ ([], (c ∷ rest) ++ pending)
                  ]).1
                + unseen (key ∷ seen) nodes)
              ≤ length pending + unseen seen nodes
        with_children [] h = omega arith
        with_children (c ∷ cs) h = omega (arith, length-append cs pending)

-- With as many rounds as the stack and the children that are not seen, the search ends, and more
-- rounds change nothing.
walk-ends :
    (nodes : Dict TreeNode) (fuel rounds : ℕ) (seen pending : List Text)
    → length pending + unseen seen nodes ≤ fuel
    → fuel ≤ rounds
    → (leaves : List Text) × (walk nodes fuel seen pending ≡ some leaves)
      × (walk nodes rounds seen pending ≡ some leaves)
unfolding walk
walk-ends nodes zero zero seen [] h l = ([], refl, refl)
walk-ends nodes zero (suc rounds) seen [] h l = ([], refl, refl)
walk-ends nodes (suc fuel) zero seen [] h l = ([], refl, refl)
walk-ends nodes (suc fuel) (suc rounds) seen [] h l = ([], refl, refl)
walk-ends nodes zero rounds seen (key ∷ pending) h l = absurd (omega arith)
walk-ends nodes (suc fuel) zero seen (key ∷ pending) h l = absurd (omega arith)
walk-ends nodes (suc fuel) (suc rounds) seen (key ∷ pending) h l =
    let (leaves, e, f) =
      walk-ends nodes fuel rounds (round nodes seen key pending).0
        (round nodes seen key pending).1.0 (omega (arith, round-less nodes seen key pending))
        (omega arith) in
    let found = (round nodes seen key pending).1.1 in
    (found ++ leaves, ap (λ o. found_before found o) e, ap (λ o. found_before found o) f)

-- The search for the leaves under some nodes ends, also where the nodes form cycles or lack children:
-- with as many rounds as the keys and the children of all nodes, or more, the stack is empty, and the
-- leaves found are the ones that are returned.
pub leaves_under-walk :
    (tree : TreeIndex) (keys : List Text) (rounds : ℕ)
    → length keys + unseen [] tree.nodes ≤ rounds
    → walk tree.nodes rounds [] keys ≡ some (leaves_under tree keys)
unfolding leaves_under
leaves_under-walk tree keys rounds l =
    let (leaves, e, f) =
      walk-ends tree.nodes (length keys + unseen [] tree.nodes) rounds [] keys (omega arith) l in
    f ∙ ap (λ o. some (or_nothing o)) (sym e)
