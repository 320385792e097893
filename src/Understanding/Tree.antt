-- ===== src/Understanding/Tree.antt =====
-- The reading tree as planning and writing see it (`TreeIndex` of backend/src/understanding.rs). A
-- stack has its top in front.
pub mod Rounds
use doc_craft_agent.Prelude.{
  ℕ, zero, suc, ◌+◌, Bool, Option, none, some, List, [], ◌∷◌, ◌++◌, if◌then◌else◌, length, Text,
  contains, Dict, find,
}
use doc_craft_agent.Findings.Briefs.{Finding}

pub record Span : Type 0 where
  pub id : Text
  pub path : Text
  pub start : ℕ
  pub end : ℕ

pub record TreeNode : Type 0 where
  pub files : List Text
  pub children : List Text
  pub findings : List Finding
  pub details : List Finding
  pub spans : List Span

pub record TreeIndex : Type 0 where
  pub root : Option Text
  pub leaves : List Text
  pub nodes : Dict TreeNode

abbrev pub observations : TreeNode → List Finding
observations node = node.findings ++ node.details

-- one round of `leaves_under`: the leaf that it finds, and the stack behind it
abbrev pub expand : Text → Option TreeNode → List Text → List Text × List Text
expand key none pending = ([], pending)
expand key (some node) pending = elim node.children [
  | [] ↦ (key ∷ [], pending)
  | c ∷ cs ↦ ([], (c ∷ cs) ++ pending)
]

-- what is seen, the stack, and the leaves found
abbrev pub Round : Type 0
Round = List Text × (List Text × List Text)

unfoldable pub round : Dict TreeNode → List Text → Text → List Text → Round
unfolding find
round nodes seen key pending =
    if contains seen key
    then (seen, (pending, []))
    else let (found, pending') = expand key (find key nodes) pending in
      (key ∷ seen, (pending', found))

-- the leaves found, before those of the rounds behind
abbrev pub found_before : List Text → Option (List Text) → Option (List Text)
found_before found none = none
found_before found (some rest) = some (found ++ rest)

-- `while let Some(key) = pending.pop()`, with fuel: `none` where it has not ended
unfoldable pub walk : Dict TreeNode → ℕ → List Text → List Text → Option (List Text)
unfolding round
walk nodes fuel seen [] = some []
walk nodes zero seen (key ∷ pending) = none
walk nodes (suc fuel) seen (key ∷ pending) =
    let (seen', (pending', found)) = round nodes seen key pending in
    found_before found (walk nodes fuel seen' pending')

abbrev pub or_nothing : Option (List Text) → List Text
or_nothing none = []
or_nothing (some leaves) = leaves

-- the children of the nodes that are not seen
unfoldable pub unseen : List Text → Dict TreeNode → ℕ
unseen seen [] = 0
unseen seen ((key, node) ∷ nodes) =
    (if contains seen key then 0 else length node.children) + unseen seen nodes

unfoldable pub leaves_under : TreeIndex → List Text → List Text
unfolding walk unseen
leaves_under tree keys = or_nothing (walk tree.nodes (length keys + unseen [] tree.nodes) [] keys)
