-- ===== src/Planning/Chapters/Owners.antt =====
-- Every owner of a branch is one of the chapters (`decode_chapters` of backend/src/planning.rs).
use doc_craft_agent.Prelude.{
  ℕ, ◌+◌, ◌≤◌, ◌<◌, ◌≡◌, Bool, true, false, Option, none, some, List, [], ◌∷◌, Result, ok, err,
  Bool-cases, inl, inr, ensure->>=-ok, >>=-eq-ok, ok_injective, some_injective, arith, ◌==◌,
  if◌then◌else◌, length, get_elem?, Text, trim, any, All, split_join,
}
use doc_craft_agent.Planning.Branches.{Group, BranchView}
use doc_craft_agent.Planning.Chapters.{
  Error, Index, ChapterDraft, at, is_some, or_else, members_of, claim_from, claim, take_all,
  read_chapters, branch_of, group_of, known, branch_twice, group_twice, group_owner, chapter_owner,
  chapter_ok,
}
use mathlib.Core.List.{Permᴰ}

-- every chapter of the map is one of the first `n`
abbrev pub Below : ℕ → Index ℕ → Type 0
Below n d = All (λ (e : ℕ × ℕ). e.1 < n) d

pub Below-Permᴰ : (n : ℕ) {d e : Index ℕ} → Permᴰ d e → Below n e → Below n d
Below-Permᴰ n Permᴰ.nil h = tt
Below-Permᴰ n (Permᴰ.cons same p) (h, k) = (rw same h, Below-Permᴰ n p k)
Below-Permᴰ n (Permᴰ.swap a b) h = (rw a h.1.0, (rw b h.0, h.1.1))
Below-Permᴰ n (Permᴰ.trans p q) h = Below-Permᴰ n p (Below-Permᴰ n q h)

at-Below : (n i : ℕ) (d : Index ℕ) {v : ℕ} → Below n d → at i d ≡ some v → v < n
unfolding at
at-Below n i [] h e = cc
at-Below n i ((j, w) ∷ d) {v} (h, k) e = elim (Bool-cases (i == j)) [
  | inl here ↦ let same : w ≡ v = some_injective (rw here at e) in rw⁻¹ same h
  | inr other ↦ at-Below n i d k (rw other at e)
]

if_some : {A : Type 0} (b : Bool) {a w : A} → (if b then some a else none) ≡ some w → a ≡ w
if_some true e = some_injective e
if_some false e = cc

some_unless :
    {A : Type 0} (b : Bool) {o : Option A} {w : A} → (if b then none else o) ≡ some w → o ≡ some w
some_unless true e = cc
some_unless false e = e

ok_of_if :
    {A : Type 0} (b : Bool) (x : Error) {a w : A}
    → ◌≡◌ {A = Result Error A} (if b then ok a else err x) (ok w)
    → a ≡ w
ok_of_if true x e = ok_injective e
ok_of_if false x e = cc

claim_from-Below :
    (o : Option ℕ) (twice : Error) (n c i : ℕ) (d : Index ℕ) {d' : Index ℕ}
    → c < n
    → Below n d
    → claim_from o twice c i d ≡ ok d'
    → Below n d'
unfolding claim_from
claim_from-Below none twice n c i d {d'} h k e =
    let f : (i, c) ∷ d ≡ d' = ok_injective e in rw⁻¹ f (h, k)
claim_from-Below (some j) twice n c i d h k e = rw⁻¹ (ok_of_if (j == c) twice e) k

take_all-Below :
    (lookup : Text → Option ℕ) (twice : Error) (n c : ℕ) (labels : List Text) (d : Index ℕ)
    {d' : Index ℕ}
    → c < n
    → Below n d
    → take_all lookup twice c labels d ≡ ok d'
    → Below n d'
unfolding take_all claim
take_all-Below lookup twice n c [] d h k e = rw⁻¹ (ok_injective e) k
take_all-Below lookup twice n c (label ∷ labels) d h k e =
    let (i, _, e1) = >>=-eq-ok (known (lookup (trim label))) _ e in
    let (claimed, e2, e3) = >>=-eq-ok (claim twice c i d) _ e1 in
    take_all-Below lookup twice n c labels claimed h
      (claim_from-Below (at i d) twice n c i d h k e2) e3

pub read_chapters-Below :
    (lowercase : Text → Text) (view : BranchView) (n c : ℕ) (titles : List Text)
    (taken : Index ℕ × Index ℕ) (cs : List ChapterDraft) {taken' : Index ℕ × Index ℕ}
    → c + length cs ≤ n
    → Below n taken.0
    → Below n taken.1
    → read_chapters lowercase view c titles taken cs ≡ ok taken'
    → Below n taken'.0 × Below n taken'.1
unfolding read_chapters
read_chapters-Below lowercase view n c titles taken [] h k l e = rw⁻¹ (ok_injective e) (k, l)
read_chapters-Below lowercase view n c titles taken (x ∷ cs) h k l e =
    let (_, e0) = ensure->>=-ok (chapter_ok lowercase titles x) _ _ e in
    let (explicit, e1, e2) =
      >>=-eq-ok (take_all (branch_of view) branch_twice c x.branches taken.0) _ e0 in
    let (by_group, e3, e4) =
      >>=-eq-ok (take_all (group_of view) group_twice c x.groups taken.1) _ e2 in
    read_chapters-Below lowercase view n (c + 1) (lowercase (split_join x.title) ∷ titles)
      (explicit, by_group) cs (omega arith)
      (take_all-Below (branch_of view) branch_twice n c x.branches taken.0 (omega arith) k e1)
      (take_all-Below (group_of view) group_twice n c x.groups taken.1 (omega arith) l e3) e4

or_else-lt :
    (n : ℕ) (o p : Option ℕ) {v : ℕ}
    → ((w : ℕ) → o ≡ some w → w < n)
    → ((w : ℕ) → p ≡ some w → w < n)
    → or_else o p ≡ some v
    → v < n
or_else-lt n none p h k e = k _ e
or_else-lt n (some w) p h k e = h _ e

pub group_owner-lt :
    (n : ℕ) (groups : List Group) (taken : Index ℕ) (branch : ℕ) {v : ℕ}
    → Below n taken
    → group_owner groups taken branch ≡ some v
    → v < n
unfolding group_owner
group_owner-lt n groups [] branch h e = cc
group_owner-lt n groups ((group, chapter) ∷ taken) branch (h, k) e =
    or_else-lt n (group_owner groups taken branch) _
      (λ w f. group_owner-lt n groups taken branch k f)
      (λ w f.
        let same : chapter ≡ w =
          if_some (any (λ i. i == branch) (members_of (get_elem? groups group))) f in
        rw⁻¹ same h)
      e

pub chapter_owner-lt :
    (n : ℕ) (explicit : Index ℕ) (excluded : Index Text) (by_group : ℕ → Option ℕ) (branch : ℕ)
    {v : ℕ}
    → Below n explicit
    → ((w : ℕ) → by_group branch ≡ some w → w < n)
    → chapter_owner explicit excluded by_group branch ≡ some v
    → v < n
unfolding chapter_owner
chapter_owner-lt n explicit excluded by_group branch h k e =
    or_else-lt n (at branch explicit) _ (λ w f. at-Below n branch explicit h f)
      (λ w f. k w (some_unless (is_some (at branch excluded)) f)) e
