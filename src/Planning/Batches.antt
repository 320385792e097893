-- ===== src/Planning/Batches.antt =====
-- `chapter_batches` of backend/src/planning.rs: the branches of each chapter are planned in requests
-- of at most sixteen, in reading order.
use doc_craft_agent.Prelude.{
  ℕ, zero, suc, ◌+◌, ◌≤◌, ◌<◌, ◌≡◌, refl, ap, sym, ◌∙◌, ok, map, List, [], ◌∷◌, ◌++◌, arith, leb,
  if◌then◌else◌, Bool-cases, inl, inr, length, take, drop, take-append-drop, length-take,
  length-drop, Text, All,
}
use doc_craft_agent.Planning.Branches.{Branch, BranchView, chapter_branches, index}
use doc_craft_agent.Planning.Chapters.{Chapter, Chapters, ChaptersDraft, Index, decode_chapters}
use doc_craft_agent.Planning.Chapters.Division.{all_keys, excluded_keys, decode_chapters-Divides}
use mathlib.Core.List.{Perm, Permᴰ, append_assoc}
use mathlib.Core.List.Perm

pub record Batch : Type 0 where
  pub chapter : ℕ
  pub part : ℕ
  pub parts : ℕ
  pub branches : List Text

-- `sort_by_key`, which is stable
unfoldable pub insert_by : (Text → ℕ) → Text → List Text → List Text
insert_by key x [] = x ∷ []
insert_by key x (y ∷ ys) =
    let rest = insert_by key x ys in if leb (key x) (key y) then x ∷ y ∷ ys else y ∷ rest

unfoldable pub sort_by_key : (Text → ℕ) → List Text → List Text
unfolding insert_by
sort_by_key key [] = []
sort_by_key key (x ∷ xs) = insert_by key x (sort_by_key key xs)

-- `chunks(CHAPTER_BRANCHES)`, with fuel
unfoldable pub chunks : ℕ → List Text → List (List Text)
chunks fuel [] = []
chunks zero (x ∷ xs) = []
chunks (suc fuel) (x ∷ xs) =
    take chapter_branches (x ∷ xs) ∷ chunks fuel (drop chapter_branches (x ∷ xs))

unfoldable pub number : ℕ → ℕ → ℕ → List (List Text) → List Batch
number chapter parts part [] = []
number chapter parts part (run ∷ runs) =
    record { chapter = chapter; part = part; parts = parts; branches = run }
    ∷ number chapter parts (part + 1) runs

unfoldable pub batches_of : BranchView → ℕ → Chapter → List Batch
unfolding sort_by_key chunks number
batches_of view chapter entry =
    let branches = sort_by_key (index view) entry.branches in
    let runs = chunks (length branches) branches in number chapter (length runs) 0 runs

unfoldable pub batches_from : BranchView → ℕ → List Chapter → List Batch
unfolding batches_of
batches_from view chapter [] = []
batches_from view chapter (entry ∷ entries) =
    batches_of view chapter entry ++ batches_from view (chapter + 1) entries

unfoldable pub chapter_batches : Chapters → BranchView → List Batch
unfolding batches_from
chapter_batches chapters view = batches_from view 0 chapters.chapters

-- the keys in all batches, in order
abbrev pub batch_keys : List Batch → List Text
batch_keys [] = []
batch_keys (b ∷ bs) = b.branches ++ batch_keys bs

-- a batch of one of `count` chapters, neither empty nor too large
abbrev pub Fits : ℕ → Batch → Type 0
Fits count b =
    (1 ≤ length b.branches)
    × (length b.branches ≤ chapter_branches)
    × (b.part < b.parts)
    × (b.chapter < count)

insert_by-Perm : (key : Text → ℕ) (x : Text) (xs : List Text) → Perm (insert_by key x xs) (x ∷ xs)
unfolding insert_by
insert_by-Perm key x [] = Perm.rfl
insert_by-Perm key x (y ∷ ys) = elim (Bool-cases (leb (key x) (key y))) [
  | inl first ↦ rw first Perm.rfl
  | inr later ↦ rw later (Perm.trans (Perm.cons y (insert_by-Perm key x ys)) (Perm.swap x y ys))
]

sort_by_key-Perm : (key : Text → ℕ) (xs : List Text) → Perm (sort_by_key key xs) xs
unfolding sort_by_key
sort_by_key-Perm key [] = Perm.rfl
sort_by_key-Perm key (x ∷ xs) =
    Perm.trans (insert_by-Perm key x (sort_by_key key xs)) (Perm.cons x (sort_by_key-Perm key xs))

batch_keys-append : (a b : List Batch) → batch_keys (a ++ b) ≡ batch_keys a ++ batch_keys b
batch_keys-append [] b = refl
batch_keys-append (x ∷ a) b =
    ap (λ r. x.branches ++ r) (batch_keys-append a b)
    ∙ sym (append_assoc x.branches (batch_keys a) (batch_keys b))

-- The runs are the branches in order.
batch_keys-number :
    (chapter parts part fuel : ℕ) (xs : List Text)
    → length xs ≤ fuel
    → batch_keys (number chapter parts part (chunks fuel xs)) ≡ xs
unfolding number chunks
batch_keys-number chapter parts part fuel [] h = refl
batch_keys-number chapter parts part zero (x ∷ xs) h = absurd (ground arith)
batch_keys-number chapter parts part (suc fuel) (x ∷ xs) h =
    ap (λ r. take chapter_branches (x ∷ xs) ++ r)
      (batch_keys-number chapter parts (part + 1) fuel (drop chapter_branches (x ∷ xs))
        (omega (arith, length-drop chapter_branches (x ∷ xs))))
    ∙ take-append-drop chapter_branches (x ∷ xs)

Fits-number :
    (count chapter parts part fuel : ℕ) (xs : List Text)
    → chapter < count
    → part + length (chunks fuel xs) ≤ parts
    → All (Fits count) (number chapter parts part (chunks fuel xs))
unfolding number chunks
Fits-number count chapter parts part fuel [] h k = tt
Fits-number count chapter parts part zero (x ∷ xs) h k = tt
Fits-number count chapter parts part (suc fuel) (x ∷ xs) h k = (
  (
    omega (arith, length-take chapter_branches (x ∷ xs)),
    omega (arith, length-take chapter_branches (x ∷ xs)),
    omega arith,
    h,
  ),
  Fits-number count chapter parts (part + 1) fuel (drop chapter_branches (x ∷ xs)) h (omega arith),
)

All-append : (P : Batch → Type 0) (a b : List Batch) → All P a → All P b → All P (a ++ b)
All-append P [] b h k = k
All-append P (x ∷ a) b (h, i) k = (h, All-append P a b i k)

module _ (view : BranchView) where
  batches_of-Perm :
      (chapter : ℕ) (entry : Chapter)
      → Perm (batch_keys (batches_of view chapter entry)) entry.branches
  unfolding batches_of
  batches_of-Perm chapter entry =
      let branches = sort_by_key (index view) entry.branches in
      rw
        (batch_keys-number chapter (length (chunks (length branches) branches)) 0 (length branches)
          branches (omega arith))
        (sort_by_key-Perm (index view) entry.branches)

  batches_from-Perm :
      (chapter : ℕ) (entries : List Chapter)
      → Perm (batch_keys (batches_from view chapter entries)) (all_keys entries)
  unfolding batches_from
  batches_from-Perm chapter [] = Perm.rfl
  batches_from-Perm chapter (entry ∷ entries) =
      rw
        (batch_keys-append (batches_of view chapter entry)
          (batches_from view (chapter + 1) entries))
        (Perm.append (batches_of-Perm chapter entry) (batches_from-Perm (chapter + 1) entries))

  Fits-batches_from :
      (count chapter : ℕ) (entries : List Chapter)
      → chapter + length entries ≤ count
      → All (Fits count) (batches_from view chapter entries)
  unfolding batches_from batches_of
  Fits-batches_from count chapter [] h = tt
  Fits-batches_from count chapter (entry ∷ entries) h =
      let branches = sort_by_key (index view) entry.branches in
      All-append (Fits count) (batches_of view chapter entry)
        (batches_from view (chapter + 1) entries)
        (Fits-number count chapter (length (chunks (length branches) branches)) 0 (length branches)
          branches (omega arith) (omega arith))
        (Fits-batches_from count (chapter + 1) entries (omega arith))

-- Where a division is returned, each branch of the source stands in one of the requests or in one of
-- the exclusions, once; each request has 1 to 16 branches, and is one of the parts of a chapter that
-- is there. A `HashMap` is walked in some order of its entries.
pub chapter_batches-decode_chapters :
    (lowercase : Text → Text) (walk : Index ℕ → Index ℕ) (draft : ChaptersDraft) (view : BranchView)
    {r : Chapters}
    → ((d : Index ℕ) → Permᴰ (walk d) d)
    → decode_chapters lowercase walk draft view ≡ ok r
    → Perm
        (batch_keys (chapter_batches r view) ++ excluded_keys r.excluded_branches)
        (map (λ (b : Branch). b.key) view.branches)
      × All (Fits (length r.chapters)) (chapter_batches r view)
unfolding chapter_batches
chapter_batches-decode_chapters lowercase walk draft view {r} walked e = (
  Perm.trans
      (Perm.append_right (excluded_keys r.excluded_branches) (batches_from-Perm view 0 r.chapters))
      (decode_chapters-Divides lowercase walk draft view walked e).0,
  Fits-batches_from view (length r.chapters) 0 r.chapters (omega arith),
)
