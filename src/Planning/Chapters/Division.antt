-- ===== src/Planning/Chapters/Division.antt =====
-- What a division into chapters satisfies (`decode_chapters` of backend/src/planning.rs).
use doc_craft_agent.Prelude.{
  ℕ, zero, suc, ◌+◌, ◌≤◌, ◌<◌, ◌≡◌, refl, ap, sym, ◌∙◌, Bool, true, false, not, ◌&&◌, Option, none,
  some, List, [], ◌∷◌, ◌++◌, map, ok, length-map, ensure->>=-ok, >>=-eq-ok, ok_injective, arith,
  leb, ltb, length, Text, all, All,
}
use doc_craft_agent.Model.{BranchExclusion}
use doc_craft_agent.Planning.Branches.{Branch, BranchView, max_chapters}
use doc_craft_agent.Planning.Chapters.Owners.{
  Below-Permᴰ, read_chapters-Below, group_owner-lt, chapter_owner-lt,
}
use doc_craft_agent.Planning.Chapters.{
  Index, Chapter, ChapterDraft, Chapters, ChaptersDraft, at, is_some, read_chapters,
  read_exclusions, group_owner, chapter_owner, any_missing, give, give_to, fill, exclude,
  excluded_list, empty_chapter_of, divide, decode_chapters,
}
use mathlib.Core.List.{Perm, Permᴰ, perm_middle}
use mathlib.Core.List.Perm

-- the keys of the branches in all chapters
abbrev pub all_keys : List Chapter → List Text
all_keys [] = []
all_keys (c ∷ cs) = c.branches ++ all_keys cs

abbrev pub excluded_keys : List BranchExclusion → List Text
excluded_keys = map (λ (e : BranchExclusion). e.branch)

abbrev pub titles_of : List Chapter → List Text
titles_of = map (λ (c : Chapter). c.title)

give-Perm :
    (c : ℕ) (key : Text) (cs : List Chapter)
    → c < length cs
    → Perm (all_keys (give c key cs)) (key ∷ all_keys cs)
unfolding give
give-Perm c key [] h = absurd (ground arith)
give-Perm zero key (x ∷ xs) h = Perm.rfl
give-Perm (suc c) key (x ∷ xs) h =
    Perm.trans (Perm.append_left x.branches (give-Perm c key xs (ground arith)))
      (perm_middle x.branches (all_keys xs))

titles-give : (c : ℕ) (key : Text) (cs : List Chapter) → titles_of (give c key cs) ≡ titles_of cs
unfolding give
titles-give c key [] = refl
titles-give zero key (x ∷ xs) = refl
titles-give (suc c) key (x ∷ xs) = ap (λ ts. x.title ∷ ts) (titles-give c key xs)

titles-give_to :
    (o : Option ℕ) (key : Text) (cs : List Chapter) → titles_of (give_to o key cs) ≡ titles_of cs
unfolding give_to
titles-give_to none key cs = refl
titles-give_to (some c) key cs = titles-give c key cs

titles-fill :
    (owners : ℕ → Option ℕ) (i : ℕ) (bs : List Branch) (cs : List Chapter)
    → titles_of (fill owners i bs cs) ≡ titles_of cs
unfolding fill
titles-fill owners i [] cs = refl
titles-fill owners i (b ∷ bs) cs =
    titles-give_to (owners i) b.key (fill owners (i + 1) bs cs) ∙ titles-fill owners (i + 1) bs cs

length_of_titles : (cs : List Chapter) → length (titles_of cs) ≡ length cs
length_of_titles cs = length-map cs (λ (c : Chapter). c.title)

-- One branch goes to a chapter or to the exclusions.
account-Perm :
    (o : Option ℕ) (r : Option Text) (key : Text) (cs : List Chapter) (es : List BranchExclusion)
    → ((c : ℕ) → o ≡ some c → c < length cs)
    → (not (is_some o) && not (is_some r)) ≡ false
    → Perm
        (all_keys (give_to o key cs) ++ excluded_keys (exclude o r key es))
        (key ∷ (all_keys cs ++ excluded_keys es))
unfolding give_to exclude
account-Perm none none key cs es h k = cc
account-Perm none (some r) key cs es h k = perm_middle (all_keys cs) (excluded_keys es)
account-Perm (some c) r key cs es h k =
    Perm.append_right (excluded_keys es) (give-Perm c key cs (h c refl))

module _ (owners : ℕ → Option ℕ) (excluded : Index Text) (cs : List Chapter)
    (in_range : (i c : ℕ) → owners i ≡ some c → c < length cs) (empty : all_keys cs ≡ []) where
  length-fill : (i : ℕ) (bs : List Branch) → length (fill owners i bs cs) ≡ length cs
  length-fill i bs =
      sym (length_of_titles (fill owners i bs cs))
      ∙ ap length (titles-fill owners i bs cs)
      ∙ length_of_titles cs

  divided-Perm :
      (i : ℕ) (bs : List Branch)
      → any_missing owners excluded i bs ≡ false
      → Perm
          (all_keys (fill owners i bs cs) ++ excluded_keys (excluded_list owners excluded i bs))
          (map (λ (b : Branch). b.key) bs)
  unfolding fill excluded_list any_missing
  divided-Perm i [] h = rw empty Perm.rfl
  divided-Perm i (b ∷ bs) h =
      Perm.trans
        (account-Perm (owners i) (at i excluded) b.key (fill owners (i + 1) bs cs)
          (excluded_list owners excluded (i + 1) bs)
          (λ c e. omega (arith, in_range i c e, length-fill (i + 1) bs)) (ground arith))
        (Perm.cons b.key (divided-Perm (i + 1) bs (ground arith)))

no_keys : (cs : List ChapterDraft) → all_keys (map empty_chapter_of cs) ≡ []
no_keys [] = refl
no_keys (c ∷ cs) = no_keys cs

titles-empty :
    (cs : List ChapterDraft)
    → titles_of (map empty_chapter_of cs) ≡ map (λ (c : ChapterDraft). c.title) cs
titles-empty [] = refl
titles-empty (c ∷ cs) = ap (λ ts. c.title ∷ ts) (titles-empty cs)

and_right : (a b : Bool) → (a && b) ≡ true → b ≡ true
and_right a b h = ground arith

all-All :
    (cs : List Chapter)
    → all (λ (c : Chapter). ltb 0 (length c.branches)) cs ≡ true
    → All (λ (c : Chapter). 0 < length c.branches) cs
all-All [] h = tt
all-All (c ∷ cs) h = (ground arith, all-All cs (and_right (ltb 0 (length c.branches)) _ h))

-- what a division has of its view and its draft
abbrev pub Divides : ChaptersDraft → BranchView → Chapters → Type 0
Divides draft view r =
    Perm (all_keys r.chapters ++ excluded_keys r.excluded_branches)
      (map (λ (b : Branch). b.key) view.branches)
    × (titles_of r.chapters ≡ map (λ (c : ChapterDraft). c.title) draft.chapters)
    × (1 ≤ length r.chapters)
    × (length r.chapters ≤ max_chapters)
    × All (λ (c : Chapter). 0 < length c.branches) r.chapters

abbrev divided : ChaptersDraft → BranchView → Index Text → (ℕ → Option ℕ) → Chapters
divided draft view excluded owners = record {
  chapters = fill owners 0 view.branches (map empty_chapter_of draft.chapters);
  excluded_branches = excluded_list owners excluded 0 view.branches;
  reader_goal = draft.reader_goal;
  storyline = draft.storyline;
}

divide-Divides :
    (draft : ChaptersDraft) (view : BranchView) (excluded : Index Text) (owners : ℕ → Option ℕ)
    {r : Chapters}
    → ((i c : ℕ) → owners i ≡ some c → c < length draft.chapters)
    → (leb 1 (length draft.chapters) && leb (length draft.chapters) max_chapters) ≡ true
    → divide draft view excluded owners ≡ ok r
    → Divides draft view r
unfolding divide
divide-Divides draft view excluded owners {r} h count e =
    let cs = map empty_chapter_of draft.chapters in
    let chapters = fill owners 0 view.branches cs in
    let (present, e1) = ensure->>=-ok (not (any_missing owners excluded 0 view.branches)) _ _ e in
    let (full, e2) =
      ensure->>=-ok (all (λ (c : Chapter). ltb 0 (length c.branches)) chapters) _ _ e1 in
    let many : length cs ≡ length draft.chapters = length-map draft.chapters empty_chapter_of in
    let in_range : (i c : ℕ) → owners i ≡ some c → c < length cs =
      λ i c f. omega (arith, h i c f, many) in
    let filled = length-fill owners excluded cs in_range (no_keys draft.chapters) 0 view.branches in
    let same : divided draft view excluded owners ≡ r = ok_injective e2 in
    rw⁻¹ same (
      divided-Perm owners excluded cs in_range (no_keys draft.chapters) 0 view.branches
          (ground (arith, present)),
      titles-fill owners 0 view.branches cs ∙ titles-empty draft.chapters,
      ground (arith, filled, many, count),
      ground (arith, filled, many, count),
      all-All (fill owners 0 view.branches cs) full,
    )

-- Where a division is returned, every branch stands in exactly one chapter or in exactly one
-- exclusion, once: the keys of both together are those of the branches but for their order. There
-- are 1 to 16 chapters, with the titles of the draft, and none is empty. A `HashMap` is walked in
-- some order of its entries.
pub decode_chapters-Divides :
    (lowercase : Text → Text) (walk : Index ℕ → Index ℕ) (draft : ChaptersDraft) (view : BranchView)
    {r : Chapters}
    → ((d : Index ℕ) → Permᴰ (walk d) d)
    → decode_chapters lowercase walk draft view ≡ ok r
    → Divides draft view r
unfolding decode_chapters
decode_chapters-Divides lowercase walk draft view walked e =
    let n = length draft.chapters in
    let (count, e1) = ensure->>=-ok (leb 1 n && leb n max_chapters) _ _ e in
    let (_, e2) = ensure->>=-ok _ _ _ e1 in
    let (taken, read, e3) =
      >>=-eq-ok (read_chapters lowercase view 0 [] ([], []) draft.chapters) _ e2 in
    let (excluded, _, e4) =
      >>=-eq-ok (read_exclusions view taken draft.excluded_branches []) _ e3 in
    let below =
      read_chapters-Below lowercase view n 0 [] ([], []) draft.chapters (omega arith) tt tt read in
    divide-Divides draft view excluded
      (chapter_owner taken.0 excluded (group_owner view.groups (walk taken.1)))
      (λ i c f.
        chapter_owner-lt n taken.0 excluded (group_owner view.groups (walk taken.1)) i below.0
          (λ w g.
            group_owner-lt n view.groups (walk taken.1) i (Below-Permᴰ n (walked taken.1) below.1)
              g)
          f)
      count e4
