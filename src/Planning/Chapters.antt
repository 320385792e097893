-- ===== src/Planning/Chapters.antt =====
-- `decode_chapters` of backend/src/planning.rs: the branches of a large source are divided into
-- chapters. The answer of the model enters as its draft, decoded. Unicode `to_lowercase` is a
-- parameter, and so is the order in which Rust walks a `HashMap`.
pub mod Owners
pub mod Division
mod Tests
use doc_craft_agent.Prelude.{
  ℕ, zero, suc, ◌+◌, Bool, true, false, not, ◌&&◌, ◌||◌, Option, none, some, List, [], ◌∷◌, ◌++◌,
  map, Result, ok, err, ◌>>=◌, ◌>>◌, ensure, leb, ltb, ◌==◌, if◌then◌else◌, length, get_elem?, Text,
  text_eq, trim, all, any, contains, split_join,
}
use doc_craft_agent.Model.{BranchExclusion}
use doc_craft_agent.Findings.{bounded_text}
use doc_craft_agent.Planning.Branches.{Branch, Group, BranchView, max_chapters}

pub record ChapterDraft : Type 0 where
  pub title : Text
  pub summary : Text
  pub groups : List Text
  pub branches : List Text

pub record ChaptersDraft : Type 0 where
  pub chapters : List ChapterDraft
  pub excluded_branches : List BranchExclusion
  pub reader_goal : Text
  pub storyline : Text

pub record Chapter : Type 0 where
  pub title : Text
  pub summary : Text
  pub branches : List Text

pub record Chapters : Type 0 where
  pub chapters : List Chapter
  pub excluded_branches : List BranchExclusion
  pub reader_goal : Text
  pub storyline : Text

-- the errors of `decode_chapters`
pub data Error : Type 0 where
  chapter_count bad_goal bad_chapter unknown_label branch_twice group_twice : Error
  bad_reason group_taken branch_taken missing_branches empty_chapter : Error

-- a `HashMap<usize, V>`
abbrev pub Index {ℓ} : Type ℓ → Type ℓ
Index V = List (ℕ × V)

module _ {ℓ} {V : Type ℓ} where
  unfoldable pub at : ℕ → Index V → Option V
  at i [] = none
  at i ((j, v) ∷ d) = if i == j then some v else at i d

abbrev pub is_some {ℓ} : {A : Type ℓ} → Option A → Bool
is_some none = false
is_some (some a) = true

-- `branch_index` and `group_index`: where a label stands twice, the later one counts
module _ {ℓ} {A : Type ℓ} (label : A → Text) where
  unfoldable pub index_of : ℕ → List A → Text → Option ℕ
  index_of i [] t = none
  index_of i (x ∷ xs) t = elim (index_of (i + 1) xs t) [
    | some j ↦ some j
    | none ↦ if text_eq (label x) t then some i else none
  ]

unfoldable pub branch_of : BranchView → Text → Option ℕ
unfolding index_of
branch_of view t = index_of (λ (b : Branch). b.label) 0 view.branches t

unfoldable pub group_of : BranchView → Text → Option ℕ
unfolding index_of
group_of view t = index_of (λ (g : Group). g.label) 0 view.groups t

-- `insert`, and the test of what stood there
unfoldable pub claim_from : Option ℕ → Error → ℕ → ℕ → Index ℕ → Result Error (Index ℕ)
claim_from none twice chapter i d = ok ((i, chapter) ∷ d)
claim_from (some first) twice chapter i d = if first == chapter then ok d else err twice

unfoldable pub claim : Error → ℕ → ℕ → Index ℕ → Result Error (Index ℕ)
unfolding at claim_from
claim twice chapter i d = claim_from (at i d) twice chapter i d

abbrev pub known : Option ℕ → Result Error ℕ
known none = err unknown_label
known (some i) = ok i

-- the loop over the labels of a chapter
unfoldable pub take_all :
    (Text → Option ℕ) → Error → ℕ → List Text → Index ℕ → Result Error (Index ℕ)
unfolding claim
take_all lookup twice chapter [] d = ok d
take_all lookup twice chapter (label ∷ labels) d = do
  i ← known (lookup (trim label))
  claimed ← claim twice chapter i d
  take_all lookup twice chapter labels claimed

abbrev pub chapter_ok : (Text → Text) → List Text → ChapterDraft → Bool
chapter_ok lowercase titles c =
    bounded_text c.title 299
    && bounded_text c.summary 1500
    && not (contains titles (lowercase (split_join c.title)))

-- the loop over the chapters: which of them takes a branch, and which a group
unfoldable pub read_chapters :
    (Text → Text)
    → BranchView
    → ℕ
    → List Text
    → Index ℕ × Index ℕ
    → List ChapterDraft
    → Result Error (Index ℕ × Index ℕ)
unfolding take_all
read_chapters lowercase view chapter titles taken [] = ok taken
read_chapters lowercase view chapter titles taken (c ∷ cs) = do
  ensure (chapter_ok lowercase titles c) bad_chapter
  explicit ← take_all (branch_of view) branch_twice chapter c.branches taken.0
  by_group ← take_all (group_of view) group_twice chapter c.groups taken.1
  read_chapters lowercase view (chapter + 1) (lowercase (split_join c.title) ∷ titles)
      (explicit, by_group) cs

abbrev pub members_of : Option Group → List ℕ
members_of none = []
members_of (some g) = g.members

-- the branches that an exclusion names, and whether it names a branch itself
unfoldable pub excluded_members :
    Index ℕ → BranchView → Option ℕ → Option ℕ → Result Error (List ℕ × Bool)
unfolding at
excluded_members by_group view (some branch) group = ok (branch ∷ [], true)
excluded_members by_group view none (some group) =
    if is_some (at group by_group)
    then err group_taken
    else ok (members_of (get_elem? view.groups group), false)
excluded_members by_group view none none = err unknown_label

-- the loop over these branches
unfoldable pub exclude_all : Index ℕ → Bool → Text → List ℕ → Index Text → Result Error (Index Text)
unfolding at
exclude_all explicit named reason [] d = ok d
exclude_all explicit named reason (i ∷ is) d = do
  ensure (not (is_some (at i explicit) && named)) branch_taken
  exclude_all explicit named reason is ((i, reason) ∷ d)

-- the loop over the exclusions
unfoldable pub read_exclusions :
    BranchView → Index ℕ × Index ℕ → List BranchExclusion → Index Text → Result Error (Index Text)
unfolding excluded_members exclude_all
read_exclusions view taken [] d = ok d
read_exclusions view taken (e ∷ es) d = do
  ensure (bounded_text e.reason 1500) bad_reason
  members ←
      excluded_members taken.1 view (branch_of view (trim e.branch)) (group_of view (trim e.branch))
  d' ← exclude_all taken.0 members.1 e.reason members.0 d
  read_exclusions view taken es d'

abbrev pub or_else {ℓ} : {A : Type ℓ} → Option A → Option A → Option A
or_else none later = later
or_else (some a) later = some a

-- what the loop over `by_group` leaves in `owner[branch]`: the last group that holds it
unfoldable pub group_owner : List Group → Index ℕ → ℕ → Option ℕ
group_owner groups [] branch = none
group_owner groups ((group, chapter) ∷ taken) branch =
    or_else (group_owner groups taken branch)
      (if any (λ i. i == branch) (members_of (get_elem? groups group)) then some chapter else none)

-- `owner[branch]`: a branch named on its own, else one that no exclusion takes out of its group
unfoldable pub chapter_owner : Index ℕ → Index Text → (ℕ → Option ℕ) → ℕ → Option ℕ
unfolding at
chapter_owner explicit excluded by_group branch =
    or_else (at branch explicit) (if is_some (at branch excluded) then none else by_group branch)

-- a branch without an owner that is not excluded either
unfoldable pub any_missing : (ℕ → Option ℕ) → Index Text → ℕ → List Branch → Bool
unfolding at
any_missing owners excluded i [] = false
any_missing owners excluded i (b ∷ bs) =
    (not (is_some (owners i)) && not (is_some (at i excluded)))
    || any_missing owners excluded (i + 1) bs

unfoldable pub give : ℕ → Text → List Chapter → List Chapter
give c key [] = []
give zero key (x ∷ xs) = record x { branches = key ∷ x.branches } ∷ xs
give (suc c) key (x ∷ xs) = x ∷ give c key xs

unfoldable pub give_to : Option ℕ → Text → List Chapter → List Chapter
unfolding give
give_to none key chapters = chapters
give_to (some c) key chapters = give c key chapters

-- each chapter with the keys of its branches, in the order of the branches
unfoldable pub fill : (ℕ → Option ℕ) → ℕ → List Branch → List Chapter → List Chapter
unfolding give_to
fill owners i [] chapters = chapters
fill owners i (b ∷ bs) chapters = give_to (owners i) b.key (fill owners (i + 1) bs chapters)

-- an exclusion holds where the branch has no owner
unfoldable pub exclude : Option ℕ → Option Text → Text → List BranchExclusion → List BranchExclusion
exclude (some c) reason key rest = rest
exclude none none key rest = rest
exclude none (some r) key rest = record { branch = key; reason = r } ∷ rest

-- the exclusions that hold, sorted by branch
unfoldable pub excluded_list : (ℕ → Option ℕ) → Index Text → ℕ → List Branch → List BranchExclusion
unfolding at exclude
excluded_list owners excluded i [] = []
excluded_list owners excluded i (b ∷ bs) =
    exclude (owners i) (at i excluded) b.key (excluded_list owners excluded (i + 1) bs)

abbrev pub empty_chapter_of : ChapterDraft → Chapter
empty_chapter_of c = record { title = c.title; summary = c.summary; branches = [] }

-- from the owners on: nothing may be missing, and no chapter empty
unfoldable pub divide :
    ChaptersDraft → BranchView → Index Text → (ℕ → Option ℕ) → Result Error Chapters
unfolding any_missing fill excluded_list
divide draft view excluded owners =
    let chapters = fill owners 0 view.branches (map empty_chapter_of draft.chapters) in
    do
      ensure (not (any_missing owners excluded 0 view.branches)) missing_branches
      ensure (all (λ (c : Chapter). ltb 0 (length c.branches)) chapters) empty_chapter
      ok (record {
        chapters = chapters;
        excluded_branches = excluded_list owners excluded 0 view.branches;
        reader_goal = draft.reader_goal;
        storyline = draft.storyline;
      })

unfoldable pub decode_chapters :
    (Text → Text) → (Index ℕ → Index ℕ) → ChaptersDraft → BranchView → Result Error Chapters
unfolding read_chapters read_exclusions group_owner chapter_owner divide
decode_chapters lowercase walk draft view = do
  ensure (leb 1 (length draft.chapters) && leb (length draft.chapters) max_chapters) chapter_count
  ensure (bounded_text draft.reader_goal 2000 && bounded_text draft.storyline 4000) bad_goal
  taken ← read_chapters lowercase view 0 [] ([], []) draft.chapters
  excluded ← read_exclusions view taken draft.excluded_branches []
  divide draft view excluded
      (chapter_owner taken.0 excluded (group_owner view.groups (walk taken.1)))
