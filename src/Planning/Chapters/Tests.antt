-- ===== src/Planning/Chapters/Tests.antt =====
-- A small source divided into chapters, and the theorem at it.
use doc_craft_agent.Prelude.{
  ◌≡◌, refl, true, List, [], ◌∷◌, ◌++◌, All, ok, err, Text, text, trim, trim_end, trim_start,
  is_empty, is_whitespace, len, text_eq, contains, split_join, join_words,
}
use doc_craft_agent.Model.{BranchExclusion}
use doc_craft_agent.Findings.{bounded_text}
use doc_craft_agent.Planning.Branches.{Branch, BranchView, position, index}
use doc_craft_agent.Planning.Chapters.{
  ChaptersDraft, Chapters, decode_chapters, divide, read_chapters, take_all, claim, claim_from, at,
  branch_of, group_of, index_of, read_exclusions, excluded_members, exclude_all, group_owner,
  chapter_owner, any_missing, fill, give_to, give, exclude, excluded_list, missing_branches,
}
use doc_craft_agent.Planning.Batches.{
  batch_keys, Fits, chapter_batches, batches_from, batches_of, sort_by_key, insert_by, chunks,
  number, chapter_batches-decode_chapters,
}
use doc_craft_agent.Planning.Chapters.Division.{excluded_keys, Divides, decode_chapters-Divides}
use mathlib.Core.List.{Perm}
use mathlib.Core.List.Permᴰ

abbrev same : Text → Text
same t = t

abbrev branch : Text → Text → Branch
branch label key = record {
  label = label;
  key = key;
  findings = [];
  files = [];
  whole = true;
  parts = [];
}

abbrev three : BranchView
three = record {
  branches =
      branch (text "A") (text "a")
      ∷ branch (text "B") (text "b")
      ∷ branch (text "C") (text "c")
      ∷ [];
  groups = record { label = text "G1"; topics = []; members = 0 ∷ 1 ∷ [] } ∷ [];
}

-- the group, with one branch of it moved to the second chapter, and one branch left out
abbrev draft : List BranchExclusion → ChaptersDraft
draft excluded = record {
  chapters =
      record { title = text "x"; summary = text "s"; groups = text " G1" ∷ []; branches = [] }
      ∷ record { title = text "y"; summary = text "s"; groups = []; branches = text "B" ∷ [] }
      ∷ [];
  excluded_branches = excluded;
  reader_goal = text "g";
  storyline = text "l";
}

abbrev left_out : List BranchExclusion
left_out = record { branch = text "C"; reason = text "r" } ∷ []

abbrev divided : Chapters
divided = record {
  chapters =
      record { title = text "x"; summary = text "s"; branches = text "a" ∷ [] }
      ∷ record { title = text "y"; summary = text "s"; branches = text "b" ∷ [] }
      ∷ [];
  excluded_branches = record { branch = text "c"; reason = text "r" } ∷ [];
  reader_goal = text "g";
  storyline = text "l";
}

single_branch_wins : decode_chapters same (λ d. d) (draft left_out) three ≡ ok divided
unfolding decode_chapters divide read_chapters take_all claim claim_from at branch_of group_of
    index_of read_exclusions excluded_members exclude_all group_owner chapter_owner any_missing fill
    give_to give exclude excluded_list bounded_text contains split_join join_words trim trim_end
    trim_start is_empty is_whitespace len text_eq
single_branch_wins = refl

branch_forgotten : decode_chapters same (λ d. d) (draft []) three ≡ err missing_branches
unfolding decode_chapters divide read_chapters take_all claim claim_from at branch_of group_of
    index_of read_exclusions excluded_members exclude_all group_owner chapter_owner any_missing fill
    give_to give exclude excluded_list bounded_text contains split_join join_words trim trim_end
    trim_start is_empty is_whitespace len text_eq
branch_forgotten = refl

decode_chapters-Divides_example : Divides (draft left_out) three divided
decode_chapters-Divides_example =
    decode_chapters-Divides same (λ d. d) (draft left_out) three (λ d. Permᴰ.refl d)
      single_branch_wins

two_requests :
    chapter_batches divided three
    ≡ record { chapter = 0; part = 0; parts = 1; branches = text "a" ∷ [] }
      ∷ record { chapter = 1; part = 0; parts = 1; branches = text "b" ∷ [] }
      ∷ []
unfolding chapter_batches batches_from batches_of sort_by_key insert_by chunks number index position
    text_eq
two_requests = refl

chapter_batches-decode_chapters_example :
    Perm
      (batch_keys (chapter_batches divided three) ++ excluded_keys divided.excluded_branches)
      (text "a" ∷ text "b" ∷ text "c" ∷ [])
    × All (Fits 2) (chapter_batches divided three)
chapter_batches-decode_chapters_example =
    chapter_batches-decode_chapters same (λ d. d) (draft left_out) three (λ d. Permᴰ.refl d)
      single_branch_wins
