-- ===== src/Planning/Generated.antt =====
-- `decode_generated_outline` of backend/src/planning.rs: the names in a plan that the model returns
-- are resolved. A value of JSON enters by what the code asks of it; `none` stands for one of
-- another type than the code expects.
pub mod Resolved
mod Tests
use doc_craft_agent.Prelude.{
  ℕ, zero, suc, Bool, true, false, not, Option, none, some, List, [], ◌∷◌, ◌++◌, map, Result, ok,
  err, ◌>>=◌, ◌>>◌, ensure, leb, ltb, ◌==◌, if◌then◌else◌, length, Text, text_eq, trim, any, filter,
  contains, Dict, find,
}
use doc_craft_agent.Model.{SectionPlan, Outline}
use doc_craft_agent.Findings.{bounded_text}

pub data DecodeError : Type 0 where
  not_an_array not_a_label unknown_label no_reason counted_twice : DecodeError
  not_titles not_one_section not_earlier : DecodeError

-- the field `branches` of a section
pub data RawBranches : Type 0 where
  absent null : RawBranches
  items : Option (List (Option Text)) → RawBranches

pub record RawSection : Type 0 where
  pub title : Option Text
  pub branches : RawBranches
  pub prerequisite_titles : Option (Option (List Text))

pub record RawExclusion : Type 0 where
  pub branch : Option Text
  pub reason : Option Text

pub record RawPlan : Type 0 where
  pub sections : List RawSection
  pub excluded_branches : Option (Option (List RawExclusion))

-- what the code writes; `none` is a field that it leaves
pub record ResolvedSection : Type 0 where
  pub title : Option Text
  pub branches : Option (List Text)
  pub prerequisites : Option (Option (List Text))
  pub depends_on : Option (List ℕ)

abbrev pub known_label : Option Text → Result DecodeError Text
known_label none = err unknown_label
known_label (some key) = ok key

-- the loop of `resolve_labels`
unfoldable pub resolve_items :
    Dict Text → List Text → List (Option Text) → Result DecodeError (List Text)
unfolding find contains
resolve_items labels seen [] = ok []
resolve_items labels seen (none ∷ rest) = err not_a_label
resolve_items labels seen (some label ∷ rest) = do
  key ← known_label (find (trim label) labels)
  keys ← resolve_items labels (if contains seen key then seen else key ∷ seen) rest
  ok (if contains seen key then keys else key ∷ keys)

unfoldable pub resolve_labels :
    Dict Text → Option (List (Option Text)) → Result DecodeError (List Text)
unfolding resolve_items
resolve_labels labels none = err not_an_array
resolve_labels labels (some values) = resolve_items labels [] values

abbrev is_nil : {V : Type 0} → Dict V → Bool
is_nil [] = true
is_nil (e ∷ d) = false

unfoldable pub resolve_branches : Dict Text → RawBranches → Result DecodeError (Option (List Text))
unfolding resolve_labels
resolve_branches labels absent = ok none
resolve_branches labels null = ok (some [])
resolve_branches labels (items values) = elim (is_nil labels) [
  | true ↦ ok (some [])
  | false ↦ do keys ← resolve_labels labels values; ok (some keys)
]

-- the first loop over the sections
unfoldable pub resolve_each :
    Dict Text → List RawSection → Result DecodeError (List ResolvedSection)
unfolding resolve_branches
resolve_each labels [] = ok []
resolve_each labels (s ∷ ss) = do
  branches ← resolve_branches labels s.branches
  rest ← resolve_each labels ss
  ok (
      record {
        title = s.title;
        branches = branches;
        prerequisites = s.prerequisite_titles;
        depends_on = none;
      }
      ∷ rest)

abbrev reason_ok : Option Text → Bool
reason_ok none = false
reason_ok (some reason) = bounded_text reason 1500

-- `branch[0]`, of a list of one label
abbrev only_one : List Text → Result DecodeError Text
only_one [] = err unknown_label
only_one (key ∷ keys) = ok key

-- the loop of `resolve_exclusions`
unfoldable pub resolve_reasons : Dict Text → List RawExclusion → Result DecodeError (List Text)
unfolding resolve_labels
resolve_reasons labels [] = ok []
resolve_reasons labels (e ∷ es) = do
  ensure (reason_ok e.reason) no_reason
  keys ← resolve_labels labels (some (e.branch ∷ []))
  key ← only_one keys
  rest ← resolve_reasons labels es
  ok (key ∷ rest)

unfoldable pub resolve_exclusions :
    Dict Text → Option (Option (List RawExclusion)) → Result DecodeError (List Text)
unfolding resolve_reasons
resolve_exclusions labels none = ok []
resolve_exclusions [] (some value) = ok []
resolve_exclusions (l ∷ labels) (some none) = err not_an_array
resolve_exclusions (l ∷ labels) (some (some es)) = resolve_reasons (l ∷ labels) es

abbrev pub branches_of : Option (List Text) → List Text
branches_of none = []
branches_of (some keys) = keys

-- whether a section covers the branch
unfoldable pub is_covered : List ResolvedSection → Text → Bool
unfolding contains
is_covered sections key = any (λ s. contains (branches_of s.branches) key) sections

unfoldable pub reject_covered_exclusions :
    List ResolvedSection → List Text → Result DecodeError (Unit {0})
unfolding is_covered
reject_covered_exclusions sections [] = ok tt
reject_covered_exclusions sections (key ∷ keys) = do
  ensure (not (is_covered sections key)) counted_twice
  reject_covered_exclusions sections keys

abbrev is_titled : Text → Option Text → Bool
is_titled title none = false
is_titled title (some t) = text_eq t title

-- the sections of a title
unfoldable pub matching_sections : Text → ℕ → List (Option Text) → List ℕ
unfolding text_eq
matching_sections title index [] = []
matching_sections title index (t ∷ ts) =
    let rest = matching_sections title (suc index) ts in
    if is_titled title t then index ∷ rest else rest

abbrev pub one_match : List ℕ → Result DecodeError ℕ
one_match [] = err not_one_section
one_match (d ∷ []) = ok d
one_match (d ∷ e ∷ ds) = err not_one_section

-- the loop over the titles that a section names
unfoldable pub resolve_titles :
    List (Option Text) → ℕ → List ℕ → List Text → Result DecodeError (List ℕ)
unfolding matching_sections
resolve_titles titles index dependencies [] = ok dependencies
resolve_titles titles index dependencies (title ∷ references) = do
  dependency ← one_match (matching_sections title 0 titles)
  ensure (ltb dependency index) not_earlier
  resolve_titles titles index
      (if any (λ d. d == dependency) dependencies
        then dependencies
        else dependencies ++ (dependency ∷ []))
      references

unfoldable pub resolve_prerequisites :
    List (Option Text) → ℕ → Option (Option (List Text)) → Result DecodeError (Option (List ℕ))
unfolding resolve_titles
resolve_prerequisites titles index none = ok none
resolve_prerequisites titles index (some none) = err not_titles
resolve_prerequisites titles index (some (some references)) = do
  dependencies ← resolve_titles titles index [] references
  ok (some dependencies)

-- the second loop over the sections
unfoldable pub resolve_order :
    List (Option Text) → ℕ → List ResolvedSection → Result DecodeError (List ResolvedSection)
unfolding resolve_prerequisites
resolve_order titles index [] = ok []
resolve_order titles index (s ∷ ss) = do
  dependencies ← resolve_prerequisites titles index s.prerequisites
  rest ← resolve_order titles (suc index) ss
  ok (record s { depends_on = dependencies } ∷ rest)

-- the sections, and the branches that are excluded
unfoldable pub resolve_plan :
    Dict Text → RawPlan → Result DecodeError (List ResolvedSection × List Text)
unfolding resolve_each resolve_exclusions reject_covered_exclusions resolve_order
resolve_plan labels plan = do
  sections ← resolve_each labels plan.sections
  excluded ← resolve_exclusions labels plan.excluded_branches
  reject_covered_exclusions sections excluded
  resolved ← resolve_order (map (λ s. s.title) sections) 0 sections
  ok (resolved, excluded)

-- `retain(|d| seen.insert(*d))`
unfoldable pub first_of_each_index : List ℕ → List ℕ → List ℕ
first_of_each_index seen [] = []
first_of_each_index seen (d ∷ ds) =
    let is_old = any (λ e. e == d) seen in
    let rest = first_of_each_index (if is_old then seen else d ∷ seen) ds in
    if is_old then rest else d ∷ rest

-- the plan that is left of what the response holds
unfoldable pub without_requirements : Outline → Outline
unfolding first_of_each_index
without_requirements plan = record plan {
  requirements = [];
  sections =
      map
        (λ (s : SectionPlan). record s {
          depends_on = first_of_each_index [] s.depends_on;
          owns_requirement_ids = [];
        })
        plan.sections;
}
