-- ===== src/Planning/Generated/Tests.antt =====
-- A plan whose names are resolved (the unit tests of backend/src/planning.rs), and the theorem at it.
use doc_craft_agent.Prelude.{
  ◌≡◌, refl, none, some, List, [], ◌∷◌, ok, err, Text, text, text_eq, trim, trim_start, trim_end,
  is_whitespace, contains, Dict, find, len, is_empty,
}
use doc_craft_agent.Findings.{bounded_text}
use doc_craft_agent.Planning.Generated.{
  counted_twice, not_earlier, items, absent, RawPlan, ResolvedSection, resolve_items,
  resolve_labels, resolve_branches, resolve_each, resolve_reasons, resolve_exclusions, is_covered,
  reject_covered_exclusions, matching_sections, resolve_titles, resolve_prerequisites,
  resolve_order, resolve_plan,
}
use doc_craft_agent.Planning.Generated.Resolved.{Resolved, resolve_plan-Resolved}

abbrev labels : Dict Text
labels = (text "B1", text "x") ∷ (text "B2", text "y") ∷ []

-- a first section, and one that builds on what it names
abbrev plan : Text → Text → RawPlan
plan prerequisite excluded = record {
  sections =
      record {
        title = some (text "a");
        branches = items (some (some (text " B1") ∷ some (text "B1") ∷ []));
        prerequisite_titles = none;
      }
      ∷ record {
        title = some (text "b");
        branches = absent;
        prerequisite_titles = some (some (prerequisite ∷ text "a" ∷ []));
      }
      ∷ [];
  excluded_branches =
      some (some (record { branch = some excluded; reason = some (text "generated") } ∷ []));
}

abbrev resolved : List ResolvedSection × List Text
resolved = (
  record {
    title = some (text "a");
    branches = some (text "x" ∷ []);
    prerequisites = none;
    depends_on = none;
  }
      ∷ record {
        title = some (text "b");
        branches = none;
        prerequisites = some (some (text "a" ∷ text "a" ∷ []));
        depends_on = some (0 ∷ []);
      }
      ∷ [],
  text "y" ∷ [],
)

names_resolved : resolve_plan labels (plan (text "a") (text "B2")) ≡ ok resolved
unfolding resolve_plan resolve_each resolve_branches resolve_labels resolve_items resolve_exclusions
    resolve_reasons reject_covered_exclusions is_covered resolve_order resolve_prerequisites
    resolve_titles matching_sections contains text_eq find trim trim_start trim_end is_whitespace
    len is_empty bounded_text
names_resolved = refl

own_title_refused : resolve_plan labels (plan (text "b") (text "B2")) ≡ err not_earlier
unfolding resolve_plan resolve_each resolve_branches resolve_labels resolve_items resolve_exclusions
    resolve_reasons reject_covered_exclusions is_covered resolve_order resolve_prerequisites
    resolve_titles matching_sections contains text_eq find trim trim_start trim_end is_whitespace
    len is_empty bounded_text
own_title_refused = refl

covered_refused : resolve_plan labels (plan (text "a") (text "B1")) ≡ err counted_twice
unfolding resolve_plan resolve_each resolve_branches resolve_labels resolve_items resolve_exclusions
    resolve_reasons reject_covered_exclusions is_covered resolve_order resolve_prerequisites
    resolve_titles matching_sections contains text_eq find trim trim_start trim_end is_whitespace
    len is_empty bounded_text
covered_refused = refl

resolve_plan-Resolved_example : Resolved resolved
resolve_plan-Resolved_example =
    resolve_plan-Resolved labels (plan (text "a") (text "B2")) names_resolved
