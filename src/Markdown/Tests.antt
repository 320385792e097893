-- ===== src/Markdown/Tests.antt =====
-- Fences, subsections and headings of drafts (the unit tests of backend/src/markdown.rs and
-- backend/src/runner.rs), and the theorems at them.
use doc_craft_agent.Prelude.{
  ℕ, ◌≡◌, refl, none, some, List, [], ◌∷◌, get_elem?, filter, not, ok, err, Text, text, len, trim,
  trim_end, trim_start, is_empty, is_whitespace, text_eq, starts_with, is_ascii_digit,
  if◌then◌else◌,
}
use doc_craft_agent.Prelude.Cuts.{split_inclusive}
use doc_craft_agent.Editorial.{
  block_code_ranges, blocks_from, scan_line, opens_fence, closes_fence, list_marker, trim_spaces,
  run, digits,
}
use doc_craft_agent.Editorial.Spans.{
  code_ranges, spans_from, span_at, block_end, find_close, look, blank_ahead,
}
use doc_craft_agent.Markdown.{
  fence_of, fence_spec, strip_newline, lines, join, is_closed_by, unwrap_from, unwrap_lines,
  unwrap_outer_markdown_fence, mermaid_from, mermaid_blocks, heading_level, tagged, top_level,
  slices, parts_from, subsections,
}
use doc_craft_agent.Markdown.Parts.{Divided, subsections-Divided}
use doc_craft_agent.Markdown.Splice.{
  not_shown, Marker, add_line, bodies_from, may_change, replace_all, replacements, merged,
  blank_line, splice_subsections,
}
use doc_craft_agent.Markdown.Splice.Untouched.{Hidden, splice_subsections-Hidden}
use doc_craft_agent.Markdown.Headings.{
  after_number, trim_marks, after_mark, strip_number, strip_prefix_number, strip_heading_number,
  lower_all, canonical_heading, strip_end, heading_of, headings, minimum, normalized,
  normalize_section_headings,
}

abbrev draft : Text
draft = text "intro\n\n### One\na\n#### Deep\nb\n\n### Two\nc\n"

draft_parts :
    subsections draft ≡ text "intro" ∷ text "### One\na\n#### Deep\nb" ∷ text "### Two\nc" ∷ []
unfolding subsections parts_from slices top_level tagged heading_level code_ranges spans_from
    span_at block_end find_close look blank_ahead block_code_ranges blocks_from scan_line
    opens_fence closes_fence list_marker trim_spaces run digits split_inclusive trim trim_end
    trim_start is_empty is_whitespace len starts_with
draft_parts = refl

-- one that is wrapped in a fence
wrapped : unwrap_outer_markdown_fence (text "```markdown\n# a\nb\n```\n") ≡ text "# a\nb"
unfolding unwrap_outer_markdown_fence unwrap_lines unwrap_from fence_spec fence_of is_closed_by
    lines strip_newline join split_inclusive trim_spaces run trim trim_end trim_start is_empty
    is_whitespace len text_eq
wrapped = refl

diagram : mermaid_blocks (text "a\n```mermaid\nx\n```\nb\n") ≡ (2, 19) ∷ []
unfolding mermaid_blocks mermaid_from fence_spec fence_of is_closed_by split_inclusive trim_spaces
    run trim trim_end trim_start is_empty is_whitespace len text_eq
diagram = refl

-- the number that a marker of one digit has
abbrev marker_of : Marker
marker_of line =
    if text_eq line (text "<!-- DOCCRAFT_SUBSECTION 0 -->")
    then some (some 0)
    else if text_eq line (text "<!-- DOCCRAFT_SUBSECTION 1 -->")
    then some (some 1)
    else none

abbrev two_parts : List Text
two_parts = text "first" ∷ text "second" ∷ []

abbrev answer : Text
answer = text "<!-- DOCCRAFT_SUBSECTION 1 -->\nnew\n"

abbrev repaired : Text
repaired = text "first\n\nnew"

one_replaced : splice_subsections marker_of two_parts answer (some (1 ∷ [])) ≡ ok (some repaired)
unfolding splice_subsections bodies_from add_line replacements replace_all may_change merged
    unwrap_outer_markdown_fence unwrap_lines unwrap_from fence_spec fence_of is_closed_by lines
    strip_newline join code_ranges spans_from span_at block_end find_close look blank_ahead
    block_code_ranges blocks_from scan_line opens_fence closes_fence list_marker trim_spaces run
    digits split_inclusive trim trim_end trim_start is_empty is_whitespace len text_eq
one_replaced = refl

other_refused : splice_subsections marker_of two_parts answer (some (0 ∷ [])) ≡ err not_shown
unfolding splice_subsections bodies_from add_line replacements replace_all may_change merged
    unwrap_outer_markdown_fence unwrap_lines unwrap_from fence_spec fence_of is_closed_by lines
    strip_newline join code_ranges spans_from span_at block_end find_close look blank_ahead
    block_code_ranges blocks_from scan_line opens_fence closes_fence list_marker trim_spaces run
    digits split_inclusive trim trim_end trim_start is_empty is_whitespace len text_eq
other_refused = refl

abbrev same_letter : ℕ → Text
same_letter c = c ∷ []

abbrev deep : Text
deep = text "# 1. Title\n##### Deep\nb\n"

levels : normalize_section_headings same_letter deep (text "Title") ≡ text "### Deep\nb"
unfolding normalize_section_headings canonical_heading strip_heading_number strip_prefix_number
    strip_number after_number after_mark trim_marks lower_all headings heading_of strip_end minimum
    normalized join code_ranges spans_from span_at block_end find_close look blank_ahead
    block_code_ranges blocks_from scan_line opens_fence closes_fence list_marker trim_spaces run
    digits split_inclusive trim trim_end trim_start is_empty is_whitespace len text_eq starts_with
    is_ascii_digit
levels = refl

subsections-Divided_example : Divided draft (subsections draft)
subsections-Divided_example = subsections-Divided draft

splice_subsections-Hidden_example :
    (out : List Text) × ((i : ℕ)
      → Hidden 2 (some (1 ∷ [])) i
      → get_elem? out i ≡ get_elem? two_parts i)
    × (repaired ≡ join blank_line (filter (λ part. not (is_empty part)) out))
splice_subsections-Hidden_example =
    splice_subsections-Hidden marker_of two_parts answer (some (1 ∷ [])) one_replaced
