-- ===== src/Editorial/Tests.antt =====
-- Code in Markdown (the unit tests of backend/src/editorial.rs), and the theorems at it.
use doc_craft_agent.Prelude.{
  ◌≡◌, refl, true, [], ◌∷◌, ◌++◌, Text, text, len, trim, trim_end, trim_start, is_empty,
  is_whitespace,
}
use doc_craft_agent.Prelude.Cuts.{split_inclusive, fit, skip}
use doc_craft_agent.Editorial.{
  block_code_ranges, blocks_from, scan_line, opens_fence, closes_fence, list_marker, trim_spaces,
  run, digits, has_unclosed_fence,
}
use doc_craft_agent.Editorial.Blocks.{Ranges, block_code_ranges-Ranges}
use doc_craft_agent.Editorial.Excerpts.{excerpt, gap}
use doc_craft_agent.Editorial.Spans.{
  code_ranges, spans_from, span_at, block_end, find_close, look, blank_ahead,
}

abbrev fenced : Text
fenced = text "a `b` c\n~~~~\nx\n~~~\n~~~~\nend\n"

code_of_a_text : code_ranges fenced ≡ (8, 24) ∷ (2, 5) ∷ []
unfolding code_ranges spans_from span_at block_end find_close look blank_ahead block_code_ranges
    blocks_from scan_line opens_fence closes_fence list_marker trim_spaces run digits
    split_inclusive trim trim_end trim_start is_empty is_whitespace len
code_of_a_text = refl

-- a span does not cross a blank line
stray_backtick : code_ranges (text "a ` b\n\nc ` d") ≡ []
unfolding code_ranges spans_from span_at block_end find_close look blank_ahead block_code_ranges
    blocks_from scan_line opens_fence closes_fence list_marker trim_spaces run digits
    split_inclusive trim trim_end trim_start is_empty is_whitespace len
stray_backtick = refl

open_fence : has_unclosed_fence (text "```\n~~~\n") ≡ true
unfolding has_unclosed_fence block_code_ranges blocks_from scan_line opens_fence closes_fence
    list_marker trim_spaces run digits split_inclusive trim trim_end trim_start is_empty
    is_whitespace len
open_fence = refl

block_code_ranges-Ranges_example : Ranges 0 (len fenced) (block_code_ranges fenced).0
block_code_ranges-Ranges_example = block_code_ranges-Ranges fenced

abbrev long : Text
long = text "the first words, and the last words"

middle_left_out : excerpt long 27 ≡ text "the " ++ (gap ++ text "ords")
unfolding excerpt fit skip len
middle_left_out = refl
