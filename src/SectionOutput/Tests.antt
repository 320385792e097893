-- ===== src/SectionOutput/Tests.antt =====
-- Sections in parts (the unit tests of backend/src/section_output.rs), and the theorems at them.
use doc_craft_agent.Prelude.{
  ℕ, ◌≡◌, refl, true, false, some, [], ◌∷◌, ◌++◌, Result, ok, ◌+◌, Text, text, len, trim_end, trim,
  trim_start, is_empty, is_whitespace, text_eq, starts_with,
}
use doc_craft_agent.Prelude.Cuts.{ends_line, split_inclusive}
use doc_craft_agent.Prelude.Prefixes.{strip_suffix}
use doc_craft_agent.Editorial.{
  block_code_ranges, blocks_from, scan_line, opens_fence, closes_fence, list_marker, trim_spaces,
  run, digits,
}
use doc_craft_agent.Editorial.Spans.{
  code_ranges, spans_from, span_at, block_end, find_close, look, blank_ahead,
}
use doc_craft_agent.SectionOutput.{
  Progress, Error, Round, append, overlap, overlap_from, strip_more, strip_marked, more_marker,
  whole, write, write_from, write_round, go_on, output_of,
}
use doc_craft_agent.SectionOutput.Append.{Extends, append-Extends}
use doc_craft_agent.SectionOutput.Write.{write_ends}

abbrev empty : Progress
empty = record { markdown = []; parts = 0; resume_exactly = false }

abbrev begun : Progress
begun = record { markdown = text "abc\n"; parts = 1; resume_exactly = false }

-- a part with the marker behind it goes on
marker_taken_off : append empty (text "abc\n" ++ more_marker) false ≡ ok (begun, false)
unfolding append overlap strip_more strip_marked strip_suffix code_ranges spans_from span_at
    block_end find_close look blank_ahead block_code_ranges blocks_from scan_line opens_fence
    closes_fence list_marker trim_spaces run digits split_inclusive ends_line trim trim_end
    trim_start is_empty is_whitespace text_eq len
marker_taken_off = refl

-- in an open fence it is text
abbrev fenced : Text
fenced = text "```\n" ++ more_marker

marker_in_code : strip_more fenced ≡ (fenced, false)
unfolding strip_more strip_marked strip_suffix code_ranges spans_from span_at block_end find_close
    look blank_ahead block_code_ranges blocks_from scan_line opens_fence closes_fence list_marker
    trim_spaces run digits split_inclusive ends_line trim trim_end trim_start is_empty is_whitespace
    text_eq len
marker_in_code = refl

append-Extends_example : Extends empty (text "abc\n" ++ more_marker) false begun false
append-Extends_example = append-Extends empty (text "abc\n" ++ more_marker) false marker_taken_off

-- every answer asks for one part more
abbrev never_done : ℕ → Round
never_done n = record {
  may_go_on = true;
  answer = whole ((b'a' + n) ∷ 10 ∷ more_marker);
  forgotten = true;
  stored = true;
}

write_ends_example : (r : Result Error Text) × (write empty never_done ≡ some r)
write_ends_example = write_ends empty never_done

abbrev last_part : ℕ → Round
last_part n = record {
  may_go_on = true;
  answer = whole (text "def");
  forgotten = true;
  stored = false;
}

second_part_ends : write begun last_part ≡ some (ok (text "abc\n\n\ndef"))
unfolding write write_from write_round go_on output_of append overlap overlap_from strip_more
    strip_marked strip_suffix code_ranges spans_from span_at block_end find_close look blank_ahead
    block_code_ranges blocks_from scan_line opens_fence closes_fence list_marker trim_spaces run
    digits split_inclusive ends_line trim trim_end trim_start is_empty is_whitespace text_eq
    starts_with len
second_part_ends = refl
