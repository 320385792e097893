-- ===== src/SectionOutput.antt =====
-- backend/src/section_output.rs: a section is written in as many bounded responses as it needs. The
-- answers of the provider and of the database enter one for each round.
pub mod Append
pub mod Write
mod Tests
use doc_craft_agent.Prelude.{
  ℕ, zero, suc, ◌+◌, ◌-◌, min, Bool, true, false, not, ◌&&◌, ◌||◌, Option, none, some, List, [],
  ◌∷◌, ◌++◌, leb, ltb, ◌==◌, if◌then◌else◌, Result, ok, err, ◌>>=◌, ◌>>◌, ensure, length, take,
  drop, Text, text, len, is_empty, trim, trim_end,
}
use doc_craft_agent.Prelude.Cuts.{ends_line, skip}
use doc_craft_agent.Prelude.Prefixes.{strip_suffix}
use doc_craft_agent.Source.{ends_with}
use doc_craft_agent.Editorial.Spans.{code_ranges, in_ranges}

-- `SECTION_NO_PROGRESS`, and what a round may fail of besides
pub data Error : Type 0 where
  no_text repeats no_content : Error
  stopped provider database : Error

pub record Progress : Type 0 where
  pub markdown : Text
  pub parts : ℕ
  pub resume_exactly : Bool

abbrev pub more_marker : Text
more_marker = text "<!-- DOCCRAFT_SECTION_MORE -->"

abbrev pub max_parts : ℕ
max_parts = 24

unfoldable pub tail : Text → ℕ → Text
unfolding skip
tail s max_bytes = skip (len s - max_bytes) s

-- the marker at the end of the text, on a line of its own and not in code
unfoldable pub strip_marked : Text → Option Text → Text × Bool
strip_marked output none = (output, false)
strip_marked output (some front) =
    if (is_empty front || ends_line front == 1) && not (in_ranges (code_ranges output) (len front))
    then (front, true)
    else (output, false)

unfoldable pub strip_more : Text → Text × Bool
unfolding strip_marked strip_suffix
strip_more output = strip_marked output (strip_suffix more_marker (trim_end output))

-- the first `k` characters of the output end the draft, and are enough bytes to tell
abbrev echoes : Text → Text → ℕ → Bool
echoes markdown output k =
    let front = take k output in
    leb 32 (len front)
    && leb (len front) (min (min (len markdown) (len output)) 8000)
    && ends_with markdown front

-- the longest such `k`
unfoldable pub overlap_from : Text → Text → ℕ → ℕ
overlap_from markdown output zero = 0
overlap_from markdown output (suc k) =
    let shorter = overlap_from markdown output k in
    if echoes markdown output (suc k) then suc k else shorter

-- a part that continues with a subsection may repeat the end of the draft
abbrev is_continued : Progress → Bool
is_continued p = ltb 0 p.parts && not p.resume_exactly

unfoldable pub overlap : Progress → Text → ℕ
unfolding overlap_from
overlap p output = if is_continued p then overlap_from p.markdown output (length output) else 0

abbrev gap : Progress → ℕ → Text
gap p n = if is_continued p && n == 0 then 10 ∷ 10 ∷ [] else []

-- the draft with the new text, before a marker is taken off
abbrev pub combined : Progress → Text → ℕ → Text
combined p output n = p.markdown ++ (gap p n ++ drop n output)

unfoldable pub append : Progress → Text → Bool → Result Error (Progress × Bool)
unfolding overlap strip_more
append p output truncated =
    let n = overlap p output in
    let (new, more) = strip_more (combined p output n) in
    do
      ensure (not (is_empty (trim output))) no_text
      ensure (not (is_empty (trim (drop n output)))) repeats
      ensure (ltb (len (trim_end p.markdown)) (len (trim_end new))) no_content
      ok (
        record { markdown = new; parts = p.parts + 1; resume_exactly = truncated && not more },
        not truncated && not more,
      )

-- what `llm::call_markdown` gives; a response that is cut off carries what there is
pub data Answer : Type 0 where
  whole : Text → Answer
  cut_off : Text → Answer
  failed : Answer

-- the answers of one round: `ctx.check()`, the provider, `llm::forget` where the answer is of no
-- use, and the checkpoint and event at its end
pub record Round : Type 0 where
  pub may_go_on : Bool
  pub answer : Answer
  pub forgotten : Bool
  pub stored : Bool

unfoldable pub output_of : Answer → Result Error (Text × Bool)
output_of (whole output) = ok (output, false)
output_of (cut_off content) = if is_empty (trim content) then err provider else ok (content, true)
output_of failed = err provider

-- an answer of no use is forgotten, so that the next attempt asks again
abbrev pub or_forget : Bool → Result Error (Progress × Bool) → Result Error (Progress × Bool)
or_forget forgotten (ok appended) = ok appended
or_forget forgotten (err e) = if forgotten then err e else err database

-- one round of `write`: the draft, and whether the loop ends with it
unfoldable pub write_round : Progress → Round → Result Error (Progress × Bool)
unfolding output_of append
write_round p r = do
  ensure r.may_go_on stopped
  output ← output_of r.answer
  appended ← or_forget r.forgotten (append p output.0 output.1)
  ensure (appended.1 || r.stored) database
  ok (appended.0, appended.1 || leb max_parts appended.0.parts)

-- what the loop does with a round
unfoldable pub go_on :
    Result Error (Progress × Bool)
    → (Progress → Option (Result Error Text))
    → Option (Result Error Text)
go_on (err e) next = some (err e)
go_on (ok (q, true)) next = some (ok q.markdown)
go_on (ok (q, false)) next = next q

-- `loop` of `write`, with fuel; `none` where it is used up
unfoldable pub write_from : ℕ → Progress → (ℕ → Round) → Option (Result Error Text)
unfolding write_round go_on
write_from zero p rounds = none
write_from (suc fuel) p rounds =
    go_on (write_round p (rounds p.parts)) (λ q. write_from fuel q rounds)

-- from the checkpoint of the section, or an empty draft
unfoldable pub write : Progress → (ℕ → Round) → Option (Result Error Text)
unfolding write_from
write p rounds = write_from (suc (max_parts - p.parts)) p rounds
