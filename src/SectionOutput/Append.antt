-- ===== src/SectionOutput/Append.antt =====
-- `Progress::append` of backend/src/section_output.rs: a part is joined to the draft.
use doc_craft_agent.Prelude.{
  ◌+◌, ◌<◌, ◌≡◌, refl, sym, ap, ◌∙◌, Bool, true, false, not, ◌&&◌, ◌||◌, Option, none, some, arith,
  ltb, ◌==◌, ok, ensure->>=-ok, ok_injective, Text, len, is_empty, trim, trim_end, drop, inl, inr,
  Bool-cases,
}
use doc_craft_agent.Prelude.Prefixes.{
  IsPrefix, prefix_refl, prefix_append, prefix_trans, prefix_shorter, trim_end-IsPrefix,
  strip_suffix, strip_suffix-append,
}
use doc_craft_agent.Prelude.Cuts.{ends_line}
use doc_craft_agent.Editorial.Spans.{code_ranges, in_ranges}
use doc_craft_agent.SectionOutput.{
  Progress, append, overlap, combined, strip_more, strip_marked, more_marker,
}

strip_marked-IsPrefix :
    (output : Text) (o : Option Text)
    → ((front : Text) → o ≡ some front → IsPrefix front output)
    → IsPrefix (strip_marked output o).0 output
unfolding strip_marked
strip_marked-IsPrefix output none h = prefix_refl output
strip_marked-IsPrefix output (some front) h =
    elim (Bool-cases (
      (is_empty front || ends_line front == 1)
      && not (in_ranges (code_ranges output) (len front)))) [
        | inl marked ↦ rw marked (h front refl)
        | inr plain ↦ rw plain (prefix_refl output)
      ]

-- Taking a marker off leaves the beginning of the text.
strip_more-IsPrefix : (output : Text) → IsPrefix (strip_more output).0 output
unfolding strip_more
strip_more-IsPrefix output =
    strip_marked-IsPrefix output (strip_suffix more_marker (trim_end output)) (λ front e.
      prefix_trans front (trim_end output) output
        (more_marker, strip_suffix-append more_marker (trim_end output) e)
        (trim_end-IsPrefix output))

-- What a part that is joined leaves.
abbrev pub Extends : Progress → Text → Bool → Progress → Bool → Type 0
Extends p output truncated q done =
    IsPrefix (trim_end p.markdown) q.markdown
    × IsPrefix q.markdown (combined p output (overlap p output))
    × (len (trim_end p.markdown) < len (trim_end q.markdown))
    × (q.parts ≡ p.parts + 1)
    × ((truncated && done) ≡ false)
    × ((q.resume_exactly && done) ≡ false)

-- the steps of a part that is joined
record Joined (p : Progress) (output : Text) (truncated : Bool) (q : Progress) (done : Bool)
    : Type 0 where
  grows :
      ltb
        (len (trim_end p.markdown))
        (len (trim_end (strip_more (combined p output (overlap p output))).0))
      ≡ true
  draft : q.markdown ≡ (strip_more (combined p output (overlap p output))).0
  count : q.parts ≡ p.parts + 1
  cut : (truncated && done) ≡ false
  next : (q.resume_exactly && done) ≡ false

cut_is_open : (truncated more : Bool) → (truncated && (not truncated && not more)) ≡ false
cut_is_open truncated more = ground arith

resume_is_open :
    (truncated more : Bool) → ((truncated && not more) && (not truncated && not more)) ≡ false
resume_is_open truncated more = ground arith

append-Joined :
    (p : Progress) (output : Text) (truncated : Bool) {q : Progress} {done : Bool}
    → append p output truncated ≡ ok (q, done)
    → Joined p output truncated q done
unfolding append
append-Joined p output truncated {q} {done} h =
    let n = overlap p output in
    let (new, more) = strip_more (combined p output n) in
    let (some_text, h1) = ensure->>=-ok (not (is_empty (trim output))) _ _ h in
    let (new_text, h2) = ensure->>=-ok (not (is_empty (trim (drop n output)))) _ _ h1 in
    let (grows, h3) = ensure->>=-ok (ltb (len (trim_end p.markdown)) (len (trim_end new))) _ _ h2 in
    let e = ok_injective h3 in
    record {
      grows = grows;
      draft = ap (λ r. r.0.markdown) (sym e);
      count = ap (λ r. r.0.parts) (sym e);
      cut = ap (λ r. truncated && r.1) (sym e) ∙ cut_is_open truncated more;
      next = ap (λ r. r.0.resume_exactly && r.1) (sym e) ∙ resume_is_open truncated more;
    }

-- A part that is accepted only adds: the draft without its last blanks begins the new draft, which is
-- longer, and which begins the draft with the new text behind it; parts are counted, and for a part
-- that was cut off `append` does not report the end of the section.
pub append-Extends :
    (p : Progress) (output : Text) (truncated : Bool) {q : Progress} {done : Bool}
    → append p output truncated ≡ ok (q, done)
    → Extends p output truncated q done
append-Extends p output truncated {q} {done} h =
    let j = append-Joined p output truncated h in
    let whole = combined p output (overlap p output) in
    let begins = strip_more-IsPrefix whole in
    let grows = j.grows in
    let longer : len (trim_end p.markdown) < len (trim_end (strip_more whole).0) = ground arith in
    let old =
      prefix_shorter (trim_end p.markdown) (trim_end (strip_more whole).0) whole
        (prefix_trans (trim_end p.markdown) p.markdown whole (trim_end-IsPrefix p.markdown)
          (prefix_append p.markdown _))
        (prefix_trans (trim_end (strip_more whole).0) (strip_more whole).0 whole
          (trim_end-IsPrefix (strip_more whole).0) begins)
        (omega arith) in
    rw j.draft (
      prefix_trans (trim_end p.markdown) (trim_end (strip_more whole).0) (strip_more whole).0 old
          (trim_end-IsPrefix (strip_more whole).0),
      begins,
      longer,
      j.count,
      j.cut,
      j.next,
    )
