-- ===== src/SectionOutput/Write.antt =====
-- The loop `write` of backend/src/section_output.rs.
use doc_craft_agent.Prelude.{
  ℕ, zero, suc, ◌+◌, ◌-◌, ◌<◌, ◌≡◌, refl, sym, ap, ◌∙◌, Bool, true, false, ◌||◌, Option, some,
  arith, leb, Result, ok, err, >>=-eq-ok, ensure->>=-ok, ok_injective, some_injective, Text, len,
  trim_end,
}
use doc_craft_agent.Prelude.Prefixes.{IsPrefix, prefix_trans, prefix_shorter, trim_end-IsPrefix}
use doc_craft_agent.SectionOutput.{
  Progress, Error, Round, append, output_of, or_forget, write_round, go_on, write_from, write,
  max_parts,
}
use doc_craft_agent.SectionOutput.Append.{append-Extends}

-- A round that ends well has made the draft longer.
abbrev IsLonger : Progress → Progress → Type 0
IsLonger p q =
    IsPrefix (trim_end p.markdown) (trim_end q.markdown)
    × (len (trim_end p.markdown) < len (trim_end q.markdown))

or_forget-ok :
    (forgotten : Bool) (r : Result Error (Progress × Bool)) {a : Progress × Bool}
    → or_forget forgotten r ≡ ok a
    → r ≡ ok a
or_forget-ok forgotten (ok b) h = h
or_forget-ok true (err e) h = cc
or_forget-ok false (err e) h = cc

record Rounded (p : Progress) (r : Round) (q : Progress) (done : Bool) : Type 0 where
  output : Text
  truncated : Bool
  complete : Bool
  joined : append p output truncated ≡ ok (q, complete)
  ends : done ≡ (complete || leb max_parts q.parts)

write_round-Rounded :
    (p : Progress) (r : Round) {q : Progress} {done : Bool}
    → write_round p r ≡ ok (q, done)
    → Rounded p r q done
unfolding write_round
write_round-Rounded p r {q} {done} h =
    let (going, h1) = ensure->>=-ok r.may_go_on _ _ h in
    let (output, given, h2) = >>=-eq-ok (output_of r.answer) _ h1 in
    let (appended, joined, h3) =
      >>=-eq-ok (or_forget r.forgotten (append p output.0 output.1)) _ h2 in
    let (stored, h4) = ensure->>=-ok (appended.1 || r.stored) _ _ h3 in
    let e = ok_injective h4 in
    let draft : appended.0 ≡ q = ap (λ s. s.0) e in
    record {
      output = output.0;
      truncated = output.1;
      complete = appended.1;
      joined =
          or_forget-ok r.forgotten (append p output.0 output.1) joined
          ∙ ap (λ s. ok (s, appended.1)) draft;
      ends =
          ap (λ s. s.1) (sym e) ∙ ap (λ (s : Progress). appended.1 || leb max_parts s.parts) draft;
    }

-- A round that does not end the loop leaves fewer parts to write.
write_round_open :
    (p : Progress) (r : Round) {q : Progress}
    → write_round p r ≡ ok (q, false)
    → (q.parts ≡ p.parts + 1) × (q.parts < max_parts)
write_round_open p r {q} h =
    let done = write_round-Rounded p r h in
    let joined = append-Extends p done.output done.truncated done.joined in
    let ends = done.ends in (joined.3, ground arith)

write_round-IsLonger :
    (p : Progress) (r : Round) {q : Progress} {done : Bool}
    → write_round p r ≡ ok (q, done)
    → IsLonger p q
write_round-IsLonger p r {q} h =
    let round = write_round-Rounded p r h in
    let joined = append-Extends p round.output round.truncated round.joined in
    (
      prefix_shorter (trim_end p.markdown) (trim_end q.markdown) q.markdown joined.0
          (trim_end-IsPrefix q.markdown) (omega (arith, joined.2)),
      joined.2,
    )

go_on_ends :
    (m : Result Error (Progress × Bool)) (next : Progress → Option (Result Error Text))
    → ((q : Progress) → m ≡ ok (q, false) → (r : Result Error Text) × (next q ≡ some r))
    → (r : Result Error Text) × (go_on m next ≡ some r)
unfolding go_on
go_on_ends (err e) next h = (err e, refl)
go_on_ends (ok (q, true)) next h = (ok q.markdown, refl)
go_on_ends (ok (q, false)) next h = h q refl

write_from_ends :
    (fuel : ℕ) (p : Progress) (rounds : ℕ → Round)
    → max_parts < fuel + p.parts
    → 0 < fuel
    → (r : Result Error Text) × (write_from fuel p rounds ≡ some r)
unfolding write_from
write_from_ends zero p rounds h k = absurd (ground arith)
write_from_ends (suc fuel) p rounds h k =
    go_on_ends (write_round p (rounds p.parts)) (λ q. write_from fuel q rounds)
      (λ q e.
        let (count, fewer) = write_round_open p (rounds p.parts) e in
        write_from_ends fuel q rounds (omega arith) (omega arith))

-- Whatever the provider, the disk and the database answer, the loop over the parts ends: one round
-- more than the parts that a draft lacks of 24 is enough.
pub write_ends :
    (p : Progress) (rounds : ℕ → Round) → (r : Result Error Text) × (write p rounds ≡ some r)
unfolding write
write_ends p rounds =
    write_from_ends (suc (max_parts - p.parts)) p rounds (omega arith) (omega arith)

-- what a draft and a text that came of it share
abbrev pub Grows : Progress → Text → Type 0
Grows p s =
    IsPrefix (trim_end p.markdown) (trim_end s) × (len (trim_end p.markdown) < len (trim_end s))

go_on-Grows :
    (p : Progress) (m : Result Error (Progress × Bool))
    (next : Progress → Option (Result Error Text)) {s : Text}
    → ((q : Progress) (done : Bool) → m ≡ ok (q, done) → IsLonger p q)
    → ((q : Progress) → m ≡ ok (q, false) → next q ≡ some (ok s) → Grows q s)
    → go_on m next ≡ some (ok s)
    → Grows p s
unfolding go_on
go_on-Grows p (err e) next longer later h = cc
go_on-Grows p (ok (q, true)) next {s} longer later h =
    let e : q.markdown ≡ s = ok_injective (some_injective h) in rw⁻¹ e (longer q true refl)
go_on-Grows p (ok (q, false)) next {s} longer later h =
    let (begins, more) = longer q false refl in
    let (begins_again, more_again) = later q refl h in
    (
      prefix_trans (trim_end p.markdown) (trim_end q.markdown) (trim_end s) begins begins_again,
      omega (arith, more, more_again),
    )

write_from-Grows :
    (fuel : ℕ) (p : Progress) (rounds : ℕ → Round) {s : Text}
    → write_from fuel p rounds ≡ some (ok s)
    → Grows p s
unfolding write_from
write_from-Grows zero p rounds h = cc
write_from-Grows (suc fuel) p rounds h =
    go_on-Grows p (write_round p (rounds p.parts)) (λ q. write_from fuel q rounds)
      (λ q done e. write_round-IsLonger p (rounds p.parts) e)
      (λ q e f. write_from-Grows fuel q rounds f) h

-- A section that is returned begins with the draft that it was resumed from, without its last blanks,
-- and is longer.
pub write-Grows :
    (p : Progress) (rounds : ℕ → Round) {s : Text} → write p rounds ≡ some (ok s) → Grows p s
unfolding write
write-Grows p rounds h = write_from-Grows (suc (max_parts - p.parts)) p rounds h
