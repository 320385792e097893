-- ===== src/Composition/Edits.antt =====
-- No edit of a plan is lost: an edit counts for the revision that it was made on
-- (`revise_inner` of backend/src/composition.rs).
use doc_craft_agent.Prelude.{
  ℕ, ◌≤◌, ◌≡◌, refl, ap, sym, ◌∙◌, Bool, true, false, not, Option, none, some, List, [], Result, ok,
  err, ◌>>=◌, ◌>>◌, ensure, ensure->>=-ok, >>=-eq-ok, ok_injective, arith, ◌==◌, if◌then◌else◌,
  Text, text_eq, find, put, find-put,
}
use doc_craft_agent.Prelude.Words.{add_u32, u32_max}
use doc_craft_agent.Model.{Outline, Evidence}
use doc_craft_agent.Planning.Outlines
use doc_craft_agent.Planning.Outlines.{
  validate_outline, check_sections, goal_ok, terminology_ok, exclusions_ok, diagrams_within,
}
use doc_craft_agent.Composition.{
  Revision, Desk, Error, Answers, Prepared, replayed, fresh, stale, no_outline, or_error, or_else,
  lift, edited, prepare_fresh, from_receipt, prepare, store_edit, settle_edit, revise, queue,
  is_request_id, feedback_fits,
}

abbrev IsErr {ℓ} : {A : Type ℓ} → Result Error A → Type ℓ
IsErr m = (e : Error) × (m ≡ err e)

ensure-IsErr {ℓ} :
    {A : Type ℓ} (b : Bool) (x : Error) (m : Result Error A) → IsErr m → IsErr (ensure b x >> m)
ensure-IsErr true x m h = h
ensure-IsErr false x m h = (x, refl)

lift-ok : {A : Type 0} (m : Result Outlines.Error A) {a : A} → lift m ≡ ok a → m ≡ ok a
lift-ok (ok a) h = ap ok (ok_injective h)
lift-ok (err e) h = cc

-- the plan that an edit brings has the next revision
abbrev IsNext : ℕ → Option Outline → Type 0
IsNext revision none = Unit
IsNext revision (some plan) = plan.revision ≡ add_u32 revision 1

-- what an edit that is fresh was prepared from
record Fresh (edit : Revision) (p : Prepared) : Type 0 where
  current : Outline
  candidate : Option Outline
  same : p ≡ fresh current candidate
  base : current.revision ≡ edit.base_revision
  next : IsNext current.revision candidate

err_not_ok : {e : Error} {n : ℕ} → ◌≡◌ {A = Result Error ℕ} (err e) (ok n) → ⊥
err_not_ok h = cc

replayed_not_fresh : {v : ℕ} {a : Outline} {b : Option Outline} → replayed v ≡ fresh a b → ⊥
replayed_not_fresh e = cc

fresh_injective : {a c : Outline} {b d : Option Outline} → fresh a b ≡ fresh c d → (a ≡ c) × (b ≡ d)
fresh_injective e = (cc, cc)

module _ (hash lowercase : Text → Text) where
  validate_outline-revision :
      (o : Outline) (evidence : List Evidence) (maximum branches : Option ℕ) {o' : Outline}
      → validate_outline hash lowercase o evidence maximum branches ≡ ok o'
      → o'.revision ≡ o.revision
  unfolding validate_outline
  validate_outline-revision o evidence maximum branches h =
      let (_, h1) = ensure->>=-ok _ _ _ h in
      let (_, h2) = ensure->>=-ok (goal_ok hash lowercase o) _ _ h1 in
      let (_, h3) = ensure->>=-ok (terminology_ok hash lowercase o) _ _ h2 in
      let (sections, _, h4) =
        >>=-eq-ok (check_sections hash lowercase evidence 0 [] [] o.sections) _ h3 in
      let (_, h5) = ensure->>=-ok (exclusions_ok hash lowercase o) _ _ h4 in
      let (_, h6) = ensure->>=-ok (diagrams_within sections maximum) _ _ h5 in
      ap (λ (x : Outline). x.revision) (sym (ok_injective h6))

  module _ {F : Type 0} where
    edited-IsNext :
        (o : Option Outline) (edit : Revision) (current : Outline) (s : Desk F) {c : Option Outline}
        → edited hash lowercase o edit current s ≡ ok c
        → IsNext current.revision c
    unfolding edited
    edited-IsNext none edit current s {c} h =
        let (_, h1) = ensure->>=-ok _ _ _ h in let e : none ≡ c = ok_injective h1 in rw⁻¹ e tt
    edited-IsNext (some plan) edit current s {c} h =
        let (evidence, _, h1) = >>=-eq-ok (or_error _ s.evidence) _ h in
        let (checked, h2, h3) =
          >>=-eq-ok (lift (validate_outline hash lowercase _ evidence _ none)) _ h1 in
        let e : some checked ≡ c = ok_injective h3 in
        rw⁻¹ e
          (validate_outline-revision _ evidence s.snapshot.task.max_diagrams none (lift-ok _ h2))

    prepare-Fresh :
        (io : Answers) (edit : Revision) (s : Desk F) {p : Prepared}
        → find edit.request_id s.receipts ≡ none
        → prepare hash lowercase io edit s ≡ ok p
        → Fresh edit p
    unfolding prepare from_receipt prepare_fresh
    prepare-Fresh io edit s k h =
        let (_, h1) = ensure->>=-ok (not io.is_busy) _ _ h in
        let (_, h2) = ensure->>=-ok (is_request_id edit.request_id) _ _ h1 in
        let (_, h3) = ensure->>=-ok (feedback_fits edit.feedback) _ _ h2 in
        let (_, h4) = ensure->>=-ok io.connected _ _ h3 in
        let (_, h5) = ensure->>=-ok (not s.is_active) _ _ (rw k at h4) in
        let (current, _, h6) = >>=-eq-ok (or_error _ (or_else s.candidate s.outline)) _ h5 in
        let (base, h7) = ensure->>=-ok (current.revision == edit.base_revision) _ _ h6 in
        let (_, h8) = ensure->>=-ok io.readable _ _ h7 in
        let (candidate, h9, h10) =
          >>=-eq-ok (edited hash lowercase edit.outline edit current s) _ h8 in
        record {
          current = current;
          candidate = candidate;
          same = sym (ok_injective h10);
          base = ground (arith, base);
          next = edited-IsNext edit.outline edit current s h9;
        }

    -- On a desk with the next plan, or none, an edit of the plan before it fails.
    prepare-IsErr :
        (io : Answers) (edit : Revision) (t : Desk F) (c : Option Outline) (revision : ℕ)
        → find edit.request_id t.receipts ≡ none
        → t.candidate ≡ c
        → t.outline ≡ none
        → IsNext revision c
        → revision ≤ u32_max
        → edit.base_revision ≡ revision
        → IsErr (prepare hash lowercase io edit t)
    unfolding prepare from_receipt prepare_fresh
    prepare-IsErr io edit t c revision k hc ho next small base = ensure-IsErr (not io.is_busy) _ _ (
        ensure-IsErr (is_request_id edit.request_id) _ _ (
          ensure-IsErr (feedback_fits edit.feedback) _ _ (
            ensure-IsErr io.connected _ _
              (rw k (ensure-IsErr (not t.is_active) _ _ (rw (hc, ho) (behind c next _)))))))
      where
        behind :
            (c : Option Outline)
            → IsNext revision c
            → (rest : Outline → Result Error Prepared)
            → IsErr (
                or_error no_outline (or_else c none) >>= λ current.
                ensure (current.revision == edit.base_revision) stale >> rest current)
        behind none next rest = (no_outline, refl)
        behind (some plan) next rest =
            let other : (plan.revision == edit.base_revision) ≡ false =
              ground (arith, next, small, base) in
            rw other (stale, refl)

    revise-refused :
        (io : Answers) (edit : Revision) (t : Desk F)
        → IsErr (prepare hash lowercase io edit t)
        → (e : Error) × (revise hash lowercase io edit t ≡ (t, err e))
    unfolding revise settle_edit
    revise-refused io edit t (e, k) = (e, rw k refl)

    abbrev chosen : Bool → Bool → Desk F → Desk F → Desk F → ℕ → Desk F × Result Error ℕ
    chosen committed queued s t u n =
        if not committed
        then (s, err Error.database)
        else if not queued
        then (t, err Error.not_queued)
        else (u, ok n)

    -- Where an edit is made, the transaction and the queue have both gone through.
    chosen-ok :
        (c q : Bool) (s t u : Desk F) (n : ℕ) {next : ℕ} (P : Desk F → Type 0)
        → (chosen c q s t u n).1 ≡ ok next
        → P u
        → P (chosen c q s t u n).0
    chosen-ok true true s t u n P h p = p
    chosen-ok true false s t u n P h p = absurd (err_not_ok h)
    chosen-ok false q s t u n P h p = absurd (err_not_ok h)

    -- what an edit leaves that is fresh and is made
    record Made (edit : Revision) (s t : Desk F) : Type 0 where
      current : Outline
      candidate : Option Outline
      plan : t.candidate ≡ candidate
      cleared : t.outline ≡ none
      base : current.revision ≡ edit.base_revision
      next : IsNext current.revision candidate
      receipts : t.receipts ≡ put edit.request_id (add_u32 current.revision 1) s.receipts

    settle_edit-Made :
        (io : Answers) (edit : Revision) (s : Desk F) (m : Result Error Prepared) {next : ℕ}
        → ((p : Prepared) → m ≡ ok p → Fresh edit p)
        → (settle_edit hash lowercase io edit s m).1 ≡ ok next
        → Made edit s (settle_edit hash lowercase io edit s m).0
    unfolding settle_edit store_edit
    settle_edit-Made io edit s (err e) k h = absurd (err_not_ok h)
    settle_edit-Made io edit s (ok (replayed v)) k h =
        let f = k (replayed v) refl in absurd (replayed_not_fresh f.same)
    settle_edit-Made io edit s (ok (fresh current candidate)) k h =
        let t = store_edit hash lowercase io edit current candidate s in
        let f = k (fresh current candidate) refl in
        let plans = fresh_injective f.same in
        chosen-ok io.committed io.queued s t (queue hash lowercase t) (add_u32 current.revision 1)
          (Made edit s) h
          (record {
            current = current;
            candidate = candidate;
            plan = refl;
            cleared = refl;
            base = ap (λ (o : Outline). o.revision) plans.0 ∙ f.base;
            next = rw (plans.0, plans.1) f.next;
            receipts = refl;
          })

    revise-Made :
        (io : Answers) (edit : Revision) (s : Desk F) {next : ℕ}
        → find edit.request_id s.receipts ≡ none
        → (revise hash lowercase io edit s).1 ≡ ok next
        → Made edit s (revise hash lowercase io edit s).0
    unfolding revise
    revise-Made io edit s k h =
        settle_edit-Made io edit s (prepare hash lowercase io edit s)
          (λ p e. prepare-Fresh io edit s k e) h

    -- Once an edit is made, another one of the same revision fails and changes nothing, even before a
    -- worker takes the run up. Both edits are new, and revisions are `u32`.
    pub revise-Excludes :
        (io io' : Answers) (edit other : Revision) (s : Desk F) {next : ℕ}
        → find edit.request_id s.receipts ≡ none
        → find other.request_id s.receipts ≡ none
        → text_eq other.request_id edit.request_id ≡ false
        → edit.base_revision ≤ u32_max
        → other.base_revision ≡ edit.base_revision
        → (revise hash lowercase io edit s).1 ≡ ok next
        → let t = record (revise hash lowercase io edit s).0 { is_active = false } in
          (e : Error) × (revise hash lowercase io' other t ≡ (t, err e))
    revise-Excludes io io' edit other s k l differ small base h =
        let m = revise-Made io edit s k h in
        let t : Desk F = record (revise hash lowercase io edit s).0 { is_active = false } in
        let free : find other.request_id t.receipts ≡ none =
          ap (λ d. find other.request_id d) m.receipts
          ∙ find-put other.request_id edit.request_id _ s.receipts
          ∙ rw (differ, l) refl in
        revise-refused io' other t (
          prepare-IsErr io' other t m.candidate m.current.revision free m.plan m.cleared m.next
            (omega (arith, m.base, small)) (base ∙ sym m.base))
