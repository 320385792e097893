-- ===== src/Composition/Approvals.antt =====
-- Only a plan that was reviewed is approved (`continue_outline` of backend/src/composition.rs).
use doc_craft_agent.Prelude.{
  ℕ, ◌≡◌, refl, ap, sym, ◌∙◌, true, false, not, Option, none, some, Result, ok, err, ensure->>=-ok,
  >>=-eq-ok, ok_injective, arith, ◌==◌, text, text_eq, eq_of_text_eq, all, ◌⊎◌, inl, inr,
  Bool-cases,
}
use doc_craft_agent.Model.{Outline, OutlineReview, OutlineIssue}
use doc_craft_agent.Composition.{
  Desk, Error, Answers, or_error, review_of, is_major, check_approval, settle_approval,
  continue_outline,
}

or_error-ok : {A : Type 0} (e : Error) (o : Option A) {a : A} → or_error e o ≡ ok a → o ≡ some a
or_error-ok e none h = cc
or_error-ok e (some b) h = ap some (ok_injective h)

module _ {F : Type 0} where
  -- what an approval of a revision is made on
  abbrev pub Reviewed : ℕ → Desk F → Type 0
  Reviewed revision s =
      (plan : Outline) × (review : OutlineReview) × (s.candidate ≡ some plan)
      × (plan.revision ≡ revision)
      × (review_of revision s.reviews ≡ some review)
      × (all (λ (i : OutlineIssue). not (is_major i)) review.issues ≡ true)
      × (s.status ≡ text "awaiting_outline")
      × (s.is_active ≡ false)

  -- a refusal changes nothing; an approval of a reviewed plan is stored, and the run is queued,
  -- unless that fails
  abbrev pub Approved : ℕ → Desk F → Desk F → Result Error (Unit {0}) → Type 0
  Approved revision s t outcome =
      ((e : Error) × (outcome ≡ err e) × (t ≡ s))
      ⊎ (Reviewed revision s
          × (((outcome ≡ ok tt)
                × (t ≡ record s {
                  approved = some revision;
                  status = text "queued";
                  error = none;
                  is_active = true;
                }))
              ⊎ ((outcome ≡ err Error.not_queued) × (t ≡ record s { approved = some revision }))))

  -- the guards, passed
  record Checked (revision : ℕ) (s : Desk F) (passed : ℕ) : Type 0 where
    plan : Outline
    review : OutlineReview
    pending : s.candidate ≡ some plan
    same : plan.revision ≡ revision
    reviewed : review_of plan.revision s.reviews ≡ some review
    minor : all (λ (i : OutlineIssue). not (is_major i)) review.issues ≡ true
    awaiting : text_eq s.status (text "awaiting_outline") ≡ true
    idle : not s.is_active ≡ true
    result : plan.revision ≡ passed

  check_approval-Checked :
      (io : Answers) (revision : ℕ) (s : Desk F) {passed : ℕ}
      → check_approval io revision s ≡ ok passed
      → Checked revision s passed
  unfolding check_approval
  check_approval-Checked io revision s h =
      let (_, h1) = ensure->>=-ok (not io.is_busy) _ _ h in
      let (idle, h2) = ensure->>=-ok (not s.is_active) _ _ h1 in
      let (_, h3) = ensure->>=-ok io.connected _ _ h2 in
      let (plan, pending, h4) = >>=-eq-ok (or_error _ s.candidate) _ h3 in
      let (same, h5) = ensure->>=-ok (plan.revision == revision) _ _ h4 in
      let (review, reviewed, h6) =
        >>=-eq-ok (or_error _ (review_of plan.revision s.reviews)) _ h5 in
      let (minor, h7) =
        ensure->>=-ok (all (λ (i : OutlineIssue). not (is_major i)) review.issues) _ _ h6 in
      let (awaiting, h8) = ensure->>=-ok (text_eq s.status (text "awaiting_outline")) _ _ h7 in
      let (_, h9) = ensure->>=-ok io.readable _ _ h8 in
      record {
        plan = plan;
        review = review;
        pending = or_error-ok _ s.candidate pending;
        same = ground (arith, same);
        reviewed = or_error-ok _ (review_of plan.revision s.reviews) reviewed;
        minor = minor;
        awaiting = awaiting;
        idle = idle;
        result = ok_injective h9;
      }

  Checked-Reviewed :
      (revision passed : ℕ) (s : Desk F) → Checked revision s passed → Reviewed revision s
  Checked-Reviewed revision passed s c = (
    c.plan,
    c.review,
    c.pending,
    c.same,
    ap (λ r. review_of r s.reviews) (sym c.same) ∙ c.reviewed,
    c.minor,
    eq_of_text_eq s.status (text "awaiting_outline") c.awaiting,
    ground (arith, c.idle),
  )

  settle_approval-Approved :
      (io : Answers) (revision : ℕ) (s : Desk F) (m : Result Error ℕ)
      → ((passed : ℕ) → m ≡ ok passed → Checked revision s passed)
      → Approved revision s (settle_approval io s m).0 (settle_approval io s m).1
  unfolding settle_approval
  settle_approval-Approved io revision s (err e) k = inl (e, refl, refl)
  settle_approval-Approved io revision s (ok passed) k =
      let c = k passed refl in
      let same : passed ≡ revision = sym c.result ∙ c.same in
      let reviewed = Checked-Reviewed revision passed s c in
      elim (Bool-cases io.committed) [
        | inr lost ↦ rw lost (inl (Error.database, refl, refl))
        | inl stored ↦ elim (Bool-cases io.queued) [
          | inr out ↦
              rw (stored, out)
                (inr (reviewed, inr (refl, ap (λ r. record s { approved = some r }) same)))
          | inl queued ↦
              rw (stored, queued)
                (inr (
                  reviewed,
                  inl (
                    refl,
                    ap
                        (λ r. record s {
                          approved = some r;
                          status = text "queued";
                          error = none;
                          is_active = true;
                        })
                        same,
                  ),
                ))
        ]
      ]

  -- An approval that is refused changes nothing. Else the plan that is pending has the revision
  -- approved, was reviewed at that revision without a major issue, and the run awaited it and was
  -- not active; the approval is stored, and the run is queued, or the call tells that it was not;
  -- nothing else of the desk changes.
  pub continue_outline-Approved :
      (io : Answers) (revision : ℕ) (s : Desk F)
      → Approved revision s (continue_outline io revision s).0 (continue_outline io revision s).1
  unfolding continue_outline
  continue_outline-Approved io revision s =
      settle_approval-Approved io revision s (check_approval io revision s)
        (λ passed e. check_approval-Checked io revision s e)
