-- ===== src/Runner/Lifecycle/Commit.antt =====
-- Cancellation against publication, in backend/src/api.rs and backend/src/publish.rs: both hold the
-- gate of the run.
use doc_craft_agent.Prelude.{
  Bool, true, false, none, some, ◌≡◌, ◌≢◌, ◌⊎◌, inl, inr, refl, ◌∙◌, ok, Text, text_eq_refl, find,
  update, find-update, arith, Option-cases,
}
use doc_craft_agent.Runner.Lifecycle.{
  System, Control, request_cancel, commit_gate, cancelling, publishing,
}

-- the run is active, cancelled and not published
abbrev Stopped : Text → System → Type 0
Stopped id s =
    (control : Control) × (find id s.controls ≡ some control)
    × (control.is_cancelled ≡ true)
    × (control.published ≡ false)

cancelled_control :
    (id : Text) (s : System) (control : Control)
    → find id s.controls ≡ some control
    → find id (update id cancelling s.controls) ≡ some (cancelling control)
cancelled_control id s control active =
    find-update id id cancelling s.controls ∙ rw (text_eq_refl id, active) refl

-- an accepted cancellation, by what it found
request_cancel_accepted :
    (id : Text) (written : Bool) (s : System)
    → (request_cancel id written s).1 ≡ ok true
    → (control : Control) × (find id s.controls ≡ some control)
      × (control.published ≡ false)
      × (((control.is_cancelled ≡ true) × ((request_cancel id written s).0 ≡ s))
          ⊎ ((request_cancel id written s).0.controls ≡ update id cancelling s.controls))
unfolding request_cancel
request_cancel_accepted id written s h = ground arith

request_cancel-Stopped :
    (id : Text) (written : Bool) (s : System)
    → (request_cancel id written s).1 ≡ ok true
    → Stopped id (request_cancel id written s).0
request_cancel-Stopped id written s h =
    let (control, active, open_gate, either) = request_cancel_accepted id written s h in
    elim either [
      | inl (stop, same) ↦ rw same (control, active, stop, open_gate)
      | inr new ↦
          rw new (cancelling control, cancelled_control id s control active, refl, open_gate)
    ]

Stopped-commit_gate :
    (id : Text) (unchanged written : Bool) (s : System)
    → Stopped id s
    → ((commit_gate id unchanged written s).0 ≡ s)
      × ((commit_gate id unchanged written s).1 ≢ ok tt)
unfolding commit_gate
Stopped-commit_gate id unchanged written s (control, active, stop, open_gate) = ground arith

Stopped-request_cancel :
    (id : Text) (written : Bool) (s : System)
    → Stopped id s
    → request_cancel id written s ≡ (s, ok true)
unfolding request_cancel
Stopped-request_cancel id written s (control, active, stop, open_gate) = ground arith

-- After a cancellation is accepted, nothing is published, and asking again is accepted and changes
-- nothing.
pub commit_gate-request_cancel :
    (id : Text) (asked unchanged written : Bool) (s : System)
    → (request_cancel id asked s).1 ≡ ok true
    → let t = (request_cancel id asked s).0 in
      ((commit_gate id unchanged written t).0 ≡ t)
      × ((commit_gate id unchanged written t).1 ≢ ok tt)
      × (request_cancel id written t ≡ (t, ok true))
commit_gate-request_cancel id asked unchanged written s h =
    let stop = request_cancel-Stopped id asked s h in
    let (same, refused) = Stopped-commit_gate id unchanged written _ stop in
    (same, refused, Stopped-request_cancel id written _ stop)

-- the run is published, or no longer active
abbrev Closed : Text → System → Type 0
Closed id s =
    (find id s.controls ≡ none)
    ⊎ ((control : Control) × (find id s.controls ≡ some control) × (control.published ≡ true))

commit_gate_done :
    (id : Text) (unchanged written : Bool) (s : System)
    → (commit_gate id unchanged written s).1 ≡ ok tt
    → (commit_gate id unchanged written s).0.controls ≡ update id publishing s.controls
unfolding commit_gate
commit_gate_done id unchanged written s h = ground arith

commit_gate-Closed :
    (id : Text) (unchanged written : Bool) (s : System)
    → (commit_gate id unchanged written s).1 ≡ ok tt
    → Closed id (commit_gate id unchanged written s).0
commit_gate-Closed id unchanged written s h =
    rw (commit_gate_done id unchanged written s h) (elim (Option-cases (find id s.controls)) [
      | inl gone ↦ inl (find-update id id publishing s.controls ∙ rw (text_eq_refl id, gone) refl)
      | inr (control, active) ↦ inr (
        publishing control,
        find-update id id publishing s.controls ∙ rw (text_eq_refl id, active) refl,
        refl,
      )
    ])

Closed-request_cancel :
    (id : Text) (written : Bool) (s : System)
    → Closed id s
    → request_cancel id written s ≡ (s, ok false)
unfolding request_cancel
Closed-request_cancel id written s (inl gone) = ground arith
Closed-request_cancel id written s (inr (control, active, done)) = ground arith

-- Once a document is published, a cancellation is refused, and changes nothing.
pub request_cancel-commit_gate :
    (id : Text) (unchanged written asked : Bool) (s : System)
    → (commit_gate id unchanged written s).1 ≡ ok tt
    → let t = (commit_gate id unchanged written s).0 in request_cancel id asked t ≡ (t, ok false)
request_cancel-commit_gate id unchanged written asked s h =
    Closed-request_cancel id asked _ (commit_gate-Closed id unchanged written s h)
