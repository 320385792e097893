-- ===== src/Composition.antt =====
-- backend/src/composition.rs: the plan of a run is edited and approved, with the checkpoints of one
-- run as the state. The answers of the database, of the lock and of `enqueue` are arguments; SHA-256
-- and Unicode `to_lowercase` are parameters.
pub mod Edits
pub mod Approvals
mod Tests
use doc_craft_agent.Prelude.{
  ℕ, ◌+◌, Bool, true, false, not, ◌&&◌, ◌||◌, Option, none, some, List, [], ◌∷◌, Result, ok, err,
  ◌>>=◌, ◌>>◌, ensure, leb, ltb, ◌==◌, if◌then◌else◌, Text, text, text_eq, len, is_empty, trim, all,
  is_ascii_alphanumeric, Dict, find, put,
}
use doc_craft_agent.Prelude.Words.{add_u32}
use doc_craft_agent.Model.{Outline, OutlineReview, OutlineIssue, Evidence, RunSnapshot, TaskConfig}
use doc_craft_agent.Planning.Outlines
use doc_craft_agent.Planning.Outlines.{validate_outline}

pub record Revision : Type 0 where
  pub base_revision : ℕ
  pub request_id : Text
  pub outline : Option Outline
  pub feedback : Option Text

-- the checkpoints of a run that the edits read and write, its row, and whether it is active
pub record Desk (F : Type 0) : Type 0 where
  pub outline : Option Outline
  pub candidate : Option Outline
  pub approved : Option ℕ
  pub receipts : Dict ℕ
  pub outline_state : Option (ℕ × ℕ)
  pub feedback : Option (Outline × Option Text)
  pub reviews : List (ℕ × OutlineReview)
  -- `document_validation_version`, `review:…` or `repair:…` is there
  pub is_validated : Bool
  pub evidence : Option (List Evidence)
  pub snapshot : RunSnapshot F
  pub status : Text
  pub error : Option Text
  pub is_active : Bool

pub data Error : Type 0 where
  busy bad_request_id long_feedback database active no_outline stale unreadable : Error
  no_evidence no_edit not_queued no_pending not_reviewed major_issue not_awaiting : Error
  bad_outline : Outlines.Error → Error

-- what the lock, the database, the decryption and `enqueue` answer, and the hash of the last document
pub record Answers : Type 0 where
  pub is_busy : Bool
  pub connected : Bool
  pub readable : Bool
  pub committed : Bool
  pub queued : Bool
  pub document : Option Text

unfoldable pub is_request_id : Text → Bool
is_request_id id =
    not (is_empty id) && leb (len id) 64 && all (λ b. is_ascii_alphanumeric b || b == b'-') id

abbrev pub feedback_fits : Option Text → Bool
feedback_fits none = true
feedback_fits (some v) = leb (len v) 16000

abbrev pub has_feedback : Option Text → Bool
has_feedback none = false
has_feedback (some v) = not (is_empty (trim v))

abbrev pub or_error {ℓ} : {A : Type ℓ} → Error → Option A → Result Error A
or_error e none = err e
or_error e (some a) = ok a

abbrev pub or_else {ℓ} : {A : Type ℓ} → Option A → Option A → Option A
or_else none b = b
or_else (some a) b = some a

abbrev pub lift : {A : Type 0} → Result Outlines.Error A → Result Error A
lift (ok a) = ok a
lift (err e) = err (bad_outline e)

-- an edit that was made before, or the plan that it changes with the plan that it brings
pub data Prepared : Type 0 where
  replayed : ℕ → Prepared
  fresh : Outline → Option Outline → Prepared

unfoldable pub from_receipt : Option ℕ → Result Error Prepared → Result Error Prepared
from_receipt none prepared = prepared
from_receipt (some revision) prepared = ok (replayed revision)

abbrev pub state_revision : Outline → Option Outline → ℕ
state_revision current none = current.revision
state_revision current (some plan) = add_u32 current.revision 1

module _ (hash lowercase : Text → Text) {F : Type 0} where
  -- the plan of an edit, checked, or none where it has feedback instead
  unfoldable pub edited :
      Option Outline → Revision → Outline → Desk F → Result Error (Option Outline)
  edited none edit current s = do ensure (has_feedback edit.feedback) no_edit; ok none
  edited (some plan) edit current s = do
    evidence ← or_error no_evidence s.evidence
    checked ← lift (
        validate_outline hash lowercase
          (record plan {
            requirements = current.requirements;
            revision = add_u32 current.revision 1;
          })
          evidence s.snapshot.task.max_diagrams none)
    ok (some checked)

  -- behind the receipt
  unfoldable pub prepare_fresh : Answers → Revision → Desk F → Result Error Prepared
  unfolding edited
  prepare_fresh io edit s = do
    ensure (not s.is_active) active
    current ← or_error no_outline (or_else s.candidate s.outline)
    ensure (current.revision == edit.base_revision) stale
    ensure io.readable unreadable
    candidate ← edited edit.outline edit current s
    ok (fresh current candidate)

  unfoldable pub prepare : Answers → Revision → Desk F → Result Error Prepared
  unfolding prepare_fresh from_receipt is_request_id
  prepare io edit s = do
    ensure (not io.is_busy) busy
    ensure (is_request_id edit.request_id) bad_request_id
    ensure (feedback_fits edit.feedback) long_feedback
    ensure io.connected database
    from_receipt (find edit.request_id s.receipts) (prepare_fresh io edit s)

  abbrev pub with_document : Option Text → RunSnapshot F → RunSnapshot F
  with_document none snapshot = snapshot
  with_document (some h) snapshot = record snapshot { original_hash = some h }

  -- the transaction
  unfoldable pub store_edit : Answers → Revision → Outline → Option Outline → Desk F → Desk F
  store_edit io edit current candidate s =
      let snapshot = with_document io.document s.snapshot in
      record s {
        outline = none;
        candidate = candidate;
        approved = none;
        receipts = put edit.request_id (add_u32 current.revision 1) s.receipts;
        outline_state = some (state_revision current candidate, 0);
        feedback = some (current, edit.feedback);
        is_validated = false;
        snapshot = record snapshot { task = record snapshot.task { preview_outline = true } };
        status = text "awaiting_outline";
        error = none;
      }

  -- `runner::enqueue` on the run
  abbrev pub queue : Desk F → Desk F
  queue s = record s { status = text "queued"; error = none; is_active = true }

  unfoldable pub settle_edit :
      Answers → Revision → Desk F → Result Error Prepared → Desk F × Result Error ℕ
  unfolding store_edit
  settle_edit io edit s (err e) = (s, err e)
  settle_edit io edit s (ok (replayed revision)) = (s, ok revision)
  settle_edit io edit s (ok (fresh current candidate)) =
      if not io.committed
      then (s, err database)
      else if not io.queued
      then (store_edit io edit current candidate s, err not_queued)
      else (queue (store_edit io edit current candidate s), ok (add_u32 current.revision 1))

  unfoldable pub revise : Answers → Revision → Desk F → Desk F × Result Error ℕ
  unfolding prepare settle_edit
  revise io edit s = settle_edit io edit s (prepare io edit s)

unfoldable pub review_of : ℕ → List (ℕ × OutlineReview) → Option OutlineReview
review_of revision [] = none
review_of revision ((r, review) ∷ reviews) =
    if r == revision then some review else review_of revision reviews

abbrev pub is_major : OutlineIssue → Bool
is_major i = text_eq i.severity (text "major")

module _ {F : Type 0} where
  -- the guards of `continue_outline`, with the revision that is approved
  unfoldable pub check_approval : Answers → ℕ → Desk F → Result Error ℕ
  unfolding review_of
  check_approval io revision s = do
    ensure (not io.is_busy) busy
    ensure (not s.is_active) active
    ensure io.connected database
    plan ← or_error no_pending s.candidate
    ensure (plan.revision == revision) stale
    review ← or_error not_reviewed (review_of plan.revision s.reviews)
    ensure (all (λ (i : OutlineIssue). not (is_major i)) review.issues) major_issue
    ensure (text_eq s.status (text "awaiting_outline")) not_awaiting
    ensure io.readable unreadable
    ok plan.revision

  unfoldable pub settle_approval :
      Answers → Desk F → Result Error ℕ → Desk F × Result Error (Unit {0})
  settle_approval io s (err e) = (s, err e)
  settle_approval io s (ok revision) =
      if not io.committed
      then (s, err database)
      else if not io.queued
      then (record s { approved = some revision }, err not_queued)
      else (
        record s {
          approved = some revision;
          status = text "queued";
          error = none;
          is_active = true;
        },
        ok tt,
      )

  unfoldable pub continue_outline : Answers → ℕ → Desk F → Desk F × Result Error (Unit {0})
  unfolding check_approval settle_approval
  continue_outline io revision s = settle_approval io s (check_approval io revision s)
