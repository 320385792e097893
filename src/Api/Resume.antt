-- ===== src/Api/Resume.antt =====
-- `resume_run` of backend/src/api.rs: a stopped run goes on, with current settings where that is
-- asked for. The answers of the lock, the database, the decryption and `enqueue` are arguments.
pub mod Kept
pub mod Reclaim
mod Tests
use doc_craft_agent.Prelude.{
  ℕ, ◌+◌, ◌-◌, Bool, true, false, not, ◌&&◌, ◌||◌, Option, none, some, List, [], ◌∷◌, Result, ok,
  err, ◌>>=◌, ◌>>◌, ensure, leb, ltb, if◌then◌else◌, Text, text, text_eq, contains,
}
use doc_craft_agent.Prelude.Words.{saturating_add}
use doc_craft_agent.Prelude.Floats.{Floats}
use doc_craft_agent.Model.{RunSnapshot, TaskConfig, Settings}
use doc_craft_agent.Config
use doc_craft_agent.Config.{Environment, validate}
use doc_craft_agent.Source.{has_part}
use doc_craft_agent.Source.Tasks
use doc_craft_agent.Source.Tasks.{Files, validate_task}

pub record ResumeOptions : Type 0 where
  pub current_llm : Bool
  pub current_token_limit : Bool
  pub current_review_limit : Bool

-- the events of calls, with the numbers that their data holds
pub data PendingCall : Type 0 where
  llm_request : Option ℕ → Option ℕ → PendingCall
  -- `reservation_released` is there, `usage_estimated`, and the tokens
  llm_response : Bool → Option Bool → Option ℕ → Option ℕ → PendingCall

-- the checkpoint `budget`: an object has `tokens`, perhaps
pub data BudgetCheckpoint : Type 0 where
  absent not_object : BudgetCheckpoint
  object : Option ℕ → BudgetCheckpoint

-- what the database has of a run and of its task
pub record Run (F : Type 0) : Type 0 where
  pub status : Text
  pub progress : Text
  pub snapshot : RunSnapshot F
  pub document : Option Text
  pub calls : List PendingCall
  pub budget : BudgetCheckpoint
  pub reconciled : Option ℕ
  pub task : Option (TaskConfig F)

pub record Answers : Type 0 where
  pub is_busy : Bool
  pub connected : Bool
  pub readable : Bool
  pub committed : Bool
  pub queued : Bool

pub data Error : Type 0 where
  busy database not_resumable unreadable bad_budget no_task same_review_limit not_queued : Error
  bad_settings : Config.Error → Error
  bad_task : Tasks.Error → Error

abbrev pub or_zero : Option ℕ → ℕ
or_zero none = 0
or_zero (some n) = n

-- what a response gives back of the reservation of its request
unfoldable pub excess : ℕ → Bool → Option Bool → Option ℕ → Option ℕ → ℕ
excess pending false (some false) (some input) (some output) = pending - saturating_add input output
excess pending already estimated input output = 0

-- the loop over the calls: `pending` and `released`
unfoldable pub released_from : ℕ → ℕ → List PendingCall → ℕ
unfolding excess
released_from pending released [] = released
released_from pending released (llm_request input output ∷ calls) =
    released_from (saturating_add (or_zero input) (or_zero output)) released calls
released_from pending released (llm_response already estimated input output ∷ calls) =
    released_from 0 (saturating_add released (excess pending already estimated input output)) calls

unfoldable pub less_released : ℕ → BudgetCheckpoint → BudgetCheckpoint
less_released released absent = absent
less_released released not_object = not_object
less_released released (object tokens) = object (some (or_zero tokens - released))

abbrev pub is_object : BudgetCheckpoint → Bool
is_object absent = true
is_object not_object = false
is_object (object tokens) = true

abbrev pub is_some {ℓ} : {A : Type ℓ} → Option A → Bool
is_some none = false
is_some (some a) = true

abbrev pub stopped : List Text
stopped =
    text "failed"
    ∷ text "cancelled"
    ∷ text "interrupted"
    ∷ text "awaiting_source"
    ∷ text "awaiting_outline"
    ∷ []

module _ {F : Type 0} where
  -- confirmed over-reservations go back to the budget, once
  unfoldable pub reclaim : Bool → Run F → Run F × Result Error (Unit {0})
  unfolding released_from less_released
  reclaim committed r =
      let released = released_from 0 0 r.calls in
      if is_some r.reconciled
      then (r, ok tt)
      else if not (is_object r.budget)
      then (r, err bad_budget)
      else if not committed
      then (r, err database)
      else (
        record r { budget = less_released released r.budget; reconciled = some released },
        ok tt,
      )

  abbrev pub has_warnings : Run F → Bool
  has_warnings r = text_eq r.status (text "completed_with_warnings")

  abbrev pub is_partial_run : Run F → Bool
  is_partial_run r = has_warnings r && has_part r.progress (text "this document is incomplete")

  abbrev pub or_document : Option Text → RunSnapshot F → RunSnapshot F
  or_document none snapshot = snapshot
  or_document (some h) snapshot = record snapshot { original_hash = some h }

  -- the snapshot, for a document that the run wrote itself
  unfoldable pub own_document : Run F → RunSnapshot F
  own_document r = if has_warnings r then or_document r.document r.snapshot else r.snapshot

  -- up to the settings
  unfoldable pub check_run : Answers → Run F → Result Error (RunSnapshot F)
  unfolding own_document
  check_run io r = do
    ensure (not io.is_busy) busy
    ensure io.connected database
    ensure (has_warnings r || contains stopped r.status) not_resumable
    ensure io.readable unreadable
    ok (own_document r)

  unfoldable pub credentials : Settings F → RunSnapshot F → RunSnapshot F
  credentials current snapshot = record snapshot {
    settings = record snapshot.settings {
      llm = record snapshot.settings.llm {
        api_key = current.llm.api_key;
        proxy_password = current.llm.proxy_password;
      };
    };
  }

  abbrev pub or_no_task : Option (TaskConfig F) → Result Error (TaskConfig F)
  or_no_task none = err no_task
  or_no_task (some t) = ok t

  -- the limits that are asked for, from the task as it is saved
  unfoldable pub renew_limits :
      Bool → Bool → Option (TaskConfig F) → RunSnapshot F → Result Error (RunSnapshot F)
  renew_limits token_limit review_limit saved snapshot =
      if token_limit || review_limit
      then (do
        current ← or_no_task saved
        ok (record snapshot {
          task = record snapshot.task {
            max_tokens = if token_limit then current.max_tokens else snapshot.task.max_tokens;
            max_iterations =
                if review_limit then current.max_iterations else snapshot.task.max_iterations;
          };
        }))
      else ok snapshot

  unfoldable pub with_limits :
      ResumeOptions → Option (TaskConfig F) → RunSnapshot F → Result Error (RunSnapshot F)
  unfolding renew_limits
  with_limits options saved snapshot =
      renew_limits options.current_token_limit options.current_review_limit saved snapshot

  unfoldable pub renewed : Settings F → RunSnapshot F → RunSnapshot F
  renewed current snapshot = record snapshot {
    settings = record snapshot.settings { llm = current.llm };
  }

  -- behind the check of the settings
  unfoldable pub reclaim_checked :
      Bool → RunSnapshot F → Run F → Result Error (Unit {0}) → Run F × Result Error (RunSnapshot F)
  unfolding reclaim
  reclaim_checked committed snapshot r (err e) = (r, err e)
  reclaim_checked committed snapshot r (ok u) =
      let (s, outcome) = reclaim committed r in (s, outcome >> ok snapshot)

abbrev pub lift_settings : Result Config.Error (Unit {0}) → Result Error (Unit {0})
lift_settings (ok u) = ok u
lift_settings (err e) = err (bad_settings e)

abbrev pub lift_task : Result Tasks.Error (Unit {0}) → Result Error (Unit {0})
lift_task (ok u) = ok u
lift_task (err e) = err (bad_task e)

module _ (floats : Floats) (env : Environment) (files : Files) where
  open floats use {F}

  -- `if options.current_llm`: the run, and the snapshot with the settings
  unfoldable pub with_llm :
      Answers
      → ResumeOptions
      → Settings F
      → RunSnapshot F
      → Run F
      → Run F × Result Error (RunSnapshot F)
  unfolding renewed reclaim_checked credentials
  with_llm io options current snapshot r =
      if options.current_llm
      then reclaim_checked io.committed (renewed current snapshot) r
          (lift_settings (validate floats env (renewed current snapshot).settings))
      else (r, ok (credentials current snapshot))

  -- behind the settings, to the snapshot that is queued
  unfoldable pub finish_resume :
      Answers → ResumeOptions → Run F → RunSnapshot F → Result Error (RunSnapshot F)
  unfolding with_limits
  finish_resume io options r snapshot = do
    limited ← with_limits options r.task snapshot
    ensure
        (not (
          has_warnings r
          && not (is_partial_run r)
          && (not options.current_review_limit
              || leb limited.task.max_iterations r.snapshot.task.max_iterations)))
        same_review_limit
    lift_task (validate_task floats files limited.task limited.settings)
    ensure io.queued not_queued
    ok limited

  -- the row of `runs`, where `runner::enqueue` stores it
  abbrev pub after_enqueue : Run F → Result Error (RunSnapshot F) → Run F
  after_enqueue r (err e) = r
  after_enqueue r (ok snapshot) = record r {
    status = text "queued";
    progress = text "{}";
    snapshot = snapshot;
  }

  unfoldable pub resume_from :
      Answers
      → ResumeOptions
      → Settings F
      → Run F
      → Result Error (RunSnapshot F)
      → Run F × Result Error (RunSnapshot F)
  unfolding with_llm finish_resume
  resume_from io options current r (err e) = (r, err e)
  resume_from io options current r (ok snapshot) =
      let (s, outcome) = with_llm io options current snapshot r in
      let queued = outcome >>= finish_resume io options r in (after_enqueue s queued, queued)

  -- the run behind it, and the snapshot that goes to `runner::enqueue`
  unfoldable pub resume_run :
      Answers → ResumeOptions → Settings F → Run F → Run F × Result Error (RunSnapshot F)
  unfolding check_run resume_from
  resume_run io options current r = resume_from io options current r (check_run io r)
