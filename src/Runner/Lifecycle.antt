-- ===== src/Runner/Lifecycle.antt =====
-- The life of a run in backend/src/runner.rs, backend/src/api.rs and backend/src/publish.rs: it
-- is registered, cancelled, published and finished, and its terminal journal is replayed. A lock
-- makes each of these one step. The answers of the database and of the disk are arguments.
pub mod Held
pub mod Registry
pub mod Terminal
pub mod Commit
pub mod Outcome
mod Tests
use doc_craft_agent.Prelude.{
  ℕ, Bool, true, false, not, ◌&&◌, ◌||◌, Option, none, some, List, [], ◌∷◌, ◌++◌, Result, ok, err,
  leb, if◌then◌else◌, length, Text, text, text_eq, starts_with, any, Dict, find, put, remove,
  update, take,
}
use doc_craft_agent.Source.{has_part}

pub record Control : Type 0 where
  pub is_cancelled : Bool
  pub target : Text
  -- of its `CommitGate`
  pub published : Bool

-- a row of the table `runs`
pub record Row : Type 0 where
  pub status : Text
  pub error : Option Text

-- a file of `terminal/`, where it can be read
pub record Ending : Type 0 where
  pub status : Text
  pub error : Option Text

pub data File : Type 0 where
  valid : Ending → File
  invalid : File

pub record System : Type 0 where
  pub controls : Dict Control
  pub rows : Dict Row
  pub terminal : Dict File
  pub is_shutdown : Bool

pub data Error : Type 0 where
  already_active target_active queue_full disk database : Error
  target_changed cancelled_run : Error

abbrev pub queue_size : ℕ
queue_size = 64

abbrev pub targets_key : Text → Text × Control → Bool
targets_key key entry = text_eq entry.1.target key

abbrev pub queued : Row
queued = record { status = text "queued"; error = none }

module _ (output_key : Text → Text) where
  -- the block of `enqueue` under the lock of the registry; `removed` is the answer of the disk
  unfoldable pub register : Bool → Text → Text → Bool → System → System × Result Error (Unit {0})
  register existing id target removed s = elim (find id s.controls) [
    | some control ↦ (s, err already_active)
    | none ↦
        if any (targets_key (output_key target)) s.controls
        then (s, err target_active)
        else if leb queue_size (length s.controls)
        then (s, err queue_full)
        else if existing && not removed
        then (s, err disk)
        else (
          record s {
            controls =
                put id
                  (record { is_cancelled = false; target = output_key target; published = false })
                  s.controls;
            terminal = if existing then remove id s.terminal else s.terminal;
          },
          ok tt,
        )
  ]

  -- the SQL of `enqueue`, and what becomes of the entry without it
  unfoldable pub store_queued : Bool → Text → Bool → System → System × Result Error (Unit {0})
  store_queued existing id stored s =
      if stored
      then (
        record s {
          rows = if existing then update id (λ row. queued) s.rows else put id queued s.rows;
        },
        ok tt,
      )
      else (record s { controls = remove id s.controls }, err database)

  -- `store_queued`, where `register` did not fail
  unfoldable pub after_register :
      Bool → Text → Bool → System → Result Error (Unit {0}) → System × Result Error (Unit {0})
  unfolding store_queued
  after_register existing id stored s (err e) = (s, err e)
  after_register existing id stored s (ok done) = store_queued existing id stored s

  unfoldable pub enqueue :
      Bool → Text → Text → Bool → Bool → System → System × Result Error (Unit {0})
  unfolding register after_register
  enqueue existing id target removed stored s =
      let (registered, outcome) = register existing id target removed s in
      after_register existing id stored registered outcome

unfoldable pub safe_error : Text → Text
unfolding has_part
safe_error message =
    if has_part message (text "http://") || has_part message (text "https://")
    then text "Network operation failed; check connection settings and diagnostics"
    else take 1000 message

-- why a worker ended, with what `downcast_ref::<sqlx::Error>` tells of it
pub record Failure : Type 0 where
  pub message : Text
  pub is_db_unavailable : Bool

abbrev pub is_completed : Text → Bool
is_completed status =
    text_eq status (text "completed") || text_eq status (text "completed_with_warnings")

unfoldable pub terminal_status : Bool → Bool → Text → Text
terminal_status cancelled is_shutdown message =
    if cancelled
    then text "cancelled"
    else if is_shutdown
    then text "interrupted"
    else if starts_with message (text "AWAITING_SOURCE:")
    then text "awaiting_source"
    else if starts_with message (text "AWAITING_OUTLINE:")
    then text "awaiting_outline"
    else text "failed"

-- `cancelled` is `token.is_cancelled() && !state.shutdown.is_cancelled()`
unfoldable pub ending : Bool → Bool → Failure → Ending
unfolding terminal_status safe_error
ending cancelled is_shutdown failure = record {
  status = terminal_status cancelled is_shutdown failure.message;
  error = some (
      if cancelled
      then text "Cancelled by user"
      else if failure.is_db_unavailable
      then text "DB_UNAVAILABLE: transient database connection failure"
      else safe_error failure.message);
}

-- `UPDATE runs SET status=?,error=? WHERE id=? AND status NOT IN (...)`, on one row
abbrev pub end_row : Ending → Row → Row
end_row e row =
    if is_completed row.status then row else record { status = e.status; error = e.error }

-- which of a worker's last writes go through
pub record Writes : Type 0 where
  pub journaled : Bool
  pub stored : Bool
  pub removed : Bool

abbrev pub cancelled_by : Option Control → Bool
cancelled_by none = false
cancelled_by (some control) = control.is_cancelled

-- `if let Err(e) = outcome` of `spawn_worker`
unfoldable pub end_run : Text → Failure → Writes → System → System
unfolding ending
end_run id failure io s =
    let e = ending (cancelled_by (find id s.controls) && not s.is_shutdown) s.is_shutdown failure in
    let journal = if io.journaled then put id (valid e) s.terminal else s.terminal in
    record s {
      rows = if io.stored then update id (end_row e) s.rows else s.rows;
      terminal = if io.stored && io.removed then remove id journal else journal;
    }

-- the end of `spawn_worker`; `outcome` is the error of the run, if it has one
unfoldable pub finish : Text → Option Failure → Writes → System → System
unfolding end_run
finish id none io s = record s { controls = remove id s.controls }
finish id (some failure) io s = record (end_run id failure io s) { controls = remove id s.controls }

abbrev pub cancel_ending : Ending
cancel_ending = record { status = text "cancelled"; error = some (text "Cancelled by user") }

abbrev pub cancelling : Control → Control
cancelling control = record control { is_cancelled = true }

unfoldable pub cancel_each : Dict Control → Dict Control
cancel_each [] = []
cancel_each ((id, control) ∷ d) = (id, cancelling control) ∷ cancel_each d

-- `AppState::stop_all` of backend/src/context.rs: the tokens of all runs are cancelled
unfoldable pub stop_all : System → System
unfolding cancel_each
stop_all s = record s { controls = cancel_each s.controls }

-- `written` is the answer of the disk
unfoldable pub request_cancel : Text → Bool → System → System × Result Error Bool
request_cancel id written s = elim (find id s.controls) [
  | none ↦ (s, ok false)
  | some control ↦
      if control.published
      then (s, ok false)
      else if control.is_cancelled
      then (s, ok true)
      else if not written
      then (s, err disk)
      else (
        record s {
          controls = update id cancelling s.controls;
          terminal = put id (valid cancel_ending) s.terminal;
        },
        ok true,
      )
]

-- one file of `replay_terminal`: one that cannot be read is renamed out of the way
unfoldable pub replay_one : Text → File → System → System
replay_one id invalid s = record s { terminal = remove id s.terminal }
replay_one id (valid e) s = record s {
  rows = update id (end_row e) s.rows;
  terminal = remove id s.terminal;
}

-- `stored` tells of which runs the database takes the update
unfoldable pub replay_files : (Text → Bool) → Dict File → System → System × Result Error (Unit {0})
unfolding replay_one
replay_files stored [] s = (s, ok tt)
replay_files stored ((id, file) ∷ files) s = elim (find id s.controls) [
  | some control ↦ replay_files stored files s
  | none ↦ elim file [
    | invalid ↦ replay_files stored files (replay_one id invalid s)
    | valid e ↦ elim (stored id) [
      | false ↦ (s, err database)
      | true ↦ replay_files stored files (replay_one id (valid e) s)
    ]
  ]
]

unfoldable pub replay_terminal : (Text → Bool) → System → System × Result Error (Unit {0})
unfolding replay_files
replay_terminal stored s = replay_files stored s.terminal s

abbrev pub publishing : Control → Control
publishing control = record control { published = true }

-- the block of `publish::save` under the gate: `unchanged` is `now == existing`, or the document
-- goes to a copy
unfoldable pub commit_gate : Text → Bool → Bool → System → System × Result Error (Unit {0})
commit_gate id unchanged written s =
    if not unchanged
    then (s, err target_changed)
    else if cancelled_by (find id s.controls)
    then (s, err cancelled_run)
    else if not written
    then (s, err disk)
    else (record s { controls = update id publishing s.controls }, ok tt)
