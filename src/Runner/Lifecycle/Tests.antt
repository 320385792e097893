-- ===== src/Runner/Lifecycle/Tests.antt =====
-- Runs of the service, and the theorems on the life of a run at them.
use doc_craft_agent.Prelude.{
  ◌≡◌, ◌≢◌, refl, true, false, none, some, [], ◌∷◌, ok, err, Text, text, find, changed, arith,
  text_eq, starts_with,
}
use doc_craft_agent.Runner.Lifecycle.{
  System, Control, Row, Failure, enqueue, register, request_cancel, commit_gate, finish, ending,
  terminal_status, replay_terminal, cancel_ending, end_row, valid, target_active, safe_error,
  after_register,
}
use doc_craft_agent.Runner.Lifecycle.Registry.{
  Sound, done, next, enqueued, cancelled, finished, Steps-Sound,
}
use doc_craft_agent.Runner.Lifecycle.Terminal.{up, lost, made, replay-finish, replay-request_cancel}
use doc_craft_agent.Runner.Lifecycle.Outcome.{Answers}
use doc_craft_agent.Runner.Lifecycle.Commit.{commit_gate-request_cancel}

abbrev same_key : Text → Text
same_key path = path

abbrev running : Text → Row
running s = record { status = s; error = none }

abbrev active : Text → Control
active target = record { is_cancelled = false; target = target; published = false }

abbrev empty_service : System
empty_service = record { controls = []; rows = []; terminal = []; is_shutdown = false }

-- Two runs, one of them done but for its end, and one that an earlier process completed.
abbrev busy : System
busy = record {
  controls = (text "a", active (text "x.md")) ∷ (text "b", active (text "y.md")) ∷ [];
  rows =
      (text "a", running (text "running"))
      ∷ (text "b", running (text "running"))
      ∷ (text "c", running (text "completed"))
      ∷ [];
  terminal = (text "c", valid (record { status = text "failed"; error = none })) ∷ [];
  is_shutdown = false;
}

abbrev network : Failure
network = record { message = text "error at https://host/v1"; is_db_unavailable = false }

same_target_refused :
    (enqueue same_key false (text "d") (text "x.md") true true busy).1 ≡ err target_active
unfolding enqueue register after_register find text_eq
same_target_refused = refl

addresses_hidden : ending false false network ≡ record {
  status = text "failed";
  error = some (text "Network operation failed; check connection settings and diagnostics");
}
unfolding ending terminal_status safe_error starts_with
addresses_hidden = refl

Steps-Sound_example : Sound (
    finish
      (text "a")
      (some network)
      (lost true)
      (request_cancel
        (text "a")
        true
        (enqueue same_key false (text "a") (text "x.md") true true empty_service).0).0)
Steps-Sound_example =
    Steps-Sound {output_key = same_key}
      (next (enqueued false (text "a") (text "x.md") true true) (
        next (cancelled (text "a") true)
          (next (finished (text "a") (some network) (lost true)) done)))
      (tt, omega arith)

replay-finish_example :
    find (text "a") (replay_terminal up (finish (text "a") (some network) (lost true) busy)).0.rows
    ≡ find (text "a") (finish (text "a") (some network) (made true) busy).rows
replay-finish_example = replay-finish (text "a") network true busy

replay-request_cancel_example :
    find
      (text "b")
      (replay_terminal up (
        finish
          (text "b")
          (some network)
          (lost false)
          (request_cancel (text "b") true busy).0)).0.rows
    ≡ changed (end_row cancel_ending) (find (text "b") busy.rows)
unfolding request_cancel find text_eq
replay-request_cancel_example =
    replay-request_cancel (text "b") true network (lost false) busy (active (text "y.md")) refl refl
      refl refl

commit_gate-request_cancel_example :
    let t = (request_cancel (text "a") true busy).0 in
    ((commit_gate (text "a") true true t).0 ≡ t)
    × ((commit_gate (text "a") true true t).1 ≢ ok tt)
    × (request_cancel (text "a") true t ≡ (t, ok true))
unfolding request_cancel find text_eq
commit_gate-request_cancel_example = commit_gate-request_cancel (text "a") true true true busy refl

abbrev answers : Answers
answers = record {
  published = false;
  recovered = none;
  has_outline = ok false;
  has_root = ok true;
  partial = none;
}

abbrev out_of_tokens : Failure
out_of_tokens = record { message = text "TOKEN_BUDGET: spent"; is_db_unavailable = false }
