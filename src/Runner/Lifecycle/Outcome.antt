-- ===== src/Runner/Lifecycle/Outcome.antt =====
-- How a run ends, in `spawn_worker` of backend/src/runner.rs: what the work of the run answers, and
-- what becomes of it before the end of the worker.
use doc_craft_agent.Prelude.{
  Bool, true, false, Option, none, some, List, [], ◌∷◌, ◌++◌, ◌≡◌, refl, Result, ok, err, Text,
  text, if◌then◌else◌, starts_with, any,
}
use doc_craft_agent.Source.{has_part}
use doc_craft_agent.Runner.Lifecycle.{Failure, terminal_status}

-- how the work of `execute` ends in `spawn_worker`: the token fires, the deadline passes, or it
-- returns; before it, starting the run may fail, and `catch_unwind` meets a panic
pub data Work : Type 0 where
  not_started : Failure → Work
  stopped : Work
  panicked : Work
  timed_out : Work
  returned : Option Failure → Work

abbrev said : Text → Failure
said message = record { message = message; is_db_unavailable = false }

-- `is_budget`, `is_context_budget` and `recoverable_generation_failure`
abbrev pub budget_marks : List Text
budget_marks =
    text "TOKEN_BUDGET"
    ∷ text "COST_BUDGET"
    ∷ text "TIME_BUDGET"
    ∷ text "PROVIDER_BUDGET"
    ∷ text "CONTEXT_BUDGET"
    ∷ text "API_RETRIES_EXHAUSTED"
    ∷ text "SECTION_REPAIR_EXHAUSTED"
    ∷ []

unfoldable pub is_partial : Failure → Bool
unfolding has_part
is_partial failure = any (has_part failure.message) budget_marks

-- what the checkpoints, `publish::recover_run` and `publish_partial` answer
pub record Answers : Type 0 where
  pub published : Bool
  pub recovered : Option Failure
  pub has_outline : Result Failure Bool
  pub has_root : Result Failure Bool
  pub partial : Option Failure

abbrev pub awaiting : Bool → Text → Failure
awaiting has_root message =
    said (
      (if has_root then text "AWAITING_OUTLINE" else text "AWAITING_SOURCE")
      ++ text ": "
      ++ message)

-- a run that gave up: what it wrote so far is published, where it has an outline
unfoldable pub give_up : Answers → Failure → Option Failure
give_up a failure = elim a.has_outline [
  | err reason ↦ some reason
  | ok true ↦ a.partial
  | ok false ↦ elim a.has_root [
    | err reason ↦ some reason
    | ok has_root ↦ some (awaiting has_root failure.message)
  ]
]

unfoldable pub settle : Answers → Option Failure → Option Failure
unfolding is_partial give_up
settle a none = none
settle a (some failure) =
    if a.published
    then a.recovered
    else if is_partial failure
    then give_up a failure
    else some failure

-- the error of the worker, if it has one
unfoldable pub outcome : Answers → Work → Option Failure
unfolding settle
outcome a (not_started failure) = some failure
outcome a stopped = some (said (text "CANCELLED"))
outcome a panicked = some (said (text "Execution worker stopped unexpectedly; checkpoint retained"))
outcome a timed_out = settle a (some (said (text "TIME_BUDGET: run deadline reached")))
outcome a (returned result) = settle a result

awaiting_status :
    (has_root : Bool) (failure : Failure)
    → terminal_status false false (awaiting has_root failure.message).message
      ≡ (if has_root then text "awaiting_outline" else text "awaiting_source")
unfolding terminal_status starts_with
awaiting_status true failure = refl
awaiting_status false failure = refl

-- A run that meets a budget, or whose retries are used up, before it has an outline ends in a
-- status to resume from: it awaits its outline where the source is read, else its source.
pub outcome-awaiting :
    (a : Answers) (failure : Failure) (has_root : Bool)
    → is_partial failure ≡ true
    → a.published ≡ false
    → a.has_outline ≡ ok false
    → a.has_root ≡ ok has_root
    → (last : Failure) × (outcome a (returned (some failure)) ≡ some last)
      × (terminal_status false false last.message
          ≡ (if has_root then text "awaiting_outline" else text "awaiting_source"))
unfolding outcome settle give_up
outcome-awaiting a failure has_root partial open_gate no_outline root = (
  awaiting has_root failure.message,
  rw (open_gate, partial, no_outline, root) refl,
  awaiting_status has_root failure,
)
