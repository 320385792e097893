-- ===== src/Llm/Rate.antt =====
-- `rate_limit` of backend/src/llm.rs: a request waits until the last sixty seconds leave room for
-- it. The queue is shared by all runs, and each round has the limits of its own run. Times are in nanoseconds, and never go back; the queue has its front first.
pub mod Window
mod Tests
use doc_craft_agent.Prelude.{
  ℕ, ◌+◌, ◌-◌, Bool, true, false, ◌&&◌, Option, none, some, List, [], ◌∷◌, ◌++◌, leb, ltb,
  if◌then◌else◌, length,
}
use doc_craft_agent.Prelude.Words.{saturating_add}

-- when a request was let through, and its tokens
abbrev pub Queue : Type 0
Queue = List (ℕ × ℕ)

abbrev pub minute : ℕ
minute = 60_000_000_000

abbrev pub second : ℕ
second = 1_000_000_000

unfoldable pub pop_old : ℕ → Queue → Queue
pop_old now [] = []
pop_old now ((t, n) ∷ q) = if leb minute (now - t) then pop_old now q else (t, n) ∷ q

unfoldable pub tokens_of : Queue → ℕ
tokens_of [] = 0
tokens_of ((t, n) ∷ q) = n + tokens_of q

unfoldable pub wait_for : ℕ → Queue → ℕ
wait_for now [] = second
wait_for now ((t, n) ∷ q) = minute - (now - t)

module _ (rpm tpm : ℕ) where
  -- what a round does under the lock, the old entries popped: `none` lets the request through
  unfoldable pub admit_to : ℕ → ℕ → Queue → Queue × Option ℕ
  unfolding tokens_of wait_for
  admit_to now tokens q =
      if ltb (length q) rpm && leb (saturating_add (tokens_of q) tokens) tpm
      then (q ++ ((now, tokens) ∷ []), none)
      else (q, some (wait_for now q))

  unfoldable pub admit : ℕ → ℕ → Queue → Queue × Option ℕ
  unfolding pop_old admit_to
  admit now tokens q = admit_to now tokens (pop_old now q)

abbrev pub keep : Option ℕ → ℕ × ℕ → List (ℕ × ℕ) → List (ℕ × ℕ)
keep none e log = e ∷ log
keep (some wait) e log = log

-- one round of a task: the time, the tokens of its request, and the limits of its run's own settings
pub record RateRound : Type 0 where
  pub now : ℕ
  pub tokens : ℕ
  pub rpm : ℕ
  pub tpm : ℕ

-- rounds of all tasks, in the order in which they take the lock: the requests that are let through
unfoldable pub admitted : List RateRound → Queue → List (ℕ × ℕ)
unfolding admit
admitted [] q = []
admitted (r ∷ rounds) q =
    let (q', wait) = admit r.rpm r.tpm r.now r.tokens q in
    keep wait (r.now, r.tokens) (admitted rounds q')
