-- ===== src/Runner/Journal.antt =====
-- The budget of a run between attempts: the checkpoint that `RunContext::event` writes, its journal,
-- `replay_one_journal` and the start of `spawn_worker` in backend/src/runner.rs. A field that a
-- stored JSON does not have is absent.
use doc_craft_agent.Prelude.{
  ℕ, ◌+◌, ◌≤◌, min, max, Option, none, some, ◌≡◌, ap, refl, arith, true, false,
}
use doc_craft_agent.Prelude.Words.{u32_max}
use doc_craft_agent.Budget.{density_sample}
use doc_craft_agent.Context.{RunContext, record_density, distrust_density, density}

-- the fields of the JSON of a journal or of the step `budget`
pub record Stored : Type 0 where
  pub tokens : Option ℕ
  pub cost : Option ℕ
  pub elapsed : Option ℕ
  pub extra_margin : Option ℕ
  pub density_samples : Option ℕ
  pub density_floor : Option ℕ

-- `.and_then(Value::as_u64).unwrap_or(0)`
abbrev pub or_zero : Option ℕ → ℕ
or_zero none = 0
or_zero (some n) = n

-- `unwrap_or_else(|| json!({}))`
abbrev pub empty : Stored
empty = record {
  tokens = none;
  cost = none;
  elapsed = none;
  extra_margin = none;
  density_samples = none;
  density_floor = none;
}

abbrev larger : Option ℕ → Option ℕ → Option ℕ
larger a b = some (max (or_zero a) (or_zero b))

larger_twice : (a b : Option ℕ) → larger (larger a b) b ≡ larger a b
larger_twice a b = ap some (omega arith)

-- the checkpoint that `replay_one_journal` writes over `current`
unfoldable pub replay_budget : Stored → Stored → Stored
replay_budget current journal = record {
  tokens = larger current.tokens journal.tokens;
  cost = larger current.cost journal.cost;
  elapsed = larger current.elapsed journal.elapsed;
  extra_margin = larger current.extra_margin journal.extra_margin;
  density_samples = none;
  density_floor = none;
}

module _ {F : Type 0} where
  -- the checkpoint and the journal of `event`
  unfoldable pub checkpoint : RunContext F → Stored
  checkpoint r = record {
    tokens = some r.reserved_tokens;
    cost = some r.reserved_cost;
    elapsed = some (r.elapsed_before + r.elapsed);
    extra_margin = some r.extra_margin;
    density_samples = some r.density_samples;
    density_floor = some r.density_floor;
  }

  unfoldable pub journal : RunContext F → Stored
  journal r = record {
    tokens = some r.reserved_tokens;
    cost = some r.reserved_cost;
    elapsed = some (r.elapsed_before + r.elapsed);
    extra_margin = none;
    density_samples = none;
    density_floor = none;
  }

  -- the context that `spawn_worker` starts a run with
  unfoldable pub resume : RunContext F → Stored → RunContext F
  resume r budget = record r {
    is_cancelled = false;
    elapsed = 0;
    elapsed_before = or_zero budget.elapsed;
    finalizing = false;
    reserved_tokens = or_zero budget.tokens;
    reserved_cost = or_zero budget.cost;
    extra_margin = min (or_zero budget.extra_margin) u32_max;
    density_samples = min (or_zero budget.density_samples) u32_max;
    density_floor = min (or_zero budget.density_floor) u32_max;
  }

  -- A run that resumes from a replayed journal has at least the tokens, the cost, the time and the
  -- margin of the checkpoint and of the journal, and a second replay changes nothing.
  pub resume-replay_budget :
      (r : RunContext F) (current written : Stored)
      → let after = replay_budget current written in
        let s = resume r after in
        (max (or_zero current.tokens) (or_zero written.tokens) ≤ s.reserved_tokens)
        × (max (or_zero current.cost) (or_zero written.cost) ≤ s.reserved_cost)
        × (max (or_zero current.elapsed) (or_zero written.elapsed) ≤ s.elapsed_before)
        × (min (or_zero current.extra_margin) u32_max ≤ s.extra_margin)
        × (replay_budget after written ≡ after)
  unfolding replay_budget resume
  resume-replay_budget r current written = (
    omega arith,
    omega arith,
    omega arith,
    omega arith,
    rw
        (
          larger_twice current.tokens written.tokens,
          larger_twice current.cost written.cost,
          larger_twice current.elapsed written.elapsed,
          larger_twice current.extra_margin written.extra_margin,
        )
        refl,
  )

  -- A run that resumes from its own checkpoint goes on with the same counters, margin and
  -- calibration, where these are `u32`; the time of the attempts is added up.
  pub resume-checkpoint :
      (r : RunContext F)
      → r.extra_margin ≤ u32_max
      → r.density_samples ≤ u32_max
      → r.density_floor ≤ u32_max
      → let s = resume r (checkpoint r) in
        (s.reserved_tokens ≡ r.reserved_tokens)
        × (s.reserved_cost ≡ r.reserved_cost)
        × (s.elapsed_before + s.elapsed ≡ r.elapsed_before + r.elapsed)
        × (s.extra_margin ≡ r.extra_margin)
        × (density s ≡ density r)
  unfolding resume checkpoint density
  resume-checkpoint r h k l = ground arith

  -- A replay forgets that the provider was distrusted: the run that resumes from it takes a usable
  -- sample again, which the run before it refused.
  pub replay_budget-distrust_density :
      (r : RunContext F) (current : Stored) (bytes tokens sample : ℕ)
      → density_sample bytes tokens ≡ some sample
      → let distrusted = distrust_density r in
        ((record_density distrusted bytes tokens).1 ≡ false)
        × ((record_density
              (resume distrusted (replay_budget current (journal distrusted)))
              bytes
              tokens).1
            ≡ true)
  unfolding record_density distrust_density replay_budget journal resume
  replay_budget-distrust_density r current bytes tokens sample h = ground arith
