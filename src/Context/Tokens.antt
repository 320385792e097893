-- ===== src/Context/Tokens.antt =====
-- Token reservations of backend/src/context.rs against the budget of the task.
use doc_craft_agent.Prelude.{
  ℕ, ◌+◌, ◌-◌, ◌≤◌, ◌<◌, List, [], map, sum, ap, ◌∙◌, ◌∷◌, ◌≡◌, ◌⊎◌, ok, err, arith,
}
use doc_craft_agent.Prelude.Words.{u64_max}
use doc_craft_agent.Prelude.Floats.{Floats}
use doc_craft_agent.Model.{TaskConfig}
use doc_craft_agent.Context.{RunContext, reserve, reconcile_tokens, token_budget, cost_budget}

module _ (floats : Floats) where
  open floats use {F}

  -- A reservation that is granted adds exactly its tokens and stays within the budget of the
  -- task, and within `u64`; one that is refused changes nothing, and is refused for the tokens
  -- exactly if the sum passes the budget or `u64`.
  pub reserve_outcome :
      (r : RunContext F) (tokens : ℕ) (cost : F)
      → let (r', result) = reserve floats r tokens cost in
        ((result ≡ ok tt)
          × (r'.reserved_tokens ≡ r.reserved_tokens + tokens)
          × (r'.reserved_tokens ≤ r.task.max_tokens)
          × (r'.reserved_tokens ≤ u64_max)
          × (r'.task ≡ r.task))
        ⊎ ((result ≡ err token_budget)
            × (r' ≡ r)
            × ((r.task.max_tokens < r.reserved_tokens + tokens)
                ⊎ (u64_max < r.reserved_tokens + tokens)))
        ⊎ ((result ≡ err cost_budget) × (r' ≡ r) × (r.reserved_tokens + tokens ≤ r.task.max_tokens))
  unfolding reserve
  reserve_outcome r tokens cost = ground arith

  -- A provider call as the client accounts for it: reserve, then settle for what was used.
  abbrev pub Call : Type 0
  Call = ℕ × F × ℕ

  pub settle : RunContext F → Call → RunContext F
  settle r (tokens, cost, used) =
      let (r', result) = reserve floats r tokens cost in
      elim result [ ok _ ↦ (reconcile_tokens r' tokens used).0 | err _ ↦ r' ]

  pub settle_all : RunContext F → List Call → RunContext F
  settle_all r [] = r
  settle_all r (call ∷ calls) = settle_all (settle r call) calls

  abbrev pub IsWithin : RunContext F → Type 0
  IsWithin r = (r.reserved_tokens ≤ r.task.max_tokens) × (r.reserved_tokens ≤ u64_max)

  -- what the calls used above their reservations
  abbrev pub excess_of : Call → ℕ
  excess_of (tokens, cost, used) = used - tokens

  settle_lem :
      (r : RunContext F) (call : Call) (over : ℕ)
      → r.reserved_tokens ≤ r.task.max_tokens + over
      → r.reserved_tokens ≤ u64_max
      → ((settle r call).reserved_tokens ≤ r.task.max_tokens + (over + excess_of call))
        × ((settle r call).reserved_tokens ≤ u64_max)
        × (r.reserved_tokens ≤ (settle r call).reserved_tokens)
        × ((settle r call).reserved_tokens ≤ r.reserved_tokens + call.2)
        × ((settle r call).task ≡ r.task)
  unfolding settle reconcile_tokens reserve
  settle_lem r (tokens, cost, used) over h w = ground arith

  settle_all_from :
      (r : RunContext F) (calls : List Call) (over : ℕ)
      → r.reserved_tokens ≤ r.task.max_tokens + over
      → r.reserved_tokens ≤ u64_max
      → ((settle_all r calls).reserved_tokens
          ≤ r.task.max_tokens + (over + sum (map excess_of calls)))
        × ((settle_all r calls).reserved_tokens ≤ u64_max)
        × (r.reserved_tokens ≤ (settle_all r calls).reserved_tokens)
        × ((settle_all r calls).reserved_tokens
            ≤ r.reserved_tokens + sum (map (λ (call : Call). call.2) calls))
        × ((settle_all r calls).task ≡ r.task)
  unfolding settle_all
  settle_all_from r [] over h w = ground arith
  settle_all_from r (call ∷ calls) over h w =
      let (within, small, grows, bounded, same) = settle_lem r call over h w in
      let limit : (settle r call).task.max_tokens ≡ r.task.max_tokens =
        ap (λ (t : TaskConfig F). t.max_tokens) same in
      let (within', small', grows', bounded', same') =
        settle_all_from (settle r call) calls (over + excess_of call) (omega (arith, limit))
          small in
      (omega (arith, limit), small', omega arith, omega arith, same' ∙ same)

  -- Whatever calls a run makes, its reserved tokens pass the budget of its task by no more than what
  -- the calls used above their reservations, and never pass `u64`; they do not fall, and rise by no
  -- more than what the calls used. The run is within its budget before.
  pub settle_all_lem :
      (r : RunContext F) (calls : List Call)
      → IsWithin r
      → ((settle_all r calls).reserved_tokens ≤ r.task.max_tokens + sum (map excess_of calls))
        × ((settle_all r calls).reserved_tokens ≤ u64_max)
        × (r.reserved_tokens ≤ (settle_all r calls).reserved_tokens)
        × ((settle_all r calls).reserved_tokens
            ≤ r.reserved_tokens + sum (map (λ (call : Call). call.2) calls))
        × ((settle_all r calls).task ≡ r.task)
  settle_all_lem r calls w =
      let (a, b, c, d, e) = settle_all_from r calls 0 (omega (arith, w.0)) w.1 in
      (omega arith, b, c, d, e)
