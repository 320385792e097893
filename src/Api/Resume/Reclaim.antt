-- ===== src/Api/Resume/Reclaim.antt =====
-- What a resume gives back to the budget of a run (`resume_run` of backend/src/api.rs).
use doc_craft_agent.Prelude.{ℕ, ◌+◌, ◌≡◌, ◌⊎◌, none, some, List, [], ◌∷◌, Result}
use doc_craft_agent.Prelude.Words.{saturating_add}
use doc_craft_agent.Prelude.Floats.{Floats}
use doc_craft_agent.Model.{RunSnapshot}
use doc_craft_agent.Config.{Environment}
use doc_craft_agent.Source.Tasks.{Files}
use doc_craft_agent.Api.Resume.{
  PendingCall, llm_request, llm_response, Run, Error, or_zero, released_from, less_released,
  after_enqueue,
}

-- what all requests together had reserved
abbrev pub reserved : List PendingCall → ℕ
reserved [] = 0
reserved (llm_request input output ∷ calls) =
    saturating_add (or_zero input) (or_zero output) + reserved calls
reserved (llm_response already estimated input output ∷ calls) = reserved calls

module _ {F : Type 0} where
  -- a run with the excess of its calls given back
  abbrev pub reclaimed : Run F → Run F
  reclaimed r = record r {
    budget = less_released (released_from 0 0 r.calls) r.budget;
    reconciled = some (released_from 0 0 r.calls);
  }

  -- nothing changed, or the excess went back, which it had not before
  abbrev pub Reclaimed : Run F → Run F → Type 0
  Reclaimed r s = (s ≡ r) ⊎ ((r.reconciled ≡ none) × (s ≡ reclaimed r))

module _ (floats : Floats) (env : Environment) (files : Files) where
  open floats use {F}

  -- what a resume leaves of a run
  abbrev pub Resumed : Run F → Run F → Result Error (RunSnapshot F) → Type 0
  Resumed r s outcome =
      (t : Run F) × ((t ≡ r) ⊎ ((r.reconciled ≡ none) × (t ≡ reclaimed r)))
      × (s ≡ after_enqueue floats env files t outcome)
