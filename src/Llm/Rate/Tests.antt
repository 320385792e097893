-- ===== src/Llm/Rate/Tests.antt =====
-- Requests at a limit, and the theorem at them.
use doc_craft_agent.Prelude.{◌≡◌, ◌≤◌, refl, ℕ, some, List, [], ◌∷◌, arith}
use doc_craft_agent.Llm.Rate.{
  RateRound, minute, second, pop_old, tokens_of, wait_for, admit_to, admit, admitted,
}
use doc_craft_agent.Llm.Rate.Window.{requests_in, tokens_in, admitted_window}

-- three requests, and the third again when the first is a minute old
abbrev round : ℕ → ℕ → RateRound
round now tokens = record { now = now; tokens = tokens; rpm = 2; tpm = 1000 }

abbrev rounds : List RateRound
rounds =
    round 0 100
    ∷ round second 200
    ∷ round 10_000_000_000 50
    ∷ round minute 50
    ∷ round 60_500_000_000 1
    ∷ []

third_waits :
    (admit 2 1000 10_000_000_000 50 ((0, 100) ∷ (second, 200) ∷ [])).1 ≡ some 50_000_000_000
unfolding admit admit_to pop_old tokens_of wait_for
third_waits = refl

window_moves : admitted rounds [] ≡ (0, 100) ∷ (second, 200) ∷ (minute, 50) ∷ []
unfolding admitted admit admit_to pop_old tokens_of wait_for
window_moves = refl

admitted_window_example :
    (requests_in second (admitted rounds []) ≤ 2) × (tokens_in second (admitted rounds []) ≤ 1000)
admitted_window_example =
    admitted_window 2 1000 second rounds (omega arith)
      (
        (omega arith, omega arith),
        (
          (omega arith, omega arith),
          (
            (omega arith, omega arith),
            ((omega arith, omega arith), ((omega arith, omega arith), tt)),
          ),
        ),
      )
      (omega arith, (omega arith, (omega arith, (omega arith, (omega arith, tt)))))
