-- ===== src/Context/Calibration.antt =====
-- The calibration of a run, backend/src/context.rs, over every sequence of usage reports.
use doc_craft_agent.Prelude.{
  ℕ, ◌*◌, ◌/◌, ◌≤◌, ◌<◌, max, List, [], ◌∷◌, ◌≡◌, ◌⊎◌, refl, inl, inr, some, arith, Option-cases,
  All,
}
use doc_craft_agent.Prelude.Words.{u32_max}
use doc_craft_agent.Budget.{density_sample}
use doc_craft_agent.Budget.Density.{density_sample_bounds, calibrated_density_conservative}
use doc_craft_agent.Context.{RunContext, density, record_density, distrust_density}

-- One report: the bytes of the request and the tokens that the provider counted.
abbrev pub Report : Type 0
Report = ℕ × ℕ

module _ {F : Type 0} where
  abbrev pub feed : RunContext F → List Report → RunContext F
  feed r [] = r
  feed r ((bytes, tokens) ∷ reports) = feed (record_density r bytes tokens).0 reports

  distrusted_step :
      (r : RunContext F) (bytes tokens : ℕ)
      → r.density_samples ≡ u32_max
      → (record_density r bytes tokens).0 ≡ r
  unfolding record_density
  distrusted_step r bytes tokens h = ground arith

  feed_distrusted :
      (r : RunContext F) (reports : List Report) → r.density_samples ≡ u32_max → feed r reports ≡ r
  feed_distrusted r [] h = refl
  feed_distrusted r ((bytes, tokens) ∷ reports) h =
      rw (distrusted_step r bytes tokens h) (feed_distrusted r reports h)

  density_distrusted : (r : RunContext F) → r.density_samples ≡ u32_max → density r ≡ 100
  unfolding density
  density_distrusted r h = ground arith

  -- Once distrusted, a run stays at one byte a token, whatever is reported.
  pub distrust_forever :
      (r : RunContext F) (reports : List Report) → density (feed (distrust_density r) reports) ≡ 100
  unfolding distrust_density
  distrust_forever r reports =
      rw (feed_distrusted (distrust_density r) reports refl)
        (density_distrusted (distrust_density r) refl)

  -- Counting samples never reaches the mark of distrust.
  count_stays_trusted :
      (r : RunContext F) (bytes tokens : ℕ)
      → r.density_samples < u32_max
      → (record_density r bytes tokens).0.density_samples < u32_max
  unfolding record_density
  count_stays_trusted r bytes tokens h = ground arith

  -- The floor is set and at most `d`, or the run is distrusted.
  abbrev Below : ℕ → RunContext F → Type 0
  Below d r = (r.density_samples ≡ u32_max) ⊎ ((0 < r.density_floor) × (r.density_floor ≤ d))

  Below-record_density :
      (r : RunContext F) (bytes tokens d : ℕ)
      → Below d r
      → Below d (record_density r bytes tokens).0
  unfolding record_density
  Below-record_density r bytes tokens d h = elim (Option-cases (density_sample bytes tokens)) [
    | inl unusable ↦ ground arith
    | inr (s, e) ↦ ground (arith, density_sample_bounds bytes tokens e)
  ]

  Below-sampled :
      (r : RunContext F) (bytes tokens : ℕ) {d : ℕ}
      → density_sample bytes tokens ≡ some d
      → Below d (record_density r bytes tokens).0
  unfolding record_density
  Below-sampled r bytes tokens e = ground (arith, density_sample_bounds bytes tokens e)

  Below-feed :
      (r : RunContext F) (reports : List Report) (d : ℕ) → Below d r → Below d (feed r reports)
  Below-feed r [] d h = h
  Below-feed r ((bytes, tokens) ∷ reports) d h =
      Below-feed (record_density r bytes tokens).0 reports d
        (Below-record_density r bytes tokens d h)

  density_of_Below : (r : RunContext F) (d : ℕ) → Below d r → density r ≤ max (d * 85 / 100) 100
  unfolding density
  density_of_Below r d h =
      ground (arith, calibrated_density_conservative r.density_samples r.density_floor)

  -- After any sequence of usage reports, the density of the run is at most 85 percent of each
  -- usable sample among them, or one byte a token.
  pub density-feed :
      (r : RunContext F) (reports : List Report)
      → All
          (λ (report : Report).
            (d : ℕ)
            → density_sample report.0 report.1 ≡ some d
            → density (feed r reports) ≤ max (d * 85 / 100) 100)
          reports
  density-feed r [] = tt
  density-feed r ((bytes, tokens) ∷ reports) = (
    λ d e.
        density_of_Below (feed (record_density r bytes tokens).0 reports) d
          (Below-feed (record_density r bytes tokens).0 reports d (Below-sampled r bytes tokens e)),
    density-feed (record_density r bytes tokens).0 reports,
  )
