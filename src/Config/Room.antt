-- ===== src/Config/Room.antt =====
-- Settings that pass `validate` of backend/src/config.rs leave a request room in the budget of
-- backend/src/budget.rs.
use doc_craft_agent.Prelude.{
  ℕ, ◌+◌, ◌-◌, ◌*◌, ◌/◌, ◌≤◌, ◌<◌, min, ◌≡◌, true, ok, ap, all, text, [], ◌∷◌, ◌++◌, ◌&&◌, ◌||◌,
  false, refl, ltb, leb, >>=-eq-ok, ensure-ok, ensure->>=-ok, arith,
}
use doc_craft_agent.Prelude.Floats.{Floats}
use doc_craft_agent.Prelude.Words.{div_ceil, div_ceil-le, saturating_add, add_u32, u64_max}
use native.Mathlib.Nat.{mul-le-mul}
use doc_craft_agent.Model.{LlmConfig, Settings}
use doc_craft_agent.Budget.{Budget, check, context, margin}
use doc_craft_agent.Config.{
  Environment, Url, validate, limits_ok, has_room, root_ok, database_name_ok, one_of,
  concurrency_ok, token_mode_ok, reasoning_ok, effort_ok, proxy_ok, rates_ok, prices_ok, or_url,
  url_ok, url_not_http,
}

parts_of_context :
    (ctx percent : ℕ) → percent ≤ 80 → ctx * (100 - percent) + ctx * percent ≡ ctx * 100
parts_of_context ctx percent h =
    let whole : 100 - percent + percent ≡ 100 = omega arith in
    omega (arith, ap (λ (t : ℕ). ctx * t) whole)

-- The tokens that a context leaves after the margin, where `percent` of it are kept back.
kept_tokens :
    (ctx percent : ℕ)
    → percent ≤ 80
    → ctx * (100 - percent) / 100 ≤ ctx - div_ceil (ctx * percent) 100
kept_tokens ctx percent h =
    let parts = parts_of_context ctx percent h in
    let up =
      div_ceil-le (ctx * percent) 100 (ctx - ctx * (100 - percent) / 100) (omega arith)
        (omega (arith, parts)) in
    omega (arith, up, parts)

min_left : (n : ℕ) → n ≤ 200_000 * 80 → min n u64_max ≡ n
min_left n h = omega arith

module _ {F : Type 0} (l : LlmConfig F) where
  limits_lem :
      limits_ok l ≡ true
      → (l.context_limit ≤ 200_000)
        × (l.safety_percent ≤ 80)
        × (l.max_output_tokens ≤ l.model_max_output)
        × (0 < l.max_output_tokens)
  unfolding limits_ok
  limits_lem h = ground arith

  room_lem :
      has_room l ≡ true
      → l.max_output_tokens + 512
        < min l.context_limit l.model_context_limit * (100 - l.safety_percent) / 100
  unfolding has_room
  room_lem h = ground arith

  context_lem : l.context_limit ≤ 200_000 → context l 0 ≡ min l.context_limit l.model_context_limit
  context_lem small = omega arith

  margin_lem :
      l.context_limit ≤ 200_000
      → l.safety_percent ≤ 80
      → margin l 0 ≡ div_ceil (context l 0 * l.safety_percent) 100
  margin_lem small p =
      let percent : min (add_u32 l.safety_percent 0) 90 ≡ l.safety_percent = omega arith in
      let bound : context l 0 * l.safety_percent ≤ 200_000 * 80 =
        mul-le-mul {n₂ = 200_000} (omega arith) p in
      rw percent (ap (λ t. div_ceil t 100) (min_left (context l 0 * l.safety_percent) bound))

  -- Limits that pass the checks let a small request through.
  check-ok :
      limits_ok l ≡ true
      → has_room l ≡ true
      → (input : ℕ) → input ≤ 513
      → (b : Budget) × (check l 0 input ≡ ok b) × (b.input ≡ input)
  unfolding check
  check-ok h k input small_input =
      let (small, percent, out, some_output) = limits_lem h in
      let room = room_lem k in
      let kept = kept_tokens (context l 0) l.safety_percent percent in
      let ctx = context_lem small in
      let back = margin_lem small percent in
      let left = ap (λ (c : ℕ). c * (100 - l.safety_percent) / 100) ctx in
      let fits : saturating_add (saturating_add input l.max_output_tokens) (margin l 0)
          ≤ context l 0 =
        fits_in input l.max_output_tokens (margin l 0) (context l 0) (omega arith) (omega arith)
          (omega (arith, kept, back, left, room)) in
      rw (let_through l.model_max_output l.max_output_tokens _ _ out fits) (_, refl, refl)
    where
      fits_in :
          (i o m c : ℕ)
          → i ≤ 513
          → c ≤ 200_000
          → o + 513 ≤ c - m
          → saturating_add (saturating_add i o) m ≤ c
      fits_in i o m c h k l = omega arith

      let_through : (a b c d : ℕ) → b ≤ a → d ≤ c → (ltb a b || ltb c d) ≡ false
      let_through a b c d h k = ground arith

-- The guards that accepted settings passed.
record Passed (floats : Floats) (env : Environment) (s : Settings floats.F) : Type 0 where
  roots : all (root_ok env) (s.source_roots ++ s.output_roots) ≡ true
  retention :
      (ltb 0 s.retention_days && leb s.retention_days 3650 && leb s.cache_max_mb 102_400) ≡ true
  name : database_name_ok s.db.database ≡ true
  database : one_of (text "doccraft_agent" ∷ text "doccraft_agent_test" ∷ []) s.db.database ≡ true
  concurrency : concurrency_ok s ≡ true
  file_size : (ltb 0 s.max_file_bytes && leb s.max_file_bytes (100 * 1024 * 1024)) ≡ true
  limits : limits_ok s.llm ≡ true
  room : has_room s.llm ≡ true
  token_mode : token_mode_ok s.llm ≡ true
  output_parameter :
      one_of (text "max_tokens" ∷ text "max_completion_tokens" ∷ []) s.llm.output_parameter ≡ true
  reasoning : reasoning_ok s.llm ≡ true
  effort : effort_ok s.llm ≡ true
  proxy : proxy_ok s.llm ≡ true
  rates : rates_ok s.llm ≡ true
  prices : prices_ok floats s.llm ≡ true
  url : Url
  parsed : or_url (env.parse_url s.llm.base_url) ≡ ok url
  http : url_ok url ≡ true

validate-Passed :
    (floats : Floats) (env : Environment) (s : Settings floats.F)
    → validate floats env s ≡ ok tt
    → Passed floats env s
unfolding validate
validate-Passed floats env s h =
    let (a, h1) = ensure->>=-ok _ _ _ h in
    let (b, h2) = ensure->>=-ok _ _ _ h1 in
    let (c, h3) = ensure->>=-ok _ _ _ h2 in
    let (d, h4) = ensure->>=-ok _ _ _ h3 in
    let (e, h5) = ensure->>=-ok _ _ _ h4 in
    let (f, h6) = ensure->>=-ok _ _ _ h5 in
    let (g, h7) = ensure->>=-ok _ _ _ h6 in
    let (i, h8) = ensure->>=-ok _ _ _ h7 in
    let (j, h9) = ensure->>=-ok _ _ _ h8 in
    let (k, h10) = ensure->>=-ok _ _ _ h9 in
    let (l, h11) = ensure->>=-ok _ _ _ h10 in
    let (m, h12) = ensure->>=-ok _ _ _ h11 in
    let (n, h13) = ensure->>=-ok _ _ _ h12 in
    let (o, h14) = ensure->>=-ok _ _ _ h13 in
    let (p, h15) = ensure->>=-ok _ _ _ h14 in
    let (q, r, h16) = >>=-eq-ok (or_url (env.parse_url s.llm.base_url)) _ h15 in
    record {
      roots = a;
      retention = b;
      name = c;
      database = d;
      concurrency = e;
      file_size = f;
      limits = g;
      room = i;
      token_mode = j;
      output_parameter = k;
      reasoning = l;
      effort = m;
      proxy = n;
      rates = o;
      prices = p;
      url = q;
      parsed = r;
      http = ensure-ok (url_ok q) url_not_http h16;
    }

-- Settings that are accepted let requests through: while no margin is added, the gate refuses none
-- that is estimated at 513 tokens or fewer.
pub validate-check :
    (floats : Floats) (env : Environment) (s : Settings floats.F) (input : ℕ)
    → validate floats env s ≡ ok tt
    → input ≤ 513
    → (b : Budget) × (check s.llm 0 input ≡ ok b) × (b.input ≡ input)
validate-check floats env s input h small =
    let p = validate-Passed floats env s h in check-ok s.llm p.limits p.room input small
