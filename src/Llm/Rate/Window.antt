-- ===== src/Llm/Rate/Window.antt =====
-- No sixty seconds hold more than the limits allow (`rate_limit` of backend/src/llm.rs).
use doc_craft_agent.Prelude.{
  ℕ, ◌+◌, ◌-◌, ◌≤◌, ◌<◌, ◌≡◌, refl, ap, sym, ◌∙◌, Bool, true, ◌&&◌, List, [], ◌∷◌, ◌++◌, arith, leb,
  ltb, if◌then◌else◌, Bool-cases, inl, inr, length, All,
}
use doc_craft_agent.Prelude.Words.{saturating_add, u32_max, u64_max}
use mathlib.Core.List.{append_assoc, append-nil}
use doc_craft_agent.Llm.Rate.{
  RateRound, Queue, minute, pop_old, tokens_of, admit_to, admit, admitted,
}

-- whether a time stands in the sixty seconds from `w` on
abbrev holds : ℕ → ℕ → Bool
holds w t = leb w t && ltb t (w + minute)

-- the requests of these sixty seconds, and their tokens
abbrev pub requests_in : ℕ → List (ℕ × ℕ) → ℕ
requests_in w [] = 0
requests_in w ((t, n) ∷ log) = (if holds w t then 1 else 0) + requests_in w log

abbrev pub tokens_in : ℕ → List (ℕ × ℕ) → ℕ
tokens_in w [] = 0
tokens_in w ((t, n) ∷ log) = (if holds w t then n else 0) + tokens_in w log

-- times that never go back
abbrev pub Ascending : ℕ → List RateRound → Type 0
Ascending last [] = Unit
Ascending last (r ∷ rounds) = (last ≤ r.now) × Ascending r.now rounds

-- limits that no round passes
abbrev pub AtMost : ℕ → ℕ → List RateRound → Type 0
AtMost rpm tpm rounds = All (λ (r : RateRound). (r.rpm ≤ rpm) × (r.tpm ≤ tpm)) rounds

requests_in-append :
    (w : ℕ) (a b : List (ℕ × ℕ)) → requests_in w (a ++ b) ≡ requests_in w a + requests_in w b
requests_in-append w [] b = omega arith
requests_in-append w ((t, n) ∷ a) b = omega (arith, requests_in-append w a b)

tokens_in-append :
    (w : ℕ) (a b : List (ℕ × ℕ)) → tokens_in w (a ++ b) ≡ tokens_in w a + tokens_in w b
tokens_in-append w [] b = omega arith
tokens_in-append w ((t, n) ∷ a) b = omega (arith, tokens_in-append w a b)

tokens_of-append : (a b : Queue) → tokens_of (a ++ b) ≡ tokens_of a + tokens_of b
unfolding tokens_of
tokens_of-append [] b = omega arith
tokens_of-append ((t, n) ∷ a) b = omega (arith, tokens_of-append a b)

requests_in-length : (w : ℕ) (log : List (ℕ × ℕ)) → requests_in w log ≤ length log
requests_in-length w [] = omega arith
requests_in-length w ((t, n) ∷ log) = ground (arith, requests_in-length w log)

tokens_in-tokens_of : (w : ℕ) (log : List (ℕ × ℕ)) → tokens_in w log ≤ tokens_of log
unfolding tokens_of
tokens_in-tokens_of w [] = omega arith
tokens_in-tokens_of w ((t, n) ∷ log) = ground (arith, tokens_in-tokens_of w log)

abbrev Old : ℕ → List (ℕ × ℕ) → Type 0
Old now log = All (λ (e : ℕ × ℕ). e.0 + minute ≤ now) log

-- Of the sixty seconds that hold the present, nothing is old.
Old-requests_in :
    (w now : ℕ) (log : List (ℕ × ℕ)) → now < w + minute → Old now log → requests_in w log ≡ 0
Old-requests_in w now [] h k = refl
Old-requests_in w now ((t, n) ∷ log) h (k, l) = ground (arith, Old-requests_in w now log h l)

Old-tokens_in :
    (w now : ℕ) (log : List (ℕ × ℕ)) → now < w + minute → Old now log → tokens_in w log ≡ 0
Old-tokens_in w now [] h k = refl
Old-tokens_in w now ((t, n) ∷ log) h (k, l) = ground (arith, Old-tokens_in w now log h l)

Old-append : (now : ℕ) (a b : List (ℕ × ℕ)) → Old now a → Old now b → Old now (a ++ b)
Old-append now [] b h k = k
Old-append now (e ∷ a) b (h, i) k = (h, Old-append now a b i k)

Old-later : (last now : ℕ) (log : List (ℕ × ℕ)) → last ≤ now → Old last log → Old now log
Old-later last now [] h k = tt
Old-later last now (e ∷ log) h (k, l) = (omega arith, Old-later last now log h l)

-- What is popped is old.
pop_old-Old : (now : ℕ) (q : Queue) → (old : Queue) × (old ++ pop_old now q ≡ q) × Old now old
unfolding pop_old
pop_old-Old now [] = ([], refl, tt)
pop_old-Old now ((t, n) ∷ q) = elim (Bool-cases (leb minute (now - t))) [
  | inl old ↦
      let (front, e, k) = pop_old-Old now q in
      rw old ((t, n) ∷ front, ap (λ r. (t, n) ∷ r) e, (ground arith, k))
  | inr recent ↦ rw recent ([], refl, tt)
]

abbrev has_room : ℕ → ℕ → ℕ → Queue → Bool
has_room rpm tpm tokens q = ltb (length q) rpm && leb (saturating_add (tokens_of q) tokens) tpm

module _ (rpm tpm : ℕ) where
  abbrev Limited : ℕ → List (ℕ × ℕ) → Type 0
  Limited w log = (requests_in w log ≤ rpm) × (tokens_in w log ≤ tpm)

  -- A request that is let through keeps the limits, behind what is old.
  Limited-admitted :
      (w now tokens own_rpm own_tpm : ℕ) (old q : Queue)
      → tpm < u64_max
      → own_rpm ≤ rpm
      → own_tpm ≤ tpm
      → Old now old
      → Limited w (old ++ q)
      → has_room own_rpm own_tpm tokens q ≡ true
      → Limited w ((old ++ q) ++ ((now, tokens) ∷ []))
  Limited-admitted w now tokens own_rpm own_tpm old q small below_rpm below_tpm h k room =
      elim (Bool-cases (holds w now)) [
        | inl inside ↦ (
          ground (
            arith,
            requests_in-append w (old ++ q) ((now, tokens) ∷ []),
            requests_in-append w old q,
            Old-requests_in w now old (ground arith) h,
            requests_in-length w q,
          ),
          ground (
            arith,
            tokens_in-append w (old ++ q) ((now, tokens) ∷ []),
            tokens_in-append w old q,
            Old-tokens_in w now old (ground arith) h,
            tokens_in-tokens_of w q,
          ),
        )
        | inr outside ↦ (
          ground (arith, requests_in-append w (old ++ q) ((now, tokens) ∷ [])),
          ground (arith, tokens_in-append w (old ++ q) ((now, tokens) ∷ [])),
        )
      ]

  Limited-admitted_from :
      (w last : ℕ) (rounds : List RateRound) (old q : Queue)
      → tpm < u64_max
      → AtMost rpm tpm rounds
      → Ascending last rounds
      → Old last old
      → Limited w (old ++ q)
      → Limited w ((old ++ q) ++ admitted rounds q)
  unfolding admitted admit admit_to
  Limited-admitted_from w last [] old q small m h k l = rw (append-nil (old ++ q)) l
  Limited-admitted_from w last (r ∷ rounds) old q small ((a, b), m) (h, i) k l =
      let now = r.now in
      let tokens = r.tokens in
      let left = pop_old now q in
      let (front, e, aged) = pop_old-Old now q in
      let whole : (old ++ front) ++ left ≡ old ++ q =
        append_assoc old front left ∙ ap (λ r. old ++ r) e in
      let aged' = Old-append now old front (Old-later last now old h k) aged in
      let l' : Limited w ((old ++ front) ++ left) = rw whole l in
      elim (Bool-cases (has_room r.rpm r.tpm tokens left)) [
        | inl room ↦
            let entry : Queue = (now, tokens) ∷ [] in
            let joined : (old ++ front) ++ (left ++ entry) ≡ (old ++ q) ++ entry =
              sym (append_assoc (old ++ front) left entry) ∙ ap (λ r. r ++ entry) whole in
            let within : Limited w ((old ++ q) ++ entry) = rw⁻¹ whole (
              Limited-admitted w now tokens r.rpm r.tpm (old ++ front) left small a b aged' l'
                room) in
            let later =
              Limited-admitted_from w now rounds (old ++ front) (left ++ entry) small m i aged'
                (rw joined within) in
            let rest = admitted rounds (left ++ entry) in
            let all_of : ((old ++ front) ++ (left ++ entry)) ++ rest
                ≡ (old ++ q) ++ ((now, tokens) ∷ rest) =
              ap (λ r. r ++ rest) joined ∙ append_assoc (old ++ q) entry rest in
            rw room (rw⁻¹ all_of later)
        | inr full ↦
            let later = Limited-admitted_from w now rounds (old ++ front) left small m i aged' l' in
            rw full (rw whole at later)
      ]

  -- Where the rounds of all tasks come in the order of time, and none has limits above `rpm` and
  -- `tpm`, any sixty seconds hold at most `rpm` of the requests that the limiter lets through, and at
  -- most `tpm` of their tokens; a request counts at the time of its round.
  pub admitted_window :
      (w : ℕ) (rounds : List RateRound)
      → tpm ≤ u32_max
      → AtMost rpm tpm rounds
      → Ascending 0 rounds
      → (requests_in w (admitted rounds []) ≤ rpm) × (tokens_in w (admitted rounds []) ≤ tpm)
  admitted_window w rounds small m h =
      Limited-admitted_from w 0 rounds [] [] (omega arith) m h tt (omega arith, omega arith)
