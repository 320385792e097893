-- ===== src/Api/Resume/Kept.antt =====
-- What a run that is resumed keeps (`resume_run` of backend/src/api.rs).
use doc_craft_agent.Prelude.{
  ℕ, ◌≡◌, refl, ap, sym, ◌∙◌, Bool, true, false, not, ◌&&◌, ◌||◌, Option, none, some, Result, ok,
  err, ◌>>◌, ensure->>=-ok, >>=-eq-ok, ok_injective, arith, leb, if◌then◌else◌, Text, contains,
  Bool-cases, inl, inr,
}
use doc_craft_agent.Prelude.Floats.{Floats}
use doc_craft_agent.Model.{RunSnapshot, TaskConfig, Settings}
use doc_craft_agent.Config.{Environment, validate}
use doc_craft_agent.Source.Tasks
use doc_craft_agent.Source.Tasks.{Files, validate_task}
use doc_craft_agent.Api.Resume.{
  ResumeOptions, Run, Answers, Error, has_warnings, is_partial_run, stopped, own_document,
  or_document, check_run, credentials, renewed, renew_limits, with_limits, reclaim, reclaim_checked,
  with_llm, finish_resume, resume_from, resume_run, lift_task, lift_settings,
}

-- a limit, from the saved task where that is asked for
abbrev pub limit_of : {F : Type 0} → Bool → Option (TaskConfig F) → (TaskConfig F → ℕ) → ℕ → ℕ
limit_of false saved f old = old
limit_of true none f old = old
limit_of true (some t) f old = f t

module _ {F : Type 0} where
  own_document-task : (r : Run F) → (own_document r).task ≡ r.snapshot.task
  unfolding own_document
  own_document-task r = elim (Bool-cases (has_warnings r)) [
    | inl warned ↦ rw warned (or_document-task r.document r.snapshot)
    | inr clean ↦ rw clean refl
  ]
    where
      or_document-task : (d : Option Text) (s : RunSnapshot F) → (or_document d s).task ≡ s.task
      or_document-task none s = refl
      or_document-task (some h) s = refl

  own_document-settings : (r : Run F) → (own_document r).settings ≡ r.snapshot.settings
  unfolding own_document
  own_document-settings r = elim (Bool-cases (has_warnings r)) [
    | inl warned ↦ rw warned (or_document-settings r.document r.snapshot)
    | inr clean ↦ rw clean refl
  ]
    where
      or_document-settings :
          (d : Option Text) (s : RunSnapshot F) → (or_document d s).settings ≡ s.settings
      or_document-settings none s = refl
      or_document-settings (some h) s = refl

  -- a snapshot with other limits
  abbrev limited : Bool → Bool → Option (TaskConfig F) → RunSnapshot F → RunSnapshot F
  limited token_limit review_limit saved s = record s {
    task = record s.task {
      max_tokens = limit_of token_limit saved (λ t. t.max_tokens) s.task.max_tokens;
      max_iterations = limit_of review_limit saved (λ t. t.max_iterations) s.task.max_iterations;
    };
  }

  renew_limits-ok :
      (t v : Bool) (saved : Option (TaskConfig F)) (s : RunSnapshot F) {out : RunSnapshot F}
      → renew_limits t v saved s ≡ ok out
      → out ≡ limited t v saved s
  unfolding renew_limits
  renew_limits-ok false false saved s h = sym (ok_injective h)
  renew_limits-ok true v none s h = cc
  renew_limits-ok false true none s h = cc
  renew_limits-ok true true (some c) s h = sym (ok_injective h)
  renew_limits-ok true false (some c) s h = sym (ok_injective h)
  renew_limits-ok false true (some c) s h = sym (ok_injective h)

  reclaim_checked-ok :
      (committed : Bool) (s : RunSnapshot F) (r : Run F) (checked : Result Error (Unit {0}))
      {out : RunSnapshot F}
      → (reclaim_checked committed s r checked).1 ≡ ok out
      → out ≡ s
  unfolding reclaim_checked
  reclaim_checked-ok committed s r (err e) h = cc
  reclaim_checked-ok committed s r (ok u) h = then_ok (reclaim committed r).1 h
    where
      then_ok : (m : Result Error (Unit {0})) {out : RunSnapshot F} → (m >> ok s) ≡ ok out → out ≡ s
      then_ok (ok u) h = sym (ok_injective h)
      then_ok (err e) h = cc

  -- the settings that a run goes on with
  abbrev pub settings_of : Bool → Settings F → Settings F → Settings F
  settings_of current_llm current old = record old {
    llm = if current_llm then current.llm else record old.llm {
      api_key = current.llm.api_key;
      proxy_password = current.llm.proxy_password;
    };
  }

module _ (floats : Floats) (env : Environment) (files : Files) where
  open floats use {F}

  with_llm-ok :
      (io : Answers) (options : ResumeOptions) (current : Settings F) (s : RunSnapshot F)
      (r : Run F) {out : RunSnapshot F}
      → (with_llm floats env files io options current s r).1 ≡ ok out
      → out ≡ record s { settings = settings_of options.current_llm current s.settings }
  unfolding with_llm renewed credentials
  with_llm-ok io options current s r h = elim (Bool-cases options.current_llm) [
    | inl fresh ↦ rw fresh (
        reclaim_checked-ok io.committed _ r
          (lift_settings (validate floats env (renewed current s).settings)) (rw fresh at h))
    | inr old ↦ rw old (sym (ok_injective (rw old at h)))
  ]

  -- the guards behind the settings
  record Finished (options : ResumeOptions) (r : Run F) (s out : RunSnapshot F) : Type 0 where
    same : out ≡ limited options.current_token_limit options.current_review_limit r.task s
    reviewed :
        (has_warnings r
          && not (is_partial_run r)
          && (not options.current_review_limit
              || leb out.task.max_iterations r.snapshot.task.max_iterations))
        ≡ false
    valid : validate_task floats files out.task out.settings ≡ ok tt

  lift_task-ok : (m : Result Tasks.Error (Unit {0})) {u : Unit {0}} → lift_task m ≡ ok u → m ≡ ok tt
  lift_task-ok (ok u) h = refl
  lift_task-ok (err e) h = cc

  not-true : (b : Bool) → not b ≡ true → b ≡ false
  not-true b h = ground arith

  finish_resume-Finished :
      (io : Answers) (options : ResumeOptions) (r : Run F) (s : RunSnapshot F) {out : RunSnapshot F}
      → finish_resume floats env files io options r s ≡ ok out
      → Finished options r s out
  unfolding finish_resume with_limits
  finish_resume-Finished io options r s {out} h =
      let (found, e, h1) =
        >>=-eq-ok (renew_limits options.current_token_limit options.current_review_limit r.task s) _
          h in
      let (review, h2) =
        ensure->>=-ok
          (not (
            has_warnings r
            && not (is_partial_run r)
            && (not options.current_review_limit
                || leb found.task.max_iterations r.snapshot.task.max_iterations)))
          _ _ h1 in
      let (u, f, h3) =
        >>=-eq-ok (lift_task (validate_task floats files found.task found.settings)) _ h2 in
      let (_, h4) = ensure->>=-ok io.queued _ _ h3 in
      let same : found ≡ out = ok_injective h4 in
      rw⁻¹ same (record {
        same = renew_limits-ok options.current_token_limit options.current_review_limit r.task s e;
        reviewed = not-true _ review;
        valid = lift_task-ok _ f;
      })

  -- what a run that goes on has of the run that stopped
  abbrev pub Kept : ResumeOptions → Settings F → Run F → RunSnapshot F → Type 0
  Kept options current r out =
      ((has_warnings r || contains stopped r.status) ≡ true)
      × (out.task ≡ record r.snapshot.task {
        max_tokens =
            limit_of options.current_token_limit r.task (λ t. t.max_tokens)
              r.snapshot.task.max_tokens;
        max_iterations =
            limit_of options.current_review_limit r.task (λ t. t.max_iterations)
              r.snapshot.task.max_iterations;
      })
      × (out.settings ≡ settings_of options.current_llm current r.snapshot.settings)
      × ((has_warnings r
            && not (is_partial_run r)
            && (not options.current_review_limit
                || leb out.task.max_iterations r.snapshot.task.max_iterations))
          ≡ false)
      × (validate_task floats files out.task out.settings ≡ ok tt)

  Kept-from :
      (options : ResumeOptions) (current : Settings F) (r : Run F) (a b c : RunSnapshot F)
      → a.task ≡ r.snapshot.task
      → a.settings ≡ r.snapshot.settings
      → b ≡ record a { settings = settings_of options.current_llm current a.settings }
      → Finished options r b c
      → (has_warnings r || contains stopped r.status) ≡ true
      → Kept options current r c
  Kept-from options current r a b c t u e f stopped_run = (
    stopped_run,
    ap (λ (s : RunSnapshot F). s.task) f.same
        ∙ ap
            (λ (s : RunSnapshot F).
              (limited options.current_token_limit options.current_review_limit r.task s).task)
            e
        ∙ ap
            (λ (k : TaskConfig F). record k {
              max_tokens =
                  limit_of options.current_token_limit r.task (λ t. t.max_tokens) k.max_tokens;
              max_iterations =
                  limit_of options.current_review_limit r.task (λ t. t.max_iterations)
                    k.max_iterations;
            })
            t,
    ap (λ (s : RunSnapshot F). s.settings) f.same
        ∙ ap (λ (s : RunSnapshot F). s.settings) e
        ∙ ap (λ k. settings_of options.current_llm current k) u,
    f.reviewed,
    f.valid,
  )

  resume_from-Kept :
      (io : Answers) (options : ResumeOptions) (current : Settings F) (r : Run F)
      (m : Result Error (RunSnapshot F)) {out : RunSnapshot F}
      → ((s : RunSnapshot F)
          → m ≡ ok s
          → ((has_warnings r || contains stopped r.status) ≡ true) × (own_document r ≡ s))
      → (resume_from floats env files io options current r m).1 ≡ ok out
      → Kept options current r out
  unfolding resume_from
  resume_from-Kept io options current r (err e) k h = cc
  resume_from-Kept io options current r (ok s) {out} k h =
      let (stopped_run, own) = k s refl in
      let (renewed_one, e, h1) =
        >>=-eq-ok (with_llm floats env files io options current s r).1
          (finish_resume floats env files io options r) h in
      Kept-from options current r s renewed_one out
        (ap (λ (x : RunSnapshot F). x.task) (sym own) ∙ own_document-task r)
        (ap (λ (x : RunSnapshot F). x.settings) (sym own) ∙ own_document-settings r)
        (with_llm-ok io options current s r e) (finish_resume-Finished io options r renewed_one h1)
        stopped_run

  -- A run that is resumed was stopped, or completed with warnings. Its task is the one it had, but for
  -- the limits on tokens and reviews, which change only where that is asked for; its settings are
  -- the ones it had, but for the credentials, or for all of the model where that is asked for. A
  -- reviewed run goes on only with a larger limit on reviews, and what is queued passes the check of
  -- tasks.
  pub resume_run-Kept :
      (io : Answers) (options : ResumeOptions) (current : Settings F) (r : Run F)
      {out : RunSnapshot F}
      → (resume_run floats env files io options current r).1 ≡ ok out
      → Kept options current r out
  unfolding resume_run check_run
  resume_run-Kept io options current r h =
      resume_from-Kept io options current r (check_run io r)
        (λ s e.
          let (_, e1) = ensure->>=-ok (not io.is_busy) _ _ e in
          let (_, e2) = ensure->>=-ok io.connected _ _ e1 in
          let (stopped_run, e3) =
            ensure->>=-ok (has_warnings r || contains stopped r.status) _ _ e2 in
          let (_, e4) = ensure->>=-ok io.readable _ _ e3 in (stopped_run, ok_injective e4))
        h
