-- ===== src/Runner/Lifecycle/Registry.antt =====
-- The registry of active runs, `AppState.controls`, over every sequence of steps of the runs.
use doc_craft_agent.Prelude.{
  ◌≤◌, Bool, true, false, sym, ◌∙◌, Option, none, some, [], ◌∷◌, ◌≡◌, ◌⊎◌, inl, inr, refl, Result,
  ok, err, length, Text, any, Dict, find, put, remove, update, arith,
}
use doc_craft_agent.Runner.Lifecycle.{
  Control, System, Failure, Writes, targets_key, register, enqueue, end_run, finish, request_cancel,
  cancelling, publishing, stop_all, replay_one, replay_files, replay_terminal, commit_gate,
  store_queued, after_register, Error, File, cancelled_by, invalid, valid,
}
use doc_craft_agent.Runner.Lifecycle.Held.{
  Held, remove_absent, Held-same, Held-flag, Held-remove, Held-update, Registered-down,
  Held-cancel_each,
}

abbrev pub Sound : System → Type 0
Sound s = Held s.is_shutdown s.controls

abbrev Same : System → System → Type 0
Same s t = t.controls ≡ s.controls

module _ (output_key : Text → Text) where
  abbrev fresh : Text → Control
  fresh target = record { is_cancelled = false; target = output_key target; published = false }

  -- A registration adds one run under a new id and a new output, of at most 64, or changes no run.
  register_outcome :
      (existing : Bool) (id target : Text) (removed : Bool) (s : System)
      → Same s (register output_key existing id target removed s).0
        ⊎ ((find id s.controls ≡ none)
            × (any (targets_key (output_key target)) s.controls ≡ false)
            × (length s.controls ≤ 63)
            × ((register output_key existing id target removed s).0.controls
                ≡ put id (fresh target) s.controls))
  unfolding register
  register_outcome existing id target removed s = ground arith

  register_flag :
      (existing : Bool) (id target : Text) (removed : Bool) (s : System)
      → (register output_key existing id target removed s).0.is_shutdown ≡ s.is_shutdown
  unfolding register
  register_flag existing id target removed s = ground arith

  register-Held :
      (existing : Bool) (id target : Text) (removed : Bool) (s : System)
      → Sound s
      → Held s.is_shutdown (register output_key existing id target removed s).0.controls
  unfolding put
  register-Held existing id target removed s h =
      elim (register_outcome existing id target removed s) [
        | inl same ↦ Held-same s.is_shutdown s.controls _ same h
        | inr (new, free, room, e) ↦
            rw (e, remove_absent id s.controls new)
              ((new, free, (λ running. refl), h.0), omega arith)
      ]

  after_register_controls :
      (existing : Bool) (id : Text) (stored : Bool) (s : System) (outcome : Result Error (Unit {0}))
      → let after = (after_register output_key existing id stored s outcome).0 in
        ((after.controls ≡ s.controls) ⊎ (after.controls ≡ remove id s.controls))
        × (after.is_shutdown ≡ s.is_shutdown)
  unfolding after_register store_queued
  after_register_controls existing id stored s (err e) = (inl refl, refl)
  after_register_controls existing id stored s (ok done) = ground arith

  enqueue-Sound :
      (existing : Bool) (id target : Text) (removed stored : Bool) (s : System)
      → Sound s
      → Sound (enqueue output_key existing id target removed stored s).0
  unfolding enqueue
  enqueue-Sound existing id target removed stored s h =
      let (t, outcome) = register output_key existing id target removed s in
      let registered = register-Held existing id target removed s h in
      let (controls, flag) = after_register_controls existing id stored t outcome in
      Held-flag s.is_shutdown _ _ (flag ∙ register_flag existing id target removed s)
        (elim controls [
          | inl same ↦ Held-same s.is_shutdown _ _ same registered
          | inr gone ↦ Held-same s.is_shutdown _ _ gone (Held-remove s.is_shutdown id _ registered)
        ])

finish-Sound :
    (id : Text) (outcome : Option Failure) (io : Writes) (s : System)
    → Sound s
    → Sound (finish id outcome io s)
unfolding finish end_run
finish-Sound id none io s h = Held-remove s.is_shutdown id s.controls h
finish-Sound id (some failure) io s h = Held-remove s.is_shutdown id s.controls h

-- A cancellation marks the run, where it is active, not published and not cancelled already.
request_cancel_controls :
    (id : Text) (written : Bool) (s : System)
    → (Same s (request_cancel id written s).0
        ⊎ ((control : Control) × (find id s.controls ≡ some control)
            × (control.published ≡ false)
            × ((request_cancel id written s).0.controls ≡ update id cancelling s.controls)))
      × ((request_cancel id written s).0.is_shutdown ≡ s.is_shutdown)
unfolding request_cancel
request_cancel_controls id written s = ground arith

request_cancel-Sound :
    (id : Text) (written : Bool) (s : System) → Sound s → Sound (request_cancel id written s).0
request_cancel-Sound id written s h =
    let (controls, flag) = request_cancel_controls id written s in
    Held-flag s.is_shutdown _ _ flag (elim controls [
      | inl same ↦ Held-same s.is_shutdown s.controls _ same h
      | inr (control, active, open_gate, e) ↦
          Held-update cancelling s.is_shutdown s.controls _ id (λ c. refl)
            (λ c found running. ground arith) e h
    ])

commit_gate_controls :
    (id : Text) (unchanged written : Bool) (s : System)
    → (Same s (commit_gate id unchanged written s).0
        ⊎ ((cancelled_by (find id s.controls) ≡ false)
            × ((commit_gate id unchanged written s).0.controls ≡ update id publishing s.controls)))
      × ((commit_gate id unchanged written s).0.is_shutdown ≡ s.is_shutdown)
unfolding commit_gate
commit_gate_controls id unchanged written s = ground arith

commit_gate-Sound :
    (id : Text) (unchanged written : Bool) (s : System)
    → Sound s
    → Sound (commit_gate id unchanged written s).0
commit_gate-Sound id unchanged written s h =
    let (controls, flag) = commit_gate_controls id unchanged written s in
    Held-flag s.is_shutdown _ _ flag (elim controls [
      | inl same ↦ Held-same s.is_shutdown s.controls _ same h
      | inr (active, e) ↦
          Held-update publishing s.is_shutdown s.controls _ id (λ c. refl)
            (λ c found running. ground arith) e h
    ])

stop_all-Sound : (s : System) → s.is_shutdown ≡ true → Sound s → Sound (stop_all s)
unfolding stop_all
stop_all-Sound s down h =
    Held-flag true s.is_shutdown _ down
      (Held-cancel_each s.controls (Held-flag s.is_shutdown true s.controls (sym down) h))

replay_files_flag :
    (stored : Text → Bool) (files : Dict File) (s : System)
    → (replay_files stored files s).0.is_shutdown ≡ s.is_shutdown
unfolding replay_files replay_one
replay_files_flag stored [] s = refl
replay_files_flag stored ((id, invalid) ∷ files) s = ground (
  arith,
  replay_files_flag stored files s,
  replay_files_flag stored files (replay_one id invalid s),
)
replay_files_flag stored ((id, valid e) ∷ files) s = ground (
  arith,
  replay_files_flag stored files s,
  replay_files_flag stored files (replay_one id (valid e) s),
)

pub replay_files-controls :
    (stored : Text → Bool) (files : Dict File) (s : System)
    → (replay_files stored files s).0.controls ≡ s.controls
unfolding replay_files replay_one
replay_files-controls stored [] s = refl
replay_files-controls stored ((id, invalid) ∷ files) s = ground (
  arith,
  replay_files-controls stored files s,
  replay_files-controls stored files (replay_one id invalid s),
)
replay_files-controls stored ((id, valid e) ∷ files) s = ground (
  arith,
  replay_files-controls stored files s,
  replay_files-controls stored files (replay_one id (valid e) s),
)

-- One step of the service: any of the operations, whatever disk and database answer.
pub data Step (output_key : Text → Text) : System → System → Type 0 where
  enqueued :
      {s : System} (existing : Bool) (id target : Text) (removed stored : Bool)
      → Step output_key s (enqueue output_key existing id target removed stored s).0
  cancelled :
      {s : System} (id : Text) (written : Bool) → Step output_key s (request_cancel id written s).0
  committed :
      {s : System} (id : Text) (unchanged written : Bool)
      → Step output_key s (commit_gate id unchanged written s).0
  finished :
      {s : System} (id : Text) (outcome : Option Failure) (io : Writes)
      → Step output_key s (finish id outcome io s)
  replayed : {s : System} (stored : Text → Bool) → Step output_key s (replay_terminal stored s).0
  -- `shutdown.cancel()` of backend/src/main.rs, and `stop_all` behind it
  shut_down : {s : System} → Step output_key s (record s { is_shutdown = true })
  stopped : {s : System} → s.is_shutdown ≡ true → Step output_key s (stop_all s)

pub data Steps (output_key : Text → Text) : System → System → Type 0 where
  done : {s : System} → Steps output_key s s
  next : {s t u : System} → Step output_key s t → Steps output_key t u → Steps output_key s u

Step-Sound : {output_key : Text → Text} {s t : System} → Step output_key s t → Sound s → Sound t
unfolding replay_terminal
Step-Sound (enqueued existing id target removed stored) h =
    enqueue-Sound _ existing id target removed stored _ h
Step-Sound (cancelled id written) h = request_cancel-Sound id written _ h
Step-Sound (committed id unchanged written) h = commit_gate-Sound id unchanged written _ h
Step-Sound (finished id outcome io) h = finish-Sound id outcome io _ h
Step-Sound {s = s} (replayed stored) h =
    Held-flag s.is_shutdown _ _ (replay_files_flag stored s.terminal s)
      (Held-same s.is_shutdown s.controls _ (replay_files-controls stored s.terminal s) h)
Step-Sound {s = s} shut_down h = (Registered-down s.is_shutdown s.controls h.0, h.1)
Step-Sound {s = s} (stopped down) h = stop_all-Sound s down h

-- Whatever the steps, the active runs have different ids and different outputs, there are at most
-- 64, and until the service shuts down none is both cancelled and published, if it was so before.
pub Steps-Sound :
    {output_key : Text → Text} {s t : System} → Steps output_key s t → Sound s → Sound t
Steps-Sound done h = h
Steps-Sound (next step steps) h = Steps-Sound steps (Step-Sound step h)
