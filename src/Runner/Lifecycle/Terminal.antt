-- ===== src/Runner/Lifecycle/Terminal.antt =====
-- The terminal journal of a run in backend/src/runner.rs: what is replayed after a failed write.
use doc_craft_agent.Prelude.{
  Bool, true, false, not, ◌&&◌, Option, none, some, [], ◌∷◌, ◌≡◌, ◌⊎◌, inl, inr, refl, sym, ◌∙◌, ok,
  Text, text_eq, text_eq_refl, Dict, find, put, remove, update, changed, find-remove, find-update,
  arith, Bool-cases, if◌then◌else◌, ap,
}
use doc_craft_agent.Runner.Lifecycle.{
  Control, Row, Ending, System, File, valid, invalid, Failure, Writes, end_run, finish, ending,
  end_row, is_completed, replay_one, replay_files, replay_terminal, cancelled_by, request_cancel,
  cancel_ending, cancelling,
}

-- `b` is the row, or what an ending made of it.
abbrev Keeps : Option Row → Option Row → Type 0
Keeps a b = (row : Row) → a ≡ some row → is_completed row.status ≡ true → b ≡ some row

replay_one-Keeps :
    (id j : Text) (file : File) (s : System)
    → Keeps (find id s.rows) (find id (replay_one j file s).rows)
unfolding replay_one
replay_one-Keeps id j invalid s row h k = h
replay_one-Keeps id j (valid e) s row h k =
    find-update id j (end_row e) s.rows ∙ rw h (ground arith)

-- the same over the files that are left
replay_files-Keeps :
    (stored : Text → Bool) (files : Dict File) (id : Text) (s : System)
    → Keeps (find id s.rows) (find id (replay_files stored files s).0.rows)
unfolding replay_files
replay_files-Keeps stored [] id s row h k = h
replay_files-Keeps stored ((j, invalid) ∷ files) id s row h k = ground (
  arith,
  replay_files-Keeps stored files id s row h k,
  replay_files-Keeps stored files id (replay_one j invalid s) row
      (replay_one-Keeps id j invalid s row h k) k,
)
replay_files-Keeps stored ((j, valid e) ∷ files) id s row h k = ground (
  arith,
  h,
  replay_files-Keeps stored files id s row h k,
  replay_files-Keeps stored files id (replay_one j (valid e) s) row
      (replay_one-Keeps id j (valid e) s row h k) k,
)

-- the database is up
abbrev pub up : Text → Bool
up id = true

replay_one_other :
    (id j : Text) (file : File) (s : System)
    → text_eq id j ≡ false
    → find id (replay_one j file s).rows ≡ find id s.rows
unfolding replay_one
replay_one_other id j invalid s h = refl
replay_one_other id j (valid e) s h = find-update id j (end_row e) s.rows ∙ rw h refl

replay_files_other :
    (files : Dict File) (id : Text) (s : System)
    → find id files ≡ none
    → find id (replay_files up files s).0.rows ≡ find id s.rows
unfolding replay_files find
replay_files_other [] id s h = refl
replay_files_other ((j, invalid) ∷ files) id s h = ground (
  arith,
  replay_files_other files id s,
  replay_files_other files id (replay_one j invalid s),
  replay_one_other id j invalid s,
)
replay_files_other ((j, valid e) ∷ files) id s h = ground (
  arith,
  replay_files_other files id s,
  replay_files_other files id (replay_one j (valid e) s),
  replay_one_other id j (valid e) s,
)

-- The journal holds the ending of the run once, or nothing of the run.
abbrev Journaled : Text → Ending → Dict File → Type 0
Journaled id e files = (rest : Dict File) × (files ≡ (id, valid e) ∷ rest) × (find id rest ≡ none)

replay_head :
    (id : Text) (e : Ending) (files rest : Dict File) (s : System)
    → find id s.controls ≡ none
    → files ≡ (id, valid e) ∷ rest
    → find id rest ≡ none
    → find id (replay_files up files s).0.rows ≡ changed (end_row e) (find id s.rows)
unfolding replay_files replay_one
replay_head id e files rest s gone shape once = rw shape (
    ground (
      arith,
      replay_files_other rest id (replay_one id (valid e) s) once,
      find-update id id (end_row e) s.rows,
      text_eq_refl id,
    ))

replay-Journaled :
    (id : Text) (e : Ending) (s : System)
    → find id s.controls ≡ none
    → Journaled id e s.terminal
    → find id (replay_terminal up s).0.rows ≡ changed (end_row e) (find id s.rows)
unfolding replay_terminal
replay-Journaled id e s gone (rest, shape, once) =
    replay_head id e s.terminal rest s gone shape once

Journaled-put :
    (id : Text) (e : Ending) (files : Dict File) → Journaled id e (put id (valid e) files)
unfolding put
Journaled-put id e files =
    (remove id files, refl, find-remove id id files ∙ rw (text_eq_refl id) refl)

end_row_twice : (e : Ending) (row : Row) → end_row e (end_row e row) ≡ end_row e row
end_row_twice e row = ground arith

-- the ending that the last error of the run means
abbrev pub its_ending : Text → Failure → System → Ending
its_ending id failure s =
    ending (cancelled_by (find id s.controls) && not s.is_shutdown) s.is_shutdown failure

finish_gone :
    (id : Text) (failure : Failure) (io : Writes) (s : System)
    → find id (finish id (some failure) io s).controls ≡ none
unfolding finish end_run
finish_gone id failure io s = find-remove id id s.controls ∙ rw (text_eq_refl id) refl

-- the last writes of a worker, without the database and with it
abbrev pub lost : Bool → Writes
lost removed = record { journaled = true; stored = false; removed = removed }

abbrev pub made : Bool → Writes
made removed = record { journaled = true; stored = true; removed = removed }

-- A run whose last write to the database failed, but not the one to its journal, has after a
-- replay the row that the write would have left.
pub replay-finish :
    (id : Text) (failure : Failure) (removed : Bool) (s : System)
    → find id (replay_terminal up (finish id (some failure) (lost removed) s)).0.rows
      ≡ find id (finish id (some failure) (made removed) s).rows
unfolding finish end_run
replay-finish id failure removed s =
    replay-Journaled id (its_ending id failure s) (finish id (some failure) (lost removed) s)
      (finish_gone id failure (lost removed) s)
      (Journaled-put id (its_ending id failure s) s.terminal)
    ∙ sym (find-update id id (end_row (its_ending id failure s)) s.rows ∙ rw (text_eq_refl id) refl)

-- the system in which a first cancellation is accepted
abbrev accepted : Text → System → System
accepted id s = record s {
  controls = update id cancelling s.controls;
  terminal = put id (valid cancel_ending) s.terminal;
}

request_cancel_first :
    (id : Text) (written : Bool) (s : System) (control : Control)
    → find id s.controls ≡ some control
    → control.is_cancelled ≡ false
    → (request_cancel id written s).1 ≡ ok true
    → (request_cancel id written s).0 ≡ accepted id s
unfolding request_cancel
request_cancel_first id written s control active first h = ground arith

accepted_ending :
    (id : Text) (failure : Failure) (s : System) (control : Control)
    → find id s.controls ≡ some control
    → s.is_shutdown ≡ false
    → its_ending id failure (accepted id s) ≡ cancel_ending
unfolding ending
accepted_ending id failure s control active running =
    rw (find-update id id cancelling s.controls, text_eq_refl id, active, running) refl

changed_twice :
    (e : Ending) (row : Option Row)
    → changed (end_row e) (changed (end_row e) row) ≡ changed (end_row e) row
changed_twice e none = refl
changed_twice e (some row) = ap some (end_row_twice e row)

journal_written :
    (id : Text) (d e : Ending) (journaled : Bool) (files : Dict File)
    → d ≡ e
    → Journaled id e files
    → Journaled id e (if journaled then put id (valid d) files else files)
journal_written id d e true files means kept = rw means (Journaled-put id e files)
journal_written id d e false files means kept = kept

journal_removed :
    (id : Text) (e : Ending) (stored removed : Bool) (files : Dict File)
    → Journaled id e files
    → let left = if stored && removed then remove id files else files in
      ((stored ≡ true) × (find id left ≡ none)) ⊎ Journaled id e left
journal_removed id e true true files kept =
    inl (refl, find-remove id id files ∙ rw (text_eq_refl id) refl)
journal_removed id e true false files kept = inr kept
journal_removed id e false removed files kept = inr kept

module _ (id : Text) (failure : Failure) (s : System) (e : Ending)
    (means : its_ending id failure s ≡ e) (kept : Journaled id e s.terminal) where
  finish_row :
      (io : Writes)
      → find id (finish id (some failure) io s).rows
        ≡ (if io.stored then changed (end_row e) (find id s.rows) else find id s.rows)
  unfolding finish end_run
  finish_row io = elim (Bool-cases io.stored) [
    | inl stored ↦
        rw (stored, means) (find-update id id (end_row e) s.rows ∙ rw (text_eq_refl id) refl)
    | inr down ↦ rw down refl
  ]

  finish_journal :
      (io : Writes)
      → ((io.stored ≡ true) × (find id (finish id (some failure) io s).terminal ≡ none))
        ⊎ Journaled id e (finish id (some failure) io s).terminal
  unfolding finish end_run
  finish_journal io =
      journal_removed id e io.stored io.removed _
        (journal_written id (its_ending id failure s) e io.journaled s.terminal means kept)

  -- Whatever the last writes of the worker, the row is ended once the journal is replayed.
  finish-Journaled :
      (io : Writes)
      → find id (replay_terminal up (finish id (some failure) io s)).0.rows
        ≡ changed (end_row e) (find id s.rows)
  unfolding replay_terminal
  finish-Journaled io = elim (finish_journal io) [
    | inl (stored, none_left) ↦
        replay_files_other (finish id (some failure) io s).terminal id
          (finish id (some failure) io s) none_left
        ∙ finish_row io
        ∙ rw stored refl
    | inr kept_again ↦
        replay-Journaled id e (finish id (some failure) io s) (finish_gone id failure io s)
          kept_again
        ∙ ap (changed (end_row e)) (finish_row io)
        ∙ elim (Bool-cases io.stored) [
          | inl stored ↦ rw stored (changed_twice e (find id s.rows))
          | inr down ↦ rw down refl
        ]
  ]

-- A run whose cancellation was accepted, and that fails before the service is shut down, is
-- cancelled once the journal is replayed, unless it was completed: whichever of the last writes
-- of its worker are lost.
pub replay-request_cancel :
    (id : Text) (written : Bool) (failure : Failure) (io : Writes) (s : System) (control : Control)
    → find id s.controls ≡ some control
    → control.is_cancelled ≡ false
    → s.is_shutdown ≡ false
    → (request_cancel id written s).1 ≡ ok true
    → find id
        (replay_terminal up (finish id (some failure) io (request_cancel id written s).0)).0.rows
      ≡ changed (end_row cancel_ending) (find id s.rows)
replay-request_cancel id written failure io s control active first running h =
    rw (request_cancel_first id written s control active first h) (
      finish-Journaled id failure (accepted id s) cancel_ending
        (accepted_ending id failure s control active running)
        (Journaled-put id cancel_ending s.terminal) io)

-- A replay leaves a completed run as it is, whatever the journals hold and the database answers.
pub replay_terminal_completed :
    (stored : Text → Bool) (id : Text) (s : System) (row : Row)
    → find id s.rows ≡ some row
    → is_completed row.status ≡ true
    → find id (replay_terminal stored s).0.rows ≡ some row
unfolding replay_terminal
replay_terminal_completed stored id s row h k = replay_files-Keeps stored s.terminal id s row h k
