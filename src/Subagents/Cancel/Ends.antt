-- ===== src/Subagents/Cancel/Ends.antt =====
-- How a task ends that src/assistant/subagents/coordinator.py cancels.
use private_claw.Prelude.{
  ℕ, String, ◌≡◌, Option, ◌≢◌, none, some, true, false, List, [], ◌∷◌, contains, string_eq, ◌∙◌,
  refl, ap, Bool-cases, inl, inr, arith,
}
use private_claw.Store.Task.{
  TaskRecord, Tasks, cancelled, is_terminal_status, get, with_status, copy_task_with_updates,
}
use private_claw.Store.Task.Status.{update_status_lem}
use private_claw.Subagents.Enqueue.{Env}
use private_claw.Subagents.Execute.{discard}
use private_claw.Subagents.Cancel.{
  Worker, get_task, force_terminal, cancel_found, cancel_task, cancel_worker,
}

module _ (env : Env) (id : String) where
  -- nothing, or the task on file, settled
  abbrev pub IsSettled : Option TaskRecord → Tasks → Type 0
  IsSettled none s = Unit
  IsSettled (some t) s = (is_terminal_status t.status ≡ true) × (get env.is_alnum id s ≡ some t)

  force_terminal-IsSettled :
      (now : ℕ) (requested : List String) (s : Tasks) (final : Option TaskRecord)
      → get env.is_alnum id s ≡ final
      → let (t, left, s') = force_terminal env id now requested s final in IsSettled t s'
  unfolding force_terminal
  force_terminal-IsSettled now requested s none h = tt
  force_terminal-IsSettled now requested s (some t) h =
      elim (Bool-cases (is_terminal_status t.status)) [
        | inl e ↦ rw e (e, h)
        | inr e ↦
            let (rewrites, moves) =
              update_status_lem env.is_alnum id cancelled (some "Cancelled by user") none now s in
            let (returned, on_file) = rewrites.present t h in
            rw (e, returned) (ap is_terminal_status (moves t).moved, on_file)
      ]

  get_of_get_task :
      (session_id : Option String) (s : Tasks) (t : TaskRecord)
      → get_task env id session_id s ≡ some t
      → get env.is_alnum id s ≡ some t
  unfolding get_task
  get_of_get_task none s t h = ground arith
  get_of_get_task (some session_id) s t h = ground arith

  cancel_found-IsSettled :
      (worker : Worker) (now : ℕ) (requested : List String) (s : Tasks) (found : Option TaskRecord)
      → ((t : TaskRecord) → found ≡ some t → get env.is_alnum id s ≡ some t)
      → let (t, left, s') = cancel_found env id worker now requested s found in IsSettled t s'
  unfolding cancel_found
  cancel_found-IsSettled worker now requested s none h = tt
  cancel_found-IsSettled worker now requested s (some t) h =
      elim (Bool-cases (is_terminal_status t.status)) [
        | inl e ↦ rw e (e, h t refl)
        | inr e ↦ rw e (
            let (left, s') = cancel_worker id worker requested s in
            force_terminal-IsSettled now left s' (get env.is_alnum id s') refl)
      ]

  -- the tasks once the worker has been cancelled and has ended, if one is in flight
  abbrev pub settled_by : Worker → List String → Tasks → Tasks
  settled_by none requested s = s
  settled_by (some work) requested s = (work (id ∷ requested) s).1

  -- the task that was met after that, CANCELLED
  abbrev pub cancelled_at : ℕ → TaskRecord → TaskRecord
  cancelled_at now task = record task {
    status = cancelled;
    updated_at = now;
    completed_at = some now;
    error = some "Cancelled by user";
  }

  with_status-cancelled :
      (now : ℕ) (task : TaskRecord)
      → with_status cancelled (some "Cancelled by user") none now task ≡ cancelled_at now task
  unfolding with_status copy_task_with_updates
  with_status-cancelled now task = refl

  -- what a cancellation gives and leaves of a task that is not settled when it begins
  abbrev pub IsCancelled :
      Worker → ℕ → List String → Tasks → Option TaskRecord × List String × Tasks → Type 0
  IsCancelled worker now requested s (t, left, s') =
      let met = settled_by worker requested s in
      ((get env.is_alnum id met ≡ none) → (t ≡ none) × (s' ≡ met))
      × ((final : TaskRecord)
          → get env.is_alnum id met ≡ some final
          → (is_terminal_status final.status ≡ true → (t ≡ some final) × (s' ≡ met))
            × (is_terminal_status final.status ≡ false → t ≡ some (cancelled_at now final)))
      × (worker ≢ none → contains left id ≡ false)

  abbrev cancelled_of : ℕ → Option TaskRecord → Option TaskRecord
  cancelled_of now none = none
  cancelled_of now (some task) = some (cancelled_at now task)

  force_terminal_lem :
      (now : ℕ) (left : List String) (met : Tasks) (o : Option TaskRecord)
      → get env.is_alnum id met ≡ o
      → let (t, left', s') = force_terminal env id now left met o in
        (o ≡ none → (t ≡ none) × (s' ≡ met))
        × ((final : TaskRecord)
            → o ≡ some final
            → (is_terminal_status final.status ≡ true → (t ≡ some final) × (s' ≡ met))
              × (is_terminal_status final.status ≡ false → t ≡ some (cancelled_at now final)))
        × (left' ≡ left)
  unfolding force_terminal
  force_terminal_lem now left met none h = ((λ _. (refl, refl)), (λ final e. absurd (cc e)), refl)
  force_terminal_lem now left met (some f) h =
      let returned =
        ((update_status_lem env.is_alnum id cancelled (some "Cancelled by user") none now
            met).0.present
          f h).0 in
      elim (Bool-cases (is_terminal_status f.status)) [
        | inl e ↦ rw e (
          (λ n. absurd (cc n)),
          (λ final same. ((λ _. (same, refl)), (λ still. absurd (cc (same, e, still))))),
          refl,
        )
        | inr e ↦
            rw (e, returned)
              (
                (λ n. absurd (cc n)),
                (λ final same. (
                  (λ closed. absurd (cc (same, e, closed))),
                  (λ _.
                      ap some (with_status-cancelled now f)
                      ∙ ap (λ (o : Option TaskRecord). cancelled_of now o) same),
                )),
                refl,
              )
      ]

  discard_absent : (xs : List String) → contains (discard id xs) id ≡ false
  discard_absent [] = refl
  discard_absent (x ∷ xs) = ground (arith, discard_absent xs)

  settled_by_worker :
      (worker : Worker) (now : ℕ) (requested : List String) (s : Tasks)
      → let (left, met) = cancel_worker id worker requested s in
        IsCancelled worker now requested s
          (force_terminal env id now left met (get env.is_alnum id met))
  settled_by_worker none now requested s =
      let (absent, present, kept) =
        force_terminal_lem now requested s (get env.is_alnum id s) refl in
      (absent, present, (λ n. absurd (n refl)))
  settled_by_worker (some work) now requested s =
      let left = discard id (work (id ∷ requested) s).0 in
      let met = (work (id ∷ requested) s).1 in
      let (absent, present, kept) =
        force_terminal_lem now left met (get env.is_alnum id met) refl in
      (
        absent,
        present,
        (λ _. ap (λ l. contains l id) kept ∙ discard_absent (work (id ∷ requested) s).0),
      )

  -- A cancellation gives nothing or a settled task: one that is in a terminal status, and is what
  -- is on file, wherever the cancellation met its worker. It cancels a task that is not settled:
  -- once the worker in flight has been cancelled and has ended, a task that is still not settled is
  -- given as CANCELLED at that moment, one that is settled as it is, and the identifier is no longer
  -- among the requested cancellations. A task that is settled at the beginning is given as it is and
  -- nothing changes; neither does anything for a task that is not there or belongs to another
  -- session, for which the cancellation gives nothing.
  pub cancel_task_lem :
      (session_id : Option String) (worker : Worker) (now : ℕ) (requested : List String) (s : Tasks)
      → let (t, left, s') = cancel_task env id session_id worker now requested s in
        IsSettled t s'
        × (get_task env id session_id s ≡ none → (t ≡ none) × (s' ≡ s))
        × ((old : TaskRecord)
            → get_task env id session_id s ≡ some old
            → (is_terminal_status old.status ≡ true → (t ≡ some old) × (s' ≡ s))
              × (is_terminal_status old.status ≡ false
                  → IsCancelled worker now requested s (t, left, s')))
  unfolding cancel_task cancel_found
  cancel_task_lem session_id worker now requested s = (
    cancel_found-IsSettled worker now requested s (get_task env id session_id s)
        (get_of_get_task session_id s),
    (λ h. rw h (refl, refl)),
    (λ old h. (
      (λ e. rw (h, e) (refl, refl)),
      (λ e. rw (h, e) (settled_by_worker worker now requested s)),
    )),
  )
