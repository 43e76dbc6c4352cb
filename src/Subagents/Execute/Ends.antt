-- ===== src/Subagents/Execute/Ends.antt =====
-- How a task ends that src/assistant/subagents/coordinator.py executes.
use private_claw.Prelude.{
  ℕ, String, ◌≡◌, Option, none, some, Bool, true, false, if◌then◌else◌, List, contains, ◌⊎◌, inl,
  inr, refl, ◌∙◌, ap, Bool-cases, string_eq, arith,
}
use private_claw.Store.Records.{Payload}
use private_claw.Store.Task.{
  TaskRecord, Tasks, TaskStatus, running, completed, failed, cancelled, is_terminal_status, get,
  update_status, with_status, copy_task_with_updates, status_eq,
}
use private_claw.Store.Task.Status.{update_status_lem, heartbeat-Rewrites}
use private_claw.Subagents.Enqueue.{Env}
use private_claw.Subagents.Execute.{
  DelegationRun, BackendEnd, returned, crashed, was_cancelled, first_line, is_cut, Schedule,
  Executed, is_cancelled, backend_id_of, delegation_run, finish, settle, run_backend,
  execute_started, execute_task,
}

module _ (env : Env) where
  -- what other coroutines do leaves a task on file under the identifier
  abbrev pub Keeps : String → (Tasks → Tasks) → Type 0
  Keeps id f =
      (s : Tasks) (t : TaskRecord)
      → get env.is_alnum id s ≡ some t
      → (t' : TaskRecord) × (get env.is_alnum id (f s) ≡ some t')

  -- The task on file is in a terminal status for the reason `Why`, and is what the completion
  -- callback got, if anything.
  pub record IsFinished (id : String) (Why : TaskRecord → Type 0) (after : Executed) : Type 0 where
    pub final : TaskRecord
    pub on_file : get env.is_alnum id after.tasks ≡ some final
    pub terminal : is_terminal_status final.status ≡ true
    pub told : (after.notified ≡ none) ⊎ (after.notified ≡ some final)
    pub why : Why final

  map-IsFinished :
      {id : String} {P Q : TaskRecord → Type 0} {after : Executed}
      → ((final : TaskRecord) → P final → Q final)
      → IsFinished id P after
      → IsFinished id Q after
  map-IsFinished f a = record {
    final = a.final;
    on_file = a.on_file;
    terminal = a.terminal;
    told = a.told;
    why = f a.final a.why;
  }

  -- the status that the end of a backend's run asks for, where `cancel_task` asked for the
  -- cancellation or did not
  abbrev pub status_for : Bool → BackendEnd → TaskStatus
  status_for requested (returned r) = if r.ok then completed else failed
  status_for requested (crashed what) = failed
  status_for true was_cancelled = cancelled
  status_for false was_cancelled = failed

  abbrev HasStatus : TaskStatus → TaskRecord → Type 0
  HasStatus status final = final.status ≡ status

  module _ (id : String) (now : ℕ) (requested : List String) (s : Tasks) (t : TaskRecord)
      (h : get env.is_alnum id s ≡ some t) where
    finish-IsFinished :
        (status : TaskStatus) (error : Option String) (result : Option Payload)
        → is_terminal_status status ≡ true
        → IsFinished id (HasStatus status) (finish env id status error result now requested s)
    unfolding finish
    finish-IsFinished status error result e =
        let (rewrites, moves) = update_status_lem env.is_alnum id status error result now s in
        record {
          final = with_status status error result now t;
          on_file = (rewrites.present t h).1;
          terminal = ap is_terminal_status (moves t).moved ∙ e;
          told = inr (rewrites.present t h).0;
          why = (moves t).moved;
        }

    cancelled-IsFinished :
        (status : TaskStatus) (error : Option String) (left : List String)
        → is_terminal_status status ≡ true
        → IsFinished id (HasStatus status) (record {
          tasks = (update_status env.is_alnum id status error none now s).1;
          cancel_requested = left;
          notified = none;
          raised = true;
        })
    cancelled-IsFinished status error left e =
        let (rewrites, moves) = update_status_lem env.is_alnum id status error none now s in
        record {
          final = with_status status error none now t;
          on_file = (rewrites.present t h).1;
          terminal = ap is_terminal_status (moves t).moved ∙ e;
          told = inl refl;
          why = (moves t).moved;
        }

    settle-IsFinished :
        (end : BackendEnd)
        → IsFinished id
            (HasStatus (status_for (contains requested id) end))
            (settle env id end now requested s)
    unfolding settle
    settle-IsFinished (crashed what) = finish-IsFinished failed _ none refl
    settle-IsFinished was_cancelled = elim (Bool-cases (contains requested id)) [
      | inl e ↦ rw e (cancelled-IsFinished cancelled _ _ refl)
      | inr e ↦ rw e (cancelled-IsFinished failed _ _ refl)
    ]
    settle-IsFinished (returned r) = elim (Bool-cases r.ok) [
      | inl e ↦ rw e (finish-IsFinished completed none _ refl)
      | inr e ↦ rw e (finish-IsFinished failed _ _ refl)
    ]

  cancelled_status : (t : TaskRecord) → is_cancelled (some t) ≡ true → t.status ≡ cancelled
  cancelled_status t e = ground arith

  run_of_started :
      (now : ℕ) (task : TaskRecord)
      → delegation_run env (with_status running none none now task) ≡ delegation_run env task
  unfolding delegation_run with_status copy_task_with_updates
  run_of_started now task = refl

  module _ (execute : String → DelegationRun → BackendEnd) where
    -- the task met as CANCELLED before the backend is called, or the status that the end of the
    -- backend's run asks for
    abbrev pub EndsStarted :
        TaskRecord → String → DelegationRun → List String → Tasks → TaskRecord → Type 0
    EndsStarted task backend_id run requested s final =
        ((get env.is_alnum task.task_id s ≡ some final) × HasStatus cancelled final)
        ⊎ HasStatus (status_for (contains requested task.task_id) (execute backend_id run)) final

    -- FAILED where the backend is not there, or else as it ends after the transition to RUNNING
    abbrev pub EndsBy :
        TaskRecord → DelegationRun → Schedule → List String → Tasks → TaskRecord → Type 0
    EndsBy task run at requested s final =
        let backend_id = backend_id_of env task in
        let begun = update_status env.is_alnum task.task_id running none none at.started_at s in
        (contains env.settings.backends backend_id ≡ false → HasStatus failed final)
        × (contains env.settings.backends backend_id ≡ true
            → EndsStarted task backend_id run requested (at.before_latest begun.1) final)

    started-IsFinished :
        (task : TaskRecord) (backend_id : String) (run : DelegationRun) (at : Schedule)
        (requested : List String) (s : Tasks) (latest : TaskRecord)
        → Keeps task.task_id at.during
        → at.cut ≡ none
        → delegation_run env task ≡ some run
        → get env.is_alnum task.task_id s ≡ some latest
        → IsFinished task.task_id
            (EndsStarted task backend_id run requested s)
            (execute_started env execute task backend_id at requested s)
    unfolding execute_started run_backend
    started-IsFinished task backend_id run at requested s latest keep uncut valid h =
        elim (Bool-cases (is_cancelled (some latest))) [
          | inl e ↦
              rw (uncut, h, e)
                (record {
                  final = latest;
                  on_file = h;
                  terminal = ap is_terminal_status (cancelled_status latest e);
                  told = inl refl;
                  why = inl (h, cancelled_status latest e);
                })
          | inr e ↦
              let beaten = heartbeat-Rewrites env.is_alnum task.task_id at.beaten_at s in
              let (t, on_file) = keep _ _ (beaten.present latest h).1 in
              rw (uncut, h, e, valid)
                (map-IsFinished (λ _ ends. inr ends)
                  (settle-IsFinished task.task_id at.ended_at requested _ t on_file
                    (execute backend_id run)))
        ]

    -- However its backend ends, by a result, an exception or a cancellation that reaches the
    -- coroutine in the backend, and whatever other coroutines write of the task meanwhile short of
    -- removing it, a task that is executed is in a terminal status on file afterwards, and the
    -- completion callback gets that task or nothing. The status is FAILED where the backend is not
    -- there; CANCELLED where the task is met so before the backend is called;
    -- and else the one that the backend's end asks for: COMPLETED for a result that is ok, CANCELLED
    -- for a cancellation that `cancel_task` requested, FAILED for all others. (The numbers in its metadata make a valid run,
    -- and no cancellation reaches the coroutine at another await.)
    pub execute_task_lem :
        (task : TaskRecord) (run : DelegationRun) (at : Schedule) (requested : List String)
        (s : Tasks)
        → get env.is_alnum task.task_id s ≡ some task
        → delegation_run env task ≡ some run
        → Keeps task.task_id at.before_latest
        → Keeps task.task_id at.during
        → at.cut ≡ none
        → IsFinished task.task_id
            (EndsBy task run at requested s)
            (execute_task env execute task at requested s)
    unfolding execute_task with_status
    execute_task_lem task run at requested s h valid keep keep_on uncut =
        let backend_id = backend_id_of env task in
        let begins : is_cut first_line at.cut ≡ false = ap (is_cut first_line) uncut in
        elim (Bool-cases (contains env.settings.backends backend_id)) [
          | inr e ↦
              rw (begins, e)
                (map-IsFinished (λ _ ends. ((λ _. ends), (λ there. absurd (cc (e, there)))))
                  (finish-IsFinished task.task_id at.started_at requested s task h failed _ none
                    refl))
          | inl e ↦
              let begun =
                (update_status_lem env.is_alnum task.task_id running none none at.started_at s).0 in
              let (latest, on_file) = keep _ _ (begun.present task h).1 in
              rw (begins, e, (begun.present task h).0)
                (map-IsFinished (λ _ ends. ((λ missing. absurd (cc (e, missing))), (λ _. ends)))
                  (started-IsFinished (with_status running none none at.started_at task) backend_id
                    run at requested _ latest keep_on uncut
                    (run_of_started at.started_at task ∙ valid) on_file))
        ]
