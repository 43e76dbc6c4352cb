-- ===== src/Subagents/Cancel.antt =====
-- get_task and cancel_task of src/assistant/subagents/coordinator.py, and the recovery at start.
pub mod Ends
use private_claw.Prelude.{
  ℕ, String, Option, none, some, Bool, true, false, List, [], ◌∷◌, if◌then◌else◌, ◌==◌, string_eq,
  filter, not,
}
use private_claw.Store.Task.{
  TaskRecord, Tasks, running, failed, cancelled, is_terminal_status, update_status, list_by_status,
  is_some_text,
}
use private_claw.Store.Task
use private_claw.Subagents.Enqueue.{Env}
use private_claw.Subagents.Limits.{is_delegation}
use private_claw.Subagents.Execute.{discard}

-- What a worker that is still in flight does to `_cancel_requested` and to the tasks from its
-- cancellation to its end; none where no worker is in flight.
abbrev pub Worker : Type 0
Worker = Option (List String → Tasks → List String × Tasks)

abbrev pub is_owner : Option String → TaskRecord → Bool
is_owner none task = true
is_owner (some session_id) task = is_some_text task.parent_session_id session_id

abbrev pub owned : Option String → Option TaskRecord → Option TaskRecord
owned session_id none = none
owned session_id (some task) = if is_owner session_id task then some task else none

-- the cancellation of the worker, between `add` and `discard`
abbrev pub cancel_worker : String → Worker → List String → Tasks → List String × Tasks
cancel_worker task_id none requested s = (requested, s)
cancel_worker task_id (some work) requested s =
    let (left, s') = work (task_id ∷ requested) s in (discard task_id left, s')

module _ (env : Env) where
  unfoldable pub get_task : String → Option String → Tasks → Option TaskRecord
  get_task task_id session_id s =
      owned session_id (private_claw.Store.Task.get env.is_alnum task_id s)

  -- the end of `cancel_task`, from the reading of `final` on
  unfoldable pub force_terminal :
      String → ℕ → List String → Tasks → Option TaskRecord → Option TaskRecord × List String × Tasks
  force_terminal task_id now requested s none = (none, requested, s)
  force_terminal task_id now requested s (some final) =
      if is_terminal_status final.status
      then (some final, requested, s)
      else (let (updated, s') =
            update_status env.is_alnum task_id cancelled (some "Cancelled by user") none now s in
          (updated, requested, s'))

  unfoldable pub cancel_found :
      String
      → Worker
      → ℕ
      → List String
      → Tasks
      → Option TaskRecord
      → Option TaskRecord × List String × Tasks
  unfolding force_terminal
  cancel_found task_id worker now requested s none = (none, requested, s)
  cancel_found task_id worker now requested s (some task) =
      if is_terminal_status task.status
      then (some task, requested, s)
      else (let (left, s') = cancel_worker task_id worker requested s in
          force_terminal task_id now left s' (private_claw.Store.Task.get env.is_alnum task_id s'))

  unfoldable pub cancel_task :
      String
      → Option String
      → Worker
      → ℕ
      → List String
      → Tasks
      → Option TaskRecord × List String × Tasks
  unfolding cancel_found
  cancel_task task_id session_id worker now requested s =
      cancel_found task_id worker now requested s (get_task task_id session_id s)

  -- the loop of `_recover_inflight_tasks`; `now` is the clock when a task is updated
  unfoldable pub fail_each : (String → ℕ) → List TaskRecord → Tasks → Tasks
  fail_each now [] s = s
  fail_each now (task ∷ tasks) s =
      if is_delegation task
      then fail_each now tasks
          (update_status env.is_alnum task.task_id failed
            (some "Task interrupted by process restart") none (now task.task_id) s).1
      else fail_each now tasks s

  unfoldable pub recover_inflight_tasks : (String → ℕ) → Tasks → Tasks
  unfolding fail_each
  recover_inflight_tasks now s = fail_each now (list_by_status running s) s
