-- ===== src/Subagents/Execute.antt =====
-- _execute_task of src/assistant/subagents/coordinator.py, and the run that it hands to a backend.
-- Other coroutines may change the tasks while it awaits; what they do is an argument.
pub mod Ends
pub mod Runs
use Prim.Native.Char.{Char}
use Prim.Native.String.{◌++◌ as ◌&◌}
use private_claw.Prelude.{
  ℕ, zero, suc, String, Option, none, some, Bool, true, false, List, [], ◌∷◌, filter, contains, not,
  if◌then◌else◌, ◌==◌, string_eq,
}
use private_claw.Prelude.Dict.{lookup}
use private_claw.Store.Records.{Json, text, number, nested, Payload}
use private_claw.Store.Task.{
  TaskRecord, Tasks, TaskStatus, running, completed, failed, cancelled, status_eq, update_status,
  heartbeat,
}
use private_claw.Store.Task
use private_claw.Subagents.Params.{or_default, strip, str, as_int}
use private_claw.Subagents.Enqueue.{Env}

-- A field that is a dict is taken by its JSON text.
pub record DelegationRun : Type 0 where
  pub task_id : String
  pub objective : String
  pub model_id : String
  pub timeout_seconds : ℕ
  pub max_turns : ℕ
  pub backend_params : String

pub record DelegationResult : Type 0 where
  pub ok : Bool
  pub output_text : String
  pub artifacts : String
  pub usage : String
  pub error : Option String

-- how `backend.execute` ends: with a result, an Exception of that text, or a cancellation
pub data BackendEnd : Type 0 where
  returned : DelegationResult → BackendEnd
  crashed : String → BackendEnd
  was_cancelled : BackendEnd

-- An await of `_execute_task` other than that of the backend, at which a cancellation can reach the
-- coroutine: before its first line, between the transition to RUNNING and the backend, or after the
-- backend has returned or crashed and before the last status is written.
pub data Await : Type 0 where
  first_line before_execute after_execute : Await

abbrev pub is_cut : Await → Option Await → Bool
is_cut first_line (some first_line) = true
is_cut before_execute (some before_execute) = true
is_cut after_execute (some after_execute) = true
is_cut _ _ = false

-- The readings of the clock, what other coroutines do to the tasks before the task is read again and
-- while the backend runs, and where a cancellation reaches the coroutine outside of the backend, if
-- it does.
pub record Schedule : Type 0 where
  pub started_at : ℕ
  pub beaten_at : ℕ
  pub ended_at : ℕ
  pub cut : Option Await
  pub before_latest : Tasks → Tasks
  pub during : Tasks → Tasks

-- the tasks and `_cancel_requested` afterwards, the task that the completion callback gets, and
-- whether an exception left the coroutine
pub record Executed : Type 0 where
  pub tasks : Tasks
  pub cancel_requested : List String
  pub notified : Option TaskRecord
  pub raised : Bool

-- what a cancellation leaves that no handler meets
abbrev pub stopped : List String → Tasks → Executed
stopped requested s = record {
  tasks = s;
  cancel_requested = requested;
  notified = none;
  raised = true;
}

-- `metadata.get(key, default)`
abbrev pub meta : String → Json → Payload → Json
meta key default metadata = or_default (lookup key metadata) default

-- `s.discard(x)`
abbrev pub discard : String → List String → List String
discard x xs = filter (λ y. not (y == x)) xs

abbrev pub dict_text : Json → String
dict_text (nested s) = s
dict_text _ = "{}"

-- a number that `Field(ge=1)` takes
abbrev pub at_least_one : Option ℕ → Option ℕ
at_least_one none = none
at_least_one (some zero) = none
at_least_one (some (suc n)) = some (suc n)

-- `result.error or "delegation run failed"`
abbrev pub error_of : Option String → String
error_of none = "delegation run failed"
error_of (some e) = if e == "" then "delegation run failed" else e

abbrev pub failure_result : DelegationResult → Payload
failure_result r = ("usage", nested r.usage) ∷ ("artifacts", nested r.artifacts) ∷ []

abbrev pub success_result : DelegationResult → Payload
success_result r =
    ("summary", text r.output_text)
    ∷ ("usage", nested r.usage)
    ∷ ("artifacts", nested r.artifacts)
    ∷ []

abbrev pub is_cancelled : Option TaskRecord → Bool
is_cancelled none = false
is_cancelled (some t) = t.status == cancelled

module _ (env : Env) where
  unfoldable pub backend_id_of : TaskRecord → String
  backend_id_of task = strip env.is_space (str env.digits (meta "backend" (text "") task.metadata))

  abbrev pub run_with : TaskRecord → Option ℕ → Option ℕ → Option DelegationRun
  run_with task none turns = none
  run_with task (some timeout) none = none
  run_with task (some timeout) (some turns) = some (record {
    task_id = task.task_id;
    objective = str env.digits (meta "objective" (text "") task.metadata);
    model_id = str env.digits (meta "model_id" (text env.settings.default_model_id) task.metadata);
    timeout_seconds = timeout;
    max_turns = turns;
    backend_params = dict_text (meta "backend_params" (nested "{}") task.metadata);
  })

  -- `DelegationRun(...)`, none where a number cannot be read or is below 1, which raises
  unfoldable pub delegation_run : TaskRecord → Option DelegationRun
  delegation_run task =
      run_with task
        (at_least_one (as_int env.int_of (meta "timeout_seconds" (number 300) task.metadata)))
        (at_least_one (as_int env.int_of (meta "max_turns" (number 8) task.metadata)))

  -- `update_status`, and then `_notify_completion` of what it returns
  unfoldable pub finish :
      String → TaskStatus → Option String → Option Payload → ℕ → List String → Tasks → Executed
  finish id status error result now requested s =
      let (updated, s') = update_status env.is_alnum id status error result now s in
      record { tasks = s'; cancel_requested = requested; notified = updated; raised = false }

  -- after `backend.execute`
  unfoldable pub settle : String → BackendEnd → ℕ → List String → Tasks → Executed
  unfolding finish
  settle id (crashed what) now requested s =
      finish id failed (some ("backend crashed: " & what)) none now requested s
  settle id was_cancelled now requested s =
      let was_requested = contains requested id in
      record {
        tasks =
            (update_status env.is_alnum id (if was_requested then cancelled else failed)
              (some (if was_requested then "Cancelled by user" else "cancelled")) none now s).1;
        cancel_requested = discard id requested;
        notified = none;
        raised = true;
      }
  settle id (returned r) now requested s =
      if r.ok
      then finish id completed none (some (success_result r)) now requested s
      else finish id failed (some (error_of r.error)) (some (failure_result r)) now requested s

  module _ (execute : String → DelegationRun → BackendEnd) where
    unfoldable pub run_backend :
        String → String → Option DelegationRun → Schedule → List String → Tasks → Executed
    unfolding settle
    run_backend id backend_id none at requested s = record {
      tasks = s;
      cancel_requested = requested;
      notified = none;
      raised = true;
    }
    run_backend id backend_id (some run) at requested s =
        if is_cut after_execute at.cut
        then stopped requested (at.during s)
        else settle id (execute backend_id run) at.ended_at requested (at.during s)

    -- from the reading of `latest` on
    unfoldable pub execute_started : TaskRecord → String → Schedule → List String → Tasks → Executed
    unfolding run_backend
    execute_started task backend_id at requested s =
        if is_cut before_execute at.cut
        then stopped requested s
        else if is_cancelled (private_claw.Store.Task.get env.is_alnum task.task_id s)
        then record { tasks = s; cancel_requested = requested; notified = none; raised = false }
        else run_backend task.task_id backend_id (delegation_run task) at requested
            (heartbeat env.is_alnum task.task_id at.beaten_at s).1

    unfoldable pub execute_task : TaskRecord → Schedule → List String → Tasks → Executed
    unfolding execute_started finish
    execute_task task at requested s =
        let backend_id = backend_id_of task in
        if is_cut first_line at.cut
        then stopped requested s
        else if contains env.settings.backends backend_id
        then (let (updated, s') =
              update_status env.is_alnum task.task_id running none none at.started_at s in
            execute_started (or_default updated task) backend_id at requested (at.before_latest s'))
        else finish task.task_id failed (some ("backend '" & backend_id & "' unavailable")) none
            at.started_at requested s
