-- ===== src/Subagents/Samples.antt =====
-- Runs of the delegation coordinator on small inputs.
use Prim.Native.Char.{code}
use private_claw.Prelude.{
  string_eq, ◌≤◌, max, String, ◌≡◌, refl, none, some, true, false, [], ◌∷◌, length, string_discrete,
  ℕ_discrete, ◌==◌, nat_eq, ◌⊎◌, any,
}
use private_claw.Prelude.Dict.{lookup, insert, NodupKeys}
use private_claw.Store.Records.{null, number, text}
use private_claw.Store.Files.{holds}
use private_claw.Store.Session.{safe_id}
use private_claw.Store.Task.{
  TaskRecord, Tasks, pending, is_terminal_status, get, create, write_task, task_path, update_status,
  heartbeat, with_status, with_heartbeat, rewrite_task, rewrite_found, copy_task_with_updates,
  list_by_status,
}
use private_claw.Subagents.Params.{
  ToolParams, Request, Settings, strip, strip_left, strip_right, stripped, resolve_backend,
  attempted_model_id, resolve_model_id, backend_allowed, model_allowed, coerce_int,
  parse_positive_int, resolve_max_turns, resolve_timeout_seconds, resolve_ttl_seconds,
  projected_tokens,
}
use private_claw.Subagents.Limits.{
  task_token_usage, tokens_of, unseen, list_each_status, list_all_delegation_tasks,
  reaches_concurrency_limit, session_used, global_used, budget_reason, check_budget,
}
use private_claw.Subagents.Enqueue.{
  Env, Caller, accepted, objective_of, task_id_of, new_task, enqueue_within, enqueue_model,
  enqueue_from_tool,
}
use private_claw.Subagents.Enqueue.Active.{active, active-enqueue-le}
use private_claw.Subagents.Execute.{
  DelegationRun, BackendEnd, crashed, Schedule, backend_id_of, delegation_run, finish, settle,
  run_backend, execute_started, execute_task,
}
use private_claw.Subagents.Execute.Ends.{IsFinished, EndsBy, execute_task_lem}
use private_claw.Subagents.Cancel.{get_task, cancel_found, force_terminal, cancel_task}
use private_claw.Subagents.Cancel.Ends.{IsSettled, IsCancelled, cancel_task_lem}
use private_claw.Subagents.Worker.{
  Inflight, WorkerTask, lacks_worker, new_worker, IsStarted, is_inflight, reap_finished_inflight,
  start_pending, worker_round, worker_round_lem,
}

abbrev settings : Settings
settings = record {
  model_allowlist = "opus" ∷ "haiku" ∷ [];
  default_model_id = "haiku";
  backends = "claude_code" ∷ [];
}

abbrev env : Env
env = record {
  is_space = λ c. code c == 32;
  is_alnum = λ _. true;
  digits = λ _. "n";
  int_of = λ _. none;
  total_tokens_of = λ _. none;
  settings = settings;
  chat_id = number 7;
  fresh = "dlg-1";
}

abbrev tool_params : ToolParams
tool_params = record {
  delegation_allowed_backends = [];
  delegation_model_allowlist = [];
  delegation_default_model_id = text "opus";
  delegation_default_ttl_seconds = null;
  delegation_max_ttl_seconds = number 60;
  delegation_max_concurrent_tasks = number 1;
  delegation_per_task_token_cap = number 100000;
  delegation_per_session_token_cap = null;
  delegation_global_token_cap = null;
  delegation_budget_window_seconds = null;
  delegation_estimated_tokens_per_turn = null;
  delegation_default_max_turns = null;
  delegation_default_timeout_seconds = null;
}

abbrev request : Request
request = record {
  objective = some (text " tidy up ");
  backend = null;
  model_id = null;
  max_turns = number 4;
  timeout_seconds = null;
  task_id = null;
  tool_params = some tool_params;
  backend_params = "{}";
  logfire_context = none;
}

abbrev caller : Caller
caller = record { session_id = "tg:7"; turn_id = "t"; trace_id = "x"; user_id = none }

program : Unit {0}
unfolding strip strip_left strip_right stripped resolve_backend attempted_model_id resolve_model_id
    backend_allowed model_allowed coerce_int parse_positive_int resolve_max_turns
    resolve_timeout_seconds resolve_ttl_seconds projected_tokens task_token_usage tokens_of unseen
    list_each_status list_all_delegation_tasks reaches_concurrency_limit session_used global_used
    budget_reason check_budget objective_of task_id_of new_task enqueue_within enqueue_model
    enqueue_from_tool backend_id_of delegation_run finish settle run_backend execute_started
    execute_task get_task cancel_found force_terminal cancel_task is_inflight reap_finished_inflight
    start_pending worker_round get create write_task task_path update_status heartbeat with_status
    with_heartbeat rewrite_task rewrite_found copy_task_with_updates list_by_status safe_id lookup
    insert string_discrete ℕ_discrete
program = tt

accepts : (enqueue_from_tool env caller request 5 6 []).0 ≡ accepted "dlg-1" 60000006
unfolding program
accepts = refl

active-enqueue-le_example : active (enqueue_from_tool env caller request 5 6 []).1 ≤ 1
unfolding program
active-enqueue-le_example =
    active-enqueue-le env caller request 5 6 [] 0 "dlg-1" 60000006 refl accepts

abbrev waiting : TaskRecord
waiting = new_task env caller request "opus" 8000 6

abbrev on_file : Tasks
on_file = ("dlg-1.json", holds waiting) ∷ []

abbrev expected_run : DelegationRun
expected_run = record {
  task_id = "dlg-1";
  objective = "tidy up";
  model_id = "opus";
  timeout_seconds = 300;
  max_turns = 4;
  backend_params = "{}";
}

abbrev crashing : String → DelegationRun → BackendEnd
crashing _ _ = crashed "OSError"

abbrev undisturbed : Schedule
undisturbed = record {
  started_at = 10;
  beaten_at = 11;
  ended_at = 12;
  cut = none;
  before_latest = λ s. s;
  during = λ s. s;
}

waiting_on_file : get env.is_alnum waiting.task_id on_file ≡ some waiting
unfolding program
waiting_on_file = refl

waiting_runs : delegation_run env waiting ≡ some expected_run
unfolding program
waiting_runs = refl

execute_task_lem_example :
    IsFinished env waiting.task_id
      (EndsBy env crashing waiting expected_run undisturbed [] on_file)
      (execute_task env crashing waiting undisturbed [] on_file)
execute_task_lem_example =
    execute_task_lem env crashing waiting expected_run undisturbed [] on_file waiting_on_file
      waiting_runs (λ s t h. (t, h)) (λ s t h. (t, h)) refl

cancel_task_lem_example :
    let (t, left, s') = cancel_task env "dlg-1" (some "tg:7") none 20 [] on_file in
    IsSettled env "dlg-1" t s'
    × (get_task env "dlg-1" (some "tg:7") on_file ≡ none → (t ≡ none) × (s' ≡ on_file))
    × ((old : TaskRecord)
        → get_task env "dlg-1" (some "tg:7") on_file ≡ some old
        → (is_terminal_status old.status ≡ true → (t ≡ some old) × (s' ≡ on_file))
          × (is_terminal_status old.status ≡ false
              → IsCancelled env "dlg-1" none 20 [] on_file (t, left, s')))
cancel_task_lem_example = cancel_task_lem env "dlg-1" (some "tg:7") none 20 [] on_file

abbrev workers : Inflight
workers =
    ("dlg-0", record { made = 0; done = false }) ∷ ("dlg-2", record { made = 1; done = true }) ∷ []

starts_one :
    worker_round 2 2 on_file workers
    ≡ ("dlg-0", record { made = 0; done = false }) ∷ ("dlg-1", new_worker 2) ∷ []
unfolding program
starts_one = refl

workers-NodupKeys : NodupKeys workers
unfolding program
workers-NodupKeys = (refl, (refl, tt))

worker_round_lem_example :
    let after = worker_round 2 2 on_file workers in
    let tasks = list_by_status pending on_file in
    (length after ≤ max 2 (length workers))
    × ((id : String) (w : WorkerTask)
        → lookup id workers ≡ some w
        → w.done ≡ false
        → lookup id after ≡ some w)
    × ((id : String) (w : WorkerTask)
        → lookup id after ≡ some w
        → (w.done ≡ false) × ((lookup id workers ≡ some w) ⊎ IsStarted tasks workers id w))
    × ((any (lacks_worker after) tasks ≡ false) ⊎ (2 ≤ length after))
worker_round_lem_example = worker_round_lem 2 2 on_file workers workers-NodupKeys
