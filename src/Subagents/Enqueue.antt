-- ===== src/Subagents/Enqueue.antt =====
-- enqueue_from_tool of src/assistant/subagents/coordinator.py.
pub mod Admission
pub mod Guards
pub mod Active
use Prim.Native.Char.{Char}
use Prim.Native.String.{◌++◌ as ◌&◌}
use private_claw.Prelude.{
  ℕ, String, Option, none, some, Bool, true, false, List, [], ◌∷◌, ◌++◌, contains, not,
  if◌then◌else◌, ◌==◌, string_eq,
}
use private_claw.Store.Files.{after_seconds}
use private_claw.Store.Records.{Json, text, number, nested, null, Payload, truthy}
use private_claw.Store.Task.{TaskRecord, Tasks, pending, Stored, stored, already_exists, not_found}
use private_claw.Store.Task
use private_claw.Subagents.Params.{
  Request, Settings, or_default, strip, str, resolve_backend, attempted_model_id, resolve_model_id,
  backend_allowed, model_allowed, resolve_max_turns, resolve_timeout_seconds, resolve_ttl_seconds,
}
use private_claw.Subagents.Limits.{reaches_concurrency_limit, check_budget}

-- a DelegationAcceptResult that rejects, with the reason, or accepts, with the task and its expiry;
-- or the ValueError of `create`
pub data Acceptance : Type 0 where
  rejected_invalid rejected_policy : String → Acceptance
  accepted : String → ℕ → Acceptance
  value_error : Acceptance

-- the parts of a call that are not in the request
pub record Caller : Type 0 where
  pub session_id : String
  pub turn_id : String
  pub trace_id : String
  pub user_id : Option String

abbrev pub text_or_null : Option String → Json
text_or_null none = null
text_or_null (some s) = text s

abbrev pub logfire : Option String → Payload
logfire none = []
logfire (some context) = ("logfire_context", nested context) ∷ []

abbrev pub acceptance : String → ℕ → Stored × Tasks → Acceptance × Tasks
acceptance task_id expires_at (stored _, s) = (accepted task_id expires_at, s)
acceptance task_id expires_at (already_exists, s) = (value_error, s)
acceptance task_id expires_at (not_found, s) = (value_error, s)

-- What a call uses and the coordinator does not compute: `is_space` and `is_alnum` are
-- `str.isspace` and `str.isalnum` of one character, `digits` the printed form of a number and
-- `int_of` the number that a text is; `total_tokens_of` is that of Limits. `chat_id` is what
-- `_chat_id_from_session` gives, and `fresh` the identifier that is drawn for a request without one.
pub record Env : Type 0 where
  pub is_space : Char → Bool
  pub is_alnum : Char → Bool
  pub digits : ℕ → String
  pub int_of : String → Option ℕ
  pub total_tokens_of : Payload → Option ℕ
  pub settings : Settings
  pub chat_id : Json
  pub fresh : String

module _ (env : Env) where
  -- `str(request.get("objective", "")).strip()`
  unfoldable pub objective_of : Request → String
  objective_of request =
      strip env.is_space (str env.digits (or_default request.objective (text "")))

  -- `str(request.get("task_id") or f"dlg-{...}")`
  unfoldable pub task_id_of : Request → String
  task_id_of request = if truthy request.task_id then str env.digits request.task_id else env.fresh

  unfoldable pub new_task : Caller → Request → String → ℕ → ℕ → TaskRecord
  new_task caller request model_id projected now = record {
    task_id = task_id_of request;
    parent_session_id = some caller.session_id;
    parent_turn_id = some caller.turn_id;
    task_type = "delegation";
    status = pending;
    created_at = now;
    updated_at = now;
    started_at = none;
    completed_at = none;
    last_heartbeat_at = none;
    ttl_seconds = some (resolve_ttl_seconds env.int_of request.tool_params);
    expires_at = some (after_seconds now (resolve_ttl_seconds env.int_of request.tool_params));
    result = none;
    error = none;
    metadata =
        ("kind", text "delegation")
        ∷ ("backend", text (resolve_backend env.is_space env.digits request))
        ∷ ("objective", text (objective_of request))
        ∷ ("model_id", text model_id)
        ∷ ("max_turns", number (resolve_max_turns env.int_of request))
        ∷ ("timeout_seconds", number (resolve_timeout_seconds env.int_of request))
        ∷ ("requested_by_user_id", text_or_null caller.user_id)
        ∷ ("trace_id", text caller.trace_id)
        ∷ ("chat_id", env.chat_id)
        ∷ ("projected_tokens", number projected)
        ∷ ("backend_params", nested request.backend_params)
        ∷ logfire request.logfire_context;
  }

  -- the end of `enqueue_from_tool`, once the budget is known
  unfoldable pub enqueue_within :
      Caller → Request → String → ℕ → Tasks → Option String × ℕ → Acceptance × Tasks
  enqueue_within caller request model_id now s (some reason, projected) =
      (rejected_policy reason, s)
  enqueue_within caller request model_id now s (none, projected) =
      acceptance (task_id_of request)
        (after_seconds now (resolve_ttl_seconds env.int_of request.tool_params))
        (private_claw.Store.Task.create env.is_alnum
          (new_task caller request model_id projected now) s)

  -- the tests after the model is resolved
  unfoldable pub enqueue_model :
      Caller → Request → (seen now : ℕ) → Tasks → Option String → Acceptance × Tasks
  unfolding enqueue_within
  enqueue_model caller request seen now s none = (
    rejected_policy (
        "model_id '"
        & attempted_model_id env.is_space env.digits env.settings request
        & "' is not allowed"),
    s,
  )
  enqueue_model caller request seen now s (some model_id) =
      if not (backend_allowed (resolve_backend env.is_space env.digits request) request.tool_params)
      then (
        rejected_policy (
            "backend '"
            & resolve_backend env.is_space env.digits request
            & "' is not in delegation_allowed_backends"),
        s,
      )
      else if not (model_allowed model_id request.tool_params)
      then (rejected_policy "model_id is not in delegation_model_allowlist", s)
      else if reaches_concurrency_limit env.int_of request.tool_params s
      then (rejected_policy "max concurrent delegation tasks reached", s)
      else enqueue_within caller request model_id now s (
          check_budget env.int_of env.total_tokens_of caller.session_id
            (resolve_max_turns env.int_of request) request.tool_params seen s)

  -- `seen` is the clock when the budget is reckoned, `now` when the task is made.
  unfoldable pub enqueue_from_tool : Caller → Request → (seen now : ℕ) → Tasks → Acceptance × Tasks
  unfolding enqueue_model
  enqueue_from_tool caller request seen now s =
      if objective_of request == ""
      then (rejected_invalid "objective is required", s)
      else if not (contains env.settings.backends (resolve_backend env.is_space env.digits request))
      then (
        rejected_invalid
            ("backend '" & resolve_backend env.is_space env.digits request & "' is not available"),
        s,
      )
      else enqueue_model caller request seen now s
          (resolve_model_id env.is_space env.digits env.settings request)
