-- ===== src/Subagents/Enqueue/Admission.antt =====
-- What a request has passed that src/assistant/subagents/coordinator.py accepts.
use private_claw.Prelude.{
  ℕ, Bool, if◌then◌else◌, leb, suc, ◌+◌, ◌<◌, ◌≤◌, List, [], ◌∷◌, ◌++◌, filter, length, ap, ◌∙◌,
  String, ◌≡◌, ◌≢◌, Option, none, some, true, false, contains, arith, string_eq, inl, inr,
  Bool-cases, refl, subst, sym,
}
use private_claw.Prelude.Dict.{lookup}
use private_claw.Store.Files.{after_seconds}
use private_claw.Store.Task.{Tasks, task_path, write_task, list_by_status, running, pending}
use private_claw.Subagents.Params.{
  Request, ToolParams, projected_tokens, as_int, coerce_int, allows, attempted_model_id,
  resolve_backend, resolve_model_id, backend_allowed, model_allowed, resolve_max_turns,
  resolve_ttl_seconds,
}
use private_claw.Subagents.Limits.{
  is_delegation, exceeds, session_used, global_used, budget_reason, reaches_concurrency_limit,
  check_budget,
}
use private_claw.Subagents.Enqueue.{Env, Caller, objective_of, task_id_of, new_task}

if_none :
    (a b c : Bool) (x y z : String)
    → (if a then some x else if b then some y else if c then some z else none) ≡ none
    → (a ≡ false) × (b ≡ false) × (c ≡ false)
if_none a b c x y z h = ground (arith, h)

module _ (env : Env) (caller : Caller) (request : Request) (seen now : ℕ) (s : Tasks) where
  -- the tests on the request that come before the budget, as the code makes them
  pub record HasPassed (model_id : String) : Type 0 where
    pub objective : objective_of env request ≢ ""
    pub backend :
        contains env.settings.backends (resolve_backend env.is_space env.digits request) ≡ true
    pub model : resolve_model_id env.is_space env.digits env.settings request ≡ some model_id
    pub allowed_backend :
        backend_allowed (resolve_backend env.is_space env.digits request) request.tool_params ≡ true
    pub allowed_model : model_allowed model_id request.tool_params ≡ true
    pub below_limit : reaches_concurrency_limit env.int_of request.tool_params s ≡ false

  -- where a list is not empty, the name is in it
  abbrev pub IsListed : List String → String → Type 0
  IsListed names name = names ≢ [] → contains names name ≡ true

  -- a number does not exceed a cap, if there is one
  abbrev pub IsWithin : ℕ → Option ℕ → Type 0
  IsWithin used cap = (limit : ℕ) → cap ≡ some limit → used ≤ limit

  -- What the parameters of the tool ask of a request for a model, whose tokens are projected: its
  -- backend and model are on their lists, fewer delegations are active than the limit, and the
  -- projected tokens are within the cap of a task, and with those of the tasks of the session and
  -- of all tasks in the window within the caps of a session and of all.
  pub record IsAllowed (p : ToolParams) (model_id : String) (projected : ℕ) : Type 0 where
    pub backend :
        IsListed p.delegation_allowed_backends (resolve_backend env.is_space env.digits request)
    pub model : IsListed p.delegation_model_allowlist model_id
    pub active :
        (limit : ℕ)
        → as_int env.int_of p.delegation_max_concurrent_tasks ≡ some (suc limit)
        → length (filter is_delegation (list_by_status running s ++ list_by_status pending s))
          < suc limit
    pub task_cap :
        0 < projected → IsWithin projected (coerce_int env.int_of p.delegation_per_task_token_cap)
    pub session_cap :
        0 < projected
        → IsWithin
            (session_used env.int_of env.total_tokens_of caller.session_id p seen s + projected)
            (coerce_int env.int_of p.delegation_per_session_token_cap)
    pub global_cap :
        0 < projected
        → IsWithin
            (global_used env.int_of env.total_tokens_of p seen s + projected)
            (coerce_int env.int_of p.delegation_global_token_cap)

  -- what an accepted request has met, and the task that it leaves
  pub record IsAdmitted (s' : Tasks) (task_id : String) (expires_at : ℕ) : Type 0 where
    pub model_id : String
    pub projected : ℕ
    pub passed : HasPassed model_id
    pub resolved : model_id ≡ attempted_model_id env.is_space env.digits env.settings request
    pub known_model : contains env.settings.model_allowlist model_id ≡ true
    pub allowed : (p : ToolParams) → request.tool_params ≡ some p → IsAllowed p model_id projected
    pub named : task_id ≡ task_id_of env request
    pub unused : lookup (task_path env.is_alnum (task_id_of env request)) s ≡ none
    pub made :
        s'
        ≡ write_task env.is_alnum
            (task_id_of env request)
            (new_task env caller request model_id projected now)
            s
    pub expiry : expires_at ≡ after_seconds now (resolve_ttl_seconds env.int_of request.tool_params)

  pub resolved_model :
      (model_id : String)
      → resolve_model_id env.is_space env.digits env.settings request ≡ some model_id
      → (model_id ≡ attempted_model_id env.is_space env.digits env.settings request)
        × (contains env.settings.model_allowlist model_id ≡ true)
  unfolding resolve_model_id
  resolved_model model_id h =
      let attempted = attempted_model_id env.is_space env.digits env.settings request in
      elim (Bool-cases (contains env.settings.model_allowlist attempted)) [
        | inl e ↦
            let same : model_id ≡ attempted = ground (arith, e, h) in
            (same, ap (contains env.settings.model_allowlist) same ∙ e)
        | inr e ↦ absurd (ground (arith, e, h))
      ]

  pub listed :
      (names : List String) (name : String) → allows names name ≡ true → IsListed names name
  listed [] name h n = absurd (n refl)
  listed (x ∷ xs) name h n = h

  pub below : (used : ℕ) (cap : Option ℕ) → exceeds cap used ≡ false → IsWithin used cap
  below used none h limit e = absurd (cc e)
  below used (some c) h limit e = ground (arith, h, e)

  pub allowed_by_backend :
      (p : ToolParams)
      → request.tool_params ≡ some p
      → backend_allowed (resolve_backend env.is_space env.digits request) request.tool_params ≡ true
      → allows p.delegation_allowed_backends (resolve_backend env.is_space env.digits request)
        ≡ true
  unfolding backend_allowed
  allowed_by_backend p given h =
      sym (ap (backend_allowed (resolve_backend env.is_space env.digits request)) given) ∙ h

  pub allowed_by_model :
      (p : ToolParams) (model_id : String)
      → request.tool_params ≡ some p
      → model_allowed model_id request.tool_params ≡ true
      → allows p.delegation_model_allowlist model_id ≡ true
  unfolding model_allowed
  allowed_by_model p model_id given h = sym (ap (model_allowed model_id) given) ∙ h

  pub active_below :
      (p : ToolParams)
      → request.tool_params ≡ some p
      → reaches_concurrency_limit env.int_of request.tool_params s ≡ false
      → (limit : ℕ) → as_int env.int_of p.delegation_max_concurrent_tasks ≡ some (suc limit)
      → length (filter is_delegation (list_by_status running s ++ list_by_status pending s))
        < suc limit
  unfolding reaches_concurrency_limit
  active_below p given h limit e =
      let at_p : reaches_concurrency_limit env.int_of (some p) s ≡ false =
        sym (ap (λ (o : Option ToolParams). reaches_concurrency_limit env.int_of o s) given) ∙ h in
      ground (arith, at_p, e)

  abbrev AreWithin : ToolParams → ℕ → Type 0
  AreWithin p projected =
      (exceeds (coerce_int env.int_of p.delegation_per_task_token_cap) projected ≡ false)
      × (exceeds (coerce_int env.int_of p.delegation_per_session_token_cap)
            (session_used env.int_of env.total_tokens_of caller.session_id p seen s + projected)
          ≡ false)
      × (exceeds (coerce_int env.int_of p.delegation_global_token_cap)
            (global_used env.int_of env.total_tokens_of p seen s + projected)
          ≡ false)

  no_reason :
      (p : ToolParams) (projected : ℕ)
      → budget_reason env.int_of env.total_tokens_of caller.session_id projected p seen s ≡ none
      → AreWithin p projected
  unfolding budget_reason
  no_reason p projected h =
      if_none (exceeds (coerce_int env.int_of p.delegation_per_task_token_cap) projected)
        (exceeds (coerce_int env.int_of p.delegation_per_session_token_cap)
          (session_used env.int_of env.total_tokens_of caller.session_id p seen s + projected))
        (exceeds (coerce_int env.int_of p.delegation_global_token_cap)
          (global_used env.int_of env.total_tokens_of p seen s + projected))
        _ _ _ h

  pub in_caps :
      (p : ToolParams) (projected : ℕ)
      → 0 < projected
      → request.tool_params ≡ some p
      → check_budget env.int_of env.total_tokens_of caller.session_id
          (resolve_max_turns env.int_of request)
          request.tool_params
          seen
          s
        ≡ (none, projected)
      → (exceeds (coerce_int env.int_of p.delegation_per_task_token_cap) projected ≡ false)
        × (exceeds
              (coerce_int env.int_of p.delegation_per_session_token_cap)
              (session_used env.int_of env.total_tokens_of caller.session_id p seen s + projected)
            ≡ false)
        × (exceeds
              (coerce_int env.int_of p.delegation_global_token_cap)
              (global_used env.int_of env.total_tokens_of p seen s + projected)
            ≡ false)
  unfolding check_budget
  in_caps p projected more given h =
      let n = projected_tokens env.int_of (resolve_max_turns env.int_of request) in
      let at_p : check_budget env.int_of env.total_tokens_of caller.session_id
            (resolve_max_turns env.int_of request) (some p) seen s
          ≡ (none, projected) =
        sym (
          ap
            (λ (o : Option ToolParams).
              check_budget env.int_of env.total_tokens_of caller.session_id
                (resolve_max_turns env.int_of request) o seen s)
            given)
        ∙ h in
      elim (Bool-cases (leb (n (some p)) 0)) [
        | inl e ↦ absurd (ground (arith, e, at_p, more))
        | inr e ↦
            let same : n (some p) ≡ projected = ground (arith, e, at_p) in
            subst (λ k. AreWithin p k) same (no_reason p (n (some p)) (ground (arith, e, at_p)))
      ]
