-- ===== src/Subagents/Enqueue/Active.antt =====
-- The limit on active delegations in src/assistant/subagents/coordinator.py.
use private_claw.Prelude.{
  ℕ, suc, ◌+◌, ◌≤◌, String, ◌≡◌, Option, none, some, Bool, false, List, [], ◌∷◌, ◌++◌, filter,
  length, arith, ◌==◌, ◌&&◌, string_eq, refl, if◌then◌else◌, subst, sym,
}
use private_claw.Prelude.Dict.{lookup, insert}
use private_claw.Store.Files.{malformed, holds}
use private_claw.Store.Task.{
  TaskRecord, Tasks, TaskStatus, pending, running, list_by_status, status_eq, task_path, write_task,
}
use private_claw.Subagents.Params.{ToolParams, Request, param, as_int}
use private_claw.Subagents.Limits.{is_delegation, reaches_concurrency_limit}
use private_claw.Subagents.Enqueue.{Env, Caller, accepted, enqueue_from_tool, new_task, task_id_of}
use private_claw.Subagents.Enqueue.Guards.{enqueue_from_tool_lem}

-- the delegations that run or wait
abbrev pub active : Tasks → ℕ
active s = length (filter is_delegation (list_by_status running s ++ list_by_status pending s))

length-filter-append :
    (p : TaskRecord → Bool) (xs ys : List TaskRecord)
    → length (filter p (xs ++ ys)) ≡ length (filter p xs) + length (filter p ys)
length-filter-append p [] ys = omega arith
length-filter-append p (x ∷ xs) ys = ground (arith, length-filter-append p xs ys)

length-list-insert :
    (p : TaskRecord → Bool) (status : TaskStatus) (k : String) (t : TaskRecord) (s : Tasks)
    → lookup k s ≡ none
    → length (filter p (list_by_status status (insert k (holds t) s)))
      ≡ length (filter p (list_by_status status s)) + (if t.status == status && p t then 1 else 0)
unfolding list_by_status insert lookup
length-list-insert p status k t [] h = ground arith
length-list-insert p status k t ((j, malformed) ∷ s) h =
    ground (arith, length-list-insert p status k t s)
length-list-insert p status k t ((j, holds u) ∷ s) h =
    ground (arith, length-list-insert p status k t s)

active-insert :
    (k : String) (t : TaskRecord) (s : Tasks)
    → lookup k s ≡ none
    → t.status ≡ pending
    → active (insert k (holds t) s) ≤ suc (active s)
active-insert k t s h e = ground (
  arith,
  e,
  length-filter-append is_delegation (list_by_status running s) (list_by_status pending s),
  length-filter-append is_delegation (list_by_status running (insert k (holds t) s))
      (list_by_status pending (insert k (holds t) s)),
  length-list-insert is_delegation running k t s h,
  length-list-insert is_delegation pending k t s h,
)

below :
    (int_of : String → Option ℕ) (tool_params : Option ToolParams) (limit : ℕ) (s : Tasks)
    → as_int int_of (param (λ p. p.delegation_max_concurrent_tasks) tool_params) ≡ some (suc limit)
    → reaches_concurrency_limit int_of tool_params s ≡ false
    → active s ≤ limit
unfolding reaches_concurrency_limit
below int_of tool_params limit s e h = ground arith

-- With a limit of at least 1 on active delegations, an accepted request leaves at most that many
-- that run or wait.
pub active-enqueue-le :
    (env : Env) (caller : Caller) (request : Request) (seen now : ℕ) (s : Tasks) (limit : ℕ)
    (task_id : String) (expires_at : ℕ)
    → as_int env.int_of (param (λ p. p.delegation_max_concurrent_tasks) request.tool_params)
      ≡ some (suc limit)
    → (enqueue_from_tool env caller request seen now s).0 ≡ accepted task_id expires_at
    → active (enqueue_from_tool env caller request seen now s).1 ≤ suc limit
unfolding write_task new_task
active-enqueue-le env caller request seen now s limit task_id expires_at e h =
    let a = (enqueue_from_tool_lem env caller request seen now s).0.0 task_id expires_at h in
    let new = new_task env caller request a.model_id a.projected now in
    subst (λ s'. active s' ≤ suc limit) (sym a.made)
      (omega (
        arith,
        active-insert (task_path env.is_alnum (task_id_of env request)) new s a.unused refl,
        below env.int_of request.tool_params limit s e a.passed.below_limit,
      ))
