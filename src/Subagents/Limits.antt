-- ===== src/Subagents/Limits.antt =====
-- The concurrency limit and the token budgets of src/assistant/subagents/coordinator.py.
-- An object inside a task's result is taken by its JSON text: `total_tokens_of` reads the integer
-- `total_tokens` of the `usage` in a result, if there is one.
use private_claw.Prelude.{
  ℕ, ◌+◌, ◌-◌, ◌*◌, String, Option, none, some, Bool, true, false, List, [], ◌∷◌, ◌++◌, filter,
  contains, length, leb, ltb, if◌then◌else◌, ◌==◌, ◌&&◌, string_eq,
}
use private_claw.Store.Records.{Json, number, Payload, get}
use private_claw.Store.Task.{
  TaskRecord, Tasks, TaskStatus, pending, running, completed, failed, cancelled, expired,
  list_by_status, is_some_text,
}
use private_claw.Subagents.Params.{
  ToolParams, param, or_default, as_int, coerce_int, projected_tokens,
}

abbrev pub is_delegation : TaskRecord → Bool
is_delegation task = task.task_type == "delegation"

abbrev pub nat_or_zero : Json → ℕ
nat_or_zero (number n) = n
nat_or_zero _ = 0

module _ (total_tokens_of : Payload → Option ℕ) where
  abbrev pub used_of_result : Option Payload → Option ℕ
  used_of_result none = none
  used_of_result (some result) = total_tokens_of result

  unfoldable pub task_token_usage : TaskRecord → ℕ
  task_token_usage task =
      or_default (used_of_result task.result) (nat_or_zero (get "projected_tokens" task.metadata))

  unfoldable pub tokens_of : List TaskRecord → ℕ
  unfolding task_token_usage
  tokens_of [] = 0
  tokens_of (t ∷ ts) = task_token_usage t + tokens_of ts

-- the inner loop of `_list_all_delegation_tasks`, with the `seen` that the outer one goes on with
unfoldable pub unseen : List String → List TaskRecord → List String × List TaskRecord
unseen seen [] = (seen, [])
unseen seen (t ∷ ts) = elim (is_delegation t) [
  | false ↦ unseen seen ts
  | true ↦ elim (contains seen t.task_id) [
    | true ↦ unseen seen ts
    | false ↦ let (seen', rest) = unseen (t.task_id ∷ seen) ts in (seen', t ∷ rest)
  ]
]

unfoldable pub list_each_status : List String → List TaskStatus → Tasks → List TaskRecord
list_each_status seen [] s = []
list_each_status seen (status ∷ rest) s =
    let (seen', here) = unseen seen (list_by_status status s) in
    here ++ list_each_status seen' rest s

unfoldable pub list_all_delegation_tasks : Tasks → List TaskRecord
unfolding list_each_status
list_all_delegation_tasks =
    list_each_status [] (pending ∷ running ∷ completed ∷ failed ∷ cancelled ∷ expired ∷ [])

-- `if cap and used > cap`
abbrev pub exceeds : Option ℕ → ℕ → Bool
exceeds none used = false
exceeds (some cap) used = ltb cap used

module _ (int_of : String → Option ℕ) where
  unfoldable pub reaches_concurrency_limit : Option ToolParams → Tasks → Bool
  reaches_concurrency_limit tool_params s =
      elim (as_int int_of (param (λ p. p.delegation_max_concurrent_tasks) tool_params)) [
        | none ↦ false
        | some limit ↦
            let active = list_by_status running s ++ list_by_status pending s in
            ltb 0 limit && leb limit (length (filter is_delegation active))
      ]

module _ (int_of : String → Option ℕ) (total_tokens_of : Payload → Option ℕ) where
  -- A `cutoff` before the start of the count acts as 0.
  abbrev pub cutoff : ToolParams → ℕ → ℕ
  cutoff p now =
      now - or_default (coerce_int int_of p.delegation_budget_window_seconds) 86400 * 1000000

  abbrev pub relevant : ToolParams → ℕ → Tasks → List TaskRecord
  relevant p now s = filter (λ t. leb (cutoff p now) t.updated_at) (list_all_delegation_tasks s)

  unfoldable pub session_used : String → ToolParams → ℕ → Tasks → ℕ
  session_used session_id p now s =
      tokens_of total_tokens_of
        (filter (λ t. is_some_text t.parent_session_id session_id) (relevant p now s))

  unfoldable pub global_used : ToolParams → ℕ → Tasks → ℕ
  global_used p now s = tokens_of total_tokens_of (relevant p now s)

  -- the tests of `_check_budget` after the projection
  unfoldable pub budget_reason : String → ℕ → ToolParams → ℕ → Tasks → Option String
  budget_reason session_id projected p now s =
      if exceeds (coerce_int int_of p.delegation_per_task_token_cap) projected
      then some "task token budget exceeded"
      else if exceeds (coerce_int int_of p.delegation_per_session_token_cap)
          (session_used session_id p now s + projected)
      then some "session token budget exceeded"
      else if exceeds (coerce_int int_of p.delegation_global_token_cap)
          (global_used p now s + projected)
      then some "global token budget exceeded"
      else none

  abbrev pub reason_over : Option ToolParams → String → ℕ → ℕ → Tasks → Option String
  reason_over none session_id projected now s = none
  reason_over (some p) session_id projected now s = budget_reason session_id projected p now s

  unfoldable pub check_budget : String → ℕ → Option ToolParams → ℕ → Tasks → Option String × ℕ
  unfolding budget_reason
  check_budget session_id max_turns tool_params now s =
      let projected = projected_tokens int_of max_turns tool_params in
      if leb projected 0
      then (none, projected)
      else (reason_over tool_params session_id projected now s, projected)
