-- ===== src/Subagents/Execute/Runs.antt =====
-- What a backend is given of a request: enqueue_from_tool and _execute_task of
-- src/assistant/subagents/coordinator.py.
use private_claw.Prelude.{
  ℕ, zero, suc, ◌<◌, String, ◌≡◌, refl, Option, none, some, arith, string_eq, string_discrete,
}
use private_claw.Prelude.Dict.{lookup}
use private_claw.Subagents.Params.{
  Request, resolve_max_turns, resolve_timeout_seconds, parse_positive_int, positive, or_default,
}
use private_claw.Subagents.Enqueue.{Env, Caller, objective_of, task_id_of, new_task}
use private_claw.Subagents.Execute.{delegation_run, at_least_one}

or_positive : (o : Option ℕ) (d : ℕ) → 0 < d → 0 < or_default (positive o) d
or_positive none d h = h
or_positive (some zero) d h = h
or_positive (some (suc n)) d h = omega arith

pub turns_positive : (env : Env) (request : Request) → 0 < resolve_max_turns env.int_of request
unfolding resolve_max_turns parse_positive_int
turns_positive env request = or_positive _ _ (or_positive _ 8 (omega arith))

pub timeout_positive :
    (env : Env) (request : Request) → 0 < resolve_timeout_seconds env.int_of request
unfolding resolve_timeout_seconds parse_positive_int
timeout_positive env request = or_positive _ _ (or_positive _ 300 (omega arith))

at_least_one_lem : (n : ℕ) → 0 < n → at_least_one (some n) ≡ some n
at_least_one_lem zero h = absurd (omega arith)
at_least_one_lem (suc n) h = refl

-- The task that an accepted request leaves makes a valid run, with the request's objective, its
-- numbers of turns and seconds, which are at least 1, and its backend parameters.
pub delegation_run-new_task :
    (env : Env) (caller : Caller) (request : Request) (model_id : String) (projected now : ℕ)
    → delegation_run env (new_task env caller request model_id projected now)
      ≡ some (record {
        task_id = task_id_of env request;
        objective = objective_of env request;
        model_id = model_id;
        timeout_seconds = resolve_timeout_seconds env.int_of request;
        max_turns = resolve_max_turns env.int_of request;
        backend_params = request.backend_params;
      })
unfolding delegation_run new_task lookup string_discrete
delegation_run-new_task env caller request model_id projected now =
    rw
      (
        at_least_one_lem _ (timeout_positive env request),
        at_least_one_lem _ (turns_positive env request),
      )
      refl
