-- ===== src/Subagents/Enqueue/Guards.antt =====
-- What an accepted request has passed, in src/assistant/subagents/coordinator.py.
use private_claw.Prelude.{
  ℕ, ◌<◌, String, ◌≡◌, ◌≢◌, Option, none, some, true, contains, arith, ◌==◌, string_eq,
  Option-cases, inl, inr, Bool-cases, refl, subst, sym,
}
use private_claw.Prelude.Dict.{lookup}
use private_claw.Store.Files.{after_seconds, Document}
use private_claw.Store.Task.{
  stored, already_exists, TaskRecord, Tasks, create, task_path, write_task,
}
use private_claw.Subagents.Params.{
  Request, resolve_backend, resolve_model_id, backend_allowed, model_allowed, resolve_max_turns,
  resolve_ttl_seconds,
}
use private_claw.Subagents.Limits.{reaches_concurrency_limit, check_budget}
use private_claw.Subagents.Enqueue.{
  Env, Caller, acceptance, Acceptance, accepted, rejected_invalid, rejected_policy, objective_of,
  task_id_of, new_task, enqueue_within, enqueue_model, enqueue_from_tool,
}
use private_claw.Subagents.Enqueue.Admission.{
  resolved_model, listed, below, allowed_by_backend, allowed_by_model, active_below, in_caps,
  HasPassed, IsAdmitted,
}

module _ (env : Env) (caller : Caller) (request : Request) (seen now : ℕ) (s : Tasks) where
  -- an acceptance admits the request, and anything else changes nothing
  abbrev pub IsSound : Acceptance × Tasks → Type 0
  IsSound r =
      ((task_id : String) (expires_at : ℕ)
        → r.0 ≡ accepted task_id expires_at
        → IsAdmitted env caller request seen now s r.1 task_id expires_at)
      × (((task_id : String) (expires_at : ℕ) → r.0 ≢ accepted task_id expires_at) → r.1 ≡ s)

  invalid-IsSound : (reason : String) → IsSound (rejected_invalid reason, s)
  invalid-IsSound reason = ((λ id at e. absurd (cc e)), (λ _. refl))

  policy-IsSound : (reason : String) → IsSound (rejected_policy reason, s)
  policy-IsSound reason = ((λ id at e. absurd (cc e)), (λ _. refl))

  create_fresh :
      (task : TaskRecord)
      → lookup (task_path env.is_alnum task.task_id) s ≡ none
      → create env.is_alnum task s ≡ (stored task, write_task env.is_alnum task.task_id task s)
  unfolding create
  create_fresh task h = ground arith

  create_taken :
      (task : TaskRecord) (old : Document TaskRecord)
      → lookup (task_path env.is_alnum task.task_id) s ≡ some old
      → create env.is_alnum task s ≡ (already_exists, s)
  unfolding create
  create_taken task old h = ground arith

  id_of_accepted : (i j : String) (m n : ℕ) → accepted i m ≡ accepted j n → (j ≡ i) × (n ≡ m)
  id_of_accepted i j m n e = (cc e, cc e)

  within-IsSound :
      (model_id : String) (budget : Option String × ℕ)
      → HasPassed env caller request seen now s model_id
      → check_budget env.int_of env.total_tokens_of caller.session_id
          (resolve_max_turns env.int_of request)
          request.tool_params
          seen
          s
        ≡ budget
      → IsSound (enqueue_within env caller request model_id now s budget)
  unfolding enqueue_within new_task
  within-IsSound model_id (some reason, projected) h b = policy-IsSound reason
  within-IsSound model_id (none, projected) h b =
      let task = new_task env caller request model_id projected now in
      let id = task_id_of env request in
      let expires_at = after_seconds now (resolve_ttl_seconds env.int_of request.tool_params) in
      elim (Option-cases (lookup (task_path env.is_alnum id) s)) [
        | inl unused ↦
            subst (λ r. IsSound (acceptance id expires_at r)) (sym (create_fresh task unused))
              (
                (λ i at e.
                    let (same, when) = id_of_accepted id i expires_at at e in
                    record {
                      model_id = model_id;
                      projected = projected;
                      passed = h;
                      resolved = (resolved_model env caller request seen now s model_id h.model).0;
                      known_model =
                          (resolved_model env caller request seen now s model_id h.model).1;
                      allowed = λ p given.
                          let caps = λ (more : 0 < projected).
                            in_caps env caller request seen now s p projected more given b in
                          record {
                            backend =
                                listed env caller request seen now s p.delegation_allowed_backends _
                                  (allowed_by_backend env caller request seen now s p given
                                    h.allowed_backend);
                            model =
                                listed env caller request seen now s p.delegation_model_allowlist _
                                  (allowed_by_model env caller request seen now s p model_id given
                                    h.allowed_model);
                            active =
                                active_below env caller request seen now s p given h.below_limit;
                            task_cap =
                                λ more. below env caller request seen now s _ _ (caps more).0;
                            session_cap =
                                λ more. below env caller request seen now s _ _ (caps more).1;
                            global_cap =
                                λ more. below env caller request seen now s _ _ (caps more).2;
                          };
                      named = same;
                      unused = unused;
                      made = refl;
                      expiry = when;
                    }),
                (λ none_accepted. absurd (none_accepted id expires_at refl)),
              )
        | inr (old, taken) ↦
            subst (λ r. IsSound (acceptance id expires_at r)) (sym (create_taken task old taken))
              ((λ i at e. absurd (cc e)), (λ _. refl))
      ]

  model-IsSound :
      (model : Option String)
      → objective_of env request ≢ ""
      → contains env.settings.backends (resolve_backend env.is_space env.digits request) ≡ true
      → resolve_model_id env.is_space env.digits env.settings request ≡ model
      → IsSound (enqueue_model env caller request seen now s model)
  unfolding enqueue_model
  model-IsSound none o b m = policy-IsSound _
  model-IsSound (some model_id) o b m =
      let backend = resolve_backend env.is_space env.digits request in
      elim (Bool-cases (backend_allowed backend request.tool_params)) [
        | inr e ↦ rw e (policy-IsSound _)
        | inl allowed ↦ elim (Bool-cases (model_allowed model_id request.tool_params)) [
          | inr e ↦ rw (allowed, e) (policy-IsSound _)
          | inl allowed_too ↦
              elim (Bool-cases (reaches_concurrency_limit env.int_of request.tool_params s)) [
                | inl e ↦ rw (allowed, allowed_too, e) (policy-IsSound _)
                | inr few ↦
                    rw (allowed, allowed_too, few)
                      (within-IsSound model_id _
                        (record {
                          objective = o;
                          backend = b;
                          model = m;
                          allowed_backend = allowed;
                          allowed_model = allowed_too;
                          below_limit = few;
                        })
                        refl)
              ]
        ]
      ]

  -- a request that passes every test, within the budget and with a new identifier, is accepted
  abbrev pub IsComplete : Acceptance × Tasks → Type 0
  IsComplete r =
      (model_id : String) (projected : ℕ)
      → HasPassed env caller request seen now s model_id
      → check_budget env.int_of env.total_tokens_of caller.session_id
          (resolve_max_turns env.int_of request) request.tool_params seen s
        ≡ (none, projected)
      → lookup (task_path env.is_alnum (task_id_of env request)) s ≡ none
      → r.0
        ≡ accepted (task_id_of env request)
            (after_seconds now (resolve_ttl_seconds env.int_of request.tool_params))

  within-IsComplete :
      (model_id : String) (projected : ℕ)
      → lookup (task_path env.is_alnum (task_id_of env request)) s ≡ none
      → (enqueue_within env caller request model_id now s (none, projected)).0
        ≡ accepted
            (task_id_of env request)
            (after_seconds now (resolve_ttl_seconds env.int_of request.tool_params))
  unfolding enqueue_within new_task
  within-IsComplete model_id projected unused =
      rw (create_fresh (new_task env caller request model_id projected now) unused) refl

  complete : IsComplete (enqueue_from_tool env caller request seen now s)
  unfolding enqueue_from_tool enqueue_model
  complete model_id projected h b unused = elim (Bool-cases (objective_of env request == "")) [
    | inl e ↦ absurd (h.objective (ground (arith, e)))
    | inr given ↦
        rw (given, h.backend, h.model, h.allowed_backend, h.allowed_model, h.below_limit, b)
          (within-IsComplete model_id projected unused)
  ]

  sound : IsSound (enqueue_from_tool env caller request seen now s)
  unfolding enqueue_from_tool
  sound =
      let backend = resolve_backend env.is_space env.digits request in
      elim (Bool-cases (objective_of env request == "")) [
        | inl e ↦ rw e (invalid-IsSound _)
        | inr given ↦ elim (Bool-cases (contains env.settings.backends backend)) [
          | inr e ↦ rw (given, e) (invalid-IsSound _)
          | inl known ↦ rw (given, known) (model-IsSound _ (λ e. absurd (ground arith)) known refl)
        ]
      ]

  pub enqueue_from_tool_lem :
      let r = enqueue_from_tool env caller request seen now s in IsSound r × IsComplete r
  enqueue_from_tool_lem = (sound, complete)
