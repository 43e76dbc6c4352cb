-- ===== src/Orchestrator/Memory/Plans.antt =====
-- Which proposals src/assistant/core/orchestrator/memory.py approves.
use mathlib.Core.Bool.{false≢true}
use private_claw.Prelude.{
  ℕ, ◌+◌, ◌≤◌, String, ◌≡◌, refl, some, Bool, true, false, List, [], ◌∷◌, contains, ltb, arith, ◌∙◌,
  sym, Bool-cases, inl, inr, ◌⊎◌, ltb→lt, if◌then◌else◌, string_eq,
}
use private_claw.Orchestrator.Memory.{
  PrecheckStatus, approved_pending_apply, MemoryIntentPlan, MemoryProposalToolCall, plan_one,
  plans_from, build_memory_intent_plans, approve,
}

abbrev pub is_approved : PrecheckStatus → Bool
is_approved approved_pending_apply = true
is_approved _ = false

-- how many plans are approved
abbrev pub approved_count : {I : Type 0} → List (MemoryIntentPlan I) → ℕ
approved_count [] = 0
approved_count (plan ∷ plans) =
    (if is_approved plan.precheck_status then 1 else 0) + approved_count plans

answer_cases :
    {I : Type 0} (x : I ⊎ String)
    → ((intent : I) × (x ≡ inl intent)) ⊎ ((reason : String) × (x ≡ inr reason))
answer_cases (inl intent) = inl (intent, refl)
answer_cases (inr reason) = inr (reason, refl)

module _ {I : Type 0} (propose : MemoryProposalToolCall → I ⊎ String) where
  -- What holds of an approved plan: its proposal needs no confirmation, names an intent that no
  -- earlier proposal named, and gives the intent that the plan holds.
  abbrev pub IsJustified : List String → MemoryProposalToolCall → MemoryIntentPlan I → Type 0
  IsJustified earlier proposal plan =
      is_approved plan.precheck_status ≡ true
      → (contains earlier proposal.intent_id ≡ false)
        × (proposal.requires_user_confirmation ≡ false)
        × (intent : I) × (propose proposal ≡ inl intent)
        × (plan.intent ≡ some intent)

  -- one plan for each proposal, in order
  abbrev pub ArePlansOf :
      List String → List (String × MemoryProposalToolCall) → List (MemoryIntentPlan I) → Type 0
  ArePlansOf earlier [] [] = Unit
  ArePlansOf earlier ((tool_call_id, proposal) ∷ proposals) (plan ∷ plans) =
      (plan.tool_call_id ≡ tool_call_id)
      × IsJustified earlier proposal plan
      × ArePlansOf (proposal.intent_id ∷ earlier) proposals plans
  ArePlansOf earlier _ _ = ⊥

  one_lem :
      (seen earlier : List String) (n : ℕ) (tool_call_id : String)
      (proposal : MemoryProposalToolCall)
      → ((a : String) → contains seen a ≡ contains earlier a)
      → n ≤ 3
      → let (plan, seen', n') = plan_one propose seen n tool_call_id proposal in
        (plan.tool_call_id ≡ tool_call_id)
        × IsJustified earlier proposal plan
        × ((a : String) → contains seen' a ≡ contains (proposal.intent_id ∷ earlier) a)
        × (n' ≡ n + (if is_approved plan.precheck_status then 1 else 0))
        × (n' ≤ 3)
  unfolding plan_one approve
  one_lem seen earlier n tool_call_id proposal same le =
      elim (Bool-cases (contains seen proposal.intent_id)) [
        | inl again ↦ rw again (
          refl,
          λ h. absurd (false≢true h),
          λ a. ground (arith, same a, same proposal.intent_id, again),
          omega arith,
          le,
        )
        | inr new ↦ rw new (elim (Bool-cases proposal.requires_user_confirmation) [
          | inl asks ↦
              rw asks
                (refl, λ h. absurd (false≢true h), λ a. ground (arith, same a), omega arith, le)
          | inr free ↦ simp free (elim (Bool-cases (ltb n 3)) [
            | inr full ↦
                rw full
                  (refl, λ h. absurd (false≢true h), λ a. ground (arith, same a), omega arith, le)
            | inl room ↦ rw room (elim (answer_cases (propose proposal)) [
              | inl (intent, e) ↦ rw e (
                refl,
                λ h. (sym (same proposal.intent_id) ∙ new, refl, intent, refl, refl),
                λ a. ground (arith, same a),
                refl,
                omega (arith, ltb→lt n 3 room),
              )
              | inr (reason, e) ↦ rw e (
                refl,
                λ h. absurd (false≢true h),
                λ a. ground (arith, same a),
                omega arith,
                omega arith,
              )
            ])
          ])
        ])
      ]

  plans_lem :
      (seen earlier : List String) (n : ℕ) (proposals : List (String × MemoryProposalToolCall))
      → ((a : String) → contains seen a ≡ contains earlier a)
      → n ≤ 3
      → let plans = plans_from propose seen n proposals in
        ArePlansOf earlier proposals plans × (n + approved_count plans ≤ 3)
  unfolding plans_from
  plans_lem seen earlier n [] same le = (tt, omega arith)
  plans_lem seen earlier n ((tool_call_id, proposal) ∷ proposals) same le =
      let (named, justified, same', counts, le') =
        one_lem seen earlier n tool_call_id proposal same le in
      let (plan, seen', n') = plan_one propose seen n tool_call_id proposal in
      let (rest, bound) = plans_lem seen' (proposal.intent_id ∷ earlier) n' proposals same' le' in
      ((named, justified, rest), omega (arith, counts, bound))

  -- `build_memory_intent_plans` makes one plan for each proposal, in order and with its tool call;
  -- at most three are approved, and only plans of proposals that need no confirmation, name an intent
  -- that no earlier proposal names, and give the intent that the plan holds.
  pub build_memory_intent_plans_lem :
      (proposals : List (String × MemoryProposalToolCall))
      → let plans = build_memory_intent_plans propose proposals in
        ArePlansOf [] proposals plans × (approved_count plans ≤ 3)
  unfolding build_memory_intent_plans
  build_memory_intent_plans_lem proposals =
      let (plans, bound) = plans_lem [] [] 0 proposals (λ a. refl) (omega arith) in
      (plans, omega (arith, bound))
