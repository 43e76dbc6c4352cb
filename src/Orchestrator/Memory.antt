-- ===== src/Orchestrator/Memory.antt =====
-- Plans of memory updates and their application: src/assistant/core/orchestrator/memory.py.
pub mod Plans
use Prim.Native.String.{◌++◌ as ◌&◌}
use private_claw.Prelude.{
  ℕ, ◌+◌, String, Option, none, some, Bool, true, false, List, [], ◌∷◌, contains, ltb,
  if◌then◌else◌, ◌⊎◌, inl, inr, string_eq,
}
use private_claw.Orchestrator.Persistence.{MemoryOutcome}

abbrev pub max_memory_writes_per_turn : ℕ
max_memory_writes_per_turn = 3

-- `precheck_status`: those that the checks give, or any other
pub data PrecheckStatus : Type 0 where
  approved_pending_apply pending_confirmation : PrecheckStatus
  rejected_duplicate_intent rejected_write_limit rejected_invalid : PrecheckStatus
  other_status : String → PrecheckStatus

-- `I` is the type of MemoryUpdateIntent.
pub record MemoryIntentPlan (I : Type 0) : Type 0 where
  pub tool_call_id : String
  pub intent_json : String
  pub precheck_status : PrecheckStatus
  pub requires_confirmation : Bool
  pub intent : Option I
  pub reason : String

-- MemoryProposalToolCall, as far as the plans read it, with its `model_dump_json`
pub record MemoryProposalToolCall : Type 0 where
  pub intent_id : String
  pub requires_user_confirmation : Bool
  pub json : String

-- one plan without an intent
rejected :
    {I : Type 0} → String → MemoryProposalToolCall → PrecheckStatus → String → MemoryIntentPlan I
rejected tool_call_id proposal status reason = record {
  tool_call_id = tool_call_id;
  intent_json = proposal.json;
  precheck_status = status;
  requires_confirmation = proposal.requires_user_confirmation;
  intent = none;
  reason = reason;
}

module _ {I : Type 0} (propose : MemoryProposalToolCall → I ⊎ String) where
  -- `memory_propose_update`, which gives the intent or raises, by its text
  unfoldable pub approve : String → MemoryProposalToolCall → I ⊎ String → MemoryIntentPlan I
  unfolding rejected
  approve tool_call_id proposal (inl intent) = record {
    tool_call_id = tool_call_id;
    intent_json = proposal.json;
    precheck_status = approved_pending_apply;
    requires_confirmation = false;
    intent = some intent;
    reason = "";
  }
  approve tool_call_id proposal (inr reason) =
      rejected tool_call_id proposal rejected_invalid reason

  abbrev approved_by : I ⊎ String → ℕ
  approved_by (inl _) = 1
  approved_by (inr _) = 0

  -- One round of the loop, with the identifiers seen and the writes approved so far: the plan, and
  -- both of them after it.
  unfoldable pub plan_one :
      List String → ℕ → String → MemoryProposalToolCall → MemoryIntentPlan I × List String × ℕ
  unfolding rejected approve
  plan_one seen writes_approved tool_call_id proposal =
      let seen' = proposal.intent_id ∷ seen in
      if contains seen proposal.intent_id
      then (
        rejected tool_call_id proposal rejected_duplicate_intent
            "duplicate intent_id in turn payload",
        seen,
        writes_approved,
      )
      else if proposal.requires_user_confirmation
      then (
        rejected tool_call_id proposal pending_confirmation "requires_user_confirmation=true",
        seen',
        writes_approved,
      )
      else if ltb writes_approved max_memory_writes_per_turn
      then (let answer = propose proposal in
          (approve tool_call_id proposal answer, seen', writes_approved + approved_by answer))
      else (
        rejected tool_call_id proposal rejected_write_limit "exceeds max writes per turn (3)",
        seen',
        writes_approved,
      )

  unfoldable pub plans_from :
      List String → ℕ → List (String × MemoryProposalToolCall) → List (MemoryIntentPlan I)
  unfolding plan_one
  plans_from seen writes_approved [] = []
  plans_from seen writes_approved ((tool_call_id, proposal) ∷ proposals) =
      let (plan, seen', writes_approved') = plan_one seen writes_approved tool_call_id proposal in
      plan ∷ plans_from seen' writes_approved' proposals

  unfoldable pub build_memory_intent_plans :
      List (String × MemoryProposalToolCall) → List (MemoryIntentPlan I)
  unfolding plans_from
  build_memory_intent_plans = plans_from [] 0

-- `memory_writer.apply_intent`, on the writer's state: the audit by its JSON text, or what it raises
abbrev pub Writer : Type 0 → Type 0 → Type 0
Writer I M = I → M → (String ⊎ String) × M

-- `quote` is `json.dumps` of a text.
module _ (quote : String → String) where
  unfoldable pub status_text : PrecheckStatus → String
  status_text approved_pending_apply = "approved_pending_apply"
  status_text pending_confirmation = "pending_confirmation"
  status_text rejected_duplicate_intent = "rejected_duplicate_intent"
  status_text rejected_write_limit = "rejected_write_limit"
  status_text rejected_invalid = "rejected_invalid"
  status_text (other_status s) = s

  abbrev bool_text : Bool → String
  bool_text true = "true"
  bool_text false = "false"

  -- the result of a plan that is not applied
  unfoldable pub unapplied : {I : Type 0} → MemoryIntentPlan I → String
  unfolding status_text
  unapplied plan =
      "{\"status\": "
      & quote (status_text plan.precheck_status)
      & ", \"reason\": "
      & quote plan.reason
      & ", \"requires_user_confirmation\": "
      & bool_text plan.requires_confirmation
      & "}"

  unfoldable pub failed_result : String → String
  failed_result reason = "{\"status\": \"failed\", \"reason\": " & quote reason & "}"

  applied : {M : Type 0} → String → (String ⊎ String) × M → MemoryOutcome × M
  unfolding failed_result
  applied tool_call_id (inl audit, m) = ((tool_call_id, audit, none), m)
  applied tool_call_id (inr error, m) = ((tool_call_id, failed_result error, some error), m)

  abbrev unavailable : String → MemoryOutcome
  unfolding failed_result
  unavailable tool_call_id =
      (tool_call_id, failed_result "memory writer unavailable", some "memory writer unavailable")

  module _ {I M : Type 0} where
    -- an approved plan
    unfoldable pub apply_approved : Option (Writer I M) → String → Option I → M → MemoryOutcome × M
    unfolding applied
    apply_approved (some writer) tool_call_id (some intent) m =
        applied tool_call_id (writer intent m)
    apply_approved _ tool_call_id _ m = (unavailable tool_call_id, m)

    unfoldable pub apply_plan :
        Option (Writer I M) → PrecheckStatus → MemoryIntentPlan I → M → MemoryOutcome × M
    unfolding unapplied apply_approved
    apply_plan writer approved_pending_apply plan m =
        apply_approved writer plan.tool_call_id plan.intent m
    apply_plan writer _ plan m = ((plan.tool_call_id, unapplied plan, none), m)

    unfoldable pub apply_approved_memory_intents :
        Option (Writer I M) → List (MemoryIntentPlan I) → M → List MemoryOutcome × M
    unfolding apply_plan
    apply_approved_memory_intents writer [] m = ([], m)
    apply_approved_memory_intents writer (plan ∷ plans) m =
        let (outcome, m') = apply_plan writer plan.precheck_status plan m in
        let (outcomes, m'') = apply_approved_memory_intents writer plans m' in
        (outcome ∷ outcomes, m'')
