-- ===== src/Orchestrator/Samples.antt =====
-- Runs of the orchestrator on small inputs, over the file store.
use Prim.Native.Char.{Char}
use private_claw.Prelude.{
  ℕ, ◌≤◌, String, ◌≡◌, refl, Option, none, some, Bool, true, false, List, [], ◌∷◌, inl, contains,
  arith, string_eq, string_discrete, ℕ_discrete,
}
use private_claw.Prelude.Dict.{lookup, insert}
use private_claw.Prelude.Texts.{starts_with}
use private_claw.Store.Records.{SessionRecord, user_message}
use private_claw.Store.Session.{
  Sessions, append, append_lines, read_all_records, read_session, lines_of, session_path, safe_id,
  same_session, new_records, next_after, sorted, insert_sorted, file_append_lines, valid_records,
  event_ids,
}
use private_claw.Store.Session.Contract.{AreLogs}
use private_claw.Store.Session.Implements.{filesystem, filesystem-Laws}
use private_claw.Store.Interface.{Laws}
use private_claw.Store.Idempotency.{check_and_register_ingress, check, read_record}
use private_claw.Agent.Messages.{Texts, model_response, text_part}
use private_claw.Context.Metadata.{active, regular, save}
use private_claw.Orchestrator.Memory.{Writer, MemoryProposalToolCall, build_memory_intent_plans}
use private_claw.Orchestrator.Memory.Plans.{
  ArePlansOf, approved_count, build_memory_intent_plans_lem,
}
use private_claw.Orchestrator.Turn.{AdapterOutcome, replied, returned, TurnInput}
use private_claw.Orchestrator.Compaction.{CompactionConfig, NewSummary, compact_session, is_turn_id}
use private_claw.Orchestrator.Compaction.Layout.{Layout}
use private_claw.Orchestrator.Compaction.Pass as Pass
use private_claw.Orchestrator.Compaction.Pass.{compact_session_lem}
use private_claw.Orchestrator.Service.{OrchestratorEvent, Settings, Run, World, execute_turn}
use private_claw.Orchestrator.Service.Ends as Ends
use private_claw.Orchestrator.Service.Ends.{execute_turn_lem}
use private_claw.Orchestrator.Service.Once.{registering, execute_turn_once}

abbrev ascii : Char → Bool
ascii _ = false

filesystem-Laws_example : Laws (filesystem ascii) (AreLogs ascii)
filesystem-Laws_example = filesystem-Laws ascii

abbrev texts : Texts
texts = record { is_space = λ c. false; digits = λ n. "1"; loads = λ s. none; dumps = λ s. s }

abbrev no_writer : Option (Writer String ℕ)
no_writer = none

abbrev input : TurnInput
input = record {
  ids = record { session_id = "tg:1"; turn_id = "e1"; now = 5 };
  user_content = "hello";
  attachments = "[]";
  user_id = none;
  model_id = "m";
  default_model_id = "m";
  prompt_trace = none;
}

program : Unit {0}
unfolding append append_lines read_all_records lines_of session_path safe_id same_session
    new_records next_after sorted insert_sorted file_append_lines valid_records lookup insert
    starts_with is_turn_id check_and_register_ingress check read_record string_discrete ℕ_discrete
program = tt

no_files : AreLogs ascii []
unfolding program
no_files = record { at = λ k. record { whole = tt; ascending = tt; fresh = tt } }

abbrev reply : AdapterOutcome String
reply = replied "hi" (model_response (text_part "hi" ∷ []) ∷ []) [] none

abbrev said : String → String → SessionRecord
said event_id turn_id = record {
  session_id = "tg:1";
  sequence = 0;
  event_id = event_id;
  turn_id = turn_id;
  timestamp = 5;
  record_type = user_message;
  payload = [];
}

abbrev config : CompactionConfig
config = record {
  enabled = true;
  token_threshold = 10;
  min_turns_before_compact = 1;
  keep_recent_turns = 1;
  max_compactions = 3;
}

abbrev talked : Sessions
talked = (append ascii (said "a" "t1" ∷ said "b" "t2" ∷ []) []).1

abbrev new_summary : NewSummary
new_summary = record {
  event_id = "compaction-1";
  now = 9;
  iso_now = "2026";
  message_id = "summary-1";
}

abbrev summarize : List SessionRecord → Option String
summarize _ = some "they talked"

talked-Layout : Layout (read_session ascii "tg:1" talked)
unfolding program
talked-Layout = record {
  summaries = [];
  chat = said "a" "t1" ∷ record (said "b" "t2") { sequence = 1 } ∷ [];
  splits = refl;
  are_summaries = tt;
  numbered = tt;
  are_turns = ((refl, refl), ((refl, refl), tt));
  ascending = (omega arith, (omega arith, tt));
}

talked_valid : AreLogs ascii talked
talked_valid = (filesystem-Laws ascii).keeps (said "a" "t1" ∷ said "b" "t2" ∷ []) [] no_files

summary_unused : contains (event_ids (read_session ascii "tg:1" talked)) "compaction-1" ≡ false
unfolding program
summary_unused = refl

compact_session_lem_example :
    Pass.Ends texts.digits config
      (filesystem ascii)
      (filesystem-Laws ascii)
      summarize
      true
      "tg:1"
      new_summary
      talked
      talked-Layout
      (compact_session texts.digits config
        (filesystem ascii)
        summarize
        true
        "tg:1"
        new_summary
        (read_session ascii "tg:1" talked)
        talked)
compact_session_lem_example =
    compact_session_lem texts.digits config (filesystem ascii) (filesystem-Laws ascii) summarize
      true "tg:1" new_summary talked talked-Layout talked_valid summary_unused

abbrev itself : String → String
itself s = s

abbrev settings : Settings
settings = record {
  digest = itself;
  lock_ttl = 30;
  service_ttl = 60;
  ledger_ttl = 60;
  idempotency_retention_seconds = 1;
  compaction = config;
  input_tokens = λ j. none;
  default_model_id = "m";
  model_allowlist = "m" ∷ [];
  prompt_trace = none;
  current_tools = [];
}

abbrev event : OrchestratorEvent
event = record {
  source = "telegram";
  event_id = "e1";
  session_id = "tg:1";
  user_id = none;
  model_id_override = none;
  user_content = "hello";
  attachments = "[]";
}

abbrev run_at : ℕ → Run String
run_at now = record {
  clock = λ i. now;
  adapter = λ records. reply;
  summarize = summarize;
  new_summary = new_summary;
}

abbrev world : World Sessions ℕ
world = record {
  sessions = [];
  memory = 0;
  locks = [];
  ledger = [];
  registry = record {
    files =
        save itself
          (record {
            session_id = "tg:1";
            context_id = "telegram:1";
            created_at = 3;
            session_type = regular;
          })
          (record { status = active; last_activity_at = 3; turn_count = 0 }) [];
    routes = record { entries = []; writable = true; file = none };
  };
}

execute_turn_lem_example :
    Ends.Ends
      (filesystem ascii)
      texts
      no_writer
      settings
      event
      (run_at 5)
      world
      (execute_turn (filesystem ascii) texts no_writer settings event (run_at 5) world)
execute_turn_lem_example =
    execute_turn_lem (filesystem ascii) texts no_writer settings event (run_at 5) world

registered_first :
    (registering (filesystem ascii) texts no_writer settings event 5 5 []).0 ≡ (false, none)
unfolding program
registered_first = refl

execute_turn_once_example :
    let w' = (execute_turn (filesystem ascii) texts no_writer settings event (run_at 5) world).1 in
    execute_turn (filesystem ascii) texts no_writer settings event (run_at 9) w'
    ≡ (returned none, w')
execute_turn_once_example =
    execute_turn_once (filesystem ascii) texts no_writer settings event (run_at 5) (run_at 9) world
      tt registered_first (omega arith)

abbrev proposal : String → Bool → MemoryProposalToolCall
proposal intent_id asks = record {
  intent_id = intent_id;
  requires_user_confirmation = asks;
  json = "{}";
}

abbrev proposals : List (String × MemoryProposalToolCall)
proposals =
    ("c1", proposal "i1" false)
    ∷ ("c2", proposal "i1" false)
    ∷ ("c3", proposal "i2" true)
    ∷ ("c4", proposal "i3" false)
    ∷ []

build_memory_intent_plans_lem_example :
    let plans = build_memory_intent_plans (λ (p : MemoryProposalToolCall). inl p) proposals in
    ArePlansOf (λ (p : MemoryProposalToolCall). inl p) [] proposals plans
    × (approved_count plans ≤ 3)
build_memory_intent_plans_lem_example =
    build_memory_intent_plans_lem (λ (p : MemoryProposalToolCall). inl p) proposals
