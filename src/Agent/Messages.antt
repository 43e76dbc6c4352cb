-- ===== src/Agent/Messages.antt =====
-- What src/assistant/agent/session_record_builder.py and message_converters.py read of the messages
-- of a run, which are pydantic-ai's.
use private_claw.Prelude.{String, Bool, List, ℕ, Option}
use Prim.Native.Char.{Char}

-- the content of a tool's return: a dict, a list, a number, Boolean or None, each by its JSON text,
-- a text, or any other value by its `str`
pub data ToolContent : Type 0 where
  dict_content list_content scalar_content text_content other_content : String → ToolContent

pub data ResponsePart : Type 0 where
  text_part : String → ResponsePart
  tool_call_part : (tool_call_id tool_name args_json : String) → ResponsePart
  other_response_part : ResponsePart

-- `retried` is `outcome == "retried"`
pub data RequestPart : Type 0 where
  tool_return_part : (tool_call_id tool_name : String) (retried : Bool) → ToolContent → RequestPart
  other_request_part : RequestPart

pub data ModelMessage : Type 0 where
  model_response : List ResponsePart → ModelMessage
  model_request : List RequestPart → ModelMessage

-- `str.isspace` of a character, the printed form of a number, `json.loads` of a text, none where it
-- raises, and `json.dumps` of a text
pub record Texts : Type 0 where
  pub is_space : Char → Bool
  pub digits : ℕ → String
  pub loads : String → Option ToolContent
  pub dumps : String → String

-- the arguments of `_new_messages_to_session_records` but the messages; the usage is a dict, by its
-- JSON text
pub record TurnInfo : Type 0 where
  pub session_id : String
  pub turn_id : String
  pub timestamp : ℕ
  pub assistant_msg_id : String
  pub model_id : Option String
  pub usage : Option String
  pub user_id : Option String
  pub skip_memory_tool_results : Bool
