-- ===== src/Agent/Models.antt =====
-- backend/src/smeshariki_ai/agent/models.py and errors.py. JSON values are only passed on and
-- validated by pydantic: a value is its text here.
use Prim.Native.String.{◌++◌}
use bmstu_nirs.Common.{List, Option, String, [], none, ℕ, ◌*◌, ◌∷◌}

abbrev pub Json : Type 0
Json = String

pub data MessageRole : Type 0 where
  system user assistant tool : MessageRole

pub data LlmResultType : Type 0 where
  final tool_call invalid : LlmResultType

pub record ToolCall : Type 0 where
  pub id : String
  pub name : String
  pub arguments : Json

-- `Literal[2, 5, 10]`
pub data ReadingMinutes : Type 0 where
  two five ten : ReadingMinutes

abbrev pub minutes_of : ReadingMinutes → ℕ
minutes_of two = 2
minutes_of five = 5
minutes_of ten = 10

pub record UserRequest : Type 0 where
  pub content : String
  pub reading_minutes : Option ReadingMinutes

pub record AgentConfig : Type 0 where
  pub system_prompt : String
  pub max_iterations : ℕ

pub record ToolDefinition : Type 0 where
  pub name : String
  pub description : String
  pub parameters : Json

pub record ToolError : Type 0 where
  pub code : String
  pub message : String

pub record ToolResult : Type 0 where
  pub call_id : String
  pub name : String
  pub output : Option Json
  pub error : Option ToolError

pub record Message : Type 0 where
  pub role : MessageRole
  pub content : String
  pub call : Option ToolCall
  pub tool_result : Option ToolResult
  pub tool_call_id : Option String
  pub tool_name : Option String

abbrev pub text_message : MessageRole → String → Message
text_message role content = record {
  role = role;
  content = content;
  call = none;
  tool_result = none;
  tool_call_id = none;
  tool_name = none;
}

pub record LlmResponse : Type 0 where
  pub content : Option String
  pub tool_calls : List ToolCall

-- `LLMStreamEvent`; `unknown` is an object of another class.
pub data LlmStreamEvent : Type 0 where
  llm_text : String → LlmStreamEvent
  llm_response : LlmResponse → LlmStreamEvent
  unknown : LlmStreamEvent

-- `AgentStreamEvent`
pub data AgentStreamEvent : Type 0 where
  text_delta : String → AgentStreamEvent
  response : String → AgentStreamEvent

-- `provider_error` is an exception that a provider raises.
pub data AgentError : Type 0 where
  invalid_llm_response : AgentError
  agent_iteration_limit : AgentError
  provider_error : String → AgentError

-- `"".join(parts)`
abbrev pub join : List String → String
join [] = ""
join (s ∷ ss) = s ++ join ss

abbrev pub words_per_minute : ℕ
words_per_minute = 150

-- The text of `_length_instruction`. `str` prints a number.
abbrev pub length_note : (ℕ → String) → ReadingMinutes → String
length_note str m =
    "Объём ответа: история примерно на "
    ++ (str (minutes_of m)
        ++ (" минут чтения — около " ++ (str (minutes_of m * words_per_minute) ++ " слов.")))
