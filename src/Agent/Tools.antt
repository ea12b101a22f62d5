-- ===== src/Agent/Tools.antt =====
-- `ToolRegistry` of backend/src/smeshariki_ai/agent/tools.py. What a tool does is given with it:
-- `validate` is its pydantic model, and `execute` its work and the conversion of the output to
-- JSON, either of which may raise. The work may depend on the call, which is numbered.
pub mod Registry
use bmstu_nirs.Common.{
  text_key, Dict, List, Option, String, [], contains, if◌then◌else◌, inl, inr, insert, lookup, none,
  some, ℕ, ◌++◌, ◌∷◌, ◌⊎◌,
}
use bmstu_nirs.Agent.Models.{Json, ToolCall, ToolDefinition, ToolResult}

pub record Tool : Type 0 where
  pub name : String
  pub description : String
  pub schema : Json
  pub validate : Json → Option Json
  pub execute : ℕ → Json → Option Json

pub record ToolRegistry : Type 0 where
  pub tools : Dict String Tool
  pub definitions : List ToolDefinition

abbrev pub definition_of : Tool → ToolDefinition
definition_of t = record { name = t.name; description = t.description; parameters = t.schema }

-- The loop of the constructor; the name of a tool that comes twice is a `DuplicateToolError`.
unfoldable pub add_tools : List Tool → ToolRegistry → String ⊎ ToolRegistry
add_tools [] r = inr r
add_tools (t ∷ ts) r =
    let rest = add_tools ts (record {
      tools = insert t.name t r.tools;
      definitions = r.definitions ++ (definition_of t ∷ []);
    }) in
    if contains t.name r.tools then inl t.name else rest

unfoldable pub new_registry : List Tool → String ⊎ ToolRegistry
unfolding add_tools
new_registry ts = add_tools ts (record { tools = []; definitions = [] })

abbrev pub get : String → ToolRegistry → Option Tool
get name r = lookup name r.tools

abbrev pub failed_call : ToolCall → String → String → ToolResult
failed_call c code message = record {
  call_id = c.id;
  name = c.name;
  output = none;
  error = some (record { code = code; message = message });
}

unfoldable pub execute : ToolRegistry → ℕ → ToolCall → ToolResult
execute r n c = elim (get c.name r) [
  | none ↦ failed_call c "tool_not_found" "The requested tool is not available."
  | some t ↦ elim (t.validate c.arguments) [
    | none ↦ failed_call c "invalid_arguments" "The tool arguments are invalid."
    | some arguments ↦ elim (t.execute n arguments) [
      | none ↦ failed_call c "tool_execution_failed" "The tool could not be executed."
      | some output ↦ record { call_id = c.id; name = c.name; output = some output; error = none }
    ]
  ]
]
