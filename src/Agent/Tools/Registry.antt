-- ===== src/Agent/Tools/Registry.antt =====
-- The registry: which tools it has, and what it tells a provider of them.
use mathlib.Core.List.{append_assoc, append-nil}
use bmstu_nirs.Common.{
  text_key, Bool-cases, List, Option, String, [], ap, arith, contains, false, find, if◌then◌else◌,
  inl, inr, insert, lookup-insert, map, none, refl, some, subst, sym, ◌++◌, ◌==◌, ◌∷◌, ◌≡◌,
}
use bmstu_nirs.Agent.Tools.{Tool, ToolRegistry, add_tools, definition_of, get, new_registry}

abbrev pub tool_named : String → List Tool → Option Tool
tool_named name ts = find (λ t. name == t.name) ts

-- A registry of the tools `ts`: each is found by its name, and its definition is shown in order.
abbrev pub IsRegistry : List Tool → ToolRegistry → Type 0
IsRegistry ts r =
    (r.definitions ≡ map definition_of ts) × ((name : String) → get name r ≡ tool_named name ts)

tool_named-snoc :
    (name : String) (ts : List Tool) (t : Tool)
    → tool_named name (ts ++ (t ∷ [])) ≡ elim (tool_named name ts) [
      | none ↦ if name == t.name then some t else none
      | some u ↦ some u
    ]
tool_named-snoc name [] t = ground arith
tool_named-snoc name (u ∷ ts) t = ground (arith, tool_named-snoc name ts t)

definitions-snoc :
    (ts : List Tool) (t : Tool)
    → map definition_of (ts ++ (t ∷ [])) ≡ map definition_of ts ++ (definition_of t ∷ [])
definitions-snoc [] t = refl
definitions-snoc (u ∷ ts) t = ap (◌∷◌ (definition_of u)) (definitions-snoc ts t)

added-IsRegistry :
    (t : Tool) (ts : List Tool) (r : ToolRegistry)
    → contains t.name r.tools ≡ false
    → IsRegistry ts r
    → IsRegistry (ts ++ (t ∷ [])) (record {
      tools = insert t.name t r.tools;
      definitions = r.definitions ++ (definition_of t ∷ []);
    })
added-IsRegistry t ts r unused (definitions, tools) = (
  ground (arith, definitions-snoc ts t),
  λ name. ground (
    arith,
    tools name,
    tools t.name,
    lookup-insert name t.name t r.tools,
    tool_named-snoc name ts t,
  ),
)

add_tools-IsRegistry :
    (us ts : List Tool) (r r' : ToolRegistry)
    → IsRegistry ts r
    → add_tools us r ≡ inr r'
    → IsRegistry (ts ++ us) r'
unfolding add_tools
add_tools-IsRegistry [] ts r r' v e =
    let same : r ≡ r' = ground arith in
    subst (IsRegistry (ts ++ [])) same (subst (λ us. IsRegistry us r) (sym (append-nil ts)) v)
add_tools-IsRegistry (t ∷ us) ts r r' v e = elim (Bool-cases (contains t.name r.tools)) [
  | inl used ↦ ground arith
  | inr unused ↦
      let added : ToolRegistry = record {
        tools = insert t.name t r.tools;
        definitions = r.definitions ++ (definition_of t ∷ []);
      } in
      subst (λ us. IsRegistry us r') (append_assoc ts (t ∷ []) us)
        (add_tools-IsRegistry us (ts ++ (t ∷ [])) added r' (added-IsRegistry t ts r unused v)
          (ground arith))
]

-- The constructor that succeeds gives a registry in which every tool is found by its name, no
-- other name is found, and the definitions are those of the tools in their order.
pub new_registry-IsRegistry :
    (ts : List Tool) (r : ToolRegistry) → new_registry ts ≡ inr r → IsRegistry ts r
unfolding new_registry
new_registry-IsRegistry ts r e =
    add_tools-IsRegistry ts [] (record { tools = []; definitions = [] }) r (refl, λ name. refl) e
