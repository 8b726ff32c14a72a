-- ===== src/Flow/Scope.antt =====
-- Scope and EvaluationScope of src/libs/flow/src/engine/eval/evaluation_context.{hpp,cpp}: names, types
-- and the pending flow control of the blocks that are being evaluated.
-- Every std::deque is listed from its back: `push_back` is `∷`, and a reverse iteration is the
-- order of the list. The Shared<Option<Entity>> of a scope is an index into `cells`, so that scopes
-- which share it see one another's writes. `none` is the undefined `back()` of an empty deque.
pub mod Steps
pub mod Lookup
pub mod Unwinding
pub mod Shape
pub mod Frames
mod Tests
use text.Mathlib.Text.{◌==◌ as str_eq}
use ez_cpp.Prelude.{
  ℕ, String, Bool, Option, none, some, List, [], ◌∷◌, ◌++◌, if◌then◌else◌, length, set, foldl,
  ◌>>=◌,
}
use ez_cpp.Flow.Types.{TypeInfo, EntityKind, static_type}

pub record VariableEntry (E : Type 0) : Type 0 where
  pub name : String
  pub value : E

pub data ScopeType : Type 0 where
  function loop local : ScopeType

pub data FlowControlPolicy : Type 0 where
  stay return break : FlowControlPolicy

pub record Scope (E : Type 0) : Type 0 where
  pub return_value : ℕ
  pub type : ScopeType
  pub flow_control_policy : FlowControlPolicy
  pub entries : List (VariableEntry E)
  pub types : List TypeInfo

pub record EvaluationScope (E : Type 0) : Type 0 where
  pub scopes : List (Scope E)
  pub cells : List (Option E)

-- `EntityTypeList`
abbrev pub entity_type_list : List EntityKind
entity_type_list =
    EntityKind.error ∷ EntityKind.void ∷ EntityKind.boolean ∷ EntityKind.integer ∷ EntityKind.real
    ∷ EntityKind.string ∷ EntityKind.duration ∷ EntityKind.time_point ∷ EntityKind.array
    ∷ EntityKind.dictionary ∷ EntityKind.member_function ∷ EntityKind.free_function
    ∷ EntityKind.workflow_definition ∷ EntityKind.workflow_invocation ∷ EntityKind.action
    ∷ EntityKind.action_reply ∷ EntityKind.campaign ∷ EntityKind.campaign_reply
    ∷ EntityKind.http_request ∷ EntityKind.http_reply ∷ EntityKind.device_info_request
    ∷ EntityKind.device_info_reply ∷ []

-- The search of `Scope::find_type`.
unfoldable pub find_type_in : String → List TypeInfo → Option TypeInfo
find_type_in name [] = none
find_type_in name (t ∷ ts) = if str_eq t.name name then some t else find_type_in name ts

abbrev pub first_of_two {ℓ} : {A : Type ℓ} → Option A → Option A → Option A
first_of_two none o = o
first_of_two (some a) o = some a

module _ {E : Type 0} where
  abbrev pub new_scope : ℕ → ScopeType → Scope E
  new_scope cell t = record {
    return_value = cell;
    type = t;
    flow_control_policy = FlowControlPolicy.stay;
    entries = [];
    types = [];
  }

  -- `Scope::add`, of a type and of a variable.
  unfoldable pub add_type : TypeInfo → Scope E → Scope E
  add_type t s = record s { types = t ∷ s.types }

  unfoldable pub add : String → E → Scope E → Scope E
  add name value s = record s { entries = record { name = name; value = value } ∷ s.entries }

  -- The search of `Scope::find_entity` over its entries.
  unfoldable pub find_entry : String → List (VariableEntry E) → Option (VariableEntry E)
  find_entry name [] = none
  find_entry name (e ∷ es) = if str_eq e.name name then some e else find_entry name es

  -- `EvaluationScope::find_entity` over the scopes.
  unfoldable pub find_entity_in : String → List (Scope E) → Option (VariableEntry E)
  find_entity_in name [] = none
  find_entity_in name (s ∷ ss) = first_of_two (find_entry name s.entries) (find_entity_in name ss)

  unfoldable pub find_entity : String → EvaluationScope E → Option (VariableEntry E)
  unfolding find_entity_in
  find_entity name es = find_entity_in name es.scopes

  unfoldable pub find_type_in_scopes : String → List (Scope E) → Option TypeInfo
  find_type_in_scopes name [] = none
  find_type_in_scopes name (s ∷ ss) =
      first_of_two (find_type_in name s.types) (find_type_in_scopes name ss)

  unfoldable pub find_type : String → EvaluationScope E → Option TypeInfo
  unfolding find_type_in_scopes
  find_type name es = find_type_in_scopes name es.scopes

  unfoldable pub scope_count : EvaluationScope E → ℕ
  scope_count es = length es.scopes

  -- `current()`
  unfoldable pub current : EvaluationScope E → Option (Scope E)
  current es = elim es.scopes [ [] ↦ none | s ∷ _ ↦ some s ]

  -- A change made through the reference that `current()` returns.
  unfoldable pub edit_current : (Scope E → Scope E) → EvaluationScope E → Option (EvaluationScope E)
  edit_current f es = elim es.scopes [ [] ↦ none | s ∷ ss ↦ some (record es { scopes = f s ∷ ss }) ]

  abbrev pub set_policy : FlowControlPolicy → Scope E → Scope E
  set_policy p s = record s { flow_control_policy = p }

  -- A local or loop scope shares the cell of the current scope; a function scope makes its own.
  unfoldable pub push : ScopeType → EvaluationScope E → Option (EvaluationScope E)
  unfolding current
  push ScopeType.function es = some (record {
    scopes = new_scope (length es.cells) ScopeType.function ∷ es.scopes;
    cells = es.cells ++ none ∷ [];
  })
  push ScopeType.loop es = do
    s ← current es
    some (record es { scopes = new_scope s.return_value ScopeType.loop ∷ es.scopes })
  push ScopeType.local es = do
    s ← current es
    some (record es { scopes = new_scope s.return_value ScopeType.local ∷ es.scopes })

  -- `EvaluationScope::return_value` writes the shared cell, then marks the current scope.
  unfoldable pub return_value : E → EvaluationScope E → Option (EvaluationScope E)
  unfolding current edit_current
  return_value value es = do
    s ← current es
    edit_current (set_policy FlowControlPolicy.return)
        (record es { cells = set es.cells s.return_value (some value) })

  unfoldable pub break_loop : EvaluationScope E → Option (EvaluationScope E)
  unfolding edit_current
  break_loop = edit_current (set_policy FlowControlPolicy.break)

  -- The `if` ladder of `pop`: what the scope below is told when one with this type and policy goes.
  unfoldable pub propagate :
      FlowControlPolicy → ScopeType → EvaluationScope E → Option (EvaluationScope E)
  unfolding edit_current
  propagate FlowControlPolicy.stay t es = some es
  propagate FlowControlPolicy.return ScopeType.loop es =
      edit_current (set_policy FlowControlPolicy.return) es
  propagate FlowControlPolicy.return ScopeType.local es =
      edit_current (set_policy FlowControlPolicy.return) es
  propagate FlowControlPolicy.return ScopeType.function es = some es
  propagate FlowControlPolicy.break ScopeType.loop es =
      edit_current (set_policy FlowControlPolicy.break) es
  propagate FlowControlPolicy.break ScopeType.local es =
      edit_current (set_policy FlowControlPolicy.break) es
  propagate FlowControlPolicy.break ScopeType.function es = some es

  unfoldable pub pop : EvaluationScope E → Option (EvaluationScope E)
  unfolding propagate
  pop es = elim es.scopes [
    | [] ↦ none
    | s ∷ ss ↦ propagate s.flow_control_policy s.type (record es { scopes = ss })
  ]

  -- The constructor: a function scope with the entity types and the three free functions, whose
  -- values `make` gives.
  unfoldable pub initial : (String → E) → Option (EvaluationScope E)
  unfolding push edit_current add_type add static_type
  initial make = do
    es ← push ScopeType.function (record { scopes = []; cells = [] })
    es ← edit_current (λ s. foldl (λ s k. add_type (static_type k) s) s entity_type_list) es
    es ← edit_current (add "println" (make "println")) es
    es ← edit_current (add "panic" (make "panic")) es
    edit_current (add "str_format" (make "str_format")) es
