-- ===== src/Flow/Entity.antt =====
-- Entities, src/libs/flow/src/engine/types/entity.hpp, and the values they hold (types/types.hpp and the
-- headers of builtin, core and execution beside it).
-- A value that is a Shared of a payload is the number of a cell: copies of it point to the same
-- payload. A Void, a time point, an error and the functions hold theirs themselves. The Cow of an
-- invocation's arguments is the arguments. A double is its bit pattern.
use ez_cpp.Prelude.{ℕ, suc, String, Bool, Option, List}
use ez_cpp.Prelude.Int.{ℤ}
use ez_cpp.Flow.Ast.{Located, Expression, FunctionCall}
use ez_cpp.Flow.Ast.Statements.{WorkflowDefinition}
use ez_cpp.Flow.Duration.{DurationStorage}
use ez_cpp.Flow.Types.{TypeInfo, EntityKind, static_type}

-- Dictionary and the types that are derived from it.
pub data DictionaryKind : Type 0 where
  dictionary action action_reply campaign campaign_reply : DictionaryKind
  http_request http_reply device_info_request device_info_reply : DictionaryKind

-- What made an invocation.
pub data Instanciation : Type 0 where
  function_call : FunctionCall → Instanciation
  expression : Expression → Instanciation

mutual
  pub data Entity : Type 0 where
    error : String → Option Located → Entity
    void : Entity
    boolean : ℕ → Entity
    integer : ℕ → Entity
    real : ℕ → Entity
    string : ℕ → Entity
    duration : ℕ → Entity
    time_point : ℕ → Entity
    array : ℕ → Entity
    dictionary : DictionaryKind → ℕ → Entity
    member_function : String → String → Entity
    free_function : String → Entity
    workflow_definition : WorkflowDefinition → Entity
    workflow_invocation : WorkflowDefinition → Instanciation → CallArguments → Entity

  -- The vector of CallArgument, each with its index, its name and its value.
  pub data CallArguments : Type 0 where
    no_call_argument : CallArguments
    call_argument : ℕ → Option String → Entity → CallArguments → CallArguments

-- The payload of a Shared. A std::map is the list of its entries in the order of the keys.
pub data Payload : Type 0 where
  boolean_payload : Bool → Payload
  integer_payload : ℤ → Payload
  real_payload : ℕ → Payload
  string_payload : String → Payload
  duration_payload : DurationStorage → Payload
  array_payload : List Entity → Payload
  map_payload : List (String × Entity) → Payload

abbrev pub dictionary_kind : DictionaryKind → EntityKind
dictionary_kind DictionaryKind.dictionary = EntityKind.dictionary
dictionary_kind DictionaryKind.action = EntityKind.action
dictionary_kind DictionaryKind.action_reply = EntityKind.action_reply
dictionary_kind DictionaryKind.campaign = EntityKind.campaign
dictionary_kind DictionaryKind.campaign_reply = EntityKind.campaign_reply
dictionary_kind DictionaryKind.http_request = EntityKind.http_request
dictionary_kind DictionaryKind.http_reply = EntityKind.http_reply
dictionary_kind DictionaryKind.device_info_request = EntityKind.device_info_request
dictionary_kind DictionaryKind.device_info_reply = EntityKind.device_info_reply

-- The alternative that an entity holds.
abbrev pub kind : Entity → EntityKind
kind (error what where_) = EntityKind.error
kind void = EntityKind.void
kind (boolean p) = EntityKind.boolean
kind (integer p) = EntityKind.integer
kind (real p) = EntityKind.real
kind (string p) = EntityKind.string
kind (duration p) = EntityKind.duration
kind (time_point t) = EntityKind.time_point
kind (array p) = EntityKind.array
kind (dictionary k p) = dictionary_kind k
kind (member_function t n) = EntityKind.member_function
kind (free_function n) = EntityKind.free_function
kind (workflow_definition d) = EntityKind.workflow_definition
kind (workflow_invocation d i args) = EntityKind.workflow_invocation

-- `Entity::type()`.
abbrev pub type : Entity → TypeInfo
type e = static_type (kind e)

-- `CallArguments::size`.
abbrev pub size : CallArguments → ℕ
size no_call_argument = 0
size (call_argument i name e rest) = suc (size rest)
