-- ===== src/Flow/Types.antt =====
-- The alternatives of an entity (src/libs/flow/src/engine/types/types.hpp) and the static type of each:
-- the `id` and `name` that the EZ_FLOW_TYPE_IMPL blocks under src/libs/flow/src/engine/types give it.
use text.Mathlib.Text.{◌==◌ as str_eq}
use ez_cpp.Prelude.{String, Bool}

pub record TypeInfo : Type 0 where
  pub id : String
  pub name : String

pub data EntityKind : Type 0 where
  error void boolean integer real string duration time_point : EntityKind
  array dictionary member_function : EntityKind
  free_function workflow_definition workflow_invocation : EntityKind
  action action_reply campaign campaign_reply : EntityKind
  http_request http_reply device_info_request device_info_reply : EntityKind

-- A type whose id and name are the same text.
abbrev named : String → TypeInfo
named s = record { id = s; name = s }

-- A type that sets its name only keeps the id of a default `Type`.
abbrev unidentified : String → TypeInfo
unidentified s = record { id = "undefined"; name = s }

unfoldable pub static_type : EntityKind → TypeInfo
static_type EntityKind.error = named "error"
static_type EntityKind.void = named "void"
static_type EntityKind.boolean = named "boolean"
static_type EntityKind.integer = named "integer"
static_type EntityKind.real = named "real"
static_type EntityKind.string = named "string"
static_type EntityKind.duration = named "duration"
static_type EntityKind.time_point = named "time_point"
static_type EntityKind.array = named "array"
static_type EntityKind.dictionary = named "dictionary"
static_type EntityKind.member_function = unidentified "member function"
static_type EntityKind.free_function = unidentified "free function"
static_type EntityKind.workflow_definition = unidentified "workflow"
static_type EntityKind.workflow_invocation = unidentified "workflow invocation"
static_type EntityKind.action = named "action"
static_type EntityKind.action_reply = named "action_reply"
static_type EntityKind.campaign = named "campaign"
static_type EntityKind.campaign_reply = named "campaign_reply"
static_type EntityKind.http_request = named "http_request"
static_type EntityKind.http_reply = named "http_reply"
static_type EntityKind.device_info_request = named "device_info_request"
static_type EntityKind.device_info_reply = named "device_info_reply"

abbrev pub same_type : TypeInfo → TypeInfo → Bool
same_type lhs rhs = str_eq lhs.id rhs.id
