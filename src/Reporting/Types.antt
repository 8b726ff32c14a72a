-- ===== src/Reporting/Types.antt =====
-- src/libs/core/headers/ez/reporting/Types.hpp: the enumerations, events and messages of a report, and
-- the progress value, an unsigned char that its assignments keep between 0 and 100.
use ez_cpp.Prelude.{ℕ, String, Bool, true, false, Option}

pub data ExecutionStatus : Type 0 where
  pending running cancel_request cancelled finished warning error : ExecutionStatus

pub data ExecutionLogCategory : Type 0 where
  info warning error success debug : ExecutionLogCategory

pub data ExecutionEventType : Type 0 where
  status_changed progress_changed message_added sub_report_added : ExecutionEventType

pub record ExecutionEvent : Type 0 where
  pub type : ExecutionEventType
  pub index : Option ℕ

pub record ExecutionLogMessage : Type 0 where
  pub header : String
  pub body : String
  pub category : ExecutionLogCategory
  pub is_notification : Bool

unfoldable pub is_final : ExecutionStatus → Bool
is_final ExecutionStatus.pending = false
is_final ExecutionStatus.running = false
is_final ExecutionStatus.cancel_request = false
is_final ExecutionStatus.cancelled = true
is_final ExecutionStatus.finished = true
is_final ExecutionStatus.warning = true
is_final ExecutionStatus.error = true

-- `to_string` of a status, an event and a category.
unfoldable pub status_to_string : ExecutionStatus → String
status_to_string ExecutionStatus.pending = "Pending"
status_to_string ExecutionStatus.running = "Running"
status_to_string ExecutionStatus.cancel_request = "Cancel request"
status_to_string ExecutionStatus.cancelled = "Cancelled"
status_to_string ExecutionStatus.finished = "Finished"
status_to_string ExecutionStatus.warning = "Warning"
status_to_string ExecutionStatus.error = "Error"

unfoldable pub event_to_string : ExecutionEvent → String
event_to_string e = elim e.type [
  | ExecutionEventType.status_changed ↦ "Status changed"
  | ExecutionEventType.progress_changed ↦ "Progress changed"
  | ExecutionEventType.message_added ↦ "Message added"
  | ExecutionEventType.sub_report_added ↦ "Sub report added"
]

unfoldable pub category_to_string : ExecutionLogCategory → String
category_to_string ExecutionLogCategory.info = "Info"
category_to_string ExecutionLogCategory.warning = "Warning"
category_to_string ExecutionLogCategory.error = "Error"
category_to_string ExecutionLogCategory.success = "Success"
category_to_string ExecutionLogCategory.debug = "Debug"
