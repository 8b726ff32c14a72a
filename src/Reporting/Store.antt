-- ===== src/Reporting/Store.antt =====
-- The data of execution reports: ExecutionReportItem, ExecutionReportData and the observers' calls
-- of src/libs/core/headers/ez/reporting/ExecutionReport.hpp, and how operations reach them.
-- The reports stand in a store, and a shared or weak pointer to a report's data is its index there.
-- A report lives as long as the store, so a weak pointer to a parent does not expire. `none` is a
-- use of a null or dangling pointer, a failed EZ_ASSERT, or a loop that ran out of its rounds.
-- The append-only vectors of a report are the lists that Container/StableVector.antt proves them to
-- be. An observer is a number, and its calls are recorded: an observer must not change the report.
pub mod Frame
pub mod Hierarchy
use ez_cpp.Prelude.{
  ℕ, String, Bool, true, false, Option, none, some, List, [], map, ◌>>=◌, get_elem?, set,
}
use ez_cpp.Reporting.Types.{ExecutionStatus, ExecutionEvent, ExecutionLogMessage}

-- The variant that a sub item holds, with the parent's address. A message is named by the report
-- that holds it and its index there.
pub data ExecutionReportItem : Type 0 where
  message : ℕ → ℕ → ExecutionReportItem
  report : ℕ → Option ℕ → ExecutionReportItem

pub record ExecutionReportData : Type 0 where
  pub parent : Option ℕ
  pub subitems : List ExecutionReportItem
  pub messages : List ExecutionLogMessage
  pub sub_reports : List ℕ
  pub next_observer_id : ℕ
  pub observers : List (ℕ × ℕ)
  pub name : String
  pub description : String
  pub id : ℕ
  pub progress : ℕ
  pub progress_weight_in_parent : ℕ
  pub status : ExecutionStatus
  pub flags : ℕ
  pub start_time : ℕ
  pub end_time : ℕ
  pub warning_logged : Bool
  pub error_logged : Bool

-- One call of an observer, with the report that it is handed.
pub record Call : Type 0 where
  pub observer : ℕ
  pub report : ℕ
  pub event : ExecutionEvent

pub record World : Type 0 where
  pub reports : List ExecutionReportData
  pub calls : List Call

-- The data of a report that has just been made: `ExecutionReport(in_place)` names it "Root".
abbrev pub new_report_data : ExecutionReportData
new_report_data = record {
  parent = none;
  subitems = [];
  messages = [];
  sub_reports = [];
  next_observer_id = 0;
  observers = [];
  name = "Root";
  description = "";
  id = 0;
  progress = 0;
  progress_weight_in_parent = 1;
  status = ExecutionStatus.pending;
  flags = 0;
  start_time = 0;
  end_time = 0;
  warning_logged = false;
  error_logged = false;
}

-- `m_data->`, to read.
abbrev pub read : ℕ → World → Option ExecutionReportData
read r w = get_elem? w.reports r

-- `m_data->`, to write.
unfoldable pub update : ℕ → (ExecutionReportData → ExecutionReportData) → World → Option World
update r f w = do d ← read r w; some (record w { reports = set w.reports r (f d) })

-- Which reports a report points to: what tells the shape of the hierarchy.
pub record Links : Type 0 where
  pub parent : Option ℕ
  pub sub_reports : List ℕ

abbrev pub links_of : ExecutionReportData → Links
links_of d = record { parent = d.parent; sub_reports = d.sub_reports }

abbrev pub links : World → List Links
links w = map links_of w.reports
