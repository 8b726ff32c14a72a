-- ===== src/Reporting/StatusGuard.antt =====
-- ExecutionStatusGuard of src/libs/core/src/reporting/ExecutionStatusGuard.cpp. A guard is the report
-- that it holds, or none; the clock and `std::uncaught_exceptions` are arguments.
pub mod Outcome
use ez_cpp.Prelude.{ℕ, Bool, true, false, ◌||◌, Option, none, some, foldl, if◌then◌else◌, ◌>>=◌}
use ez_cpp.Reporting.Types.{ExecutionStatus}
use ez_cpp.Reporting.Store.{ExecutionReportData, World, read}
use ez_cpp.Reporting.Report.{set_start_time, set_end_time}
use ez_cpp.Reporting.Updates.{set_status, status_eq}

pub record ExecutionStatusGuard : Type 0 where
  pub held : Option ℕ

unfoldable pub init : ℕ → ℕ → World → Option World
init now r w = do
  d ← read r w
  (if status_eq d.status ExecutionStatus.pending
      then (do w ← set_start_time now r w; set_status ExecutionStatus.running r w)
      else some w)

-- The two flags that the visit of the sub reports collects, and the store.
pub record Collected : Type 0 where
  pub has_warning : Bool
  pub has_error : Bool
  pub world : World

-- The case of a sub report that is still running.
unfoldable pub settle_running : ℕ → ExecutionReportData → Collected → Option Collected
settle_running c d s =
    if d.error_logged
    then (do
      w ← set_status ExecutionStatus.error c s.world
      some (record s { has_error = true; world = w }))
    else if d.warning_logged
    then (do
      w ← set_status ExecutionStatus.warning c s.world
      some (record s { has_warning = true; world = w }))
    else some s

-- The `switch` over the status of a sub report.
unfoldable pub settle_by : ExecutionStatus → ℕ → ExecutionReportData → Collected → Option Collected
settle_by ExecutionStatus.pending c d s = do
  w ← set_status ExecutionStatus.cancelled c s.world
  some (record s { world = w })
settle_by ExecutionStatus.running c d s = settle_running c d s
settle_by ExecutionStatus.warning c d s = some (record s { has_warning = true })
settle_by ExecutionStatus.error c d s = some (record s { has_error = true })
settle_by _ c d s = some s

unfoldable pub settle : Option Collected → ℕ → Option Collected
settle none c = none
settle (some s) c = do d ← read c s.world; settle_by d.status c d s

-- The status that a report gets at the end.
unfoldable pub final_status : Bool → Bool → ExecutionStatus
final_status has_error has_warning =
    if has_error
    then ExecutionStatus.error
    else if has_warning
    then ExecutionStatus.warning
    else ExecutionStatus.finished

unfoldable pub finish : Bool → ℕ → ℕ → World → Option World
finish uncaught now r w = do
  w ← set_end_time now r w
  d ← read r w
  s ←
      foldl settle (some (record { has_warning = false; has_error = false; world = w }))
        d.sub_reports
  d ← read r s.world
  (if status_eq d.status ExecutionStatus.running
        || status_eq d.status ExecutionStatus.cancel_request
      then set_status
          (final_status (s.has_error || d.error_logged || uncaught)
            (s.has_warning || d.warning_logged))
          r s.world
      else some s.world)

-- The constructor, the destructor, `release`, and the two moves, which swap what is held.
unfoldable pub construct : ℕ → ℕ → World → Option (ExecutionStatusGuard × World)
construct now r w = do w ← init now r w; some (record { held = some r }, w)

unfoldable pub destruct : Bool → ℕ → ExecutionStatusGuard → World → Option World
destruct uncaught now g w = elim g.held [ none ↦ some w | some r ↦ finish uncaught now r w ]

unfoldable pub release : ExecutionStatusGuard → ExecutionStatusGuard
release g = record { held = none }

unfoldable pub move_construct : ExecutionStatusGuard → ExecutionStatusGuard × ExecutionStatusGuard
move_construct rhs = (rhs, record { held = none })

unfoldable pub move_assign :
    ExecutionStatusGuard → ExecutionStatusGuard → ExecutionStatusGuard × ExecutionStatusGuard
move_assign lhs rhs = (rhs, lhs)
