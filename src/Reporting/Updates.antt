-- ===== src/Reporting/Updates.antt =====
-- Status and progress of ExecutionReport (src/libs/core/src/reporting/ExecutionReport.cpp): progress goes
-- up to the parents, cancelling goes down to the sub reports.
-- The rounds of the recursion up and down are bounded by the number of reports in the store, which no
-- chain of links without a cycle passes. One operation runs at a time: a compare-exchange that
-- follows its load succeeds.
pub mod Rising
pub mod Means
pub mod Propagation
pub mod Cancelling
pub mod Statuses
use ez_cpp.Prelude.{
  ℕ, zero, suc, ◌+◌, ◌-◌, ◌*◌, ◌/◌, Bool, true, false, not, ◌||◌, Option, none, some, List, [], ◌∷◌,
  foldl, if◌then◌else◌, ◌==◌, ◌>>=◌, length,
}
use ez_cpp.Prelude.Int.{ℤ, pos}
use ez_cpp.Reporting.Types.{ExecutionStatus, ExecutionEventType, is_final}
use ez_cpp.Reporting.Progress.{of_int, of_quotient, of_counts}
use ez_cpp.Reporting.Store.{ExecutionReportData, World, read, update}
use ez_cpp.Reporting.Report.{notify}

-- `report.progress()` and `report.progress_weight()` added to the total progress and weight.
unfoldable pub add_weighted : World → Option (ℕ × ℕ) → ℕ → Option (ℕ × ℕ)
add_weighted w none c = none
add_weighted w (some (total_progress, total_weights)) c = do
  d ← read c w
  some (
      if d.progress_weight_in_parent == 0 then (total_progress, total_weights) else (
        total_progress + d.progress * d.progress_weight_in_parent,
        total_weights + d.progress_weight_in_parent,
      ))

-- `progress_from_sub_reports`: the inner `none` is the nullopt of no active sub report.
unfoldable pub progress_from_sub_reports : ℕ → World → Option (Option ℕ)
progress_from_sub_reports r w = do
  d ← read r w
  (total_progress, total_weights) ← foldl (add_weighted w) (some (0, 0)) d.sub_reports
  some (if total_weights == 0 then none else some (of_quotient total_progress total_weights))

-- `update_up` is the update of the parent.
unfoldable pub try_propagate_progress_to_parent :
    (ℕ → World → Option World) → ℕ → World → Option World
try_propagate_progress_to_parent update_up r w = do
  d ← read r w
  (if d.progress_weight_in_parent == 0
      then some w
      else elim d.parent [ none ↦ some w | some p ↦ update_up p w ])

unfoldable pub try_set_progress :
    (ℕ → World → Option World) → ℕ → ℕ → ℕ → World → Option (Bool × World)
try_set_progress update_up r old_value new_value w = do
  d ← read r w
  (if d.progress == old_value
      then (do
        w ← update r (λ d. record d { progress = new_value }) w
        w ← notify ExecutionEventType.progress_changed none r w
        w ← try_propagate_progress_to_parent update_up r w
        some (true, w))
      else some (false, w))

-- The `while (true)` takes a round for each attempt, and each parent a round.
unfoldable pub update_progress_from_sub_reports : ℕ → ℕ → World → Option World
update_progress_from_sub_reports zero r w = none
update_progress_from_sub_reports (suc rounds) r w = do
  d ← read r w
  new_value ← progress_from_sub_reports r w
  elim new_value [
    | none ↦ some w
    | some value ↦ (do
      (done, w') ← try_set_progress (update_progress_from_sub_reports rounds) r d.progress value w
      elim done [ true ↦ some w' | false ↦ update_progress_from_sub_reports rounds r w' ])
  ]

-- `set_progress(ExecutionProgress)`
unfoldable pub set_progress : ℕ → ℕ → World → Option World
set_progress p r w = do
  d ← read r w
  (if d.progress == p then some w else (do
    w₁ ← update r (λ d. record d { progress = p }) w
    w₂ ← notify ExecutionEventType.progress_changed none r w₁
    try_propagate_progress_to_parent (update_progress_from_sub_reports (length w.reports)) r w₂))

-- `set_progress(size_t, size_t)`
unfoldable pub set_progress_of : ℕ → ℕ → ℕ → World → Option World
set_progress_of current total r w = elim (of_counts current total) [
  | none ↦ some w
  | some p ↦ set_progress p r w
]

abbrev pub code : ExecutionStatus → ℕ
code ExecutionStatus.pending = 0
code ExecutionStatus.running = 1
code ExecutionStatus.cancel_request = 2
code ExecutionStatus.cancelled = 3
code ExecutionStatus.finished = 4
code ExecutionStatus.warning = 5
code ExecutionStatus.error = 6

-- `==` of two values of the enumeration.
abbrev pub status_eq : ExecutionStatus → ExecutionStatus → Bool
status_eq s t = code s == code t

-- The writes of `set_status` before it notifies.
unfoldable pub write_status : ExecutionStatus → ExecutionReportData → ExecutionReportData
write_status ExecutionStatus.error d = record d {
  status = ExecutionStatus.error;
  error_logged = true;
}
write_status ExecutionStatus.warning d = record d {
  status = ExecutionStatus.warning;
  warning_logged = true;
}
write_status s d = record d { status = s }

-- The lambda of `set_status`, for one sub report.
unfoldable pub cancel_sub_report :
    (ExecutionStatus → ℕ → World → Option World) → Option World → ℕ → Option World
cancel_sub_report set none c = none
cancel_sub_report set (some w) c = do
  d ← read c w
  if is_final d.status then some w else set ExecutionStatus.cancelled c w

-- `if (m_data->status == ExecutionStatus::Finished) set_progress(100);`
unfoldable pub finish_progress : ℕ → World → Option World
finish_progress r w = do
  d ← read r w
  (if status_eq d.status ExecutionStatus.finished then set_progress 100 r w else some w)

-- The visit of the sub reports when a report is cancelled.
unfoldable pub cancel_sub_reports :
    (ExecutionStatus → ℕ → World → Option World) → ℕ → World → Option World
cancel_sub_reports set r w = do d ← read r w; foldl (cancel_sub_report set) (some w) d.sub_reports

unfoldable pub set_status_from : ℕ → ExecutionStatus → ℕ → World → Option World
set_status_from zero s r w = none
set_status_from (suc rounds) s r w = do
  d ← read r w
  (if status_eq d.status s then some w else (do
    w ← update r (write_status s) w
    w ← notify ExecutionEventType.status_changed none r w
    w ← finish_progress r w
    (if status_eq s ExecutionStatus.cancelled
        then cancel_sub_reports (set_status_from rounds) r w
        else some w)))

unfoldable pub set_status : ExecutionStatus → ℕ → World → Option World
set_status s r w = set_status_from (length w.reports) s r w

-- The two functions call each other through the sub reports.
unfoldable pub any_busy : (ℕ → World → Option Bool) → World → List ℕ → Option Bool
any_busy busy w [] = some false
any_busy busy w (c ∷ cs) = do b ← busy c w; elim b [ true ↦ some true | false ↦ any_busy busy w cs ]

unfoldable pub is_busy_from : ℕ → ℕ → World → Option Bool
is_busy_from zero r w = none
is_busy_from (suc rounds) r w = do
  d ← read r w
  if not (is_final d.status) then some true else any_busy (is_busy_from rounds) w d.sub_reports

unfoldable pub is_busy : ℕ → World → Option Bool
is_busy r w = is_busy_from (length w.reports) r w

unfoldable pub has_busy_sub_report : ℕ → World → Option Bool
has_busy_sub_report r w = do
  d ← read r w
  any_busy (is_busy_from (length w.reports)) w d.sub_reports
