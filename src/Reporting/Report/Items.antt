-- ===== src/Reporting/Report/Items.antt =====
-- ExecutionReportItem of src/libs/core/src/reporting/ExecutionReport.cpp: what a sub item is. The
-- invalid item is not made by any operation, and has no constructor here.
use ez_cpp.Prelude.{
  ℕ, ◌≡◌, refl, Bool, true, false, Option, none, some, [], ◌∷◌, arith, length, get_elem?,
  get_elem?-append_right, ◌>>=◌,
}
use ez_cpp.Reporting.Types.{ExecutionLogMessage}
use ez_cpp.Reporting.Store.{
  ExecutionReportItem, message, report, ExecutionReportData, World, read, links,
}
use ez_cpp.Reporting.Store.Frame.{Yields}
use ez_cpp.Reporting.Store.Hierarchy.{IsAcyclic}
use ez_cpp.Reporting.Report.{log}
use ez_cpp.Reporting.Report.Logging.{with_message, log-appends}

unfoldable pub is_message : ExecutionReportItem → Bool
is_message (message r i) = true
is_message (report c p) = false

unfoldable pub is_execution_report : ExecutionReportItem → Bool
is_execution_report (message r i) = false
is_execution_report (report c p) = true

unfoldable pub to_message : ExecutionReportItem → World → Option ExecutionLogMessage
to_message (message r i) w = do d ← read r w; get_elem? d.messages i
to_message (report c p) w = none

unfoldable pub to_report_data : ExecutionReportItem → World → Option ExecutionReportData
to_report_data (message r i) w = none
to_report_data (report c p) w = read c w

unfoldable pub parent_report_data : ExecutionReportItem → Option ℕ
parent_report_data (message r i) = some r
parent_report_data (report c p) = p

-- After `log` on a hierarchy without a cycle, the sub item at the old end of the sub items is a
-- message item of the report, and reads back the message that was logged.
pub to_message-log :
    (depth : ℕ → ℕ) (msg : ExecutionLogMessage) (r : ℕ) (w : World) (d : ExecutionReportData)
    → IsAcyclic depth (links w)
    → read r w ≡ some d
    → Yields (log msg r w) (λ w'.
      (d' : ExecutionReportData) × (item : ExecutionReportItem) × (read r w' ≡ some d')
      × (get_elem? d'.subitems (length d.subitems) ≡ some item)
      × (is_message item ≡ true)
      × (parent_report_data item ≡ some r)
      × (to_message item w' ≡ some msg))
unfolding is_message parent_report_data to_message
to_message-log depth msg r w d a e =
    let (w₁, cs, written, _, _, runs) = log-appends depth msg r w d a e in
    (
      _,
      runs,
      (
        with_message r msg d,
        message r (length d.messages),
        written,
        get_elem?-append_right d.subitems _ (length d.subitems) 0 (omega arith),
        refl,
        refl,
        rw written
            (get_elem?-append_right d.messages (msg ∷ []) (length d.messages) 0 (omega arith)),
      ),
    )
