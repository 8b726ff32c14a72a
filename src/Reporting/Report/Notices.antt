-- ===== src/Reporting/Report/Notices.antt =====
-- `notify` of ExecutionReport.cpp: it ends on a hierarchy without a cycle, changes no report, and
-- calls the observers of the report and then those of each report above it.
use ez_cpp.Prelude.{
  ℕ, zero, suc, ◌≤◌, ◌<◌, ◌≡◌, refl, Option, none, some, List, [], ◌++◌, arith, length,
}
use ez_cpp.Reporting.Types.{ExecutionEventType, ExecutionEvent}
use ez_cpp.Reporting.Store.{ExecutionReportData, World, Call, read, links_of, links}
use ez_cpp.Reporting.Store.Frame.{get_elem?-lt, Yields, read-exists, length-map}
use ez_cpp.Reporting.Store.Hierarchy.{IsAcyclic, read-links}
use ez_cpp.Reporting.Report.{calls_of, notices_above, notify}

-- The calls for a chain of parents, nearest first: the specification of the loop.
pub data NoticesAbove (w : World) (self : ℕ) (event : ExecutionEvent)
    : Option ℕ → List Call → Type 0 where
  top : NoticesAbove w self event none []
  above :
      {p : ℕ} {cs : List Call} (d : ExecutionReportData)
      → read p w ≡ some d
      → NoticesAbove w self event d.parent cs
      → NoticesAbove w self event (some p) (calls_of self event d.observers ++ cs)

abbrev Within : (ℕ → ℕ) → ℕ → ℕ → Option ℕ → Type 0
Within depth rounds n none = Unit {0}
Within depth rounds n (some p) = (depth p < rounds) × (p < n)

parent-Within :
    (depth : ℕ → ℕ) (w : World) (i : ℕ) (d : ExecutionReportData) (o : Option ℕ)
    → IsAcyclic depth (links w)
    → read i w ≡ some d
    → d.parent ≡ o
    → Within depth (depth i) (length (links w)) o
parent-Within depth w i d none a e q = tt
parent-Within depth w i d (some p) a e q = a.parents i p (links_of d) (read-links i w e) q

Within-mono :
    (depth : ℕ → ℕ) (m k n : ℕ) (o : Option ℕ) → m ≤ k → Within depth m n o → Within depth k n o
Within-mono depth m k n none h v = tt
Within-mono depth m k n (some p) h v = (omega arith, v.1)

notices_above-total :
    (depth : ℕ → ℕ) (w : World) (self : ℕ) (event : ExecutionEvent)
    → IsAcyclic depth (links w)
    → (rounds : ℕ) (o : Option ℕ) → Within depth rounds (length (links w)) o
    → (cs : List Call) × (notices_above rounds o self event w ≡ some cs)
      × NoticesAbove w self event o cs
unfolding notices_above
notices_above-total depth w self event a zero none v = ([], refl, top)
notices_above-total depth w self event a (suc rounds) none v = ([], refl, top)
notices_above-total depth w self event a zero (some p) v = absurd (omega arith)
notices_above-total depth w self event a (suc rounds) (some p) v =
    let (d, e) = read-exists p w v.1 in
    let within =
      Within-mono depth (depth p) rounds (length (links w)) d.parent (omega arith)
        (parent-Within depth w p d d.parent a e refl) in
    let (cs, runs, spec) = notices_above-total depth w self event a rounds d.parent within in
    (calls_of self event d.observers ++ cs, rw (e, runs), above d e spec)

pub notify-calls :
    (depth : ℕ → ℕ) (type : ExecutionEventType) (index : Option ℕ) (r : ℕ) (w : World)
    (d : ExecutionReportData)
    → IsAcyclic depth (links w)
    → read r w ≡ some d
    → let event : ExecutionEvent = record { type = type; index = index } in
      (cs : List Call) × NoticesAbove w r event d.parent cs
      × (notify type index r w
          ≡ some (record w { calls = w.calls ++ calls_of r event d.observers ++ cs }))
unfolding notify
notify-calls depth type index r w d a e =
    let event : ExecutionEvent = record { type = type; index = index } in
    let enough : depth r ≤ length w.reports =
      omega (arith, a.bounded r, get_elem?-lt w.reports r e, length-map links_of w.reports) in
    let within =
      Within-mono depth (depth r) (length w.reports) (length (links w)) d.parent enough
        (parent-Within depth w r d d.parent a e refl) in
    let (cs, runs, spec) =
      notices_above-total depth w r event a (length w.reports) d.parent within in
    (cs, spec, rw (e, runs))

-- What later proofs need of it.
pub notify-Yields :
    (depth : ℕ → ℕ) (type : ExecutionEventType) (index : Option ℕ) (r : ℕ) (w : World)
    (d : ExecutionReportData)
    → IsAcyclic depth (links w)
    → read r w ≡ some d
    → Yields (notify type index r w) (λ w'. w'.reports ≡ w.reports)
notify-Yields depth type index r w d a e =
    let (cs, _, runs) = notify-calls depth type index r w d a e in (_, runs, refl)
