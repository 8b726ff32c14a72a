-- ===== src/Reporting/Tests.antt =====
-- A root report with two sub reports, runs of the operations on it, and the theorems at it.
use ez_cpp.Reporting.StatusGuard.{init, finish}
use ez_cpp.Reporting.StatusGuard.Outcome.{Ended, finish-Ended, init-starts}
use ez_cpp.Prelude.{true, false, ◌⊎◌}
use ez_cpp.Prelude.{foldl}
use ez_cpp.Reporting.Types.{ExecutionLogMessage, ExecutionLogCategory}
use ez_cpp.Reporting.Store.{ExecutionReportItem}
use ez_cpp.Reporting.Report.{log}
use ez_cpp.Reporting.Report.Items.{is_message, parent_report_data, to_message, to_message-log}
use ez_cpp.Reporting.Report.Logging.{
  add_fragment, make_builder, destroy_builder, move_builder, destroy_builder-logs,
}
use ez_cpp.Reporting.Types.{ExecutionStatus}
use ez_cpp.Prelude.{set}
use ez_cpp.Reporting.Updates.{set_status}
use ez_cpp.Reporting.Updates.Cancelling.{Cancelled, IsFinalIn, set_status-cancels}
use ez_cpp.Reporting.Updates.Statuses.{with_status, set_status-writes, set_status-finishes}
use ez_cpp.Prelude.{
  ◌∙◌, ℕ, zero, suc, ◌<◌, ◌≡◌, refl, none, some, [], ◌∷◌, arith, eq_of_some, subst, ap, get_elem?,
}
use ez_cpp.Reporting.Store.{ExecutionReportData, World, new_report_data, read, Links, links}
use ez_cpp.Reporting.Store.Frame.{Yields}
use ez_cpp.Reporting.Store.Hierarchy.{All, IsAcyclic}
use ez_cpp.Reporting.Updates.{
  progress_from_sub_reports, set_progress, update_progress_from_sub_reports,
}
use ez_cpp.Reporting.Updates.Rising.{Rises}
use ez_cpp.Reporting.Updates.Means.{Weighs, progress_from_sub_reports-mean, Nearest}
use ez_cpp.Reporting.Updates.Propagation.{
  IsMean, set_progress-Yields, update_progress_from_sub_reports-Yields,
}

abbrev pub root_data : ExecutionReportData
root_data = record new_report_data { sub_reports = 1 ∷ 2 ∷ []; observers = (0, 7) ∷ [] }

abbrev pub first_data : ExecutionReportData
first_data = record new_report_data { parent = some 0; observers = (0, 8) ∷ (1, 9) ∷ [] }

abbrev pub second_data : ExecutionReportData
second_data = record new_report_data {
  parent = some 0;
  progress = 40;
  progress_weight_in_parent = 3;
}

abbrev pub family : World
family = record { reports = root_data ∷ first_data ∷ second_data ∷ []; calls = [] }

abbrev pub family_depth : ℕ → ℕ
family_depth zero = 0
family_depth (suc i) = 1

family-parents :
    (i p : ℕ) (l : Links)
    → get_elem? (links family) i ≡ some l
    → l.parent ≡ some p
    → (family_depth p < family_depth i) × (p < 3)
family-parents zero p l e q =
    absurd (let n : none ≡ some p = ap (λ (k : Links). k.parent) (eq_of_some e) ∙ q in cc)
family-parents (suc zero) p l e q =
    let z : 0 ≡ p = eq_of_some (ap (λ (k : Links). k.parent) (eq_of_some e) ∙ q) in
    subst (λ p. (family_depth p < 1) × (p < 3)) z (omega arith, omega arith)
family-parents (suc (suc zero)) p l e q =
    let z : 0 ≡ p = eq_of_some (ap (λ (k : Links). k.parent) (eq_of_some e) ∙ q) in
    subst (λ p. (family_depth p < 1) × (p < 3)) z (omega arith, omega arith)
family-parents (suc (suc (suc i))) p l e q = cc

family-children :
    (i : ℕ) (l : Links)
    → get_elem? (links family) i ≡ some l
    → All (λ c. (family_depth i < family_depth c) × (c < 3)) l.sub_reports
family-children zero l e =
    subst (λ (l : Links). All (λ c. (0 < family_depth c) × (c < 3)) l.sub_reports) (eq_of_some e)
      ((omega arith, omega arith), ((omega arith, omega arith), tt))
family-children (suc zero) l e =
    subst (λ (l : Links). All (λ c. (1 < family_depth c) × (c < 3)) l.sub_reports) (eq_of_some e) tt
family-children (suc (suc zero)) l e =
    subst (λ (l : Links). All (λ c. (1 < family_depth c) × (c < 3)) l.sub_reports) (eq_of_some e) tt
family-children (suc (suc (suc i))) l e = cc

family-bounded : (i : ℕ) → i < 3 → family_depth i < 3
family-bounded zero h = omega arith
family-bounded (suc i) h = omega arith

pub family-IsAcyclic : IsAcyclic family_depth (links family)
family-IsAcyclic = record {
  parents = family-parents;
  children = family-children;
  bounded = family-bounded;
}

progress_from_sub_reports-mean_example :
    (p : ℕ) × (t : ℕ) × Weighs family (1 ∷ 2 ∷ []) p t
    × (((t ≡ 0) × (progress_from_sub_reports 0 family ≡ some none))
        ⊎ ((0 < t)
            × (v : ℕ) × (progress_from_sub_reports 0 family ≡ some (some v))
            × Nearest p t v))
progress_from_sub_reports-mean_example =
    progress_from_sub_reports-mean 0 family root_data refl (omega arith, (omega arith, tt))
      ((first_data, refl, omega arith), ((second_data, refl, omega arith), tt))

set_progress-Yields_example :
    Yields
      (set_progress 80 1 family)
      (λ w'. Rises family 1 w' × (read 1 w' ≡ some (record first_data { progress = 80 })))
set_progress-Yields_example =
    set_progress-Yields family_depth 80 1 family first_data family-IsAcyclic refl (omega arith)

update_progress_from_sub_reports-Yields_example :
    Yields (update_progress_from_sub_reports 3 0 family) (λ w'. Rises family 0 w' × IsMean 0 w')
update_progress_from_sub_reports-Yields_example =
    update_progress_from_sub_reports-Yields family_depth 3 0 family family-IsAcyclic (omega arith)
      (omega arith)

set_status-cancels_example :
    Yields
      (set_status ExecutionStatus.cancelled 0 family)
      (λ w'. Cancelled family 0 w' × All (IsFinalIn w') (1 ∷ 2 ∷ []))
set_status-cancels_example =
    set_status-cancels family_depth 0 family root_data family-IsAcyclic refl (λ e. cc)

set_status-writes_example :
    Yields
      (set_status ExecutionStatus.error 1 family)
      (λ w'. w'.reports ≡ set family.reports 1 (with_status ExecutionStatus.error first_data))
set_status-writes_example =
    set_status-writes family_depth ExecutionStatus.error 1 family first_data family-IsAcyclic refl
      (λ e. cc) (λ e. cc) (λ e. cc)

set_status-finishes_example :
    (w₁ : World) × (w₁.reports
      ≡ set family.reports 1 (record first_data { status = ExecutionStatus.finished }))
    × Yields (set_status ExecutionStatus.finished 1 family) (λ w'.
      Rises w₁ 1 w'
      × (read 1 w'
          ≡ some (record first_data { status = ExecutionStatus.finished; progress = 100 })))
set_status-finishes_example =
    set_status-finishes family_depth 1 family first_data family-IsAcyclic refl (λ e. cc)

abbrev note : ExecutionLogMessage
note = record {
  header = "h";
  body = "text";
  category = ExecutionLogCategory.warning;
  is_notification = false;
}

to_message-log_example : Yields (log note 1 family) (λ w'.
    (d' : ExecutionReportData) × (item : ExecutionReportItem) × (read 1 w' ≡ some d')
    × (get_elem? d'.subitems 0 ≡ some item)
    × (is_message item ≡ true)
    × (parent_report_data item ≡ some 1)
    × (to_message item w' ≡ some note))
to_message-log_example = to_message-log family_depth note 1 family first_data family-IsAcyclic refl

destroy_builder-logs_example :
    let b =
      foldl add_fragment (make_builder 1 ExecutionLogCategory.warning "h") ("te" ∷ "xt" ∷ []) in
    (destroy_builder b family ≡ log note 1 family)
    × (destroy_builder (move_builder b).1 family ≡ some family)
destroy_builder-logs_example =
    destroy_builder-logs 1 ExecutionLogCategory.warning "h" ("te" ∷ "xt" ∷ []) family

abbrev busy_data : ExecutionReportData
busy_data = record new_report_data { status = ExecutionStatus.running; warning_logged = true }

abbrev busy : World
busy = record { reports = busy_data ∷ []; calls = [] }

busy-IsAcyclic : IsAcyclic (λ i. 0) (links busy)
busy-IsAcyclic = record {
  parents = λ i p l e q.
      elim i as (λ i. get_elem? (links busy) i ≡ some l → (0 < 0) × (p < 1)) [
        | zero ↦ λ e.
            absurd (let n : none ≡ some p = ap (λ (k : Links). k.parent) (eq_of_some e) ∙ q in cc)
        | suc j ↦ λ e. cc
      ]
        e;
  children = λ i l e.
      elim i
          as (λ i. get_elem? (links busy) i ≡ some l → All (λ c. (0 < 0) × (c < 1)) l.sub_reports) [
            | zero ↦ λ e.
                subst (λ (l : Links). All (λ c. (0 < 0) × (c < 1)) l.sub_reports) (eq_of_some e) tt
            | suc j ↦ λ e. cc
          ]
        e;
  bounded = λ i h. omega arith;
}

finish-Ended_example : Yields (finish false 5 0 busy) (Ended 0 5 false true)
finish-Ended_example = finish-Ended (λ i. 0) false 5 0 busy busy_data busy-IsAcyclic refl refl refl

init-starts_example : Yields (init 5 1 family) (λ w'.
    read 1 w' ≡ some (record first_data { status = ExecutionStatus.running; start_time = 5 }))
init-starts_example = init-starts family_depth 5 1 family first_data family-IsAcyclic refl refl
