-- ===== src/Reporting/StatusGuard/Outcome.antt =====
-- The status that ExecutionStatusGuard.cpp leaves behind.
use ez_cpp.Prelude.{
  ℕ, ◌≡◌, ◌≢◌, refl, ap, sym, ◌∙◌, subst, Bool, true, false, ◌||◌, some, [], foldl, map, get_elem?,
  get_elem?-set_self,
}
use ez_cpp.Reporting.Types.{ExecutionStatus}
use ez_cpp.Reporting.Store.{ExecutionReportData, World, read, links_of, links}
use ez_cpp.Reporting.Store.Frame.{Yields, update_lem, map-set, get_elem?-lt}
use ez_cpp.Reporting.Store.Hierarchy.{IsAcyclic}
use ez_cpp.Reporting.Report.{set_start_time, set_end_time}
use ez_cpp.Reporting.Updates.{status_eq, set_status}
use ez_cpp.Reporting.Updates.Statuses.{with_status, set_status-writes, set_status-finishes}
use ez_cpp.Reporting.StatusGuard.{init, finish, final_status, settle, Collected}

-- A status that `finish` replaces.
abbrev pub IsActive : ExecutionStatus → Type 0
IsActive s =
    (status_eq s ExecutionStatus.running || status_eq s ExecutionStatus.cancel_request) ≡ true

active_ne :
    (s : ExecutionStatus)
    → IsActive s
    → (s ≢ ExecutionStatus.error) × (s ≢ ExecutionStatus.warning) × (s ≢ ExecutionStatus.finished)
active_ne ExecutionStatus.pending h = cc
active_ne ExecutionStatus.running h = (λ e. cc, λ e. cc, λ e. cc)
active_ne ExecutionStatus.cancel_request h = (λ e. cc, λ e. cc, λ e. cc)
active_ne ExecutionStatus.cancelled h = cc
active_ne ExecutionStatus.finished h = cc
active_ne ExecutionStatus.warning h = cc
active_ne ExecutionStatus.error h = cc

-- The status that a report ends with: an error counts before a warning.
pub data Outcome : Bool → Bool → ExecutionStatus → Type 0 where
  failed : {has_warning : Bool} → Outcome true has_warning ExecutionStatus.error
  warned : Outcome false true ExecutionStatus.warning
  succeeded : Outcome false false ExecutionStatus.finished

-- The report has the end time, and the status that its errors and warnings call for.
abbrev pub Ended : ℕ → ℕ → Bool → Bool → World → Type 0
Ended r now has_error has_warning w =
    (d : ExecutionReportData) × (read r w ≡ some d)
    × Outcome has_error has_warning d.status
    × (d.end_time ≡ now)

module _ (depth : ℕ → ℕ) where
  end_status :
      (has_error has_warning : Bool) (r : ℕ) (w : World) (d : ExecutionReportData)
      → IsAcyclic depth (links w)
      → read r w ≡ some d
      → IsActive d.status
      → Yields
          (set_status (final_status has_error has_warning) r w)
          (Ended r d.end_time has_error has_warning)
  unfolding final_status
  end_status true has_warning r w d a e active =
      let (w', runs, same) =
        set_status-writes depth ExecutionStatus.error r w d a e (active_ne d.status active).0
          (λ e. cc) (λ e. cc) in
      let held =
        get_elem?-set_self w.reports r (with_status ExecutionStatus.error d)
          (get_elem?-lt w.reports r e) in
      (
        w',
        runs,
        (with_status ExecutionStatus.error d, ap (λ ds. get_elem? ds r) same ∙ held, failed, refl),
      )
  end_status false true r w d a e active =
      let (w', runs, same) =
        set_status-writes depth ExecutionStatus.warning r w d a e (active_ne d.status active).1
          (λ e. cc) (λ e. cc) in
      let held =
        get_elem?-set_self w.reports r (with_status ExecutionStatus.warning d)
          (get_elem?-lt w.reports r e) in
      (
        w',
        runs,
        (
          with_status ExecutionStatus.warning d,
          ap (λ ds. get_elem? ds r) same ∙ held,
          warned,
          refl,
        ),
      )
  end_status false false r w d a e active =
      let (w₁, _, (w', runs, (_, done))) =
        set_status-finishes depth r w d a e (active_ne d.status active).2 in
      (w', runs, (_, done, succeeded, refl))

  -- `finish` on a report of a hierarchy without a cycle, which has no sub reports and is running or
  -- asked to cancel, ends and notes the end time; the status is then Error if an error was logged or
  -- an exception is in flight, else Warning if a warning was logged, else Finished.
  pub finish-Ended :
      (uncaught : Bool) (now r : ℕ) (w : World) (d : ExecutionReportData)
      → IsAcyclic depth (links w)
      → read r w ≡ some d
      → d.sub_reports ≡ []
      → IsActive d.status
      → Yields (finish uncaught now r w) (Ended r now (d.error_logged || uncaught) d.warning_logged)
  unfolding finish set_end_time
  finish-Ended uncaught now r w d a e leaf active =
      let ended = record d { end_time = now } in
      let (w₁, runs₁, (written, _, reports, _)) =
        update_lem r (λ d. record d { end_time = now }) w d e in
      let same : links w₁ ≡ links w =
        ap (map links_of) reports ∙ map-set links_of w.reports r d ended e refl in
      let (w', runs, post) =
        end_status (d.error_logged || uncaught) d.warning_logged r w₁ ended
          (subst (IsAcyclic depth) (sym same) a) written active in
      let start : Collected = record { has_warning = false; has_error = false; world = w₁ } in
      let none_visited : foldl settle (some start) d.sub_reports ≡ some start =
        subst (λ cs. foldl settle (some start) cs ≡ some start) (sym leaf) refl in
      (w', rw (runs₁, written, none_visited, written, active) runs, post)

  -- `init` on a pending report of a hierarchy without a cycle ends: the report is running, with the
  -- start time.
  pub init-starts :
      (now r : ℕ) (w : World) (d : ExecutionReportData)
      → IsAcyclic depth (links w)
      → read r w ≡ some d
      → d.status ≡ ExecutionStatus.pending
      → Yields
          (init now r w)
          (λ w'. read r w' ≡ some (record d { status = ExecutionStatus.running; start_time = now }))
  unfolding init set_start_time
  init-starts now r w d a e pending =
      let started = record d { start_time = now } in
      let (w₁, runs₁, (written, _, reports, _)) =
        update_lem r (λ d. record d { start_time = now }) w d e in
      let same : links w₁ ≡ links w =
        ap (map links_of) reports ∙ map-set links_of w.reports r d started e refl in
      let not_running : d.status ≢ ExecutionStatus.running = λ eq.
        absurd
          (let n : ExecutionStatus.pending ≡ ExecutionStatus.running = sym pending ∙ eq in cc) in
      let (w', runs, set_there) =
        set_status-writes depth ExecutionStatus.running r w₁ started
          (subst (IsAcyclic depth) (sym same) a) written not_running (λ e. cc) (λ e. cc) in
      let held =
        get_elem?-set_self w₁.reports r (with_status ExecutionStatus.running started)
          (get_elem?-lt w₁.reports r written) in
      let is_pending : status_eq d.status ExecutionStatus.pending ≡ true =
        ap (λ s. status_eq s ExecutionStatus.pending) pending in
      (w', rw (e, is_pending, runs₁) runs, ap (λ ds. get_elem? ds r) set_there ∙ held)
