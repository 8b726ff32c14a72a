-- ===== src/Reporting/Updates/Statuses.antt =====
-- `set_status` of src/libs/core/src/reporting/ExecutionReport.cpp with a status other than Cancelled.
use ez_cpp.Prelude.{◌||◌}
use ez_cpp.Prelude.{
  ℕ, zero, suc, ◌<◌, ◌≡◌, ◌≢◌, refl, ap, sym, ◌∙◌, subst, inl, inr, false, none, some, map, arith,
  length, get_elem?, set, Bool-cases,
}
use ez_cpp.Reporting.Types.{ExecutionStatus, ExecutionEventType}
use ez_cpp.Reporting.Store.{ExecutionReportData, World, read, update, links_of, links}
use ez_cpp.Reporting.Store.Frame.{Yields, update_lem, map-set, get_elem?-lt}
use ez_cpp.Reporting.Store.Hierarchy.{IsAcyclic}
use ez_cpp.Reporting.Report.{notify}
use ez_cpp.Reporting.Report.Notices.{notify-Yields}
use ez_cpp.Reporting.Updates.{
  code, status_eq, write_status, finish_progress, set_status_from, set_status,
}
use ez_cpp.Reporting.Updates.Rising.{Rises}
use ez_cpp.Reporting.Updates.Propagation.{set_progress-Yields}

decode : ℕ → ExecutionStatus
decode zero = ExecutionStatus.pending
decode (suc zero) = ExecutionStatus.running
decode (suc (suc zero)) = ExecutionStatus.cancel_request
decode (suc (suc (suc zero))) = ExecutionStatus.cancelled
decode (suc (suc (suc (suc zero)))) = ExecutionStatus.finished
decode (suc (suc (suc (suc (suc zero))))) = ExecutionStatus.warning
decode (suc (suc (suc (suc (suc (suc n)))))) = ExecutionStatus.error

decode-code : (s : ExecutionStatus) → decode (code s) ≡ s
unfolding decode
decode-code ExecutionStatus.pending = refl
decode-code ExecutionStatus.running = refl
decode-code ExecutionStatus.cancel_request = refl
decode-code ExecutionStatus.cancelled = refl
decode-code ExecutionStatus.finished = refl
decode-code ExecutionStatus.warning = refl
decode-code ExecutionStatus.error = refl

pub status_ne : (s t : ExecutionStatus) → s ≢ t → status_eq s t ≡ false
status_ne s t ne = elim (Bool-cases (status_eq s t)) [
  | inl same ↦
      let e : code s ≡ code t = ground arith in
      absurd (ne (sym (decode-code s) ∙ ap decode e ∙ decode-code t))
  | inr other ↦ other
]

write_status-links :
    (s : ExecutionStatus) (d : ExecutionReportData) → links_of (write_status s d) ≡ links_of d
unfolding write_status
write_status-links ExecutionStatus.pending d = refl
write_status-links ExecutionStatus.running d = refl
write_status-links ExecutionStatus.cancel_request d = refl
write_status-links ExecutionStatus.cancelled d = refl
write_status-links ExecutionStatus.finished d = refl
write_status-links ExecutionStatus.warning d = refl
write_status-links ExecutionStatus.error d = refl

-- What the write of a status does to a report, said once for all statuses.
abbrev pub with_status : ExecutionStatus → ExecutionReportData → ExecutionReportData
with_status s d = record d {
  status = s;
  warning_logged = status_eq s ExecutionStatus.warning || d.warning_logged;
  error_logged = status_eq s ExecutionStatus.error || d.error_logged;
}

write_status-with_status :
    (s : ExecutionStatus) (d : ExecutionReportData) → write_status s d ≡ with_status s d
unfolding write_status
write_status-with_status ExecutionStatus.pending d = refl
write_status-with_status ExecutionStatus.running d = refl
write_status-with_status ExecutionStatus.cancel_request d = refl
write_status-with_status ExecutionStatus.cancelled d = refl
write_status-with_status ExecutionStatus.finished d = refl
write_status-with_status ExecutionStatus.warning d = refl
write_status-with_status ExecutionStatus.error d = refl

pub write_status-status :
    (s : ExecutionStatus) (d : ExecutionReportData) → (write_status s d).status ≡ s
unfolding write_status
write_status-status ExecutionStatus.pending d = refl
write_status-status ExecutionStatus.running d = refl
write_status-status ExecutionStatus.cancel_request d = refl
write_status-status ExecutionStatus.cancelled d = refl
write_status-status ExecutionStatus.finished d = refl
write_status-status ExecutionStatus.warning d = refl
write_status-status ExecutionStatus.error d = refl

module _ (depth : ℕ → ℕ) where
  -- The write and the notice of `set_status`.
  begin_status :
      (s : ExecutionStatus) (r : ℕ) (w : World) (d : ExecutionReportData)
      → IsAcyclic depth (links w)
      → read r w ≡ some d
      → (w₁ : World) × (w₂ : World) × (update r (write_status s) w ≡ some w₁)
        × (notify ExecutionEventType.status_changed none r w₁ ≡ some w₂)
        × (w₂.reports ≡ set w.reports r (write_status s d))
        × (links w₂ ≡ links w)
        × (read r w₂ ≡ some (write_status s d))
  begin_status s r w d a e =
      let (w₁, runs₁, (written, elsewhere, reports, _)) = update_lem r (write_status s) w d e in
      let same₁ : links w₁ ≡ links w =
        ap (map links_of) reports
        ∙ map-set links_of w.reports r d (write_status s d) e (write_status-links s d) in
      let (w₂, runs₂, same₂) =
        notify-Yields depth ExecutionEventType.status_changed none r w₁ _
          (subst (IsAcyclic depth) (sym same₁) a) written in
      (
        w₁,
        w₂,
        runs₁,
        runs₂,
        same₂ ∙ reports,
        ap (map links_of) same₂ ∙ same₁,
        ap (λ ds. get_elem? ds r) same₂ ∙ written,
      )

  writes_from :
      (rounds : ℕ) (s : ExecutionStatus) (r : ℕ) (w : World) (d : ExecutionReportData)
      → 0 < rounds
      → IsAcyclic depth (links w)
      → read r w ≡ some d
      → d.status ≢ s
      → s ≢ ExecutionStatus.cancelled
      → s ≢ ExecutionStatus.finished
      → Yields
          (set_status_from rounds s r w)
          (λ w'. w'.reports ≡ set w.reports r (write_status s d))
  unfolding set_status_from finish_progress
  writes_from zero s r w d some_round a e new not_cancelled not_finished = absurd (omega arith)
  writes_from (suc rounds) s r w d some_round a e new not_cancelled not_finished =
      let (w₁, w₂, runs₁, runs₂, reports, _, now) = begin_status s r w d a e in
      let unfinished : status_eq (write_status s d).status ExecutionStatus.finished ≡ false =
        ap (λ t. status_eq t ExecutionStatus.finished) (write_status-status s d)
        ∙ status_ne s ExecutionStatus.finished not_finished in
      (
        w₂,
        rw (
          e,
          status_ne d.status s new,
          runs₁,
          runs₂,
          now,
          unfinished,
          status_ne s ExecutionStatus.cancelled not_cancelled,
        ),
        reports,
      )

  finishes_from :
      (rounds r : ℕ) (w : World) (d : ExecutionReportData)
      → 0 < rounds
      → IsAcyclic depth (links w)
      → read r w ≡ some d
      → d.status ≢ ExecutionStatus.finished
      → (w₁ : World) × (w₁.reports
          ≡ set w.reports r (record d { status = ExecutionStatus.finished }))
        × Yields (set_status_from rounds ExecutionStatus.finished r w) (λ w'.
          Rises w₁ r w'
          × (read r w' ≡ some (record d { status = ExecutionStatus.finished; progress = 100 })))
  unfolding set_status_from finish_progress write_status
  finishes_from zero r w d some_round a e new = absurd (omega arith)
  finishes_from (suc rounds) r w d some_round a e new =
      let (w₁, w₂, runs₁, runs₂, reports, same, now) =
        begin_status ExecutionStatus.finished r w d a e in
      let (w₃, runs₃, (rises, done)) =
        set_progress-Yields depth 100 r w₂ _ (subst (IsAcyclic depth) (sym same) a) now
          (omega arith) in
      (
        w₂,
        reports,
        (
          w₃,
          rw (e, status_ne d.status ExecutionStatus.finished new, runs₁, runs₂, now, runs₃),
          (rises, done),
        ),
      )

  -- On a hierarchy without a cycle, `set_status` with a status that is new for the report and is
  -- neither cancelled nor finished ends, and all that changes in the reports is the status, and the
  -- flag that a status of error or warning raises.
  pub set_status-writes :
      (s : ExecutionStatus) (r : ℕ) (w : World) (d : ExecutionReportData)
      → IsAcyclic depth (links w)
      → read r w ≡ some d
      → d.status ≢ s
      → s ≢ ExecutionStatus.cancelled
      → s ≢ ExecutionStatus.finished
      → Yields (set_status s r w) (λ w'. w'.reports ≡ set w.reports r (with_status s d))
  unfolding set_status
  set_status-writes s r w d a e new not_cancelled not_finished =
      let (w', runs, same) =
        writes_from (length w.reports) s r w d (omega (arith, get_elem?-lt w.reports r e)) a e new
          not_cancelled not_finished in
      (w', runs, same ∙ ap (set w.reports r) (write_status-with_status s d))

  -- On a hierarchy without a cycle, `set_status(Finished)` on a report that is not finished ends: the
  -- report is finished with a progress of 100, and from the write of the status on nothing but
  -- progress values of the report and of those above it changes.
  pub set_status-finishes :
      (r : ℕ) (w : World) (d : ExecutionReportData)
      → IsAcyclic depth (links w)
      → read r w ≡ some d
      → d.status ≢ ExecutionStatus.finished
      → (w₁ : World) × (w₁.reports
          ≡ set w.reports r (record d { status = ExecutionStatus.finished }))
        × Yields (set_status ExecutionStatus.finished r w) (λ w'.
          Rises w₁ r w'
          × (read r w' ≡ some (record d { status = ExecutionStatus.finished; progress = 100 })))
  unfolding set_status
  set_status-finishes r w d a e =
      finishes_from (length w.reports) r w d (omega (arith, get_elem?-lt w.reports r e)) a e
