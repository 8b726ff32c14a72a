-- ===== src/Reporting/Updates/Cancelling.antt =====
-- `set_status(Cancelled)` of src/libs/core/src/reporting/ExecutionReport.cpp: the way down.
use ez_cpp.Prelude.{
  ℕ, zero, suc, ◌+◌, ◌≤◌, ◌<◌, ◌≡◌, ◌≢◌, refl, ap, sym, ◌∙◌, subst, ◌⊎◌, inl, inr, true, false,
  Option, none, some, List, [], ◌∷◌, map, foldl, arith, length, get_elem?, set, ◌==◌, Bool-cases,
}
use ez_cpp.Reporting.Types.{ExecutionStatus, ExecutionEventType, is_final}
use ez_cpp.Reporting.Store.{ExecutionReportData, World, read, update, Links, links_of, links}
use ez_cpp.Reporting.Store.Frame.{
  Yields, update_lem, map-set, read-exists, get_elem?-lt, length-map,
}
use ez_cpp.Reporting.Store.Hierarchy.{IsAcyclic, All, read-links}
use ez_cpp.Reporting.Report.{notify}
use ez_cpp.Reporting.Report.Notices.{notify-Yields}
use ez_cpp.Reporting.Updates.{
  status_eq, write_status, finish_progress, cancel_sub_report, cancel_sub_reports, set_status_from,
  set_status,
}

-- The report is there, with the status.
abbrev pub HasStatus : World → ExecutionStatus → ℕ → Type 0
HasStatus w s i = (d : ExecutionReportData) × (read i w ≡ some d) × (d.status ≡ s)

-- The report is there, and its status is final.
abbrev pub IsFinalIn : World → ℕ → Type 0
IsFinalIn w i = (d : ExecutionReportData) × (read i w ≡ some d) × (is_final d.status ≡ true)

-- What cancelling from above does to the status `s` of the report `i`: nothing, or a status that was
-- not final becomes `cancelled`.
abbrev pub Settled : World → ℕ → ExecutionStatus → Type 0
Settled w i s = HasStatus w s i ⊎ ((is_final s ≡ false) × HasStatus w ExecutionStatus.cancelled i)

-- From `w` to `w'` no link has changed, and each status is settled.
pub record Settles (w w' : World) : Type 0 where
  pub same_links : links w' ≡ links w
  pub settled : (i : ℕ) (d : ExecutionReportData) → read i w ≡ some d → Settled w' i d.status

cancelled_final : is_final ExecutionStatus.cancelled ≡ true
unfolding is_final
cancelled_final = refl

Settles-refl : (w : World) → Settles w w
Settles-refl w = record { same_links = refl; settled = λ i d e. inl (d, e, refl) }

Settles-trans : (w w₁ w₂ : World) → Settles w w₁ → Settles w₁ w₂ → Settles w w₂
unfolding is_final
Settles-trans w w₁ w₂ a b = record {
  same_links = b.same_links ∙ a.same_links;
  settled = λ i d e. elim (a.settled i d e) [
    | inl (d₁, e₁, same) ↦ subst (Settled w₂ i) same (b.settled i d₁ e₁)
    | inr (unsettled, (d₁, e₁, gone)) ↦ elim (subst (Settled w₂ i) gone (b.settled i d₁ e₁)) [
      | inl stays ↦ inr (unsettled, stays)
      | inr (never, _) ↦ absurd (let n : true ≡ false = never in cc)
    ]
  ];
}

-- A final status stays.
IsFinalIn-Settles : (w w' : World) (i : ℕ) → Settles w w' → IsFinalIn w i → IsFinalIn w' i
IsFinalIn-Settles w w' i a (d, e, final) = elim (a.settled i d e) [
  | inl (d', e', same) ↦ (d', e', ap is_final same ∙ final)
  | inr (unsettled, _) ↦ absurd (let n : true ≡ false = sym final ∙ unsettled in cc)
]

open_not_cancelled :
    (s : ExecutionStatus) → is_final s ≡ false → status_eq s ExecutionStatus.cancelled ≡ false
unfolding is_final
open_not_cancelled ExecutionStatus.pending h = refl
open_not_cancelled ExecutionStatus.running h = refl
open_not_cancelled ExecutionStatus.cancel_request h = refl
open_not_cancelled ExecutionStatus.cancelled h = cc
open_not_cancelled ExecutionStatus.finished h = refl
open_not_cancelled ExecutionStatus.warning h = refl
open_not_cancelled ExecutionStatus.error h = refl

not_cancelled :
    (s : ExecutionStatus)
    → s ≢ ExecutionStatus.cancelled
    → status_eq s ExecutionStatus.cancelled ≡ false
not_cancelled ExecutionStatus.pending h = refl
not_cancelled ExecutionStatus.running h = refl
not_cancelled ExecutionStatus.cancel_request h = refl
not_cancelled ExecutionStatus.cancelled h = absurd (h refl)
not_cancelled ExecutionStatus.finished h = refl
not_cancelled ExecutionStatus.warning h = refl
not_cancelled ExecutionStatus.error h = refl

-- The state after one report has been cancelled, the others settled.
abbrev pub Cancelled : World → ℕ → World → Type 0
Cancelled w r w' =
    (links w' ≡ links w)
    × HasStatus w' ExecutionStatus.cancelled r
    × ((i : ℕ) (d : ExecutionReportData) → r ≢ i → read i w ≡ some d → Settled w' i d.status)

Cancelled-Settles :
    (w w' : World) (r : ℕ) (d : ExecutionReportData)
    → read r w ≡ some d
    → is_final d.status ≡ false
    → Cancelled w r w'
    → Settles w w'
Cancelled-Settles w w' r d e unsettled (same, gone, others) = record {
  same_links = same;
  settled = λ i d' e'. elim (Bool-cases (r == i)) [
    | inl hit ↦
        let q : r ≡ i = ground arith in
        let x : read r w ≡ some d' = ap (λ k. read k w) q ∙ e' in
        let unsettled' : is_final d'.status ≡ false = cc in
        inr (unsettled', subst (HasStatus w' ExecutionStatus.cancelled) q gone)
    | inr miss ↦ others i d' (ground arith) e'
  ];
}

Cancelled-then : (w w₁ w₂ : World) (r : ℕ) → Cancelled w r w₁ → Settles w₁ w₂ → Cancelled w r w₂
unfolding is_final
Cancelled-then w w₁ w₂ r (same, (d, e, gone), others) b = (
  b.same_links ∙ same,
  elim (subst (Settled w₂ r) gone (b.settled r d e)) [
    | inl stays ↦ stays
    | inr (never, _) ↦ absurd (let n : true ≡ false = never in cc)
  ],
  λ i d' ne e'. elim (others i d' ne e') [
    | inl (d₁, e₁, eq) ↦ subst (Settled w₂ i) eq (b.settled i d₁ e₁)
    | inr (unsettled, (d₁, e₁, eq)) ↦ elim (subst (Settled w₂ i) eq (b.settled i d₁ e₁)) [
      | inl stays ↦ inr (unsettled, stays)
      | inr (never, _) ↦ absurd (let n : true ≡ false = never in cc)
    ]
  ],
)

module _ (depth : ℕ → ℕ) where
  -- The write, the notice, and the progress that stays.
  begin_cancel :
      (r : ℕ) (w : World) (d : ExecutionReportData)
      → IsAcyclic depth (links w)
      → read r w ≡ some d
      → (w₁ : World) × (w₂ : World) × (update r (write_status ExecutionStatus.cancelled) w
          ≡ some w₁)
        × (notify ExecutionEventType.status_changed none r w₁ ≡ some w₂)
        × (finish_progress r w₂ ≡ some w₂)
        × Cancelled w r w₂
        × (read r w₂ ≡ some (record d { status = ExecutionStatus.cancelled }))
  unfolding finish_progress write_status
  begin_cancel r w d a e =
      let (w₁, runs₁, (written, elsewhere, reports, _)) =
        update_lem r (write_status ExecutionStatus.cancelled) w d e in
      let same₁ : links w₁ ≡ links w =
        ap (map links_of) reports
        ∙ map-set links_of w.reports r d (record d { status = ExecutionStatus.cancelled }) e refl in
      let (w₂, runs₂, same₂) =
        notify-Yields depth ExecutionEventType.status_changed none r w₁ _
          (subst (IsAcyclic depth) (sym same₁) a) written in
      let at : (i : ℕ) → read i w₂ ≡ read i w₁ = λ i. ap (λ ds. get_elem? ds i) same₂ in
      let now : read r w₂ ≡ some (record d { status = ExecutionStatus.cancelled }) =
        at r ∙ written in
      (
        w₁,
        w₂,
        runs₁,
        runs₂,
        rw now,
        (
          ap (map links_of) same₂ ∙ same₁,
          (_, now, refl),
          λ i d' ne e'. inl (d', at i ∙ elsewhere i ne ∙ e', refl),
        ),
        now,
      )

  -- The visit of sub reports below `r`, with a cancelling function that does its work there.
  visit_cancelling :
      (set : ExecutionStatus → ℕ → World → Option World) (ls : List Links) (r : ℕ)
      → ((c : ℕ) (u : World) (d : ExecutionReportData)
          → links u ≡ ls
          → depth r < depth c
          → read c u ≡ some d
          → is_final d.status ≡ false
          → Yields (set ExecutionStatus.cancelled c u) (Cancelled u c))
      → (cs : List ℕ) (w : World) → links w ≡ ls
      → All (λ c. (depth r < depth c) × (c < length ls)) cs
      → Yields
          (foldl (cancel_sub_report set) (some w) cs)
          (λ w'. Settles w w' × All (IsFinalIn w') cs)
  unfolding cancel_sub_report
  visit_cancelling set ls r step [] w l below = (w, refl, (Settles-refl w, tt))
  visit_cancelling set ls r step (c ∷ cs) w l below =
      let held : c < length (links w) = subst (λ k. c < length k) (sym l) below.0.1 in
      let (d, e) = read-exists c w held in
      elim (Bool-cases (is_final d.status)) [
        | inl final ↦
            let (w', runs, (settles, all)) = visit_cancelling set ls r step cs w l below.1 in
            (
              w',
              rw (e, final) runs,
              (settles, (IsFinalIn-Settles w w' c settles (d, e, final), all)),
            )
        | inr unsettled ↦
            let (w₁, runs₁, gone) = step c w d l below.0.0 e unsettled in
            let settles₁ = Cancelled-Settles w w₁ c d e unsettled gone in
            let (w', runs, (settles, all)) =
              visit_cancelling set ls r step cs w₁ (settles₁.same_links ∙ l) below.1 in
            let (d₁, e₁, s₁) = gone.1 in
            (
              w',
              rw (e, unsettled, runs₁) runs,
              (
                Settles-trans w w₁ w' settles₁ settles,
                (IsFinalIn-Settles w₁ w' c settles (d₁, e₁, ap is_final s₁ ∙ cancelled_final), all),
              ),
            )
      ]

  cancel_from :
      (rounds r : ℕ) (w : World) (d : ExecutionReportData)
      → IsAcyclic depth (links w)
      → read r w ≡ some d
      → status_eq d.status ExecutionStatus.cancelled ≡ false
      → length (links w) ≤ rounds + depth r
      → Yields
          (set_status_from rounds ExecutionStatus.cancelled r w)
          (λ w'. Cancelled w r w' × All (IsFinalIn w') d.sub_reports)
  unfolding set_status_from cancel_sub_reports
  cancel_from zero r w d a e new enough =
      absurd (omega (arith, a.bounded r, get_elem?-lt w.reports r e, length-map links_of w.reports))
  cancel_from (suc rounds) r w d a e new enough =
      let (w₁, w₂, runs₁, runs₂, runs₃, gone, now) = begin_cancel r w d a e in
      let same = gone.0 in
      let (w', runs, (settles, all)) =
        visit_cancelling (set_status_from rounds) (links w) r
          (λ c u x l below here unsettled.
            let (u', ran, h) =
              cancel_from rounds c u x (subst (IsAcyclic depth) (sym l) a) here
                (open_not_cancelled x.status unsettled)
                (subst (λ k. length k ≤ rounds + depth c) (sym l) (omega arith)) in
            (u', ran, h.0))
          d.sub_reports w₂ same (a.children r (links_of d) (read-links r w e)) in
      (w', rw (e, new, runs₁, runs₂, runs₃, now) runs, (Cancelled-then w w₂ w' r gone settles, all))

  -- Cancelling a report of a hierarchy without a cycle ends. If it was not cancelled before, it is
  -- afterwards, each of its sub reports has a final status, and every other report either keeps its
  -- status or had one that was not final and is cancelled; no link changes.
  pub set_status-cancels :
      (r : ℕ) (w : World) (d : ExecutionReportData)
      → IsAcyclic depth (links w)
      → read r w ≡ some d
      → d.status ≢ ExecutionStatus.cancelled
      → Yields
          (set_status ExecutionStatus.cancelled r w)
          (λ w'. Cancelled w r w' × All (IsFinalIn w') d.sub_reports)
  unfolding set_status
  set_status-cancels r w d a e ne =
      cancel_from (length w.reports) r w d a e (not_cancelled d.status ne)
        (omega (arith, length-map links_of w.reports))
