-- ===== src/Reporting/Updates/Propagation.antt =====
-- Progress goes up: `set_progress`, `try_set_progress`, `try_propagate_progress_to_parent` and
-- `update_progress_from_sub_reports` of ExecutionReport.cpp end, and what they leave behind.
use ez_cpp.Prelude.{
  ℕ, zero, suc, ◌≤◌, ◌<◌, ◌≡◌, ap, sym, ◌∙◌, subst, ◌⊎◌, inl, inr, true, Option, none, some, arith,
  length, get_elem?, ◌==◌, Bool-cases, Option-cases,
}
use ez_cpp.Reporting.Types.{ExecutionEventType}
use ez_cpp.Reporting.Store.{ExecutionReportData, World, read, update, links_of, links}
use ez_cpp.Reporting.Store.Frame.{Yields, read-exists, get_elem?-lt, length-map}
use ez_cpp.Reporting.Store.Hierarchy.{
  IsAcyclic, OnPath, here, up, OnPath-depth, All, All-map, read-links,
}
use ez_cpp.Reporting.Report.{notify}
use ez_cpp.Reporting.Report.Notices.{notify-Yields}
use ez_cpp.Reporting.Updates.{
  try_propagate_progress_to_parent, try_set_progress, update_progress_from_sub_reports,
  set_progress,
}
use ez_cpp.Reporting.Updates.Rising.{
  Rises, Rises-refl, Rises-trans, Rises-same, same_links, write_progress,
}
use ez_cpp.Reporting.Updates.Means.{
  Weighs, Weighs-same, mean, mean-le, progress_from_sub_reports-mean_of,
}

-- The progress of the report is the weighted mean of its sub reports, if one of them has a weight.
abbrev pub IsMean : ℕ → World → Type 0
IsMean r w =
    (d : ExecutionReportData) × (p : ℕ) × (t : ℕ) × (read r w ≡ some d)
    × Weighs w d.sub_reports p t
    × ((mean p t ≡ none) ⊎ (mean p t ≡ some d.progress))

module _ (depth : ℕ → ℕ) where
  module _ (update_up : ℕ → World → Option World) where
    -- The update of the parent, if there is one to tell.
    propagate :
        (r : ℕ) (w : World) (d : ExecutionReportData)
        → IsAcyclic depth (links w)
        → read r w ≡ some d
        → ((p : ℕ) → depth p < depth r → p < length (links w) → Yields (update_up p w) (Rises w p))
        → Yields
            (try_propagate_progress_to_parent update_up r w)
            (λ w'. Rises w r w' × (read r w' ≡ some d))
    unfolding try_propagate_progress_to_parent
    propagate r w d a e step = elim (Bool-cases (d.progress_weight_in_parent == 0)) [
      | inl idle ↦ (w, rw (e, idle), (Rises-refl w r, e))
      | inr active ↦ elim (Option-cases d.parent) [
        | inl root ↦ (w, rw (e, active, root), (Rises-refl w r, e))
        | inr (p, q) ↦
            let link = read-links r w e in
            let (above, held) = a.parents r p (links_of d) link q in
            let (w', runs, rises) = step p above held in
            let off : ¬ OnPath (links w) r p =
              λ on. absurd (omega (arith, OnPath-depth depth (links w) a on)) in
            (
              w',
              rw (e, active, q) runs,
              (
                Rises-trans w w w' r p (Rises-refl w r) rises (up (links_of d) link q here),
                rises.untouched r off ∙ e,
              ),
            )
      ]
    ]

    -- The three steps that follow a new progress value: write, notify, tell the parent.
    raise :
        (r v : ℕ) (w : World) (d : ExecutionReportData)
        → IsAcyclic depth (links w)
        → read r w ≡ some d
        → v ≤ 100
        → ((p : ℕ) (u : World)
            → links u ≡ links w
            → depth p < depth r
            → p < length (links u)
            → Yields (update_up p u) (Rises u p))
        → (w₁ : World) × (w₂ : World) × (w₃ : World) × (update r (λ d. record d { progress = v }) w
            ≡ some w₁)
          × (notify ExecutionEventType.progress_changed none r w₁ ≡ some w₂)
          × (try_propagate_progress_to_parent update_up r w₂ ≡ some w₃)
          × Rises w r w₃
          × (read r w₃ ≡ some (record d { progress = v }))
    raise r v w d a e le step =
        let (w₁, runs₁, h₁) = write_progress r v w d e le in
        let rises₁ = h₁.0 in
        let read₁ = h₁.1 in
        let l₁ = same_links w w₁ rises₁.same_outline in
        let a₁ : IsAcyclic depth (links w₁) = subst (IsAcyclic depth) (sym l₁) a in
        let (w₂, runs₂, same₂) =
          notify-Yields depth ExecutionEventType.progress_changed none r w₁ _ a₁ read₁ in
        let rises₂ = Rises-same w₁ w₂ r same₂ in
        let l₂ = same_links w₁ w₂ rises₂.same_outline in
        let a₂ : IsAcyclic depth (links w₂) = subst (IsAcyclic depth) (sym l₂) a₁ in
        let read₂ : read r w₂ ≡ some (record d { progress = v }) =
          ap (λ ds. get_elem? ds r) same₂ ∙ read₁ in
        let (w₃, runs₃, h₃) =
          propagate r w₂ _ a₂ read₂ (λ p above held. step p w₂ (l₂ ∙ l₁) above held) in
        (
          w₁,
          w₂,
          w₃,
          runs₁,
          runs₂,
          runs₃,
          Rises-trans w w₁ w₃ r r rises₁ (Rises-trans w₁ w₂ w₃ r r rises₂ h₃.0 here) here,
          h₃.1,
        )

  -- The sub reports of a report are not on the way up from it.
  children-untouched :
      (r : ℕ) (w w' : World) (d : ExecutionReportData)
      → IsAcyclic depth (links w)
      → read r w ≡ some d
      → Rises w r w'
      → All (λ c. read c w' ≡ read c w) d.sub_reports
  children-untouched r w w' d a e rises =
      All-map _ _ d.sub_reports
        (λ c below.
          rises.untouched c
            (λ on. absurd (omega (arith, OnPath-depth depth (links w) a on, below.0))))
        (a.children r (links_of d) (read-links r w e))

  -- On a hierarchy without a cycle, `update_progress_from_sub_reports` ends within as many rounds as
  -- the depth of the report and one more: the progress of the report is then the weighted mean of its
  -- sub reports, if one of them has a weight, and nothing but progress values of the report and of
  -- those above it has changed.
  pub update_progress_from_sub_reports-Yields :
      (rounds r : ℕ) (w : World)
      → IsAcyclic depth (links w)
      → depth r < rounds
      → r < length (links w)
      → Yields (update_progress_from_sub_reports rounds r w) (λ w'. Rises w r w' × IsMean r w')
  unfolding update_progress_from_sub_reports try_set_progress
  update_progress_from_sub_reports-Yields zero r w a enough held = absurd (omega arith)
  update_progress_from_sub_reports-Yields (suc rounds) r w a enough held =
      let (d, e) = read-exists r w held in
      let (p, t, spec, sum) = progress_from_sub_reports-mean_of r w d e (
        All-map _ _ d.sub_reports (λ c below. below.1)
          (a.children r (links_of d) (read-links r w e))) in
      elim (Option-cases (mean p t)) [
        | inl idle ↦ (w, rw (e, sum, idle), (Rises-refl w r, (d, p, t, e, spec, inl idle)))
        | inr (v, new) ↦
            let (w₁, w₂, w₃, runs₁, runs₂, runs₃, rises, done) =
              raise (update_progress_from_sub_reports rounds) r v w d a e (mean-le p t new)
                (λ q u l above inside.
                  let (u', ran, h) =
                    update_progress_from_sub_reports-Yields rounds q u
                      (subst (IsAcyclic depth) (sym l) a) (omega arith) inside in
                  (u', ran, h.0)) in
            let same : (d.progress == d.progress) ≡ true = ground arith in
            (
              w₃,
              rw (e, sum, new, e, same, runs₁, runs₂, runs₃),
              (
                rises,
                (
                  record d { progress = v },
                  p,
                  t,
                  done,
                  Weighs-same w w₃ d.sub_reports (children-untouched r w w₃ d a e rises) spec,
                  inr new,
                ),
              ),
            )
      ]

  -- `set_progress` on a hierarchy without a cycle ends; the report then has the new progress; nothing
  -- but progress values of the report and of those above it has changed; and percentages stay
  -- percentages.
  pub set_progress-Yields :
      (v r : ℕ) (w : World) (d : ExecutionReportData)
      → IsAcyclic depth (links w)
      → read r w ≡ some d
      → v ≤ 100
      → Yields
          (set_progress v r w)
          (λ w'. Rises w r w' × (read r w' ≡ some (record d { progress = v })))
  unfolding set_progress
  set_progress-Yields v r w d a e le = elim (Bool-cases (d.progress == v)) [
    | inl same ↦
        let equal : d.progress ≡ v = ground arith in
        (w, rw (e, same), (Rises-refl w r, e ∙ ap (λ k. some (record d { progress = k })) equal))
    | inr new ↦
        let n = length w.reports in
        let (w₁, w₂, w₃, runs₁, runs₂, runs₃, rises, done) =
          raise (update_progress_from_sub_reports n) r v w d a e le (λ q u l above inside.
            let (u', ran, h) =
              update_progress_from_sub_reports-Yields n q u (subst (IsAcyclic depth) (sym l) a)
                (omega
                  (arith, a.bounded r, get_elem?-lt w.reports r e, length-map links_of w.reports))
                inside in
            (u', ran, h.0)) in
        (w₃, rw (e, new, runs₁, runs₂) runs₃, (rises, done))
  ]
