-- ===== src/Reporting/Updates/Rising.antt =====
-- What an update of the progress of a report and of those above it may change.
use ez_cpp.Prelude.{
  ℕ, ◌≤◌, ◌≡◌, refl, ap, sym, ◌∙◌, subst, inl, inr, some, List, [], ◌∷◌, map, arith, get_elem?,
  Bool-cases, ◌==◌, eq_of_some,
}
use ez_cpp.Reporting.Store.{ExecutionReportData, World, read, update, Links, links_of, links}
use ez_cpp.Reporting.Store.Frame.{Yields, update_lem, map-set}
use ez_cpp.Reporting.Store.Hierarchy.{OnPath, here, up}

abbrev pub without_progress : ExecutionReportData → ExecutionReportData
without_progress d = record d { progress = 0 }

-- Everything but the progress values.
abbrev pub outline : World → List ExecutionReportData
outline w = map without_progress w.reports

-- Every progress is a percentage.
abbrev pub Bounded : World → Type 0
Bounded w = (i : ℕ) (d : ExecutionReportData) → read i w ≡ some d → d.progress ≤ 100

-- From `w` to `w'` only progress values of `r` and of the reports above it have changed, and they
-- are percentages if they were.
pub record Rises (w : World) (r : ℕ) (w' : World) : Type 0 where
  pub same_outline : outline w' ≡ outline w
  pub untouched : (i : ℕ) → ¬ OnPath (links w) i r → read i w' ≡ read i w
  pub percentages : Bounded w → Bounded w'

links-outline :
    (ds : List ExecutionReportData) → map links_of ds ≡ map links_of (map without_progress ds)
links-outline [] = refl
links-outline (d ∷ ds) = ap (◌∷◌ (links_of d)) (links-outline ds)

pub same_links : (w w' : World) → outline w' ≡ outline w → links w' ≡ links w
same_links w w' e = links-outline w'.reports ∙ ap (map links_of) e ∙ sym (links-outline w.reports)

OnPath-trans : {ls : List Links} {i p r : ℕ} → OnPath ls i p → OnPath ls p r → OnPath ls i r
OnPath-trans q here = q
OnPath-trans q (up l e h path) = up l e h (OnPath-trans q path)

pub Rises-refl : (w : World) (r : ℕ) → Rises w r w
Rises-refl w r = record { same_outline = refl; untouched = λ i n. refl; percentages = λ b. b }

pub Rises-trans :
    (w w₁ w₂ : World) (r p : ℕ) → Rises w r w₁ → Rises w₁ p w₂ → OnPath (links w) p r → Rises w r w₂
Rises-trans w w₁ w₂ r p a b path = record {
  same_outline = b.same_outline ∙ a.same_outline;
  untouched = λ i off.
      b.untouched i (λ on.
        off (OnPath-trans (subst (λ ls. OnPath ls i p) (same_links w w₁ a.same_outline) on) path))
      ∙ a.untouched i off;
  percentages = λ h. b.percentages (a.percentages h);
}

pub Rises-same : (w w' : World) (r : ℕ) → w'.reports ≡ w.reports → Rises w r w'
Rises-same w w' r e = record {
  same_outline = ap (map without_progress) e;
  untouched = λ i off. ap (λ ds. get_elem? ds i) e;
  percentages = λ b i d h. b i d (ap (λ ds. get_elem? ds i) (sym e) ∙ h);
}

-- A write of a percentage to one report.
pub write_progress :
    (r v : ℕ) (w : World) (d : ExecutionReportData)
    → read r w ≡ some d
    → v ≤ 100
    → Yields
        (update r (λ d. record d { progress = v }) w)
        (λ w'. Rises w r w' × (read r w' ≡ some (record d { progress = v })))
write_progress r v w d h le =
    let (w', runs, (written, others, reports, _)) =
      update_lem r (λ d. record d { progress = v }) w d h in
    (
      w',
      runs,
      (
        record {
          same_outline =
              ap (map without_progress) reports
              ∙ map-set without_progress w.reports r d (record d { progress = v }) h refl;
          untouched = λ i off. others i (λ e. off (subst (λ k. OnPath (links w) k r) e here));
          percentages = λ b i x e. elim (Bool-cases (r == i)) [
            | inl same ↦
                let e' : r ≡ i = ground arith in
                let hit : some (record d { progress = v }) ≡ some x =
                  sym written ∙ ap (λ k. read k w') e' ∙ e in
                subst (λ (y : ExecutionReportData). y.progress ≤ 100) (eq_of_some hit) le
            | inr other ↦ b i x (sym (others i (ground arith)) ∙ e)
          ];
        },
        written,
      ),
    )
