-- ===== src/Reporting/Updates/Means.antt =====
-- `progress_from_sub_reports` of ExecutionReport.cpp reads the sub reports alone.
use native.Mathlib.Nat.{div-lt_iff_lt-mul, mul-div-le, lt-mul-div-succ}
use ez_cpp.Prelude.{
  ◌%◌, Bool-cases, ℕ, ◌+◌, ◌*◌, ◌≤◌, ◌<◌, ◌≡◌, refl, ap, ◌∙◌, inl, inr, Option, none, some, List,
  [], ◌∷◌, arith, length, ◌==◌, foldl, if◌then◌else◌, suc, sym, ◌⊎◌, eq_of_some, subst,
}
use ez_cpp.Reporting.Progress.{of_quotient, round_div, assign-le, assign}
use ez_cpp.Reporting.Store.{ExecutionReportData, World, read, links}
use ez_cpp.Reporting.Store.Frame.{read-exists}
use ez_cpp.Reporting.Store.Hierarchy.{All}
use ez_cpp.Reporting.Updates.{add_weighted, progress_from_sub_reports}

-- The specification: the weighted sum of the progress of a list of reports, and their total weight.
pub data Weighs (w : World) : List ℕ → ℕ → ℕ → Type 0 where
  nothing : Weighs w [] 0 0
  adds :
      {c : ℕ} {cs : List ℕ} {a b a' b' : ℕ} (d : ExecutionReportData)
      → read c w ≡ some d
      → Weighs w cs a b
      → a' ≡ d.progress * d.progress_weight_in_parent + a
      → b' ≡ d.progress_weight_in_parent + b
      → Weighs w (c ∷ cs) a' b'

some_pair :
    {a a' b b' : ℕ} → a ≡ a' → b ≡ b' → ◌≡◌ {A = Option (ℕ × ℕ)} (some (a, b)) (some (a', b'))
some_pair x y = cc

weigh_one :
    (w : World) (a b c : ℕ) (d : ExecutionReportData)
    → read c w ≡ some d
    → add_weighted w (some (a, b)) c
      ≡ some (a + d.progress * d.progress_weight_in_parent, b + d.progress_weight_in_parent)
unfolding add_weighted
weigh_one w a b c d e = elim (Bool-cases (d.progress_weight_in_parent == 0)) [
  | inl idle ↦
      let nil : d.progress_weight_in_parent ≡ 0 = ground arith in
      let term : d.progress * d.progress_weight_in_parent ≡ 0 =
        ap (λ k. d.progress * k) nil ∙ omega arith in
      rw (e, idle) (some_pair (omega arith) (omega arith))
  | inr active ↦ rw (e, active)
]

foldl-Weighs :
    (w : World) (cs : List ℕ) (a b : ℕ)
    → All (λ c. c < length (links w)) cs
    → (p : ℕ) × (t : ℕ) × Weighs w cs p t
      × (foldl (add_weighted w) (some (a, b)) cs ≡ some (a + p, b + t))
foldl-Weighs w [] a b h = (0, 0, nothing, some_pair (omega arith) (omega arith))
foldl-Weighs w (c ∷ cs) a b h =
    let (d, e) = read-exists c w h.0 in
    let x = d.progress * d.progress_weight_in_parent in
    let y = d.progress_weight_in_parent in
    let (p, t, spec, sum) = foldl-Weighs w cs (a + x) (b + y) h.1 in
    (
      x + p,
      y + t,
      adds d e spec refl refl,
      rw (weigh_one w a b c d e) (sum ∙ some_pair (omega arith) (omega arith)),
    )

-- The new progress of a report whose sub reports weigh `t` in all, with the weighted sum `p`.
abbrev pub mean : ℕ → ℕ → Option ℕ
mean p t = if t == 0 then none else some (of_quotient p t)

pub mean-le : (p t : ℕ) {v : ℕ} → mean p t ≡ some v → v ≤ 100
unfolding of_quotient
mean-le p t h = elim (Bool-cases (t == 0)) [
  | inl e ↦ absurd (let n : none ≡ some _ = rw e at h in cc)
  | inr e ↦ ground (arith, assign-le (round_div p t % 256))
]

-- Where every sub report exists, the new progress is that of their weighted sum and total weight.
pub progress_from_sub_reports-mean_of :
    (r : ℕ) (w : World) (d : ExecutionReportData)
    → read r w ≡ some d
    → All (λ c. c < length (links w)) d.sub_reports
    → (p : ℕ) × (t : ℕ) × Weighs w d.sub_reports p t
      × (progress_from_sub_reports r w ≡ some (mean p t))
unfolding progress_from_sub_reports
progress_from_sub_reports-mean_of r w d e h =
    let (p, t, spec, sum) = foldl-Weighs w d.sub_reports 0 0 h in
    let sum' : foldl (add_weighted w) (some (0, 0)) d.sub_reports ≡ some (p, t) =
      sum ∙ some_pair (omega arith) (omega arith) in
    (p, t, spec, rw (e, sum'))

-- No report of the list has a progress above 100.
abbrev pub IsBounded : World → List ℕ → Type 0
IsBounded w = All (λ c. (d : ExecutionReportData) × (read c w ≡ some d) × (d.progress ≤ 100))

Weighs-le : (w : World) (cs : List ℕ) {p t : ℕ} → IsBounded w cs → Weighs w cs p t → p ≤ 100 * t
Weighs-le w [] h nothing = omega arith
Weighs-le w (c ∷ cs) h (adds d e rest x y) =
    let (d', e', bound) = h.0 in
    let same : d'.progress ≡ d.progress =
      ap (λ (k : ExecutionReportData). k.progress) (eq_of_some (sym e' ∙ e)) in
    let le : d.progress ≤ 100 = omega (arith, same, bound) in
    let term : d.progress * d.progress_weight_in_parent ≤ 100 * d.progress_weight_in_parent =
      grind (arith, le) in
    omega (arith, x, y, term, Weighs-le w cs h.1 rest)

-- The whole number nearest to the quotient, the greater one of two.
abbrev pub Nearest : ℕ → ℕ → ℕ → Type 0
Nearest p t v = (2 * (t * v) ≤ 2 * p + t) × (2 * p + t < 2 * (t * suc v))

of_quotient-Nearest : (p t : ℕ) → 0 < t → p ≤ 100 * t → Nearest p t (of_quotient p t)
unfolding of_quotient assign
of_quotient-Nearest p t h le =
    let q = round_div p t in
    let under : q < 101 = (div-lt_iff_lt-mul (omega (arith, h))).1 (omega (arith, le, h)) in
    let below : q ≤ 100 = omega (arith, under) in
    let same : assign (q % 256) ≡ q = ground arith in
    let low : 2 * t * q ≤ 2 * p + t = mul-div-le (2 * p + t) (2 * t) in
    let high : 2 * p + t < 2 * t * (q + 1) = lt-mul-div-succ (2 * p + t) (omega (arith, h)) in
    subst (Nearest p t) (sym same) (grind (arith, low), grind (arith, high))

-- Where every sub report exists and has a progress of at most 100, progress_from_sub_reports has no
-- value if all weights are zero; else it is the whole number nearest to the mean of the progress of the
-- sub reports, each counted with its weight, the greater one of two that are as near.
pub progress_from_sub_reports-mean :
    (r : ℕ) (w : World) (d : ExecutionReportData)
    → read r w ≡ some d
    → All (λ c. c < length (links w)) d.sub_reports
    → IsBounded w d.sub_reports
    → (p : ℕ) × (t : ℕ) × Weighs w d.sub_reports p t
      × (((t ≡ 0) × (progress_from_sub_reports r w ≡ some none))
          ⊎ ((0 < t) × (v : ℕ) × (progress_from_sub_reports r w ≡ some (some v)) × Nearest p t v))
progress_from_sub_reports-mean r w d e h bounded =
    let (p, t, spec, runs) = progress_from_sub_reports-mean_of r w d e h in
    (
      p,
      t,
      spec,
      elim (Bool-cases (t == 0)) [
        | inl idle ↦ inl (ground arith, runs ∙ rw idle refl)
        | inr active ↦
            let more : 0 < t = ground arith in
            inr (
              more,
              of_quotient p t,
              runs ∙ rw active refl,
              of_quotient-Nearest p t more (Weighs-le w d.sub_reports bounded spec),
            )
      ],
    )

-- The weighted sum reads the listed reports alone.
pub Weighs-same :
    (w w' : World) (cs : List ℕ) {p t : ℕ}
    → All (λ c. read c w' ≡ read c w) cs
    → Weighs w cs p t
    → Weighs w' cs p t
Weighs-same w w' [] h nothing = nothing
Weighs-same w w' (c ∷ cs) h (adds d e rest x y) =
    adds d (h.0 ∙ e) (Weighs-same w w' cs h.1 rest) x y
