-- ===== src/Reporting/Store/Hierarchy.antt =====
-- Hierarchies of reports without a cycle.
use ez_cpp.Prelude.{ℕ, ◌≤◌, ◌<◌, ◌≡◌, some, List, [], ◌∷◌, arith, length, get_elem?}
use ez_cpp.Reporting.Store.{World, read, ExecutionReportData, Links, links_of, links}
use ez_cpp.Reporting.Store.Frame.{get_elem?-map}

abbrev pub All {ℓ κ} : {A : Type ℓ} → (A → Type κ) → List A → Type κ
All P [] = Unit
All P (x ∷ xs) = P x × All P xs

pub All-map {ℓ κ ι} :
    {A : Type ℓ} (P : A → Type κ) (Q : A → Type ι) (xs : List A)
    → ((x : A) → P x → Q x)
    → All P xs
    → All Q xs
All-map P Q [] f h = tt
All-map P Q (x ∷ xs) f h = (f x h.0, All-map P Q xs f h.1)

-- Every link leads to a report of the store; a parent has a smaller depth than its report, and a
-- report a smaller depth than the sub reports that it lists; no depth reaches the number of reports.
pub record IsAcyclic (depth : ℕ → ℕ) (ls : List Links) : Type 0 where
  pub parents :
      (i p : ℕ) (l : Links)
      → get_elem? ls i ≡ some l
      → l.parent ≡ some p
      → (depth p < depth i) × (p < length ls)
  pub children :
      (i : ℕ) (l : Links)
      → get_elem? ls i ≡ some l
      → All (λ c. (depth i < depth c) × (c < length ls)) l.sub_reports
  pub bounded : (i : ℕ) → i < length ls → depth i < length ls

-- `i` is `r` or one of the reports above it.
pub data OnPath (ls : List Links) (i : ℕ) : ℕ → Type 0 where
  here : OnPath ls i i
  up :
      {r p : ℕ} (l : Links)
      → get_elem? ls r ≡ some l
      → l.parent ≡ some p
      → OnPath ls i p
      → OnPath ls i r

pub OnPath-depth :
    (depth : ℕ → ℕ) (ls : List Links) {i r : ℕ}
    → IsAcyclic depth ls
    → OnPath ls i r
    → depth i ≤ depth r
OnPath-depth depth ls a here = omega arith
OnPath-depth depth ls a (up {r = r} {p = p} l e q path) =
    omega (arith, OnPath-depth depth ls a path, (a.parents r p l e q).0)

pub read-links :
    (r : ℕ) (w : World) {d : ExecutionReportData}
    → read r w ≡ some d
    → get_elem? (links w) r ≡ some (links_of d)
read-links r w h = get_elem?-map links_of w.reports r h
