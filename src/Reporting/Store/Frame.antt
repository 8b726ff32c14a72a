-- ===== src/Reporting/Store/Frame.antt =====
-- What a write to one report leaves alone, and chains of operations that run to the end.
use ez_cpp.Prelude.{
  ℕ, zero, suc, ◌<◌, ◌≡◌, ◌≢◌, refl, ap, Option, some, List, [], ◌∷◌, map, arith, ◌>>=◌, length,
  get_elem?, set, get_elem?-set_self, get_elem?-set_ne,
}
use ez_cpp.Reporting.Store.{ExecutionReportData, World, read, update, links_of, links}

-- The operation runs, and what holds afterwards.
abbrev pub Yields : Option World → (World → Type 0) → Type 0
Yields m P = (w : World) × (m ≡ some w) × P w

pub Yields-bind :
    (P Q : World → Type 0) (m : Option World) (f : World → Option World)
    → Yields m P
    → ((w : World) → P w → Yields (f w) Q)
    → Yields (m >>= f) Q
Yields-bind P Q m f (w, e, h) k = let (w', e', h') = k w h in (w', rw e e', h')

module _ {ℓ} {A : Type ℓ} where
  pub get_elem?-lt : (xs : List A) (i : ℕ) {x : A} → get_elem? xs i ≡ some x → i < length xs
  get_elem?-lt [] i h = cc
  get_elem?-lt (x ∷ xs) zero h = omega arith
  get_elem?-lt (x ∷ xs) (suc i) h = omega (arith, get_elem?-lt xs i h)

  pub get_elem?-exists : (xs : List A) (i : ℕ) → i < length xs → (x : A) × (get_elem? xs i ≡ some x)
  get_elem?-exists [] i h = elim h [ ]
  get_elem?-exists (x ∷ xs) zero h = (x, refl)
  get_elem?-exists (x ∷ xs) (suc i) h = get_elem?-exists xs i (omega arith)

  pub get_elem?-map {κ} :
      {B : Type κ} (f : A → B) (xs : List A) (i : ℕ) {x : A}
      → get_elem? xs i ≡ some x
      → get_elem? (map f xs) i ≡ some (f x)
  get_elem?-map f [] i h = cc
  get_elem?-map f (x ∷ xs) zero h = cc
  get_elem?-map f (x ∷ xs) (suc i) h = get_elem?-map f xs i h

  pub length-map {κ} : {B : Type κ} (f : A → B) (xs : List A) → length (map f xs) ≡ length xs
  length-map f [] = refl
  length-map f (x ∷ xs) = ap suc (length-map f xs)

  -- A write that a projection does not see.
  pub map-set {κ} :
      {B : Type κ} (f : A → B) (xs : List A) (i : ℕ) (x y : A)
      → get_elem? xs i ≡ some x
      → f y ≡ f x
      → map f (set xs i y) ≡ map f xs
  map-set f [] i x y h e = refl
  map-set f (z ∷ xs) zero x y h e = cc
  map-set f (z ∷ xs) (suc i) x y h e = ap (◌∷◌ (f z)) (map-set f xs i x y h e)

pub read-exists :
    (r : ℕ) (w : World) → r < length (links w) → (d : ExecutionReportData) × (read r w ≡ some d)
read-exists r w h = get_elem?-exists w.reports r (omega (arith, length-map links_of w.reports))

-- A write to a report that exists: what is read there and elsewhere, and the rest of the store.
pub update_lem :
    (r : ℕ) (f : ExecutionReportData → ExecutionReportData) (w : World) (d : ExecutionReportData)
    → read r w ≡ some d
    → Yields (update r f w) (λ w'.
      (read r w' ≡ some (f d))
      × ((i : ℕ) → r ≢ i → read i w' ≡ read i w)
      × (w'.reports ≡ set w.reports r (f d))
      × (w'.calls ≡ w.calls))
unfolding update
update_lem r f w d h = (
  record w { reports = set w.reports r (f d) },
  rw h,
  (
    get_elem?-set_self w.reports r (f d) (get_elem?-lt w.reports r h),
    λ i ne. get_elem?-set_ne w.reports r i (f d) ne,
    refl,
    refl,
  ),
)
