-- ===== src/Ownership/Isolation.antt =====
-- Copy on write, src/libs/core/headers/ez/Cow.hpp: an edit of one object is not seen by any other.
use ez_cpp.Prelude.{
  ℕ, ◌<◌, ◌≡◌, ◌≢◌, ap, sym, ◌∙◌, inl, inr, some, [], ◌∷◌, ◌++◌, arith, >>=-eq-some, length,
  get_elem?, set, Bool-cases, get_elem?-set_self, get_elem?-set_ne, get_elem?-append_left,
  get_elem?-append_right,
}
use ez_cpp.Reporting.Store.Frame.{get_elem?-lt}
use ez_cpp.Ownership.{Heap, count_uses, pointer, value, use_count, is_unique, detach, write, edit}
use ez_cpp.Ownership.Counts.{count_uses_unique}

module _ {ℓ} {A : Type ℓ} where
  -- The object `i` points to the cell `p`, which holds `v`.
  abbrev pub Holds : Heap A → ℕ → ℕ → A → Type ℓ
  Holds h i p v = (get_elem? h.handles i ≡ some (some p)) × (get_elem? h.cells p ≡ some v)

  pub value-inv : (i : ℕ) (h : Heap A) {v : A} → value i h ≡ some v → (p : ℕ) × Holds h i p v
  unfolding value pointer
  value-inv i h e =
      let (p, a, b) = >>=-eq-some (pointer i h) (get_elem? h.cells) e in
      let (q, c, d) = >>=-eq-some (get_elem? h.handles i) (λ p. p) a in (p, (c ∙ ap some d, b))

  pub value-Holds : (i p : ℕ) (h : Heap A) {v : A} → Holds h i p v → value i h ≡ some v
  unfolding value pointer
  value-Holds i p h (a, b) = rw a b

  pointer-Holds : (i p : ℕ) (h : Heap A) {v : A} → Holds h i p v → pointer i h ≡ some p
  unfolding pointer
  pointer-Holds i p h (a, b) = rw a

  pub use_count-Holds :
      (i p : ℕ) (h : Heap A) {v : A} → Holds h i p v → use_count i h ≡ count_uses p h.handles
  unfolding use_count
  use_count-Holds i p h a = rw (use_count, pointer-Holds i p h a)

  pub write-Holds :
      (f : A → A) (i p : ℕ) (h : Heap A) {v : A}
      → Holds h i p v
      → write f i h ≡ some (record h { cells = set h.cells p (f v) })
  unfolding write
  write-Holds f i p h a = rw (pointer-Holds i p h a, a.1)

  -- What `detach` leaves: a cell of its own for the object, and the others as they were.
  pub detach-Holds :
      (i p : ℕ) (h : Heap A) {v : A}
      → Holds h i p v
      → (h' : Heap A) × (detach i h ≡ some h')
        × Holds h' i (length h.cells) v
        × ((j q : ℕ) (u : A) → i ≢ j → Holds h j q u → Holds h' j q u × (q < length h.cells))
  unfolding detach
  detach-Holds i p h {v = v} a = (
    record { cells = h.cells ++ v ∷ []; handles = set h.handles i (some (length h.cells)) },
    rw (value-Holds i p h a),
    (
      get_elem?-set_self h.handles i _ (get_elem?-lt h.handles i a.0),
      get_elem?-append_right h.cells (v ∷ []) (length h.cells) 0 (omega arith),
    ),
    λ j q u ne b.
        let held = get_elem?-lt h.cells q b.1 in
        (
          (
            get_elem?-set_ne h.handles i j _ ne ∙ b.0,
            get_elem?-append_left h.cells (v ∷ []) q held ∙ b.1,
          ),
          held,
        ),
  )

  -- An edit of an object that holds a value succeeds: the object then holds the edited value, and
  -- every other object that holds a value holds the same one as before.
  pub edit-isolates :
      (f : A → A) (i : ℕ) (h : Heap A) (v : A)
      → value i h ≡ some v
      → (h' : Heap A) × (edit f i h ≡ some h')
        × (value i h' ≡ some (f v))
        × ((j : ℕ) (u : A) → i ≢ j → value j h ≡ some u → value j h' ≡ some u)
  unfolding edit is_unique use_count
  edit-isolates f i h v e =
      let (p, a) = value-inv i h e in
      elim (Bool-cases (is_unique i h)) [
        | inl unique ↦
            let one : count_uses p h.handles ≡ 1 =
              let counted : use_count i h ≡ count_uses p h.handles = use_count-Holds i p h a in
              ground arith in
            let h' : Heap A = record h { cells = set h.cells p (f v) } in
            (
              h',
              rw unique (write-Holds f i p h a),
              value-Holds i p h'
                  (a.0, get_elem?-set_self h.cells p (f v) (get_elem?-lt h.cells p a.1)),
              λ j u ne b.
                  let (q, c) = value-inv j h b in
                  let apart : p ≢ q = λ same. ne (
                    count_uses_unique p i j h.handles one a.0
                      (c.0 ∙ ap (λ k. some (some k)) (sym same))) in
                  value-Holds j q h' (c.0, get_elem?-set_ne h.cells p q (f v) apart ∙ c.1),
            )
        | inr shared ↦
            let (h₁, runs, mine, others) = detach-Holds i p h a in
            let h' : Heap A = record h₁ { cells = set h₁.cells (length h.cells) (f v) } in
            (
              h',
              rw (shared, runs) (write-Holds f i (length h.cells) h₁ mine),
              value-Holds i (length h.cells) h' (
                mine.0,
                get_elem?-set_self h₁.cells (length h.cells) (f v)
                    (get_elem?-lt h₁.cells (length h.cells) mine.1),
              ),
              λ j u ne b.
                  let (q, c) = value-inv j h b in
                  let (d, held) = others j q u ne c in
                  let apart : length h.cells ≢ q = λ same. absurd (omega arith) in
                  value-Holds j q h'
                    (d.0, get_elem?-set_ne h₁.cells (length h.cells) q (f v) apart ∙ d.1),
            )
      ]
