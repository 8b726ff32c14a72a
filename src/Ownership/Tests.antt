-- ===== src/Ownership/Tests.antt =====
-- Two objects that share a value, one that does not, and one that was moved from.
use ez_cpp.Prelude.{ℕ, suc, ◌<◌, ◌≡◌, ◌≢◌, refl, none, some, [], ◌∷◌, get_elem?}
use ez_cpp.Ownership.{Heap, pointer, value, make, copy, move, edit}
use ez_cpp.Ownership.Isolation.{Holds, edit-isolates}
use ez_cpp.Ownership.Shared.{
  share_value, detach_if_shared, share_value-shares, detach_if_shared-detaches,
}

abbrev crowd : Heap ℕ
crowd = record { cells = 7 ∷ 9 ∷ []; handles = some 0 ∷ some 0 ∷ none ∷ some 1 ∷ [] }

made :
    move {A = ℕ} 2 (make 9 (copy 0 (make 7 (record { cells = []; handles = [] }))))
    ≡ record { cells = 7 ∷ 9 ∷ []; handles = some 0 ∷ some 0 ∷ none ∷ some 1 ∷ [] }
unfolding move make copy pointer
made = refl

edit-isolates_example :
    (h' : Heap ℕ) × (edit suc 0 crowd ≡ some h')
    × (value 0 h' ≡ some 8)
    × ((j u : ℕ) → 0 ≢ j → value j crowd ≡ some u → value j h' ≡ some u)
unfolding value pointer
edit-isolates_example = edit-isolates suc 0 crowd 7 refl

share_value-shares_example :
    (h' : Heap ℕ) × (share_value 5 0 crowd ≡ some h')
    × ((j : ℕ) → get_elem? crowd.handles j ≡ some (some 0) → value j h' ≡ some 5)
    × ((j q u : ℕ) → 0 ≢ q → Holds crowd j q u → value j h' ≡ some u)
share_value-shares_example = share_value-shares 0 0 crowd 7 5 (refl, refl)

detach_if_shared-detaches_example :
    (h' : Heap ℕ) × (detach_if_shared 3 crowd ≡ some h')
    × Holds h' 3 2 9
    × ((j q u : ℕ) → 3 ≢ j → Holds crowd j q u → Holds h' j q u × (q < 2))
detach_if_shared-detaches_example = detach_if_shared-detaches 3 1 crowd 9 (refl, refl)
