-- ===== src/Container/StableVector/Tests.antt =====
-- Runs of the stable vector with blocks of two elements, and the theorems at them.
use ez_cpp.Prelude.{ℕ, ◌+◌, ◌≡◌, refl, Bool, some, [], ◌∷◌, ◌++◌, arith, ltb, get_elem?, foldl}
use ez_cpp.Container.StableVector.{
  StableVector, empty, to_list, append, at, push_back, push_to_last, maybe_grow, visit,
  visit_blocks, visit_while_item, visit_while_true, outcome, running,
}
use ez_cpp.Container.StableVector.Growth.{IsValid, append-adds}
use ez_cpp.Container.StableVector.Access.{at-eq-get_elem?, at-append}
use ez_cpp.Container.StableVector.Visits.{
  append_all, fold_while, visit_snapshot, visit_while_true-eq-fold_while,
}

abbrev three : StableVector ℕ
three = record { blocks = (7 ∷ 8 ∷ []) ∷ (9 ∷ []) ∷ []; size = 3; capacity = 4; block_count = 2 }

abbrev four : StableVector ℕ
four = record { blocks = (7 ∷ 8 ∷ []) ∷ (9 ∷ 5 ∷ []) ∷ []; size = 4; capacity = 4; block_count = 2 }

abbrev five : StableVector ℕ
five = record {
  blocks = (7 ∷ 8 ∷ []) ∷ (9 ∷ 5 ∷ []) ∷ (6 ∷ []) ∷ [];
  size = 5;
  capacity = 6;
  block_count = 3;
}

three-IsValid : IsValid 2 three
three-IsValid = omega arith

built : append_all 2 empty (7 ∷ 8 ∷ 9 ∷ []) ≡ some three
unfolding append maybe_grow push_to_last push_back
built = refl

grown : append_all 2 three (5 ∷ 6 ∷ []) ≡ some five
unfolding append maybe_grow push_to_last push_back
grown = refl

appended : append 2 three 5 ≡ some four
unfolding append maybe_grow push_to_last push_back
appended = refl

append-adds_example :
    (w : StableVector ℕ) × (append 2 three 5 ≡ some w)
    × IsValid 2 w
    × (to_list w ≡ to_list three ++ 5 ∷ [])
    × (w.size ≡ three.size + 1)
append-adds_example = append-adds 2 three 5 (omega arith) three-IsValid

at-eq-get_elem?_example : at 2 three 2 ≡ get_elem? (to_list three) 2
at-eq-get_elem?_example = at-eq-get_elem? 2 three 2 (omega arith) three-IsValid

at-append_example : at 2 four 1 ≡ at 2 three 1
at-append_example = at-append 2 three four 5 1 (omega arith) three-IsValid appended (omega arith)

visit_snapshot_example :
    (outcome (visit_blocks ◌+◌ (running 0 three.size) five.blocks) ≡ foldl ◌+◌ 0 (to_list three))
    × (visit ◌+◌ three 0 ≡ foldl ◌+◌ 0 (to_list three))
visit_snapshot_example =
    visit_snapshot 2 ◌+◌ three five (5 ∷ 6 ∷ []) 0 (omega arith) three-IsValid grown

abbrev small : ℕ → ℕ → ℕ × Bool
small s x = (s + x, ltb x 8)

visit_while_true-eq-fold_while_example :
    visit_while_true small three 0 ≡ fold_while small 0 (to_list three)
visit_while_true-eq-fold_while_example =
    visit_while_true-eq-fold_while 2 small three 0 three-IsValid

stops_at_eight : visit_while_true small three 0 ≡ 15
unfolding visit_while_true visit_while_item
stops_at_eight = refl
