-- ===== src/Rpc/Client/Queries.antt =====
-- The queries of a client as a map.
use text.Mathlib.Text.{◌==◌ as str_eq}
use text.Mathlib.TextEquality.{eq_iff}
use ez_cpp.Prelude.{◌≡◌, refl, String, Option, none, some, List, [], ◌∷◌, if◌then◌else◌, arith}
use ez_cpp.Rpc.Client.{Query, empty_query, find_query, edit_query, erase_query}

abbrev pub found_or_empty : Option Query → Query
found_or_empty none = empty_query
found_or_empty (some q) = q

pub find_query-edit_query :
    (f : Query → Query) (k j : String) (qs : List (String × Query))
    → find_query j (edit_query f k qs)
      ≡ (if str_eq k j then some (f (found_or_empty (find_query k qs))) else find_query j qs)
unfolding find_query edit_query
find_query-edit_query f k j [] = refl
find_query-edit_query f k j ((i, q) ∷ qs) =
    ground (arith, eq_iff k j, eq_iff i k, eq_iff i j, find_query-edit_query f k j qs)

pub find_query-erase_query :
    (k j : String) (qs : List (String × Query))
    → find_query j (erase_query k qs) ≡ (if str_eq k j then none else find_query j qs)
unfolding find_query erase_query
find_query-erase_query k j [] = ground arith
find_query-erase_query k j ((i, q) ∷ qs) =
    ground (arith, eq_iff k j, eq_iff i k, eq_iff i j, find_query-erase_query k j qs)
