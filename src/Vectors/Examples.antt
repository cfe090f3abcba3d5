-- ===== src/Vectors/Examples.antt =====
-- Instances for the calculations of os_lab_2.
use os_5sem.Prelude.{◌≡◌, refl, true, List, [], ◌∷◌, some}
use os_5sem.Prelude.Int.{ℤ, pos, negsuc, ◌+ℤ◌}
use os_5sem.Vectors.{in_front, sum_vectors_main}
use os_5sem.Vectors.Laws.{typed, result, vector_sum, sum_vectors_lem}

abbrev v1 : List ℤ
v1 = negsuc 4 ∷ pos 2 ∷ []

abbrev v2 : List ℤ
v2 = pos 3 ∷ pos 40 ∷ []

sum_vectors_lem_example : sum_vectors_main true true (typed v1 v2 []) ≡ result (vector_sum v1 v2)
sum_vectors_lem_example = sum_vectors_lem (negsuc 4) (pos 3) (pos 2 ∷ []) (pos 40 ∷ []) [] refl

-- The sum is -2 and 42.
places_sum : vector_sum v1 v2 ≡ some (negsuc 1 ∷ pos 42 ∷ [])
unfolding vector_sum ◌+ℤ◌ in_front
places_sum = refl
