-- ===== src/Csv/Tests.antt =====
-- Two paths.
use hsq_over_nand.Base.{ℕ, ◌≡◌, refl, List, [], ◌∷◌}
use hsq_over_nand.Csv.{split_csv, join_csv, split_csv-join_csv}

abbrev paths : List (List ℕ)
paths = (97 ∷ 98 ∷ []) ∷ (99 ∷ []) ∷ []

split_csv-join_csv_example : split_csv (join_csv paths) ≡ paths
split_csv-join_csv_example = split_csv-join_csv paths refl
