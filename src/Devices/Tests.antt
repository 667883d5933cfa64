-- ===== src/Devices/Tests.antt =====
-- Two SPI devices, of which one answers.
use hsq_over_nand.Base.{ℕ, ◌≡◌, refl, Bool, true, Option, none, some, List, [], ◌∷◌}
use hsq_over_nand.Csv.{split_csv, split_from, flush}
use hsq_over_nand.Devices.{names, allows, is_none, spi_devices, spi_chosen, same_text, choose}
use hsq_over_nand.Devices.Kinds.{OneKind, choose-OneKind}

-- "a,b"
abbrev two_paths : Option (List ℕ)
two_paths = some (97 ∷ 44 ∷ 98 ∷ [])

abbrev answers : List ℕ → Bool
answers path = same_text path (98 ∷ [])

chosen : choose none two_paths answers true (λ path. true) ≡ (115 ∷ 112 ∷ 105 ∷ 58 ∷ 98 ∷ []) ∷ []
unfolding choose spi_chosen spi_devices allows names is_none split_csv split_from flush same_text
chosen = refl

choose-OneKind_example : OneKind none (choose none two_paths answers true (λ path. true))
choose-OneKind_example = choose-OneKind none two_paths answers true (λ path. true)
