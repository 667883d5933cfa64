-- ===== src/Devices.antt =====
-- The choice of the flash devices at the start of `thread_func` of src/server/server.cpp. What the probes
-- and `access` answer are arguments; a text is the list of its bytes.
pub mod Kinds
mod Tests
use hsq_over_nand.Base.{
  ℕ, zero, suc, ◌+◌, Bool, true, false, Option, none, some, List, [], ◌∷◌, ◌++◌, not, ◌==◌, ◌&&◌,
  ◌||◌, if◌then◌else◌,
}
use hsq_over_nand.Csv.{split_csv}
use hsq_over_nand.Select.{Kind, hat_prefix, spi_prefix}

abbrev pub max_mtd : ℕ
max_mtd = 4

-- `strcmp(a, b) == 0`.
unfoldable pub same_text : List ℕ → List ℕ → Bool
same_text [] [] = true
same_text [] (d ∷ b) = false
same_text (c ∷ a) [] = false
same_text (c ∷ a) (d ∷ b) = (c == d) && same_text a b

-- "hat", "mtd" and "spi".
abbrev pub name_of : Kind → List ℕ
name_of Kind.hat = 104 ∷ 97 ∷ 116 ∷ []
name_of Kind.mtd = 109 ∷ 116 ∷ 100 ∷ []
name_of Kind.spi = 115 ∷ 112 ∷ 105 ∷ []

-- Whether the environment variable NAND_DEV names one of two kinds.
unfoldable pub names : Option (List ℕ) → Kind → Kind → Bool
names none k l = false
names (some pref) k l = same_text pref (name_of k) || same_text pref (name_of l)

-- `allow_hat`, `allow_mtd` and `allow_spi`.
unfoldable pub allows : Option (List ℕ) → Kind → Bool
allows pref Kind.hat = not (names pref Kind.mtd Kind.spi)
allows pref Kind.mtd = not (names pref Kind.hat Kind.spi)
allows pref Kind.spi = not (names pref Kind.hat Kind.mtd)

unfoldable pub is_none : List (List ℕ) → Bool
is_none [] = true
is_none (d ∷ ds) = false

-- The loop over the paths of NAND_SPI_DEVS: chips that do not answer are left out.
unfoldable pub spi_devices : (List ℕ → Bool) → List (List ℕ) → List (List ℕ)
spi_devices probe [] = []
spi_devices probe (path ∷ paths) =
    if not (probe path)
    then spi_devices probe paths
    else (spi_prefix ++ path) ∷ spi_devices probe paths

unfoldable pub spi_chosen : (List ℕ → Bool) → Option (List ℕ) → List (List ℕ)
spi_chosen probe none = []
spi_chosen probe (some devs) = spi_devices probe (split_csv devs)

-- "hat:u2" and "hat:u3".
abbrev pub hats : List (List ℕ)
hats = (hat_prefix ++ 117 ∷ 50 ∷ []) ∷ (hat_prefix ++ 117 ∷ 51 ∷ []) ∷ []

-- "/dev/mtd" with a digit.
abbrev pub mtd_name : ℕ → List ℕ
mtd_name i = 47 ∷ 100 ∷ 101 ∷ 118 ∷ 47 ∷ 109 ∷ 116 ∷ 100 ∷ (48 + i) ∷ []

-- The loop over the MTD devices, with `m` left.
unfoldable pub mtd_devices : (List ℕ → Bool) → ℕ → ℕ → List (List ℕ)
mtd_devices exists zero i = []
mtd_devices exists (suc m) i =
    let rest = mtd_devices exists m (i + 1) in
    if not (exists (mtd_name i)) then [] else mtd_name i ∷ rest

-- The devices in the order in which their CPUs are made; each loop adds to the CPUs that are there.
unfoldable pub choose :
    Option (List ℕ) → Option (List ℕ) → (List ℕ → Bool) → Bool → (List ℕ → Bool) → List (List ℕ)
choose pref spi_devs probe hat_probe exists =
    let a = if allows pref Kind.spi then spi_chosen probe spi_devs else [] in
    let b = a ++ (if is_none a && (allows pref Kind.hat && hat_probe) then hats else []) in
    b ++ (if is_none b && allows pref Kind.mtd then mtd_devices exists max_mtd 0 else [])
