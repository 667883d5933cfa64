-- ===== src/Devices/Kinds.antt =====
-- The names that `thread_func` (src/server/server.cpp) gives to its devices, as `nandInterface`
-- (include/nandInterface.hpp) reads them.
use hsq_over_nand.Base.{
  ℕ, zero, suc, ◌+◌, ◌≡◌, refl, ap, sym, subst, Bool, true, false, Option, none, some, List, [],
  ◌∷◌, ◌++◌, ◌∙◌, ◌&&◌, if◌then◌else◌, Bool-cases, inl, inr, arith,
}
use hsq_over_nand.Select.{Kind, kind_of, starts_with}
use hsq_over_nand.Devices.{
  name_of, names, same_text, allows, is_none, spi_devices, spi_chosen, hats, mtd_name, mtd_devices,
  max_mtd, choose,
}

abbrev pub same_kind : Kind → Kind → Bool
same_kind Kind.hat Kind.hat = true
same_kind Kind.spi Kind.spi = true
same_kind Kind.mtd Kind.mtd = true
same_kind _ _ = false

-- Whether every name is one of the kind `k`.
unfoldable pub all_of_kind : Kind → List (List ℕ) → Bool
all_of_kind k [] = true
all_of_kind k (d ∷ ds) = same_kind (kind_of d) k && all_of_kind k ds

spi_devices-kind :
    (probe : List ℕ → Bool) (paths : List (List ℕ))
    → all_of_kind Kind.spi (spi_devices probe paths) ≡ true
unfolding spi_devices all_of_kind kind_of starts_with
spi_devices-kind probe [] = refl
spi_devices-kind probe (path ∷ paths) = elim (Bool-cases (probe path)) [
  | inl e ↦ rw e (spi_devices-kind probe paths)
  | inr e ↦ rw e (spi_devices-kind probe paths)
]

spi_chosen-kind :
    (probe : List ℕ → Bool) (devs : Option (List ℕ))
    → all_of_kind Kind.spi (spi_chosen probe devs) ≡ true
unfolding spi_chosen all_of_kind
spi_chosen-kind probe none = refl
spi_chosen-kind probe (some devs) = spi_devices-kind probe _

mtd_devices-kind :
    (exists : List ℕ → Bool) (m i : ℕ) → all_of_kind Kind.mtd (mtd_devices exists m i) ≡ true
unfolding mtd_devices all_of_kind kind_of starts_with
mtd_devices-kind exists zero i = refl
mtd_devices-kind exists (suc m) i = elim (Bool-cases (exists (mtd_name i))) [
  | inl e ↦ rw e (mtd_devices-kind exists m (i + 1))
  | inr e ↦ rw e refl
]

hats-kind : all_of_kind Kind.hat hats ≡ true
unfolding all_of_kind kind_of starts_with
hats-kind = refl

all_of_kind-append :
    (k : Kind) (ds es : List (List ℕ))
    → all_of_kind k ds ≡ true
    → all_of_kind k es ≡ true
    → all_of_kind k (ds ++ es) ≡ true
unfolding all_of_kind
all_of_kind-append k [] es h g = g
all_of_kind-append k (d ∷ ds) es h g = elim (Bool-cases (same_kind (kind_of d) k)) [
  | inl e ↦ rw e (all_of_kind-append k ds es (rw e at h) g)
  | inr e ↦ let f : false ≡ true = (rw e at h) in cc
]

-- All are of one kind, and of the kind that NAND_DEV names, if it names one.
abbrev pub OneKind : Option (List ℕ) → List (List ℕ) → Type 0
OneKind pref ds =
    ((k : Kind) × (all_of_kind k ds ≡ true))
    × ((l : Kind) → pref ≡ some (name_of l) → all_of_kind l ds ≡ true)

-- A kind that NAND_DEV allows is the one that it names, if it names one.
allowed-named : (k l : Kind) → allows (some (name_of l)) k ≡ true → k ≡ l
unfolding allows names same_text
allowed-named Kind.hat Kind.hat h = refl
allowed-named Kind.hat Kind.mtd h = cc
allowed-named Kind.hat Kind.spi h = cc
allowed-named Kind.mtd Kind.hat h = cc
allowed-named Kind.mtd Kind.mtd h = refl
allowed-named Kind.mtd Kind.spi h = cc
allowed-named Kind.spi Kind.hat h = cc
allowed-named Kind.spi Kind.mtd h = cc
allowed-named Kind.spi Kind.spi h = refl

kind-OneKind :
    (pref : Option (List ℕ)) (k : Kind) (ds : List (List ℕ))
    → allows pref k ≡ true
    → all_of_kind k ds ≡ true
    → OneKind pref ds
kind-OneKind pref k ds h e = (
  (k, e),
  λ l p.
      let same : k ≡ l = allowed-named k l (ap (λ q. allows q k) (sym p) ∙ h) in
      ap (λ m. all_of_kind m ds) (sym same) ∙ e,
)

nothing-OneKind : (pref : Option (List ℕ)) → OneKind pref []
unfolding all_of_kind
nothing-OneKind pref = ((Kind.spi, refl), λ l p. refl)

append-nothing : (ds : List (List ℕ)) → ds ++ [] ≡ ds
append-nothing [] = refl
append-nothing (d ∷ ds) = ap (λ es. d ∷ es) (append-nothing ds)

-- A loop that adds devices of a kind that is allowed, and only when there are none yet.
stage-OneKind :
    (pref : Option (List ℕ)) (t : Bool) (k : Kind) (new old : List (List ℕ))
    → (t ≡ true → allows pref k ≡ true)
    → all_of_kind k new ≡ true
    → OneKind pref old
    → OneKind pref (old ++ (if is_none old && t then new else []))
unfolding is_none
stage-OneKind pref true k new [] h e o = kind-OneKind pref k new (h refl) e
stage-OneKind pref false k new [] h e o = nothing-OneKind pref
stage-OneKind pref t k new (d ∷ old) h e o = subst (OneKind pref) (sym (append-nothing (d ∷ old))) o

-- The devices that are chosen are all of one kind, as the constructor of `nandInterface` reads their
-- names, and when NAND_DEV is "hat", "mtd" or "spi", of this kind.
pub choose-OneKind :
    (pref spi_devs : Option (List ℕ)) (probe : List ℕ → Bool) (hat_probe : Bool)
    (exists : List ℕ → Bool)
    → OneKind pref (choose pref spi_devs probe hat_probe exists)
unfolding choose is_none
choose-OneKind pref spi_devs probe hat_probe exists =
    let a = if allows pref Kind.spi then spi_chosen probe spi_devs else [] in
    let first : OneKind pref a =
      stage-OneKind pref (allows pref Kind.spi) Kind.spi (spi_chosen probe spi_devs) [] (λ e. e)
        (spi_chosen-kind probe spi_devs) (nothing-OneKind pref) in
    let second =
      stage-OneKind pref (allows pref Kind.hat && hat_probe) Kind.hat hats a (λ e. ground arith)
        hats-kind first in
    stage-OneKind pref (allows pref Kind.mtd) Kind.mtd (mtd_devices exists max_mtd 0) _ (λ e. e)
      (mtd_devices-kind exists max_mtd 0) second
