-- ===== src/Flash/Wait.antt =====
-- `waitChip` of `write`, include/W25NSpiFlashDevice.hpp: a program that is issued is waited for before the
-- next one on its chip, and at the end.
use hsq_over_nand.Base.{
  ℕ, ◌≡◌, refl, ap, Bool, true, false, ◌==◌, if◌then◌else◌, Bool-cases, inl, inr, arith, sym, ◌∙◌,
}
use hsq_over_nand.Cpu.{update}
use hsq_over_nand.Flash.{Chips, Issued, wait_chip}
use hsq_over_nand.Flash.Address.{==-true}
use hsq_over_nand.Flash.Contract.{Driver}

-- `update` at the index and elsewhere.
pub update_same :
    {D : Type 0} (f : ℕ → D) (c : ℕ) (d : D) (i : ℕ) → (c == i) ≡ true → update f c d i ≡ d
update_same f c d i e = rw e refl

pub update_other :
    {D : Type 0} (f : ℕ → D) (c : ℕ) (d : D) (i : ℕ) → (c == i) ≡ false → update f c d i ≡ f i
update_other f c d i e = rw e refl

module _ (C : Driver) (n : ℕ) where
  -- The chips once every program that is issued has ended.
  unfoldable pub settled : Issued C n → Chips C n
  settled s i = if s.pending i then (C.program_wait (s.devs i)).1 else s.devs i

  -- Every program that is issued will end well.
  abbrev pub Waits : Issued C n → Type 0
  Waits s = (i : ℕ) → s.pending i ≡ true → (C.program_wait (s.devs i)).0 ≡ true

  -- What a wait for the chip `c` leaves.
  pub record Waited (c : ℕ) (s : Issued C n) (r : Bool × Issued C n) : Type 0 where
    pub ok : r.0 ≡ true
    pub idle : r.1.pending c ≡ false
    pub waits : Waits r.1
    pub same : (i : ℕ) → settled r.1 i ≡ settled s i
    pub still : (i : ℕ) → s.pending i ≡ false → r.1.pending i ≡ false

  wait_chip_pending :
      (c : ℕ) (s : Issued C n) → Waits s → s.pending c ≡ true → Waited c s (wait_chip C n c s)
  unfolding wait_chip settled
  wait_chip_pending c s h e = rw e (record {
    ok = h c e;
    idle = ground arith;
    waits = λ i. elim (Bool-cases (c == i)) [
      | inl g ↦ rw g (λ f. absurd (ground arith))
      | inr g ↦ rw g (h i)
    ];
    same = λ i. elim (Bool-cases (c == i)) [
      | inl g ↦
          rw (g, ap s.pending (sym (==-true c i g)) ∙ e)
            (ap (λ j. (C.program_wait (s.devs j)).1) (==-true c i g))
      | inr g ↦ rw g refl
    ];
    still = λ i g. ground arith;
  })

  pub wait_chip-Waited : (c : ℕ) (s : Issued C n) → Waits s → Waited c s (wait_chip C n c s)
  unfolding wait_chip
  wait_chip-Waited c s h = elim (Bool-cases (s.pending c)) [
    | inl e ↦ wait_chip_pending c s h e
    | inr e ↦ rw e (record { ok = refl; idle = e; waits = h; same = λ i. refl; still = λ i g. g })
  ]

  -- A program that is issued to the chip `c` after a wait.
  abbrev pub issued : Issued C n → ℕ → C.Dev → Issued C n
  issued s c d = record { devs = update s.devs c d; pending = update s.pending c true }

  pub issued-Waits :
      (s : Issued C n) (c : ℕ) (d : C.Dev)
      → Waits s
      → (C.program_wait d).0 ≡ true
      → Waits (issued s c d)
  issued-Waits s c d h e i = elim (Bool-cases (c == i)) [
    | inl g ↦ rw g (λ f. e)
    | inr g ↦ rw g (h i)
  ]

  pub settled-issued :
      (s : Issued C n) (c : ℕ) (d : C.Dev) (i : ℕ)
      → settled (issued s c d) i ≡ update (settled s) c (C.program_wait d).1 i
  unfolding settled
  settled-issued s c d i = elim (Bool-cases (c == i)) [ inl g ↦ rw g refl | inr g ↦ rw g refl ]

  pub settled-idle : (s : Issued C n) (c : ℕ) → s.pending c ≡ false → settled s c ≡ s.devs c
  unfolding settled
  settled-idle s c e = rw e refl
