-- ===== src/Cpu/Signal.antt =====
-- Which instructions of src/server/cpu.cpp raise the signal: the RAISE of the last lane, and no other.
use hsq_over_nand.Base.{
  ◌+◌, ◌-◌, ◌%◌, ◌≡◌, refl, true, false, ltb, ◌==◌, inl, inr, Bool-cases, u32, ℕ,
}
use hsq_over_nand.Nand.{Nand}
use hsq_over_nand.Rom.{Opcode, ram, page_siz, lanes}
use hsq_over_nand.Cpu.{Cpu, erase, edit_buf, get_in, write, push_out, raise, dispatch}

module _ (N : Nand) where
  erase-signal : (s : Cpu N) → (erase N s).signal ≡ s.signal
  unfolding erase
  erase-signal s = refl

  raise-quiet :
      (dest from : ℕ) (s : Cpu N)
      → (dest % lanes == lanes - 1) ≡ false
      → (raise N dest from s).signal ≡ s.signal
  unfolding raise
  raise-quiet dest from s h = rw h refl

  raise-last :
      (dest from : ℕ) (s : Cpu N)
      → (dest % lanes == lanes - 1) ≡ true
      → (raise N dest from s).signal ≡ true
  unfolding raise erase
  raise-last dest from s h =
      rw h
        (elim (Bool-cases
          (ltb s.nand_size (u32 (ram + u32 (s.page_offset + page_siz) + page_siz)))) [
            | inl full ↦ rw full refl
            | inr left ↦ rw left refl
          ])

  pub dispatch-quiet :
      (c : Opcode) (dest from : ℕ) (s : Cpu N)
      → (c ≡ Opcode.raise → (dest % lanes == lanes - 1) ≡ false)
      → (dispatch N c dest from s).signal ≡ s.signal
  unfolding dispatch edit_buf get_in write push_out
  dispatch-quiet Opcode.mov dest from s q = refl
  dispatch-quiet Opcode.inv_mov dest from s q = refl
  dispatch-quiet Opcode.cap_in dest from s q = refl
  dispatch-quiet Opcode.get_in dest from s q = refl
  dispatch-quiet Opcode.prg_nand dest from s q = refl
  dispatch-quiet Opcode.push_out dest from s q = refl
  dispatch-quiet Opcode.raise dest from s q = raise-quiet dest from s (q refl)
  dispatch-quiet Opcode.erase dest from s q = erase-signal s

  pub dispatch-last :
      (c : Opcode) (dest from : ℕ) (s : Cpu N)
      → c ≡ Opcode.raise
      → (dest % lanes == lanes - 1) ≡ true
      → (dispatch N c dest from s).signal ≡ true
  unfolding dispatch
  dispatch-last c dest from s e h = rw e (raise-last dest from s h)
