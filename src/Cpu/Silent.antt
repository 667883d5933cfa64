-- ===== src/Cpu/Silent.antt =====
-- The instructions of the steps (src/server/cpu.cpp) leave the registers of the results alone.
use hsq_over_nand.Base.{
  ℕ, zero, suc, ◌+◌, ◌≡◌, refl, ap, ◌∙◌, Bool, true, false, inl, inr, List, [], ◌∷◌, ◌==◌,
  if◌then◌else◌, Bool-cases,
}
use hsq_over_nand.Nand.{Nand}
use hsq_over_nand.Netlist.{Write, Cell}
use hsq_over_nand.Rom.{Opcode, op, ram, write_ops, step_ops, steps_ops}
use hsq_over_nand.Cpu.{Cpu, write, edit_buf, dispatch}
use hsq_over_nand.Cpu.Page.{run_ops, run_ops-append}

module _ (N : Nand) where
  dispatch_move-out :
      (inv : Bool) (dest from : ℕ) (s : Cpu N)
      → (dispatch N (if inv then Opcode.inv_mov else Opcode.mov) dest from s).out ≡ s.out
  unfolding dispatch edit_buf
  dispatch_move-out true dest from s = refl
  dispatch_move-out false dest from s = refl

  write_ops-out :
      (cells : List Cell) (n a : ℕ) (ws : List Write) (s : Cpu N)
      → (run_ops N (write_ops cells n a ws) s).out ≡ s.out
  unfolding run_ops write_ops
  write_ops-out cells n a [] s = refl
  write_ops-out cells n a (w ∷ ws) s = elim (Bool-cases (w.step == n)) [
    | inl now ↦ rw now (write_ops-out cells n a ws _ ∙ dispatch_move-out w.src.inv a _ s)
    | inr other ↦ rw other (write_ops-out cells n a ws s)
  ]

  step_ops-out :
      (cells : List Cell) (n : ℕ) (cs : List Cell) (s : Cpu N)
      → (run_ops N (step_ops cells n cs) s).out ≡ s.out
  unfolding run_ops step_ops
  step_ops-out cells n [] s = refl
  step_ops-out cells n (c ∷ cs) s =
      ap (λ t. t.out) (run_ops-append N (write_ops cells n c.addr c.ins) (step_ops cells n cs) s)
      ∙ step_ops-out cells n cs _
      ∙ write_ops-out cells n c.addr c.ins s

  dispatch-prg_nand-out :
      (dest from : ℕ) (s : Cpu N) → (dispatch N Opcode.prg_nand dest from s).out ≡ s.out
  unfolding dispatch write
  dispatch-prg_nand-out dest from s = refl

  pub steps_ops-out :
      (cells : List Cell) (k n : ℕ) (s : Cpu N)
      → (run_ops N (steps_ops cells ram n k) s).out ≡ s.out
  unfolding run_ops steps_ops
  steps_ops-out cells zero n s = refl
  steps_ops-out cells (suc k) n s =
      ap (λ t. t.out)
        (run_ops-append N (step_ops cells n cells)
          (op Opcode.prg_nand ram 0 ∷ steps_ops cells ram (n + 1) k) s)
      ∙ steps_ops-out cells k (n + 1) _
      ∙ dispatch-prg_nand-out ram 0 _
      ∙ step_ops-out cells n cells s
