-- ===== src/Rom/Outputs.antt =====
-- The second half of `build_round` (src/server/ROM.cpp): every signal that PUSH_OUT or RAISE reads has an address.
use hsq_over_nand.Base.{
  ℕ, ◌+◌, ◌<◌, ◌≡◌, refl, ◌∙◌, false, some, List, [], ◌∷◌, ◌++◌, length, ◌>>=◌, arith,
}
use hsq_over_nand.Netlist.{Sig, Cell, addr_of}
use hsq_over_nand.Netlist.Grow.{All, In, All-weaken}
use hsq_over_nand.Schedule.{cell_at}
use hsq_over_nand.Lane.Collect.{Each}
use hsq_over_nand.Cpu.Step.{get_elem?-cell_at}
use hsq_over_nand.Rom.{
  Op, op, Opcode, Round, push_out_ops, raise_ops, output_ops, program_ops, round_ops,
}
use hsq_over_nand.Rom.Built.{RoundBuilt, length-whole}

addr_of-returns :
    (cells : List Cell) (s : Sig)
    → s.inv ≡ false
    → s.cell < length cells
    → addr_of cells s ≡ some (cell_at cells s.cell).addr
unfolding addr_of
addr_of-returns cells s e lt = rw (e, get_elem?-cell_at cells s.cell lt) refl

push_out_ops-returns :
    (cells : List Cell) (l i : ℕ) (ss : List Sig)
    → Each (λ k s. s.inv ≡ false) i ss
    → All (In (length cells)) ss
    → (os : List Op) × (push_out_ops cells l ss ≡ some os)
unfolding push_out_ops ◌>>=◌
push_out_ops-returns cells l i [] h a = ([], refl)
push_out_ops-returns cells l i (s ∷ ss) h a =
    let (os, e) = push_out_ops-returns cells l (i + 1) ss h.1 a.1 in
    (
      op Opcode.push_out l (cell_at cells s.cell).addr ∷ os,
      rw (addr_of-returns cells s h.0 a.0, e) refl,
    )

-- All instructions of the round that is built.
pub round_ops-returns : (r : Round) → RoundBuilt r → (os : List Op) × (round_ops r ≡ some os)
unfolding round_ops output_ops raise_ops ◌>>=◌
round_ops-returns r B =
    let long : length r.cells ≡ length B.middle.cells + length B.second.new =
      B.schedules.long ∙ length-whole r B in
    let first =
      All-weaken (In (length B.middle.cells)) (In (length r.cells)) r.first.sum (λ s q. omega arith)
        B.first.sums_in in
    let second =
      All-weaken (In (length B.whole.cells)) (In (length r.cells)) r.second.sum
        (λ s q. omega (arith, B.schedules.long)) B.second.sums_in in
    let (o₀, e₀) = push_out_ops-returns r.cells 0 0 r.first.sum B.first_lane.straight first in
    let (o₁, e₁) = push_out_ops-returns r.cells 1 0 r.second.sum B.second_lane.straight second in
    let a₀ =
      addr_of-returns r.cells r.first.is_jmp B.first_lane.jmp_straight
        (omega (arith, B.first.jump_in)) in
    let a₁ =
      addr_of-returns r.cells r.second.is_jmp B.second_lane.jmp_straight
        (omega (arith, B.second.jump_in, B.schedules.long)) in
    (
      program_ops r
          ++ (o₀
              ++ (o₁
                  ++ (op Opcode.raise 0 (cell_at r.cells r.first.is_jmp.cell).addr
                      ∷ op Opcode.raise 1 (cell_at r.cells r.second.is_jmp.cell).addr
                      ∷ []))),
      rw (e₀, e₁, a₀, a₁) refl,
    )
