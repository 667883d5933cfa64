-- ===== src/Rom/Init.antt =====
-- `rom_init` of src/server/ROM.cpp, as a whole.
use hsq_over_nand.Base.{
  ℕ, suc, ◌+◌, ◌-◌, ◌*◌, ◌/◌, ◌≤◌, ◌≡◌, refl, sym, ap, some, List, [], ◌∷◌, ◌++◌, length, leb,
  arith, u32, bind-some, assert-some,
}
use hsq_over_nand.Netlist.{Sig, Cell}
use hsq_over_nand.Lane.{Lane, digit}
use hsq_over_nand.Cpu.Cycle.{IsProgram}
use hsq_over_nand.Rom.{
  Opcode, RomT, Op, op, ram, page_siz, rom_size, push_ops, push_out_ops, raise_ops, restart, Round,
  build_netlist, program_ops, output_ops, round_ops, rom_init,
}
use hsq_over_nand.Rom.Program.{
  FirstPage, FirstPage-append, get_in_ops-FirstPage, steps_ops-FirstPage, length-restart,
  restart-IsProgram,
}

-- The round is in the first page behind the ROM.
build_netlist-page_base : (r : Round) → build_netlist ram ≡ some r → r.page_base ≡ ram
unfolding build_netlist
build_netlist-page_base r h =
    let (q₀, e₀, h₀) = bind-some _ _ r h in
    let (q₁, e₁, h₁) = bind-some _ _ r h₀ in
    let (q₂, e₂, h₂) = bind-some _ _ r h₁ in
    let base = (ram + page_siz - 1) / page_siz * page_siz in
    let round : Round = record {
      cells = q₂.0;
      first = q₀.0;
      second = q₁.0;
      steps = q₂.1;
      page_base = base;
      calc_addr = q₁.1.calc_addr;
    } in
    let made = (assert-some (leb (q₁.1.calc_addr - base) page_siz) (some round) r h₂).1 in
    let same : round ≡ r = cc made in ap (λ (t : Round). t.page_base) (sym same)

push_out_ops-FirstPage :
    (cells : List Cell) (l : ℕ) (ss : List Sig) (os : List Op)
    → push_out_ops cells l ss ≡ some os
    → FirstPage os
unfolding push_out_ops FirstPage
push_out_ops-FirstPage cells l [] os h = let e : [] ≡ os = cc h in rw (← e) tt
push_out_ops-FirstPage cells l (s ∷ ss) os h =
    let (a, e, h₀) = bind-some _ _ os h in
    let (rest, e₀, h₁) = bind-some _ _ os h₀ in
    let whole : op Opcode.push_out l a ∷ rest ≡ os = cc h₁ in
    rw (← whole) ((λ k. cc k), push_out_ops-FirstPage cells l ss rest e₀)

raise_ops-FirstPage :
    (cells : List Cell) (l : ℕ) (xs : List Lane) (os : List Op)
    → raise_ops cells l xs ≡ some os
    → FirstPage os
unfolding raise_ops FirstPage
raise_ops-FirstPage cells l [] os h = let e : [] ≡ os = cc h in rw (← e) tt
raise_ops-FirstPage cells l (x ∷ xs) os h =
    let (a, e, h₀) = bind-some _ _ os h in
    let (rest, e₀, h₁) = bind-some _ _ os h₀ in
    let whole : op Opcode.raise l a ∷ rest ≡ os = cc h₁ in
    rw (← whole) ((λ k. cc k), raise_ops-FirstPage cells (l + 1) xs rest e₀)

program_ops-FirstPage : (r : Round) → r.page_base ≡ ram → FirstPage (program_ops r)
unfolding program_ops FirstPage
program_ops-FirstPage r h = rw h (
  (λ e. cc e),
  FirstPage-append _ _ (get_in_ops-FirstPage r.cells r.first 0 digit) (
      FirstPage-append _ _ (get_in_ops-FirstPage r.cells r.second 0 digit)
        ((λ e. refl), steps_ops-FirstPage r.cells 2 (r.steps - 1))),
)

round_ops-FirstPage :
    (r : Round) (os : List Op) → r.page_base ≡ ram → round_ops r ≡ some os → FirstPage os
unfolding round_ops output_ops
round_ops-FirstPage r os base h =
    let (o, e, h₀) = bind-some _ _ os h in
    let (o₀, e₀, k₀) = bind-some _ _ o e in
    let (o₁, e₁, k₁) = bind-some _ _ o k₀ in
    let (j, e₂, k₂) = bind-some _ _ o k₁ in
    let outs : o₀ ++ (o₁ ++ j) ≡ o = cc k₂ in
    let whole : program_ops r ++ o ≡ os = cc h₀ in
    rw (← whole, ← outs)
      (FirstPage-append _ _ (program_ops-FirstPage r base) (
        FirstPage-append _ _ (push_out_ops-FirstPage r.cells 0 r.first.sum o₀ e₀) (
          FirstPage-append _ _ (push_out_ops-FirstPage r.cells 1 r.second.sum o₁ e₁)
            (raise_ops-FirstPage r.cells 0 (r.first ∷ r.second ∷ []) j e₂))))

length-push_ops : (a : ℕ) (os : List Op) → length (push_ops a os) ≡ length os
unfolding push_ops
length-push_ops a [] = refl
length-push_ops a (o ∷ os) = ap suc (length-push_ops (u32 (a + 8)) os)

-- The ROM that `rom_init` makes fits its area, and is a program: its addresses fit their fields, each
-- instruction leads to the one behind it and the last one to the first, and every PRG_NAND names
-- the page behind the ROM.
pub rom_init-IsProgram :
    (rom : List RomT) → rom_init ≡ some rom → IsProgram rom × (8 * length rom ≤ rom_size)
unfolding rom_init
rom_init-IsProgram rom h =
    let (r, e, h₀) = bind-some _ _ rom h in
    let (os, e₀, h₁) = bind-some _ _ rom h₀ in
    let made' = push_ops 0 os in
    let (fits, made) =
      assert-some (leb (length made' * 8) rom_size) (some (restart made')) rom h₁ in
    let whole : restart (push_ops 0 os) ≡ rom = cc made in
    let small : 8 * length os ≤ rom_size = ground (arith, fits, length-push_ops 0 os) in
    let first = round_ops-FirstPage r os (build_netlist-page_base r e) e₀ in
    rw (← whole)
      (restart-IsProgram os (omega (arith, small)) first, omega (arith, small, length-restart 0 os))
