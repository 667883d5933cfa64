-- ===== src/Rom.antt =====
-- The microcode ROM: include/ROM.hpp, `push_op`, `build_round` and `rom_init` of
-- src/server/ROM.cpp.
pub mod Program
pub mod Init
pub mod Built
pub mod Outputs
mod Tests
use hsq_over_nand.Base.{
  ℕ, zero, suc, ◌+◌, ◌-◌, ◌*◌, ◌/◌, ◌%◌, ◌^◌, none, some, List, [], ◌∷◌, ◌++◌, length, leb, ◌==◌,
  if◌then◌else◌, u32, assert, Option, ◌>>=◌,
}
use hsq_over_nand.Netlist.{Sig, Write, Cell, addr_of}
use hsq_over_nand.Schedule.{cell_at, schedule}
use hsq_over_nand.Lane.{Lane, build_lane, index_at, digit}

abbrev pub rom_size : ℕ
rom_size = 0xa0000

-- The calculation area begins where the ROM ends.
abbrev pub ram : ℕ
ram = rom_size

abbrev pub page_siz : ℕ
page_siz = 2048

abbrev pub lanes : ℕ
lanes = 2

pub data Opcode : Type 0 where
  mov inv_mov cap_in get_in prg_nand push_out raise erase : Opcode

-- `ROM_t`; the three addresses are bit fields of 20 bits.
pub record RomT : Type 0 where
  pub code : Opcode
  pub dest : ℕ
  pub from : ℕ
  pub next : ℕ

abbrev pub u20 : ℕ → ℕ
u20 n = n % 2 ^ 20

-- The arguments of one call of `push_op`.
pub record Op : Type 0 where
  pub opcode : Opcode
  pub to : ℕ
  pub of : ℕ

abbrev pub op : Opcode → ℕ → ℕ → Op
op code dest from = record { opcode = code; to = dest; of = from }

-- The calls of `push_op` in their order, with `romAddr` before the first: the constructor of
-- `operation` stores the address after its own.
unfoldable pub push_ops : ℕ → List Op → List RomT
push_ops rom_addr [] = []
push_ops rom_addr (o ∷ os) =
    let next = u32 (rom_addr + 8) in
    record { code = o.opcode; dest = u20 o.to; from = u20 o.of; next = u20 next } ∷ push_ops next os

-- `for(int l = 0; l < LANES; l++) for(int i = 0; i < DIGIT; i++) push_op(GET_IN, ...)`, for one lane
-- from bit `i` on.
unfoldable pub get_in_ops : List Cell → Lane → ℕ → ℕ → List Op
get_in_ops cells l i zero = []
get_in_ops cells l i (suc n) =
    op Opcode.get_in (cell_at cells (index_at l.bin i)).addr (cell_at cells (index_at l.ain i)).addr
    ∷ get_in_ops cells l (i + 1) n

-- The writes of one cell that fall in step `s`.
unfoldable pub write_ops : List Cell → ℕ → ℕ → List Write → List Op
write_ops cells s addr [] = []
write_ops cells s addr (w ∷ ws) =
    let rest = write_ops cells s addr ws in
    if w.step == s
    then op (if w.src.inv then Opcode.inv_mov else Opcode.mov) addr (cell_at cells w.src.cell).addr
      ∷ rest
    else rest

unfoldable pub step_ops : List Cell → ℕ → List Cell → List Op
unfolding write_ops
step_ops cells s [] = []
step_ops cells s (c ∷ cs) = write_ops cells s c.addr c.ins ++ step_ops cells s cs

-- Steps `s` to `s + n - 1`, each with its PRG_NAND.
unfoldable pub steps_ops : List Cell → ℕ → ℕ → ℕ → List Op
unfolding step_ops
steps_ops cells page_base s zero = []
steps_ops cells page_base s (suc n) =
    step_ops cells s cells ++ (op Opcode.prg_nand page_base 0 ∷ steps_ops cells page_base (s + 1) n)

-- PUSH_OUT for the bits of lane `l` from `i` on; `addrOf` asserts that a signal is not inverted.
unfoldable pub push_out_ops : List Cell → ℕ → List Sig → Option (List Op)
push_out_ops cells l [] = some []
push_out_ops cells l (s ∷ ss) = do
  a ← addr_of cells s
  os ← push_out_ops cells l ss
  some (op Opcode.push_out l a ∷ os)

-- RAISE for lane `l`; the raise of the last lane ends the round.
unfoldable pub raise_ops : List Cell → ℕ → List Lane → Option (List Op)
raise_ops cells l [] = some []
raise_ops cells l (x ∷ xs) = do
  a ← addr_of cells x.is_jmp
  os ← raise_ops cells (l + 1) xs
  some (op Opcode.raise l a ∷ os)

-- A round: its scheduled netlist, its lanes, the number of steps, and the page that it is in.
pub record Round : Type 0 where
  pub cells : List Cell
  pub first : Lane
  pub second : Lane
  pub steps : ℕ
  pub page_base : ℕ
  pub calc_addr : ℕ

-- The first half of `build_round`: the netlist of all lanes and its schedule.
unfoldable pub build_netlist : ℕ → Option Round
build_netlist calc_addr = do
  let base = (calc_addr + page_siz - 1) / page_siz * page_siz
  (first, net) ← build_lane (record { cells = []; calc_addr = base })
  (second, net') ← build_lane net
  (cells, steps) ← schedule net'.cells
  assert (leb (net'.calc_addr - base) page_siz) (
      some (record {
        cells = cells;
        first = first;
        second = second;
        steps = steps;
        page_base = base;
        calc_addr = net'.calc_addr;
      }))

-- The instructions up to the last PRG_NAND.
unfoldable pub program_ops : Round → List Op
program_ops r =
    op Opcode.cap_in 0 0
    ∷ (get_in_ops r.cells r.first 0 digit
        ++ (get_in_ops r.cells r.second 0 digit
            ++ (op Opcode.prg_nand r.page_base 0 ∷ steps_ops r.cells r.page_base 2 (r.steps - 1))))

-- PUSH_OUT and RAISE of both lanes.
unfoldable pub output_ops : Round → Option (List Op)
output_ops r = do
  o₀ ← push_out_ops r.cells 0 r.first.sum
  o₁ ← push_out_ops r.cells 1 r.second.sum
  j ← raise_ops r.cells 0 (r.first ∷ r.second ∷ [])
  some (o₀ ++ (o₁ ++ j))

-- The second half of `build_round`: the instructions of the round.
unfoldable pub round_ops : Round → Option (List Op)
round_ops r = do o ← output_ops r; some (program_ops r ++ o)

-- `rom.back().next = 0x00;`
unfoldable pub restart : List RomT → List RomT
restart [] = []
restart (i ∷ []) = record i { next = 0 } ∷ []
restart (i ∷ j ∷ is) = i ∷ restart (j ∷ is)

-- `rom_init`: the addresses are counted anew, one round is built, and the last instruction leads
-- back to the first. `none` is a failed assertion.
unfoldable pub rom_init : Option (List RomT)
rom_init = do
  r ← build_netlist ram
  os ← round_ops r
  let rom = push_ops 0 os
  assert (leb (length rom * 8) rom_size) (some (restart rom))
