-- ===== src/Lane/Tests.antt =====
-- Runs and instances of the gate network.
use hsq_over_nand.Base.{
  ℕ, Bool, true, false, none, some, [], ◌∷◌, if◌then◌else◌, ◌==◌, ◌/◌, ◌^◌, ◌%◌, xor, ◌≡◌, refl,
}
use hsq_over_nand.Netlist.{
  Sig, Netlist, push_cell, input, cell, wire, wire_all, and_of, or_of, xor_of, buf,
}
use hsq_over_nand.Netlist.Check.{same, holds, all_hold, all_hold-Sat}
use hsq_over_nand.Lane.{
  Lane, build_lane, collect, factors, all_factors, terms, cla_borrow, cla_group, half_adder,
  sum_bit, wire_inverted, zero_byte, is_jmp_of,
}
use hsq_over_nand.Netlist.Meaning.{value}
use hsq_over_nand.Word.{word_of, sub64, is_non_positive}
use hsq_over_nand.Lane.Borrow.{borrow}
use hsq_over_nand.Lane.Lookahead.{values, values_at}
use hsq_over_nand.Lane.Correct.{IsLane, operand}
use hsq_over_nand.Lane.Subtraction.{build_lane-subtracts, build_lane-returns, cla_borrow-borrows}

abbrev empty : Netlist
empty = record { cells = []; calc_addr = 0xa0000 }

abbrev all_low : ℕ → Bool
all_low i = false

-- The lane built on the empty netlist.
lane_built : Lane × Netlist
lane_built = elim (build_lane empty) [
  | none ↦
      (record { ain = []; bin = []; sum = []; is_jmp = record { cell = 0; inv = false } }, empty)
  | some r ↦ r
]

-- The values of the 874 cells where `a` is 5 and `b` is 12, as the bits of one number.
abbrev cell_values : ℕ
cell_values =
    0x17f285149428a4a145250a29285149428a4a145250a29285149428a4a145250a29285149428a4a1452250c225128944a258c6118c6318c6318c6318c6104444444444444444444444444444444444444444444444444444444444448258000000000000000000000000000000b1

abbrev on_five_twelve : ℕ → Bool
on_five_twelve i = cell_values / 2 ^ i % 2 == 1

built : build_lane empty ≡ some lane_built
unfolding lane_built push_cell input cell wire wire_all and_of or_of xor_of buf collect factors
    all_factors terms cla_borrow cla_group half_adder sum_bit wire_inverted zero_byte is_jmp_of
    build_lane
built = refl

built_holds : all_hold on_five_twelve 0 lane_built.1.cells ≡ true
unfolding lane_built same holds all_hold push_cell input cell wire wire_all and_of or_of xor_of buf
    collect factors all_factors terms cla_borrow cla_group half_adder sum_bit wire_inverted
    zero_byte is_jmp_of build_lane xor
built_holds = refl

build_lane-subtracts_example :
    (word_of (values on_five_twelve lane_built.0.sum) 64
      ≡ sub64 (operand on_five_twelve lane_built.0.ain) (operand on_five_twelve lane_built.0.bin))
    × (value on_five_twelve lane_built.0.is_jmp
        ≡ is_non_positive (
            sub64
              (operand on_five_twelve lane_built.0.ain)
              (operand on_five_twelve lane_built.0.bin)))
build_lane-subtracts_example =
    build_lane-subtracts on_five_twelve empty lane_built.1 lane_built.0 built
      (all_hold-Sat on_five_twelve lane_built.1.cells built_holds)

build_lane-returns_example :
    (l : Lane) × (n' : Netlist) × (build_lane empty ≡ some (l, n')) × IsLane l
build_lane-returns_example = build_lane-returns empty

-- Two inputs and a borrow input, for a look-ahead of one place.
abbrev three_inputs : Netlist
three_inputs = record {
  cells =
      record { addr = 0xa0000; ins = []; complete = 1 }
      ∷ record { addr = 0xa0001; ins = []; complete = 1 }
      ∷ record { addr = 0xa0002; ins = []; complete = 1 }
      ∷ [];
  calc_addr = 0xa0003;
}

abbrev plain : ℕ → Sig
plain i = record { cell = i; inv = false }

-- The generate signal is 0, the propagate and the borrow signal are 1.
abbrev borrowed : ℕ → Bool
borrowed i = if i == 0 then false else (if i == 4 then false else true)

borrow_built : Sig × Netlist
borrow_built = elim (cla_borrow (plain 0 ∷ []) (plain 1 ∷ []) 0 (plain 2) 1 three_inputs) [
  | none ↦ (plain 0, three_inputs)
  | some r ↦ r
]

borrow_returns :
    cla_borrow (plain 0 ∷ []) (plain 1 ∷ []) 0 (plain 2) 1 three_inputs ≡ some borrow_built
unfolding borrow_built cla_borrow terms factors all_factors and_of or_of cell wire_all wire
    push_cell
borrow_returns = refl

borrow_holds : all_hold borrowed 0 borrow_built.1.cells ≡ true
unfolding borrow_built same holds all_hold cla_borrow terms factors all_factors and_of or_of cell
    wire_all wire push_cell xor
borrow_holds = refl

cla_borrow-borrows_example :
    value borrowed borrow_built.0
    ≡ borrow (values_at borrowed (plain 0 ∷ []) 0) (values_at borrowed (plain 1 ∷ []) 0) true 1
cla_borrow-borrows_example =
    cla_borrow-borrows borrowed (plain 0 ∷ []) (plain 1 ∷ []) 0 (plain 2) 1 three_inputs
      borrow_built.1 borrow_built.0 borrow_returns
      (all_hold-Sat borrowed borrow_built.1.cells borrow_holds)
