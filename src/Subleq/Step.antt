-- ===== src/Subleq/Step.antt =====
-- The interpreter src/subleq/subleq.cpp with the subtraction of the flash server steps like the
-- plain machine.
use hsq_over_nand.Base.{
  ℕ, ◌+◌, ◌%◌, ◌^◌, ◌≤◌, ◌≡◌, refl, ap, fun_ext, ◌∙◌, Bool, true, false, Option, none, some, [],
  ◌∷◌, ◌++◌, ltb, leb, ◌==◌, if◌then◌else◌, inl, inr, Bool-cases, arith,
}
use hsq_over_nand.Word.{sub64, is_non_positive}
use hsq_over_nand.Cpu.{update}
use hsq_over_nand.Subleq.Plain.{Operand, operand, kept, subleq, typed, plain}
use hsq_over_nand.Subleq.{
  Machine, Outcome, max_code_size, table, minus_one, minus_two, is_negative, is_above, in_array,
  write_out, read_in, read_ctrlc, store, subtract, instruction, step,
}

-- What the tests of the code find of an operand.
unfoldable found : Operand → Bool × Bool × Bool × Bool × Bool
found Operand.cell = (false, false, false, false, true)
found Operand.port = (false, true, false, true, false)
found Operand.second = (false, false, true, true, false)
found Operand.low = (false, false, false, true, false)
found Operand.high = (true, false, false, false, false)

record Reads (w : ℕ) (o : Operand) : Type 0 where
  above : is_above w ≡ (found o).0
  one : (w == minus_one) ≡ (found o).1
  two : (w == minus_two) ≡ (found o).2
  negative : is_negative w ≡ (found o).3
  inside : in_array w ≡ (found o).4

operand-Reads : (w : ℕ) → Reads w (operand w)
unfolding operand found
operand-Reads w = elim (Bool-cases (ltb w max_code_size)) [
  | inl i ↦ rw i (record {
    above = ground arith;
    one = ground arith;
    two = ground arith;
    negative = ground arith;
    inside = i;
  })
  | inr i ↦ rw i (elim (Bool-cases (ltb w (2 ^ 63))) [
    | inl j ↦ rw j (record {
      above = ground arith;
      one = ground arith;
      two = ground arith;
      negative = ground arith;
      inside = i;
    })
    | inr j ↦ rw j (elim (Bool-cases (w == minus_one)) [
      | inl k ↦ rw k (record {
        above = ground arith;
        one = k;
        two = ground arith;
        negative = ground arith;
        inside = i;
      })
      | inr k ↦ rw k (elim (Bool-cases (w == minus_two)) [
        | inl l ↦
            rw l (record {
              above = ground arith;
              one = k;
              two = l;
              negative = ground arith;
              inside = i;
            })
        | inr l ↦
            rw l (record {
              above = ground arith;
              one = k;
              two = l;
              negative = ground arith;
              inside = i;
            })
      ])
    ])
  ])
]

-- A test that fails, and one that holds.
pub if_false : {A : Type 0} (b : Bool) (x y : A) → b ≡ false → (if b then x else y) ≡ y
if_false b x y h = rw h refl

pub if_true : {A : Type 0} (b : Bool) (x y : A) → b ≡ true → (if b then x else y) ≡ x
if_true b x y h = rw h refl

-- The store leaves every cell but the target, and the table of the bytes.
kept-code :
    (b d : ℕ) (s : Machine)
    → (if ltb b table then update s.code b d else s.code) ≡ (kept b d s).code
kept-code b d s = elim (Bool-cases (ltb b table)) [
  | inl e ↦ rw e (fun_ext λ i. ground arith)
  | inr e ↦ rw e (fun_ext λ i. ground arith)
]

store-subleq :
    (a b c : ℕ) (s : Machine)
    → store (sub64 (s.code a) (s.code b), is_non_positive (sub64 (s.code a) (s.code b))) b c s
      ≡ subleq a b c s
unfolding store subleq
store-subleq a b c s = rw (kept-code b (sub64 (s.code a) (s.code b)) s) refl

write_out-cell :
    (a : ℕ) (s : Machine)
    → in_array a ≡ true
    → write_out a s
      ≡ Outcome.running (record s { output = s.output ++ s.code a % 2 ^ 8 ∷ []; pc = s.pc + 3 })
unfolding write_out
write_out-cell a s h = rw h refl

write_out-stray : (a : ℕ) (s : Machine) → in_array a ≡ false → write_out a s ≡ Outcome.undefined
unfolding write_out
write_out-stray a s h = rw h refl

read_in-cell :
    (key : Option ℕ) (b : ℕ) (s : Machine) → in_array b ≡ true → read_in key b s ≡ typed key b s
unfolding read_in typed
read_in-cell none b s h = rw h refl
read_in-cell (some ch) b s h = rw h refl

read_in-stray :
    (key : Option ℕ) (b : ℕ) (s : Machine)
    → in_array b ≡ false
    → read_in key b s ≡ Outcome.undefined
unfolding read_in
read_in-stray key b s h = rw h refl

read_ctrlc-cell :
    (b : ℕ) (s : Machine)
    → in_array b ≡ true
    → read_ctrlc b s
      ≡ Outcome.running (record s {
        code = update s.code b (if s.ctrlc then 1 else 0);
        ctrlc = false;
        pc = s.pc + 3;
      })
unfolding read_ctrlc
read_ctrlc-cell b s h = rw h refl

read_ctrlc-stray : (b : ℕ) (s : Machine) → in_array b ≡ false → read_ctrlc b s ≡ Outcome.undefined
unfolding read_ctrlc
read_ctrlc-stray b s h = rw h refl

module _ (flash : ℕ → ℕ → ℕ × Bool) (key : Option ℕ)
    (lawful : (x y : ℕ) → flash x y ≡ (sub64 x y, is_non_positive (sub64 x y))) where
  subtract-cells :
      (a b c : ℕ) (s : Machine)
      → in_array a ≡ true
      → in_array b ≡ true
      → subtract flash a b c s ≡ subleq a b c s
  unfolding subtract
  subtract-cells a b c s ha hb =
      rw (ha, hb) (ap (λ r. store r b c s) (lawful (s.code a) (s.code b)) ∙ store-subleq a b c s)

  instruction-plain :
      (oa ob : Operand) (a b c : ℕ) (s : Machine)
      → Reads a oa
      → Reads b ob
      → instruction flash key a b c s ≡ plain oa ob key a b c s
  unfolding instruction plain found
  instruction-plain Operand.high Operand.high a b c s A B = rw A.above refl
  instruction-plain Operand.high Operand.port a b c s A B = rw A.above refl
  instruction-plain Operand.high Operand.second a b c s A B = rw A.above refl
  instruction-plain Operand.high Operand.low a b c s A B = rw A.above refl
  instruction-plain Operand.high Operand.cell a b c s A B = rw A.above refl
  instruction-plain Operand.port Operand.high a b c s A B = rw (A.above, B.above) refl
  instruction-plain Operand.port Operand.port a b c s A B =
      rw (A.above, B.above, B.one) (write_out-stray a s A.inside)
  instruction-plain Operand.port Operand.second a b c s A B =
      rw (A.above, B.above, B.one, A.one) (read_in-stray key b s B.inside)
  instruction-plain Operand.port Operand.low a b c s A B =
      rw (A.above, B.above, B.one, A.one) (read_in-stray key b s B.inside)
  instruction-plain Operand.port Operand.cell a b c s A B =
      rw (A.above, B.above, B.one, A.one) (read_in-cell key b s B.inside)
  instruction-plain Operand.second Operand.high a b c s A B = rw (A.above, B.above) refl
  instruction-plain Operand.second Operand.port a b c s A B =
      rw (A.above, B.above, B.one) (write_out-stray a s A.inside)
  instruction-plain Operand.second Operand.second a b c s A B =
      rw (A.above, B.above, B.one, A.one, A.two) (read_ctrlc-stray b s B.inside)
  instruction-plain Operand.second Operand.low a b c s A B =
      rw (A.above, B.above, B.one, A.one, A.two) (read_ctrlc-stray b s B.inside)
  instruction-plain Operand.second Operand.cell a b c s A B =
      rw (A.above, B.above, B.one, A.one, A.two) (read_ctrlc-cell b s B.inside)
  instruction-plain Operand.low Operand.high a b c s A B = rw (A.above, B.above) refl
  instruction-plain Operand.low Operand.port a b c s A B =
      rw (A.above, B.above, B.one) (write_out-stray a s A.inside)
  instruction-plain Operand.low Operand.second a b c s A B =
      rw (A.above, B.above, B.one, A.one, A.two, A.negative) refl
  instruction-plain Operand.low Operand.low a b c s A B =
      rw (A.above, B.above, B.one, A.one, A.two, A.negative) refl
  instruction-plain Operand.low Operand.cell a b c s A B =
      rw (A.above, B.above, B.one, A.one, A.two, A.negative) refl
  instruction-plain Operand.cell Operand.high a b c s A B = rw (A.above, B.above) refl
  instruction-plain Operand.cell Operand.port a b c s A B =
      rw (A.above, B.above, B.one) (write_out-cell a s A.inside)
  instruction-plain Operand.cell Operand.second a b c s A B =
      rw (A.above, B.above, B.one, A.one, A.two, A.negative, B.negative) refl
  instruction-plain Operand.cell Operand.low a b c s A B =
      rw (A.above, B.above, B.one, A.one, A.two, A.negative, B.negative) refl
  instruction-plain Operand.cell Operand.cell a b c s A B =
      rw (A.above, B.above, B.one, A.one, A.two, A.negative, B.negative)
        (subtract-cells a b c s A.inside B.inside)

  -- With a server that subtracts and tests as the network does, a turn of the loop, before `die` is set and
  -- with the instruction's three words in the array, is a step of the plain machine, whatever the operands
  -- are: cells, -1, -2, other negative numbers, or numbers behind the end of the array.
  pub step-plain :
      (s : Machine)
      → s.die ≡ false
      → s.pc + 3 ≤ max_code_size
      → let a = s.code s.pc in
        let b = s.code (s.pc + 1) in
        step flash key s ≡ plain (operand a) (operand b) key a b (s.code (s.pc + 2)) s
  unfolding step
  step-plain s alive inside =
      let a = s.code s.pc in
      let b = s.code (s.pc + 1) in
      let p₁ : leb max_code_size s.pc ≡ false = ground arith in
      let p₂ : ltb max_code_size (s.pc + 3) ≡ false = ground arith in
      if_false s.die _ _ alive
      ∙ rw (p₁, p₂)
          (instruction-plain (operand a) (operand b) a b (s.code (s.pc + 2)) s (operand-Reads a)
            (operand-Reads b))
