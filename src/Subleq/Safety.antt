-- ===== src/Subleq/Safety.antt =====
-- When the interpreter src/subleq/subleq.cpp stays inside of its array.
use hsq_over_nand.Base.{
  ℕ, ◌+◌, ◌≤◌, ◌≡◌, refl, ap, ◌∙◌, Bool, true, false, Option, ltb, leb, ◌==◌, arith, inl, inr,
  Bool-cases,
}
use hsq_over_nand.Subleq.{
  Machine, Outcome, max_code_size, minus_one, minus_two, is_negative, is_above, in_array, write_out,
  read_in, read_ctrlc, store, subtract, instruction, step,
}
use hsq_over_nand.Subleq.Step.{if_false, if_true}

unfoldable pub is_undefined : Outcome → Bool
is_undefined (Outcome.running s) = false
is_undefined (Outcome.halted s) = false
is_undefined Outcome.exited = false
is_undefined Outcome.undefined = true

write_out-safe : (a : ℕ) (s : Machine) → in_array a ≡ true → is_undefined (write_out a s) ≡ false
unfolding write_out is_undefined
write_out-safe a s h = rw h refl

read_in-safe :
    (key : Option ℕ) (b : ℕ) (s : Machine)
    → in_array b ≡ true
    → is_undefined (read_in key b s) ≡ false
unfolding read_in is_undefined
read_in-safe key b s h = rw h refl

read_ctrlc-safe : (b : ℕ) (s : Machine) → in_array b ≡ true → is_undefined (read_ctrlc b s) ≡ false
unfolding read_ctrlc is_undefined
read_ctrlc-safe b s h = rw h refl

store-safe : (r : ℕ × Bool) (b c : ℕ) (s : Machine) → is_undefined (store r b c s) ≡ false
unfolding store is_undefined
store-safe r b c s = elim (Bool-cases r.1) [
  | inr stay ↦ rw stay refl
  | inl jump ↦
      rw jump (elim (Bool-cases (c == minus_one)) [ inl e ↦ rw e refl | inr e ↦ rw e refl ])
]

subtract-safe :
    (flash : ℕ → ℕ → ℕ × Bool) (a b c : ℕ) (s : Machine)
    → in_array a ≡ true
    → in_array b ≡ true
    → is_undefined (subtract flash a b c s) ≡ false
unfolding subtract
subtract-safe flash a b c s ha hb = rw (ha, hb) (store-safe _ b c s)

-- An operand that the code has tested against both ends is in the array.
tested : (a : ℕ) → is_above a ≡ false → is_negative a ≡ false → in_array a ≡ true
tested a h k = ground arith

instruction-safe :
    (flash : ℕ → ℕ → ℕ × Bool) (key : Option ℕ) (a b c : ℕ) (s : Machine)
    → (b ≡ minus_one → is_negative a ≡ false)
    → (a ≡ minus_one → is_negative b ≡ false)
    → (a ≡ minus_two → is_negative b ≡ false)
    → is_undefined (instruction flash key a b c s) ≡ false
unfolding instruction is_undefined
instruction-safe flash key a b c s ha hb hb' = elim (Bool-cases (is_above a)) [
  | inl e ↦ rw e refl
  | inr e₁ ↦ rw e₁ (elim (Bool-cases (is_above b)) [
    | inl e ↦ rw e refl
    | inr e₂ ↦ rw e₂ (elim (Bool-cases (b == minus_one)) [
      | inl e ↦ rw e (write_out-safe a s (tested a e₁ (ground (arith, ha, e))))
      | inr e₃ ↦ rw e₃ (elim (Bool-cases (a == minus_one)) [
        | inl e ↦ rw e (read_in-safe key b s (tested b e₂ (ground (arith, hb, e))))
        | inr e₄ ↦ rw e₄ (elim (Bool-cases (a == minus_two)) [
          | inl e ↦ rw e (read_ctrlc-safe b s (tested b e₂ (ground (arith, hb', e))))
          | inr e₅ ↦ rw e₅ (elim (Bool-cases (is_negative a)) [
            | inl e ↦ rw e refl
            | inr e₆ ↦ rw e₆ (elim (Bool-cases (is_negative b)) [
              | inl e ↦ rw e refl
              | inr e₇ ↦ rw e₇ (subtract-safe flash a b c s (tested a e₁ e₆) (tested b e₂ e₇))
            ])
          ])
        ])
      ])
    ])
  ])
]

-- A turn of the loop stays inside of the array where the instruction's three words are in the array,
-- an output instruction has no negative source, and an input or Ctrl-C instruction no negative
-- target.
pub step-safe :
    (flash : ℕ → ℕ → ℕ × Bool) (key : Option ℕ) (s : Machine)
    → s.pc + 3 ≤ max_code_size
    → (s.code (s.pc + 1) ≡ minus_one → is_negative (s.code s.pc) ≡ false)
    → (s.code s.pc ≡ minus_one → is_negative (s.code (s.pc + 1)) ≡ false)
    → (s.code s.pc ≡ minus_two → is_negative (s.code (s.pc + 1)) ≡ false)
    → is_undefined (step flash key s) ≡ false
unfolding step is_undefined
step-safe flash key s inside ha hb hb' =
    let p₁ : leb max_code_size s.pc ≡ false = ground arith in
    let p₂ : ltb max_code_size (s.pc + 3) ≡ false = ground arith in
    elim (Bool-cases s.die) [
      | inl dead ↦ ap is_undefined (if_true s.die _ _ dead)
      | inr alive ↦
          ap is_undefined (if_false s.die _ _ alive)
          ∙ rw (p₁, p₂)
              (instruction-safe flash key (s.code s.pc) (s.code (s.pc + 1)) (s.code (s.pc + 2)) s ha
                hb hb')
    ]
