-- ===== src/Subleq/Plain.antt =====
-- A plain SUBLEQ machine with the ports of the interpreter src/subleq/subleq.cpp, which looks at what the
-- operands of an instruction are before it does anything, and which subtracts by itself.
use hsq_over_nand.Base.{
  ℕ, ◌+◌, ◌%◌, ◌^◌, false, Option, none, some, [], ◌∷◌, ◌++◌, ltb, ◌==◌, ◌&&◌, if◌then◌else◌,
}
use hsq_over_nand.Word.{sub64, is_non_positive}
use hsq_over_nand.Cpu.{update}
use hsq_over_nand.Subleq.{Machine, Outcome, max_code_size, table, minus_one, minus_two, key_pressed}

-- What a word is as an operand: a cell of the array, -1, -2, another negative number, or a number behind the
-- end of the array.
pub data Operand : Type 0 where
  cell port second low high : Operand

unfoldable pub operand : ℕ → Operand
operand w =
    if ltb w max_code_size
    then Operand.cell
    else if ltb w (2 ^ 63)
    then Operand.high
    else if w == minus_one
    then Operand.port
    else if w == minus_two
    then Operand.second
    else Operand.low

-- The machine with the word `d` in the cell `b`, unless the cell lies in or behind the table of the bytes.
abbrev pub kept : ℕ → ℕ → Machine → Machine
kept b d s = record s { code = λ i. if (i == b) && ltb b table then d else s.code i }

-- The plain SUBLEQ instruction: `code[b] = code[b] - code[a]`, and a jump where the difference is zero or
-- negative; a jump to -1 ends the program.
unfoldable pub subleq : ℕ → ℕ → ℕ → Machine → Outcome
subleq a b c s =
    let d = sub64 (s.code a) (s.code b) in
    let t = kept b d s in
    if is_non_positive d
    then (if c == minus_one then Outcome.halted t else Outcome.running (record t { pc = c }))
    else Outcome.running (record t { pc = s.pc + 3 })

-- The word of a key and what else the key does; the end of the input is -1.
unfoldable pub typed : Option ℕ → ℕ → Machine → Outcome
typed none b s =
    Outcome.running (record s { code = update s.code b minus_one; ctrlc = false; pc = s.pc + 3 })
typed (some ch) b s =
    let t = key_pressed ch (record s { ctrlc = false }) in
    Outcome.running (record t { code = update t.code b ch; pc = t.pc + 3 })

-- The plain machine, by what the operands are. A number behind the end ends the program first; then comes
-- the console, then the keyboard and the Ctrl-C test, all of which need a cell for the other operand; a
-- subtraction needs two.
unfoldable pub plain : Operand → Operand → Option ℕ → ℕ → ℕ → ℕ → Machine → Outcome
unfolding typed subleq
plain Operand.high ob key a b c s = Outcome.exited
plain Operand.port Operand.high key a b c s = Outcome.exited
plain Operand.port Operand.port key a b c s = Outcome.undefined
plain Operand.port Operand.second key a b c s = Outcome.undefined
plain Operand.port Operand.low key a b c s = Outcome.undefined
plain Operand.port Operand.cell key a b c s = typed key b s
plain Operand.second Operand.high key a b c s = Outcome.exited
plain Operand.second Operand.port key a b c s = Outcome.undefined
plain Operand.second Operand.second key a b c s = Outcome.undefined
plain Operand.second Operand.low key a b c s = Outcome.undefined
plain Operand.second Operand.cell key a b c s =
    Outcome.running
      (record s { code = update s.code b (if s.ctrlc then 1 else 0); ctrlc = false; pc = s.pc + 3 })
plain Operand.low Operand.high key a b c s = Outcome.exited
plain Operand.low Operand.port key a b c s = Outcome.undefined
plain Operand.low Operand.second key a b c s = Outcome.exited
plain Operand.low Operand.low key a b c s = Outcome.exited
plain Operand.low Operand.cell key a b c s = Outcome.exited
plain Operand.cell Operand.high key a b c s = Outcome.exited
plain Operand.cell Operand.port key a b c s =
    Outcome.running (record s { output = s.output ++ s.code a % 2 ^ 8 ∷ []; pc = s.pc + 3 })
plain Operand.cell Operand.second key a b c s = Outcome.exited
plain Operand.cell Operand.low key a b c s = Outcome.exited
plain Operand.cell Operand.cell key a b c s = subleq a b c s
