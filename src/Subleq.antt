-- ===== src/Subleq.antt =====
-- The interpreter src/subleq/subleq.cpp. A word is its 64-bit pattern; the signed comparisons of the
-- code are written out on it. An access outside of the array `code` is the outcome `undefined`.
pub mod Plain
pub mod Step
pub mod Safety
mod Tests
use hsq_over_nand.Base.{
  ℕ, zero, suc, ◌+◌, ◌-◌, ◌*◌, ◌%◌, ◌^◌, Bool, true, false, Option, none, some, List, [], ◌∷◌, ◌++◌,
  ltb, leb, not, ◌==◌, ◌&&◌, ◌||◌, if◌then◌else◌,
}
use hsq_over_nand.Cpu.{update}

abbrev pub max_code_size : ℕ
max_code_size = 0xFFFFFF + 1

-- The interpreter does not store results from here on; the table of the bytes begins here.
abbrev pub table : ℕ
table = 0x600000

abbrev pub minus_one : ℕ
minus_one = 2 ^ 64 - 1

abbrev pub minus_two : ℕ
minus_two = 2 ^ 64 - 2

abbrev pub is_negative : ℕ → Bool
is_negative w = leb (2 ^ 63) w

-- `w >= 0x1000000`, signed.
abbrev pub is_above : ℕ → Bool
is_above w = leb max_code_size w && ltb w (2 ^ 63)

-- The globals and the locals of `main`, with what was written to the console.
pub record Machine : Type 0 where
  pub code : ℕ → ℕ
  pub pc : ℕ
  pub ctrlc : Bool
  pub ctrlc_count : ℕ
  pub head : ℕ
  pub tail : ℕ
  pub die : Bool
  pub output : List ℕ

-- After one turn of the loop: it goes on, has left the loop, has called `exit(1)`, or has used
-- memory outside of the array.
pub data Outcome : Type 0 where
  running halted : Machine → Outcome
  exited undefined : Outcome

-- Whether `code[i]` is in the array.
abbrev pub in_array : ℕ → Bool
in_array i = ltb i max_code_size

-- `write(STDOUT_FILENO, &code[a], 1)`.
unfoldable pub write_out : ℕ → Machine → Outcome
write_out a s =
    if not (in_array a)
    then Outcome.undefined
    else Outcome.running (record s { output = s.output ++ s.code a % 2 ^ 8 ∷ []; pc = s.pc + 3 })

-- What a key does to the counters; the key 3 is Ctrl-C, also when it comes as a signal.
unfoldable pub key_pressed : ℕ → Machine → Machine
key_pressed ch s =
    if ch == 3
    then record s {
      ctrlc = true;
      ctrlc_count = s.ctrlc_count + 1;
      head = 0;
      tail = 0;
      die = if ltb 2 (s.ctrlc_count + 1) then true else s.die;
    }
    else record s { ctrlc_count = 0 }

-- A blocking read: `none` is the end of the input or an error.
unfoldable pub read_in : Option ℕ → ℕ → Machine → Outcome
read_in key b s =
    let s₁ = record s { ctrlc = false } in
    let s₂ : Machine = elim key [ none ↦ s₁ | some ch ↦ key_pressed ch s₁ ] in
    let word : ℕ = elim key [ none ↦ minus_one | some ch ↦ ch ] in
    if not (in_array b)
    then Outcome.undefined
    else Outcome.running (record s₂ { code = update s₂.code b word; pc = s₂.pc + 3 })

-- The Ctrl-C test.
unfoldable pub read_ctrlc : ℕ → Machine → Outcome
read_ctrlc b s =
    if not (in_array b)
    then Outcome.undefined
    else Outcome.running (record s {
      code = update s.code b (if s.ctrlc then 1 else 0);
      ctrlc = false;
      pc = s.pc + 3;
    })

-- What follows the answer of the flash server.
unfoldable pub store : ℕ × Bool → ℕ → ℕ → Machine → Outcome
store resp b c s =
    let s₁ = record s { code = if ltb b table then update s.code b resp.0 else s.code } in
    if resp.1
    then (if c == minus_one then Outcome.halted s₁ else Outcome.running (record s₁ { pc = c }))
    else Outcome.running (record s₁ { pc = s₁.pc + 3 })

-- The subtraction: both words are read for the request.
unfoldable pub subtract : (ℕ → ℕ → ℕ × Bool) → ℕ → ℕ → ℕ → Machine → Outcome
unfolding store
subtract flash a b c s =
    if not (in_array a && in_array b)
    then Outcome.undefined
    else store (flash (s.code a) (s.code b)) b c s

-- One instruction, with its three words.
unfoldable pub instruction : (ℕ → ℕ → ℕ × Bool) → Option ℕ → ℕ → ℕ → ℕ → Machine → Outcome
instruction flash key a b c s =
    if is_above a
    then Outcome.exited
    else if is_above b
    then Outcome.exited
    else if b == minus_one
    then write_out a s
    else if a == minus_one
    then read_in key b s
    else if a == minus_two
    then read_ctrlc b s
    else if is_negative a
    then Outcome.exited
    else if is_negative b
    then Outcome.exited
    else subtract flash a b c s

-- One turn of `while (!die)`. `flash` is `flashClient`, `key` what a read of the keyboard gives.
unfoldable pub step : (ℕ → ℕ → ℕ × Bool) → Option ℕ → Machine → Outcome
step flash key s =
    if s.die
    then Outcome.halted s
    else if leb max_code_size s.pc
    then Outcome.halted s
    else if ltb max_code_size (s.pc + 3)
    then Outcome.undefined
    else instruction flash key (s.code s.pc) (s.code (s.pc + 1)) (s.code (s.pc + 2)) s

-- `code[i] = word` for the words of the file from `i` on, as far as the array goes.
unfoldable pub load_words : ℕ → ℕ → List ℕ → (ℕ → ℕ) → ℕ → ℕ
load_words zero i ws code = code
load_words (suc room) i [] code = code
load_words (suc room) i (w ∷ ws) code = load_words room (i + 1) ws (update code i w)

-- `for (int i=0; i<256; i++) code[0x600000+i]=i;`, with `n` bytes left.
unfoldable pub load_table : ℕ → ℕ → (ℕ → ℕ) → ℕ → ℕ
load_table zero i code = code
load_table (suc n) i code = load_table n (i + 1) (update code (table + i) i)

-- The machine before the first turn.
unfoldable pub load : List ℕ → Machine
load words = record {
  code = load_table 256 0 (load_words max_code_size 0 words (λ i. 0));
  pc = 0;
  ctrlc = false;
  ctrlc_count = 0;
  head = 0;
  tail = 0;
  die = false;
  output = [];
}
