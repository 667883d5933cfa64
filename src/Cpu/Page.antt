-- ===== src/Cpu/Page.antt =====
-- One step of a round: the MOV and INV_MOV instructions of `build_round` (src/server/ROM.cpp) edit
-- the page buffer of the CPU (src/server/cpu.cpp).
use hsq_over_nand.Base.{
  ℕ, zero, suc, ◌+◌, ◌-◌, ◌%◌, ◌^◌, ◌≤◌, ◌<◌, ◌≡◌, refl, sym, ap, ◌∙◌, Bool, true, some, List, [],
  ◌∷◌, ◌++◌, get_elem?, ◌==◌, if◌then◌else◌, arith,
}
use hsq_over_nand.Nand.{Nand, Buffer}
use hsq_over_nand.Netlist.{Write, Cell}
use hsq_over_nand.Netlist.Meaning.{value}
use hsq_over_nand.Rom.{Op, Opcode, ram, page_siz}
use hsq_over_nand.Cpu.{Cpu, update, phys, page_of, read, edit_buf, dispatch}

-- A cell holds the byte of its value.
abbrev pub byte_of : Bool → ℕ
byte_of b = if b then 0xff else 0x00

module _ (N : Nand) where
  unfoldable pub run_ops : List Op → Cpu N → Cpu N
  run_ops [] s = s
  run_ops (o ∷ os) s = run_ops os (dispatch N o.opcode o.to o.of s)

  pub run_ops-append :
      (xs ys : List Op) (s : Cpu N) → run_ops (xs ++ ys) s ≡ run_ops ys (run_ops xs s)
  unfolding run_ops
  run_ops-append [] ys s = refl
  run_ops-append (x ∷ xs) ys s = run_ops-append xs ys _

  -- The buffer is that of the round's page, whose place is a whole page behind `ram`.
  pub record AtPage (s : Cpu N) : Type 0 where
    pub aligned : s.page_offset % page_siz ≡ 0
    pub fits : ram + s.page_offset + page_siz ≤ 2 ^ 32
    pub here : s.pre_offset ≡ ram + s.page_offset

  pub page_of-ram :
      (s : Cpu N) (i : ℕ) → AtPage s → i < page_siz → page_of N s (ram + i) ≡ ram + s.page_offset
  unfolding phys
  page_of-ram s i h lt = ground arith

  pub edit_buf_lem :
      (s : Cpu N) (i x : ℕ)
      → AtPage s
      → i < page_siz
      → edit_buf N (ram + i) x s ≡ record s { page = update s.page i x }
  unfolding edit_buf
  edit_buf_lem s i x h lt =
      let place : (ram + i) % page_siz ≡ i = omega arith in
      let same : page_of N s (ram + i) ≡ s.pre_offset = page_of-ram s i h lt ∙ sym h.here in
      let test : (s.pre_offset == s.pre_offset) ≡ true = ground arith in rw (place, same, test) refl

  pub dispatch-mov :
      (dest from : ℕ) (s : Cpu N)
      → dispatch N Opcode.mov dest from s ≡ edit_buf N dest (read N s from) s
  unfolding dispatch
  dispatch-mov dest from s = refl

  pub dispatch-inv_mov :
      (dest from : ℕ) (s : Cpu N)
      → dispatch N Opcode.inv_mov dest from s ≡ edit_buf N dest (0xff - read N s from) s
  unfolding dispatch
  dispatch-inv_mov dest from s = refl

  pub read_lem : (s : Cpu N) (i : ℕ) → i < page_siz → read N s (ram + i) ≡ s.page i
  unfolding read
  read_lem s i lt = ap s.page (omega arith)

-- What the writes of step `s` leave in a cell that holds the byte `x`.
unfoldable pub edited : (ℕ → Bool) → ℕ → List Write → ℕ → ℕ
edited v s [] x = x
edited v s (w ∷ ws) x = edited v s ws (if w.step == s then byte_of (value v w.src) else x)

-- What the instructions of step `s` leave in the page, for the cells from index `i` on.
unfoldable pub edit_page : (ℕ → Bool) → ℕ → ℕ → List Cell → Buffer → Buffer
unfolding edited
edit_page v s i [] p = p
edit_page v s i (c ∷ cs) p = edit_page v s (i + 1) cs (update p i (edited v s c.ins (p i)))

edit_page-below :
    (v : ℕ → Bool) (s i : ℕ) (cs : List Cell) (p : Buffer) (j : ℕ)
    → j < i
    → edit_page v s i cs p j ≡ p j
unfolding edit_page
edit_page-below v s i [] p j lt = refl
edit_page-below v s i (c ∷ cs) p j lt =
    edit_page-below v s (i + 1) cs _ j (omega arith) ∙ ground arith

-- Each cell is edited by its own writes.
pub edit_page_lem :
    (v : ℕ → Bool) (s i : ℕ) (cs : List Cell) (p : Buffer) (j k : ℕ) (c : Cell)
    → get_elem? cs j ≡ some c
    → i + j ≡ k
    → edit_page v s i cs p k ≡ edited v s c.ins (p k)
unfolding edit_page
edit_page_lem v s i [] p j k c h e = cc
edit_page_lem v s i (d ∷ cs) p zero k c h e =
    let e' : i ≡ k = omega arith in
    let d' : d ≡ c = cc in
    rw (← e', ← d') (edit_page-below v s (i + 1) cs _ i (omega arith) ∙ ground arith)
edit_page_lem v s i (d ∷ cs) p (suc j) k c h e =
    edit_page_lem v s (i + 1) cs _ j k c h (omega arith) ∙ ap (edited v s c.ins) (ground arith)
