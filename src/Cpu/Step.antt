-- ===== src/Cpu/Step.antt =====
-- One step of a round on the CPU: the instructions that `build_round` (src/server/ROM.cpp) makes of
-- the writes of step `s` edit the page as `edit_page` says.
use hsq_over_nand.Base.{
  ℕ, zero, suc, ◌+◌, ◌-◌, ◌≤◌, ◌<◌, ◌≡◌, refl, sym, ap, fun_ext, ◌∙◌, Bool, true, false, not, inl,
  inr, some, List, [], ◌∷◌, length, get_elem?, ◌==◌, if◌then◌else◌, Bool-cases, arith, ℕ_discrete,
}
use hsq_over_nand.Nand.{Nand, Buffer}
use hsq_over_nand.Netlist.{Write, Cell}
use hsq_over_nand.Netlist.Meaning.{value}
use hsq_over_nand.Schedule.{cell_at, complete_at}
use hsq_over_nand.Schedule.Valid.{Timed, InPage, IsScheduled}
use hsq_over_nand.Rom.{Opcode, ram, page_siz, write_ops, step_ops}
use hsq_over_nand.Cpu.{Cpu, update, read, edit_buf, dispatch}
use hsq_over_nand.Cpu.Page.{
  byte_of, run_ops, run_ops-append, AtPage, edit_buf_lem, read_lem, dispatch-mov, dispatch-inv_mov,
  edited, edit_page,
}

update_self : (p : Buffer) (i : ℕ) → update p i (p i) ≡ p
update_self p i = fun_ext λ j. ground arith

inverse : (x : Bool) → 0xff - byte_of x ≡ byte_of (not x)
inverse true = refl
inverse false = refl

update-at : (p : Buffer) (i x : ℕ) → update p i x i ≡ x
update-at p i x = ground arith

update-update : (p : Buffer) (i x y : ℕ) → update (update p i x) i y ≡ update p i y
update-update p i x y = fun_ext λ j. ground arith

pub Timed-le :
    (cells : List Cell) (t : ℕ) (ws : List Write) (last : ℕ) → Timed cells t ws last → t ≤ last
Timed-le cells t [] last h = omega arith
Timed-le cells t (w ∷ ws) last h = omega (arith, h, Timed-le cells w.step ws last h.3)

pub get_elem?-cell_at :
    (cells : List Cell) (i : ℕ) → i < length cells → get_elem? cells i ≡ some (cell_at cells i)
get_elem?-cell_at [] i h = absurd (omega arith)
get_elem?-cell_at (c ∷ cs) zero h = refl
get_elem?-cell_at (c ∷ cs) (suc i) h = get_elem?-cell_at cs i (omega arith)

pub get_elem?-lt :
    (cells : List Cell) (i : ℕ) (c : Cell) → get_elem? cells i ≡ some c → i < length cells
get_elem?-lt [] i c h = cc
get_elem?-lt (d ∷ cs) zero c h = omega arith
get_elem?-lt (d ∷ cs) (suc i) c h = omega (arith, get_elem?-lt cs i c h)

pub cell_at-eq :
    (cells : List Cell) (i : ℕ) (c : Cell) → get_elem? cells i ≡ some c → cell_at cells i ≡ c
cell_at-eq [] i c h = cc
cell_at-eq (d ∷ cs) zero c h = cc
cell_at-eq (d ∷ cs) (suc i) c h = cell_at-eq cs i c h

-- A cell that is settled before step `s` has no write in it.
pub edited-settled :
    (cells : List Cell) (v : ℕ → Bool) (s : ℕ) (ws : List Write) (t last x : ℕ)
    → Timed cells t ws last
    → last < s
    → edited v s ws x ≡ x
unfolding edited
edited-settled cells v s [] t last x h lt = refl
edited-settled cells v s (w ∷ ws) t last x h lt =
    let other : (w.step == s) ≡ false = ground (arith, Timed-le cells w.step ws last h.3) in
    rw other (edited-settled cells v s ws w.step last x h.3 lt)

-- The cells settled before step `s` hold their values.
abbrev pub Ready : List Cell → (ℕ → Bool) → ℕ → Buffer → Type 0
Ready cells v s p = (j : ℕ) → j < length cells → complete_at cells j < s → p j ≡ byte_of (v j)

module _ (N : Nand) (cells : List Cell) (v : ℕ → Bool) (small : length cells ≤ page_siz)
    (addrs : InPage cells ram) where
  abbrev pub with_page : Cpu N → Buffer → Cpu N
  with_page s p = record s { page = p }

  -- One MOV or INV_MOV, of a byte that stands for `x`.
  dispatch_move :
      (inv x : Bool) (st : Cpu N) (i from : ℕ)
      → AtPage N st
      → i < page_siz
      → read N st from ≡ byte_of x
      → dispatch N (if inv then Opcode.inv_mov else Opcode.mov) (ram + i) from st
        ≡ with_page st (update st.page i (byte_of (if inv then not x else x)))
  dispatch_move false x st i from h lt e =
      dispatch-mov N (ram + i) from st
      ∙ ap (λ b. edit_buf N (ram + i) b st) e
      ∙ edit_buf_lem N st i _ h lt
  dispatch_move true x st i from h lt e =
      dispatch-inv_mov N (ram + i) from st
      ∙ ap (λ b. edit_buf N (ram + i) b st) (ap (λ (b : ℕ). 0xff - b) e ∙ inverse x)
      ∙ edit_buf_lem N st i _ h lt

  pub AtPage-with_page : (st : Cpu N) (p : Buffer) → AtPage N st → AtPage N (with_page st p)
  AtPage-with_page st p h = record { aligned = h.aligned; fits = h.fits; here = h.here }

  Ready-update :
      (s : ℕ) (p : Buffer) (i x : ℕ)
      → s ≤ complete_at cells i
      → Ready cells v s p
      → Ready cells v s (update p i x)
  Ready-update s p i x late r j known done =
      ground (arith, r j known done, λ (e : i ≡ j). ap (complete_at cells) e)

  -- The writes of cell `i` that fall in step `s`, as the CPU makes them.
  run-write_ops :
      (ws : List Write) (s t i : ℕ) (st : Cpu N)
      → AtPage N st
      → i < page_siz
      → Timed cells t ws (complete_at cells i)
      → Ready cells v s st.page
      → run_ops N (write_ops cells s (ram + i) ws) st
        ≡ with_page st (update st.page i (edited v s ws (st.page i)))
  unfolding write_ops run_ops edited
  run-write_ops [] s t i st h lt timed r = ap (with_page st) (sym (update_self st.page i))
  run-write_ops (w ∷ ws) s t i st h lt timed r = elim (Bool-cases (w.step == s)) [
    | inl now ↦
        let at = addrs w.src.cell _ (get_elem?-cell_at cells w.src.cell timed.2) in
        let x = byte_of (value v w.src) in
        let st' = with_page st (update st.page i x) in
        let late : s ≤ complete_at cells i =
          ground (arith, Timed-le cells w.step ws (complete_at cells i) timed.3) in
        let byte : read N st (cell_at cells w.src.cell).addr ≡ byte_of (v w.src.cell) = rw at (
          read_lem N st w.src.cell (omega (arith, small, timed.2))
          ∙ r w.src.cell timed.2 (ground (arith, timed.1))) in
        let new : st'.page i ≡ x = update-at st.page i x in
        rw now (
          ap (run_ops N (write_ops cells s (ram + i) ws))
            (dispatch_move w.src.inv (v w.src.cell) st i _ h lt byte)
          ∙ run-write_ops ws s w.step i st' (AtPage-with_page st _ h) lt timed.3
              (Ready-update s st.page i x late r)
          ∙ ap (with_page st) (
              ap (λ b. update st'.page i (edited v s ws b)) new
              ∙ update-update st.page i x (edited v s ws x)))
    | inr other ↦ rw other (run-write_ops ws s w.step i st h lt timed.3 r)
  ]

  Ready-edited :
      (s i : ℕ) (c : Cell) (p : Buffer)
      → get_elem? cells i ≡ some c
      → Timed cells 1 c.ins c.complete
      → Ready cells v s p
      → Ready cells v s (update p i (edited v s c.ins (p i)))
  Ready-edited s i c p at timed r j known done = elim (ℕ_discrete i j) [
    | yes same ↦
        let found : complete_at cells j ≡ c.complete =
          ap (λ (d : Cell). d.complete) (cell_at-eq cells j c (rw (← same) at)) in
        let kept = edited-settled cells v s c.ins 1 c.complete (p i) timed (omega (arith, found)) in
        ground (arith, kept, r j known done, ap p same)
    | no other ↦ ground (arith, r j known done)
  ]

  -- All instructions of step `s`, for the cells from `i` on.
  pub run-step_ops :
      (steps : ℕ) (S : IsScheduled cells steps) (s i : ℕ) (cs : List Cell) (st : Cpu N)
      → AtPage N st
      → Ready cells v s st.page
      → ((j k : ℕ) (c : Cell) → get_elem? cs j ≡ some c → i + j ≡ k → get_elem? cells k ≡ some c)
      → run_ops N (step_ops cells s cs) st ≡ with_page st (edit_page v s i cs st.page)
  unfolding step_ops run_ops edit_page
  run-step_ops steps S s i [] st h r part = refl
  run-step_ops steps S s i (c ∷ cs) st h r part =
      let at : get_elem? cells i ≡ some c = part 0 i c refl (omega arith) in
      let timed = S.timed i c at in
      let lt : i < length cells = get_elem?-lt cells i c at in
      let settled : complete_at cells i ≡ c.complete =
        ap (λ (d : Cell). d.complete) (cell_at-eq cells i c at) in
      let p = update st.page i (edited v s c.ins (st.page i)) in
      rw (addrs i c at) (
        run_ops-append N (write_ops cells s (ram + i) c.ins) (step_ops cells s cs) st
        ∙ ap (run_ops N (step_ops cells s cs))
            (run-write_ops c.ins s 1 i st h (omega (arith, small)) (rw settled timed) r)
        ∙ run-step_ops steps S s (i + 1) cs (with_page st p) (AtPage-with_page st p h)
            (Ready-edited s i c st.page at timed r) (λ j k d e f. part (suc j) k d e (omega arith)))
