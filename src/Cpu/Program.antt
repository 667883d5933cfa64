-- ===== src/Cpu/Program.antt =====
-- The programming part of a round on the CPU (src/server/cpu.cpp): from the inputs to the last
-- PRG_NAND the page and the flash hold, after each step, what the writes so far have left.
use hsq_over_nand.Base.{
  ℕ, zero, suc, ◌+◌, ◌-◌, ◌≤◌, ◌<◌, ◌≡◌, refl, ap, ap₂, ◌∙◌, Bool, true, some, List, ◌∷◌, ◌++◌,
  length, get_elem?, leb, ltb, ◌&&◌, arith, bit_and,
}
use hsq_over_nand.Nand.{Nand}
use hsq_over_nand.Netlist.{Cell}
use hsq_over_nand.Netlist.Meaning.{Sat}
use hsq_over_nand.Schedule.Valid.{InPage, IsScheduled}
use hsq_over_nand.Rom.{Opcode, op, ram, page_siz, step_ops, steps_ops}
use hsq_over_nand.Cpu.{Cpu, page_of, write, dispatch}
use hsq_over_nand.Cpu.Page.{
  byte_of, run_ops, run_ops-append, AtPage, page_of-ram, edited, edit_page, edit_page_lem,
}
use hsq_over_nand.Cpu.Step.{
  Ready, with_page, AtPage-with_page, run-step_ops, get_elem?-lt, get_elem?-cell_at,
}
use hsq_over_nand.Cpu.Upto.{upto, upto-settled, upto-suc}

module _ (N : Nand) where
  -- The page of the round lies on the device.
  abbrev pub HasRoom : Cpu N → Type 0
  HasRoom st = ram + st.page_offset + page_siz ≤ N.size st.nand

  -- The byte of the flash behind place `j` of the page.
  abbrev pub flash_at : Cpu N → ℕ → ℕ
  flash_at st j = N.contents st.nand (ram + st.page_offset + j)

  -- `CPU::write` of the page of the round, which lies on the device: every byte of the flash page
  -- becomes its AND with the byte of the page buffer, and the buffer then holds the flash page.
  pub write_bytes :
      (st : Cpu N) (j : ℕ)
      → AtPage N st
      → HasRoom st
      → j < page_siz
      → let st' = write N ram st in
        (st'.page j ≡ bit_and (flash_at st j) (st.page j))
        × (N.contents st'.nand (ram + st.page_offset + j) ≡ bit_and (flash_at st j) (st.page j))
  unfolding write
  write_bytes st j h room lt =
      let off = ram + st.page_offset in
      let base : page_of N st ram ≡ off = page_of-ram N st 0 h (omega arith) in
      let back : off + j - off ≡ j = omega arith in
      let stored = N.write_lem st.nand off st.page page_siz (off + j) (omega arith) refl room in
      let fetched =
        N.read_lem (N.write st.nand off st.page page_siz).1 off st.page page_siz j
          (omega (arith, N.write_size st.nand off st.page page_siz, room)) in
      let inside : (leb off (off + j) && ltb (off + j) (off + page_siz)) ≡ true = ground arith in
      let before : ltb j page_siz ≡ true = ground arith in
      let kept =
        N.read_contents (N.write st.nand off st.page page_siz).1 off st.page page_siz (off + j)
          (omega (arith, N.write_size st.nand off st.page page_siz, room)) in
      let cell = rw (inside, back) at stored in rw base ((rw before at fetched) ∙ cell, kept ∙ cell)

  pub write-AtPage : (st : Cpu N) → AtPage N st → AtPage N (write N ram st)
  unfolding write
  write-AtPage st h = record { aligned = h.aligned; fits = h.fits; here = h.here }

  pub write-HasRoom : (st : Cpu N) → HasRoom st → HasRoom (write N ram st)
  unfolding write
  write-HasRoom st room =
      let off = page_of N st ram in
      let size = N.write_size st.nand off st.page page_siz in
      let size' = N.read_size (N.write st.nand off st.page page_siz).1 off st.page page_siz in
      omega (arith, size, size', room)

  pub write-page_offset : (st : Cpu N) → (write N ram st).page_offset ≡ st.page_offset
  unfolding write
  write-page_offset st = refl

  pub dispatch-prg_nand : (st : Cpu N) → dispatch N Opcode.prg_nand ram 0 st ≡ write N ram st
  unfolding dispatch
  dispatch-prg_nand st = refl

module _ (N : Nand) (cells : List Cell) (v : ℕ → Bool) where
  -- After step `s` the page and the flash hold what the writes up to it have left of every cell.
  pub record OnFlash (s : ℕ) (st : Cpu N) : Type 0 where
    pub at_page : AtPage N st
    pub room : HasRoom N st
    pub held :
        (j : ℕ) (c : Cell) → get_elem? cells j ≡ some c → st.page j ≡ byte_of (upto v s j c.ins)
    pub stored :
        (j : ℕ) (c : Cell)
        → get_elem? cells j ≡ some c
        → flash_at N st j ≡ byte_of (upto v s j c.ins)

  module _ (steps : ℕ) (S : IsScheduled cells steps) (small : length cells ≤ page_siz)
      (addrs : InPage cells ram) (sat : Sat v cells) where
    Ready-suc : (s : ℕ) (st : Cpu N) → OnFlash s st → Ready cells v (suc s) st.page
    Ready-suc s st h j known done =
        let at = get_elem?-cell_at cells j known in
        h.held j _ at
        ∙ ap byte_of (upto-settled cells v s j _ sat at (S.timed j _ at) (omega arith))

    OnFlash-write :
        (s : ℕ) (st : Cpu N)
        → OnFlash s st
        → OnFlash
            (suc s)
            (write N ram (with_page N cells v small addrs st (edit_page v (suc s) 0 cells st.page)))
    OnFlash-write s st h =
        let st₁ = with_page N cells v small addrs st (edit_page v (suc s) 0 cells st.page) in
        let at₁ : AtPage N st₁ = AtPage-with_page N cells v small addrs st _ h.at_page in
        let bytes = λ (j : ℕ) (c : Cell) (at : get_elem? cells j ≡ some c).
          ap₂ bit_and (h.stored j c at) (
            edit_page_lem v (suc s) 0 cells st.page j j c at (omega arith)
            ∙ ap (edited v (suc s) c.ins) (h.held j c at))
          ∙ upto-suc cells v s j c (S.timed j c at) in
        record {
          at_page = write-AtPage N st₁ at₁;
          room = write-HasRoom N st₁ h.room;
          held = λ j c at.
              (write_bytes N st₁ j at₁ h.room (omega (arith, small, get_elem?-lt cells j c at))).0
              ∙ bytes j c at;
          stored = λ j c at. rw (write-page_offset N st₁) (
              (write_bytes N st₁ j at₁ h.room (omega (arith, small, get_elem?-lt cells j c at))).1
              ∙ bytes j c at);
        }

    -- The instructions of `n` steps of a scheduled netlist, on the CPU: where after step `s` the page
    -- buffer and the flash hold, for every cell, the AND of its writes up to step `s`, they hold after
    -- the instructions the AND of its writes up to step `s + n`. The cells lie one after another in a
    -- page that is on the device, and their values are those of a satisfied netlist.
    pub run-steps_ops :
        (n s : ℕ) (st : Cpu N)
        → OnFlash s st
        → OnFlash (s + n) (run_ops N (steps_ops cells ram (suc s) n) st)
    unfolding steps_ops run_ops
    run-steps_ops zero s st h = let e : s + 0 ≡ s = omega arith in rw e h
    run-steps_ops (suc n) s st h =
        let e : s + suc n ≡ suc s + n = omega arith in
        let e' : suc s + 1 ≡ suc (suc s) = omega arith in
        let edits =
          run-step_ops N cells v small addrs steps S (suc s) 0 cells st h.at_page (Ready-suc s st h)
            (λ j k c at i. let i' : j ≡ k = omega arith in rw (← i') at) in
        let st₁ = with_page N cells v small addrs st (edit_page v (suc s) 0 cells st.page) in
        let rest = steps_ops cells ram (suc (suc s)) n in
        let path : run_ops N (step_ops cells (suc s) cells ++ (op Opcode.prg_nand ram 0 ∷ rest)) st
            ≡ run_ops N rest (write N ram st₁) =
          run_ops-append N (step_ops cells (suc s) cells) (op Opcode.prg_nand ram 0 ∷ rest) st
          ∙ ap (run_ops N (op Opcode.prg_nand ram 0 ∷ rest)) edits
          ∙ ap (run_ops N rest) (dispatch-prg_nand N st₁) in
        rw (e, e', path) (run-steps_ops n (suc s) _ (OnFlash-write s st h))
