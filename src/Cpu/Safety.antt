-- ===== src/Cpu/Safety.antt =====
-- The instructions of `CPU::execute` (src/server/cpu.cpp) leave the ROM on the flash as it is.
use hsq_over_nand.Base.{
  ℕ, ◌+◌, ◌-◌, ◌%◌, ◌^◌, ◌≤◌, ◌<◌, ◌≡◌, refl, ap, ◌∙◌, true, false, List, leb, ltb, ◌&&◌, ◌==◌,
  arith, inl, inr, Bool-cases, u32,
}
use hsq_over_nand.Nand.{Nand}
use hsq_over_nand.Rom.{Opcode, RomT, ram, page_siz, lanes}
use hsq_over_nand.Cpu.{
  Cpu, update, majority_vote, phys, page_of, erase, read, edit_buf, get_in, write, push_out, raise,
  dispatch, execute,
}
use hsq_over_nand.Cpu.Image.{Flashed}
use hsq_over_nand.Cpu.Wear.{Levelled}

module _ (N : Nand) (rom : List RomT) where
  keep : (s s' : Cpu N) → s'.nand ≡ s.nand → Flashed N rom s → Flashed N rom s'
  keep s s' same h = record {
    big = rw same h.big;
    fits = h.fits;
    bytes = λ a lt. ap (λ e. N.contents e a) same ∙ h.bytes a lt;
  }

  erase-Flashed :
      (s : Cpu N)
      → ram + page_siz ≤ s.nand_size
      → s.nand_size ≡ N.size s.nand
      → s.nand_size + page_siz < 2 ^ 32
      → ram % N.erase_unit ≡ 0
      → (s.nand_size - ram) % N.erase_unit ≡ 0
      → Flashed N rom s
      → Flashed N rom (erase N s)
  unfolding erase
  erase-Flashed s room sized narrow units rest h =
      let n = u32 (s.nand_size + 2 ^ 32 - ram) in
      let count : n ≡ s.nand_size - ram = omega (arith, room, narrow) in
      let whole : n % N.erase_unit ≡ 0 = ap (λ (k : ℕ). k % N.erase_unit) count ∙ rest in
      let inside : ram + n ≤ N.size s.nand = omega (arith, room, narrow, sized) in
      record {
        big = omega (arith, h.big, N.erase_size s.nand ram n);
        fits = h.fits;
        bytes = λ a lt.
            let out : (leb ram a && ltb a (ram + n)) ≡ false = ground (arith, lt) in
            (rw out at (N.erase_lem s.nand ram n a units whole inside)) ∙ h.bytes a lt;
      }

  write-Flashed :
      (addr : ℕ) (s : Cpu N)
      → ram ≤ addr
      → addr < ram + page_siz
      → Levelled N s
      → Flashed N rom s
      → Flashed N rom (write N addr s)
  unfolding write phys
  write-Flashed addr s low high l h =
      let off = page_of N s addr in
      let here : phys N s addr ≡ addr + s.page_offset =
        ground (arith, low, l.room, l.narrow, high) in
      let page : off ≡ ram + s.page_offset = omega (arith, here, low, high, l.aligned) in
      let size = N.write_size s.nand off s.page page_siz in
      let nand' = (N.write s.nand off s.page page_siz).1 in
      let room : off + page_siz ≤ N.size s.nand = omega (arith, page, l.room, l.sized) in
      record {
        big = omega (arith, h.big, size, N.read_size nand' off s.page page_siz);
        fits = h.fits;
        bytes = λ a lt.
            let out : (leb off a && ltb a (off + page_siz)) ≡ false = ground (arith, lt, page) in
            N.read_contents nand' off s.page page_siz a (omega (arith, room, size))
            ∙ (rw out at (N.write_lem s.nand off s.page page_siz a (omega arith) refl room))
            ∙ h.bytes a lt;
      }

  raise-Flashed :
      (dest from : ℕ) (s : Cpu N)
      → Levelled N s
      → Flashed N rom s
      → Flashed N rom (raise N dest from s)
  unfolding raise
  raise-Flashed dest from s l h =
      let next = u32 (s.page_offset + page_siz) in
      let s₂ : Cpu N = record s {
        is_jmp = update s.is_jmp (dest % lanes) (majority_vote (read N s from));
        signal = true;
        page_offset = next;
      } in
      elim (Bool-cases (dest % lanes == lanes - 1)) [
        | inr other ↦ rw other (keep s _ refl h)
        | inl last ↦ rw last (elim (Bool-cases (ltb s.nand_size (u32 (ram + next + page_siz)))) [
          | inl full ↦ rw full (
              erase-Flashed s₂ (omega (arith, l.room)) l.sized l.narrow l.units l.rest
                (keep s s₂ refl h))
          | inr left ↦ rw left (keep s s₂ refl h)
        ])
      ]

  dispatch-Flashed :
      (c : Opcode) (dest from : ℕ) (s : Cpu N)
      → (c ≡ Opcode.prg_nand → (ram ≤ dest) × (dest < ram + page_siz))
      → Levelled N s
      → Flashed N rom s
      → Flashed N rom (dispatch N c dest from s)
  unfolding dispatch edit_buf get_in push_out
  dispatch-Flashed Opcode.mov dest from s p l h = keep s _ refl h
  dispatch-Flashed Opcode.inv_mov dest from s p l h = keep s _ refl h
  dispatch-Flashed Opcode.cap_in dest from s p l h = keep s _ refl h
  dispatch-Flashed Opcode.get_in dest from s p l h = keep s _ refl h
  dispatch-Flashed Opcode.prg_nand dest from s p l h =
      write-Flashed dest s (p refl).0 (p refl).1 l h
  dispatch-Flashed Opcode.push_out dest from s p l h = keep s _ refl h
  dispatch-Flashed Opcode.raise dest from s p l h = raise-Flashed dest from s l h
  dispatch-Flashed Opcode.erase dest from s p l h =
      erase-Flashed s (omega (arith, l.room)) l.sized l.narrow l.units l.rest h

  -- No instruction changes the program on the flash, provided that the calculation page is in its
  -- range and that a PRG_NAND names the page behind the ROM.
  pub execute-Flashed :
      (i : RomT) (s : Cpu N)
      → (i.code ≡ Opcode.prg_nand → (ram ≤ i.dest) × (i.dest < ram + page_siz))
      → Levelled N s
      → Flashed N rom s
      → Flashed N rom (execute N i s)
  unfolding execute
  execute-Flashed i s p l h =
      let start : Cpu N = record s { signal = false } in
      let level : Levelled N start = record {
        aligned = l.aligned;
        room = l.room;
        sized = l.sized;
        narrow = l.narrow;
        units = l.units;
        rest = l.rest;
      } in
      keep (dispatch N i.code i.dest i.from start) _ refl
        (dispatch-Flashed i.code i.dest i.from start p level (keep s start refl h))
