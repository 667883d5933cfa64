-- ===== src/Cpu/Wear.antt =====
-- Wear levelling and the safety of the ROM in `CPU::execute` (src/server/cpu.cpp).
use hsq_over_nand.Base.{
  ℕ, ◌+◌, ◌-◌, ◌%◌, ◌^◌, ◌≤◌, ◌<◌, ◌≡◌, refl, ◌∙◌, true, false, ltb, ◌==◌, arith, inl, inr,
  Bool-cases, u32, sym,
}
use hsq_over_nand.Nand.{Nand}
use hsq_over_nand.Rom.{Opcode, RomT, ram, page_siz, lanes}
use hsq_over_nand.Cpu.{
  Cpu, update, majority_vote, page_of, erase, read, edit_buf, get_in, write, push_out, raise,
  dispatch, execute,
}

module _ (N : Nand) where
  -- The calculation page is a whole page of the device behind the ROM, the addresses do not wrap
  -- around, and the ROM and the calculation area are whole erase units.
  pub record Levelled (s : Cpu N) : Type 0 where
    pub aligned : s.page_offset % page_siz ≡ 0
    pub room : ram + s.page_offset + page_siz ≤ s.nand_size
    pub sized : s.nand_size ≡ N.size s.nand
    pub narrow : s.nand_size + page_siz < 2 ^ 32
    pub units : ram % N.erase_unit ≡ 0
    pub rest : (s.nand_size - ram) % N.erase_unit ≡ 0

  erase-Levelled :
      (s : Cpu N)
      → ram + page_siz ≤ s.nand_size
      → s.nand_size ≡ N.size s.nand
      → s.nand_size + page_siz < 2 ^ 32
      → ram % N.erase_unit ≡ 0
      → (s.nand_size - ram) % N.erase_unit ≡ 0
      → Levelled (erase N s)
  unfolding erase
  erase-Levelled s room sized narrow units rest = record {
    aligned = refl;
    room = omega (arith, room);
    sized = sized ∙ sym (N.erase_size s.nand ram (u32 (s.nand_size + 2 ^ 32 - ram)));
    narrow = narrow;
    units = units;
    rest = rest;
  }

  raise-Levelled : (dest from : ℕ) (s : Cpu N) → Levelled s → Levelled (raise N dest from s)
  unfolding raise
  raise-Levelled dest from s h =
      let next = u32 (s.page_offset + page_siz) in
      let l = dest % lanes in
      let s₂ : Cpu N = record s {
        is_jmp = update s.is_jmp l (majority_vote (read N s from));
        signal = true;
        page_offset = next;
      } in
      let step : next ≡ s.page_offset + page_siz = omega (arith, h.room, h.narrow) in
      elim (Bool-cases (dest % lanes == lanes - 1)) [
        | inr other ↦ rw other (record {
          aligned = h.aligned;
          room = h.room;
          sized = h.sized;
          narrow = h.narrow;
          units = h.units;
          rest = h.rest;
        })
        | inl last ↦ rw last (elim (Bool-cases (ltb s.nand_size (u32 (ram + next + page_siz)))) [
          | inl full ↦
              rw full (erase-Levelled s₂ (omega (arith, h.room)) h.sized h.narrow h.units h.rest)
          | inr left ↦ rw left (record {
            aligned = omega (arith, step, h.aligned);
            room = ground (arith, left, step, h.room, h.narrow);
            sized = h.sized;
            narrow = h.narrow;
            units = h.units;
            rest = h.rest;
          })
        ])
      ]

  write-Levelled : (addr : ℕ) (s : Cpu N) → Levelled s → Levelled (write N addr s)
  unfolding write
  write-Levelled addr s h = record {
    aligned = h.aligned;
    room = h.room;
    sized =
        let off = page_of N s addr in
        h.sized
        ∙ sym (
            N.read_size (N.write s.nand off s.page page_siz).1 off s.page page_siz
            ∙ N.write_size s.nand off s.page page_siz);
    narrow = h.narrow;
    units = h.units;
    rest = h.rest;
  }

  dispatch-Levelled :
      (c : Opcode) (dest from : ℕ) (s : Cpu N) → Levelled s → Levelled (dispatch N c dest from s)
  unfolding dispatch edit_buf get_in push_out
  dispatch-Levelled Opcode.mov dest from s h = record {
    aligned = h.aligned;
    room = h.room;
    sized = h.sized;
    narrow = h.narrow;
    units = h.units;
    rest = h.rest;
  }
  dispatch-Levelled Opcode.inv_mov dest from s h = record {
    aligned = h.aligned;
    room = h.room;
    sized = h.sized;
    narrow = h.narrow;
    units = h.units;
    rest = h.rest;
  }
  dispatch-Levelled Opcode.cap_in dest from s h = record {
    aligned = h.aligned;
    room = h.room;
    sized = h.sized;
    narrow = h.narrow;
    units = h.units;
    rest = h.rest;
  }
  dispatch-Levelled Opcode.get_in dest from s h = record {
    aligned = h.aligned;
    room = h.room;
    sized = h.sized;
    narrow = h.narrow;
    units = h.units;
    rest = h.rest;
  }
  dispatch-Levelled Opcode.prg_nand dest from s h = write-Levelled dest s h
  dispatch-Levelled Opcode.push_out dest from s h = record {
    aligned = h.aligned;
    room = h.room;
    sized = h.sized;
    narrow = h.narrow;
    units = h.units;
    rest = h.rest;
  }
  dispatch-Levelled Opcode.raise dest from s h = raise-Levelled dest from s h
  dispatch-Levelled Opcode.erase dest from s h =
      erase-Levelled s (omega (arith, h.room)) h.sized h.narrow h.units h.rest

  -- Every instruction keeps the calculation page a whole page of the device behind the ROM, for a
  -- device that leaves a page below 4 GiB.
  pub execute-Levelled : (i : RomT) (s : Cpu N) → Levelled s → Levelled (execute N i s)
  unfolding execute
  execute-Levelled i s h =
      let start : Levelled (record s { signal = false }) = record {
        aligned = h.aligned;
        room = h.room;
        sized = h.sized;
        narrow = h.narrow;
        units = h.units;
        rest = h.rest;
      } in
      let done = dispatch-Levelled i.code i.dest i.from _ start in
      record {
        aligned = done.aligned;
        room = done.room;
        sized = done.sized;
        narrow = done.narrow;
        units = done.units;
        rest = done.rest;
      }
