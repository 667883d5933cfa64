-- ===== src/Cpu/Aside.antt =====
-- The instructions of src/server/cpu.cpp on two CPUs that differ in the program counter, the buffer of the
-- ROM, the picture and the device alone, where the two devices hold the same bytes.
use hsq_over_nand.Base.{
  ℕ, ◌+◌, ◌-◌, ◌%◌, ◌^◌, ◌≤◌, ◌<◌, ◌≡◌, refl, ap, fun_ext, sym, ◌∙◌, true, leb, ltb, ◌&&◌, ◌==◌,
  arith, inl, inr, Bool-cases, bit_and, u32, if◌then◌else◌,
}
use hsq_over_nand.Nand.{Nand, Buffer}
use hsq_over_nand.Rom.{Opcode, ram, page_siz, lanes}
use hsq_over_nand.Cpu.{
  Cpu, update, majority_vote, phys, page_of, erase, read, edit_buf, get_in, write, push_out, raise,
  dispatch,
}
use hsq_over_nand.Cpu.Wear.{Levelled}

module _ (N : Nand) where
  -- What the two may differ in.
  pub record Beside : Type 0 where
    pub pc : ℕ
    pub rom : Buffer
    pub nand : N.Dev
    pub mtd_data : Buffer

  abbrev pub aside : Beside → Cpu N → Cpu N
  aside x s = record s { pc = x.pc; rom = x.rom; nand = x.nand; mtd_data = x.mtd_data }

  -- The CPU `t` is `s` but for what is beside, and its device holds the same bytes.
  pub record Follows (s t : Cpu N) : Type 0 where
    pub beside : Beside
    pub same : t ≡ aside beside s
    pub contents : (a : ℕ) → N.contents beside.nand a ≡ N.contents s.nand a
    pub size : N.size beside.nand ≡ N.size s.nand

  module _ (x : Beside) (s : Cpu N) (contents : (a : ℕ) → N.contents x.nand a ≡ N.contents s.nand a)
      (size : N.size x.nand ≡ N.size s.nand) (L : Levelled N (aside x s)) where
    written :
        (off a : ℕ)
        → off % page_siz ≡ 0
        → off + page_siz ≤ N.size x.nand
        → N.contents (N.write x.nand off s.page page_siz).1 a
          ≡ N.contents (N.write s.nand off s.page page_siz).1 a
    written off a page room =
        N.write_lem x.nand off s.page page_siz a page refl room
        ∙ ap
            (λ (c : ℕ).
              if leb off a && ltb a (off + page_siz) then bit_and c (s.page (a - off)) else c)
            (contents a)
        ∙ sym (N.write_lem s.nand off s.page page_siz a page refl (omega (arith, room, size)))

    -- Both read the same page back.
    back :
        (off i : ℕ)
        → off % page_siz ≡ 0
        → off + page_siz ≤ N.size x.nand
        → (N.read (N.write x.nand off s.page page_siz).1 off s.page page_siz).1 i
          ≡ (N.read (N.write s.nand off s.page page_siz).1 off s.page page_siz).1 i
    back off i page room =
        let d = (N.write x.nand off s.page page_siz).1 in
        let e = (N.write s.nand off s.page page_siz).1 in
        N.read_lem d off s.page page_siz i
          (omega (arith, room, N.write_size x.nand off s.page page_siz))
        ∙ ap (λ (c : ℕ). if ltb i page_siz then c else s.page i) (written off (off + i) page room)
        ∙ sym (
            N.read_lem e off s.page page_siz i
              (omega (arith, room, size, N.write_size s.nand off s.page page_siz)))

    page_of-room :
        (addr : ℕ)
        → ram ≤ addr
        → addr < ram + page_siz
        → page_of N s addr + page_siz ≤ N.size x.nand
    unfolding phys
    page_of-room addr low high =
        let here : phys N s addr ≡ addr + s.page_offset =
          ground (arith, low, L.room, L.narrow, high) in
        let page : page_of N s addr ≡ ram + s.page_offset =
          omega (arith, here, low, high, L.aligned) in
        omega (arith, page, L.room, L.sized)

    write-Follows :
        (addr : ℕ)
        → ram ≤ addr
        → addr < ram + page_siz
        → Follows (write N addr s) (write N addr (aside x s))
    unfolding write phys
    write-Follows addr low high =
        let off = page_of N s addr in
        let room = page_of-room addr low high in
        let page : off % page_siz ≡ 0 = omega arith in
        let d = (N.write x.nand off s.page page_siz).1 in
        let e = (N.write s.nand off s.page page_siz).1 in
        let t = write N addr (aside x s) in
        let y : Beside = record { pc = t.pc; rom = t.rom; nand = t.nand; mtd_data = t.mtd_data } in
        record {
          beside = y;
          same =
              ap (λ (p : Buffer). record (aside y s) { page = p })
                (fun_ext λ i. back off i page room);
          contents = λ a.
              N.read_contents d off s.page page_siz a
                (omega (arith, room, N.write_size x.nand off s.page page_siz))
              ∙ written off a page room
              ∙ sym (
                  N.read_contents e off s.page page_siz a
                    (omega (arith, room, size, N.write_size s.nand off s.page page_siz)));
          size =
              N.read_size d off s.page page_siz
              ∙ N.write_size x.nand off s.page page_siz
              ∙ size
              ∙ sym (N.read_size e off s.page page_siz ∙ N.write_size s.nand off s.page page_siz);
        }

    erase-Follows :
        (s' : Cpu N)
        → s'.nand ≡ s.nand
        → s'.nand_size ≡ s.nand_size
        → Follows (erase N s') (erase N (aside x s'))
    unfolding erase
    erase-Follows s' same sized =
        let n = u32 (s'.nand_size + 2 ^ 32 - ram) in
        let count : n ≡ s.nand_size - ram = omega (arith, sized, L.room, L.narrow) in
        let whole : n % N.erase_unit ≡ 0 = ap (λ (k : ℕ). k % N.erase_unit) count ∙ L.rest in
        let inside : ram + n ≤ N.size x.nand = omega (arith, count, L.room, L.sized) in
        let t = erase N (aside x s') in
        let here : N.size s'.nand ≡ N.size s.nand = ap N.size same in
        record {
          beside = record { pc = t.pc; rom = t.rom; nand = t.nand; mtd_data = t.mtd_data };
          same = refl;
          contents = λ a.
              N.erase_lem x.nand ram n a L.units whole inside
              ∙ ap (λ (c : ℕ). if leb ram a && ltb a (ram + n) then 0xff else c)
                  (contents a ∙ ap (λ d. N.contents d a) (sym same))
              ∙ sym (N.erase_lem s'.nand ram n a L.units whole (omega (arith, inside, size, here)));
          size = N.erase_size x.nand ram n ∙ size ∙ sym here ∙ sym (N.erase_size s'.nand ram n);
        }

    raise-Follows : (dest from : ℕ) → Follows (raise N dest from s) (raise N dest from (aside x s))
    unfolding raise
    raise-Follows dest from =
        let next = u32 (s.page_offset + page_siz) in
        let s₂ : Cpu N = record s {
          is_jmp = update s.is_jmp (dest % lanes) (majority_vote (read N s from));
          signal = true;
          page_offset = next;
        } in
        elim (Bool-cases (dest % lanes == lanes - 1)) [
          | inr other ↦
              rw other (record { beside = x; same = refl; contents = contents; size = size })
          | inl last ↦ rw last (elim (Bool-cases (ltb s.nand_size (u32 (ram + next + page_siz)))) [
            | inl full ↦ rw full (erase-Follows s₂ refl refl)
            | inr left ↦
                rw left (record { beside = x; same = refl; contents = contents; size = size })
          ])
        ]

    -- Every instruction does the same on both.
    pub dispatch-Follows :
        (c : Opcode) (dest from : ℕ)
        → (c ≡ Opcode.prg_nand → (ram ≤ dest) × (dest < ram + page_siz))
        → Follows (dispatch N c dest from s) (dispatch N c dest from (aside x s))
    unfolding dispatch edit_buf read get_in push_out phys
    dispatch-Follows Opcode.mov dest from p = record {
      beside = x;
      same = refl;
      contents = contents;
      size = size;
    }
    dispatch-Follows Opcode.inv_mov dest from p = record {
      beside = x;
      same = refl;
      contents = contents;
      size = size;
    }
    dispatch-Follows Opcode.cap_in dest from p = record {
      beside = x;
      same = refl;
      contents = contents;
      size = size;
    }
    dispatch-Follows Opcode.get_in dest from p = record {
      beside = x;
      same = refl;
      contents = contents;
      size = size;
    }
    dispatch-Follows Opcode.prg_nand dest from p = write-Follows dest (p refl).0 (p refl).1
    dispatch-Follows Opcode.push_out dest from p = record {
      beside = x;
      same = refl;
      contents = contents;
      size = size;
    }
    dispatch-Follows Opcode.raise dest from p = raise-Follows dest from
    dispatch-Follows Opcode.erase dest from p = erase-Follows s refl refl
