-- ===== src/Cpu.antt =====
-- `class CPU`: include/cpu.hpp and src/server/cpu.cpp, over any flash device. Arrays of the object
-- are functions of the index, which the code keeps in range.
pub mod Page
pub mod Step
pub mod Upto
pub mod Program
pub mod Fetch
pub mod Image
pub mod Boot
pub mod Verify
pub mod Wear
pub mod Safety
pub mod Majority
pub mod Cycle
pub mod Load
pub mod Operands
pub mod Output
pub mod Inputs
pub mod Round
pub mod Computes
pub mod Silent
mod Tests
pub mod StartTests
pub mod Aside
pub mod Signal
pub mod Settled
pub mod Loop
mod LoopTests
use hsq_over_nand.Base.{
  ℕ, zero, suc, ◌+◌, ◌-◌, ◌*◌, ◌/◌, ◌%◌, ◌^◌, Bool, true, false, List, [], ◌∷◌, ltb, leb, ◌==◌,
  if◌then◌else◌, u8, u32, not,
}
use hsq_over_nand.Nand.{Nand, Buffer, blank}
use hsq_over_nand.Rom.{RomT, Opcode, ram, page_siz, lanes}
use hsq_over_nand.Lane.{digit}

abbrev pub mtd_shadow_size : ℕ
mtd_shadow_size = 250000

-- `a[i] = x`.
abbrev pub update {ℓ} : {A : Type ℓ} → (ℕ → A) → ℕ → A → ℕ → A
update f i x j = if i == j then x else f j

-- The loop of `majorityVote`, with `n` bits left.
unfoldable pub count_bits : ℕ → ℕ → ℕ
count_bits zero bits = 0
count_bits (suc n) bits = bits % 2 + count_bits n (bits / 2)

unfoldable pub majority_vote : ℕ → Bool
unfolding count_bits
majority_vote bits = ltb 3 (count_bits 8 bits)

module _ (N : Nand) where
  -- `mtd_data` is the global picture of the programmed pages; the rest are the object's fields.
  pub record Cpu : Type 0 where
    pub pc : ℕ
    pub out : ℕ → ℕ
    pub in_a : ℕ → ℕ
    pub in_b : ℕ → ℕ
    pub signal : Bool
    pub is_jmp : ℕ → Bool
    pub page : Buffer
    pub rom : Buffer
    pub getin_cnt : ℕ
    pub page_offset : ℕ
    pub pre_offset : ℕ
    pub nand_size : ℕ
    pub nand : N.Dev
    pub mtd_data : Buffer

  -- From the address in the ROM to the page that wear levelling has reached.
  unfoldable pub phys : Cpu → ℕ → ℕ
  phys s addr = if leb ram addr then u32 (addr + s.page_offset) else addr

  abbrev pub page_of : Cpu → ℕ → ℕ
  page_of s addr = phys s addr / page_siz * page_siz

  -- `CPU::erase`: a failure is only printed.
  unfoldable pub erase : Cpu → Cpu
  erase s = record s {
    nand = (N.erase s.nand ram (u32 (s.nand_size + 2 ^ 32 - ram))).1;
    mtd_data = λ i. if ltb i mtd_shadow_size then 0xff else s.mtd_data i;
    page_offset = 0;
    page = blank;
  }

  unfoldable pub read : Cpu → ℕ → ℕ
  read s addr = s.page (addr % page_siz)

  unfoldable pub edit_buf : ℕ → ℕ → Cpu → Cpu
  edit_buf addr value s =
      let offset = page_of s addr in
      let page = if offset == s.pre_offset then s.page else blank in
      record s { page = update page (addr % page_siz) value; pre_offset = offset }

  -- `memcpy` of the page into the picture, at the place of the page modulo the pages that fit.
  unfoldable pub shadow_at : ℕ → ℕ
  shadow_at offset =
      u32 (offset + 2 ^ 32 - ram) / page_siz % (mtd_shadow_size / page_siz) * page_siz

  -- `CPU::write`; the two calls' statuses are dropped.
  unfoldable pub write : ℕ → Cpu → Cpu
  unfolding shadow_at
  write addr s =
      let offset = page_of s addr in
      let nand = (N.write s.nand offset s.page page_siz).1 in
      let back = N.read nand offset s.page page_siz in
      let page = back.1 in
      let at = shadow_at offset in
      record s {
        nand = back.2;
        page = page;
        mtd_data = λ i.
            if leb at i
            then (if ltb i (at + page_siz) then page (i - at) else s.mtd_data i)
            else s.mtd_data i;
      }

  -- The lane of the next GET_IN.
  abbrev pub getin_lane : Cpu → ℕ
  getin_lane s = let lane = s.getin_cnt / digit in if leb lanes lane then lanes - 1 else lane

  -- One bit of an operand as a byte.
  abbrev pub low_byte : ℕ → ℕ
  low_byte w = if w % 2 == 1 then 0xff else 0x00

  unfoldable pub get_in : ℕ → ℕ → Cpu → Cpu
  unfolding edit_buf
  get_in dest from s =
      let lane = getin_lane s in
      let s₁ =
        edit_buf from (low_byte (s.in_a lane)) (record s { getin_cnt = u32 (s.getin_cnt + 1) }) in
      let s₂ = record s₁ { in_a = update s₁.in_a lane (s₁.in_a lane / 2) } in
      let s₃ = edit_buf dest (low_byte (s₂.in_b lane)) s₂ in
      record s₃ { in_b = update s₃.in_b lane (s₃.in_b lane / 2) }

  -- The shift frees the top bit, so that `|=` adds the bit.
  unfoldable pub push_out : ℕ → ℕ → Cpu → Cpu
  unfolding read
  push_out dest from s =
      let l = dest % lanes in
      record s {
        out =
            update s.out l
              (s.out l / 2 + (if majority_vote (read s from) then 2 ^ (digit - 1) else 0));
      }

  -- The last lane ends the round: the next round takes the next page, and a full device is erased.
  unfoldable pub raise : ℕ → ℕ → Cpu → Cpu
  unfolding read erase
  raise dest from s =
      let l = dest % lanes in
      let s₁ = record s { is_jmp = update s.is_jmp l (majority_vote (read s from)) } in
      let s₂ = record s₁ { signal = true; page_offset = u32 (s₁.page_offset + page_siz) } in
      if l == lanes - 1
      then (if ltb s₂.nand_size (u32 (ram + s₂.page_offset + page_siz)) then erase s₂ else s₂)
      else s₁

  -- The `switch` of `execute`.
  unfoldable pub dispatch : Opcode → ℕ → ℕ → Cpu → Cpu
  unfolding edit_buf read get_in write push_out raise erase
  dispatch Opcode.mov dest from s = edit_buf dest (read s from) s
  dispatch Opcode.inv_mov dest from s = edit_buf dest (0xff - read s from) s
  dispatch Opcode.cap_in dest from s = record s { getin_cnt = 0 }
  dispatch Opcode.get_in dest from s = get_in dest from s
  dispatch Opcode.prg_nand dest from s = write dest s
  dispatch Opcode.push_out dest from s = push_out dest from s
  dispatch Opcode.raise dest from s = raise dest from s
  dispatch Opcode.erase dest from s = erase s

  unfoldable pub execute : RomT → Cpu → Cpu
  unfolding dispatch
  execute i s =
      let s' = dispatch i.code i.dest i.from (record s { signal = false }) in
      record s' { pc = i.next }
