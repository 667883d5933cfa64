-- ===== src/Cpu/Cycle.antt =====
-- `cpu.execute(cpu.fetch())`, the body of the loop of `process_requests` in src/server/server.cpp:
-- the CPU executes the program on the flash in its order.
use hsq_over_nand.Base.{
  ℕ, zero, suc, ◌+◌, ◌-◌, ◌*◌, ◌/◌, ◌%◌, ◌≤◌, ◌<◌, ◌≡◌, refl, sym, ap, subst, ◌∙◌, false, some,
  List, length, get_elem?, ltb, ◌==◌, if◌then◌else◌, arith, inl, inr, Bool-cases, u32,
}
use hsq_over_nand.Nand.{Nand}
use hsq_over_nand.Rom.{Opcode, RomT, rom_size, ram, page_siz, lanes}
use hsq_over_nand.Cpu.{Cpu, erase, edit_buf, get_in, write, push_out, raise, dispatch, execute}
use hsq_over_nand.Cpu.Fetch.{InFields, image, fetch}
use hsq_over_nand.Cpu.Image.{Flashed, Loaded, fetch-page, fetch-gives}
use hsq_over_nand.Cpu.Wear.{Levelled, execute-Levelled}
use hsq_over_nand.Cpu.Safety.{execute-Flashed}

-- A program whose instructions follow one another, and whose last one leads back to the first.
pub record IsProgram (rom : List RomT) : Type 0 where
  pub fields : (i : ℕ) (r : RomT) → get_elem? rom i ≡ some r → InFields r
  pub follows :
      (i : ℕ) (r : RomT)
      → get_elem? rom i ≡ some r
      → r.next ≡ 8 * (if i + 1 == length rom then 0 else i + 1)
  pub in_page :
      (i : ℕ) (r : RomT)
      → get_elem? rom i ≡ some r
      → r.code ≡ Opcode.prg_nand
      → (ram ≤ r.dest) × (r.dest < ram + page_siz)

module _ (N : Nand) where
  unfoldable pub cycle : Cpu N → Cpu N
  cycle s = let (i, s') = fetch N s in execute N i s'

  -- The loop of at most `n` instructions, which a signal ends.
  unfoldable pub round_loop : ℕ → Cpu N → Cpu N
  round_loop zero s = s
  round_loop (suc n) s =
      let s' = cycle s in let rest = round_loop n s' in if s'.signal then s' else rest

  erase-rom : (s : Cpu N) → (erase N s).rom ≡ s.rom
  unfolding erase
  erase-rom s = refl

  raise-rom : (dest from : ℕ) (s : Cpu N) → (raise N dest from s).rom ≡ s.rom
  unfolding raise erase
  raise-rom dest from s = elim (Bool-cases (dest % lanes == lanes - 1)) [
    | inr other ↦ rw other refl
    | inl last ↦
        rw last
          (elim (Bool-cases
            (ltb s.nand_size (u32 (ram + u32 (s.page_offset + page_siz) + page_siz)))) [
              | inl full ↦ rw full refl
              | inr left ↦ rw left refl
            ])
  ]

  dispatch-rom : (c : Opcode) (dest from : ℕ) (s : Cpu N) → (dispatch N c dest from s).rom ≡ s.rom
  unfolding dispatch edit_buf get_in write push_out
  dispatch-rom Opcode.mov dest from s = refl
  dispatch-rom Opcode.inv_mov dest from s = refl
  dispatch-rom Opcode.cap_in dest from s = refl
  dispatch-rom Opcode.get_in dest from s = refl
  dispatch-rom Opcode.prg_nand dest from s = refl
  dispatch-rom Opcode.push_out dest from s = refl
  dispatch-rom Opcode.raise dest from s = raise-rom dest from s
  dispatch-rom Opcode.erase dest from s = erase-rom s

  execute-rom : (i : RomT) (s : Cpu N) → (execute N i s).rom ≡ s.rom
  unfolding execute
  execute-rom i s = dispatch-rom i.code i.dest i.from (record s { signal = false })

  execute-pc : (i : RomT) (s : Cpu N) → (execute N i s).pc ≡ i.next
  unfolding execute
  execute-pc i s = refl

  pub fetch-nand_size : (s : Cpu N) → N.size (fetch N s).1.nand ≡ N.size s.nand
  unfolding fetch
  fetch-nand_size s = elim (Bool-cases (s.pc % page_siz == 0)) [
    | inl begins ↦ rw begins (N.read_size s.nand s.pc s.rom page_siz)
    | inr inner ↦ rw inner refl
  ]

  pub fetch-Levelled : (s : Cpu N) → Levelled N s → Levelled N (fetch N s).1
  unfolding fetch
  fetch-Levelled s h = record {
    aligned = h.aligned;
    room = h.room;
    sized = h.sized ∙ sym (fetch-nand_size s);
    narrow = h.narrow;
    units = h.units;
    rest = h.rest;
  }

  module _ (rom : List RomT) where
    pub fetch-contents :
        (s : Cpu N) (a : ℕ)
        → Flashed N rom s
        → s.pc < rom_size
        → N.contents (fetch N s).1.nand a ≡ N.contents s.nand a
    unfolding fetch
    fetch-contents s a h lt = elim (Bool-cases (s.pc % page_siz == 0)) [
      | inl begins ↦
          let whole : s.pc + page_siz ≤ rom_size = ground (arith, begins, lt) in
          rw begins (N.read_contents s.nand s.pc s.rom page_siz a (omega (arith, whole, h.big)))
      | inr inner ↦ rw inner refl
    ]

    fetch-Flashed : (s : Cpu N) → Flashed N rom s → s.pc < rom_size → Flashed N rom (fetch N s).1
    fetch-Flashed s h lt = record {
      big = omega (arith, h.big, fetch-nand_size s);
      fits = h.fits;
      bytes = λ a low. fetch-contents s a h lt ∙ h.bytes a low;
    }

    -- The CPU is about to execute the instruction `i` of the program.
    pub record AtInstruction (i : ℕ) (s : Cpu N) : Type 0 where
      pub at : s.pc ≡ 8 * i
      pub flashed : Flashed N rom s
      pub levelled : Levelled N s
      pub loaded : Loaded N rom s s.pc

    -- The buffer still serves the next instruction.
    next-Loaded :
        (s s' : Cpu N) (i : ℕ)
        → s.pc ≡ 8 * i
        → s'.pc ≡ 8 * (if i + 1 == length rom then 0 else i + 1)
        → ((j : ℕ) → j < page_siz → s'.rom j ≡ image rom (s.pc / page_siz * page_siz + j))
        → Loaded N rom s' s'.pc
    next-Loaded s s' i e e' same = elim (Bool-cases (i + 1 == length rom)) [
      | inl last ↦ inl (ground (arith, last, e'))
      | inr more ↦
          let go : s'.pc ≡ 8 * (i + 1) = ground (arith, more, e') in
          elim (Bool-cases (s'.pc % page_siz == 0)) [
            | inl new ↦ inl (ground (arith, new))
            | inr inner ↦ inr λ j lt.
                let page : s'.pc / page_siz ≡ s.pc / page_siz = ground (arith, inner, go, e) in
                same j lt ∙ ap (λ (p : ℕ). image rom (p * page_siz + j)) (sym page)
          ]
    ]

    -- With the program on the flash, the CPU at the instruction `i` executes this instruction, and
    -- is then at the next one, or after the last one at the first.
    pub cycle-executes :
        (s : Cpu N) (i : ℕ) (r : RomT)
        → IsProgram rom
        → AtInstruction i s
        → get_elem? rom i ≡ some r
        → i < length rom
        → (cycle s ≡ execute N r (fetch N s).1)
          × AtInstruction (if i + 1 == length rom then 0 else i + 1) (cycle s)
    unfolding cycle
    cycle-executes s i r p h here lt =
        let s' = (fetch N s).1 in
        let whole : s.pc < rom_size = omega (arith, h.at, lt, h.flashed.fits) in
        let got : (fetch N s).0 ≡ r =
          fetch-gives N rom s i r h.flashed h.at here lt h.loaded (p.fields i r here) in
        let done : execute N (fetch N s).0 s' ≡ execute N r s' = ap (λ q. execute N q s') got in
        let next = execute-pc r s' ∙ p.follows i r here in
        let after : AtInstruction (if i + 1 == length rom then 0 else i + 1) (execute N r s') =
          record {
            at = next;
            flashed =
                execute-Flashed N rom r s' (p.in_page i r here) (fetch-Levelled s h.levelled)
                  (fetch-Flashed s h.flashed whole);
            levelled = execute-Levelled N r s' (fetch-Levelled s h.levelled);
            loaded = next-Loaded s (execute N r s') i h.at next λ j jlt.
                ap (λ b. b j) (execute-rom r s')
                ∙ fetch-page N rom s j h.flashed whole h.loaded jlt;
          } in
        (done, subst (AtInstruction (if i + 1 == length rom then 0 else i + 1)) (sym done) after)
