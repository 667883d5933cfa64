-- ===== src/Cpu/Loop.antt =====
-- The loop of a round in src/server/server.cpp, which fetches and executes instructions until one of them
-- raises the signal, and the list of the instructions of the program.
use hsq_over_nand.Base.{
  ℕ, zero, suc, ◌+◌, ◌-◌, ◌%◌, ◌≤◌, ◌<◌, ◌≡◌, refl, ap, sym, subst, ◌∙◌, true, false, some, List,
  [], ◌∷◌, length, get_elem?, ◌==◌, arith, if◌then◌else◌,
}
use hsq_over_nand.Nand.{Nand}
use hsq_over_nand.Rom.{Opcode, RomT, Op, op, rom_size, ram, page_siz, lanes}
use hsq_over_nand.Cpu.{Cpu, dispatch, execute}
use hsq_over_nand.Cpu.Fetch.{fetch}
use hsq_over_nand.Cpu.Image.{Flashed}
use hsq_over_nand.Cpu.Wear.{Levelled}
use hsq_over_nand.Cpu.Page.{run_ops}
use hsq_over_nand.Cpu.Signal.{dispatch-quiet, dispatch-last}
use hsq_over_nand.Cpu.Aside.{aside, Follows, dispatch-Follows}
use hsq_over_nand.Cpu.Cycle.{
  IsProgram, AtInstruction, cycle, round_loop, fetch-contents, fetch-nand_size, fetch-Levelled,
  cycle-executes,
}

-- The instructions that the words of a ROM stand for.
unfoldable pub listing : List RomT → List Op
listing [] = []
listing (r ∷ rs) = op r.code r.dest r.from ∷ listing rs

-- The instruction does not end the round.
abbrev Quiet : RomT → Type 0
Quiet r = r.code ≡ Opcode.raise → (r.dest % lanes == lanes - 1) ≡ false

-- The last instruction is the RAISE of the last lane, and the only one.
unfoldable pub Ends : List RomT → Type 0
Ends [] = ⊥
Ends (r ∷ []) = (r.code ≡ Opcode.raise) × ((r.dest % lanes == lanes - 1) ≡ true)
Ends (r ∷ q ∷ rs) = Quiet r × Ends (q ∷ rs)

module _ (N : Nand) where
  -- `execute` takes the signal back first.
  abbrev pub cleared : Cpu N → Cpu N
  cleared t = record t { signal = false }

  Follows-signal : (s t : Cpu N) → Follows N s t → t.signal ≡ s.signal
  Follows-signal s t f = ap (λ (u : Cpu N). u.signal) f.same

  Follows-cleared : (s t : Cpu N) → s.signal ≡ false → Follows N s t → Follows N s (cleared t)
  Follows-cleared s t quiet f = record {
    beside = f.beside;
    same = ap cleared f.same ∙ ap (λ b. record (aside N f.beside s) { signal = b }) (sym quiet);
    contents = f.contents;
    size = f.size;
  }

  -- What follows as it is.
  Follows-self : (s : Cpu N) → Follows N s s
  Follows-self s = record {
    beside = record { pc = s.pc; rom = s.rom; nand = s.nand; mtd_data = s.mtd_data };
    same = refl;
    contents = λ a. refl;
    size = refl;
  }

  round_loop-stops :
      (n : ℕ) (t : Cpu N) → (cycle N t).signal ≡ true → round_loop N (suc n) t ≡ cycle N t
  unfolding round_loop
  round_loop-stops n t e = ap (λ b. if b then cycle N t else round_loop N n (cycle N t)) e

  round_loop-goes :
      (n : ℕ) (t : Cpu N)
      → (cycle N t).signal ≡ false
      → round_loop N (suc n) t ≡ round_loop N n (cycle N t)
  unfolding round_loop
  round_loop-goes n t e = ap (λ b. if b then cycle N t else round_loop N n (cycle N t)) e

  module _ (rom : List RomT) where
    -- The fetch of an instruction changes nothing else.
    fetch-Follows :
        (s t : Cpu N)
        → Flashed N rom t
        → t.pc < rom_size
        → Follows N s (cleared t)
        → Follows N s (cleared (fetch N t).1)
    unfolding fetch
    fetch-Follows s t F lt f =
        let u = (fetch N t).1 in
        let here : t.nand ≡ f.beside.nand = ap (λ (w : Cpu N). w.nand) f.same in
        record {
          beside = record f.beside { rom = u.rom; nand = u.nand };
          same = ap (λ (w : Cpu N). record w { rom = u.rom; nand = u.nand }) f.same;
          contents =
              λ a. fetch-contents N rom t a F lt ∙ ap (λ d. N.contents d a) here ∙ f.contents a;
          size = fetch-nand_size N t ∙ ap N.size here ∙ f.size;
        }

    execute-Follows :
        (r : RomT) (s t : Cpu N)
        → Levelled N t
        → (r.code ≡ Opcode.prg_nand → (ram ≤ r.dest) × (r.dest < ram + page_siz))
        → Follows N s (cleared t)
        → Follows N (dispatch N r.code r.dest r.from s) (execute N r t)
    unfolding execute
    execute-Follows r s t L p f =
        let clear : Levelled N (cleared t) = record {
          aligned = L.aligned;
          room = L.room;
          sized = L.sized;
          narrow = L.narrow;
          units = L.units;
          rest = L.rest;
        } in
        let g =
          dispatch-Follows N f.beside s f.contents f.size (subst (Levelled N) f.same clear) r.code
            r.dest r.from p in
        record {
          beside = record g.beside { pc = r.next };
          same =
              ap (λ (u : Cpu N). record u { pc = r.next })
                (ap (dispatch N r.code r.dest r.from) f.same ∙ g.same);
          contents = g.contents;
          size = g.size;
        }

    cycle-Follows :
        (s t : Cpu N) (i : ℕ) (r : RomT)
        → IsProgram rom
        → AtInstruction N rom i t
        → get_elem? rom i ≡ some r
        → i < length rom
        → Follows N s (cleared t)
        → Follows N (dispatch N r.code r.dest r.from s) (cycle N t)
    cycle-Follows s t i r p h at lt f =
        let low : t.pc < rom_size = omega (arith, h.at, lt, h.flashed.fits) in
        let g =
          execute-Follows r s (fetch N t).1 (fetch-Levelled N t h.levelled) (p.in_page i r at)
            (fetch-Follows s t h.flashed low f) in
        subst (Follows N (dispatch N r.code r.dest r.from s))
          (sym (cycle-executes N rom t i r p h at lt).0) g

    -- The CPU `u` has executed the instructions `rs` from `s` on, to the end of the program.
    abbrev Ran : List RomT → Cpu N → Cpu N → Type 0
    Ran rs s u =
        Follows N (run_ops N (listing rs) s) u × AtInstruction N rom 0 u × (u.signal ≡ true)

    -- The part `rs` of the program, from the instruction `i` to the end.
    loop-runs :
        (rs : List RomT) (n i : ℕ) (s t : Cpu N)
        → IsProgram rom
        → AtInstruction N rom i t
        → ((j : ℕ) → get_elem? rom (i + j) ≡ get_elem? rs j)
        → i + length rs ≡ length rom
        → length rs ≤ n
        → Ends rs
        → s.signal ≡ false
        → Follows N s (cleared t)
        → Ran rs s (round_loop N n t)
    unfolding run_ops listing Ends
    loop-runs [] n i s t p h at long enough e quiet f = absurd e
    loop-runs (r ∷ rs) zero i s t p h at long enough e quiet f = absurd (omega (arith, enough))
    loop-runs (r ∷ []) (suc n) i s t p h at long enough e quiet f =
        let here : get_elem? rom i ≡ some r = ap (get_elem? rom) (omega arith) ∙ at 0 in
        let lt : i < length rom = omega (arith, long) in
        let s' = dispatch N r.code r.dest r.from s in
        let g = cycle-Follows s t i r p h here lt f in
        let ends : (cycle N t).signal ≡ true =
          Follows-signal s' (cycle N t) g ∙ dispatch-last N r.code r.dest r.from s e.0 e.1 in
        let first : (if i + 1 == length rom then 0 else i + 1) ≡ 0 = ground (arith, long) in
        subst (Ran (r ∷ []) s) (sym (round_loop-stops n t ends)) (
          g,
          subst (λ k. AtInstruction N rom k (cycle N t)) first
              (cycle-executes N rom t i r p h here lt).1,
          ends,
        )
    loop-runs (r ∷ q ∷ rs) (suc n) i s t p h at long enough e quiet f =
        let here : get_elem? rom i ≡ some r = ap (get_elem? rom) (omega arith) ∙ at 0 in
        let lt : i < length rom = omega (arith, long) in
        let s' = dispatch N r.code r.dest r.from s in
        let g = cycle-Follows s t i r p h here lt f in
        let still : s'.signal ≡ false = dispatch-quiet N r.code r.dest r.from s e.0 ∙ quiet in
        let goes : (cycle N t).signal ≡ false = Follows-signal s' (cycle N t) g ∙ still in
        let next : (if i + 1 == length rom then 0 else i + 1) ≡ i + 1 = ground (arith, long) in
        subst (Ran (r ∷ q ∷ rs) s) (sym (round_loop-goes n t goes)) (
          loop-runs (q ∷ rs) n (i + 1) s' (cycle N t) p
            (subst (λ k. AtInstruction N rom k (cycle N t)) next
              (cycle-executes N rom t i r p h here lt).1)
            (λ j. ap (get_elem? rom) (omega arith) ∙ at (suc j)) (omega (arith, long))
            (omega (arith, enough)) e.1 still (Follows-cleared s' (cycle N t) still g))

    -- With a program on the flash whose last instruction, and no other one, is the RAISE of the last lane,
    -- and the CPU at its first instruction, a loop of at least as many turns as the program is long leaves
    -- the registers, the page buffer and the bytes of the flash as the instructions do that are executed
    -- one after the other, with the signal taken back first; only the program counter, the buffer of the ROM
    -- and the picture may differ. The CPU is then at the first instruction again, with the program on the
    -- flash, and the signal is raised.
    pub round_loop-runs :
        (n : ℕ) (t : Cpu N)
        → IsProgram rom
        → Ends rom
        → length rom ≤ n
        → AtInstruction N rom 0 t
        → let u = round_loop N n t in
          Follows N (run_ops N (listing rom) (cleared t)) u
          × AtInstruction N rom 0 u
          × (u.signal ≡ true)
    round_loop-runs n t p e enough h =
        loop-runs rom n 0 (cleared t) t p h (λ j. ap (get_elem? rom) (omega arith)) (omega arith)
          enough e refl (Follows-self (cleared t))
