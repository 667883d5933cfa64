-- ===== src/Rom/Program.antt =====
-- What `rom_init` of src/server/ROM.cpp makes is a program that a CPU can execute in its order.
use hsq_over_nand.Base.{
  ℕ, zero, suc, ◌+◌, ◌*◌, ◌^◌, ◌<◌, ◌≡◌, refl, sym, ap, ◌∙◌, some, List, [], ◌∷◌, ◌++◌, length,
  get_elem?, ◌==◌, if◌then◌else◌, arith, u32, inl, inr, Bool-cases,
}
use hsq_over_nand.Netlist.{Write, Cell}
use hsq_over_nand.Lane.{Lane}
use hsq_over_nand.Cpu.Cycle.{IsProgram}
use hsq_over_nand.Rom.{
  Opcode, RomT, Op, u20, ram, push_ops, get_in_ops, write_ops, step_ops, steps_ops, restart,
}

-- Every PRG_NAND names the first page behind the ROM.
unfoldable pub FirstPage : List Op → Type 0
FirstPage [] = Unit
FirstPage (o ∷ os) = (o.opcode ≡ Opcode.prg_nand → o.to ≡ ram) × FirstPage os

pub FirstPage-append : (xs ys : List Op) → FirstPage xs → FirstPage ys → FirstPage (xs ++ ys)
unfolding FirstPage
FirstPage-append [] ys h k = k
FirstPage-append (x ∷ xs) ys h k = (h.0, FirstPage-append xs ys h.1 k)

pub get_in_ops-FirstPage :
    (cells : List Cell) (l : Lane) (i n : ℕ) → FirstPage (get_in_ops cells l i n)
unfolding FirstPage get_in_ops
get_in_ops-FirstPage cells l i zero = tt
get_in_ops-FirstPage cells l i (suc n) = ((λ e. cc), get_in_ops-FirstPage cells l (i + 1) n)

write_ops-FirstPage :
    (cells : List Cell) (s addr : ℕ) (ws : List Write) → FirstPage (write_ops cells s addr ws)
unfolding FirstPage write_ops
write_ops-FirstPage cells s addr [] = tt
write_ops-FirstPage cells s addr (w ∷ ws) = elim (Bool-cases (w.step == s)) [
  | inr other ↦ rw other (write_ops-FirstPage cells s addr ws)
  | inl now ↦ rw now (elim (Bool-cases w.src.inv) [
    | inl i ↦ rw i ((λ e. cc), write_ops-FirstPage cells s addr ws)
    | inr i ↦ rw i ((λ e. cc), write_ops-FirstPage cells s addr ws)
  ])
]

step_ops-FirstPage : (cells : List Cell) (s : ℕ) (cs : List Cell) → FirstPage (step_ops cells s cs)
unfolding FirstPage step_ops
step_ops-FirstPage cells s [] = tt
step_ops-FirstPage cells s (c ∷ cs) =
    FirstPage-append _ _ (write_ops-FirstPage cells s c.addr c.ins) (step_ops-FirstPage cells s cs)

pub steps_ops-FirstPage : (cells : List Cell) (s n : ℕ) → FirstPage (steps_ops cells ram s n)
unfolding FirstPage steps_ops
steps_ops-FirstPage cells s zero = tt
steps_ops-FirstPage cells s (suc n) =
    FirstPage-append _ _ (step_ops-FirstPage cells s cells)
      ((λ e. refl), steps_ops-FirstPage cells (s + 1) n)

-- What an element of the finished ROM is.
pub record IsWord (a i n : ℕ) (os : List Op) (r : RomT) : Type 0 where
  dest_fits : r.dest < 2 ^ 20
  from_fits : r.from < 2 ^ 20
  next_fits : r.next < 2 ^ 20
  follows : r.next ≡ (if i + 1 == n then 0 else a + 8 * (i + 1))
  origin : Op
  at : get_elem? os i ≡ some origin
  same_code : r.code ≡ origin.opcode
  same_dest : r.dest ≡ u20 origin.to

pub length-restart : (a : ℕ) (os : List Op) → length (restart (push_ops a os)) ≡ length os
unfolding push_ops restart
length-restart a [] = refl
length-restart a (o ∷ []) = refl
length-restart a (o ∷ p ∷ os) = ap suc (length-restart (u32 (a + 8)) (p ∷ os))

restart-IsWord :
    (a : ℕ) (os : List Op) (i : ℕ) (r : RomT)
    → a + 8 * length os < 2 ^ 20
    → get_elem? (restart (push_ops a os)) i ≡ some r
    → IsWord a i (length os) os r
unfolding push_ops restart
restart-IsWord a [] i r small h = cc
restart-IsWord a (o ∷ []) zero r small h =
    let word : RomT = record { code = o.opcode; dest = u20 o.to; from = u20 o.of; next = 0 } in
    let e : word ≡ r = cc h in
    rw (← e) (record {
      dest_fits = omega arith;
      from_fits = omega arith;
      next_fits = omega arith;
      follows = refl;
      origin = o;
      at = refl;
      same_code = refl;
      same_dest = refl;
    })
restart-IsWord a (o ∷ []) (suc i) r small h = cc
restart-IsWord a (o ∷ p ∷ os) zero r small h =
    let word : RomT = record {
      code = o.opcode;
      dest = u20 o.to;
      from = u20 o.of;
      next = u20 (u32 (a + 8));
    } in
    let e : word ≡ r = cc h in
    rw (← e) (record {
      dest_fits = omega arith;
      from_fits = omega arith;
      next_fits = omega arith;
      follows = ground (arith, small);
      origin = o;
      at = refl;
      same_code = refl;
      same_dest = refl;
    })
restart-IsWord a (o ∷ p ∷ os) (suc i) r small h =
    let w = restart-IsWord (u32 (a + 8)) (p ∷ os) i r (omega (arith, small)) h in
    record {
      dest_fits = w.dest_fits;
      from_fits = w.from_fits;
      next_fits = w.next_fits;
      follows = ground (arith, w.follows, small);
      origin = w.origin;
      at = w.at;
      same_code = w.same_code;
      same_dest = w.same_dest;
    }

FirstPage-at :
    (os : List Op) (i : ℕ) (o : Op)
    → FirstPage os
    → get_elem? os i ≡ some o
    → o.opcode ≡ Opcode.prg_nand
    → o.to ≡ ram
unfolding FirstPage
FirstPage-at [] i o h e k = cc
FirstPage-at (p ∷ os) zero o h e k = let same : p ≡ o = cc e in (rw same at h.0) k
FirstPage-at (p ∷ os) (suc i) o h e k = FirstPage-at os i o h.1 e k

-- The words of a list of instructions, made by `push_op` from the address 0 and with the last one led
-- back, are a program: their addresses fit the fields, each leads to the next one and the last one to
-- the first, and every PRG_NAND names the page behind the ROM. The list ends below the address
-- `2 ^ 20`, and its PRG_NANDs name the page behind the ROM.
pub restart-IsProgram :
    (os : List Op) → 8 * length os < 2 ^ 20 → FirstPage os → IsProgram (restart (push_ops 0 os))
restart-IsProgram os small first = record {
  fields = λ i r h.
      let w = word i r h in record { dest = w.dest_fits; from = w.from_fits; next = w.next_fits };
  follows = λ i r h. let w = word i r h in ground (arith, w.follows, length-restart 0 os);
  in_page = λ i r h k.
      let w = word i r h in
      let to : w.origin.to ≡ ram = FirstPage-at os i w.origin first w.at (sym w.same_code ∙ k) in
      let dest : r.dest ≡ ram = w.same_dest ∙ ap u20 to in
      (omega (arith, dest), omega (arith, dest));
}
  where
    word :
        (i : ℕ) (r : RomT)
        → get_elem? (restart (push_ops 0 os)) i ≡ some r
        → IsWord 0 i (length os) os r
    word i r h = restart-IsWord 0 os i r (omega (arith, small)) h
