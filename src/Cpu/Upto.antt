-- ===== src/Cpu/Upto.antt =====
-- What a cell of the flash page has accumulated after each step of a round: the AND of the writes
-- made so far (src/server/ROM.cpp, `struct Cell`).
use hsq_over_nand.Base.{
  ℕ, suc, ◌≤◌, ◌≡◌, refl, sym, ap, ◌∙◌, Bool, true, false, ◌&&◌, ◌⊎◌, inl, inr, some, List, [], ◌∷◌,
  get_elem?, leb, ◌==◌, if◌then◌else◌, Bool-cases, arith, bit_and,
}
use hsq_over_nand.Netlist.{Write, Cell}
use hsq_over_nand.Netlist.Meaning.{value, ins_value, Holds, Sat}
use hsq_over_nand.Schedule.Valid.{Timed}
use hsq_over_nand.Cpu.Page.{byte_of, edited}
use hsq_over_nand.Cpu.Step.{Timed-le}

-- The AND of the writes up to step `s`.
abbrev pub and_upto : (ℕ → Bool) → ℕ → List Write → Bool
and_upto v s [] = true
and_upto v s (w ∷ ws) = (if leb w.step s then value v w.src else true) && and_upto v s ws

-- An input holds its value from the first step on.
abbrev pub upto : (ℕ → Bool) → ℕ → ℕ → List Write → Bool
upto v s j [] = v j
upto v s j (w ∷ ws) = and_upto v s (w ∷ ws)

pub bit_and-byte_of : (a b : Bool) → bit_and (byte_of a) (byte_of b) ≡ byte_of (a && b)
bit_and-byte_of true true = refl
bit_and-byte_of true false = refl
bit_and-byte_of false true = refl
bit_and-byte_of false false = refl

and_self : (a : Bool) → (a && a) ≡ a
and_self true = refl
and_self false = refl

module _ (cells : List Cell) (v : ℕ → Bool) where
  -- When all writes are made, the cell has its value.
  and_upto-all :
      (s : ℕ) (ws : List Write) (t last : ℕ)
      → Timed cells t ws last
      → last ≤ s
      → and_upto v s ws ≡ ins_value v ws
  and_upto-all s [] t last h le = refl
  and_upto-all s (w ∷ ws) t last h le =
      ground (arith, Timed-le cells w.step ws last h.3, and_upto-all s ws w.step last h.3 le)

  pub upto-settled :
      (s j : ℕ) (c : Cell)
      → Sat v cells
      → get_elem? cells j ≡ some c
      → Timed cells 1 c.ins c.complete
      → c.complete ≤ s
      → upto v s j c.ins ≡ v j
  upto-settled s j c sat at h le = go c.ins (sat j c at) h
    where
      go : (ws : List Write) → Holds v j ws → Timed cells 1 ws c.complete → upto v s j ws ≡ v j
      go [] e t = refl
      go (w ∷ ws) e t = and_upto-all s (w ∷ ws) 1 c.complete t le ∙ sym e

  -- After step `t` nothing changes where `t` is past.
  edited-past :
      (s : ℕ) (ws : List Write) (t last x : ℕ) → Timed cells t ws last → s ≤ t → edited v s ws x ≡ x
  unfolding edited
  edited-past s [] t last x h le = refl
  edited-past s (w ∷ ws) t last x h le =
      let other : (w.step == s) ≡ false = ground arith in
      rw other (edited-past s ws w.step last x h.3 (omega arith))

  pub and_upto-past :
      (s : ℕ) (ws : List Write) (t last : ℕ)
      → Timed cells t ws last
      → s ≤ t
      → and_upto v s ws ≡ true
  and_upto-past s [] t last h le = refl
  and_upto-past s (w ∷ ws) t last h le =
      ground (arith, and_upto-past s ws w.step last h.3 (omega arith))

  -- A step edits a cell at most once: it leaves it, or ANDs one more write to it.
  step_edit :
      (s : ℕ) (ws : List Write) (t last x : ℕ)
      → Timed cells t ws last
      → ((edited v (suc s) ws x ≡ x) × (and_upto v (suc s) ws ≡ and_upto v s ws))
        ⊎ ((u : Bool) × (edited v (suc s) ws x ≡ byte_of u)
            × (and_upto v (suc s) ws ≡ (and_upto v s ws && u)))
  unfolding edited
  step_edit s [] t last x h = inl (refl, refl)
  step_edit s (w ∷ ws) t last x h = elim (Bool-cases (w.step == suc s)) [
    | inl now ↦ inr (
      value v w.src,
      rw now (edited-past (suc s) ws w.step last _ h.3 (ground arith)),
      ground (
        arith,
        and_upto-past (suc s) ws w.step last h.3 (ground arith),
        and_upto-past s ws w.step last h.3 (ground arith),
      ),
    )
    | inr other ↦ elim (step_edit s ws w.step last x h.3) [
      | inl (kept, same) ↦ inl (rw other kept, ground (arith, same))
      | inr (u, new, more) ↦ inr (u, rw other new, ground (arith, more))
    ]
  ]

  -- Programming the edited page leaves the AND of the writes up to the next step.
  programmed :
      (s : ℕ) (ws : List Write) (t last : ℕ)
      → Timed cells t ws last
      → let x = byte_of (and_upto v s ws) in
        bit_and x (edited v (suc s) ws x) ≡ byte_of (and_upto v (suc s) ws)
  programmed s ws t last h =
      let x = byte_of (and_upto v s ws) in
      elim (step_edit s ws t last x h) [
        | inl (kept, same) ↦
            rw (kept, same) (bit_and-byte_of _ _ ∙ ap byte_of (and_self (and_upto v s ws)))
        | inr (u, new, more) ↦ rw (new, more) (bit_and-byte_of _ _)
      ]

  pub upto-suc :
      (s j : ℕ) (c : Cell)
      → Timed cells 1 c.ins c.complete
      → let x = byte_of (upto v s j c.ins) in
        bit_and x (edited v (suc s) c.ins x) ≡ byte_of (upto v (suc s) j c.ins)
  upto-suc s j c h = go c.ins h
    where
      go :
          (ws : List Write)
          → Timed cells 1 ws c.complete
          → let x = byte_of (upto v s j ws) in
            bit_and x (edited v (suc s) ws x) ≡ byte_of (upto v (suc s) j ws)
      go [] t = unfold edited in bit_and-byte_of _ _ ∙ ap byte_of (and_self (v j))
      go (w ∷ ws) t = programmed s (w ∷ ws) 1 c.complete t
