-- ===== src/Cpu/Output.antt =====
-- The last part of a round on the CPU (src/server/cpu.cpp): PUSH_OUT shifts the sum signals into `out`, and
-- RAISE reports the jump signals and ends the round.
use hsq_over_nand.Base.{
  ℕ, suc, ◌+◌, ◌%◌, ◌≤◌, ◌<◌, ◌≡◌, ◌≢◌, refl, sym, ap, ◌∙◌, Bool, true, false, not, some, List, [],
  ◌∷◌, length, get_elem?, ltb, assert-some, bind-some, Bool-cases, inl, inr, arith, u32, none,
  Option-cases,
}
use hsq_over_nand.Nand.{Nand}
use hsq_over_nand.Netlist.{Sig, Cell, addr_of}
use hsq_over_nand.Netlist.Meaning.{value}
use hsq_over_nand.Word.Shift.{push, Pushed, Pushed-suc}
use hsq_over_nand.Schedule.Valid.{InPage}
use hsq_over_nand.Lane.{Lane, sig_at, digit}
use hsq_over_nand.Lane.Lookahead.{values}
use hsq_over_nand.Rom.{Opcode, Op, op, ram, page_siz, lanes, push_out_ops, raise_ops}
use hsq_over_nand.Cpu.{Cpu, update, read, push_out, raise, erase, dispatch, majority_vote}
use hsq_over_nand.Cpu.Page.{byte_of, run_ops, read_lem}
use hsq_over_nand.Cpu.Step.{get_elem?-lt}

majority_vote-byte_of : (b : Bool) → majority_vote (byte_of b) ≡ b
unfolding majority_vote
majority_vote-byte_of true = refl
majority_vote-byte_of false = refl

-- Only a cell that is read as it stands has an address.
pub addr_of-place :
    (cells : List Cell) (s : Sig) (a : ℕ)
    → InPage cells ram
    → addr_of cells s ≡ some a
    → (s.inv ≡ false) × (s.cell < length cells) × (a ≡ ram + s.cell)
unfolding addr_of
addr_of-place cells s a addrs h =
    let (straight, found) =
      assert-some (not s.inv) (elim (get_elem? cells s.cell) [ none ↦ none | some c ↦ some c.addr ])
        a h in
    elim (Option-cases (get_elem? cells s.cell)) [
      | inl out ↦ absurd (cc (rw out at found))
      | inr (c, at) ↦
          let same : c.addr ≡ a = cc (rw at at found) in
          (ground (arith, straight), get_elem?-lt cells s.cell c at, sym same ∙ addrs s.cell c at)
    ]

module _ (N : Nand) (cells : List Cell) (v : ℕ → Bool) (small : length cells ≤ page_siz)
    (addrs : InPage cells ram) where
  -- The page holds the values of the cells.
  abbrev pub Shows : Cpu N → Type 0
  Shows st = (j : ℕ) → j < length cells → st.page j ≡ byte_of (v j)

  -- The bit that PUSH_OUT or RAISE reads.
  vote_lem :
      (st : Cpu N) (s : Sig) (a : ℕ)
      → Shows st
      → addr_of cells s ≡ some a
      → majority_vote (read N st a) ≡ value v s
  vote_lem st s a h e =
      let (straight, lt, at) = addr_of-place cells s a addrs e in
      rw (at, straight)
        (ap majority_vote (read_lem N st s.cell (omega (arith, lt, small)) ∙ h s.cell lt)
          ∙ majority_vote-byte_of (v s.cell))

  abbrev pushed_out : Cpu N → ℕ → Bool → Cpu N
  pushed_out st l b = record st { out = update st.out l (push (st.out l) b) }

  dispatch-push_out :
      (st : Cpu N) (l a : ℕ)
      → l < lanes
      → dispatch N Opcode.push_out l a st ≡ pushed_out st l (majority_vote (read N st a))
  unfolding dispatch push_out
  dispatch-push_out st l a lt =
      let lane : l % lanes ≡ l = omega arith in
      ap
        (λ (k : ℕ).
          let st' : Cpu N = record st {
            out = update st.out k (push (st.out k) (majority_vote (read N st a)));
          } in
          st')
        lane

  -- The signals of lane `l` from bit `i` on, pushed out.
  pub run-push_out_ops :
      (l i : ℕ) (all ss : List Sig) (os : List Op) (st : Cpu N)
      → push_out_ops cells l ss ≡ some os
      → ((k : ℕ) → sig_at ss k ≡ sig_at all (i + k))
      → i + length ss ≡ digit
      → l < lanes
      → Shows st
      → Pushed (values v all) i (st.out l)
      → (o : ℕ → ℕ) × (run_ops N os st ≡ record st { out = o })
        × Pushed (values v all) digit (o l)
        × ((j : ℕ) → l ≢ j → o j ≡ st.out j)
  unfolding push_out_ops run_ops
  run-push_out_ops l i all [] os st e part len lt shows pushed =
      let none' : [] ≡ os = cc e in
      let end' : i ≡ digit = omega (arith, len) in
      (st.out, rw (← none') refl, rw (← end') pushed, λ j ne. refl)
  run-push_out_ops l i all (s ∷ ss) os st e part len lt shows pushed =
      let (a, e₁, h₀) = bind-some _ _ os e in
      let (rest, e₂, h₁) = bind-some _ _ os h₀ in
      let whole : op Opcode.push_out l a ∷ rest ≡ os = cc h₁ in
      let bit : majority_vote (read N st a) ≡ values v all i =
        vote_lem st s a shows e₁ ∙ ap (value v) (part 0 ∙ ap (sig_at all) (omega arith)) in
      let now = push (st.out l) (values v all i) in
      let st₁ : Cpu N = record st { out = update st.out l now } in
      let first : dispatch N Opcode.push_out l a st ≡ st₁ =
        dispatch-push_out st l a lt ∙ ap (λ b. pushed_out st l b) bit in
      let here : st₁.out l ≡ now = ground arith in
      let next : i + 1 ≡ suc i = omega arith in
      let (o, ran, all', others) =
        run-push_out_ops l (i + 1) all ss rest st₁ e₂
          (λ k. part (suc k) ∙ ap (sig_at all) (omega arith)) (omega (arith, len)) lt shows
          (rw (next, here) (Pushed-suc (values v all) i (st.out l) (omega (arith, len)) pushed)) in
      (
        o,
        ap (λ os'. run_ops N os' st) (sym whole) ∙ ap (run_ops N rest) first ∙ ran,
        all',
        λ j ne. others j ne ∙ ground arith,
      )

  raise_first :
      (st : Cpu N) (a : ℕ)
      → dispatch N Opcode.raise 0 a st
        ≡ record st { is_jmp = update st.is_jmp 0 (majority_vote (read N st a)) }
  unfolding dispatch raise
  raise_first st a = refl

  -- The RAISE of the last lane ends the round.
  raise_last :
      (st : Cpu N) (a : ℕ)
      → let t = dispatch N Opcode.raise 1 a st in
        (t.out ≡ st.out)
        × (t.is_jmp ≡ update st.is_jmp 1 (majority_vote (read N st a)))
        × (t.signal ≡ true)
  unfolding dispatch raise erase
  raise_last st a =
      elim (Bool-cases
        (ltb st.nand_size (u32 (ram + u32 (st.page_offset + page_siz) + page_siz)))) [
          | inl full ↦ rw full (refl, refl, refl)
          | inr left ↦ rw left (refl, refl, refl)
        ]

  -- The jump signals of both lanes, reported.
  pub run-raise_ops :
      (x y : Lane) (os : List Op) (st : Cpu N)
      → raise_ops cells 0 (x ∷ y ∷ []) ≡ some os
      → Shows st
      → let t = run_ops N os st in
        (t.out ≡ st.out)
        × (t.is_jmp 0 ≡ value v x.is_jmp)
        × (t.is_jmp 1 ≡ value v y.is_jmp)
        × (t.signal ≡ true)
  unfolding raise_ops run_ops
  run-raise_ops x y os st e shows =
      let (a, e₁, h₀) = bind-some _ _ os e in
      let (more, e₂, h₁) = bind-some _ _ os h₀ in
      let (b, e₃, h₂) = bind-some _ _ more e₂ in
      let (none', e₄, h₃) = bind-some _ _ more h₂ in
      let st₁ : Cpu N = record st { is_jmp = update st.is_jmp 0 (majority_vote (read N st a)) } in
      let whole : op Opcode.raise 0 a ∷ op Opcode.raise 1 b ∷ [] ≡ os = cc (h₁, h₃, e₄) in
      let (out, jumps, signal) = raise_last st₁ b in
      rw (← whole, raise_first st a)
        (
          out,
          ap (λ f. f 0) jumps ∙ vote_lem st x.is_jmp a shows e₁,
          ap (λ f. f 1) jumps ∙ vote_lem st₁ y.is_jmp b shows e₃,
          signal,
        )
