-- ===== src/Cpu/Inputs.antt =====
-- The start of a round on the CPU (src/server/cpu.cpp): from the CAP_IN to the last GET_IN of both lanes.
use hsq_over_nand.Base.{
  ℕ, suc, ◌+◌, ◌%◌, ◌^◌, ◌≤◌, ◌<◌, ◌≡◌, ◌≢◌, refl, sym, ap, ◌∙◌, Bool, true, false, ◌⊎◌, inl, inr,
  List, ◌∷◌, ◌++◌, length, ◌==◌, if◌then◌else◌, arith, u32, subst,
}
use hsq_over_nand.Nand.{Nand, blank}
use hsq_over_nand.Netlist.{Cell}
use hsq_over_nand.Word.Shift.{halves}
use hsq_over_nand.Schedule.{cell_at}
use hsq_over_nand.Schedule.Valid.{InPage}
use hsq_over_nand.Lane.{Lane, index_at, digit}
use hsq_over_nand.Rom.{Opcode, Op, op, ram, page_siz, get_in_ops}
use hsq_over_nand.Cpu.{Cpu, update, edit_buf, get_in, getin_lane, page_of, phys, dispatch}
use hsq_over_nand.Cpu.Page.{byte_of, run_ops, run_ops-append, AtPage, page_of-ram}
use hsq_over_nand.Cpu.Step.{get_elem?-cell_at}
use hsq_over_nand.Cpu.Program.{HasRoom, flash_at}
use hsq_over_nand.Cpu.Load.{loaded, Loads, Inside, run-get_in_ops, take_a, take_b, shift_b}

either {ℓ} : {A : Type ℓ} (b : Bool) (x : A) → (if b then x else x) ≡ x
either true x = refl
either false x = refl

other-test : (o pre new : ℕ) → o ≡ new → pre ≢ new → (o == pre) ≡ false
other-test o pre new e ne = ground arith

module _ (N : Nand) where
  -- The CPU before a round: the page of the round is whole and lies on the device, its flash is blank,
  -- and the buffer is blank or holds another page.
  pub record Fresh (s : Cpu N) : Type 0 where
    pub aligned : s.page_offset % page_siz ≡ 0
    pub fits : ram + s.page_offset + page_siz ≤ 2 ^ 32
    pub room : HasRoom N s
    pub erased : (j : ℕ) → j < page_siz → flash_at N s j ≡ 0xff
    pub clean : (s.pre_offset ≢ ram + s.page_offset) ⊎ (s.page ≡ blank)

  -- The page buffer as the first edit of the round finds it.
  abbrev pub begun : Cpu N → Cpu N
  begun s = record s { page = blank; pre_offset = ram + s.page_offset }

  AtPage-begun : (s : Cpu N) → Fresh s → AtPage N (begun s)
  AtPage-begun s h = record { aligned = h.aligned; fits = h.fits; here = refl }

  edit_buf-begun :
      (s : Cpu N) (x val : ℕ)
      → AtPage N (begun s)
      → (s.pre_offset ≢ ram + s.page_offset) ⊎ (s.page ≡ blank)
      → x < page_siz
      → edit_buf N (ram + x) val s ≡ edit_buf N (ram + x) val (begun s)
  unfolding edit_buf phys
  edit_buf-begun s x val at clean lt =
      let o = page_of N s (ram + x) in
      let place : o ≡ ram + s.page_offset = page_of-ram N (begun s) x at lt in
      let start : (if o == s.pre_offset then s.page else blank) ≡ blank = elim clean [
        | inl other ↦
            let test : (o == s.pre_offset) ≡ false =
              other-test o s.pre_offset (ram + s.page_offset) place other in
            rw test refl
        | inr same ↦ rw same (either (o == s.pre_offset) blank)
      ] in
      ap
        (λ p.
          let s' : Cpu N = record s {
            page = update p ((ram + x) % page_siz) val;
            pre_offset = o;
          } in
          s')
        (start ∙ sym (either (o == ram + s.page_offset) blank))

  get_in-begun :
      (s : Cpu N) (x y : ℕ)
      → AtPage N (begun s)
      → (s.pre_offset ≢ ram + s.page_offset) ⊎ (s.page ≡ blank)
      → x < page_siz
      → dispatch N Opcode.get_in (ram + y) (ram + x) s
        ≡ dispatch N Opcode.get_in (ram + y) (ram + x) (begun s)
  unfolding dispatch get_in
  get_in-begun s x y at clean lt =
      let s₀ : Cpu N = record s { getin_cnt = u32 (s.getin_cnt + 1) } in
      let at₀ : AtPage N (begun s₀) = record {
        aligned = at.aligned;
        fits = at.fits;
        here = refl;
      } in
      let m = getin_lane N s in
      ap (λ t. take_b N m (shift_b N m (ram + y) (take_a N m t)))
        (edit_buf-begun s₀ x (byte_of (s.in_a m % 2 == 1)) at₀ clean lt)

  -- The first GET_IN clears the buffer where it holds another page.
  run-get_in_ops-begun :
      (cells : List Cell) (addrs : InPage cells ram) (small : length cells ≤ page_siz) (l : Lane)
      (n : ℕ) (s : Cpu N)
      → AtPage N (begun s)
      → (s.pre_offset ≢ ram + s.page_offset) ⊎ (s.page ≡ blank)
      → index_at l.ain 0 < length cells
      → index_at l.bin 0 < length cells
      → run_ops N (get_in_ops cells l 0 (suc n)) s
        ≡ run_ops N (get_in_ops cells l 0 (suc n)) (begun s)
  unfolding run_ops get_in_ops
  run-get_in_ops-begun cells addrs small l n s at clean xlt ylt =
      let x = index_at l.ain 0 in
      let y = index_at l.bin 0 in
      let ax : (cell_at cells x).addr ≡ ram + x = addrs x _ (get_elem?-cell_at cells x xlt) in
      let ay : (cell_at cells y).addr ≡ ram + y = addrs y _ (get_elem?-cell_at cells y ylt) in
      ap (run_ops N (get_in_ops cells l 1 n))
        (rw (ax, ay) (get_in-begun s x y at clean (omega (arith, xlt, small))))

  dispatch-cap_in : (s : Cpu N) → dispatch N Opcode.cap_in 0 0 s ≡ record s { getin_cnt = 0 }
  unfolding dispatch
  dispatch-cap_in s = refl

  module _ (cells : List Cell) (small : length cells ≤ page_siz) (addrs : InPage cells ram)
      (x y : Lane) where
    abbrev pub input_ops : List Op
    input_ops = get_in_ops cells x 0 digit ++ get_in_ops cells y 0 digit

    -- The CPU after the GET_INs of both lanes.
    pub record Entered (s t : Cpu N) : Type 0 where
      pub at_page : AtPage N t
      pub page :
          t.page
          ≡ loaded y (s.in_a 1) (s.in_b 1) 0 digit (loaded x (s.in_a 0) (s.in_b 0) 0 digit blank)
      pub nand : t.nand ≡ s.nand
      pub out : t.out ≡ s.out
      pub page_offset : t.page_offset ≡ s.page_offset

    Entered-Loads :
        (s s₁ s₂ : Cpu N)
        → Fresh s
        → Loads N x 0 (s.in_a 0) (s.in_b 0) 0 digit (record (begun s) { getin_cnt = 0 }) s₁
        → Loads N y 1 (s.in_a 1) (s.in_b 1) 0 digit s₁ s₂
        → Entered s s₂
    Entered-Loads s s₁ s₂ h a b =
        let offset = ap (λ t. t.page_offset) b.state ∙ ap (λ t. t.page_offset) a.state in
        let pre = ap (λ t. t.pre_offset) b.state ∙ ap (λ t. t.pre_offset) a.state in
        record {
          at_page = record {
            aligned = omega (arith, offset, h.aligned);
            fits = omega (arith, offset, h.fits);
            here = omega (arith, offset, pre);
          };
          page =
              ap (λ t. t.page) b.state
              ∙ ap (λ t. loaded y (s.in_a 1) (s.in_b 1) 0 digit t.page) a.state;
          nand = ap (λ t. t.nand) b.state ∙ ap (λ t. t.nand) a.state;
          out = ap (λ t. t.out) b.state ∙ ap (λ t. t.out) a.state;
          page_offset = offset;
        }

    -- CAP_IN and the GET_INs put both operands of both lanes into the page buffer.
    pub run-input_ops :
        (s : Cpu N)
        → Fresh s
        → Inside cells x
        → Inside cells y
        → Entered s (run_ops N (op Opcode.cap_in 0 0 ∷ input_ops) s)
    unfolding run_ops halves
    run-input_ops s h inx iny =
        let s' : Cpu N = record s { getin_cnt = 0 } in
        let s₀ = begun s' in
        let at₀ : AtPage N s₀ = record { aligned = h.aligned; fits = h.fits; here = refl } in
        let start =
          ap (run_ops N input_ops) (dispatch-cap_in s)
          ∙ run_ops-append N (get_in_ops cells x 0 digit) (get_in_ops cells y 0 digit) s'
          ∙ ap (run_ops N (get_in_ops cells y 0 digit)) (
              run-get_in_ops-begun cells addrs small x 63 s' at₀ h.clean (inx 0 (omega arith)).0
                (inx 0 (omega arith)).1) in
        let a =
          run-get_in_ops N cells small addrs x 0 (s.in_a 0) (s.in_b 0) digit 0 s₀ at₀ inx
            (omega arith) (omega arith) refl refl refl in
        let s₁ = run_ops N (get_in_ops cells x 0 digit) s₀ in
        let at₁ : AtPage N s₁ = record {
          aligned = ap (λ t. t.page_offset % page_siz) a.state ∙ h.aligned;
          fits = omega (arith, ap (λ t. t.page_offset) a.state, h.fits);
          here =
              ap (λ t. t.pre_offset) a.state
              ∙ ap (λ (o : ℕ). ram + o) (sym (ap (λ t. t.page_offset) a.state));
        } in
        let b =
          run-get_in_ops N cells small addrs y 1 (s.in_a 1) (s.in_b 1) digit 0 s₁ at₁ iny
            (omega arith) (omega arith) (ap (λ t. t.getin_cnt) a.state)
            (ap (λ t. t.in_a 1) a.state ∙ (a.others 1 (λ e. absurd (omega arith))).0)
            (ap (λ t. t.in_b 1) a.state ∙ (a.others 1 (λ e. absurd (omega arith))).1) in
        subst (Entered s) (sym start)
          (Entered-Loads s s₁ (run_ops N (get_in_ops cells y 0 digit) s₁) h a b)
