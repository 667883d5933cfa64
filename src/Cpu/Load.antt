-- ===== src/Cpu/Load.antt =====
-- The first part of a round on the CPU (src/server/cpu.cpp): CAP_IN and the GET_IN instructions of
-- `build_round` (src/server/ROM.cpp) put the operands into the page buffer.
use hsq_over_nand.Base.{
  ℕ, zero, suc, ◌+◌, ◌*◌, ◌/◌, ◌%◌, ◌≤◌, ◌<◌, ◌≡◌, ◌≢◌, refl, ap, ap₂, ◌∙◌, List, length, ◌==◌,
  arith, u32,
}
use hsq_over_nand.Nand.{Nand, Buffer}
use hsq_over_nand.Netlist.{Cell}
use hsq_over_nand.Word.Shift.{halves, bit_at}
use hsq_over_nand.Schedule.{cell_at}
use hsq_over_nand.Schedule.Valid.{InPage}
use hsq_over_nand.Lane.{Lane, index_at, digit}
use hsq_over_nand.Rom.{Opcode, ram, page_siz, lanes, get_in_ops}
use hsq_over_nand.Cpu.{Cpu, update, edit_buf, getin_lane, get_in, dispatch}
use hsq_over_nand.Cpu.Page.{byte_of, run_ops, AtPage, edit_buf_lem}
use hsq_over_nand.Cpu.Step.{get_elem?-cell_at}

halves-next : (a i : ℕ) → halves a i / 2 ≡ halves a (i + 1)
unfolding halves
halves-next a i = let e : i + 1 ≡ suc i = omega arith in rw e refl

at-update : (f : ℕ → ℕ) (m x : ℕ) → update f m x m ≡ x
at-update f m x = ground arith

off-update : (f : ℕ → ℕ) (m x j : ℕ) → m ≢ j → update f m x j ≡ f j
off-update f m x j h = ground arith

module _ (N : Nand) where
  -- The state after one GET_IN of the lane `m`, for the places `x` and `y` of the page.
  abbrev got : Cpu N → ℕ → ℕ → ℕ → Cpu N
  got s m x y = record s {
    getin_cnt = s.getin_cnt + 1;
    page = update (update s.page x (byte_of (s.in_a m % 2 == 1))) y (byte_of (s.in_b m % 2 == 1));
    in_a = update s.in_a m (s.in_a m / 2);
    in_b = update s.in_b m (s.in_b m / 2);
  }

  AtPage-got : (s : Cpu N) (m x y : ℕ) → AtPage N s → AtPage N (got s m x y)
  AtPage-got s m x y h = record { aligned = h.aligned; fits = h.fits; here = h.here }

  -- The shifts of the operands, and the edit of the second one.
  abbrev pub take_a : ℕ → Cpu N → Cpu N
  take_a m s = record s { in_a = update s.in_a m (s.in_a m / 2) }

  abbrev pub take_b : ℕ → Cpu N → Cpu N
  take_b m s = record s { in_b = update s.in_b m (s.in_b m / 2) }

  abbrev pub shift_b : ℕ → ℕ → Cpu N → Cpu N
  shift_b m dest s = edit_buf N dest (byte_of (s.in_b m % 2 == 1)) s

  -- GET_IN with its lane and its next count.
  abbrev pub in_lane : Cpu N → ℕ → ℕ → ℕ → ℕ → Cpu N
  in_lane s dest from m count = take_b m (
      shift_b m dest
        (take_a m (edit_buf N from (byte_of (s.in_a m % 2 == 1)) (record s { getin_cnt = count }))))

  get_in_lem :
      (s : Cpu N) (m i x y : ℕ)
      → AtPage N s
      → s.getin_cnt ≡ digit * m + i
      → m < lanes
      → i < digit
      → x < page_siz
      → y < page_siz
      → dispatch N Opcode.get_in (ram + y) (ram + x) s ≡ got s m x y
  unfolding dispatch get_in
  get_in_lem s m i x y h cnt mlt ilt xlt ylt =
      let lane : getin_lane N s ≡ m = ground arith in
      let count : u32 (s.getin_cnt + 1) ≡ s.getin_cnt + 1 = omega arith in
      let s₀ : Cpu N = record s { getin_cnt = s.getin_cnt + 1 } in
      let at₀ : AtPage N s₀ = record { aligned = h.aligned; fits = h.fits; here = h.here } in
      let s₁ : Cpu N = record s {
        getin_cnt = s.getin_cnt + 1;
        page = update s.page x (byte_of (s.in_a m % 2 == 1));
        in_a = update s.in_a m (s.in_a m / 2);
      } in
      let at₁ : AtPage N s₁ = record { aligned = h.aligned; fits = h.fits; here = h.here } in
      ap₂ (in_lane s (ram + y) (ram + x)) lane count
      ∙ ap (λ t. take_b m (shift_b m (ram + y) t)) (ap (take_a m) (edit_buf_lem N s₀ x _ at₀ xlt))
      ∙ ap (take_b m) (edit_buf_lem N s₁ y _ at₁ ylt)

-- The page after the GET_INs of the bits `i` to `i + n - 1` of the operands `a` and `b`.
unfoldable pub loaded : Lane → ℕ → ℕ → ℕ → ℕ → Buffer → Buffer
loaded l a b i zero p = p
loaded l a b i (suc n) p = loaded l a b (i + 1) n (
    update (update p (index_at l.ain i) (byte_of (bit_at a i))) (index_at l.bin i)
      (byte_of (bit_at b i)))

-- The input cells of a lane are cells of the netlist.
abbrev pub Inside : List Cell → Lane → Type 0
Inside cells l =
    (i : ℕ) → i < digit → (index_at l.ain i < length cells) × (index_at l.bin i < length cells)

module _ (N : Nand) where
  -- What the GET_INs of lane `m` leave.
  pub record Loads (l : Lane) (m a b i n : ℕ) (s s' : Cpu N) : Type 0 where
    pub ia : ℕ → ℕ
    pub ib : ℕ → ℕ
    pub state : s' ≡ record s {
      getin_cnt = s.getin_cnt + n;
      page = loaded l a b i n s.page;
      in_a = ia;
      in_b = ib;
    }
    pub others : (j : ℕ) → m ≢ j → (ia j ≡ s.in_a j) × (ib j ≡ s.in_b j)

module _ (N : Nand) (cells : List Cell) (small : length cells ≤ page_siz)
    (addrs : InPage cells ram) where
  pub run-get_in_ops :
      (l : Lane) (m a b n i : ℕ) (s : Cpu N)
      → AtPage N s
      → Inside cells l
      → m < lanes
      → i + n ≤ digit
      → s.getin_cnt ≡ digit * m + i
      → s.in_a m ≡ halves a i
      → s.in_b m ≡ halves b i
      → Loads N l m a b i n s (run_ops N (get_in_ops cells l i n) s)
  unfolding run_ops get_in_ops loaded
  run-get_in_ops l m a b zero i s h inside mlt le cnt ea eb = record {
    ia = s.in_a;
    ib = s.in_b;
    state = let e : s.getin_cnt + 0 ≡ s.getin_cnt = omega arith in rw e refl;
    others = λ j ne. (refl, refl);
  }
  run-get_in_ops l m a b (suc n) i s h inside mlt le cnt ea eb =
      let rest = get_in_ops cells l (i + 1) n in
      let x = index_at l.ain i in
      let y = index_at l.bin i in
      let (xlt, ylt) = inside i (omega arith) in
      let ax : (cell_at cells x).addr ≡ ram + x = addrs x _ (get_elem?-cell_at cells x xlt) in
      let ay : (cell_at cells y).addr ≡ ram + y = addrs y _ (get_elem?-cell_at cells y ylt) in
      let one' =
        get_in_lem N s m i x y h cnt mlt (omega arith) (omega (arith, small))
          (omega (arith, small)) in
      let R =
        run-get_in_ops l m a b n (i + 1) (got N s m x y) (AtPage-got N s m x y h) inside mlt
          (omega arith) (omega arith)
          (at-update s.in_a m _ ∙ ap (λ (t : ℕ). t / 2) ea ∙ halves-next a i)
          (at-update s.in_b m _ ∙ ap (λ (t : ℕ). t / 2) eb ∙ halves-next b i) in
      let end' = λ (c wa wb : ℕ).
        let s' : Cpu N = record s {
          getin_cnt = c;
          page =
              loaded l a b (i + 1) n
                (update (update s.page x (byte_of (wa % 2 == 1))) y (byte_of (wb % 2 == 1)));
          in_a = R.ia;
          in_b = R.ib;
        } in
        s' in
      let count : s.getin_cnt + 1 + n ≡ s.getin_cnt + suc n = omega arith in
      record {
        ia = R.ia;
        ib = R.ib;
        state =
            ap₂ (λ (p q : ℕ). run_ops N rest (dispatch N Opcode.get_in p q s)) ay ax
            ∙ ap (run_ops N rest) one'
            ∙ R.state
            ∙ ap₂ (λ c w. end' c w (s.in_b m)) count ea
            ∙ ap (end' (s.getin_cnt + suc n) (halves a i)) eb;
        others = λ j ne. (
          (R.others j ne).0 ∙ off-update s.in_a m _ j ne,
          (R.others j ne).1 ∙ off-update s.in_b m _ j ne,
        );
      }
