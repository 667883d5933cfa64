-- ===== src/Netlist/Gates.antt =====
-- The gates compute what their names say, and no assertion in them fails on the inputs given here.
use mathlib.Core.List.{append_assoc, append-nil}
use hsq_over_nand.Base.{
  ℕ, ◌+◌, ◌≤◌, ◌≡◌, refl, ap, ap₂, ◌∙◌, Bool, true, false, not, xor, ◌&&◌, ◌||◌, some, List, [],
  ◌∷◌, ◌++◌, map, length, modify-append_last, arith, u32, leb,
}
use hsq_over_nand.Netlist.{
  Sig, not_sig, Write, Cell, Netlist, Build, pure, ◌>>=◌, ◌>>◌, input, cell, wire, wire_all, and_of,
  or_of, xor_of, buf,
}
use hsq_over_nand.Netlist.Meaning.{
  value, ins_value, Sat-prefix, Sat-last, Built, Builds, Any, Builds-pure, Builds-bind,
  Builds-weaken,
}

abbrev pub all_value : (ℕ → Bool) → List Sig → Bool
all_value v [] = true
all_value v (x ∷ xs) = value v x && all_value v xs

abbrev pub any_value : (ℕ → Bool) → List Sig → Bool
any_value v [] = false
any_value v (x ∷ xs) = value v x || any_value v xs

unfoldable pub write_of : Bool → Sig → Write
write_of inv s = record { src = record s { inv = xor s.inv inv }; step = 0 }

value-write_of : (v : ℕ → Bool) (s : Sig) → value v (write_of false s).src ≡ value v s
unfolding write_of xor
value-write_of v s = ground arith

pub value-not_sig : (v : ℕ → Bool) (s : Sig) → value v (not_sig s) ≡ not (value v s)
value-not_sig v s = ground arith

-- What `wire_all` adds to the writes of its cell.
unfoldable pub writes : List Sig → List Write
unfolding write_of
writes = map (write_of false)

ins_value-writes : (v : ℕ → Bool) (xs : List Sig) → ins_value v (writes xs) ≡ all_value v xs
unfolding writes
ins_value-writes v [] = refl
ins_value-writes v (x ∷ xs) = ap₂ ◌&&◌ (value-write_of v x) (ins_value-writes v xs)

-- The netlist `n` with one more cell at its end, which has the writes `ws`.
abbrev pub with_cell : Netlist → List Write → Netlist
with_cell n ws = record {
  cells = n.cells ++ record { addr = n.calc_addr; ins = ws; complete = 0 } ∷ [];
  calc_addr = u32 (n.calc_addr + 1);
}

pub cell-eq : (n : Netlist) → cell n ≡ some (length n.cells, with_cell n [])
unfolding cell
cell-eq n = refl

abbrev write_to : Bool → Sig → Cell → Cell
write_to inv s c = record c { ins = c.ins ++ write_of inv s ∷ [] }

pub wire-with_cell :
    (n : Netlist) (ws : List Write) (s : Sig) (inv : Bool)
    → wire (length n.cells) s inv (with_cell n ws)
      ≡ some (tt, with_cell n (ws ++ write_of inv s ∷ []))
unfolding wire write_of
wire-with_cell n ws s inv =
    ap (λ cs. some (tt, record (with_cell n ws) { cells = cs }))
      (modify-append_last n.cells (record { addr = n.calc_addr; ins = ws; complete = 0 })
        (write_to inv s))

wire_all-with_cell :
    (n : Netlist) (ws : List Write) (xs : List Sig)
    → wire_all (length n.cells) xs (with_cell n ws) ≡ some (tt, with_cell n (ws ++ writes xs))
unfolding wire_all writes
wire_all-with_cell n ws [] = rw append-nil
wire_all-with_cell n ws (x ∷ xs) =
    rw (wire-with_cell n ws x false, ◌>>=◌)
      (wire_all-with_cell n (ws ++ write_of false x ∷ []) xs
        ∙ ap (λ l. some (tt, with_cell n l)) (append_assoc ws _ _))

-- One new cell with the writes of a list of signals.
unfoldable pub gate : Bool → List Sig → Build Sig
gate inv xs = do t ← cell; wire_all t xs; pure (record { cell = t; inv = inv })

pub gate-eq :
    (inv : Bool) (xs : List Sig) (n : Netlist)
    → gate inv xs n ≡ some (record { cell = length n.cells; inv = inv }, with_cell n (writes xs))
unfolding gate cell
gate-eq inv xs n = rw (wire_all-with_cell n [] xs, ◌>>=◌)

all_value-map-not_sig :
    (v : ℕ → Bool) (xs : List Sig) → not (all_value v (map not_sig xs)) ≡ any_value v xs
all_value-map-not_sig v [] = refl
all_value-map-not_sig v (x ∷ xs) = ground (arith, value-not_sig v x, all_value-map-not_sig v xs)

-- The XOR out of the two ANDs and the OR.
xor_of_gates :
    (a b hi lo o : Bool)
    → hi ≡ (a && (b && true))
    → lo ≡ (not a && (not b && true))
    → o ≡ (hi || (lo || false))
    → not o ≡ xor a b
unfolding xor
xor_of_gates a b hi lo o eh el eo = ground arith

pub buf_inverted-eq :
    (c : ℕ) (n : Netlist)
    → buf (record { cell = c; inv = true }) n ≡ gate false (record { cell = c; inv = true } ∷ []) n
unfolding buf cell writes
buf_inverted-eq c n =
    rw (gate-eq, wire-with_cell n [] (record { cell = c; inv = true }) false, ◌>>=◌)

module _ (v : ℕ → Bool) where
  -- A cell whose writes are known holds their AND.
  pub Built-with_cell :
      (n : Netlist) (w : Write) (ws : List Write) (inv : Bool)
      → Built v {A = Sig}
          (λ s. s.inv ≡ inv)
          (λ s. v s.cell ≡ ins_value v (w ∷ ws))
          n
          (some (record { cell = length n.cells; inv = inv }, with_cell n (w ∷ ws)))
  Built-with_cell n w ws inv = record {
    result = record { cell = length n.cells; inv = inv };
    after = with_cell n (w ∷ ws);
    returns = refl;
    shape = refl;
    meaning = λ h. (Sat-prefix v n.cells _ h, Sat-last v n.cells _ h);
  }

  gate_lem :
      (inv : Bool) (x : Sig) (xs : List Sig)
      → Builds v (gate inv (x ∷ xs)) (λ s. s.inv ≡ inv) (λ s. v s.cell ≡ all_value v (x ∷ xs))
  unfolding writes
  gate_lem inv x xs n =
      rw (gate-eq inv (x ∷ xs) n, ← ins_value-writes v (x ∷ xs))
        (Built-with_cell n (write_of false x) (map (write_of false) xs) inv)

  -- `andOf`: the AND of one signal or more.
  pub and_of_lem :
      (x : Sig) (xs : List Sig)
      → Builds v (and_of (x ∷ xs)) Any (λ s. value v s ≡ all_value v (x ∷ xs))
  unfolding and_of gate
  and_of_lem x [] = Builds-pure v _ _ x tt (ground arith)
  and_of_lem x (y ∷ xs) =
      Builds-weaken v _ _ _ _ (gate false (x ∷ y ∷ xs)) (gate_lem false x (y ∷ xs)) (λ s r. tt)
        (λ s r h. ground arith)

  -- `orOf`: the OR of two signals or more, read inverted.
  pub or_of_lem :
      (x y : Sig) (xs : List Sig)
      → Builds v
          (or_of (x ∷ y ∷ xs))
          (λ s. s.inv ≡ true)
          (λ s. value v s ≡ any_value v (x ∷ y ∷ xs))
  unfolding or_of gate
  or_of_lem x y xs =
      let big : leb 2 (length (x ∷ y ∷ xs)) ≡ true = ground arith in
      rw big (
        Builds-weaken v _ _ _ _ (gate true (map not_sig (x ∷ y ∷ xs)))
          (gate_lem true (not_sig x) (map not_sig (y ∷ xs))) (λ s r. r)
          (λ s r h. ground (arith, all_value-map-not_sig v (x ∷ y ∷ xs))))

  pub xor_of_lem :
      (a b : Sig)
      → Builds v (xor_of a b) (λ s. s.inv ≡ false) (λ s. value v s ≡ xor (value v a) (value v b))
  unfolding xor_of
  xor_of_lem a b = Builds-bind v _ _ _ _ _ _ (and_of_lem a (b ∷ [])) λ hi _.
      Builds-bind v _ _ _ _ _ _ (and_of_lem (not_sig a) (not_sig b ∷ [])) λ lo _.
        Builds-bind v _ _ _ _ _ _ (or_of_lem hi lo []) λ o r.
          Builds-pure v _ _ (not_sig o) (ground arith) λ eo el eh.
            value-not_sig v o
            ∙ xor_of_gates _ _ _ _ _ eh
                (el ∙ ap₂ ◌&&◌ (value-not_sig v a) (ap (λ t. t && true) (value-not_sig v b))) eo

  buf_cases :
      (c : ℕ) (inv : Bool)
      → let s : Sig = record { cell = c; inv = inv } in
        Builds v (buf s) (λ t. t.inv ≡ false) (λ t. value v t ≡ value v s)
  unfolding buf
  buf_cases c false = Builds-pure v _ _ _ refl refl
  buf_cases c true = λ n. rw (buf_inverted-eq c n) (
      Builds-weaken v _ _ _ _ (gate false (record { cell = c; inv = true } ∷ []))
        (gate_lem false (record { cell = c; inv = true }) []) (λ t r. r) (λ t r h. ground arith) n)

  pub buf_lem : (s : Sig) → Builds v (buf s) (λ t. t.inv ≡ false) (λ t. value v t ≡ value v s)
  buf_lem s = buf_cases s.cell s.inv

  -- For lists of which only the length is known.
  pub and_of_list :
      (xs : List Sig) → 1 ≤ length xs → Builds v (and_of xs) Any (λ s. value v s ≡ all_value v xs)
  and_of_list [] h = absurd (omega arith)
  and_of_list (x ∷ xs) h = and_of_lem x xs

  pub or_of_list :
      (xs : List Sig)
      → 2 ≤ length xs
      → Builds v (or_of xs) (λ s. s.inv ≡ true) (λ s. value v s ≡ any_value v xs)
  or_of_list [] h = absurd (omega arith)
  or_of_list (x ∷ []) h = absurd (omega arith)
  or_of_list (x ∷ y ∷ xs) h = or_of_lem x y xs

  -- An input cell may hold any value.
  pub input_lem : Builds v input Any Any
  unfolding input
  input_lem n = record {
    result = length n.cells;
    after = record {
      cells = n.cells ++ record { addr = n.calc_addr; ins = []; complete = 1 } ∷ [];
      calc_addr = u32 (n.calc_addr + 1);
    };
    returns = refl;
    shape = tt;
    meaning = λ h. (Sat-prefix v n.cells _ h, tt);
  }
