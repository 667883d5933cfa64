-- ===== src/Lane/Inputs.antt =====
-- The inputs of `build_lane` (src/server/ROM.cpp): `ain[i]` and `bin[i]` are made in turn, before all gates.
use mathlib.Core.List.{append_assoc, append-nil}
use hsq_over_nand.Base.{
  ℕ, zero, suc, ◌+◌, ◌*◌, ◌≤◌, ◌<◌, ◌≡◌, refl, sym, ap, ◌∙◌, some, List, [], ◌∷◌, ◌++◌, map, length,
  length-append, get_or, arith, u32,
}
use hsq_over_nand.Netlist.{Netlist, Cell, ◌>>=◌, input}
use hsq_over_nand.Netlist.Grow.{IsTidy, IsInput, In, Grows, All, bind-run, some-pair, page_end}
use hsq_over_nand.Lane.{Lane, collect, input_pair, build_lane, index_at}
use hsq_over_nand.Lane.Grow.{collect-Grows}
use hsq_over_nand.Lane.GrowLane.{
  Places, input_pair-Grows, behind_inputs, build_lane-inputs, behind_inputs-Grows,
}

-- The indices of `m` pairs of cells from `k` on.
pub pairs : ℕ → ℕ → List (ℕ × ℕ)
pairs k zero = []
pairs k (suc m) = (k, k + 1) ∷ pairs (k + 2) m

abbrev with_input : Netlist → Netlist
with_input n = record {
  cells = n.cells ++ record { addr = n.calc_addr; ins = []; complete = 1 } ∷ [];
  calc_addr = u32 (n.calc_addr + 1);
}

-- What the first loop leaves: pairs of new inputs.
record Entered (m : ℕ) (n n' : Netlist) (l : List (ℕ × ℕ)) : Type 0 where
  new : List Cell
  grown : n'.cells ≡ n.cells ++ new
  size : length new ≡ m + m
  all : All IsInput new
  indices : l ≡ pairs (length n.cells) m

collect-Entered :
    (m i : ℕ) (n : Netlist)
    → (l : List (ℕ × ℕ)) × (n' : Netlist) × (collect m i (λ j. input_pair) n ≡ some (l, n'))
      × Entered m n n' l
unfolding collect input pairs
collect-Entered zero i n = (
  [],
  n,
  refl,
  record { new = []; grown = sym (append-nil n.cells); size = refl; all = tt; indices = refl },
)
collect-Entered (suc m) i n =
    let n₁ = with_input n in
    let n₂ = with_input n₁ in
    let c₁ : Cell = record { addr = n.calc_addr; ins = []; complete = 1 } in
    let c₂ : Cell = record { addr = n₁.calc_addr; ins = []; complete = 1 } in
    let (l, n', e, E) = collect-Entered m (i + 1) n₂ in
    let one' : length n₁.cells ≡ length n.cells + 1 = length-append n.cells (c₁ ∷ []) in
    let two : length n₂.cells ≡ length n.cells + 2 =
      omega (arith, length-append n₁.cells (c₂ ∷ []), one') in
    (
      (length n.cells, length n₁.cells) ∷ l,
      n',
      rw (e, ◌>>=◌) refl,
      record {
        new = c₁ ∷ (c₂ ∷ E.new);
        grown =
            E.grown
            ∙ append_assoc n₁.cells (c₂ ∷ []) E.new
            ∙ append_assoc n.cells (c₁ ∷ []) (c₂ ∷ E.new);
        size = omega (arith, E.size);
        all = ((refl, refl), ((refl, refl), E.all));
        indices = rw (one', E.indices, two) refl;
      },
    )

pub pairs-at :
    (m k i : ℕ)
    → i < m
    → (index_at (map (λ q. q.0) (pairs k m)) i ≡ k + 2 * i)
      × (index_at (map (λ q. q.1) (pairs k m)) i ≡ k + 2 * i + 1)
unfolding pairs
pairs-at zero k i lt = absurd (omega arith)
pairs-at (suc m) k zero lt = (omega arith, omega arith)
pairs-at (suc m) k (suc i) lt =
    let (a, b) = pairs-at m (k + 2) i (omega arith) in (omega (arith, a), omega (arith, b))

pairs-Places : (m k j : ℕ) → k + (m + m) ≤ j → All (Places j) (pairs k m)
unfolding pairs
pairs-Places zero k j le = tt
pairs-Places (suc m) k j le = ((omega arith, omega arith), pairs-Places m (k + 2) j (omega arith))

-- The cells at the end of a list whose new cells are all inputs.
All-at :
    (P : Cell → Type 0) (xs ys : List Cell) (zs : List Cell) (j : ℕ) (d : Cell)
    → All P ys
    → length xs ≤ j
    → j < length xs + length ys
    → P (get_or (xs ++ (ys ++ zs)) j d)
All-at P [] [] zs j d h le lt = absurd (omega arith)
All-at P [] (y ∷ ys) zs zero d h le lt = h.0
All-at P [] (y ∷ ys) zs (suc j) d h le lt = All-at P [] ys zs j d h.1 (omega arith) (omega arith)
All-at P (x ∷ xs) ys zs zero d h le lt = absurd (omega arith)
All-at P (x ∷ xs) ys zs (suc j) d h le lt = All-at P xs ys zs j d h (omega arith) (omega arith)

-- A lane that was built in the netlist `n`: its 128 inputs stand first, then its gates.
pub record LaneBuilt (base : ℕ) (n n' : Netlist) (l : Lane) : Type 0 where
  pub new : List Cell
  pub grown : n'.cells ≡ n.cells ++ new
  pub size : length new ≤ 1024
  pub many : 128 ≤ length new
  pub tidy : IsTidy base n'
  pub sums_in : All (In (length n'.cells)) l.sum
  pub jump_in : In (length n'.cells) l.is_jmp
  pub ain : (i : ℕ) → i < 64 → index_at l.ain i ≡ length n.cells + 2 * i
  pub bin : (i : ℕ) → i < 64 → index_at l.bin i ≡ length n.cells + 2 * i + 1
  pub inputs :
      (j : ℕ)
      → length n.cells ≤ j
      → j < length n.cells + 128
      → (get_or n'.cells j (record { addr = 0; ins = []; complete = 0 })).ins ≡ []

pub build_lane-LaneBuilt :
    (base : ℕ) (n n' : Netlist) (l : Lane)
    → IsTidy base n
    → base + length n.cells + 1024 < page_end
    → build_lane n ≡ some (l, n')
    → LaneBuilt base n n' l
unfolding Grows
build_lane-LaneBuilt base n n' l t room e =
    let e' = ap (λ m. m n) (sym (build_lane-inputs base)) ∙ e in
    let (ins, n₁, e₁, e₂) =
      bind-run (collect 64 0 (λ i. input_pair)) (behind_inputs base) n (l, n') e' in
    let (ins', n₁', e₃, E) = collect-Entered 64 0 n in
    let (same, net) = some-pair ins' ins n₁' n₁ (sym e₃ ∙ e₁) in
    let O =
      collect-Grows base (λ i. input_pair) 2 Places
        (λ k j a le q. (omega (arith, q), omega (arith, q))) 64 0 0
        (λ k j le low high. input_pair-Grows base k) n n₁ ins t (omega arith) (omega (arith, room))
        e₁ in
    let cells₁ : n₁.cells ≡ n.cells ++ E.new = ap (λ m. m.cells) (sym net) ∙ E.grown in
    let count : length n₁.cells ≡ length n.cells + 128 =
      omega (arith, ap length cells₁, length-append n.cells E.new, E.size) in
    let G =
      behind_inputs-Grows base ins (length n₁.cells) (omega (arith, count)) O.scoped n₁ n' l O.tidy
        (omega arith) (omega (arith, count, room)) e₂ in
    let indices : ins ≡ pairs (length n.cells) 64 = sym same ∙ E.indices in
    let all : n'.cells ≡ n.cells ++ (E.new ++ G.new) =
      G.grown ∙ ap (λ c. c ++ G.new) cells₁ ∙ append_assoc n.cells E.new G.new in
    let sum = length-append E.new G.new in
    record {
      new = E.new ++ G.new;
      grown = all;
      size = omega (arith, sum, E.size, G.size);
      many = omega (arith, sum, E.size);
      tidy = G.tidy;
      sums_in = G.scoped.0;
      jump_in = G.scoped.1;
      ain = λ i lt.
          ap (λ xs. index_at xs i) G.scoped.2
          ∙ ap (λ ps. index_at (map (λ q. q.0) ps) i) indices
          ∙ (pairs-at 64 (length n.cells) i lt).0;
      bin = λ i lt.
          ap (λ xs. index_at xs i) G.scoped.3
          ∙ ap (λ ps. index_at (map (λ q. q.1) ps) i) indices
          ∙ (pairs-at 64 (length n.cells) i lt).1;
      inputs = λ j le lt.
          let d : Cell = record { addr = 0; ins = []; complete = 0 } in
          ap (λ cs. (get_or cs j d).ins) all
          ∙ (All-at IsInput n.cells E.new G.new j d E.all le (omega (arith, lt, E.size))).1;
    }
