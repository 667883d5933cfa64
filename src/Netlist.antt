-- ===== src/Netlist.antt =====
-- `struct Sig`, `Write`, `Cell` and `class Netlist` of src/server/ROM.cpp: the builder of the gate
-- network, one flash byte to a cell. A method takes the netlist and returns its result with the new
-- netlist; `none` is a failed assertion.
pub mod Meaning
pub mod Gates
pub mod Check
pub mod Grow
pub mod GrowGates
use hsq_over_nand.Base.{
  ℕ, ◌+◌, Bool, true, false, not, xor, Option, none, some, List, [], ◌∷◌, ◌++◌, map, length,
  get_elem?, modify, leb, u32, assert,
}

-- A signal: the cell, and whether it is read inverted.
pub record Sig : Type 0 where
  pub cell : ℕ
  pub inv : Bool

abbrev pub not_sig : Sig → Sig
not_sig s = record s { inv = not s.inv }

-- The steps that the source counts from -1 (not scheduled yet) are counted from 0 here: no write
-- and no cell ever has step 0, and the code compares them only with 0, 1 and one another.
abbrev pub unscheduled : ℕ
unscheduled = 0

pub record Write : Type 0 where
  pub src : Sig
  pub step : ℕ

pub record Cell : Type 0 where
  pub addr : ℕ
  pub ins : List Write
  pub complete : ℕ

-- The vector `cells`, with the global `calcAddr` that `getCalcAddr` counts up.
pub record Netlist : Type 0 where
  pub cells : List Cell
  pub calc_addr : ℕ

abbrev pub Build : Type 0 → Type 0
Build A = Netlist → Option (A × Netlist)

abbrev pub pure : {A : Type 0} → A → Build A
pure a n = some (a, n)

infixl 5 ◌>>=◌ ◌>>◌
abbrev pub ◌>>=◌ : {A B : Type 0} → Build A → (A → Build B) → Build B
◌>>=◌ m f n = elim (m n) [ none ↦ none | some (a, n') ↦ f a n' ]

abbrev pub ◌>>◌ : {B : Type 0} → Build (Unit {0}) → Build B → Build B
m >> k = m >>= λ _. k

-- `cells.push_back({getCalcAddr(), {}, complete}); return cells.size() - 1;`
unfoldable pub push_cell : ℕ → Build ℕ
push_cell complete n = some (
  length n.cells,
  record {
    cells = n.cells ++ record { addr = n.calc_addr; ins = []; complete = complete } ∷ [];
    calc_addr = u32 (n.calc_addr + 1);
  },
)

unfoldable pub input : Build ℕ
unfolding push_cell
input = push_cell 1

unfoldable pub cell : Build ℕ
unfolding push_cell
cell = push_cell unscheduled

unfoldable pub wire : ℕ → Sig → Bool → Build (Unit {0})
wire dst src inv n =
    let w : Write = record { src = record src { inv = xor src.inv inv }; step = unscheduled } in
    some (tt, record n { cells = modify n.cells dst (λ c. record c { ins = c.ins ++ w ∷ [] }) })

-- The loop `for(...) wire(t, xs[i]);`.
unfoldable pub wire_all : ℕ → List Sig → Build (Unit {0})
wire_all t [] = pure tt
wire_all t (x ∷ xs) = do wire t x false; wire_all t xs

unfoldable pub and_of : List Sig → Build Sig
unfolding wire_all
and_of [] n = none
and_of (x ∷ []) n = some (x, n)
and_of (x ∷ y ∷ xs) n =
    (do t ← cell; wire_all t (x ∷ y ∷ xs); pure (record { cell = t; inv = false })) n

-- `orOf` wires the negated inputs and reads the cell inverted.
unfoldable pub or_of : List Sig → Build Sig
unfolding wire_all
or_of xs n =
    assert (leb 2 (length xs))
      ((do t ← cell; wire_all t (map not_sig xs); pure (record { cell = t; inv = true })) n)

unfoldable pub xor_of : Sig → Sig → Build Sig
xor_of a b = do
  hi ← and_of (a ∷ b ∷ [])
  lo ← and_of (not_sig a ∷ not_sig b ∷ [])
  o ← or_of (hi ∷ lo ∷ [])
  pure (not_sig o)

unfoldable pub buf : Sig → Build Sig
buf s = elim s.inv [
  | false ↦ pure s
  | true ↦ do t ← cell; wire t s false; pure (record { cell = t; inv = false })
]

-- `addrOf`: only a signal that is read as it stands has an address.
unfoldable pub addr_of : List Cell → Sig → Option ℕ
addr_of cells s =
    assert (not s.inv) (elim (get_elem? cells s.cell) [ none ↦ none | some c ↦ some c.addr ])
