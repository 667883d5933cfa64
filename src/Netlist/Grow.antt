-- ===== src/Netlist/Grow.antt =====
-- What the builder of src/server/ROM.cpp leaves behind: cells at consecutive addresses, each an input or a gate
-- that reads cells before it, and how many of them. `schedule` needs this to come to its end.
use mathlib.Core.List.{append_assoc, append-nil}
use hsq_over_nand.Base.{
  ℕ, zero, suc, ◌+◌, ◌^◌, ◌≤◌, ◌<◌, ◌≡◌, refl, sym, ap, ◌∙◌, ◌⊎◌, inl, inr, Option, some, List, [],
  ◌∷◌, ◌++◌, map, length, length-append, get_or, arith, u32, subst, Option-cases,
}
use hsq_over_nand.Netlist.{Sig, Write, Cell, Netlist, Build, pure, ◌>>=◌}
use hsq_over_nand.Netlist.Gates.{write_of, writes}

-- Every write of a cell reads a cell before `i`.
abbrev pub Earlier : ℕ → List Write → Type 0
Earlier i [] = Unit
Earlier i (w ∷ ws) = (w.src.cell < i) × Earlier i ws

-- An input, or a gate whose sources stand before `k`.
abbrev pub IsInput : Cell → Type 0
IsInput c = (c.complete ≡ 1) × (c.ins ≡ [])

abbrev pub IsGate : ℕ → Cell → Type 0
IsGate k c = (c.complete ≡ 0) × (1 ≤ length c.ins) × Earlier k c.ins

-- The cells from index `k` on, the first of them `k` bytes behind `base`.
abbrev pub Tidy : ℕ → ℕ → List Cell → Type 0
Tidy base k [] = Unit
Tidy base k (c ∷ cs) = (c.addr ≡ base + k) × (IsInput c ⊎ IsGate k c) × Tidy base (k + 1) cs

Tidy-append :
    (base k : ℕ) (xs : List Cell) (c : Cell)
    → Tidy base k xs
    → c.addr ≡ base + k + length xs
    → IsInput c ⊎ IsGate (k + length xs) c
    → Tidy base k (xs ++ c ∷ [])
Tidy-append base k [] c h a i =
    let e : k + 0 ≡ k = omega arith in (omega arith, subst (λ j. IsInput c ⊎ IsGate j c) e i, tt)
Tidy-append base k (x ∷ xs) c h a i =
    let e : k + suc (length xs) ≡ k + 1 + length xs = omega arith in
    (
      h.0,
      h.1,
      Tidy-append base (k + 1) xs c h.2 (omega arith) (subst (λ j. IsInput c ⊎ IsGate j c) e i),
    )

-- The netlist of a page from `base` on.
pub record IsTidy (base : ℕ) (n : Netlist) : Type 0 where
  pub tidy : Tidy base 0 n.cells
  pub counter : n.calc_addr ≡ base + length n.cells

-- The run of a builder from `n` to `n'`: at most `c` cells more, which keep the netlist tidy, and a result in
-- the scope `S` of the cells there are.
pub record Grown (base : ℕ) {A : Type 0} (S : ℕ → A → Type 0) (c : ℕ) (n n' : Netlist) (a : A)
    : Type 0 where
  pub new : List Cell
  pub grown : n'.cells ≡ n.cells ++ new
  pub size : length new ≤ c
  pub tidy : IsTidy base n'
  pub scoped : S (length n'.cells) a

abbrev pub page_end : ℕ
page_end = 2 ^ 31

-- From `lo` cells on, where the page does not run over.
unfoldable pub Grows : ℕ → ℕ → {A : Type 0} → Build A → ℕ → (ℕ → A → Type 0) → Type 0
Grows base lo {A} m c S =
    (n n' : Netlist) (a : A)
    → IsTidy base n
    → lo ≤ length n.cells
    → base + length n.cells + c < page_end
    → m n ≡ some (a, n')
    → Grown base S c n n' a

pub some-pair :
    {A : Type 0} (a a' : A) (n n' : Netlist)
    → ◌≡◌ {A = Option (A × Netlist)} (some (a, n)) (some (a', n'))
    → (a ≡ a') × (n ≡ n')
some-pair a a' n n' h = (cc h, cc h)

pub bind-run :
    {A B : Type 0} (m : Build A) (f : A → Build B) (n : Netlist) (r : B × Netlist)
    → (m >>= f) n ≡ some r
    → (a : A) × (n₁ : Netlist) × (m n ≡ some (a, n₁)) × (f a n₁ ≡ some r)
bind-run m f n r e = elim (Option-cases (m n)) [
  | inl failed ↦ absurd (cc (rw (failed, ◌>>=◌) at e))
  | inr (q, ran) ↦ (q.0, q.1, ran, rw (ran, ◌>>=◌) at e)
]

module _ (base : ℕ) where
  pub Grows-pure :
      (lo : ℕ) {A : Type 0} (a : A) (S : ℕ → A → Type 0)
      → ((k : ℕ) → lo ≤ k → S k a)
      → Grows base lo (pure a) 0 S
  unfolding Grows
  Grows-pure lo a S h n n' a' t le room e =
      let (one, net) = some-pair a a' n n' e in
      rw (← one, ← net)
        (record {
          new = [];
          grown = sym (append-nil n.cells);
          size = omega arith;
          tidy = t;
          scoped = h (length n.cells) le;
        })

  pub Grows-bind :
      (lo : ℕ) {A B : Type 0} (m : Build A) (f : A → Build B) (c c' : ℕ) (S : ℕ → A → Type 0)
      (S' : ℕ → B → Type 0)
      → Grows base lo m c S
      → ((a : A) (k : ℕ) → lo ≤ k → S k a → Grows base k (f a) c' S')
      → Grows base lo (m >>= f) (c + c') S'
  unfolding Grows
  Grows-bind lo m f c c' S S' first rest n n' b t le room e =
      let (a, n₁, e₁, e₂) = bind-run m f n (b, n') e in
      let o = first n n₁ a t le (omega (arith, room)) e₁ in
      let size = length-append n.cells o.new in
      let count : length n₁.cells ≡ length n.cells + length o.new = ap length o.grown ∙ size in
      let q =
        rest a (length n₁.cells) (omega (arith, count, le)) o.scoped n₁ n' b o.tidy (omega arith)
          (omega (arith, count, o.size, room)) e₂ in
      record {
        new = o.new ++ q.new;
        grown = q.grown ∙ ap (λ l. l ++ q.new) o.grown ∙ append_assoc n.cells o.new q.new;
        size = omega (arith, length-append o.new q.new, o.size, q.size);
        tidy = q.tidy;
        scoped = q.scoped;
      }

  pub Grows-weaken :
      (lo lo' c c' : ℕ) {A : Type 0} (m : Build A) (S S' : ℕ → A → Type 0)
      → Grows base lo m c S
      → lo ≤ lo'
      → c ≤ c'
      → ((k : ℕ) (a : A) → lo' ≤ k → S k a → S' k a)
      → Grows base lo' m c' S'
  unfolding Grows
  Grows-weaken lo lo' c c' m S S' g le le' f n n' a t low room e =
      let o = g n n' a t (omega arith) (omega (arith, room)) e in
      let count : length n'.cells ≡ length n.cells + length o.new =
        ap length o.grown ∙ length-append n.cells o.new in
      record {
        new = o.new;
        grown = o.grown;
        size = omega (arith, o.size);
        tidy = o.tidy;
        scoped = f (length n'.cells) a (omega (arith, count, low)) o.scoped;
      }

  -- One cell more.
  pub Grown-cell :
      {A : Type 0} (S : ℕ → A → Type 0) (n : Netlist) (a : A) (ws : List Write) (complete : ℕ)
      → IsTidy base n
      → base + length n.cells + 1 < page_end
      → (let c : Cell = record { addr = n.calc_addr; ins = ws; complete = complete } in
          IsInput c ⊎ IsGate (length n.cells) c)
      → S (length n.cells + 1) a
      → Grown base S 1 n
          (record {
            cells = n.cells ++ record { addr = n.calc_addr; ins = ws; complete = complete } ∷ [];
            calc_addr = u32 (n.calc_addr + 1);
          })
          a
  Grown-cell S n a ws complete t room kind h =
      let c : Cell = record { addr = n.calc_addr; ins = ws; complete = complete } in
      let count : length (n.cells ++ c ∷ []) ≡ length n.cells + 1 =
        length-append n.cells (c ∷ []) in
      let zero' : 0 + length n.cells ≡ length n.cells = omega arith in
      record {
        new = c ∷ [];
        grown = refl;
        size = omega arith;
        tidy = record {
          tidy =
              Tidy-append base 0 n.cells c t.tidy (omega (arith, t.counter))
                (subst (λ j. IsInput c ⊎ IsGate j c) (sym zero') kind);
          counter = omega (arith, t.counter, count, room);
        };
        scoped = subst (λ k. S k a) (sym count) h;
      }

-- A signal, and a list of them, in the scope of `k` cells.
abbrev pub In : ℕ → Sig → Type 0
In k s = s.cell < k

abbrev pub All {ℓ} : {A : Type 0} → (A → Type ℓ) → List A → Type ℓ
All P [] = Unit
All P (a ∷ as') = P a × All P as'

pub All-map :
    {A B : Type 0} (P : A → Type 0) (Q : B → Type 0) (f : A → B) (l : List A)
    → ((a : A) → P a → Q (f a))
    → All P l
    → All Q (map f l)
All-map P Q f [] h a = tt
All-map P Q f (x ∷ l) h a = (h x a.0, All-map P Q f l h a.1)

pub All-weaken :
    {A : Type 0} (P Q : A → Type 0) (l : List A) → ((a : A) → P a → Q a) → All P l → All Q l
All-weaken P Q [] h a = tt
All-weaken P Q (x ∷ l) h a = (h x a.0, All-weaken P Q l h a.1)

pub All-get_or :
    {A : Type 0} (P : A → Type 0) (l : List A) (i : ℕ) (d : A) → P d → All P l → P (get_or l i d)
All-get_or P [] i d h a = h
All-get_or P (x ∷ l) zero d h a = a.0
All-get_or P (x ∷ l) (suc i) d h a = All-get_or P l i d h a.1

pub All-append :
    {A : Type 0} (P : A → Type 0) (xs ys : List A) → All P xs → All P ys → All P (xs ++ ys)
All-append P [] ys a b = b
All-append P (x ∷ xs) ys a b = (a.0, All-append P xs ys a.1 b)

pub Earlier-writes : (k : ℕ) (xs : List Sig) → All (In k) xs → Earlier k (writes xs)
unfolding writes write_of
Earlier-writes k [] h = tt
Earlier-writes k (x ∷ xs) h = (h.0, Earlier-writes k xs h.1)
