-- ===== src/Netlist/Meaning.antt =====
-- What a netlist says of the values of its cells: every cell with inputs holds the AND of what is
-- written to it. A program part is described by the netlists that it leaves (`Built`).
use hsq_over_nand.Base.{
  ℕ, ◌≡◌, refl, Bool, true, not, ◌&&◌, Option, some, List, [], ◌∷◌, ◌++◌, length, get_elem?,
  get_elem?-append, get_elem?-append_last, if◌then◌else◌,
}
use hsq_over_nand.Netlist.{Sig, Write, Cell, Netlist, Build, pure, ◌>>=◌}

-- The value of a signal where the cells hold the values `v`.
abbrev pub value : (ℕ → Bool) → Sig → Bool
value v s = if s.inv then not (v s.cell) else v s.cell

-- The AND of all writes.
abbrev pub ins_value : (ℕ → Bool) → List Write → Bool
ins_value v [] = true
ins_value v (w ∷ ws) = value v w.src && ins_value v ws

-- A cell with no writes is an input, of any value.
abbrev pub Holds : (ℕ → Bool) → ℕ → List Write → Type 0
Holds v i [] = Unit
Holds v i (w ∷ ws) = v i ≡ ins_value v (w ∷ ws)

abbrev pub Sat : (ℕ → Bool) → List Cell → Type 0
Sat v cells = (i : ℕ) (c : Cell) → get_elem? cells i ≡ some c → Holds v i c.ins

pub Sat-prefix : (v : ℕ → Bool) (xs ys : List Cell) → Sat v (xs ++ ys) → Sat v xs
Sat-prefix v xs ys h i c e = h i c (get_elem?-append xs ys i c e)

pub Sat-last :
    (v : ℕ → Bool) (xs : List Cell) (c : Cell) → Sat v (xs ++ c ∷ []) → Holds v (length xs) c.ins
Sat-last v xs c h = h (length xs) c (get_elem?-append_last xs c)

-- The run of a builder at the netlist `n` succeeds; its result has the shape `R`, and wherever the
-- new netlist is satisfied, so is `n`, and the result means `P`.
pub record Built (v : ℕ → Bool) {A : Type 0} (R P : A → Type 0) (n : Netlist)
    (o : Option (A × Netlist)) : Type 0 where
  pub result : A
  pub after : Netlist
  pub returns : o ≡ some (result, after)
  pub shape : R result
  pub meaning : Sat v after.cells → Sat v n.cells × P result

abbrev pub Builds : (ℕ → Bool) → {A : Type 0} → Build A → (R P : A → Type 0) → Type 0
Builds v m R P = (n : Netlist) → Built v R P n (m n)

-- No shape is stated.
abbrev pub Any : {A : Type 0} → A → Type 0
Any a = Unit

module _ (v : ℕ → Bool) {A : Type 0} where
  pub Builds-pure : (R P : A → Type 0) (a : A) → R a → P a → Builds v (pure a) R P
  Builds-pure R P a r p n = record {
    result = a;
    after = n;
    returns = refl;
    shape = r;
    meaning = λ h. (h, p);
  }

  pub Builds-weaken :
      (R P R' Q : A → Type 0) (m : Build A)
      → Builds v m R P
      → ((a : A) → R a → R' a)
      → ((a : A) → R a → P a → Q a)
      → Builds v m R' Q
  Builds-weaken R P R' Q m b g f n = record {
    result = o.result;
    after = o.after;
    returns = o.returns;
    shape = g o.result o.shape;
    meaning = λ h. let (s, p) = o.meaning h in (s, f o.result o.shape p);
  }
    where
      o : Built v R P n (m n)
      o = b n

-- The rest of a chain may use the shape of the first result, and its meaning under the premise
-- that the netlist is satisfied.
pub Builds-bind :
    (v : ℕ → Bool) {A B : Type 0} (R P : A → Type 0) (R' Q : B → Type 0) (m : Build A)
    (f : A → Build B)
    → Builds v m R P
    → ((a : A) → R a → Builds v (f a) R' (λ b. P a → Q b))
    → Builds v (m >>= f) R' Q
Builds-bind v R P R' Q m f first rest n = record {
  result = t.result;
  after = t.after;
  returns = rw (o.returns, ◌>>=◌) t.returns;
  shape = t.shape;
  meaning = λ h. let (s, q) = t.meaning h in let (s', p) = o.meaning s in (s', q p);
}
  where
    o : Built v R P n (m n)
    o = first n

    t : Built v R' (λ b. P o.result → Q b) o.after (f o.result o.after)
    t = rest o.result o.shape o.after

-- What a chain means, at the netlist that it leaves.
pub Builds-result :
    (v : ℕ → Bool) {A : Type 0} (R P : A → Type 0) (m : Build A) (n n' : Netlist) (a : A)
    → Builds v m R P
    → m n ≡ some (a, n')
    → Sat v n'.cells
    → R a × P a
Builds-result v R P m n n' a b e h =
    let one : a ≡ o.result = cc (e, o.returns) in
    let net : n' ≡ o.after = cc (e, o.returns) in rw one (o.shape, (o.meaning (rw (← net) h)).1)
  where
    o : Built v R P n (m n)
    o = b n
