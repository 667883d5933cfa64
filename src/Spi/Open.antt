-- ===== src/Spi/Open.antt =====
-- `w25n_spi_open` and `w25n_spi_close` of src/spi/w25n_spidev.c: no block and no descriptor is lost.
use hsq_over_nand.Base.{
  ℕ, ◌+◌, ◌≡◌, refl, sym, true, false, Option, none, some, List, ◌==◌, if◌then◌else◌, Bool-cases,
  inl, inr, arith, ap, ◌∙◌,
}
use hsq_over_nand.Spi.{SpiDev, configure, opened, spi_open, spi_close}
use hsq_over_nand.Spi.System.{Bus, Counts}

module _ (B : Bus) (H : Counts B) where
  -- As many blocks are held, and the same descriptors are open.
  pub record Same (before w : B.World) : Type 0 where
    pub blocks : H.blocks w ≡ H.blocks before
    pub opens : (p : ℕ) → H.is_open w p ≡ H.is_open before p

  -- One block more is held, and the descriptor `fd`, which was not open before, is open as well.
  pub record Holds (fd : ℕ) (before w : B.World) : Type 0 where
    pub blocks : H.blocks w ≡ H.blocks before + 1
    pub new : H.is_open before fd ≡ false
    pub opens : (p : ℕ) → H.is_open w p ≡ (if p == fd then true else H.is_open before p)

  -- What a result of `w25n_spi_open` holds: a block and the descriptor of the device, or nothing.
  abbrev pub Opens : B.World → (Option SpiDev × B.World) → Type 0
  Opens before r = elim r.0 [ none ↦ Same before r.1 | some d ↦ Holds d.fd before r.1 ]

  -- A device whose mode, word length or speed cannot be set is given back.
  given_back :
      (fd : ℕ) (before w : B.World) → Holds fd before w → Same before (B.free (B.close_fd fd w))
  given_back fd before w h =
      let v = B.close_fd fd w in
      let c = H.close_blocks fd w in
      record {
        blocks = omega (arith, c, h.blocks, H.free_blocks v (omega (arith, c, h.blocks)));
        opens = λ p. H.free_open v p ∙ H.close_closes fd p w ∙ elim (Bool-cases (p == fd)) [
          | inr e ↦ rw e (h.opens p ∙ rw e refl)
          | inl e ↦
              let here : p ≡ fd = ground (arith, e) in
              rw e (sym h.new ∙ ap (H.is_open before) (sym here))
        ];
      }

  keeps :
      (fd : ℕ) (before w v : B.World)
      → H.blocks v ≡ H.blocks w
      → ((p : ℕ) → H.is_open v p ≡ H.is_open w p)
      → Holds fd before w
      → Holds fd before v
  keeps fd before w v b o h = record {
    blocks = b ∙ h.blocks;
    new = h.new;
    opens = λ p. o p ∙ h.opens p;
  }

  configure-Opens :
      (fd speed_hz : ℕ) (before w : B.World)
      → Holds fd before w
      → Opens before (configure B fd speed_hz w)
  unfolding configure
  configure-Opens fd speed_hz before w h =
      let m = B.set_mode fd 0 w in
      let b = B.set_bits fd 8 m.1 in
      let s = B.set_speed fd speed_hz b.1 in
      let hm = keeps fd before w m.1 (H.mode_blocks fd 0 w) (λ p. H.mode_open fd 0 p w) h in
      let hb = keeps fd before m.1 b.1 (H.bits_blocks fd 8 m.1) (λ p. H.bits_open fd 8 p m.1) hm in
      let hs =
        keeps fd before b.1 s.1 (H.speed_blocks fd speed_hz b.1)
          (λ p. H.speed_open fd speed_hz p b.1) hb in
      elim (Bool-cases m.0) [
        | inr g ↦ rw g (given_back fd before m.1 hm)
        | inl g ↦ elim (Bool-cases b.0) [
          | inr k ↦ rw (g, k) (given_back fd before b.1 hb)
          | inl k ↦ elim (Bool-cases s.0) [
            | inr l ↦ rw (g, k, l) (given_back fd before s.1 hs)
            | inl l ↦ rw (g, k, l) hs
          ]
        ]
      ]

  -- The descriptor is asked for when the block is there.
  opened-Opens :
      (o : Option ℕ) (path : List ℕ) (speed_hz : ℕ) (before w : B.World)
      → (B.open_fd path w).0 ≡ o
      → H.blocks w ≡ H.blocks before + 1
      → ((p : ℕ) → H.is_open w p ≡ H.is_open before p)
      → Opens before (opened B o speed_hz (B.open_fd path w).1)
  unfolding opened
  opened-Opens none path speed_hz before w e b o =
      let v = (B.open_fd path w).1 in
      let c = H.open_blocks path w in
      record {
        blocks = omega (arith, b, c, H.free_blocks v (omega (arith, b, c)));
        opens = λ p. H.free_open v p ∙ H.open_fails path w p e ∙ o p;
      }
  opened-Opens (some fd) path speed_hz before w e b o =
      configure-Opens fd speed_hz before (B.open_fd path w).1 (record {
        blocks = H.open_blocks path w ∙ b;
        new = sym (o fd) ∙ H.open_new path w fd e;
        opens = λ p. H.open_opens path w fd p e ∙ ap (λ t. if p == fd then true else t) (o p);
      })

  -- Where the calls of the kernel hold and give back what they are documented to, `w25n_spi_open` holds one
  -- memory block more and one descriptor more, that of the device, when it succeeds; when it fails, at
  -- whichever of its calls, it holds as many blocks as before and has the same descriptors open.
  pub spi_open-Opens :
      (path : List ℕ) (speed_hz : ℕ) (w : B.World) → Opens w (spi_open B path speed_hz w)
  unfolding spi_open
  spi_open-Opens path speed_hz w =
      let a = B.calloc w in
      elim (Bool-cases a.0) [
        | inl e ↦
            let h : H.blocks a.1 ≡ H.blocks w + 1 = H.calloc_blocks w ∙ (rw e refl) in
            rw e (opened-Opens (B.open_fd path a.1).0 path speed_hz w a.1 refl h (H.calloc_open w))
        | inr e ↦
            rw e (record { blocks = H.calloc_blocks w ∙ (rw e refl); opens = H.calloc_open w })
      ]

  -- Closing an opened device gives back what it holds.
  pub spi_close-closes :
      (d : SpiDev) (before w : B.World) → Holds d.fd before w → Same before (spi_close B d w)
  unfolding spi_close
  spi_close-closes d before w h = given_back d.fd before w h
