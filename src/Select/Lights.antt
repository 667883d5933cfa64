-- ===== src/Select/Lights.antt =====
-- The LEDs of `nandInterface` (include/nandInterface.hpp): dark between accesses, and never driven beside
-- the HAT, whose bus shares their pins.
use hsq_over_nand.Base.{
  ℕ, ◌≡◌, ◌≢◌, ◌∙◌, Bool, true, false, Option, none, some, Bool-cases, inl, inr, arith,
}
use hsq_over_nand.Nand.{Buffer}
use hsq_over_nand.Cpu.{update}
use hsq_over_nand.Select.{
  Kind, Board, Shared, Interface, led, erase, read, write, led_read, led_write, led_erase,
}

-- `lit` is what a pin was last driven to. The backends leave the pins alone, but for the HAT, whose bus has
-- pins in common with the LEDs.
pub record Pins (B : Board) : Type 0 where
  pub lit : B.World → ℕ → Bool
  pub drive_lit :
      (pin p : ℕ) (t : Bool) (w : B.World) → lit (B.set_drive pin t w) p ≡ update (lit w) pin t p
  pub erase_lit :
      (k : Kind) (o n p : ℕ) (w : B.World)
      → k ≢ Kind.hat
      → lit (B.erase_device k o n w).1 p ≡ lit w p
  pub read_lit :
      (k : Kind) (o : ℕ) (b : Buffer) (n p : ℕ) (w : B.World)
      → k ≢ Kind.hat
      → lit (B.read_device k o b n w).2 p ≡ lit w p
  pub write_lit :
      (k : Kind) (o : ℕ) (b : Buffer) (n p : ℕ) (w : B.World)
      → k ≢ Kind.hat
      → lit (B.write_device k o b n w).1 p ≡ lit w p

module _ (B : Board) (P : Pins B) where
  abbrev pub Dark : B.World → Type 0
  Dark w = (p : ℕ) → P.lit w p ≡ false

  -- A call between a pin's two drives.
  bracket-Dark :
      (n : Interface) (pin : ℕ) (w v : B.World)
      → Dark w
      → ((p : ℕ) → P.lit v p ≡ P.lit (led B n pin true w) p)
      → Dark (led B n pin false v)
  unfolding led
  bracket-Dark n pin w v h e p = elim (Bool-cases n.led_ok) [
    | inl g ↦
        let f : P.lit v p ≡ update (P.lit w) pin true p =
          (rw g at (e p)) ∙ P.drive_lit pin p true w in
        rw g (P.drive_lit pin p false v ∙ ground (arith, f, h p))
    | inr g ↦ let f : P.lit v p ≡ P.lit w p = (rw g at (e p)) in rw g (f ∙ h p)
  ]

  -- An access of a device that is no HAT leaves no LED lit, whether it succeeds or fails, where none was lit
  -- before it and the backends other than that of the HAT leave the pins alone.
  pub access-Dark :
      (n : Interface) (offset : ℕ) (b : Buffer) (length : ℕ) (w : B.World)
      → n.kind ≢ Kind.hat
      → Dark w
      → Dark (erase B n offset length w).1
        × Dark (read B n offset b length w).2
        × Dark (write B n offset b length w).1
  unfolding erase read write
  access-Dark n offset b length w other h =
      let e = led B n led_erase true w in
      let r = led B n led_read true w in
      let p = led B n led_write true w in
      (
        bracket-Dark n led_erase w (B.erase_device n.kind offset length e).1 h
            (λ i. P.erase_lit n.kind offset length i e other),
        bracket-Dark n led_read w (B.read_device n.kind offset b length r).2 h
            (λ i. P.read_lit n.kind offset b length i r other),
        bracket-Dark n led_write w (B.write_device n.kind offset b length p).1 h
            (λ i. P.write_lit n.kind offset b length i p other),
      )

-- A device that the constructor has made of the HAT touches no LED: its accesses are those of the HAT.
abbrev pub Silent : (B : Board) → Interface → Type 0
Silent B n =
    (offset length : ℕ) (b : Buffer) (w : B.World)
    → (erase B n offset length w ≡ B.erase_device Kind.hat offset length w)
      × (read B n offset b length w ≡ B.read_device Kind.hat offset b length w)
      × (write B n offset b length w ≡ B.write_device Kind.hat offset b length w)

abbrev plain : Interface
plain = record { kind = Kind.hat; led_ok = false }

abbrev made : (B : Board) → Option (Interface × Shared × B.World) → Interface
made B none = plain
made B (some r) = r.0
