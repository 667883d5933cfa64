-- ===== src/Flash/Bad.antt =====
-- `isBadBlock` and `isGroupGood` of include/W25NSpiFlashDevice.hpp on chips that work.
use hsq_over_nand.Base.{
  ℕ, zero, suc, ◌+◌, ◌*◌, ◌<◌, ◌≡◌, refl, ap, ◌∙◌, Bool, true, false, not, ◌==◌, ◌&&◌, u32,
  Bool-cases, inl, inr, arith,
}
use hsq_over_nand.Cpu.{update}
use hsq_over_nand.Flash.{Chips, is_bad_block, is_group_good}
use hsq_over_nand.Flash.Address.{whole, whole-same}
use hsq_over_nand.Flash.Contract.{Driver, Works, page_size, block_pages, num_blocks}

module _ {C : Driver} (W : Works C) (n : ℕ) where
  -- The marks of `m` chips from `i` on, in the block `group`.
  unfoldable pub marks : ℕ → ℕ → ℕ → Chips C n → Bool
  marks zero i group ds = true
  marks (suc m) i group ds =
      (W.spare (ds i) (group * block_pages) == 0xff) && marks m (i + 1) group ds

  pub marks-update :
      (m i c group : ℕ) (ds : Chips C n) (d : C.Dev)
      → c < i
      → marks m i group (update ds c d) ≡ marks m i group ds
  unfolding marks
  marks-update zero i c group ds d h = refl
  marks-update (suc m) i c group ds d h =
      let e : (c == i) ≡ false = ground arith in
      rw e (
        ap (λ t. (W.spare (ds i) (group * block_pages) == 0xff) && t)
          (marks-update m (i + 1) c group ds d (omega arith)))

  pub is_bad_block_lem :
      (i block : ℕ) (ds : Chips C n)
      → block < num_blocks
      → ((is_bad_block C n i block ds).0 ≡ not (W.spare (ds i) (block * block_pages) == 0xff))
        × ((a : ℕ) → whole W n (is_bad_block C n i block ds).1 a ≡ whole W n ds a)
        × (is_bad_block C n i block ds).1
          ≡ update ds i
              (C.read_buf
                (C.page_read (ds i) (u32 (block * block_pages))).1
                page_size
                (λ j. 0xff)
                1).2
  unfolding is_bad_block
  is_bad_block_lem i block ds h =
      let page = block * block_pages in
      let w : u32 page ≡ page = omega arith in
      let r = W.page_read_lem (ds i) page (omega arith) in
      let t = W.spare_lem (ds i) page (λ j. 0xff) (omega arith) in
      let d = (C.read_buf (C.page_read (ds i) page).1 page_size (λ j. 0xff) 1).2 in
      rw (w, r.0, t.0, t.1) (refl, λ a. whole-same W n ds i d t.2 a, refl)

  is_group_good_from :
      (m i group : ℕ) (ds : Chips C n)
      → group < num_blocks
      → ((is_group_good C n m i group ds).0 ≡ marks m i group ds)
        × ((a : ℕ) → whole W n (is_group_good C n m i group ds).1 a ≡ whole W n ds a)
  unfolding is_group_good marks
  is_group_good_from zero i group ds h = (refl, λ a. refl)
  is_group_good_from (suc m) i group ds h =
      let b = is_bad_block_lem i group ds h in
      let ds' = (is_bad_block C n i group ds).1 in
      let q = is_group_good_from m (i + 1) group ds' h in
      let d =
        (C.read_buf (C.page_read (ds i) (u32 (group * block_pages))).1 page_size (λ j. 0xff) 1).2 in
      let same : marks m (i + 1) group ds' ≡ marks m (i + 1) group ds =
        ap (marks m (i + 1) group) b.2 ∙ marks-update m (i + 1) i group ds d (omega arith) in
      elim (Bool-cases (W.spare (ds i) (group * block_pages) == 0xff)) [
        | inl e ↦
            let e' : (is_bad_block C n i group ds).0 ≡ false = b.0 ∙ (rw e refl) in
            (rw (e, e') (q.0 ∙ same), λ a. rw e' (q.1 a ∙ b.1 a))
        | inr e ↦
            let e' : (is_bad_block C n i group ds).0 ≡ true = b.0 ∙ (rw e refl) in
            (rw (e, e') refl, λ a. rw e' (b.1 a))
      ]

  -- On chips that work, and for a block that they have, `isGroupGood` says whether the mark in
  -- the spare area of the first page of the block is 0xff on every chip, and changes no cell.
  pub is_group_good_lem :
      (group : ℕ) (ds : Chips C n)
      → group < num_blocks
      → ((is_group_good C n n 0 group ds).0 ≡ marks n 0 group ds)
        × ((a : ℕ) → whole W n (is_group_good C n n 0 group ds).1 a ≡ whole W n ds a)
  is_group_good_lem group ds h = is_group_good_from n 0 group ds h
