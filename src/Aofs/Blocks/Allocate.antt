-- ===== src/Aofs/Blocks/Allocate.antt =====
-- What allocate_block claims, and what deallocate_block gives back.
use free_bsd_messaround.Prelude.{
  ℕ, ◌≤◌, ◌<◌, ◌≡◌, refl, Option, none, some, ◌==◌, if◌then◌else◌, ℤ, pos, negsuc, arith, update,
  lt→ltb,
}
use free_bsd_messaround.Aofs.Bitmap.{IsBytes, bit_at, set_bit, clear_bit}
use free_bsd_messaround.Aofs.Bitmap.Laws.{
  FirstFree, find_free_bit-FirstFree, bit_at-set_bit, bit_at-clear_bit, set_bit-IsBytes,
  clear_bit-IsBytes,
}
use free_bsd_messaround.Aofs.Disk.{
  Block, Disk, Environment, Out, done, outside, spins, read_block, write_block, block_num,
}
use free_bsd_messaround.Aofs.Blocks.{
  clear_block, fresh_block, claim, allocate_block, deallocate_block,
}

-- The bitmap holds bytes, and the superblock counts no more blocks than the image has.
pub record IsSound (d : Disk) : Type 0 where
  pub bytes : IsBytes d.sb.bitmap
  pub within : d.sb.totalblocks ≤ block_num

-- Block `n` was free, is now taken and holds `b`; all else is as before.
pub record Claims (n : ℕ) (b : Block) (d d' : Disk) : Type 0 where
  pub below : n < d.sb.totalblocks
  pub was_free : bit_at d.sb.bitmap n ≡ 0
  pub bits : (j : ℕ) → bit_at d'.sb.bitmap j ≡ (if j == n then 1 else bit_at d.sb.bitmap j)
  pub contents : (j : ℕ) → d'.blocks j ≡ (if j == n then b else d.blocks j)
  pub sound : IsSound d'

abbrev pub Allocated : Environment → Disk → Out ℤ → Type 0
Allocated e d (done (pos n) d') = Claims n (fresh_block e) d d'
Allocated e d (done (negsuc k) d') =
    (k ≡ 0) × (d' ≡ d) × ((j : ℕ) → j < d.sb.totalblocks → bit_at d.sb.bitmap j ≡ 1)
Allocated e d outside = ⊥
Allocated e d spins = ⊥

pub write_block-done :
    (n : ℕ) (b : Block) (d : Disk)
    → n < block_num
    → write_block (pos n) b d ≡ done tt (record d { blocks = update d.blocks n b })
unfolding write_block
write_block-done n b d h = rw (lt→ltb n block_num h) refl

pub read_block-done :
    (e : Environment) (n : ℕ) (d : Disk)
    → n < block_num
    → read_block e (pos n) d ≡ done (d.blocks n) d
unfolding read_block
read_block-done e n d h = rw (lt→ltb n block_num h) refl

module _ (e : Environment) where
  claimed :
      (d : Disk) (r : Option ℕ)
      → IsSound d
      → FirstFree d.sb.bitmap 0 d.sb.totalblocks r
      → Allocated e d (claim e d.sb r d)
  unfolding claim
  claimed d none v f = (refl, refl, λ j l. f j (omega arith) l)
  claimed d (some n) v f =
      let w = v.within in
      rw
        (write_block-done n (fresh_block e)
          (record d { sb = record (d.sb) { bitmap = (set_bit d.sb.bitmap n).0 } }) (omega arith))
        (record {
          below = f.1;
          was_free = f.2;
          bits = λ j. bit_at-set_bit d.sb.bitmap n j v.bytes;
          contents = λ j. refl;
          sound = record { bytes = set_bit-IsBytes d.sb.bitmap n v.bytes; within = w };
        })

  -- On a sound image allocate_block either takes a free block, marks it and clears it, changing no
  -- other bit or block, or returns -1 with the image unchanged because every block is taken.
  pub allocate_block-Allocated : (d : Disk) → IsSound d → Allocated e d (allocate_block e d)
  unfolding allocate_block
  allocate_block-Allocated d v =
      claimed d _ v (find_free_bit-FirstFree d.sb.bitmap d.sb.totalblocks)

  -- Block `n` is cleared and its bit is clear; all else is as before.
  pub record Frees (n : ℕ) (d d' : Disk) : Type 0 where
    pub bits : (j : ℕ) → bit_at d'.sb.bitmap j ≡ (if j == n then 0 else bit_at d.sb.bitmap j)
    pub contents :
        (j : ℕ) → d'.blocks j ≡ (if j == n then clear_block e (d.blocks n) else d.blocks j)
    pub sound : IsSound d'

  pub deallocate_block-Frees :
      (d : Disk) (n : ℕ)
      → IsSound d
      → n < block_num
      → (d' : Disk) × (deallocate_block e (pos n) d ≡ done (d.blocks n).next d') × Frees n d d'
  unfolding deallocate_block
  deallocate_block-Frees d n v l = (
    record {
      sb = record (d.sb) { bitmap = (clear_bit d.sb.bitmap n).0 };
      blocks = update d.blocks n (clear_block e (d.blocks n));
    },
    rw (read_block-done e n d l, write_block-done n (clear_block e (d.blocks n)) d l) refl,
    record {
      bits = λ j. bit_at-clear_bit d.sb.bitmap n j v.bytes;
      contents = λ j. refl;
      sound = record { bytes = clear_bit-IsBytes d.sb.bitmap n v.bytes; within = v.within };
    },
  )
