-- ===== src/Aofs/Write/Single.antt =====
-- Writing within the head block of an existing file.
use free_bsd_messaround.Prelude.{
  ℕ, zero, suc, ◌+◌, ◌-◌, ◌≤◌, ◌<◌, ◌≡◌, refl, ◌∙◌, false, some, ◌==◌, ltb, lt→ltb, arith, ℤ, pos,
  negsuc, update,
}
use free_bsd_messaround.Aofs.Disk.{
  Name, Block, Disk, Environment, done, read_block, block_data, block_num, copy,
}
use free_bsd_messaround.Aofs.Blocks.Allocate.{write_block-done}
use free_bsd_messaround.Aofs.Files.{aofs_find_file_head}
use free_bsd_messaround.Aofs.Write.{
  write_count, write_to_block, next_of, write_loop, write_from, open_head, aofs_write_file,
}

-- A `next` field that can be read: -1, or the number of a block.
abbrev pub IsReadable : ℤ → Type 0
IsReadable (pos n) = n < block_num
IsReadable (negsuc n) = n ≡ 0

pub read_block_readable :
    (e : Environment) (b : ℤ) (d : Disk)
    → IsReadable b
    → (c : Block) × (read_block e b d ≡ done c d)
unfolding read_block
read_block_readable e (pos n) d l = (d.blocks n, rw (lt→ltb n block_num l) refl)
read_block_readable e (negsuc n) d l = (e.before d.sb, rw l refl)

-- The head block after `size` bytes have been written at position `at`.
abbrev pub written_block : Environment → Block → (ℕ → ℕ) → ℕ → ℕ → Block
written_block e b buf size at = record b {
  bytes = copy b.bytes at buf size;
  size = size + at;
  mtim = e.now;
  atim = e.now;
  ctim = e.now;
}

module _ (e : Environment) (filename : Name) where
  finished :
      (fuel : ℕ) (num : ℤ) (block : Block) (buf : ℕ → ℕ) (left written offset : ℕ) (d : Disk)
      → left ≡ 0
      → 0 < fuel
      → write_loop e filename fuel num block buf left written offset d ≡ done written d
  unfolding write_loop
  finished zero num block buf left written offset d z l = absurd (omega arith)
  finished (suc fuel) num block buf left written offset d z l = rw z refl

  next_of_readable :
      (left : ℕ) (next : ℤ) (d : Disk)
      → left ≡ 0
      → IsReadable next
      → (c : Block) × (next_of e filename left next d ≡ done (next, c) d)
  unfolding next_of
  next_of_readable left next d z r =
      let (c, h) = read_block_readable e next d r in (c, rw (z, h) refl)

  write_count_fits : (size at : ℕ) → at + size ≤ block_data → write_count size at ≡ size
  unfolding write_count
  write_count_fits size at h = ground arith

  one_round :
      (fuel n : ℕ) (block : Block) (buf : ℕ → ℕ) (size at : ℕ) (d : Disk)
      → 0 < size
      → 1 < fuel
      → at + size ≤ block_data
      → n < block_num
      → IsReadable block.next
      → write_loop e filename fuel (pos n) block buf size 0 at d
        ≡ done size (record d {
          blocks = update d.blocks n (record block {
            bytes = copy block.bytes at buf size;
            mtim = e.now;
            atim = e.now;
            ctim = e.now;
          });
        })
  unfolding write_loop write_to_block
  one_round zero n block buf size at d p f h l r = absurd (omega arith)
  one_round (suc fuel) n block buf size at d p f h l r =
      let t : (size == 0) ≡ false = ground arith in
      let u : ltb block_data at ≡ false = ground arith in
      let w = write_count_fits size at h in
      let z : 0 + size ≡ size = omega arith in
      let (c, q) = next_of_readable (size - size) block.next d (omega arith) r in
      rw (t, u, w, q, write_block-done n _ d l)
        (finished fuel block.next c _ (size - size) (0 + size) 0 _ (omega arith) (omega arith)
          ∙ rw z refl)

  from_head :
      (n : ℕ) (block : Block) (buf : ℕ → ℕ) (size at : ℕ) (d : Disk)
      → at ≤ block.size
      → 0 < size
      → at + size ≤ block_data
      → n < block_num
      → IsReadable block.next
      → write_from e filename buf size at (pos n) block d
        ≡ done size (record d {
          blocks =
              update
                (update d.blocks n (record block { size = size + at }))
                n
                (written_block e block buf size at);
        })
  unfolding write_from
  from_head n block buf size at d a p h l r =
      let t : ltb block.size at ≡ false = ground arith in
      rw (t, write_block-done n (record block { size = size + at }) d l)
        (one_round (size + at + 1) n (record block { size = size + at }) buf size at _ p
          (omega arith) h l r)

  -- The image after a write of `size` bytes at `at` into head block `n`.
  abbrev pub written_disk : ℕ → (ℕ → ℕ) → ℕ → ℕ → Disk → Disk
  written_disk n buf size at d = record d {
    blocks =
        update (update d.blocks n (record (d.blocks n) { size = size + at })) n
          (written_block e (d.blocks n) buf size at);
  }

  -- Writing `size` bytes, at least one, at a position up to the file's size into the first block of a
  -- file that exists, where they fit into that block and its next field can be read, returns `size`,
  -- stores the bytes there, sets the size to the end of the bytes and the three times to the
  -- present, and changes no other block and not the superblock.
  pub aofs_write_file-written_disk :
      (n : ℕ) (buf : ℕ → ℕ) (size at : ℕ) (d : Disk)
      → aofs_find_file_head d filename ≡ some n
      → n < block_num
      → IsReadable (d.blocks n).next
      → at ≤ (d.blocks n).size
      → 0 < size
      → at + size ≤ block_data
      → aofs_write_file e filename buf size at d ≡ done size (written_disk n buf size at d)
  unfolding aofs_write_file open_head
  aofs_write_file-written_disk n buf size at d q l r a p h =
      rw q (from_head n (d.blocks n) buf size at d a p h l r)
