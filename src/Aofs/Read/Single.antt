-- ===== src/Aofs/Read/Single.antt =====
-- Reading within the head block, and reading back what was written there.
use free_bsd_messaround.Prelude.{
  ℕ, ◌+◌, ◌-◌, ◌*◌, ◌/◌, ◌%◌, ◌^◌, ◌≤◌, ◌<◌, ◌≡◌, refl, ◌∙◌, true, false, some, ◌==◌, ==_iff,
  ==_self, if◌then◌else◌, ltb, lt→ltb, ltb→lt, arith, Bool-cases, inl, inr, pos, update,
}
use free_bsd_messaround.Aofs.Disk.{
  Name, Block, Disk, Environment, done, block_data, block_num, copy,
}
use free_bsd_messaround.Aofs.Blocks.Allocate.{write_block-done}
use free_bsd_messaround.Aofs.Files.{aofs_find_file_head, is_head_of}
use free_bsd_messaround.Aofs.Files.Find.{find_same}
use free_bsd_messaround.Aofs.Write.{aofs_write_file}
use free_bsd_messaround.Aofs.Write.Single.{IsReadable, written_disk, aofs_write_file-written_disk}
use free_bsd_messaround.Aofs.Read.{
  to_int, num_blocks, first_size, Copied, skip_loop, middle_loop, read_last, read_blocks,
  read_found, aofs_read_file,
}

pub to_int_small : (n : ℕ) → n < 2 ^ 31 → to_int n ≡ pos n
unfolding to_int
to_int_small n h =
    let m : n % 2 ^ 32 ≡ n = omega arith in
    let t : ltb n (2 ^ 31) ≡ true = ground arith in rw (m, t) refl

num_blocks_one : (at size : ℕ) → 0 < size → at + size ≤ block_data → num_blocks at size ≡ pos 0
unfolding num_blocks
num_blocks_one at size p h =
    let m : (at + size + 2 ^ 64 - 1) % 2 ^ 64 / block_data ≡ 0 = omega arith in
    rw m (to_int_small 0 (omega arith))

first_size_one : (at size : ℕ) → 0 < size → at + size ≤ block_data → first_size at size ≡ size
unfolding first_size
first_size_one at size p h = rw (num_blocks_one at size p h) refl

-- Bytes that are copied into `dst` at `at` and from there to `buf`.
copied_back :
    (dst src buf : ℕ → ℕ) (at size i : ℕ)
    → copy buf 0 (λ j. copy dst at src size (at + j)) size i ≡ (if ltb i size then src i else buf i)
copied_back dst src buf at size i =
    let s : ltb i 0 ≡ false = ground arith in
    let z : 0 + size ≡ size = omega arith in
    let x : ltb (at + (i - 0)) at ≡ false = ground arith in
    let y : at + (i - 0) - at ≡ i = omega arith in
    elim (Bool-cases (ltb i size)) [
      | inl u ↦
          let w : i < size = ltb→lt i size u in
          let v : ltb (at + (i - 0)) (at + size) ≡ true =
            lt→ltb (at + (i - 0)) (at + size) (omega arith) in
          rw (s, z, u, x, v, y) refl
      | inr u ↦ rw (s, z, u) refl
    ]

module _ (e : Environment) where
  read_one :
      (at size : ℕ) (buf : ℕ → ℕ) (cur : Block) (d : Disk)
      → 0 < size
      → at + size ≤ block_data
      → read_blocks e at size buf (some cur) d
        ≡ done (record { result = pos size; buf = copy buf 0 (λ i. cur.bytes (at + i)) size }) d
  unfolding read_blocks middle_loop read_last
  read_one at size buf cur d p h =
      let n = num_blocks_one at size p h in
      let f = first_size_one at size p h in
      let t : size < 2 ^ 31 = omega arith in rw (n, f) (rw (n, to_int_small size t) refl)

  -- Reading `size` bytes, at least one, that lie in the first block of a file that exists returns
  -- `size`, copies the bytes to the buffer, sets the access time and changes nothing else.
  pub aofs_read_file_one :
      (path : Name) (n at size : ℕ) (buf : ℕ → ℕ) (d : Disk)
      → aofs_find_file_head d path ≡ some n
      → n < block_num
      → 0 < size
      → at + size ≤ block_data
      → aofs_read_file e path buf size at d
        ≡ done
            (record { result = pos size; buf = copy buf 0 (λ i. (d.blocks n).bytes (at + i)) size })
            (record d { blocks = update d.blocks n (record (d.blocks n) { atim = e.now }) })
  unfolding aofs_read_file read_found skip_loop
  aofs_read_file_one path n at size buf d q l p h =
      let s : at / block_data ≡ 0 = omega arith in
      let z : at - 0 * block_data ≡ at = omega arith in
      rw (q, s, z, write_block-done n (record (d.blocks n) { atim = e.now }) d l)
        (read_one at size buf (record (d.blocks n) { atim = e.now }) _ p h)

  same_heads :
      (path : Name) (n : ℕ) (content : ℕ → ℕ) (size at : ℕ) (d : Disk) (j : ℕ)
      → is_head_of (written_disk e path n content size at d) path j ≡ is_head_of d path j
  unfolding is_head_of
  same_heads path n content size at d j = elim (Bool-cases (j == n)) [
    | inl u ↦ let q : j ≡ n = (==_iff j n).0 u in rw (u, q) refl
    | inr u ↦ rw u refl
  ]

  -- Bytes that were written into the first block of a file that exists, whose `next` is -1 or
  -- a block number, at a position that is not
  -- beyond its st_size, at least one and no more than the block has room for, are read back: after
  -- aofs_write_file, aofs_read_file at the same position returns `size` and puts the written bytes
  -- at the start of the buffer, leaving the buffer after them.
  pub aofs_read_file-aofs_write_file :
      (path : Name) (n at size : ℕ) (content buf : ℕ → ℕ) (d : Disk)
      → aofs_find_file_head d path ≡ some n
      → n < block_num
      → IsReadable (d.blocks n).next
      → at ≤ (d.blocks n).size
      → 0 < size
      → at + size ≤ block_data
      → (d' : Disk) × (d'' : Disk) × (r : Copied) × (aofs_write_file e path content size at d
          ≡ done size d')
        × (aofs_read_file e path buf size at d' ≡ done r d'')
        × (r.result ≡ pos size)
        × ((i : ℕ) → r.buf i ≡ (if ltb i size then content i else buf i))
  aofs_read_file-aofs_write_file path n at size content buf d q l r a p h =
      let d' = written_disk e path n content size at d in
      let q' : aofs_find_file_head d' path ≡ some n =
        find_same d d' path (same_heads path n content size at d) ∙ q in
      (
        d',
        _,
        _,
        aofs_write_file-written_disk e path n content size at d q l r a p h,
        aofs_read_file_one path n at size buf d' q' l p h,
        refl,
        λ i. rw (==_self n) (copied_back (d.blocks n).bytes content buf at size i),
      )
