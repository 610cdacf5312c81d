-- ===== src/Aofs/Read/Overlap.antt =====
-- Reading the three blocks of a file from its start.
use free_bsd_messaround.Prelude.{
  ℕ, ◌+◌, ◌-◌, ◌*◌, ◌/◌, ◌%◌, ◌^◌, ◌≤◌, ◌<◌, ◌≡◌, refl, true, false, some, ltb, arith, pos, update,
  update_ne, ◌≢◌,
}
use free_bsd_messaround.Aofs.Disk.{
  Name, Block, Disk, Environment, done, block_data, block_num, copy,
}
use free_bsd_messaround.Aofs.Blocks.Allocate.{write_block-done, read_block-done}
use free_bsd_messaround.Aofs.Files.{aofs_find_file_head}
use free_bsd_messaround.Aofs.Read.{
  num_blocks, first_size, last_size, Copied, skip_loop, middle_loop, read_last, read_blocks,
  read_found, aofs_read_file,
}
use free_bsd_messaround.Aofs.Read.Single.{to_int_small}

num_blocks_three :
    (size : ℕ) → 2 * block_data < size → size ≤ 3 * block_data → num_blocks 0 size ≡ pos 2
unfolding num_blocks
num_blocks_three size l h =
    let m : (0 + size + 2 ^ 64 - 1) % 2 ^ 64 / block_data ≡ 2 = omega arith in
    rw m (to_int_small 2 (omega arith))

first_size_three :
    (size : ℕ) → 2 * block_data < size → size ≤ 3 * block_data → first_size 0 size ≡ block_data
unfolding first_size
first_size_three size l h = rw (num_blocks_three size l h) refl

last_size_three :
    (size : ℕ)
    → 2 * block_data < size
    → size ≤ 3 * block_data
    → last_size 0 size ≡ size - 2 * block_data
unfolding last_size
last_size_three size l h = rw (num_blocks_three size l h, first_size_three size l h) (omega arith)

-- The buffer after the three copies, of the bytes `a`, `b` and `c`.
abbrev left_over : (ℕ → ℕ) → (ℕ → ℕ) → (ℕ → ℕ) → (ℕ → ℕ) → ℕ → ℕ → ℕ
left_over buf a b c size =
    copy (copy (copy buf 0 a block_data) (0 + block_data * 0) b block_data) (2 * block_data) c
      (size - 2 * block_data)

module _ (buf a b c : ℕ → ℕ) (size i : ℕ) where
  left_over_first : i < block_data → left_over buf a b c size i ≡ b i
  left_over_first h =
      let u : ltb i (2 * block_data) ≡ true = ground arith in
      let v : ltb i (0 + block_data * 0) ≡ false = ground arith in
      let w : ltb i (0 + block_data * 0 + block_data) ≡ true = ground arith in
      let z : i - (0 + block_data * 0) ≡ i = omega arith in rw (u, v, w, z) refl

  left_over_second : block_data ≤ i → i < 2 * block_data → left_over buf a b c size i ≡ buf i
  left_over_second l h =
      let u : ltb i (2 * block_data) ≡ true = ground arith in
      let v : ltb i (0 + block_data * 0) ≡ false = ground arith in
      let w : ltb i (0 + block_data * 0 + block_data) ≡ false = ground arith in rw (u, v, w) refl

  left_over_third : i < size - 2 * block_data → left_over buf a b c size (2 * block_data + i) ≡ c i
  left_over_third h =
      let u : ltb (2 * block_data + i) (2 * block_data) ≡ false = ground arith in
      let v : ltb (2 * block_data + i) (2 * block_data + (size - 2 * block_data)) ≡ true =
        ground arith in
      let w : 2 * block_data + i - 2 * block_data ≡ i = omega arith in rw (u, v, w) refl

module _ (e : Environment) where
  last_of_three :
      (n2 size : ℕ) (cur : Block) (buf : ℕ → ℕ) (d : Disk)
      → 2 * block_data < size
      → size ≤ 3 * block_data
      → cur.next ≡ pos n2
      → n2 < block_num
      → read_last e 0 size (some cur, buf, 2 * block_data) d
        ≡ done
            (record {
              result = pos size;
              buf = copy buf (2 * block_data) (d.blocks n2).bytes (size - 2 * block_data);
            })
            d
  unfolding read_last
  last_of_three n2 size cur buf d l h q m =
      let t : 2 * block_data + (size - 2 * block_data) ≡ size = omega arith in
      rw
        (
          num_blocks_three size l h,
          last_size_three size l h,
          q,
          t,
          to_int_small size (omega arith),
          read_block-done e n2 d m,
        )
        refl

  three_blocks :
      (n1 n2 size : ℕ) (cur : Block) (buf : ℕ → ℕ) (d : Disk)
      → 2 * block_data < size
      → size ≤ 3 * block_data
      → cur.next ≡ pos n1
      → n1 < block_num
      → (d.blocks n1).next ≡ pos n2
      → n2 < block_num
      → read_blocks e 0 size buf (some cur) d
        ≡ done
            (record {
              result = pos size;
              buf =
                  left_over buf
                    (λ i. cur.bytes (0 + i))
                    (d.blocks n1).bytes
                    (d.blocks n2).bytes
                    size;
            })
            d
  unfolding read_blocks middle_loop
  three_blocks n1 n2 size cur buf d l h q m q' m' =
      rw (num_blocks_three size l h, first_size_three size l h)
        (rw (q, read_block-done e n1 d m) (last_of_three n2 size (d.blocks n1) _ d l h q' m'))

  -- A read of `size` bytes from the start of a file whose head and next two blocks are `n`, `n1` and
  -- `n2`, where `size` ends in the third of them, returns `size` but leaves in the buffer the bytes
  -- of the second block first, then what the buffer held before, then the bytes of the third block.
  pub aofs_read_file_overlap :
      (path : Name) (n n1 n2 size : ℕ) (buf : ℕ → ℕ) (d : Disk)
      → aofs_find_file_head d path ≡ some n
      → n < block_num
      → (d.blocks n).next ≡ pos n1
      → n1 < block_num
      → n1 ≢ n
      → (d.blocks n1).next ≡ pos n2
      → n2 < block_num
      → n2 ≢ n
      → 2 * block_data < size
      → size ≤ 3 * block_data
      → (r : Copied) × (d' : Disk) × (aofs_read_file e path buf size 0 d ≡ done r d')
        × (r.result ≡ pos size)
        × ((i : ℕ) → i < block_data → r.buf i ≡ (d.blocks n1).bytes i)
        × ((i : ℕ) → block_data ≤ i → i < 2 * block_data → r.buf i ≡ buf i)
        × ((i : ℕ) → i < size - 2 * block_data → r.buf (2 * block_data + i) ≡ (d.blocks n2).bytes i)
  unfolding aofs_read_file read_found skip_loop
  aofs_read_file_overlap path n n1 n2 size buf d q l x m x' y m' y' s s' =
      let head = record (d.blocks n) { atim = e.now } in
      let d' = record d { blocks = update d.blocks n head } in
      let k1 : d'.blocks n1 ≡ d.blocks n1 = update_ne d.blocks n n1 head x' in
      let k2 : d'.blocks n2 ≡ d.blocks n2 = update_ne d.blocks n n2 head y' in
      (
        record {
          result = pos size;
          buf =
              left_over buf (λ i. head.bytes (0 + i)) (d'.blocks n1).bytes (d'.blocks n2).bytes
                size;
        },
        d',
        rw (q, write_block-done n head d l)
            (three_blocks n1 n2 size head buf d' s s' x m (rw k1 y) m'),
        refl,
        λ i h. rw k1 (
            left_over_first buf (λ i. head.bytes (0 + i)) (d.blocks n1).bytes (d'.blocks n2).bytes
              size i h),
        λ i h h'.
            left_over_second buf (λ i. head.bytes (0 + i)) (d'.blocks n1).bytes (d'.blocks n2).bytes
              size i h h',
        λ i h. rw k2 (
            left_over_third buf (λ i. head.bytes (0 + i)) (d'.blocks n1).bytes (d.blocks n2).bytes
              size i h),
      )
