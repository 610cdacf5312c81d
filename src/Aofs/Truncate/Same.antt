-- ===== src/Aofs/Truncate/Same.antt =====
-- Truncation that keeps the number of full blocks.
use free_bsd_messaround.Prelude.{
  ℕ, ◌-◌, ◌/◌, ◌<◌, ◌≡◌, refl, true, some, ltb, ◌==◌, Bool-cases, inl, inr, arith, ℤ, pos, update,
}
use free_bsd_messaround.Aofs.Disk.{Name, Block, Disk, Environment, done, block_data, block_num}
use free_bsd_messaround.Aofs.Blocks.Allocate.{write_block-done, read_block-done}
use free_bsd_messaround.Aofs.Files.{aofs_find_file_head}
use free_bsd_messaround.Aofs.Truncate.{
  shrink, grow, resize, set_size, truncate_found, aofs_truncate_file,
}

module _ (e : Environment) (path : Name) where
  shrink_same :
      (num : ℤ) (cur : Block) (size : ℕ) (d : Disk)
      → size / block_data ≡ cur.size / block_data
      → shrink e num cur size d ≡ done tt d
  unfolding shrink
  shrink_same num cur size d h =
      let z : (cur.size / block_data - size / block_data == 0) ≡ true = ground arith in rw z refl

  grow_same :
      (num : ℤ) (cur : Block) (size : ℕ) (d : Disk)
      → size / block_data ≡ cur.size / block_data
      → grow e path num cur size d ≡ done true d
  unfolding grow
  grow_same num cur size d h =
      let z : (size / block_data - cur.size / block_data == 0) ≡ true = ground arith in rw z refl

  resize_same :
      (num : ℤ) (cur : Block) (size : ℕ) (d : Disk)
      → size / block_data ≡ cur.size / block_data
      → resize e path num cur size d ≡ done true d
  unfolding resize
  resize_same num cur size d h = elim (Bool-cases (ltb size cur.size)) [
    | inl u ↦ rw (u, shrink_same num cur size d h) refl
    | inr u ↦ rw u (elim (Bool-cases (ltb cur.size size)) [
      | inl v ↦ rw (v, grow_same num cur size d h) refl
      | inr v ↦ rw v refl
    ])
  ]

  -- Truncating a file that exists to a size with as many full blocks as its size succeeds, sets the
  -- size and changes nothing else: the bytes beyond a smaller size stay.
  pub aofs_truncate_file_same :
      (n size : ℕ) (d : Disk)
      → aofs_find_file_head d path ≡ some n
      → n < block_num
      → size / block_data ≡ (d.blocks n).size / block_data
      → aofs_truncate_file e path size d
        ≡ done
            (pos 0)
            (record d { blocks = update d.blocks n (record (d.blocks n) { size = size }) })
  unfolding aofs_truncate_file truncate_found set_size
  aofs_truncate_file_same n size d q l h =
      rw
        (
          q,
          resize_same (pos n) (d.blocks n) size d h,
          read_block-done e n d l,
          write_block-done n (record (d.blocks n) { size = size }) d l,
        )
        refl
