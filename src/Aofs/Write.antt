-- ===== src/Aofs/Write.antt =====
-- write_to_block and aofs_write_file of asgn4/aofs.c. Sizes and offsets are below 2 ^ 31, so that
-- an int holds them, and the offset is not negative; a buffer is a function from positions to bytes.
-- A name that is copied into another block of the chain has at most 255 bytes.
pub mod Single
use free_bsd_messaround.Prelude.{
  ℕ, zero, suc, ◌+◌, ◌-◌, ◌<◌, ◌≡◌, Bool, true, false, ◌&&◌, Option, none, some, ltb, ◌==◌,
  if◌then◌else◌, ℤ, pos, negsuc,
}
use free_bsd_messaround.Aofs.Disk.{
  Name, Block, Disk, Environment, Out, done, outside, spins, Cmd, pure, ◌>>=◌, ◌>>◌, and_then,
  read_block, write_block, block_data, copy,
}
use free_bsd_messaround.Aofs.Blocks.{allocate_block, is_none_yet}
use free_bsd_messaround.Aofs.Files.{aofs_find_file_head, aofs_create_file}

-- How many bytes are written into the block.
pub write_count : ℕ → ℕ → ℕ
write_count bytes_to_write offset =
    if ltb block_data offset
    then block_data
    else if ltb block_data (bytes_to_write + offset)
    then block_data - offset
    else bytes_to_write

pub write_to_block : (ℕ → ℕ) → Block → ℕ → ℕ → Block
write_to_block buf block bytes_to_write offset =
    if ltb block_data offset
    then block
    else record block { bytes = copy block.bytes offset buf (write_count bytes_to_write offset) }

module _ (e : Environment) (filename : Name) where
  -- The block after the one that was written: a new one if more is to be written at the chain's
  -- end. The pair holds the number and what is read there.
  pub next_of : ℕ → ℤ → Cmd (ℤ × Block)
  next_of left next =
      if ltb 0 left && is_none_yet next
      then (do
        b ← allocate_block e
        next_block ← read_block e b
        pure (b, record next_block { filename = filename }))
      else do next_block ← read_block e next; pure (next, next_block)

  pub write_loop : ℕ → ℤ → Block → (ℕ → ℕ) → ℕ → ℕ → ℕ → Cmd ℕ
  write_loop zero num block buf left written offset = λ _. spins
  write_loop (suc fuel) num block buf left written offset =
      if left == 0
      then pure written
      else if ltb block_data offset
      then (do
        next_block ← read_block e block.next
        write_loop fuel block.next next_block buf left written (offset - block_data))
      else (let wr = write_count left offset in
          let block' = write_to_block buf block left offset in
          do
            (next, next_block) ← next_of (left - wr) block.next
            write_block num
                (record block' { next = next; mtim = e.now; atim = e.now; ctim = e.now })
            write_loop fuel next next_block (λ i. buf (i + wr)) (left - wr) (written + wr) 0)

  pub write_from : (ℕ → ℕ) → ℕ → ℕ → ℤ → Block → Cmd ℕ
  write_from buf size offset num block =
      let at = if ltb block.size offset then block.size else offset in
      let block' = record block { size = size + at } in
      do write_block num block'; write_loop (size + at + 1) num block' buf size 0 at

  -- The head block, which is created if the file does not exist.
  pub open_head : Option ℕ → Cmd (ℤ × Block)
  open_head (some i) = λ d. done (pos i, d.blocks i) d
  open_head none = do num ← aofs_create_file e filename; block ← read_block e num; pure (num, block)

  pub aofs_write_file : (ℕ → ℕ) → ℕ → ℕ → Cmd ℕ
  aofs_write_file buf size offset d =
      and_then (open_head (aofs_find_file_head d filename) d)
        (λ (num, block). write_from buf size offset num block)
