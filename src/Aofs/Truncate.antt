-- ===== src/Aofs/Truncate.antt =====
-- aofs_truncate_file of asgn4/aofs.c. Sizes are below 2 ^ 31 and not negative.
pub mod Same
use free_bsd_messaround.Prelude.{
  ℕ, zero, suc, ◌+◌, ◌-◌, ◌/◌, ◌%◌, Bool, true, false, Option, none, some, ltb, ◌==◌, if◌then◌else◌,
  ℤ, pos, negsuc,
}
use free_bsd_messaround.Aofs.Disk.{
  Name, Block, Environment, done, spins, Cmd, pure, ◌>>=◌, ◌>>◌, read_block, write_block,
  block_data, block_num, copy,
}
use free_bsd_messaround.Aofs.Blocks.{is_none_yet, allocate_block, delete_chain, clear_block}
use free_bsd_messaround.Aofs.Files.{aofs_find_file_head, enoent}

module _ (e : Environment) where
  -- The number of a block and its content, after `n` steps along the chain.
  pub walk : ℕ → ℤ → Block → Cmd (ℤ × Block)
  walk zero prev cur = pure (prev, cur)
  walk (suc n) prev cur = do next ← read_block e cur.next; walk n cur.next next

  pub shrink : ℤ → Block → ℕ → Cmd (Unit {0})
  shrink file_head cur size =
      let new_blocks = size / block_data in
      let block_offset = size % block_data in
      if cur.size / block_data - new_blocks == 0 then pure tt else do
        (prev, last) ← walk new_blocks file_head cur
        delete_chain e (block_num + 2) last.next
        write_block prev (record last {
          next = negsuc 0;
          bytes = copy last.bytes block_offset (λ _. 0) (block_data - block_offset);
        })

  -- The walk to the end of the chain, on fuel.
  pub seek_last : ℕ → ℤ → Block → Cmd (ℤ × Block)
  seek_last zero prev cur = λ _. spins
  seek_last (suc fuel) prev cur =
      if is_none_yet cur.next
      then pure (prev, cur)
      else do next ← read_block e cur.next; seek_last fuel cur.next next

  -- The rounds that append a block; the result tells whether there was room.
  pub append_loop : ℕ → Name → ℤ → Block → Cmd Bool
  append_loop zero path prev cur = pure true
  append_loop (suc n) path prev cur = do
    b ← allocate_block e
    if is_none_yet b then pure false else do
      write_block prev (record cur { next = b })
      fresh ← read_block e b
      let named = record (clear_block e fresh) { filename = path }
      write_block b named
      append_loop n path b named

  pub grow : Name → ℤ → Block → ℕ → Cmd Bool
  grow path file_head cur size =
      let diff_blocks = size / block_data - cur.size / block_data in
      if diff_blocks == 0 then pure true else do
        (prev, last) ← seek_last (block_num + 1) file_head cur
        append_loop diff_blocks path prev last

  pub resize : Name → ℤ → Block → ℕ → Cmd Bool
  resize path file_head cur size =
      if ltb size cur.size
      then (do shrink file_head cur size; pure true)
      else if ltb cur.size size
      then grow path file_head cur size
      else pure true

  -- The end of the call: the head block is read again and gets the new size.
  pub set_size : ℤ → ℕ → Bool → Cmd ℤ
  set_size file_head size false = pure (negsuc 0)
  set_size file_head size true = do
    cur ← read_block e file_head
    write_block file_head (record cur { size = size })
    pure (pos 0)

  unfoldable pub truncate_found : Name → ℕ → Option ℕ → Cmd ℤ
  truncate_found path size none d = done enoent d
  truncate_found path size (some i) d =
      (do room ← resize path (pos i) (d.blocks i) size; set_size (pos i) size room) d

  unfoldable pub aofs_truncate_file : Name → ℕ → Cmd ℤ
  unfolding truncate_found
  aofs_truncate_file path size d = truncate_found path size (aofs_find_file_head d path) d
