-- ===== src/Aofs/Blocks.antt =====
-- clear_block, allocate_block, deallocate_block, delete_chain, init_fs of asgn4/aofs.c.
pub mod Allocate
pub mod Chain
use free_bsd_messaround.Prelude.{
  ℕ, zero, suc, ◌+◌, ◌<◌, ◌≡◌, Bool, true, false, Option, none, some, [], ◌==◌, if◌then◌else◌, ℤ,
  pos, negsuc,
}
use free_bsd_messaround.Aofs.Bitmap.{Bitmap, find_free_bit, set_bit, clear_bit}
use free_bsd_messaround.Aofs.Disk.{
  Block, SuperBlock, Disk, Environment, Out, done, outside, spins, Cmd, pure, ◌>>=◌, ◌>>◌,
  read_super_block, write_super_block, read_block, write_block, block_data, block_num, block_size,
  magicnum,
}

abbrev pub is_none_yet : ℤ → Bool
is_none_yet (pos n) = false
is_none_yet (negsuc n) = n == 0

abbrev pub is_negative : ℤ → Bool
is_negative (pos n) = false
is_negative (negsuc n) = true

module _ (e : Environment) where
  -- st_mode, st_uid and st_gid are not written.
  pub clear_block : Block → Block
  clear_block b = record b {
    filename = [];
    next = negsuc 0;
    head = false;
    atim = e.now;
    mtim = e.now;
    ctim = e.now;
    birthtim = e.now;
    size = 0;
    blocks = 0;
    blksize = block_data;
    flags = 0;
    bytes = λ _. 0;
  }

  pub init_fs : Disk → Disk
  unfolding clear_block
  init_fs fs = record {
    sb = record {
      magic = magicnum;
      totalblocks = block_num;
      blocksize = block_size;
      bitmap = λ _. 0;
    };
    blocks = λ i. clear_block (fs.blocks i);
  }

  -- The block that allocate_block writes: a stack variable that is cleared and stamped.
  pub fresh_block : Block
  unfolding clear_block
  fresh_block =
      let b = clear_block e.stack in
      record b { atim = e.now; mtim = e.now; ctim = e.now; birthtim = e.now }

  unfoldable pub claim : SuperBlock → Option ℕ → Cmd ℤ
  unfolding fresh_block
  claim sb none = pure (negsuc 0)
  claim sb (some n) = do
    write_super_block (record sb { bitmap = (set_bit sb.bitmap n).0 })
    write_block (pos n) fresh_block
    pure (pos n)

  unfoldable pub allocate_block : Cmd ℤ
  unfolding claim
  allocate_block = do sb ← read_super_block; claim sb (find_free_bit sb.bitmap sb.totalblocks)

  pub deallocate_block : ℤ → Cmd ℤ
  unfolding clear_block
  deallocate_block (negsuc n) = pure (negsuc n)
  deallocate_block (pos n) = do
    sb ← read_super_block
    b ← read_block e (pos n)
    write_block (pos n) (clear_block b)
    write_super_block (record sb { bitmap = (clear_bit sb.bitmap n).0 })
    pure b.next

  -- A round for each block of the chain, and one that sees its end.
  pub delete_chain : ℕ → ℤ → Cmd (Unit {0})
  unfolding deallocate_block
  delete_chain zero blockidx = λ _. spins
  delete_chain (suc fuel) blockidx =
      if is_none_yet blockidx
      then pure tt
      else do next ← deallocate_block blockidx; delete_chain fuel next
