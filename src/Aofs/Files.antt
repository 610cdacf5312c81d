-- ===== src/Aofs/Files.antt =====
-- aofs_find_file_head, aofs_create_file and aofs_delete_file of asgn4/aofs.c.
pub mod Find
pub mod Create
pub mod Delete
use free_bsd_messaround.Prelude.{
  ℕ, zero, suc, ◌+◌, ◌<◌, ◌≡◌, Bool, true, false, ◌&&◌, Option, none, some, ◌==◌, ltb, length,
  if◌then◌else◌, ℤ, pos, negsuc,
}
use free_bsd_messaround.Aofs.Bitmap.{bit_at}
use free_bsd_messaround.Aofs.Disk.{
  Name, name_eq, Block, Disk, Environment, Out, done, outside, spins, Cmd, pure, ◌>>=◌, ◌>>◌,
  write_block, block_num,
}
use free_bsd_messaround.Aofs.Blocks.{allocate_block, delete_chain, clear_block}

-- An allocated head block with the name.
unfoldable pub is_head_of : Disk → Name → ℕ → Bool
is_head_of d name i =
    if bit_at d.sb.bitmap i == 0
    then false
    else (d.blocks i).head && name_eq (d.blocks i).filename name

pub find_loop : Disk → Name → ℕ → ℕ → Option ℕ
unfolding is_head_of
find_loop d name zero i = none
find_loop d name (suc n) i =
    let rest = find_loop d name n (i + 1) in if is_head_of d name i then some i else rest

-- The index of the head block; the block that the caller gets with it is `d.blocks i`.
pub aofs_find_file_head : Disk → Name → Option ℕ
unfolding find_loop
aofs_find_file_head d name = find_loop d name block_num 0

-- -ENOENT.
abbrev pub enoent : ℤ
enoent = negsuc 1

-- The size of the array `filename`.
abbrev pub filename_size : ℕ
filename_size = 256

module _ (e : Environment) where
  pub head_block : Name → Block
  head_block name = let b = clear_block e e.stack in record b { filename = name; head = true }

  -- strcpy copies the name and a zero byte: one of 256 bytes or more does not fit, and what is behind
  -- `filename` in the block is overwritten, which is not followed further.
  pub put_name : Bool → Name → ℕ → Cmd ℤ
  unfolding head_block
  put_name true name n = do write_block (pos n) (head_block name); pure (pos n)
  put_name false name n = λ d. outside

  unfoldable pub put_head : Name → ℤ → Cmd ℤ
  unfolding put_name
  put_head name (negsuc n) = pure (negsuc n)
  put_head name (pos n) = put_name (ltb (length name) filename_size) name n

  unfoldable pub aofs_create_file : Name → Cmd ℤ
  unfolding put_head
  aofs_create_file name = do block_num ← allocate_block e; put_head name block_num

  unfoldable pub delete_found : Option ℕ → Cmd ℤ
  delete_found none = pure enoent
  delete_found (some i) = do delete_chain e (block_num + 2) (pos i); pure (pos 0)

  unfoldable pub aofs_delete_file : Name → Cmd ℤ
  unfolding delete_found
  aofs_delete_file path d = delete_found (aofs_find_file_head d path) d
