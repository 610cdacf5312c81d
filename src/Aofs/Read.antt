-- ===== src/Aofs/Read.antt =====
-- aofs_read_file of asgn4/aofs.c. Offsets are below 2 ^ 31 and not negative; the arithmetic of the
-- block counts is that of size_t, and num_blocks is an int.
pub mod Single
pub mod Overlap
use free_bsd_messaround.Prelude.{
  ℕ, zero, suc, ◌+◌, ◌-◌, ◌*◌, ◌/◌, ◌%◌, ◌^◌, ◌<◌, ◌≡◌, Bool, true, false, ◌&&◌, Option, none, some,
  ltb, ◌==◌, if◌then◌else◌, ℤ, pos, negsuc,
}
use free_bsd_messaround.Aofs.Disk.{
  Name, Block, Disk, Environment, Out, done, outside, spins, Cmd, pure, ◌>>=◌, ◌>>◌, and_then,
  read_block, write_block, block_data, copy,
}
use free_bsd_messaround.Aofs.Blocks.{is_negative}
use free_bsd_messaround.Aofs.Files.{aofs_find_file_head, enoent}

abbrev pub size_t : ℕ → ℕ
size_t n = n % 2 ^ 64

-- A size_t stored in an int.
pub to_int : ℕ → ℤ
to_int n = let m = n % 2 ^ 32 in if ltb m (2 ^ 31) then pos m else negsuc (2 ^ 32 - 1 - m)

abbrev pub from_int : ℤ → ℕ
from_int (pos n) = n
from_int (negsuc n) = 2 ^ 64 - 1 - n

abbrev pub is_zero : ℤ → Bool
is_zero (pos n) = n == 0
is_zero (negsuc n) = false

-- The rounds of `for (i = 0; i < num_blocks - 1; ++i)`, and whether num_blocks > 0.
abbrev pub middle_rounds : ℤ → ℕ
middle_rounds (pos n) = n - 1
middle_rounds (negsuc n) = 0

abbrev pub is_positive : ℤ → Bool
is_positive (pos n) = ltb 0 n
is_positive (negsuc n) = false

pub num_blocks : ℕ → ℕ → ℤ
num_blocks block_offset size = to_int (size_t (block_offset + size + 2 ^ 64 - 1) / block_data)

-- size_f and size_l.
pub first_size : ℕ → ℕ → ℕ
first_size block_offset size =
    if is_zero (num_blocks block_offset size) then size else block_data - block_offset

pub last_size : ℕ → ℕ → ℕ
last_size block_offset size =
    if is_zero (num_blocks block_offset size)
    then 0
    else size_t (
        size
        + 2 ^ 64
        - size_t (
            first_size block_offset size
            + size_t (from_int (num_blocks block_offset size) + 2 ^ 64 - 1) * block_data))

-- What a call leaves: its result, and the caller's buffer.
pub record Copied : Type 0 where
  pub result : ℤ
  pub buf : ℕ → ℕ

module _ (e : Environment) where
  -- The walk to the first block: `none` where the chain ends on the way.
  pub skip_loop : ℕ → Block → Cmd (Option Block)
  skip_loop zero cur = pure (some cur)
  skip_loop (suc n) cur =
      if is_negative cur.next then pure none else do next ← read_block e cur.next; skip_loop n next

  -- The full blocks in the middle: the block reached (`none` where the chain ends), the buffer and
  -- the count of bytes.
  pub middle_loop : ℕ → ℕ → ℕ → Block → (ℕ → ℕ) → ℕ → Cmd (Option Block × (ℕ → ℕ) × ℕ)
  middle_loop zero i block_offset cur buf bytes_read = pure (some cur, buf, bytes_read)
  middle_loop (suc n) i block_offset cur buf bytes_read =
      if is_negative cur.next then pure (none, buf, bytes_read) else do
        next ← read_block e cur.next
        middle_loop n (i + 1) block_offset next
            (copy buf (block_offset + block_data * i) next.bytes block_data)
            (bytes_read + block_data)

  pub read_last : ℕ → ℕ → Option Block × (ℕ → ℕ) × ℕ → Cmd Copied
  read_last block_offset size (none, buf, bytes_read) =
      pure (record { result = to_int bytes_read; buf = buf })
  read_last block_offset size (some cur, buf, bytes_read) =
      let nb = num_blocks block_offset size in
      let size_l = last_size block_offset size in
      if is_positive nb
      then if is_negative cur.next
        then pure (record { result = to_int bytes_read; buf = buf })
        else (do
          next ← read_block e cur.next
          pure (record {
            result = to_int (bytes_read + size_l);
            buf = copy buf (block_offset + block_data * from_int nb) next.bytes size_l;
          }))
      else pure (record { result = to_int bytes_read; buf = buf })

  pub read_blocks : ℕ → ℕ → (ℕ → ℕ) → Option Block → Cmd Copied
  read_blocks block_offset size buf none = pure (record { result = pos 0; buf = buf })
  read_blocks block_offset size buf (some cur) =
      let size_f = first_size block_offset size in
      let buf' = copy buf 0 (λ i. cur.bytes (block_offset + i)) size_f in
      do
        r ←
            middle_loop (middle_rounds (num_blocks block_offset size)) 0 block_offset cur buf'
              size_f
        read_last block_offset size r

  unfoldable pub read_found : (ℕ → ℕ) → ℕ → ℕ → Option ℕ → Cmd Copied
  read_found buf size offset none d = done (record { result = enoent; buf = buf }) d
  read_found buf size offset (some head) d =
      (let b = d.blocks head in
        let cur = record b { atim = e.now } in
        let start_block = offset / block_data in
        (do
          write_block (pos head) cur
          r ← skip_loop start_block cur
          read_blocks (offset - start_block * block_data) size buf r)
          d)

  unfoldable pub aofs_read_file : Name → (ℕ → ℕ) → ℕ → ℕ → Cmd Copied
  aofs_read_file path buf size offset d = read_found buf size offset (aofs_find_file_head d path) d
