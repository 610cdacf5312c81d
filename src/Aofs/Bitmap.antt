-- ===== src/Aofs/Bitmap.antt =====
-- The allocation bitmap: bit_at, find_free_bit, set_bit and clear_bit of asgn4/aofs.c.
pub mod Laws
use free_bsd_messaround.Prelude.{
  ℕ, zero, suc, ◌+◌, ◌-◌, ◌*◌, ◌/◌, ◌%◌, ◌^◌, ◌≤◌, ◌<◌, ◌≡◌, ◌≢◌, refl, ap, ◌∙◌, inl, inr, Bool,
  true, false, ◌&&◌, Option, none, some, arith, ltb, ◌==◌, ==_iff, if◌then◌else◌, update, bit_and,
  bit_or, ℤ, pos, negsuc, Bool-cases,
}

-- uint8_t bitmap[], by the index of the byte.
abbrev pub Bitmap : Type 0
Bitmap = ℕ → ℕ

abbrev pub IsBytes : Bitmap → Type 0
IsBytes bm = (i : ℕ) → bm i < 256

unfoldable pub bit_at : Bitmap → ℕ → ℕ
bit_at bm idx = bm (idx / 8) / 2 ^ (idx % 8) % 2

-- `i` is the next index and `n` the indices left; `none` is -1.
free_loop : Bitmap → ℕ → ℕ → Option ℕ
unfolding bit_at
free_loop bm zero i = none
free_loop bm (suc n) i =
    let rest = free_loop bm n (i + 1) in if bit_at bm i == 0 then some i else rest

pub find_free_bit : Bitmap → ℕ → Option ℕ
unfolding free_loop
find_free_bit bm num_bits = free_loop bm num_bits 0

-- The map after the call, and the result, 0 or -1.
pub set_bit : Bitmap → ℕ → Bitmap × ℤ
unfolding bit_at
set_bit bm idx =
    if bit_at bm idx == 0
    then (update bm (idx / 8) (bit_or (bm (idx / 8)) (2 ^ (idx % 8))), pos 0)
    else (bm, negsuc 0)

pub clear_bit : Bitmap → ℕ → Bitmap × ℤ
unfolding bit_at
clear_bit bm idx =
    if bit_at bm idx == 0
    then (bm, negsuc 0)
    else (update bm (idx / 8) (bit_and (bm (idx / 8)) (2 ^ 32 - 1 - 2 ^ (idx % 8))), pos 0)
