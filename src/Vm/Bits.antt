-- ===== src/Vm/Bits.antt =====
-- asgn3/vm/vm_page.c: the valid and dirty bits of a page of 4096 bytes, one for each of its eight
-- blocks of DEV_BSIZE bytes.
pub mod Check
pub mod Overlap
pub mod Zero
pub mod Range
use free_bsd_messaround.Prelude.{
  ℕ, zero, suc, ◌+◌, ◌-◌, ◌*◌, ◌/◌, ◌%◌, ◌^◌, ◌≤◌, ◌<◌, ◌≡◌, refl, ap, ◌∙◌, inl, inr, Bool, true,
  false, ◌&&◌, ◌||◌, not, Option, none, some, List, [], ◌∷◌, arith, ltb, leb, ◌==◌, if◌then◌else◌,
  Bool-cases, ==_iff, subst, bit_and, bit_or, sym,
}
use free_bsd_messaround.Vm.{vm_page_bits_all, has_bit}

-- valid & (vm_page_bits_t)1 << i
unfoldable pub block_bit : ℕ → ℕ → Bool
block_bit bits i = has_bit bits (2 ^ i)

-- `none` is the failed assertion.
unfoldable pub vm_page_bits : ℕ → ℕ → Option ℕ
vm_page_bits base size =
    if not (leb (base + size) 4096)
    then none
    else if size == 0
    then some 0
    else some ((2 * 2 ^ ((base + size - 1) / 512) - 2 ^ (base / 512)) % 2 ^ 8)

-- The loop from block i with the next area starting at b, and the areas that it zeroes: the offset
-- and size of each. `n` is the number of rounds left.
unfoldable pub zero_loop : ℕ → ℕ → ℕ → ℕ → List (ℕ × ℕ)
zero_loop valid zero i b = []
zero_loop valid (suc n) i b =
    let ends = i == 8 || block_bit valid i in
    let rest = zero_loop valid n (i + 1) (if ends then i + 1 else b) in
    if ends && ltb b i then (b * 512, (i - b) * 512) ∷ rest else rest

-- The areas zeroed, and the valid bits.
unfoldable pub vm_page_zero_invalid : ℕ → Bool → List (ℕ × ℕ) × ℕ
vm_page_zero_invalid valid setvalid =
    (zero_loop valid 9 0 0, if setvalid then vm_page_bits_all else valid)

-- The bits of a page, whether VPO_NOSYNC is set, the calls of pmap_zero_page_area (offset and size),
-- the last first, and the number of those of pmap_clear_modify.
pub record PageBits : Type 0 where
  pub valid : ℕ
  pub dirty : ℕ
  pub nosync : Bool
  pub zeroed : List (ℕ × ℕ)
  pub modify_cleared : ℕ

unfoldable pub pmap_zero_page_area : PageBits → ℕ → ℕ → PageBits
pmap_zero_page_area s off size = record s { zeroed = (off, size) ∷ s.zeroed }

-- The parts of the first and last block that are outside the range.
unfoldable pub zero_first : PageBits → ℕ → PageBits
unfolding pmap_zero_page_area
zero_first s base =
    let frag = base / 512 * 512 in
    if not (frag == base) && not (block_bit s.valid (base / 512))
    then pmap_zero_page_area s frag (base - frag)
    else s

unfoldable pub zero_last : PageBits → ℕ → PageBits
unfolding pmap_zero_page_area
zero_last s endoff =
    let frag = endoff / 512 * 512 in
    if not (frag == endoff) && not (block_bit s.valid (endoff / 512))
    then pmap_zero_page_area s endoff (512 - endoff % 512)
    else s

unfoldable pub set_valid : PageBits → ℕ → PageBits
set_valid s bits = record s { valid = bit_or s.valid bits }

-- `none` is a failed assertion, here and below.
unfoldable pub validate : PageBits → Option ℕ → Option PageBits
validate s none = none
validate s (some bits) =
    if not (bit_and (bit_and (255 - s.valid) bits) s.dirty == 0)
    then none
    else some (set_valid s bits)

unfoldable pub vm_page_set_valid_range : PageBits → ℕ → ℕ → Option PageBits
vm_page_set_valid_range s base size =
    if size == 0
    then some s
    else validate (zero_last (zero_first s base) (base + size)) (vm_page_bits base size)

-- Both of its ways clear the bits in the byte of the page.
unfoldable pub vm_page_clear_dirty_mask : PageBits → ℕ → PageBits
vm_page_clear_dirty_mask s pagebits = record s { dirty = bit_and s.dirty (255 - pagebits) }

unfoldable pub clean_page : PageBits → Bool → PageBits
clean_page s was_valid = record s {
  modify_cleared = if was_valid then s.modify_cleared + 1 else s.modify_cleared;
  dirty = 0;
  nosync = false;
}

unfoldable pub validclean : Bool → PageBits → Option ℕ → Option PageBits
validclean whole s none = none
validclean whole s (some bits) =
    if whole
    then some (clean_page (set_valid s bits) (s.valid == vm_page_bits_all))
    else some (vm_page_clear_dirty_mask (set_valid s bits) bits)

unfoldable pub vm_page_set_validclean : PageBits → ℕ → ℕ → Option PageBits
vm_page_set_validclean s base size =
    if size == 0
    then some s
    else validclean (base == 0 && size == 4096) (zero_last (zero_first s base) (base + size))
        (vm_page_bits base size)

unfoldable pub covered : ℕ → Option ℕ → Option Bool
covered valid none = none
covered valid (some bits) = some (not (valid == 0) && bit_and valid bits == bits)

unfoldable pub vm_page_is_valid : PageBits → ℕ → ℕ → Option Bool
vm_page_is_valid s base size = covered s.valid (vm_page_bits base size)
