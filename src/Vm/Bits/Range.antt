-- ===== src/Vm/Bits/Range.antt =====
-- vm_page_set_validclean, vm_page_set_valid_range and vm_page_is_valid of asgn3/vm/vm_page.c.
use free_bsd_messaround.Prelude.{
  ℕ, ◌+◌, ◌-◌, ◌*◌, ◌/◌, ◌%◌, ◌^◌, ◌≤◌, ◌<◌, ◌≡◌, refl, ap, ◌∙◌, Bool, true, false, ◌&&◌, ◌||◌, not,
  some, arith, ltb, leb, ◌==◌, if◌then◌else◌, bit_and, bit_or,
}
use free_bsd_messaround.Vm.Bits.{
  PageBits, block_bit, vm_page_bits, vm_page_set_validclean, vm_page_set_valid_range, validate,
  vm_page_is_valid, validclean, covered, clean_page, set_valid, vm_page_clear_dirty_mask,
  zero_first, zero_last, pmap_zero_page_area,
}
use Prim.Native.Nat.{bit_and-bitwise}
use free_bsd_messaround.Vm.Bits.Check.{check_below, check_below-true}

-- What the two byte operations do, for a byte v and bits b.
sets : ℕ → ℕ → Bool
sets v b = bit_and (bit_or v b) b == b && (b == 0 || not (bit_or v b == 0))

clears : ℕ → ℕ → Bool
clears v b = bit_and (bit_and v (255 - b)) b == 0

all_bytes : check_below 256 (λ v. check_below 256 (λ b. sets v b && clears v b)) ≡ true
unfolding check_below sets clears
all_bytes = refl

byte-true : (v b : ℕ) → v < 256 → b < 256 → (sets v b && clears v b) ≡ true
byte-true v b l m =
    check_below-true 256 b (λ y. sets v y && clears v y)
      (check_below-true 256 v (λ x. check_below 256 (λ y. sets x y && clears x y)) all_bytes l) m

set_valid-covered :
    (v b : ℕ)
    → v < 256
    → b < 256
    → (b == 0) ≡ false
    → (not (bit_or v b == 0) && bit_and (bit_or v b) b == b) ≡ true
unfolding sets
set_valid-covered v b l m e = ground (arith, e, byte-true v b l m)

cleared : (v b : ℕ) → v < 256 → b < 256 → bit_and (bit_and v (255 - b)) b ≡ 0
unfolding clears
cleared v b l m = ground (arith, byte-true v b l m)

range_bits : ℕ → ℕ → ℕ
range_bits first last = (2 * 2 ^ last - 2 ^ first) % 2 ^ 8

fits_byte : ℕ → ℕ → Bool
fits_byte first last =
    not (leb first last) || ltb (range_bits first last) 256 && not (range_bits first last == 0)

all_fit : check_below 8 (λ f. check_below 8 (fits_byte f)) ≡ true
unfolding check_below fits_byte range_bits
all_fit = refl

fits_byte-true :
    (f l : ℕ) → f ≤ l → l < 8 → (range_bits f l < 256) × ((range_bits f l == 0) ≡ false)
unfolding fits_byte
fits_byte-true f l le below =
    let fact =
      check_below-true 8 l (fits_byte f)
        (check_below-true 8 f (λ x. check_below 8 (fits_byte x)) all_fit (omega (arith, le, below)))
        below in
    (ground (arith, fact, le), ground (arith, fact, le))

-- The bits of a range that is not empty.
vm_page_bits-some :
    (base size : ℕ)
    → 0 < size
    → base + size ≤ 4096
    → (b : ℕ) × (vm_page_bits base size ≡ some b) × (b < 256) × ((b == 0) ≡ false)
unfolding vm_page_bits range_bits
vm_page_bits-some base size positive fits =
    let fact =
      fits_byte-true (base / 512) ((base + size - 1) / 512) (omega (arith, positive))
        (omega (arith, fits)) in
    (
      range_bits (base / 512) ((base + size - 1) / 512),
      ground (arith, positive, fits),
      fact.0,
      fact.1,
    )

-- The bits of a page that is zeroed in part, on some condition.
same_bits :
    (s : PageBits) (b : Bool) (off size : ℕ)
    → ((if b then pmap_zero_page_area s off size else s).valid ≡ s.valid)
      × ((if b then pmap_zero_page_area s off size else s).dirty ≡ s.dirty)
unfolding pmap_zero_page_area
same_bits s true off size = (refl, refl)
same_bits s false off size = (refl, refl)

zeroing-keeps :
    (s : PageBits) (base endoff : ℕ)
    → ((zero_last (zero_first s base) endoff).valid ≡ s.valid)
      × ((zero_last (zero_first s base) endoff).dirty ≡ s.dirty)
unfolding zero_first zero_last
zeroing-keeps s base endoff =
    let first =
      same_bits s (not (base / 512 * 512 == base) && not (block_bit s.valid (base / 512)))
        (base / 512 * 512) (base - base / 512 * 512) in
    let s1 = zero_first s base in
    let last =
      same_bits s1 (not (endoff / 512 * 512 == endoff) && not (block_bit s1.valid (endoff / 512)))
        endoff (512 - endoff % 512) in
    (last.0 ∙ first.0, last.1 ∙ first.1)

validclean-Clean :
    (whole : Bool) (s : PageBits) (b : ℕ)
    → s.valid < 256
    → s.dirty < 256
    → b < 256
    → (b == 0) ≡ false
    → (s' : PageBits) × (validclean whole s (some b) ≡ some s')
      × (covered s'.valid (some b) ≡ some true)
      × (bit_and s'.dirty b ≡ 0)
unfolding validclean covered clean_page set_valid vm_page_clear_dirty_mask
validclean-Clean true s b v d l e = (
  clean_page (set_valid s b) (s.valid == 255),
  refl,
  ap some (set_valid-covered s.valid b v l e),
  bit_and-bitwise 0 b,
)
validclean-Clean false s b v d l e = (
  vm_page_clear_dirty_mask (set_valid s b) b,
  refl,
  ap some (set_valid-covered s.valid b v l e),
  cleared s.dirty b d l,
)

ne-zero : (n : ℕ) → 0 < n → (n == 0) ≡ false
ne-zero n l = ground (arith, l)

-- For a range of at least one byte inside a page vm_page_set_validclean returns, and afterwards
-- vm_page_is_valid holds of the range, and none of its blocks is dirty, those that the range
-- covers only in part included.
pub vm_page_set_validclean-valid :
    (s : PageBits) (base size : ℕ)
    → s.valid < 256
    → s.dirty < 256
    → 0 < size
    → base + size ≤ 4096
    → (s' : PageBits) × (bits : ℕ) × (vm_page_set_validclean s base size ≡ some s')
      × (vm_page_bits base size ≡ some bits)
      × (vm_page_is_valid s' base size ≡ some true)
      × (bit_and s'.dirty bits ≡ 0)
unfolding vm_page_set_validclean vm_page_is_valid
vm_page_set_validclean-valid s base size v d positive fits =
    let (b, e, l, nonzero) = vm_page_bits-some base size positive fits in
    let kept = zeroing-keeps s base (base + size) in
    let (s', f, g, h) =
      validclean-Clean (base == 0 && size == 4096) (zero_last (zero_first s base) (base + size)) b
        (omega (arith, kept.0, v)) (omega (arith, kept.1, d)) l nonzero in
    (s', b, rw (ne-zero size positive) (rw e f), e, rw e g, h)

validate-Valid :
    (s : PageBits) (b : ℕ)
    → s.valid < 256
    → b < 256
    → (b == 0) ≡ false
    → bit_and (bit_and (255 - s.valid) b) s.dirty ≡ 0
    → (s' : PageBits) × (validate s (some b) ≡ some s')
      × (covered s'.valid (some b) ≡ some true)
      × (s'.dirty ≡ s.dirty)
unfolding validate covered set_valid
validate-Valid s b v l e clean =
    (set_valid s b, rw clean refl, ap some (set_valid-covered s.valid b v l e), refl)

-- When no block of the range is dirty and not valid, vm_page_set_valid_range returns, and afterwards
-- vm_page_is_valid holds of the range and the dirty bits are as they were.
pub vm_page_set_valid_range-valid :
    (s : PageBits) (base size b : ℕ)
    → s.valid < 256
    → 0 < size
    → base + size ≤ 4096
    → vm_page_bits base size ≡ some b
    → bit_and (bit_and (255 - s.valid) b) s.dirty ≡ 0
    → (s' : PageBits) × (vm_page_set_valid_range s base size ≡ some s')
      × (vm_page_is_valid s' base size ≡ some true)
      × (s'.dirty ≡ s.dirty)
unfolding vm_page_set_valid_range vm_page_is_valid
vm_page_set_valid_range-valid s base size b v positive fits e clean =
    let (b', e', l, nonzero) = vm_page_bits-some base size positive fits in
    let same : b' ≡ b = cc in
    let kept = zeroing-keeps s base (base + size) in
    let (s', f, g, h) =
      validate-Valid (zero_last (zero_first s base) (base + size)) b (omega (arith, kept.0, v))
        (omega (arith, same, l)) (ground (arith, same, nonzero)) (rw kept.0 (rw kept.1 clean)) in
    (s', rw (ne-zero size positive) (rw e f), rw e g, h ∙ kept.1)
