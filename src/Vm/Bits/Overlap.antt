-- ===== src/Vm/Bits/Overlap.antt =====
-- vm_page_bits of asgn3/vm/vm_page.c.
use free_bsd_messaround.Prelude.{
  ℕ, ◌+◌, ◌-◌, ◌*◌, ◌/◌, ◌%◌, ◌^◌, ◌≤◌, ◌<◌, ◌≡◌, refl, ◌∙◌, inl, inr, Bool, true, false, ◌&&◌,
  ◌||◌, not, some, arith, ltb, leb, ◌==◌, Bool-cases,
}
use free_bsd_messaround.Vm.Bits.{block_bit, vm_page_bits}
use free_bsd_messaround.Vm.Bits.Check.{check_below, check_below-true}

same : Bool → Bool → Bool
same true b = b
same false b = not b

same-true : (a b : Bool) → same a b ≡ true → a ≡ b
unfolding same
same-true true true e = refl
same-true true false e = absurd (cc)
same-true false true e = absurd (cc)
same-true false false e = refl

bits_agree : ℕ → ℕ → ℕ → Bool
bits_agree first last i =
    not (leb first last)
    || same (block_bit ((2 * 2 ^ last - 2 ^ first) % 2 ^ 8) i) (leb first i && leb i last)

all_agree : check_below 8 (λ f. check_below 8 (λ l. check_below 8 (bits_agree f l))) ≡ true
unfolding check_below bits_agree same block_bit
all_agree = refl

bits_agree-true : (first last i : ℕ) → first < 8 → last < 8 → i < 8 → bits_agree first last i ≡ true
bits_agree-true first last i f l b =
    check_below-true 8 i (bits_agree first last)
      (check_below-true 8 last (λ y. check_below 8 (bits_agree first y))
        (check_below-true 8 first (λ x. check_below 8 (λ y. check_below 8 (bits_agree x y)))
          all_agree f)
        l)
      b

has_bit-shifted :
    (first last i : ℕ)
    → first ≤ last
    → last < 8
    → i < 8
    → block_bit ((2 * 2 ^ last - 2 ^ first) % 2 ^ 8) i ≡ (leb first i && leb i last)
unfolding bits_agree
has_bit-shifted first last i le l b =
    same-true _ _ (ground (arith, le, bits_agree-true first last i (omega (arith, le, l)) l b))

no_bits : (i : ℕ) → i < 8 → block_bit 0 i ≡ false
unfolding check_below block_bit
no_bits i l = ground (arith, check_below-true 8 i (λ j. not (block_bit 0 j)) refl l)

-- For a range inside the page vm_page_bits returns the bits of the blocks that share a byte with it.
pub vm_page_bits-overlap :
    (base size i : ℕ)
    → base + size ≤ 4096
    → i < 8
    → (bits : ℕ) × (vm_page_bits base size ≡ some bits)
      × (block_bit bits i ≡ (ltb 0 size && ltb base ((i + 1) * 512) && ltb (i * 512) (base + size)))
unfolding vm_page_bits
vm_page_bits-overlap base size i fits below = elim (Bool-cases (size == 0)) [
  | inl e ↦ (0, ground (arith, fits, e), no_bits i below ∙ ground (arith, e))
  | inr e ↦ (
    (2 * 2 ^ ((base + size - 1) / 512) - 2 ^ (base / 512)) % 2 ^ 8,
    ground (arith, fits, e),
    has_bit-shifted (base / 512) ((base + size - 1) / 512) i (ground (arith, e))
          (omega (arith, fits)) below
        ∙ ground (arith, e),
  )
]
