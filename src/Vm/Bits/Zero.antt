-- ===== src/Vm/Bits/Zero.antt =====
-- vm_page_zero_invalid of asgn3/vm/vm_page.c.
use free_bsd_messaround.Prelude.{
  ℕ, zero, suc, ◌+◌, ◌-◌, ◌*◌, ◌/◌, ◌≤◌, ◌<◌, ◌≡◌, refl, ◌∙◌, inl, inr, Bool, true, false, ◌&&◌,
  ◌||◌, not, List, [], ◌∷◌, arith, ltb, leb, ◌==◌, if◌then◌else◌, Bool-cases, ==_iff, subst,
}
use free_bsd_messaround.Vm.Bits.{block_bit, zero_loop, vm_page_zero_invalid}

-- Whether a byte of the page is in one of the areas.
unfoldable pub in_areas : ℕ → List (ℕ × ℕ) → Bool
in_areas x [] = false
in_areas x ((offset, size) ∷ areas) = leb offset x && ltb x (offset + size) || in_areas x areas

area_blocks :
    (x b i : ℕ)
    → b < i
    → (leb (b * 512) x && ltb x (b * 512 + (i - b) * 512)) ≡ (leb b (x / 512) && ltb (x / 512) i)
area_blocks x b i l = ground (arith, l)

-- The block that ends an area is valid, and one that does not is not.
valid_at :
    (valid q i : ℕ)
    → q < 8
    → (i == q) ≡ true
    → (i == 8 || block_bit valid i) ≡ true
    → block_bit valid q ≡ true
valid_at valid q i l g e =
    subst (λ j. block_bit valid j ≡ true) ((==_iff i q).0 g) (ground (arith, l, g, e))

invalid_at :
    (valid q i : ℕ)
    → (i == q) ≡ true
    → (i == 8 || block_bit valid i) ≡ false
    → block_bit valid q ≡ false
invalid_at valid q i g e =
    subst (λ j. block_bit valid j ≡ false) ((==_iff i q).0 g) (ground (arith, e))

zero_loop-in_areas :
    (valid x n i b : ℕ)
    → x < 4096
    → i + n ≡ 9
    → b ≤ i
    → (n ≡ 0 → b ≡ 9)
    → (b ≤ x / 512 → x / 512 < i → block_bit valid (x / 512) ≡ false)
    → in_areas x (zero_loop valid n i b) ≡ leb b (x / 512) && not (block_bit valid (x / 512))
unfolding zero_loop in_areas
zero_loop-in_areas valid x zero i b below all le last clear = ground (arith, all, last, below)
zero_loop-in_areas valid x (suc n) i b below all le last clear =
    let after =
      zero_loop-in_areas valid x n (i + 1) (i + 1) below (omega (arith, all)) (omega arith)
        (λ z. omega (arith, all, z)) (λ l l'. absurd (omega (arith, l, l'))) in
    elim (Bool-cases (i == 8 || block_bit valid i)) [
      | inl e ↦ rw e (elim (Bool-cases (ltb b i)) [
        | inl f ↦ rw f (
            rw (area_blocks x b i (ground (arith, f))) (
              rw after (elim (Bool-cases (i == x / 512)) [
                | inl g ↦ ground (arith, g, valid_at valid (x / 512) i (omega (arith, below)) g e)
                | inr g ↦ ground (arith, clear, g)
              ])))
        | inr f ↦ rw f (
            rw after (elim (Bool-cases (i == x / 512)) [
              | inl g ↦ ground (arith, g, valid_at valid (x / 512) i (omega (arith, below)) g e)
              | inr g ↦ ground (arith, f, g, le)
            ]))
      ])
      | inr e ↦ rw e (
          zero_loop-in_areas valid x n (i + 1) b below (omega (arith, all)) (omega (arith, le))
            (λ z. absurd (ground (arith, e, z, all)))
            (λ l l'. elim (Bool-cases (i == x / 512)) [
              | inl g ↦ invalid_at valid (x / 512) i g e
              | inr g ↦ clear l (ground (arith, l', g))
            ]))
    ]

-- A byte of the page is zeroed exactly if the block that it lies in is not valid, and afterwards the
-- valid bits are all set or those that they were, as the caller asks.
pub vm_page_zero_invalid-zeroes :
    (valid x : ℕ) (setvalid : Bool)
    → x < 4096
    → (in_areas x (vm_page_zero_invalid valid setvalid).0 ≡ not (block_bit valid (x / 512)))
      × ((vm_page_zero_invalid valid setvalid).1 ≡ (if setvalid then 255 else valid))
unfolding vm_page_zero_invalid
vm_page_zero_invalid-zeroes valid x setvalid below = (
  zero_loop-in_areas valid x 9 0 0 below refl (omega arith) (λ z. absurd (omega (arith, z)))
        (λ l l'. absurd (omega (arith, l')))
      ∙ ground arith,
  refl,
)
