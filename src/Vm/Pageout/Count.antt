-- ===== src/Vm/Pageout/Count.antt =====
-- What the counting loop of vm_pageout_scan counts, and when its printf reads no page.
use free_bsd_messaround.Prelude.{
  ℕ, suc, ◌+◌, ◌^◌, ◌%◌, ◌≤◌, ◌≡◌, refl, subst, inl, inr, Bool, true, false, Option, none, some,
  List, [], ◌∷◌, arith, Bool-cases,
}
use free_bsd_messaround.Vm.{Page, Memory, Kernel}
use free_bsd_messaround.Vm.Lists.{Rises, after}
use free_bsd_messaround.Vm.Valid.{IsValid}
use free_bsd_messaround.Vm.Pageout.{
  counts, or_front, if_last, count_loop, birthdays, new_page_line, inactive,
}

-- Whether the last page of a list counts.
unfoldable pub last_counts : (ℕ → Page) → List ℕ → Bool
last_counts pages [] = false
last_counts pages (x ∷ []) = counts (pages x)
last_counts pages (x ∷ y ∷ ys) = last_counts pages (y ∷ ys)

module _ (pages : ℕ → Page) where
  end_back : (front back : Option ℕ) (num : ℕ) → (count_loop pages [] front back num).1 ≡ back
  unfolding count_loop
  end_back front back num = refl

  ended :
      (front back : Option ℕ) (num : ℕ) → count_loop pages [] front back num ≡ (front, back, num)
  unfolding count_loop
  ended front back num = refl

  counted_step :
      (x : ℕ) (xs : List ℕ) (front back : Option ℕ) (num : ℕ)
      → counts (pages x) ≡ true
      → count_loop pages (x ∷ xs) front back num
        ≡ count_loop pages xs (or_front front x) (if_last xs x back) ((num + 1) % 2 ^ 64)
  unfolding count_loop
  counted_step x xs front back num e = rw e refl

  passed_step :
      (x : ℕ) (xs : List ℕ) (front back : Option ℕ) (num : ℕ)
      → counts (pages x) ≡ false
      → count_loop pages (x ∷ xs) front back num ≡ count_loop pages xs front back num
  unfolding count_loop
  passed_step x xs front back num e = rw e refl

  back_unset :
      (xs : List ℕ) (front : Option ℕ) (num : ℕ)
      → last_counts pages xs ≡ false
      → (count_loop pages xs front none num).1 ≡ none
  unfolding last_counts if_last
  back_unset [] front num h = end_back front none num
  back_unset (x ∷ []) front num h = rw (passed_step x [] front none num h) (end_back front none num)
  back_unset (x ∷ y ∷ ys) front num h = elim (Bool-cases (counts (pages x))) [
    | inl e ↦ rw (counted_step x (y ∷ ys) front none num e) (back_unset (y ∷ ys) _ _ h)
    | inr e ↦ rw (passed_step x (y ∷ ys) front none num e) (back_unset (y ∷ ys) front num h)
  ]

  -- What the loop finds when the last page counts: the page at the back, and, with birthdays that
  -- rise from low on, no more pages than birthdays up to it.
  record Found (low num : ℕ) (r : Option ℕ × Option ℕ × ℕ) : Type 0 where
    pub back : ℕ
    pub at_back : r.1 ≡ some back
    pub bound : r.2 + low ≤ num + (pages back).id + 1

  -- A page that counts is no marker.
  counts_real : (x : ℕ) → counts (pages x) ≡ true → (pages x).marker ≡ false
  unfolding counts
  counts_real x e = ground arith

  after_real : (low x : ℕ) → (pages x).marker ≡ false → after pages low x ≡ suc (pages x).id
  after_real low x real = rw real refl

  found :
      (low : ℕ) (xs : List ℕ) (high : ℕ) (front back : Option ℕ) (num : ℕ)
      → Rises pages low xs high
      → last_counts pages xs ≡ true
      → Found low num (count_loop pages xs front back num)
  unfolding last_counts if_last Rises
  found low [] high front back num _ h = absurd (ground (arith, h))
  found low (x ∷ []) high front back num (first, others) h =
      rw
        (counted_step x [] front back num h, ended (or_front front x) (some x) ((num + 1) % 2 ^ 64))
        (record { back = x; at_back = refl; bound = omega (arith, first (counts_real x h)) })
  found low (x ∷ y ∷ ys) high front back num (first, others) h =
      elim (Bool-cases (counts (pages x))) [
        | inl e ↦
            let r =
              found (after pages low x) (y ∷ ys) high (or_front front x) back ((num + 1) % 2 ^ 64)
                others h in
            rw (counted_step x (y ∷ ys) front back num e) (record {
              back = r.back;
              at_back = r.at_back;
              bound = ground (arith, r.bound, counts_real x e, first);
            })
        | inr e ↦
            let r = found (after pages low x) (y ∷ ys) high front back num others h in
            rw (passed_step x (y ∷ ys) front back num e) (record {
              back = r.back;
              at_back = r.at_back;
              bound = ground (arith, r.bound, first);
            })
      ]

  -- The page in front, which the rest of the loop keeps.
  front_kept :
      (xs : List ℕ) (f : ℕ) (back : Option ℕ) (num : ℕ)
      → (count_loop pages xs (some f) back num).0 ≡ some f
  unfolding or_front
  front_kept [] f back num = rw (ended (some f) back num) refl
  front_kept (x ∷ xs) f back num = elim (Bool-cases (counts (pages x))) [
    | inl e ↦ rw (counted_step x xs (some f) back num e) (front_kept xs f _ _)
    | inr e ↦ rw (passed_step x xs (some f) back num e) (front_kept xs f back num)
  ]

  -- The loop from the start of a list whose last page counts.
  record Whole (r : Option ℕ × Option ℕ × ℕ) : Type 0 where
    pub front : ℕ
    pub at_front : r.0 ≡ some front
    pub back : ℕ
    pub at_back : r.1 ≡ some back
    pub bound : r.2 + (pages front).id ≤ (pages back).id + 1

  whole :
      (low : ℕ) (xs : List ℕ) (high : ℕ)
      → Rises pages low xs high
      → last_counts pages xs ≡ true
      → Whole (count_loop pages xs none none 0)
  unfolding last_counts if_last Rises or_front
  whole low [] high _ h = absurd (ground (arith, h))
  whole low (x ∷ []) high (first, others) h =
      rw (counted_step x [] none none 0 h, ended (some x) (some x) ((0 + 1) % 2 ^ 64))
        (record { front = x; at_front = refl; back = x; at_back = refl; bound = omega arith })
  whole low (x ∷ y ∷ ys) high (first, others) h = elim (Bool-cases (counts (pages x))) [
    | inl e ↦
        let r =
          found (suc (pages x).id) (y ∷ ys) high (some x) none 1
            (subst (λ (n : ℕ). Rises pages n (y ∷ ys) high) (after_real low x (counts_real x e))
              others)
            h in
        rw (counted_step x (y ∷ ys) none none 0 e) (record {
          front = x;
          at_front = front_kept (y ∷ ys) x none 1;
          back = r.back;
          at_back = r.at_back;
          bound = omega (arith, r.bound);
        })
    | inr e ↦
        rw (passed_step x (y ∷ ys) none none 0 e) (whole (after pages low x) (y ∷ ys) high others h)
  ]

no_back :
    (pages : ℕ → Page) (front : Option ℕ) (num : ℕ) → birthdays pages (front, none, num) ≡ none
unfolding birthdays
no_back pages none num = refl
no_back pages (some f) num = refl

birthdays_unset :
    (pages : ℕ → Page) (r : Option ℕ × Option ℕ × ℕ) → r.1 ≡ none → birthdays pages r ≡ none
birthdays_unset pages (front, back, num) e = rw e (no_back pages front num)

-- The line of what the loop found.
line_of :
    (pages : ℕ → Page) (r : Option ℕ × Option ℕ × ℕ)
    → Whole pages r
    → (num head tail : ℕ) × (birthdays pages r ≡ some (num, head, tail)) × (num + head ≤ tail + 1)
unfolding birthdays
line_of pages (front, back, num) w =
    rw (w.at_front, w.at_back) (num, (pages w.front).id, (pages w.back).id, refl, w.bound)

-- The line that vm_pageout_scan prints reads a page through a pointer that was not set or is NULL if
-- the inactive queue is empty or its last page is a marker, held or busy.
pub new_page_line_fault :
    (s : Memory) (d : ℕ) → last_counts s.pages (inactive s d) ≡ false → new_page_line s d ≡ none
unfolding new_page_line
new_page_line_fault s d h = birthdays_unset s.pages _ (back_unset s.pages (inactive s d) none 0 h)

-- In a valid memory in which the last page of the inactive queue is no marker, not held and not
-- busy, the line is printed, and the number of pages in it is at most one more than the difference
-- of the birthdays at the tail and at the head, whichever pages left the queue in between.
pub new_page_line-bound :
    (k : Kernel) (s : Memory) (d : ℕ)
    → IsValid k s
    → last_counts s.pages (inactive s d) ≡ true
    → (num head tail : ℕ) × (new_page_line s d ≡ some (num, head, tail)) × (num + head ≤ tail + 1)
unfolding new_page_line
new_page_line-bound k s d v h =
    line_of s.pages _ (whole s.pages 0 (inactive s d) s.pg_cnt (v.rises d) h)
