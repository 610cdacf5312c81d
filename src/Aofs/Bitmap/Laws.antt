-- ===== src/Aofs/Bitmap/Laws.antt =====
-- What the bitmap operations do to each bit, from a table over all bytes and positions.
use free_bsd_messaround.Prelude.{
  ℕ, zero, suc, ◌+◌, ◌-◌, ◌/◌, ◌%◌, ◌^◌, ◌≤◌, ◌<◌, ◌≡◌, refl, inl, inr, Bool, true, false, ◌&&◌,
  Option, none, some, arith, ltb, ltb→lt, ◌==◌, ==_iff, if◌then◌else◌, update, bit_and, bit_or,
  passes, passes-at, Bool-cases,
}
use free_bsd_messaround.Aofs.Bitmap.{
  Bitmap, IsBytes, bit_at, free_loop, find_free_bit, set_bit, clear_bit,
}

-- The table of an operation on a byte that writes `b` at position `k`.
abbrev row : (ℕ → ℕ → ℕ) → ℕ → ℕ → ℕ → ℕ → Bool
row f b v k j = f v k / 2 ^ j % 2 == (if j == k then b else v / 2 ^ j % 2)

abbrev table : (ℕ → ℕ → ℕ) → ℕ → Bool
table f b = passes (λ v. passes (λ k. ltb (f v k) 256 && passes (row f b v k) 8) 8) 256

abbrev or_mask : ℕ → ℕ → ℕ
or_mask v k = bit_or v (2 ^ k)

abbrev and_mask : ℕ → ℕ → ℕ
and_mask v k = bit_and v (2 ^ 32 - 1 - 2 ^ k)

or_table : table or_mask 1 ≡ true
unfolding passes
or_table = refl

and_table : table and_mask 0 ≡ true
unfolding passes
and_table = refl

and_true : (a b : Bool) → (a && b) ≡ true → (a ≡ true) × (b ≡ true)
and_true true b h = (refl, h)
and_true false b h = absurd (cc)

read_table :
    (f : ℕ → ℕ → ℕ) (b v k j : ℕ)
    → table f b ≡ true
    → v < 256
    → k < 8
    → j < 8
    → (f v k < 256) × (f v k / 2 ^ j % 2 ≡ (if j == k then b else v / 2 ^ j % 2))
read_table f b v k j t hv hk hj =
    let cell = passes-at _ 8 k hk (passes-at _ 256 v hv t) in
    let both = and_true (ltb (f v k) 256) _ cell in
    (ltb→lt _ _ both.0, (==_iff _ _).0 (passes-at (row f b v k) 8 j hj both.1))

-- Writing one byte writes one bit.
written :
    (f : ℕ → ℕ → ℕ) (b : ℕ) (bm : Bitmap) (i j : ℕ)
    → table f b ≡ true
    → IsBytes bm
    → bit_at (update bm (i / 8) (f (bm (i / 8)) (i % 8))) j ≡ (if j == i then b else bit_at bm j)
unfolding bit_at
written f b bm i j t h = elim (Bool-cases (j / 8 == i / 8)) [
  | inr e ↦ rw e (let ne : (j == i) ≡ false = ground arith in rw ne refl)
  | inl e ↦
      let q : j / 8 ≡ i / 8 = (==_iff (j / 8) (i / 8)).0 e in
      let r =
        (read_table f b (bm (i / 8)) (i % 8) (j % 8) t (h (i / 8)) (omega arith) (omega arith)).1 in
      rw (e, r, q)
        (elim (Bool-cases (j % 8 == i % 8)) [
          | inl u ↦ let eq : (j == i) ≡ true = ground arith in rw (u, eq) refl
          | inr u ↦ let ne : (j == i) ≡ false = ground arith in rw (u, ne) refl
        ])
]

written-IsBytes :
    (f : ℕ → ℕ → ℕ) (b : ℕ) (bm : Bitmap) (i : ℕ)
    → table f b ≡ true
    → IsBytes bm
    → IsBytes (update bm (i / 8) (f (bm (i / 8)) (i % 8)))
written-IsBytes f b bm i t h j = elim (Bool-cases (j == i / 8)) [
  | inr e ↦ rw e (h j)
  | inl e ↦ rw e (read_table f b (bm (i / 8)) (i % 8) 0 t (h (i / 8)) (omega arith) (omega arith)).0
]

pub one_of_nonzero : (bm : Bitmap) (i : ℕ) → (bit_at bm i == 0) ≡ false → bit_at bm i ≡ 1
unfolding bit_at
one_of_nonzero bm i e = ground arith

-- In a bitmap of bytes set_bit sets the bit at its index and leaves all others, whether the bit was
-- set before or not.
pub bit_at-set_bit :
    (bm : Bitmap) (i j : ℕ)
    → IsBytes bm
    → bit_at (set_bit bm i).0 j ≡ (if j == i then 1 else bit_at bm j)
unfolding set_bit
bit_at-set_bit bm i j h = elim (Bool-cases (bit_at bm i == 0)) [
  | inl e ↦ rw e (written or_mask 1 bm i j or_table h)
  | inr e ↦ rw e (elim (Bool-cases (j == i)) [
    | inl u ↦ let q : j ≡ i = (==_iff j i).0 u in rw (u, q) (one_of_nonzero bm i e)
    | inr u ↦ rw u refl
  ])
]

-- In a bitmap of bytes clear_bit clears the bit at its index and leaves all others, whether the bit
-- was set before or not.
pub bit_at-clear_bit :
    (bm : Bitmap) (i j : ℕ)
    → IsBytes bm
    → bit_at (clear_bit bm i).0 j ≡ (if j == i then 0 else bit_at bm j)
unfolding clear_bit
bit_at-clear_bit bm i j h = elim (Bool-cases (bit_at bm i == 0)) [
  | inr e ↦ rw e (written and_mask 0 bm i j and_table h)
  | inl e ↦ rw e (elim (Bool-cases (j == i)) [
    | inl u ↦ let q : j ≡ i = (==_iff j i).0 u in rw (u, q) ((==_iff _ _).0 e)
    | inr u ↦ rw u refl
  ])
]

pub set_bit-IsBytes : (bm : Bitmap) (i : ℕ) → IsBytes bm → IsBytes (set_bit bm i).0
unfolding set_bit
set_bit-IsBytes bm i h = elim (Bool-cases (bit_at bm i == 0)) [
  | inl e ↦ rw e (written-IsBytes or_mask 1 bm i or_table h)
  | inr e ↦ rw e h
]

pub clear_bit-IsBytes : (bm : Bitmap) (i : ℕ) → IsBytes bm → IsBytes (clear_bit bm i).0
unfolding clear_bit
clear_bit-IsBytes bm i h = elim (Bool-cases (bit_at bm i == 0)) [
  | inr e ↦ rw e (written-IsBytes and_mask 0 bm i and_table h)
  | inl e ↦ rw e h
]

-- What a search below `n` returns: the first free index, or none if every index is taken.
abbrev pub FirstFree : Bitmap → ℕ → ℕ → Option ℕ → Type 0
FirstFree bm i n none = (j : ℕ) → i ≤ j → j < n → bit_at bm j ≡ 1
FirstFree bm i n (some f) =
    (i ≤ f) × (f < n) × (bit_at bm f ≡ 0) × ((j : ℕ) → i ≤ j → j < f → bit_at bm j ≡ 1)

-- A search that skips a taken index has the same result.
earlier :
    (bm : Bitmap) (i m : ℕ) (r : Option ℕ)
    → bit_at bm i ≡ 1
    → FirstFree bm (i + 1) m r
    → FirstFree bm i m r
earlier bm i m none u h = λ j a b. elim (Bool-cases (j == i)) [
  | inl e ↦ let q : j ≡ i = (==_iff j i).0 e in rw q u
  | inr e ↦ h j (ground arith) b
]
earlier bm i m (some f) u h = (
  omega arith,
  h.1,
  h.2,
  λ j a b. elim (Bool-cases (j == i)) [
    | inl e ↦ let q : j ≡ i = (==_iff j i).0 e in rw q u
    | inr e ↦ h.3 j (ground arith) b
  ],
)

free_loop-FirstFree : (bm : Bitmap) (n i m : ℕ) → i + n ≡ m → FirstFree bm i m (free_loop bm n i)
unfolding free_loop
free_loop-FirstFree bm zero i m e = λ j a b. absurd (omega arith)
free_loop-FirstFree bm (suc n) i m e = elim (Bool-cases (bit_at bm i == 0)) [
  | inl u ↦ rw u (omega arith, omega arith, (==_iff _ _).0 u, λ j a b. absurd (omega arith))
  | inr u ↦ rw u (
      earlier bm i m (free_loop bm n (i + 1)) (one_of_nonzero bm i u)
        (free_loop-FirstFree bm n (i + 1) m (omega arith)))
]

-- find_free_bit returns the least index below the limit whose bit is clear, and -1 exactly when all
-- of them are set.
pub find_free_bit-FirstFree : (bm : Bitmap) (n : ℕ) → FirstFree bm 0 n (find_free_bit bm n)
unfolding find_free_bit
find_free_bit-FirstFree bm n = free_loop-FirstFree bm n 0 n (omega arith)
