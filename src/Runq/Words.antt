-- ===== src/Runq/Words.antt =====
-- How the scan over status words finds a bit.
use free_bsd_messaround.Prelude.{
  ℕ, zero, suc, ◌+◌, ◌-◌, ◌*◌, ◌/◌, ◌%◌, ◌≤◌, ◌<◌, ◌≡◌, refl, ap, ◌∙◌, inl, inr, Bool, true, false,
  Option, none, some, arith, ltb, leb, ◌==◌, if◌then◌else◌, Bool-cases,
}
use mathlib.Core.Path.{fun_ext}
use native.Mathlib.Nat.{div-add-mod', div-eq_of_lt-le, div-lt_iff_lt-mul, mod-lt}
use free_bsd_messaround.Runq.{
  Machine, Runq, Word, or_wrap, rq_nqs, ones, and_word, nonzero, rqb_word, rqb_bit, findbit_loop,
  runq_findbit, findbit_from_loop, runq_findbit_from,
}

pub word_split : (b i j : ℕ) → j < b → ((i * b + j) / b ≡ i) × ((i * b + j) % b ≡ j)
word_split b i j h =
    let d : (i * b + j) / b ≡ i = div-eq_of_lt-le b (omega arith) (omega arith) in
    (d, omega (arith, div-add-mod' (i * b + j) b, ap (λ (t : ℕ). t * b) d))

pub split_word : (b p : ℕ) → 0 < b → ((p / b) * b + p % b ≡ p) × (p % b < b)
split_word b p h = (div-add-mod' p b, mod-lt p h)

pub nonzero-true : (n : ℕ) (w : Word) → nonzero n w ≡ true → (j : ℕ) × (j < n) × (w j ≡ true)
unfolding nonzero
nonzero-true zero w h = absurd (cc)
nonzero-true (suc n) w h = elim (Bool-cases (w n)) [
  | inl set ↦ (n, omega arith, set)
  | inr clear ↦ let (j, below, set) = nonzero-true n w (ground arith) in (j, omega arith, set)
]

pub nonzero-false : (n : ℕ) (w : Word) (j : ℕ) → nonzero n w ≡ false → j < n → w j ≡ false
unfolding nonzero
nonzero-false zero w j h lt = absurd (omega arith)
nonzero-false (suc n) w j h lt = elim (Bool-cases (j == n)) [
  | inl e ↦ ground arith
  | inr e ↦ ground (arith, nonzero-false n w j)
]

module _ (m : Machine) where
  -- The bit of a queue.
  abbrev pub bit : Runq → ℕ → Bool
  bit rq p = rq.status (rqb_word m p) (rqb_bit m p)

  -- What a search from queue `lo` returns: the first queue whose bit is set, or none if there is none.
  abbrev pub FirstFrom : Runq → ℕ → Option ℕ → Type 0
  FirstFrom rq lo none = (p : ℕ) → lo ≤ p → p < rq_nqs → bit rq p ≡ false
  FirstFrom rq lo (some p) =
      (lo ≤ p) × (p < rq_nqs) × (bit rq p ≡ true) × ((q : ℕ) → lo ≤ q → q < p → bit rq q ≡ false)

  -- A word that is zero under the mask leaves the search to the next word.
  skip_word :
      (rq : Runq) (lo i : ℕ) (r : Option ℕ)
      → ((p : ℕ) → lo ≤ p → p < (i + 1) * m.bpw → bit rq p ≡ false)
      → lo ≤ (i + 1) * m.bpw
      → FirstFrom rq ((i + 1) * m.bpw) r
      → FirstFrom rq lo r
  skip_word rq lo i none clear le h = λ p a b. elim (Bool-cases (ltb p ((i + 1) * m.bpw))) [
    | inl e ↦ clear p a (ground arith)
    | inr e ↦ h p (ground arith) b
  ]
  skip_word rq lo i (some q) clear le h = (
    omega arith,
    h.1,
    h.2,
    λ p a b. elim (Bool-cases (ltb p ((i + 1) * m.bpw))) [
      | inl e ↦ clear p a (ground arith)
      | inr e ↦ h.3 p (ground arith) b
    ],
  )

  in_word :
      (rq : Runq) (i q : ℕ)
      → i * m.bpw ≤ q
      → q < (i + 1) * m.bpw
      → bit rq q ≡ rq.status i (q - i * m.bpw)
  in_word rq i q lo hi =
      let s = word_split m.bpw i (q - i * m.bpw) (omega arith) in
      let e : i * m.bpw + (q - i * m.bpw) ≡ q = omega arith in
      let d : q / m.bpw ≡ i = rw e at s.0 in
      let r : q % m.bpw ≡ q - i * m.bpw = rw e at s.1 in λ t. rq.status (d t) (r t)

  pub word_end : (i : ℕ) → i < m.len → (i + 1) * m.bpw ≤ rq_nqs
  word_end i h = let c = m.covers in grind arith

  word_clear :
      (rq : Runq) (i lo : ℕ) (mask : Word) (p : ℕ)
      → i * m.bpw ≤ lo
      → ((j : ℕ) → j < m.bpw → mask j ≡ leb lo (i * m.bpw + j))
      → nonzero m.bpw (and_word (rq.status i) mask) ≡ false
      → lo ≤ p
      → p < (i + 1) * m.bpw
      → bit rq p ≡ false
  word_clear rq i lo mask p a k clear pl pu =
      let j : ℕ = p - i * m.bpw in
      let off = nonzero-false m.bpw (and_word (rq.status i) mask) j clear (omega arith) in
      let kj = k j (omega arith) in
      let on : mask j ≡ true = ground arith in in_word rq i p (omega arith) pu ∙ ground arith

  below_ffs : (w : Word) (j : ℕ) → j < m.bpw → j < m.ffs w → w j ≡ false
  below_ffs w j h lt = elim (Bool-cases (w j)) [
    | inl set ↦ absurd (omega (arith, (m.ffs_lowest w j h set).1))
    | inr clear ↦ clear
  ]

  under_ffs :
      (rq : Runq) (i lo : ℕ) (mask : Word) (j : ℕ)
      → i * m.bpw ≤ lo
      → ((j : ℕ) → j < m.bpw → mask j ≡ leb lo (i * m.bpw + j))
      → lo ≤ i * m.bpw + j
      → j < m.bpw
      → j < m.ffs (and_word (rq.status i) mask)
      → rq.status i j ≡ false
  under_ffs rq i lo mask j a k le jl lt =
      let off = below_ffs (and_word (rq.status i) mask) j jl lt in
      let kj = k j jl in let on : mask j ≡ true = ground arith in ground arith

  word_found :
      (rq : Runq) (i lo : ℕ) (mask : Word)
      → i < m.len
      → i * m.bpw ≤ lo
      → ((j : ℕ) → j < m.bpw → mask j ≡ leb lo (i * m.bpw + j))
      → nonzero m.bpw (and_word (rq.status i) mask) ≡ true
      → FirstFrom rq lo (some (m.ffs (and_word (rq.status i) mask) + i * m.bpw))
  word_found rq i lo mask il a k set =
      let w : Word = and_word (rq.status i) mask in
      let (j, below, js) = nonzero-true m.bpw w set in
      let (fs, fl) = m.ffs_lowest w j below js in
      let kf = k (m.ffs w) (omega arith) in
      let lo-le : lo ≤ i * m.bpw + m.ffs w = ground arith in
      let end = word_end i il in
      (
        omega arith,
        omega arith,
        in_word rq i (m.ffs w + i * m.bpw) (omega arith) (omega arith)
            ∙ (let f : m.ffs w + i * m.bpw - i * m.bpw ≡ m.ffs w = omega arith in
                rw f (ground arith)),
        λ q ql qu.
            in_word rq i q (omega arith) (omega arith)
            ∙ under_ffs rq i lo mask (q - i * m.bpw) a k (omega arith) (omega arith) (omega arith),
      )

  scan_first :
      (rq : Runq) (n i lo : ℕ) (mask : Word)
      → i + n ≡ m.len
      → i * m.bpw ≤ lo
      → lo ≤ (i + 1) * m.bpw
      → ((j : ℕ) → j < m.bpw → mask j ≡ leb lo (i * m.bpw + j))
      → FirstFrom rq lo (findbit_from_loop m rq n i mask)
  unfolding findbit_from_loop
  scan_first rq zero i lo mask e a b k = λ p c d.
      let e' : i ≡ m.len = omega arith in
      let f : i * m.bpw ≡ rq_nqs = rw e' m.covers in absurd (omega arith)
  scan_first rq (suc n) i lo mask e a b k =
      elim (Bool-cases (nonzero m.bpw (and_word (rq.status i) mask))) [
        | inl set ↦ rw (set) (word_found rq i lo mask (omega arith) a k set)
        | inr clear ↦ rw clear (
            skip_word rq lo i _ (λ p pl pu. word_clear rq i lo mask p a k clear pl pu) b
              (scan_first rq n (i + 1) ((i + 1) * m.bpw) ones (omega arith) (omega arith)
                (omega arith) (λ j lt. ground arith)))
      ]

  and-ones : (w : Word) → and_word w ones ≡ w
  and-ones w = fun_ext λ j. ground arith

  findbit-eq-from : (rq : Runq) (n i : ℕ) → findbit_loop m rq n i ≡ findbit_from_loop m rq n i ones
  unfolding findbit_loop findbit_from_loop
  findbit-eq-from rq zero i = refl
  findbit-eq-from rq (suc n) i = rw (and-ones (rq.status i), findbit-eq-from rq n (i + 1)) refl

  scan_zero : (rq : Runq) → FirstFrom rq 0 (findbit_from_loop m rq m.len 0 ones)
  scan_zero rq =
      scan_first rq m.len 0 0 ones (omega arith) (omega arith) (omega arith) (λ j lt. ground arith)

  -- runq_findbit returns the least queue whose bit is set, and -1 exactly when no bit is set.
  pub runq_findbit-first : (rq : Runq) → FirstFrom rq 0 (runq_findbit m rq)
  unfolding runq_findbit
  runq_findbit-first rq = rw (findbit-eq-from rq m.len 0) (scan_zero rq)

  -- How far queue `p` stands behind queue `pri`, going up and round.
  abbrev pub distance : ℕ → ℕ → ℕ
  distance pri p = (p + rq_nqs - pri) % rq_nqs

  abbrev pub NearestFrom : Runq → ℕ → Option ℕ → Type 0
  NearestFrom rq pri none = (p : ℕ) → p < rq_nqs → bit rq p ≡ false
  NearestFrom rq pri (some p) =
      (p < rq_nqs)
      × (bit rq p ≡ true)
      × ((q : ℕ) → q < rq_nqs → bit rq q ≡ true → distance pri p ≤ distance pri q)

  scan_pri :
      (rq : Runq) (pri : ℕ)
      → pri < rq_nqs
      → FirstFrom rq pri (
          findbit_from_loop m rq
            (m.len - rqb_word m pri)
            (rqb_word m pri)
            (λ j. leb (rqb_bit m pri) j))
  scan_pri rq pri h =
      let s = split_word m.bpw pri m.bpw_pos in
      let c : pri < m.len * m.bpw = rw m.covers h in
      let l = (div-lt_iff_lt-mul m.bpw_pos).1 c in
      scan_first rq _ _ pri _ (omega arith) (omega arith) (omega arith) (λ j lt. ground arith)

  nearest_wrapped :
      (rq : Runq) (pri p q : ℕ)
      → pri < rq_nqs
      → ltb p pri ≡ true
      → FirstFrom rq pri none
      → FirstFrom rq 0 (some p)
      → q < rq_nqs
      → bit rq q ≡ true
      → distance pri p ≤ distance pri q
  nearest_wrapped rq pri p q h under f g l on = elim (Bool-cases (ltb q pri)) [
    | inr e ↦ let off = f q (ground arith) l in absurd (cc)
    | inl e ↦ elim (Bool-cases (ltb q p)) [
      | inl u ↦ let off = g.3 q (omega arith) (ground arith) in absurd (cc)
      | inr u ↦ ground arith
    ]
  ]

  nearest :
      (rq : Runq) (pri : ℕ) (r again : Option ℕ)
      → pri < rq_nqs
      → FirstFrom rq pri r
      → FirstFrom rq 0 again
      → NearestFrom rq pri (or_wrap r (if pri == 0 then none else again))
  unfolding or_wrap
  nearest rq pri (some p) again h f g = (
    f.1,
    f.2,
    λ q l on. elim (Bool-cases (ltb q pri)) [
      | inl e ↦ ground arith
      | inr e ↦ elim (Bool-cases (ltb q p)) [
        | inl u ↦ let off = f.3 q (ground arith) (ground arith) in absurd (cc)
        | inr u ↦ ground arith
      ]
    ],
  )
  nearest rq pri none none h f g = elim (Bool-cases (pri == 0)) [
    | inl e ↦ rw e (λ p l. g p (omega arith) l)
    | inr e ↦ rw e (λ p l. g p (omega arith) l)
  ]
  nearest rq pri none (some p) h f g = elim (Bool-cases (pri == 0)) [
    | inl e ↦ rw e (λ q l. f q (ground arith) l)
    | inr e ↦ rw e (
      g.1,
      g.2,
      λ q l on. elim (Bool-cases (ltb p pri)) [
        | inl under ↦ nearest_wrapped rq pri p q h under f g l on
        | inr over ↦ let off = f p (ground arith) g.1 in absurd (cc)
      ],
    )
  ]

  -- Searching from queue `pri`, runq_findbit_from returns the queue with its bit set that comes
  -- first when the queues are taken upwards from `pri` and round, and -1 exactly when no bit is set.
  pub runq_findbit_from-nearest :
      (rq : Runq) (pri : ℕ) → pri < rq_nqs → NearestFrom rq pri (runq_findbit_from m rq pri)
  unfolding runq_findbit_from
  runq_findbit_from-nearest rq pri h = nearest rq pri _ _ h (scan_pri rq pri h) (scan_zero rq)
