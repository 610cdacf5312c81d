-- ===== src/Steal/First.antt =====
-- Which thread runq_steal takes, and which threads tdq_steal never takes.
use free_bsd_messaround.Prelude.{
  ℕ, zero, suc, ◌+◌, ◌-◌, ◌*◌, ◌/◌, ◌%◌, ◌<◌, ◌≤◌, ◌≡◌, refl, ◌∙◌, sym, ap, subst, Bool, true,
  false, not, Option, none, some, List, [], ◌∷◌, ◌==◌, ==_iff, has, is_empty, Bool-cases, inl, inr,
  arith, ltb,
}
use native.Mathlib.Nat.{div-lt_iff_lt-mul}
use free_bsd_messaround.Runq.{Machine, Runq, rq_nqs, nonzero, rqb_word, rqb_bit}
use free_bsd_messaround.Runq.Words.{bit, word_split, nonzero-true, nonzero-false, word_end}
use free_bsd_messaround.Runq.Invariant.{IsConsistent}
use free_bsd_messaround.Runq.Choose.{nil_of_empty}
use free_bsd_messaround.Tdq.{Config, Tdq}
use free_bsd_messaround.Tdq.Invariant.{IsValid}
use free_bsd_messaround.Tdq.Choose.{AllEmpty}
use free_bsd_messaround.Steal.{
  or_next, passed, steal_queue, steal_bits, steal_words, runq_steal, scan_bits, scan_words,
  last_resort, runq_steal_from, tdq_steal,
}

module _ (m : Machine) (ok : ℕ → Bool) (rq : Runq) where
  -- No thread of the queue may be taken.
  abbrev pub Refused : ℕ → Type 0
  Refused p = (td : ℕ) → has td (rq.queues p) ≡ true → ok td ≡ false

  -- What a search of the queues from `lo` to `hi` - 1 takes: a thread that may be taken, of the first
  -- queue with such a thread, or none if no queue has one.
  abbrev pub FirstTaken : ℕ → ℕ → Option ℕ → Type 0
  FirstTaken lo hi none = (p : ℕ) → lo ≤ p → p < hi → Refused p
  FirstTaken lo hi (some td) =
      (p : ℕ) × (lo ≤ p)
      × (p < hi)
      × (has td (rq.queues p) ≡ true)
      × (ok td ≡ true)
      × ((q : ℕ) → lo ≤ q → q < p → Refused q)

  abbrev InQueue : List ℕ → Option ℕ → Type 0
  InQueue q none = (td : ℕ) → has td q ≡ true → ok td ≡ false
  InQueue q (some td) = (has td q ≡ true) × (ok td ≡ true)

  longer :
      (x : ℕ) (rest : List ℕ) (r : Option ℕ) → ok x ≡ false → InQueue rest r → InQueue (x ∷ rest) r
  longer x rest none e f = λ td h. elim (Bool-cases (td == x)) [
    | inl u ↦ let q : td ≡ x = (==_iff td x).0 u in rw q e
    | inr u ↦ f td (ground arith)
  ]
  longer x rest (some td) e f = (ground (arith, f.0), f.1)

  steal_queue-InQueue : (q : List ℕ) → InQueue q (steal_queue m ok rq q)
  unfolding steal_queue
  steal_queue-InQueue [] = λ td h. absurd (cc)
  steal_queue-InQueue (x ∷ rest) = elim (Bool-cases (ok x)) [
    | inl e ↦ rw e (ground arith, e)
    | inr e ↦ rw e (longer x rest _ e (steal_queue-InQueue rest))
  ]

  -- Two searches one after the other.
  joined :
      (lo mid hi : ℕ) (a b : Option ℕ)
      → lo ≤ mid
      → mid ≤ hi
      → FirstTaken lo mid a
      → FirstTaken mid hi b
      → FirstTaken lo hi (or_next a b)
  joined lo mid hi none none l l' f g = λ p x y. elim (Bool-cases (ltb p mid)) [
    | inl e ↦ f p x (ground arith)
    | inr e ↦ g p (ground arith) y
  ]
  joined lo mid hi none (some td) l l' f (p, x, y, h, o, u) = (
    p,
    omega arith,
    y,
    h,
    o,
    λ q a b. elim (Bool-cases (ltb q mid)) [
      | inl e ↦ f q a (ground arith)
      | inr e ↦ u q (ground arith) b
    ],
  )
  joined lo mid hi (some td) b l l' (p, x, y, h, o, u) g = (p, x, omega arith, h, o, u)

  moved : (lo lo' hi : ℕ) (r : Option ℕ) → lo ≡ lo' → FirstTaken lo hi r → FirstTaken lo' hi r
  moved lo lo' hi r e f = subst (λ x. FirstTaken x hi r) e f

  -- One queue.
  taken_at : (p : ℕ) (r : Option ℕ) → InQueue (rq.queues p) r → FirstTaken p (p + 1) r
  taken_at p none f = λ q a b. let e : q ≡ p = omega arith in rw e f
  taken_at p (some td) f = (p, omega arith, omega arith, f.0, f.1, λ q a b. absurd (omega arith))

  Refused-empty : (p : ℕ) → IsConsistent m rq → p < rq_nqs → bit m rq p ≡ false → Refused p
  Refused-empty p c l off td h =
      let e : rq.queues p ≡ [] = nil_of_empty _ (ground (arith, c.bits p l)) in absurd (cc)

  bit_of : (i j : ℕ) → j < m.bpw → bit m rq (j + i * m.bpw) ≡ rq.status i j
  bit_of i j l =
      let s = word_split m.bpw i j l in
      let e : j + i * m.bpw ≡ i * m.bpw + j = omega arith in
      let d : (j + i * m.bpw) / m.bpw ≡ i = rw e s.0 in
      let r : (j + i * m.bpw) % m.bpw ≡ j = rw e s.1 in λ t. rq.status (d t) (r t)

  steal_bits-FirstTaken :
      (i n j : ℕ)
      → IsConsistent m rq
      → i < m.len
      → j + n ≡ m.bpw
      → FirstTaken (j + i * m.bpw) ((i + 1) * m.bpw) (steal_bits m ok rq i n j)
  unfolding steal_bits
  steal_bits-FirstTaken i zero j c l e = λ p a b. absurd (grind arith)
  steal_bits-FirstTaken i (suc n) j c l e =
      let ends = word_end m i l in
      let rest = steal_bits-FirstTaken i n (j + 1) c l (omega arith) in
      let same : j + 1 + i * m.bpw ≡ j + i * m.bpw + 1 = omega arith in
      let within : j + i * m.bpw + 1 ≤ (i + 1) * m.bpw = grind arith in
      let rest' : FirstTaken (j + i * m.bpw + 1) ((i + 1) * m.bpw)
          (steal_bits m ok rq i n (j + 1)) =
        moved _ _ _ _ same rest in
      elim (Bool-cases (rq.status i j)) [
        | inl u ↦ rw u (
            joined _ (j + i * m.bpw + 1) _ _ _ (omega arith) within
              (taken_at _ _ (steal_queue-InQueue _)) rest')
        | inr u ↦ rw u (
            joined _ (j + i * m.bpw + 1) _ none _ (omega arith) within
              (taken_at _ none (Refused-empty _ c (omega arith) (bit_of i j (omega arith) ∙ u)))
              rest')
      ]

  -- A word that is zero has no thread in its queues.
  Refused_word :
      (i : ℕ)
      → IsConsistent m rq
      → i < m.len
      → nonzero m.bpw (rq.status i) ≡ false
      → FirstTaken (i * m.bpw) ((i + 1) * m.bpw) none
  Refused_word i c l z p a b =
      let ends = word_end m i l in
      let e : p - i * m.bpw + i * m.bpw ≡ p = omega arith in
      let j : p - i * m.bpw < m.bpw = omega arith in
      let off : bit m rq p ≡ false =
        rw e at (bit_of i (p - i * m.bpw) j)
        ∙ nonzero-false m.bpw (rq.status i) (p - i * m.bpw) z j in
      Refused-empty p c (omega arith) off

  steal_words-FirstTaken :
      (n i : ℕ)
      → IsConsistent m rq
      → i + n ≡ m.len
      → FirstTaken (i * m.bpw) rq_nqs (steal_words m ok rq n i)
  unfolding steal_words
  steal_words-FirstTaken zero i c e = λ p a b.
      let e' : i ≡ m.len = omega arith in
      let f : i * m.bpw ≡ rq_nqs = rw e' m.covers in absurd (omega arith)
  steal_words-FirstTaken (suc n) i c e =
      let ends = word_end m i (omega arith) in
      let zero_start : 0 + i * m.bpw ≡ i * m.bpw = omega arith in
      let rest = steal_words-FirstTaken n (i + 1) c (omega arith) in
      elim (Bool-cases (nonzero m.bpw (rq.status i))) [
        | inl u ↦ rw u (
            joined _ ((i + 1) * m.bpw) _ _ _ (grind arith) ends
              (moved _ _ _ _ zero_start
                (steal_bits-FirstTaken i m.bpw 0 c (omega arith) (omega arith)))
              rest)
        | inr u ↦ rw u (
            joined _ ((i + 1) * m.bpw) _ none _ (grind arith) ends
              (Refused_word i c (omega arith) u) rest)
      ]

  -- With the status bits in step, runq_steal takes a thread that may be taken, of the first queue
  -- that has such a thread, and returns NULL exactly when no queue has one.
  pub runq_steal-FirstTaken : IsConsistent m rq → FirstTaken 0 rq_nqs (runq_steal m ok rq)
  unfolding runq_steal
  runq_steal-FirstTaken c =
      moved (0 * m.bpw) 0 rq_nqs _ (omega arith) (steal_words-FirstTaken m.len 0 c (omega arith))

  -- Where every queue is empty.
  AllEmpty-clear :
      (i j : ℕ) → IsConsistent m rq → AllEmpty rq → i < m.len → j < m.bpw → rq.status i j ≡ false
  AllEmpty-clear i j c a l h =
      let ends = word_end m i l in
      let under : j + i * m.bpw < rq_nqs = grind arith in
      let q = a (j + i * m.bpw) under in
      sym (bit_of i j h) ∙ c.bits (j + i * m.bpw) under ∙ ap (λ xs. not (is_empty xs)) q

  scan_bits-empty :
      (i n j : ℕ) (first : Option ℕ)
      → IsConsistent m rq
      → AllEmpty rq
      → i < m.len
      → j + n ≤ m.bpw
      → scan_bits m ok rq i n j first ≡ passed first
  unfolding scan_bits
  scan_bits-empty i zero j first c a l e = refl
  scan_bits-empty i (suc n) j first c a l e =
      rw (AllEmpty-clear i j c a l (omega arith))
        (scan_bits-empty i n (j + 1) first c a l (omega arith))

  scan_words-empty :
      (n i j : ℕ) (first : Option ℕ)
      → IsConsistent m rq
      → AllEmpty rq
      → i + n ≤ m.len
      → scan_words m ok rq n i j first ≡ passed first
  unfolding scan_words
  scan_words-empty zero i j first c a e = refl
  scan_words-empty (suc n) i j first c a e = elim (Bool-cases (nonzero m.bpw (rq.status i))) [
    | inl u ↦
        let (b, l, set) = nonzero-true m.bpw (rq.status i) u in
        let off = AllEmpty-clear i b c a (omega arith) l in absurd (cc)
    | inr u ↦ rw u (scan_words-empty n (i + 1) 0 first c a (omega arith))
  ]

  runq_steal_from-empty :
      (start : ℕ)
      → start < rq_nqs
      → IsConsistent m rq
      → AllEmpty rq
      → runq_steal_from m ok rq start ≡ none
  unfolding runq_steal_from last_resort
  runq_steal_from-empty start l c a =
      let k : start < m.len * m.bpw = rw m.covers l in
      let w : rqb_word m start < m.len = (div-lt_iff_lt-mul m.bpw_pos).1 k in
      let first =
        scan_words-empty (m.len - rqb_word m start) (rqb_word m start) (rqb_bit m start) none c a
          (omega arith) in
      let again = scan_words-empty m.len 0 0 none c a (omega arith) in
      rw first (elim (Bool-cases (start == 0)) [ inl u ↦ rw u refl | inr u ↦ rw (u, again) refl ])

  FirstTaken-empty : (r : Option ℕ) → FirstTaken 0 rq_nqs r → AllEmpty rq → r ≡ none
  FirstTaken-empty none f a = refl
  FirstTaken-empty (some td) (p, x, y, h, o, u) a = let q = a p y in absurd (cc)

-- A processor whose real-time, timeshare and idle queues are empty, with the status bits in step,
-- gives no thread to tdq_steal, however many wait in its lottery queue.
pub tdq_steal_lottery :
    (k : Config) (ok : ℕ → Bool) (tdq : Tdq)
    → IsValid k tdq
    → AllEmpty tdq.rq_realtime
    → AllEmpty tdq.rq_timeshare
    → AllEmpty tdq.rq_idle
    → tdq_steal k ok tdq ≡ none
unfolding tdq_steal
tdq_steal_lottery k ok tdq v r t i =
    let m = k.machine in
    let x =
      FirstTaken-empty m ok tdq.rq_realtime _ (runq_steal-FirstTaken m ok tdq.rq_realtime v.0) r in
    let y = runq_steal_from-empty m ok tdq.rq_timeshare tdq.ridx v.5 v.1 t in
    let z = FirstTaken-empty m ok tdq.rq_idle _ (runq_steal-FirstTaken m ok tdq.rq_idle v.3) i in
    rw (x, y, z) refl
