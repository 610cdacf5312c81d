-- ===== src/Tdq/Slice.antt =====
-- The time slice of a thread.
use free_bsd_messaround.Prelude.{
  ℕ, ◌*◌, ◌/◌, ◌≤◌, ◌<◌, ◌≡◌, inl, inr, true, ltb, ltb→lt, Bool-cases, ℤ, pos, negsuc, pos_part,
  ◌-ℤ◌, ltb_ℤ, arith,
}
use native.Mathlib.Nat.{div-lt_iff_lt-mul, div-mul-le_self}
use free_bsd_messaround.Tdq.{Config, Tdq, tdq_slice}

shared :
    (a m : ℕ) (load : ℤ)
    → m * 6 ≤ a
    → ltb_ℤ load (pos 6) ≡ true
    → ltb_ℤ (pos 1) load ≡ true
    → (m ≤ a / pos_part load) × (a / pos_part load ≤ a)
shared a m (pos n) h l l' =
    let low : 1 < n = ground arith in
    let high : n < 6 = ground arith in
    (
      elim (Bool-cases (ltb (a / n) m)) [
        | inl u ↦
            let over = (div-lt_iff_lt-mul (omega arith)).0 (ltb→lt (a / n) m u) in
            absurd (grind arith)
        | inr u ↦ ground arith
      ],
      let q = div-mul-le_self a n in grind arith,
    )
shared a m (negsuc n) h l l' = let w = ltb→lt _ _ l' in absurd (omega arith)

-- Where the least slice is at most a sixth of the full one, tdq_slice lies between the two.
pub tdq_slice-bounds :
    (k : Config) (tdq : Tdq)
    → k.sched_slice_min * 6 ≤ k.sched_slice
    → (k.sched_slice_min ≤ tdq_slice k tdq) × (tdq_slice k tdq ≤ k.sched_slice)
unfolding tdq_slice
tdq_slice-bounds k tdq h = elim (Bool-cases (ltb_ℤ (tdq.sysload -ℤ pos 1) (pos 6))) [
  | inr u ↦ rw u (omega arith, omega arith)
  | inl u ↦ rw u (elim (Bool-cases (ltb_ℤ (pos 1) (tdq.sysload -ℤ pos 1))) [
    | inr v ↦ rw v (omega arith, omega arith)
    | inl v ↦ rw v (shared k.sched_slice k.sched_slice_min (tdq.sysload -ℤ pos 1) h u v)
  ])
]
