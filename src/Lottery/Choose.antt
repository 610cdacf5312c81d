-- ===== src/Lottery/Choose.antt =====
-- When lottery_q_choose returns a thread, and when it faults.
use free_bsd_messaround.Prelude.{
  ℕ, ◌+◌, ◌%◌, ◌<◌, ◌≡◌, refl, ap, ◌∙◌, Bool, true, false, Option, none, some, List, [], ◌∷◌, arith,
  ◌==◌, ℤ, pos, negsuc, ◌+ℤ◌, ◌-ℤ◌, ltb_ℤ, ◌^◌, has, Each, is_empty,
}
use native.Mathlib.Nat.{mod-lt}
use free_bsd_messaround.Runq.{Store, Runq}
use free_bsd_messaround.Lottery.{
  Outcome, returns, divides_by_zero, null_dereference, tickets, total_loop, draw_loop, report, draw,
  choose_in, lottery_q_choose,
}
use free_bsd_messaround.Lottery.Draw.{
  NiceEnough, total_shares, tickets_pos, total_loop-shares, draw_loop-has,
}

-- The outcome is a thread of the queue.
abbrev pub Serves : List ℕ → Outcome → Type 0
Serves q (returns (some td) line) = has td q ≡ true
Serves q _ = ⊥

total_pos :
    (s : Store) (td : ℕ) (rest : List ℕ) → NiceEnough s (td ∷ rest) → 0 < total_shares s (td ∷ rest)
total_pos s td rest ((n, e), hs) = rw (tickets_pos s td n e) (omega arith)

report-Serves :
    (s : Store) (print : Bool) (t : ℤ) (td : ℕ) (q : List ℕ)
    → has td q ≡ true
    → Serves q (report s print t (some td))
unfolding report
report-Serves s print t td q h = h

choose_in-Serves :
    (s : Store) (print : Bool) (rnd : ℕ) (q : List ℕ)
    → NiceEnough s q
    → is_empty q ≡ false
    → Serves q (choose_in s print rnd q)
unfolding choose_in
choose_in-Serves s print rnd [] h ne = absurd (cc)
choose_in-Serves s print rnd (td ∷ rest) h ne =
    let n : ℕ = total_shares s (td ∷ rest) in
    let p = total_pos s td rest h in
    let e : total_loop s (pos 0) (td ∷ rest) ≡ pos n =
      total_loop-shares s 0 (td ∷ rest) h ∙ ap pos (omega arith) in
    let nz : (n == 0) ≡ false = ground arith in
    let (w, won, member) = draw_loop-has s (rnd % n) (td ∷ rest) h (mod-lt rnd p) in
    rw (e, nz, won) (report-Serves s print (pos n) w (td ∷ rest) member)

-- While no queued thread has a negative nice value, lottery_q_choose on a lottery queue that is not
-- empty returns a thread of that queue, whatever random() returns.
pub lottery_q_choose-Serves :
    (s : Store) (rq : Runq) (print : Bool) (rnd : ℕ)
    → NiceEnough s (rq.queues 0)
    → is_empty (rq.queues 0) ≡ false
    → Serves (rq.queues 0) (lottery_q_choose s rq print rnd)
unfolding lottery_q_choose
lottery_q_choose-Serves s rq print rnd h ne = choose_in-Serves s print rnd (rq.queues 0) h ne

choose_in-nil :
    (s : Store) (print : Bool) (rnd : ℕ) (q : List ℕ)
    → q ≡ []
    → choose_in s print rnd q ≡ returns none none
unfolding choose_in
choose_in-nil s print rnd [] e = refl
choose_in-nil s print rnd (td ∷ rest) e = absurd (cc)

pub lottery_q_choose-nil :
    (s : Store) (rq : Runq) (print : Bool) (rnd : ℕ)
    → rq.queues 0 ≡ []
    → lottery_q_choose s rq print rnd ≡ returns none none
unfolding lottery_q_choose
lottery_q_choose-nil s rq print rnd e = choose_in-nil s print rnd (rq.queues 0) e

abbrev pub AllNegative : Store → List ℕ → Type 0
AllNegative s q = Each (λ td. (k : ℕ) × ((s td).nice ≡ negsuc k)) q

abbrev pub Faults : Outcome → Type 0
Faults (returns td line) = ⊥
Faults divides_by_zero = Unit
Faults null_dereference = Unit

sub_negative :
    (s : Store) (r td k : ℕ) → (s td).nice ≡ negsuc k → pos r -ℤ tickets s td ≡ pos (r + k)
unfolding tickets ◌-ℤ◌ ◌+ℤ◌
sub_negative s r td k e = rw e (ground arith)

draw_loop_negative :
    (s : Store) (r : ℕ) (q : List ℕ) → AllNegative s q → draw_loop s (pos r) q ≡ none
unfolding draw_loop
draw_loop_negative s r [] h = refl
draw_loop_negative s r (td ∷ rest) ((k, e), hs) =
    rw (sub_negative s r td k e) (ground (arith, draw_loop_negative s (r + k) rest hs))

draw-Faults :
    (s : Store) (t : ℤ) (q : List ℕ) (r : Option ℕ) → AllNegative s q → Faults (draw s true t q r)
unfolding draw report
draw-Faults s t q none h = tt
draw-Faults s t q (some r) h = rw (draw_loop_negative s r q h) tt

choose_in-Faults :
    (s : Store) (rnd : ℕ) (q : List ℕ)
    → AllNegative s q
    → is_empty q ≡ false
    → Faults (choose_in s true rnd q)
unfolding choose_in
choose_in-Faults s rnd [] h ne = absurd (cc)
choose_in-Faults s rnd (td ∷ rest) h ne = draw-Faults s _ (td ∷ rest) _ h

-- When every thread of a lottery queue that is not empty has a negative nice value, and the number
-- drawn, below 2^31, with the tickets that are missing fits an int, the call that tdq_choose makes,
-- with printing on, faults: it divides by zero or reads through NULL.
pub lottery_q_choose_negative :
    (s : Store) (rq : Runq) (rnd : ℕ)
    → AllNegative s (rq.queues 0)
    → is_empty (rq.queues 0) ≡ false
    → rnd < 2 ^ 31
    → ltb_ℤ (pos rnd -ℤ total_loop s (pos 0) (rq.queues 0)) (pos (2 ^ 31)) ≡ true
    → Faults (lottery_q_choose s rq true rnd)
unfolding lottery_q_choose
lottery_q_choose_negative s rq rnd h ne small fits = choose_in-Faults s rnd (rq.queues 0) h ne
