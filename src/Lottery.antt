-- ===== src/Lottery.antt =====
-- lottery_q_choose of asgn2/kern/kern_switch.c. The number that random() returns is an argument.
-- Ticket sums are exact: an int holds them as long as fewer than 2^24 threads wait.
pub mod Draw
pub mod Choose
pub mod Tests
use free_bsd_messaround.Prelude.{
  ℕ, suc, ◌+◌, ◌-◌, ◌*◌, ◌%◌, ◌^◌, Option, none, some, List, [], ◌∷◌, Bool, ◌==◌, if◌then◌else◌, ℤ,
  pos, negsuc, ◌+ℤ◌, ◌-ℤ◌, ltb_ℤ,
}
use free_bsd_messaround.Runq.{Runq, Store}

-- The line that is printed: pid, tickets and the sum of all tickets.
pub record Printed : Type 0 where
  pub pid : ℕ
  pub tickets : ℤ
  pub total : ℤ

-- What a call does: it returns a thread or NULL (`none`), divides by zero, or reads through NULL.
pub data Outcome : Type 0 where
  returns : Option ℕ → Option Printed → Outcome
  divides_by_zero : Outcome
  null_dereference : Outcome

unfoldable pub tickets : Store → ℕ → ℤ
tickets s td = (s td).nice +ℤ pos 1

-- The first loop.
pub total_loop : Store → ℤ → List ℕ → ℤ
unfolding tickets
total_loop s tck_tot [] = tck_tot
total_loop s tck_tot (td ∷ rest) = total_loop s (tck_tot +ℤ tickets s td) rest

-- The second loop: `none` is NULL, where TAILQ_FOREACH leaves `td` at the end of the queue.
pub draw_loop : Store → ℤ → List ℕ → Option ℕ
unfolding tickets
draw_loop s r [] = none
draw_loop s r (td ∷ rest) =
    let r' = r -ℤ tickets s td in
    let later = draw_loop s r' rest in if ltb_ℤ r' (pos 0) then some td else later

-- An unsigned long modulo an int, which is converted to unsigned long.
unfoldable pub random_mod : ℕ → ℤ → Option ℕ
random_mod rnd (pos n) = if n == 0 then none else some (rnd % n)
random_mod rnd (negsuc n) = some (rnd % (2 ^ 64 - suc n))

line_of : Store → ℤ → ℕ → Printed
unfolding tickets
line_of s tck_tot td = record { pid = (s td).pid; tickets = tickets s td; total = tck_tot }

pub report : Store → Bool → ℤ → Option ℕ → Outcome
unfolding line_of
report s print tck_tot none = if print then null_dereference else returns none none
report s print tck_tot (some td) =
    returns (some td) (if print then some (line_of s tck_tot td) else none)

pub draw : Store → Bool → ℤ → List ℕ → Option ℕ → Outcome
unfolding report draw_loop
draw s print tck_tot q none = divides_by_zero
draw s print tck_tot q (some r) = report s print tck_tot (draw_loop s (pos r) q)

pub choose_in : Store → Bool → ℕ → List ℕ → Outcome
unfolding draw total_loop random_mod
choose_in s print rnd [] = returns none none
choose_in s print rnd (td ∷ rest) =
    let q = td ∷ rest in
    let tck_tot = total_loop s (pos 0) q in draw s print tck_tot q (random_mod rnd tck_tot)

pub lottery_q_choose : Store → Runq → Bool → ℕ → Outcome
unfolding choose_in
lottery_q_choose s rq print rnd = choose_in s print rnd (rq.queues 0)
