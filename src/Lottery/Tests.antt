-- ===== src/Lottery/Tests.antt =====
-- Draws from a lottery queue of three threads, the thread td with td + 1 tickets.
use free_bsd_messaround.Prelude.{
  ℕ, ◌≡◌, ◌*◌, refl, true, false, List, [], ◌∷◌, negsuc, pos, ◌-ℤ◌, ◌+ℤ◌, ltb_ℤ, ◌^◌, count, arith,
}
use free_bsd_messaround.Runq.{Runq, Store}
use free_bsd_messaround.Runq.Tests.{threads}
use free_bsd_messaround.Lottery.{lottery_q_choose, total_loop, tickets}
use free_bsd_messaround.Lottery.Draw.{NiceEnough, shares, total_shares, wins, wins-total}
use free_bsd_messaround.Lottery.Choose.{
  Serves, lottery_q_choose-Serves, Faults, lottery_q_choose_negative,
}

abbrev pub players : List ℕ
players = 0 ∷ 4 ∷ 2 ∷ []

abbrev pub players_nice : NiceEnough threads players
players_nice = ((0, refl), ((4, refl), ((2, refl), tt)))

abbrev pub in_lottery : Runq
in_lottery = record { status = λ i j. false; queues = λ i. players }

-- The same threads, each with nice value -1.
abbrev poor : Store
poor td = record (threads td) { nice = negsuc 0 }

wins-total_example :
    wins threads 4 players (total_shares threads players) ≡ count 4 players * shares threads 4
wins-total_example = wins-total threads 4 players players_nice

lottery_q_choose-Serves_example : Serves players (lottery_q_choose threads in_lottery true 1000)
lottery_q_choose-Serves_example =
    lottery_q_choose-Serves threads in_lottery true 1000 players_nice refl

sum_fits : ltb_ℤ (pos 1000 -ℤ total_loop poor (pos 0) players) (pos (2 ^ 31)) ≡ true
unfolding total_loop tickets ◌-ℤ◌ ◌+ℤ◌
sum_fits = refl

lottery_q_choose_negative_example : Faults (lottery_q_choose poor in_lottery true 1000)
lottery_q_choose_negative_example =
    lottery_q_choose_negative poor in_lottery 1000 ((0, refl), ((0, refl), ((0, refl), tt))) refl
      (omega arith) sum_fits
