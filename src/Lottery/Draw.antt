-- ===== src/Lottery/Draw.antt =====
-- Every thread of the lottery queue wins as many draws as it has tickets.
use free_bsd_messaround.Prelude.{
  ℕ, zero, suc, ◌+◌, ◌-◌, ◌*◌, ◌≤◌, ◌<◌, ◌≡◌, refl, inl, inr, Bool, true, false, Option, none, some,
  List, [], ◌∷◌, arith, ltb, ◌==◌, if◌then◌else◌, Bool-cases, ==_iff, lt→ltb, pos, pos_part, ◌+ℤ◌,
  ◌-ℤ◌, ltb_ℤ, has, count, Each,
}
use native.Mathlib.Nat.{add_comm}
use free_bsd_messaround.Runq.{Store}
use free_bsd_messaround.Lottery.{tickets, total_loop, draw_loop}

-- No thread of the queue has a negative nice value.
abbrev pub NiceEnough : Store → List ℕ → Type 0
NiceEnough s q = Each (λ td. (n : ℕ) × ((s td).nice ≡ pos n)) q

-- The tickets of a thread, and their sum, as numbers.
abbrev pub shares : Store → ℕ → ℕ
shares s td = pos_part (tickets s td)

abbrev pub total_shares : Store → List ℕ → ℕ
total_shares s [] = 0
total_shares s (td ∷ rest) = shares s td + total_shares s rest

pub tickets_pos : (s : Store) (td n : ℕ) → (s td).nice ≡ pos n → tickets s td ≡ pos (n + 1)
unfolding tickets ◌+ℤ◌
tickets_pos s td n e = rw e (ground arith)

add_pos : (a b : ℕ) → pos a +ℤ pos b ≡ pos (a + b)
unfolding ◌+ℤ◌
add_pos a b = ground arith

sub_pos_lt : (r t : ℕ) → ltb r t ≡ true → ltb_ℤ (pos r -ℤ pos t) (pos 0) ≡ true
unfolding ◌-ℤ◌
sub_pos_lt r t h = ground arith

sub_pos_le : (r t : ℕ) → ltb r t ≡ false → pos r -ℤ pos t ≡ pos (r - t)
unfolding ◌-ℤ◌
sub_pos_le r t h = ground arith

-- Whether a draw that returns a thread or NULL returned `td`.
abbrev pub is_winner : ℕ → Option ℕ → Bool
is_winner td none = false
is_winner td (some x) = td == x

pub total_loop-shares :
    (s : Store) (t : ℕ) (q : List ℕ)
    → NiceEnough s q
    → total_loop s (pos t) q ≡ pos (t + total_shares s q)
unfolding total_loop
total_loop-shares s t [] h = ground arith
total_loop-shares s t (td ∷ rest) (h, hs) =
    rw (tickets_pos s td h.0 h.1, add_pos t (h.0 + 1), total_loop-shares s (t + (h.0 + 1)) rest hs)
      (ground arith)

-- The winner among `td ∷ rest` is td below its number of tickets, and above as in `rest`.
pub draw_loop-cons :
    (s : Store) (r td n : ℕ) (rest : List ℕ)
    → (s td).nice ≡ pos n
    → draw_loop s (pos r) (td ∷ rest)
      ≡ (if ltb r (shares s td) then some td else draw_loop s (pos (r - shares s td)) rest)
unfolding draw_loop
draw_loop-cons s r td n rest e = elim (Bool-cases (ltb r (n + 1))) [
  | inl t ↦ rw (tickets_pos s td n e, t, sub_pos_lt r (n + 1) t) refl
  | inr t ↦ rw (tickets_pos s td n e, t, sub_pos_le r (n + 1) t) (ground arith)
]

-- In how many of the draws 0 … n - 1 `td` is the winner.
pub wins : Store → ℕ → List ℕ → ℕ → ℕ
wins s td q zero = 0
wins s td q (suc n) = (if is_winner td (draw_loop s (pos n) q) then 1 else 0) + wins s td q n

wins_first :
    (s : Store) (td x n k : ℕ) (rest : List ℕ)
    → (s x).nice ≡ pos n
    → k ≤ shares s x
    → wins s td (x ∷ rest) k ≡ (if td == x then k else 0)
unfolding wins
wins_first s td x n zero rest e h = ground arith
wins_first s td x n (suc k) rest e h =
    rw
      (
        draw_loop-cons s k x n rest e,
        lt→ltb k (shares s x) h,
        wins_first s td x n k rest e (omega arith),
      )
      (ground arith)

wins_rest :
    (s : Store) (td x n k : ℕ) (rest : List ℕ)
    → (s x).nice ≡ pos n
    → wins s td (x ∷ rest) (k + shares s x) ≡ (if td == x then shares s x else 0) + wins s td rest k
unfolding wins
wins_rest s td x n zero rest e =
    let z : 0 + shares s x ≡ shares s x = omega arith in
    rw (z, wins_first s td x n (shares s x) rest e (omega arith)) (omega arith)
wins_rest s td x n (suc k) rest e =
    let z : suc k + shares s x ≡ suc (k + shares s x) = omega arith in
    let f : ltb (k + shares s x) (shares s x) ≡ false = ground arith in
    let g : k + shares s x - shares s x ≡ k = omega arith in
    rw (z, draw_loop-cons s (k + shares s x) x n rest e, f, g, wins_rest s td x n k rest e)
      (omega arith)

-- In a queue of threads whose nice values are not negative, a thread wins exactly as many of the
-- equally likely draws 0 … total - 1 as it has tickets, nice + 1, for each time it is queued.
pub wins-total :
    (s : Store) (td : ℕ) (q : List ℕ)
    → NiceEnough s q
    → wins s td q (total_shares s q) ≡ count td q * shares s td
unfolding wins
wins-total s td [] h = omega arith
wins-total s td (x ∷ rest) ((n, e), hs) =
    let c = add_comm (shares s x) (total_shares s rest) in
    rw (c, wins_rest s td x n (total_shares s rest) rest e, wins-total s td rest hs)
      (elim (Bool-cases (td == x)) [
        | inl t ↦ let u : td ≡ x = (==_iff td x).0 t in rw (t, u) (grind arith)
        | inr t ↦ rw t (omega arith)
      ])

-- A draw below the total is won by a thread of the queue.
pub draw_loop-has :
    (s : Store) (r : ℕ) (q : List ℕ)
    → NiceEnough s q
    → r < total_shares s q
    → (td : ℕ) × (draw_loop s (pos r) q ≡ some td) × (has td q ≡ true)
draw_loop-has s r [] h l = absurd (omega arith)
draw_loop-has s r (x ∷ rest) ((n, e), hs) l = elim (Bool-cases (ltb r (shares s x))) [
  | inl t ↦ (x, rw (draw_loop-cons s r x n rest e, t) refl, ground arith)
  | inr t ↦
      let (td, won, member) = draw_loop-has s (r - shares s x) rest hs (ground arith) in
      (td, rw (draw_loop-cons s r x n rest e, t) won, ground arith)
]
