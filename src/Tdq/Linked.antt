-- ===== src/Tdq/Linked.antt =====
-- Each thread that waits stands once, on the queue that its fields name, and no other thread does.
use free_bsd_messaround.Prelude.{
  ℕ, ◌+◌, ◌<◌, ◌≡◌, ◌≢◌, refl, sym, ap, ◌∙◌, inl, inr, Bool, true, false, ◌&&◌, Option, none, some,
  List, [], ◌∷◌, ◌++◌, ◌==◌, ==_iff, if◌then◌else◌, Bool-cases, count, erase, update, subst, arith,
}
use free_bsd_messaround.Runq.{
  Runq, Thread, Store, QueueName, realtime, timeshare, lottery, idle, rq_nqs,
}
use free_bsd_messaround.Tdq.{Config, Flags, Tdq}
use free_bsd_messaround.Tdq.Removes.{queue_of, slot, Off}
use free_bsd_messaround.Tdq.Places.{joined, On, Placed}

abbrev name_id : QueueName → ℕ
name_id realtime = 0
name_id timeshare = 1
name_id lottery = 2
name_id idle = 3

abbrev pub same_name : QueueName → QueueName → Bool
same_name a b = name_id a == name_id b

name_id-inj : (a b : QueueName) → name_id a ≡ name_id b → a ≡ b
name_id-inj realtime realtime e = refl
name_id-inj realtime timeshare e = absurd (omega arith)
name_id-inj realtime lottery e = absurd (omega arith)
name_id-inj realtime idle e = absurd (omega arith)
name_id-inj timeshare realtime e = absurd (omega arith)
name_id-inj timeshare timeshare e = refl
name_id-inj timeshare lottery e = absurd (omega arith)
name_id-inj timeshare idle e = absurd (omega arith)
name_id-inj lottery realtime e = absurd (omega arith)
name_id-inj lottery timeshare e = absurd (omega arith)
name_id-inj lottery lottery e = refl
name_id-inj lottery idle e = absurd (omega arith)
name_id-inj idle realtime e = absurd (omega arith)
name_id-inj idle timeshare e = absurd (omega arith)
name_id-inj idle lottery e = absurd (omega arith)
name_id-inj idle idle e = refl

pub same_name→eq : (a b : QueueName) → same_name a b ≡ true → a ≡ b
same_name→eq a b e = name_id-inj a b ((==_iff (name_id a) (name_id b)).0 e)

refl_name : (n : QueueName) → same_name n n ≡ true
refl_name realtime = refl
refl_name timeshare = refl
refl_name lottery = refl
refl_name idle = refl

-- Whether ts_runq and td_rqindex of a thread name the queue.
abbrev pub names : Option QueueName → ℕ → QueueName → ℕ → Bool
names none rqindex name p = false
names (some own) rqindex name p = same_name own name && p == slot rqindex own

abbrev pub stands : Thread → QueueName → ℕ → Bool
stands t = names t.runq t.rqindex

-- The threads that wait stand once each, where their fields say, in one of the 64 queues; no other
-- thread stands anywhere.
pub record IsLinked (waits : ℕ → Bool) (s : Store) (tdq : Tdq) : Type 0 where
  pub counted :
      (x : ℕ) (name : QueueName) (p : ℕ)
      → count x ((queue_of tdq name).queues p) ≡ (if waits x && stands (s x) name p then 1 else 0)
  pub ranged :
      (x : ℕ)
      → waits x ≡ true
      → (name : QueueName) × ((s x).runq ≡ some name) × (slot (s x).rqindex name < rq_nqs)

count-snoc :
    (x td : ℕ) (q : List ℕ) → count x (q ++ (td ∷ [])) ≡ count x q + (if x == td then 1 else 0)
count-snoc x td [] = omega arith
count-snoc x td (y ∷ q) = omega (arith, count-snoc x td q)

count-joined :
    (front : Bool) (x td : ℕ) (q : List ℕ)
    → count x (joined front td q) ≡ count x q + (if x == td then 1 else 0)
count-joined true x td q = omega arith
count-joined false x td q = count-snoc x td q

count-erase :
    (x td : ℕ) (q : List ℕ)
    → 0 < count td q
    → count x (erase td q) + (if x == td then 1 else 0) ≡ count x q
count-erase x td [] l = absurd (omega (arith, l))
count-erase x td (y ∷ q) l = elim (Bool-cases (td == y)) [
  | inl e ↦ let same : td ≡ y = (==_iff td y).0 e in rw (e, ← same) (omega arith)
  | inr e ↦
      let l' : 0 < count td q = ground (arith, e, l) in rw e (omega (arith, count-erase x td q l'))
]

at_queue :
    (b : Bool) (x td : ℕ) (q q' : List ℕ) (f : List ℕ → List ℕ)
    → q' ≡ (if b then f q else q)
    → (b ≡ true → count x (f q) ≡ count x q + (if x == td then 1 else 0))
    → count x q' ≡ count x q + (if b && x == td then 1 else 0)
at_queue true x td q q' f e h = ap (count x) e ∙ h refl
at_queue false x td q q' f e h = ap (count x) e ∙ omega arith

-- How often a thread stands in a queue after one was put on.
On-count :
    (name : QueueName) (p td x : ℕ) (front : Bool) (tdq tdq' : Tdq) (o : QueueName) (q : ℕ)
    → On name p front td tdq tdq'
    → count x ((queue_of tdq' o).queues q)
      ≡ count x ((queue_of tdq o).queues q)
        + (if (same_name name o && q == p) && x == td then 1 else 0)
On-count name p td x front tdq tdq' o q on = elim (Bool-cases (same_name name o)) [
  | inl e ↦
      let same : name ≡ o = same_name→eq name o e in
      rw (e, ← same)
        (at_queue (q == p) x td _ _ (joined front td) (on.here q)
          (λ h. count-joined front x td ((queue_of tdq name).queues q)))
  | inr e ↦
      let ne : o ≢ name = λ h. cc (e, ap (same_name name) h, refl_name name) in
      rw e (ap (λ (r : Runq). count x (r.queues q)) (on.others o ne) ∙ omega arith)
]

off_queue :
    (b : Bool) (x td : ℕ) (q q' : List ℕ)
    → q' ≡ (if b then erase td q else q)
    → (b ≡ true → count x (erase td q) + (if x == td then 1 else 0) ≡ count x q)
    → count x q' + (if b && x == td then 1 else 0) ≡ count x q
off_queue true x td q q' e h = ap (λ l. count x l + (if x == td then 1 else 0)) e ∙ h refl
off_queue false x td q q' e h = ap (λ l. count x l + 0) e ∙ omega arith

-- How often a thread stands in a queue after one was taken off.
Off-count :
    (name : QueueName) (p td x : ℕ) (tdq tdq' : Tdq) (o : QueueName) (q : ℕ)
    → 0 < count td ((queue_of tdq name).queues p)
    → Off name p td tdq tdq'
    → count x ((queue_of tdq' o).queues q)
        + (if (same_name name o && q == p) && x == td then 1 else 0)
      ≡ count x ((queue_of tdq o).queues q)
Off-count name p td x tdq tdq' o q l off = elim (Bool-cases (same_name name o)) [
  | inl e ↦
      let same : name ≡ o = same_name→eq name o e in
      let there : q == p ≡ true → 0 < count td ((queue_of tdq name).queues q) = λ h.
        subst (λ (i : ℕ). 0 < count td ((queue_of tdq name).queues i)) (sym ((==_iff q p).0 h)) l in
      rw (e, ← same)
        (off_queue (q == p) x td _ _ (off.here q)
          (λ h. count-erase x td ((queue_of tdq name).queues q) (there h)))
  | inr e ↦
      let ne : o ≢ name = λ h. cc (e, ap (same_name name) h, refl_name name) in
      rw e (ap (λ (r : Runq). count x (r.queues q) + 0) (off.others o ne) ∙ omega arith)
]

stands-own :
    (t : Thread) (name o : QueueName) (p q : ℕ)
    → t.runq ≡ some name
    → slot t.rqindex name ≡ p
    → stands t o q ≡ (same_name name o && q == p)
stands-own t name o p q r i =
    ap (λ n. names n t.rqindex o q) r ∙ ap (λ (a : ℕ). same_name name o && q == a) i

stands-same :
    (t u : Thread) (o : QueueName) (q : ℕ)
    → t.runq ≡ u.runq
    → t.rqindex ≡ u.rqindex
    → stands t o q ≡ stands u o q
stands-same t u o q r i = ap (λ n. names n t.rqindex o q) r ∙ ap (λ a. names u.runq a o q) i

counted_on :
    (c old : ℕ) (b own w st st' : Bool)
    → c ≡ old + (if b && own then 1 else 0)
    → old ≡ (if w && st then 1 else 0)
    → (own ≡ true → (w ≡ false) × (st' ≡ b))
    → (own ≡ false → st' ≡ st)
    → c ≡ (if (if own then true else w) && st' then 1 else 0)
counted_on c old b true w st st' e f h k = let (x, y) = h refl in ground (arith, e, f, x, y)
counted_on c old b false w st st' e f h k = let y = k refl in ground (arith, e, f, y)

counted_off :
    (c old : ℕ) (b own w st st' : Bool)
    → c + (if b && own then 1 else 0) ≡ old
    → old ≡ (if w && st then 1 else 0)
    → (own ≡ true → (w ≡ true) × (st ≡ b))
    → (own ≡ false → st' ≡ st)
    → c ≡ (if (if own then false else w) && st' then 1 else 0)
counted_off c old b true w st st' e f h k = let (x, y) = h refl in ground (arith, e, f, x, y)
counted_off c old b false w st st' e f h k = let y = k refl in ground (arith, e, f, y)

-- A thread that waits stands in its queue.
pub Linked-count :
    (waits : ℕ → Bool) (s : Store) (tdq : Tdq) (td : ℕ) (name : QueueName)
    → waits td ≡ true
    → (s td).runq ≡ some name
    → IsLinked waits s tdq
    → 0 < count td ((queue_of tdq name).queues (slot (s td).rqindex name))
Linked-count waits s tdq td name on r l =
    let i = slot (s td).rqindex name in
    let own = stands-own (s td) name name i i r refl in
    let n = refl_name name in ground (arith, l.counted td name i, on, own, n)

-- A thread that stands in a queue waits, and its fields name the queue.
pub Linked-waits :
    (waits : ℕ → Bool) (s : Store) (tdq : Tdq) (td : ℕ) (name : QueueName) (p : ℕ)
    → 0 < count td ((queue_of tdq name).queues p)
    → IsLinked waits s tdq
    → waits td ≡ true
Linked-waits waits s tdq td name p c l = ground (arith, c, l.counted td name p)

-- A thread that did not wait is put on the queues.
pub Placed-IsLinked :
    (k : Config) (waits : ℕ → Bool) (s s' : Store) (tdq tdq' : Tdq) (td : ℕ) (flags : Flags)
    → waits td ≡ false
    → IsLinked waits s tdq
    → Placed k s tdq td flags s' tdq'
    → IsLinked (update waits td true) s' tdq'
Placed-IsLinked k waits s s' tdq tdq' td flags out l p = record {
  counted = λ x o q.
      counted_on _ _ (same_name p.name o && q == p.at) (x == td) (waits x) (stands (s x) o q) _
        (On-count p.name p.at td x _ tdq tdq' o q p.on) (l.counted x o q)
        (λ e.
          let own : x ≡ td = (==_iff x td).0 e in
          (
            ap waits own ∙ out,
            ap (λ (z : ℕ). stands (s' z) o q) own
                ∙ stands-own (s' td) p.name o p.at q p.runq p.index,
          ))
        (λ e.
          let ne : x ≢ td = ground (arith, e) in
          stands-same (s' x) (s x) o q (p.others x ne).0 (p.others x ne).1);
  ranged = λ x w. elim (Bool-cases (x == td)) [
    | inl e ↦
        let own : x ≡ td = (==_iff x td).0 e in
        (p.name, ap (λ (z : ℕ). (s' z).runq) own ∙ p.runq, rw own (rw p.index p.in_range))
    | inr e ↦
        let ne : x ≢ td = ground (arith, e) in
        let (name, r, i) = l.ranged x (ground (arith, w, e)) in
        (name, (p.others x ne).0 ∙ r, rw ((p.others x ne).1) i)
  ];
}

-- A thread that waits is taken off.
pub Off-IsLinked :
    (waits : ℕ → Bool) (s s' : Store) (tdq tdq' : Tdq) (td : ℕ) (name : QueueName)
    → waits td ≡ true
    → (s td).runq ≡ some name
    → ((x : ℕ) → ((s' x).rqindex ≡ (s x).rqindex) × ((s' x).runq ≡ (s x).runq))
    → IsLinked waits s tdq
    → Off name (slot (s td).rqindex name) td tdq tdq'
    → IsLinked (update waits td false) s' tdq'
Off-IsLinked waits s s' tdq tdq' td name on r same l off = record {
  counted = λ x o q.
      counted_off _ _ (same_name name o && q == slot (s td).rqindex name) (x == td) (waits x)
        (stands (s x) o q) _
        (Off-count name (slot (s td).rqindex name) td x tdq tdq' o q
          (Linked-count waits s tdq td name on r l) off)
        (l.counted x o q)
        (λ e.
          let own : x ≡ td = (==_iff x td).0 e in
          (
            ap waits own ∙ on,
            ap (λ (z : ℕ). stands (s z) o q) own ∙ stands-own (s td) name o _ q r refl,
          ))
        (λ e. stands-same (s' x) (s x) o q (same x).1 (same x).0);
  ranged = λ x w.
      let (n, f, i) = l.ranged x (ground (arith, w)) in (n, (same x).1 ∙ f, rw ((same x).0) i);
}

-- The other fields of the queues do not matter.
pub Linked-same :
    (waits : ℕ → Bool) (s : Store) (tdq tdq' : Tdq)
    → ((name : QueueName) → queue_of tdq' name ≡ queue_of tdq name)
    → IsLinked waits s tdq
    → IsLinked waits s tdq'
Linked-same waits s tdq tdq' same l = record {
  counted = λ x name p. ap (λ (r : Runq). count x (r.queues p)) (same name) ∙ l.counted x name p;
  ranged = l.ranged;
}

-- Nor do the other fields of the threads.
pub Linked-fields :
    (waits : ℕ → Bool) (s s' : Store) (tdq : Tdq)
    → ((x : ℕ) → ((s' x).rqindex ≡ (s x).rqindex) × ((s' x).runq ≡ (s x).runq))
    → IsLinked waits s tdq
    → IsLinked waits s' tdq
Linked-fields waits s s' tdq same l = record {
  counted = λ x name p.
      l.counted x name p
      ∙ ap (λ b. if waits x && b then 1 else 0)
          (sym (stands-same (s' x) (s x) name p (same x).1 (same x).0));
  ranged = λ x w. let (n, f, i) = l.ranged x w in (n, (same x).1 ∙ f, rw ((same x).0) i);
}
