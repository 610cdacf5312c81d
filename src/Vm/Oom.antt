-- ===== src/Vm/Oom.antt =====
-- asgn3/vm/vm_pageout.c: vm_pageout_mightbe_oom, by which the page daemons of all domains agree to
-- kill a process.
use free_bsd_messaround.Prelude.{
  ℕ, ◌+◌, ◌-◌, ◌^◌, ◌%◌, ◌<◌, ◌≡◌, ◌≢◌, ◌⊎◌, refl, inl, inr, Bool, true, false, ◌&&◌, not, ltb,
  ◌==◌, if◌then◌else◌, update, ℤ, pos, ltb_ℤ, arith, Bool-cases, update_self, number_of,
  number_of-update, number_of_le,
}

-- vmd_oom and vmd_oom_seq of every domain, vm_pageout_oom_vote, and how often vm_pageout_oom was
-- called to kill a process.
pub record Votes : Type 0 where
  pub vmd_oom : ℕ → Bool
  pub vmd_oom_seq : ℕ → ℕ
  pub vm_pageout_oom_vote : ℕ
  pub kills : ℕ

-- The vote of a domain goes, or is cast.
unfoldable pub take_back : Votes → ℕ → Votes
take_back s d = record s {
  vmd_oom = update s.vmd_oom d false;
  vm_pageout_oom_vote = (s.vm_pageout_oom_vote + (2 ^ 32 - 1)) % 2 ^ 32;
}

unfoldable pub cast_vote : Votes → ℕ → Votes
cast_vote s d = record s {
  vmd_oom = update s.vmd_oom d true;
  vm_pageout_oom_vote = (s.vm_pageout_oom_vote + 1) % 2 ^ 32;
}

unfoldable pub with_seq : Votes → ℕ → ℕ → Votes
with_seq s d n = record s { vmd_oom_seq = update s.vmd_oom_seq d n }

-- The scan freed nothing of what it was to free.
unfoldable pub failed : ℤ → ℤ → Bool
failed page_shortage starting_page_shortage =
    ltb_ℤ (pos 0) starting_page_shortage
    && not (ltb_ℤ page_shortage starting_page_shortage)
    && not (ltb_ℤ starting_page_shortage page_shortage)

unfoldable pub kill : Votes → Votes
kill s = record s { kills = s.kills + 1 }

-- A domain whose scans failed often enough: with the votes of all domains a process is killed.
unfoldable pub vote : ℕ → Votes → ℕ → Votes
vote vm_ndomains s d =
    if s.vmd_oom d
    then s
    else if not (s.vm_pageout_oom_vote == vm_ndomains - 1)
    then cast_vote s d
    else take_back (kill (cast_vote s d)) d

-- vm_pageout_oom_seq is the number of scans that must fail.
unfoldable pub vm_pageout_mightbe_oom : ℕ → ℕ → Votes → ℕ → ℤ → ℤ → Votes
vm_pageout_mightbe_oom vm_ndomains vm_pageout_oom_seq s d page_shortage starting_page_shortage =
    let seq = if failed page_shortage starting_page_shortage then s.vmd_oom_seq d + 1 else 0 in
    if ltb seq vm_pageout_oom_seq
    then (let counted = with_seq s d seq in if s.vmd_oom d then take_back counted d else counted)
    else vote vm_ndomains (with_seq s d 0) d

-- With one domain that has not voted, n - 1 votes are those of all others.
all_others :
    (oom : ℕ → Bool) (d n x : ℕ)
    → d < n
    → oom d ≡ false
    → number_of oom n + 1 ≡ n
    → x < n
    → x ≢ d
    → oom x ≡ true
all_others oom d n x l off e below differs = elim (Bool-cases (oom x)) [
  | inl f ↦ f
  | inr f ↦
      let two = update (update oom d true) x true in
      absurd (
        ground (
          arith,
          number_of_le two n,
          number_of-update oom d n true l,
          number_of-update (update oom d true) x n true below,
        ))
]

kills-cast_vote : (s : Votes) (d : ℕ) → (cast_vote s d).kills ≡ s.kills
unfolding cast_vote
kills-cast_vote s d = refl

kills-killed : (s : Votes) (d : ℕ) → (take_back (kill (cast_vote s d)) d).kills ≡ s.kills + 1
unfolding cast_vote take_back kill
kills-killed s d = refl

kills-take_back : (s : Votes) (d n : ℕ) → (take_back (with_seq s d n) d).kills ≡ s.kills
unfolding take_back with_seq
kills-take_back s d n = refl

module _ (vm_ndomains vm_pageout_oom_seq : ℕ) (small : vm_ndomains < 2 ^ 32) where
  -- The count is that of the domains that have voted.
  unfoldable pub IsCounted : Votes → Type 0
  IsCounted s = s.vm_pageout_oom_vote ≡ number_of s.vmd_oom vm_ndomains

  take_back-IsCounted :
      (s : Votes) (d : ℕ)
      → d < vm_ndomains
      → s.vmd_oom d ≡ true
      → IsCounted s
      → IsCounted (take_back s d)
  unfolding take_back IsCounted
  take_back-IsCounted s d l on c = ground (
    arith,
    c,
    number_of-update s.vmd_oom d vm_ndomains false l,
    number_of_le s.vmd_oom vm_ndomains,
  )

  cast_vote-IsCounted :
      (s : Votes) (d : ℕ)
      → d < vm_ndomains
      → s.vmd_oom d ≡ false
      → IsCounted s
      → IsCounted (cast_vote s d)
  unfolding cast_vote IsCounted
  cast_vote-IsCounted s d l off c = ground (
    arith,
    c,
    number_of-update s.vmd_oom d vm_ndomains true l,
    number_of_le (update s.vmd_oom d true) vm_ndomains,
  )

  killed-IsCounted :
      (s : Votes) (d : ℕ)
      → d < vm_ndomains
      → s.vmd_oom d ≡ false
      → IsCounted s
      → IsCounted (take_back (kill (cast_vote s d)) d)
  unfolding kill IsCounted cast_vote
  killed-IsCounted s d l off c =
      take_back-IsCounted (kill (cast_vote s d)) d l (update_self s.vmd_oom d true)
        (cast_vote-IsCounted s d l off c)

  -- The count stays right, and whoever is killed has the votes of all other domains against it.
  pub record Fair (s : Votes) (d : ℕ) (s' : Votes) : Type 0 where
    pub counted : IsCounted s'
    pub kills :
        (s'.kills ≡ s.kills)
        ⊎ ((s'.kills ≡ s.kills + 1) × ((x : ℕ) → x < vm_ndomains → x ≢ d → s.vmd_oom x ≡ true))

  vote-Fair : (s : Votes) (d : ℕ) → d < vm_ndomains → IsCounted s → Fair s d (vote vm_ndomains s d)
  unfolding vote IsCounted
  vote-Fair s d l c = elim (Bool-cases (s.vmd_oom d)) [
    | inl e ↦ rw e (record { counted = c; kills = inl refl })
    | inr e ↦ rw e (elim (Bool-cases (s.vm_pageout_oom_vote == vm_ndomains - 1)) [
      | inr f ↦
          rw f
            (record { counted = cast_vote-IsCounted s d l e c; kills = inl (kills-cast_vote s d) })
      | inl f ↦ rw f (record {
        counted = killed-IsCounted s d l e c;
        kills = inr (
          kills-killed s d,
          λ x b n. all_others s.vmd_oom d vm_ndomains x l e (ground (arith, f, c)) b n,
        );
      })
    ])
  ]

  with_seq-IsCounted : (s : Votes) (d n : ℕ) → IsCounted s → IsCounted (with_seq s d n)
  unfolding with_seq IsCounted
  with_seq-IsCounted s d n c = c

  same_vote : (s : Votes) (d n : ℕ) (b : Bool) → s.vmd_oom d ≡ b → (with_seq s d n).vmd_oom d ≡ b
  unfolding with_seq
  same_vote s d n b e = e

  kept_kills : (s : Votes) (d n : ℕ) → (with_seq s d n).kills ≡ s.kills
  unfolding with_seq
  kept_kills s d n = refl

  with_seq-Fair : (s : Votes) (d n : ℕ) (s' : Votes) → Fair (with_seq s d n) d s' → Fair s d s'
  unfolding with_seq
  with_seq-Fair s d n s' f = record { counted = f.counted; kills = f.kills }

  -- A call for a domain, when vm_pageout_oom_vote is the number of the domains that have voted,
  -- leaves it so, and kills no process, or one if all the other domains had voted.
  pub vm_pageout_mightbe_oom-Fair :
      (s : Votes) (d : ℕ) (page_shortage starting_page_shortage : ℤ)
      → d < vm_ndomains
      → IsCounted s
      → Fair s d (
          vm_pageout_mightbe_oom vm_ndomains vm_pageout_oom_seq s d page_shortage
            starting_page_shortage)
  unfolding vm_pageout_mightbe_oom
  vm_pageout_mightbe_oom-Fair s d page_shortage starting_page_shortage l c =
      let seq = if failed page_shortage starting_page_shortage then s.vmd_oom_seq d + 1 else 0 in
      elim (Bool-cases (ltb seq vm_pageout_oom_seq)) [
        | inl e ↦ rw e (elim (Bool-cases (s.vmd_oom d)) [
          | inl f ↦ rw f (record {
            counted =
                take_back-IsCounted (with_seq s d seq) d l (same_vote s d seq true f)
                  (with_seq-IsCounted s d seq c);
            kills = inl (kills-take_back s d seq);
          })
          | inr f ↦
              rw f (record {
                counted = with_seq-IsCounted s d seq c;
                kills = inl (kept_kills s d seq);
              })
        ])
        | inr e ↦
            rw e
              (with_seq-Fair s d 0 _ (vote-Fair (with_seq s d 0) d l (with_seq-IsCounted s d 0 c)))
      ]
