-- ===== src/Aofs/Blocks/Chain.antt =====
-- Chains of blocks, and what delete_chain does to one.
use free_bsd_messaround.Prelude.{
  ℕ, zero, suc, ◌<◌, ◌≡◌, refl, true, false, ◌||◌, List, [], ◌∷◌, ◌==◌, if◌then◌else◌, ℤ, pos,
  negsuc, arith, has, length, Bool-cases, inl, inr, ==_iff,
}
use free_bsd_messaround.Aofs.Bitmap.{bit_at}
use free_bsd_messaround.Aofs.Disk.{Disk, Environment, done, block_num}
use free_bsd_messaround.Aofs.Blocks.{clear_block, delete_chain}
use free_bsd_messaround.Aofs.Blocks.Allocate.{IsSound, Frees, deallocate_block-Frees}

-- From block number `b` the `next` fields lead through the distinct blocks `xs` to -1.
pub data Chain (d : Disk) : ℤ → List ℕ → Type 0 where
  nil : Chain d (negsuc 0) []
  cons :
      {n : ℕ} {next : ℤ} {xs : List ℕ}
      → n < block_num
      → (d.blocks n).next ≡ next
      → has n xs ≡ false
      → Chain d next xs
      → Chain d (pos n) (n ∷ xs)

pub Chain-frame :
    {d d' : Disk} {b : ℤ} {xs : List ℕ}
    → Chain d b xs
    → ((j : ℕ) → has j xs ≡ true → d'.blocks j ≡ d.blocks j)
    → Chain d' b xs
Chain-frame nil same = nil
Chain-frame (cons {n = n} l e out c) same =
    cons l (ground (arith, same n)) out (Chain-frame c (λ j h. same j (ground arith)))

module _ (e : Environment) where
  -- The blocks of `xs` are cleared and their bits are clear; all else is as before.
  pub record FreesAll (xs : List ℕ) (d d' : Disk) : Type 0 where
    pub bits : (j : ℕ) → bit_at d'.sb.bitmap j ≡ (if has j xs then 0 else bit_at d.sb.bitmap j)
    pub contents :
        (j : ℕ) → d'.blocks j ≡ (if has j xs then clear_block e (d.blocks j) else d.blocks j)
    pub sound : IsSound d'

  Frees-frame :
      {d d' : Disk} {b : ℤ} (n : ℕ) {xs : List ℕ}
      → Frees e n d d'
      → has n xs ≡ false
      → Chain d b xs
      → Chain d' b xs
  Frees-frame {d} {d'} n {xs} f out c = Chain-frame c other
    where
      other : (j : ℕ) → has j xs ≡ true → d'.blocks j ≡ d.blocks j
      other j h = elim (Bool-cases (j == n)) [
        | inl u ↦
            let q : j ≡ n = (==_iff j n).0 u in let h' : has n xs ≡ true = rw q at h in absurd (cc)
        | inr u ↦ rw (f.contents j, u) refl
      ]

  -- Clearing one block of a chain and then the rest clears each of them once.
  cleared :
      {d d1 d2 : Disk} (n : ℕ) (xs : List ℕ) (j : ℕ)
      → Frees e n d d1
      → FreesAll xs d1 d2
      → has n xs ≡ false
      → d2.blocks j ≡ (if j == n || has j xs then clear_block e (d.blocks j) else d.blocks j)
  cleared n xs j f g out = elim (Bool-cases (j == n)) [
    | inl u ↦
        let q : j ≡ n = (==_iff j n).0 u in
        let away : has j xs ≡ false = rw q out in rw (g.contents j, away, f.contents j, u, q) refl
    | inr u ↦ rw (g.contents j, f.contents j, u) refl
  ]

  -- Given a sound image, a chain and fuel for its blocks and one round more, delete_chain ends, frees and clears
  -- exactly the blocks of the chain, and changes no other bit or block.
  pub delete_chain-FreesAll :
      (fuel : ℕ) {d : Disk} {b : ℤ} {xs : List ℕ}
      → Chain d b xs
      → IsSound d
      → length xs < fuel
      → (d' : Disk) × (delete_chain e fuel b d ≡ done tt d') × FreesAll xs d d'
  unfolding delete_chain
  delete_chain-FreesAll zero c v l = absurd (omega arith)
  delete_chain-FreesAll (suc fuel) {d} nil v l =
      (d, refl, record { bits = λ j. refl; contents = λ j. refl; sound = v })
  delete_chain-FreesAll (suc fuel) {d} (cons {n = n} {xs = xs} lt e' out c) v l =
      let (d1, run, f) = deallocate_block-Frees e d n v lt in
      let (d2, rest, g) =
        delete_chain-FreesAll fuel (Frees-frame n f out c) f.sound (omega arith) in
      (
        d2,
        rw (run, e') rest,
        record {
          bits = λ j. ground (arith, g.bits j, f.bits j);
          contents = λ j. cleared n xs j f g out;
          sound = g.sound;
        },
      )
