-- ===== src/Ghost/Count.antt =====
-- The histogram of a ghost cache: it never tells more hits than there were accesses.
use gcache.Common.{
  ℕ, zero, suc, ◌+◌, ◌^◌, ◌≤◌, ◌<◌, ◌≡◌, refl, inl, inr, Bool, true, false, ◌==◌, update, ltb,
  if◌then◌else◌, Bool-cases, arith, ◌∙◌, subst,
}
use gcache.Common.Words.{inc32}
use gcache.Ghost.{
  GhostCache, AccessMode, default, as_miss, as_hit, noop, count_access, reset_stat, clear_loop,
}
use gcache.Ghost.Stat.{Counted, hits_from}

hits-update_before :
    (f : ℕ → ℕ) (k v i n : ℕ) → k < i → hits_from (update f k v) i n ≡ hits_from f i n
hits-update_before f k v i zero h = refl
hits-update_before f k v i (suc n) h = ground (arith, hits-update_before f k v (suc i) n)

-- One entry that grows by one at most.
hits-update :
    (f : ℕ → ℕ) (k v i n : ℕ) → v ≤ f k + 1 → hits_from (update f k v) i n ≤ hits_from f i n + 1
hits-update f k v i zero h = omega arith
hits-update f k v i (suc n) h = elim (Bool-cases (i == k)) [
  | inl here ↦
      let same : i ≡ k = ground arith in
      rw (here, same) (omega (arith, hits-update_before f k v (suc k) n))
  | inr other ↦ rw other (omega (arith, hits-update f k v (suc i) n h))
]

-- The sum after one entry has grown by one.
hits-grow :
    (f : ℕ → ℕ) (k i n : ℕ)
    → i ≤ k
    → hits_from (update f k (f k + 1)) i n ≡ hits_from f i n + (if ltb k (i + n) then 1 else 0)
hits-grow f k i zero h = ground arith
hits-grow f k i (suc n) h = elim (Bool-cases (i == k)) [
  | inl here ↦
      let same : i ≡ k = ground arith in
      let inside : ltb k (k + suc n) ≡ true = ground arith in
      rw (here, same, inside) (omega (arith, hits-update_before f k (f k + 1) (suc k) n))
  | inr other ↦ rw other (ground (arith, hits-grow f k (suc i) n))
]

pub hits-grow_first :
    (f : ℕ → ℕ) (k n : ℕ)
    → hits_from (update f k (f k + 1)) 0 n ≡ hits_from f 0 n + (if ltb k n then 1 else 0)
hits-grow_first f k n =
    let all : 0 + n ≡ n = omega arith in
    subst (λ m. hits_from (update f k (f k + 1)) 0 n ≡ hits_from f 0 n + (if ltb k m then 1 else 0))
      all (hits-grow f k 0 n (omega arith))

-- An entry is no more than the sum.
pub hits-entry : (f : ℕ → ℕ) (k i n : ℕ) → i ≤ k → k < i + n → f k ≤ hits_from f i n
hits-entry f k i zero h below = absurd (omega arith)
hits-entry f k i (suc n) h below = elim (Bool-cases (i == k)) [
  | inl here ↦ let same : i ≡ k = ground arith in rw same (omega arith)
  | inr other ↦ omega (arith, hits-entry f k (suc i) n (ground arith) (omega arith))
]

-- Entries that are cleared.
clear_loop_before : (n i : ℕ) (f : ℕ → ℕ) (j : ℕ) → j < i → clear_loop n i f j ≡ f j
unfolding clear_loop
clear_loop_before zero i f j h = refl
clear_loop_before (suc n) i f j h =
    let other : (j == i) ≡ false = ground arith in
    clear_loop_before n (suc i) _ j (omega arith) ∙ rw other refl

clear_loop_at : (n i : ℕ) (f : ℕ → ℕ) (j : ℕ) → i ≤ j → j < i + n → clear_loop n i f j ≡ 0
unfolding clear_loop
clear_loop_at zero i f j h below = absurd (omega arith)
clear_loop_at (suc n) i f j h below = elim (Bool-cases (j == i)) [
  | inl here ↦ clear_loop_before n (suc i) _ j (ground arith) ∙ rw here refl
  | inr later ↦ clear_loop_at n (suc i) _ j (ground arith) (omega arith)
]

hits_cleared : (f : ℕ → ℕ) (i n : ℕ) → ((j : ℕ) → j < i + n → f j ≡ 0) → hits_from f i n ≡ 0
hits_cleared f i zero clear = refl
hits_cleared f i (suc n) clear =
    omega (arith, clear i (omega arith), hits_cleared f (suc i) n (λ j h. clear j (omega arith)))

-- Counting an access, in every mode, as a hit or not and at any size index, keeps the histogram's
-- hits within the number of accesses and that number within 32 bits, as long as one more access
-- fits.
pub count_access-Counted :
    {M : Type 0} (g : GhostCache M) (mode : AccessMode) (hit : Bool) (size_idx : ℕ)
    → Counted g
    → g.reuse_count + 1 < 2 ^ 32
    → Counted (count_access g mode hit size_idx)
unfolding count_access
count_access-Counted g default true i c room = record {
  total = omega (
    arith,
    c.total,
    hits-update g.reuse_distances i (inc32 (g.reuse_distances i)) 0 g.num_ticks (omega arith),
  );
  word = omega arith;
}
count_access-Counted g default false i c room = record {
  total = omega (arith, c.total);
  word = omega arith;
}
count_access-Counted g as_miss hit i c room = record {
  total = omega (arith, c.total);
  word = omega arith;
}
count_access-Counted g as_hit hit i c room = record {
  total = omega (
    arith,
    c.total,
    hits-update g.reuse_distances 0 (inc32 (g.reuse_distances 0)) 0 g.num_ticks (omega arith),
  );
  word = omega arith;
}
count_access-Counted g noop hit i c room = c

-- `reset_stat` clears every entry of the histogram and the number of accesses, after which the
-- hits are within the accesses.
pub reset_stat-Counted :
    {M : Type 0} (g : GhostCache M)
    → Counted (reset_stat g)
      × ((i : ℕ) → i < g.num_ticks → (reset_stat g).reuse_distances i ≡ 0)
      × ((reset_stat g).reuse_count ≡ 0)
unfolding reset_stat
reset_stat-Counted g =
    let clear = λ (j : ℕ) (h : j < g.num_ticks).
      clear_loop_at g.num_ticks 0 g.reuse_distances j (omega arith) (omega arith) in
    (
      record {
        total = omega (
          arith,
          hits_cleared (reset_stat g).reuse_distances 0 g.num_ticks (λ j h. clear j (omega arith)),
        );
        word = omega arith;
      },
      clear,
      refl,
    )
