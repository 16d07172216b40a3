-- ===== src/Ghost/Shift.antt =====
-- The loop of `access_impl` that moves the boundaries.
use gcache.Common.{
  ℕ, zero, suc, ◌+◌, ◌≤◌, ◌<◌, ◌≡◌, ◌≢◌, refl, sym, ap, ◌∙◌, ◌⊎◌, inl, inr, arith, false, ◌==◌,
  Bool-cases, update, update_self,
}
use gcache.Common.Words.{inc32}
use gcache.Node.{Ptr, nullptr, Store}
use gcache.Ghost.{SizeIndexed, shift_boundaries}

module _ {M : Type 0} ⦃f : SizeIndexed M⦄ where
  -- A node that falls into the next larger size.
  abbrev pub bump : M → M
  bump x = f.with_index (inc32 (f.index_of x)) x

  -- The boundaries from `i` on, below `k`, have been moved to their successors, and the nodes
  -- there fell into the next larger size.
  pub record Shifted (i k : ℕ) (s : Store ℕ M) (bs : ℕ → Ptr) (r : Store ℕ M × (ℕ → Ptr))
      : Type 0 where
    pub frame : r.0 ≡ record s { value = r.0.value }
    pub moved : (j : ℕ) → i ≤ j → j < k → r.1 j ≡ s.next (bs j)
    pub kept : (j : ℕ) → (j < i) ⊎ (k ≤ j) → r.1 j ≡ bs j
    pub at_boundary : (j : ℕ) → i ≤ j → j < k → r.0.value (bs j) ≡ bump (s.value (bs j))
    pub elsewhere : (a : Ptr) → ((j : ℕ) → i ≤ j → j < k → a ≢ bs j) → r.0.value a ≡ s.value a

  -- The first round, and the others.
  Shifted-step :
      (i k : ℕ) (s : Store ℕ M) (bs : ℕ → Ptr) (r : Store ℕ M × (ℕ → Ptr))
      → i < k
      → ((l : ℕ) → i < l → l < k → bs i ≢ bs l)
      → Shifted
          (suc i)
          k
          (record s { value = update s.value (bs i) (bump (s.value (bs i))) })
          (update bs i (s.next (bs i)))
          r
      → Shifted i k s bs r
  Shifted-step i k s bs r below apart h =
      let self = update_self bs i (s.next (bs i)) in
      let other : (j : ℕ) → i ≢ j → update bs i (s.next (bs i)) j ≡ bs j = λ j ne. ground arith in
      let untouched : (a : Ptr)
          → a ≢ bs i
          → update s.value (bs i) (bump (s.value (bs i))) a ≡ s.value a =
        λ a ne. ground arith in
      record {
        frame = h.frame;
        moved = λ j from to. elim (Bool-cases (i == j)) [
          | inl here ↦ let same : j ≡ i = ground arith in rw same (h.kept i (omega arith) ∙ self)
          | inr later ↦ h.moved j (ground arith) to ∙ ap s.next (other j (ground arith))
        ];
        kept = λ j out. h.kept j (omega arith) ∙ other j (omega arith);
        at_boundary = λ j from to. elim (Bool-cases (i == j)) [
          | inl here ↦
              let same : j ≡ i = ground arith in
              rw same (
                h.elsewhere (bs i)
                  (λ l from' to'. rw (other l (omega arith)) (apart l (omega arith) to'))
                ∙ update_self s.value (bs i) (bump (s.value (bs i))))
          | inr later ↦
              let less : i < j = ground arith in
              let old = untouched (bs j) (λ e. apart j less to (sym e)) in
              ap r.0.value (sym (other j (omega arith)))
              ∙ h.at_boundary j less to
              ∙ ap bump (rw (other j (omega arith)) old)
        ];
        elsewhere = λ a out.
            h.elsewhere a (λ l from' to'. rw (other l (omega arith)) (out l (omega arith) to'))
            ∙ untouched a (out i (omega arith) below);
      }

  -- The loop, where the boundaries are different nodes.
  pub shift_boundaries-Shifted :
      (n i k : ℕ) (s : Store ℕ M) (bs : ℕ → Ptr)
      → i + n ≡ k
      → ((j : ℕ) → i ≤ j → j < k → bs j ≢ nullptr)
      → ((j l : ℕ) → i ≤ j → j < l → l < k → bs j ≢ bs l)
      → Shifted i k s bs (shift_boundaries n i s bs)
  unfolding shift_boundaries
  shift_boundaries-Shifted zero i k s bs all proper apart = record {
    frame = refl;
    moved = λ j h below. absurd (omega arith);
    kept = λ j h. refl;
    at_boundary = λ j h below. absurd (omega arith);
    elsewhere = λ a h. refl;
  }
  shift_boundaries-Shifted (suc n) i k s bs all proper apart =
      let here : (bs i == nullptr) ≡ false = ground (arith, proper i (omega arith) (omega arith)) in
      let s1 = record s { value = update s.value (bs i) (bump (s.value (bs i))) } in
      let bs1 = update bs i (s.next (bs i)) in
      let other : (j : ℕ) → i < j → bs1 j ≡ bs j = λ j h. ground arith in
      let rest =
        shift_boundaries-Shifted n (suc i) k s1 bs1 (omega arith)
          (λ j h below. rw (other j h) (proper j (omega arith) below))
          (λ j l h less below.
            rw (other j h, other l (omega arith)) (apart j l (omega arith) less below)) in
      rw here (Shifted-step i k s bs _ (omega arith) (λ l. apart i l (omega arith)) rest)
