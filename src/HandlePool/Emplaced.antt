-- ===== src/HandlePool/Emplaced.antt =====
-- `try_emplace` on each of its branches, as a change of the map from handles to objects.
use mathlib.Core.Path.{subst}
use metl.Prelude.{
  ℕ, ◌+◌, ◌%◌, ◌^◌, ◌≤◌, ◌<◌, ◌≡◌, ◌≢◌, sym, ◌∙◌, ap, true, ◌&&◌, Option, none, some, List, [], ◌∷◌,
  arith, get_or, ◌==◌, if◌then◌else◌, eq→==, ne→==, ℕ_discrete,
}
use metl.Prelude.Outcome.{Outcome, ret, thrown}
use metl.VersionedHandle
use metl.VersionedHandle.Fields.{issued_fields}
use metl.HandlePool.{object, raw, Pool, try_emplace}
use metl.HandlePool.FreeList.{Chain-head}
use metl.HandlePool.Invariant.{gen, IsValid, step_fits}
use metl.HandlePool.Emplace.{try_emplace-full, try_emplace-issues, try_emplace-throws}
use metl.HandlePool.Lookup.{shown, lookup}
use metl.HandlePool.Effects.{shown-free, shown_congr, shown-stale, shown-live}

module _ {ℓ} {A : Type ℓ} (cap w : ℕ) where
  -- The outcomes of a call on a pool with the free slots `fs`, oldest first.
  pub data Emplaced (p : Pool A) : Option A → List ℕ → Outcome (Pool A) ℕ → Type ℓ where
    -- Nothing is free: the null handle, and no change.
    full : (made : Option A) → Emplaced p made [] (ret VersionedHandle.null p)
    -- The slot that has been free longest is taken, and its new handle is the only one that finds
    -- something else than before.
    issued :
        (a : A) (i handle : ℕ) (rest : List ℕ) (p' : Pool A)
        → IsValid cap w p' rest
        → VersionedHandle.index 16 w handle ≡ i
        → VersionedHandle.generation 16 w handle ≡ (gen p i + 1) % 2 ^ w
        → lookup cap w handle p ≡ none
        → VersionedHandle.valid 16 w handle ≡ true
        → ((k : ℕ)
            → lookup cap w k p' ≡ (
                if (VersionedHandle.index 16 w k == i)
                  && (VersionedHandle.generation 16 w k == (gen p i + 1) % 2 ^ w)
                then some a
                else lookup cap w k p))
        → gen p' i ≡ (gen p i + 1) % 2 ^ w
        → ((j : ℕ) → j ≢ i → gen p' j ≡ gen p j)
        → Emplaced p (some a) (i ∷ rest) (ret handle p')
    -- The constructor threw: the same slots are free in the same order, and every handle finds
    -- what it found.
    undone :
        (i : ℕ) (rest : List ℕ) (p' : Pool A)
        → IsValid cap w p' (i ∷ rest)
        → ((k : ℕ) → lookup cap w k p' ≡ lookup cap w k p)
        → ((j : ℕ) → gen p' j ≡ gen p j)
        → Emplaced p none (i ∷ rest) (thrown p')

  shown-issued :
      (p p' : Pool A) (a : A) (i g : ℕ)
      → i < cap
      → gen p i % 2 ≡ 0
      → gen p' i ≡ g
      → g % 2 ≡ 1
      → get_or p'.slots i raw ≡ object a
      → ((j : ℕ) → j ≢ i → gen p' j ≡ gen p j)
      → ((j : ℕ) → j ≢ i → get_or p'.slots j raw ≡ get_or p.slots j raw)
      → (j h : ℕ) → shown cap j h p' ≡ (if (j == i) && (h == g) then some a else shown cap j h p)
  shown-issued p p' a i g inside free live odd here other kept j h = elim (ℕ_discrete j i) [
    | no ne ↦ rw (ne→== j i ne) (shown_congr cap j h p p' (other j ne) (λ lt o. kept j ne))
    | yes e ↦ elim (ℕ_discrete h g) [
      | yes match ↦
          rw (eq→== j i e, eq→== h g match, e, match) (shown-live cap i g p' a inside live odd here)
      | no stale ↦
          rw (eq→== j i e, ne→== h g stale, e)
            (shown-stale cap i h p' (λ t. stale (sym t ∙ live)) ∙ sym (shown-free cap i h p free))
    ]
  ]

  module _ (small : cap ≤ 65535) (fits : 16 + w ≤ 64) (wide : 0 < w) (p : Pool A) where
    Call : Option A → List ℕ → Type ℓ
    Call made fs = (o : Outcome (Pool A) ℕ) × (try_emplace cap w made p ≡ o) × Emplaced p made fs o

    Call-issued :
        (rest : List ℕ) (a : A)
        → p.free_head < cap
        → IsValid cap w p (p.free_head ∷ rest)
        → Call (some a) (p.free_head ∷ rest)
    unfolding Call lookup
    Call-issued rest a inside v =
        let i = p.free_head in
        let g = (gen p i + 1) % 2 ^ w in
        let (p', run, r) = try_emplace-issues cap w small wide p rest v a in
        let odd : g % 2 ≡ 1 = ap (λ t. t % 2) (sym r.self) ∙ r.now_live in
        let (index, generation, valid) =
          issued_fields 16 w fits i g (omega (arith, inside)) (step_fits w (gen p i)) in
        (
          ret (VersionedHandle.issued 16 w i g) p',
          run,
          issued a i (VersionedHandle.issued 16 w i g) rest p' r.valid index generation
              (rw index (
                shown-free cap i (VersionedHandle.generation 16 w (VersionedHandle.issued 16 w i g))
                  p r.was_free))
              (valid ∙ rw (ne→== g 0 (λ e. omega (arith, odd, ap (λ t. t % 2) e))))
              (λ k.
                shown-issued p p' a i g inside r.was_free r.self odd r.placed r.other r.kept
                  (VersionedHandle.index 16 w k) (VersionedHandle.generation 16 w k))
              r.self r.other,
        )

    Call-undone :
        (rest : List ℕ) → IsValid cap w p (p.free_head ∷ rest) → Call none (p.free_head ∷ rest)
    unfolding Call lookup
    Call-undone rest v =
        let (p', run, r) = try_emplace-throws cap w small wide p rest v in
        (
          thrown p',
          run,
          undone p.free_head rest p' r.valid
              (λ k.
                shown_congr cap (VersionedHandle.index 16 w k) (VersionedHandle.generation 16 w k) p
                  p' (r.same (VersionedHandle.index 16 w k))
                  (λ lt o. r.kept (VersionedHandle.index 16 w k) o))
              r.same,
        )

    -- With at most 65535 slots and a generation of 1 to 48 bits, `try_emplace` on a well-formed
    -- pool with the free slots fs, oldest first, has one of three outcomes. With no free slot it
    -- returns the null handle and changes nothing. With a constructor that returns, it takes the
    -- slot that has been free longest and returns a valid handle of that slot at its next
    -- generation, which found nothing before, and no other handle finds anything else than
    -- before. With a constructor that throws, the same slots are free in the same order and every
    -- handle finds what it found. The pool stays well formed in each.
    pub try_emplace-Emplaced :
        (fs : List ℕ) (made : Option A)
        → IsValid cap w p fs
        → (o : Outcome (Pool A) ℕ) × (try_emplace cap w made p ≡ o) × Emplaced p made fs o
    unfolding Call
    try_emplace-Emplaced [] made v =
        (ret VersionedHandle.null p, try_emplace-full cap w p made v, full made)
    try_emplace-Emplaced (i ∷ rest) (some a) v =
        let (head, inside, _) = Chain-head cap v.chain in
        subst (λ n. Call (some a) (n ∷ rest)) head
          (Call-issued rest a (omega arith) (subst (λ n. IsValid cap w p (n ∷ rest)) (sym head) v))
    try_emplace-Emplaced (i ∷ rest) none v =
        let (head, inside, _) = Chain-head cap v.chain in
        subst (λ n. Call none (n ∷ rest)) head
          (Call-undone rest (subst (λ n. IsValid cap w p (n ∷ rest)) (sym head) v))
