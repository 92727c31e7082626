-- ===== src/HandlePool/Trace.antt =====
-- Sequences of calls of a pool, and the handles that are kept across them.
use native.Mathlib.Nat.{
  mod-eq_of_lt, mod-add-mod, add-mod_right, add-zero, pow-suc, mod-lt, add_assoc,
}
use metl.Prelude.{
  ℕ, zero, suc, ◌+◌, ◌-◌, ◌*◌, ◌%◌, ◌/◌, ◌^◌, ◌≤◌, ◌<◌, ◌≡◌, ◌≢◌, refl, sym, ◌∙◌, ap, true, false,
  ◌&&◌, Option, none, some, List, [], ◌∷◌, arith, ◌==◌, if◌then◌else◌, eq→==, dec_lt, ℕ_discrete,
}
use mathlib.Core.Path.{subst}
use metl.Prelude.Bits.{IsPow2-pow, IsPow2-pos}
use metl.Prelude.Outcome.{Outcome, ret, thrown, stopped, undefined, M, ◌>>=◌, ◌>>◌}
use metl.VersionedHandle
use metl.HandlePool.{Pool, try_emplace, destroy, clear, contains}
use metl.HandlePool.FreeList.{count}
use metl.HandlePool.Invariant.{gen, IsValid, parity_step}
use metl.HandlePool.Lookup.{shown, is_some, lookup, get_lem}
use metl.HandlePool.Effects.{
  shown-stale, shown-live, Advance, stays, ends, lookup-some, Destroyed, destroy-Destroyed,
}
use metl.HandlePool.Emplaced.{Emplaced, full, issued, undone, try_emplace-Emplaced}
use metl.HandlePool.Clear.{clear_lem}

pub data Op {ℓ} (A : Type ℓ) : Type ℓ where
  emplaces : Option A → Op A
  destroys : ℕ → Op A
  clears : Op A

module _ {ℓ} {A : Type ℓ} where
  -- The state in which a caller goes on, which for an exception is the one it left.
  abbrev pub state_of {κ} : {B : Type κ} → Outcome (Pool A) B → Option (Pool A)
  state_of (ret b p) = some p
  state_of (thrown p) = some p
  state_of stopped = none
  state_of undefined = none

  -- Whether a call issued a handle for the slot.
  abbrev pub issue : ℕ → ℕ → Outcome (Pool A) ℕ → ℕ
  issue w slot (ret handle p) =
      if VersionedHandle.valid 16 w handle && (VersionedHandle.index 16 w handle == slot)
      then 1
      else 0
  issue w slot (thrown p) = 0
  issue w slot stopped = 0
  issue w slot undefined = 0

next_at : (w g steps x : ℕ) → x ≡ (g + steps) % 2 ^ w → (x + 1) % 2 ^ w ≡ (g + (steps + 1)) % 2 ^ w
next_at w g steps x e =
    ap (λ t. (t + 1) % 2 ^ w) e
    ∙ mod-add-mod (g + steps) (2 ^ w) 1
    ∙ ap (λ t. t % 2 ^ w) (omega arith)

pow_half : (w : ℕ) → 0 < w → 2 ^ w ≡ 2 * 2 ^ (w - 1)
pow_half zero h = absurd (omega arith)
pow_half (suc w) h = rw (suc-sub w) (omega (arith, pow-suc 2 w))
  where
    suc-sub : (w : ℕ) → suc w - 1 ≡ w
    suc-sub w = omega arith

generation-lt : (w handle : ℕ) → VersionedHandle.generation 16 w handle < 2 ^ w
unfolding VersionedHandle.generation
generation-lt w handle = mod-lt (handle / 2 ^ 16) (IsPow2-pos (IsPow2-pow w))

ret-state {ℓ κ} :
    {S : Type ℓ} {B : Type κ} {a b : B} {s t : S}
    → ◌≡◌ {A = Outcome S B} (ret a s) (ret b t)
    → s ≡ t
ret-state e = cc e

-- A number does not come back before a full turn.
turn-ne : (g steps m : ℕ) → g < m → 0 < steps → steps < m → (g + steps) % m ≢ g
turn-ne g steps m lt pos short e = elim (dec_lt (g + steps) m) [
  | yes low ↦ omega (arith, mod-eq_of_lt low)
  | no high ↦
      let back : g + steps ≡ (g + steps - m) + m = omega arith in
      omega (
        arith,
        ap (λ t. t % m) back,
        add-mod_right (g + steps - m) m,
        mod-eq_of_lt {n = g + steps - m} {m = m} (omega arith),
      )
]

module _ {ℓ} {A : Type ℓ} (cap w : ℕ) where
  unfoldable pub step : Op A → M (Pool A) ℕ
  step (emplaces made) = try_emplace cap w made
  step (destroys handle) = destroy cap w handle >> ret VersionedHandle.null
  step clears = clear cap w >> ret VersionedHandle.null

  -- The state behind all the calls, and how many handles they issue for the slot.
  unfoldable pub run : List (Op A) → Pool A → Option (Pool A)
  unfolding step
  run [] p = some p
  run (op ∷ ops) p = elim (state_of (step op p)) [ none ↦ none | some q ↦ run ops q ]

  unfoldable pub issues : ℕ → List (Op A) → Pool A → ℕ
  unfolding step
  issues slot [] p = 0
  issues slot (op ∷ ops) p = elim (state_of (step op p)) [
    | none ↦ 0
    | some q ↦ issue w slot (step op p) + issues slot ops q
  ]

  -- What a call does to the generation of slot `i`.
  data Turn (i : ℕ) (p q : Pool A) (o : Outcome (Pool A) ℕ) (wide : 0 < w) : Type ℓ where
    quiet : Advance cap w wide p q i → Turn i p q o wide
    issues_one :
        gen p i % 2 ≡ 0 → gen q i ≡ (gen p i + 1) % 2 ^ w → issue w i o ≡ 1 → Turn i p q o wide

  -- A slot at the head of the free list has an even generation.
  first_free :
      (p : Pool A) (rest : List ℕ) {k : ℕ}
      → ((i : ℕ) → i < cap → count i (k ∷ rest) + gen p i % 2 ≡ 1)
      → (j : ℕ) → j ≡ k
      → j < cap
      → gen p j % 2 ≡ 0
  first_free p rest {k} split j e inside = omega (arith, split j inside, once)
    where
      once : count j (k ∷ rest) ≡ suc (count j rest)
      once = rw (eq→== k j (sym e)) (omega arith)

  module _ (small : cap ≤ 65535) (fits : 16 + w ≤ 64) (wide : 0 < w) where
    step-Turn :
        (op : Op A) (p : Pool A) (fs : List ℕ) (i : ℕ)
        → i < cap
        → IsValid cap w p fs
        → (q : Pool A) × (state_of (step op p) ≡ some q)
          × ((fs' : List ℕ) × IsValid cap w q fs')
          × Turn i p q (step op p) wide
    unfolding step
    step-Turn (emplaces made) p fs i inside v =
        let (o, run, e) = try_emplace-Emplaced cap w small fits wide p fs made v in
        rw run (go fs made o v e)
      where
        go :
            (fs : List ℕ) (made : Option A) (o : Outcome (Pool A) ℕ)
            → IsValid cap w p fs
            → Emplaced cap w p made fs o
            → (q : Pool A) × (state_of o ≡ some q)
              × ((fs' : List ℕ) × IsValid cap w q fs')
              × Turn i p q o wide
        go _ _ _ v (full made) = (p, refl, ([], v), quiet (stays refl))
        go _ _ _ v (issued a k handle rest q u index generation before valid mapped self other) = (
          q,
          refl,
          (rest, u),
          elim (ℕ_discrete i k) [
            | no ne ↦ quiet (stays (other i ne))
            | yes same ↦
                issues_one
                  (ap (λ t. gen p t % 2) same ∙ first_free p rest v.split k refl (omega arith))
                  (ap (gen q) same ∙ self ∙ ap (λ t. (gen p t + 1) % 2 ^ w) (sym same))
                  (rw (valid, index, eq→== k i (sym same)))
          ],
        )
        go _ _ _ v (undone k rest q u mapped same) =
            (q, refl, (k ∷ rest, u), quiet (stays (same i)))
    step-Turn (destroys handle) p fs i inside v =
        let (q, run, d) = destroy-Destroyed cap w wide p fs handle small v in
        (q, rw (run, ◌>>◌, ◌>>=◌), (d.free, d.valid), quiet (d.advance i))
    step-Turn clears p fs i inside v =
        let (q, run, u, _, _, advance) = clear_lem cap w small wide p fs v in
        (q, rw (run, ◌>>◌, ◌>>=◌), u, quiet (advance i))

    -- How far slot `i` is from the generation `g`, after at most `n` handles issued for it.
    record Drift (g n i : ℕ) (p : Pool A) : Type 0 where
      pub steps : ℕ
      pub at : gen p i ≡ (g + steps) % 2 ^ w
      pub moved : 0 < steps
      pub bound : steps + gen p i % 2 ≤ 2 * n + 1

    Drift-Turn :
        (g n i : ℕ) (p q : Pool A) (o : Outcome (Pool A) ℕ)
        → gen p i < 2 ^ w
        → Drift g n i p
        → Turn i p q o wide
        → Drift g (n + issue w i o) i q
    Drift-Turn g n i p q o lt d (quiet (stays e)) = record {
      steps = d.steps;
      at = e ∙ d.at;
      moved = d.moved;
      bound = omega (arith, d.bound, ap (λ t. t % 2) e);
    }
    Drift-Turn g n i p q o lt d (quiet (ends odd e)) = record {
      steps = d.steps + 1;
      at = e ∙ next_at w g d.steps (gen p i) d.at;
      moved = omega arith;
      bound = omega (arith, d.bound, ap (λ t. t % 2) e, parity_step w (gen p i) wide lt);
    }
    Drift-Turn g n i p q o lt d (issues_one even e one) = record {
      steps = d.steps + 1;
      at = e ∙ next_at w g d.steps (gen p i) d.at;
      moved = omega arith;
      bound = omega (arith, d.bound, one, ap (λ t. t % 2) e, parity_step w (gen p i) wide lt);
    }

    run-Drift :
        (ops : List (Op A)) (p : Pool A) (fs : List ℕ) (g n i : ℕ)
        → i < cap
        → IsValid cap w p fs
        → Drift g n i p
        → (q : Pool A) × (run ops p ≡ some q)
          × ((fs' : List ℕ) × IsValid cap w q fs')
          × Drift g (n + issues i ops p) i q
    unfolding run issues
    run-Drift [] p fs g n i inside v d = (p, refl, (fs, v), rw (add-zero n) d)
    run-Drift (op ∷ ops) p fs g n i inside v d =
        let (q, next, (fs', u), turn) = step-Turn op p fs i inside v in
        let (r, rest, valid, e) =
          run-Drift ops q fs' g (n + issue w i (step op p)) i inside u
            (Drift-Turn g n i p q (step op p) (v.fits i inside) d turn) in
        (
          r,
          rw (run, next) rest,
          valid,
          rw (issues, next, sym (add_assoc n (issue w i (step op p)) (issues i ops q))) e,
        )

    -- The slot of a handle that `destroy` has just ended is one step on.
    Destroyed-Drift :
        (handle : ℕ) (p p' : Pool A)
        → is_some (lookup cap w handle p) ≡ true
        → Destroyed cap w wide handle p p'
        → Drift (gen p (VersionedHandle.index 16 w handle)) 0 (VersionedHandle.index 16 w handle) p'
    unfolding lookup
    Destroyed-Drift handle p p' found d =
        let i = VersionedHandle.index 16 w handle in
        let (inside, e, odd) = lookup-some cap w wide p handle found in
        go i inside odd (d.advance i) (d.mapped handle ∙ rw (eq→== i i refl, found)) e
      where
        go :
            (i : ℕ)
            → i < cap
            → gen p i % 2 ≡ 1
            → Advance cap w wide p p' i
            → shown cap i (VersionedHandle.generation 16 w handle) p' ≡ none
            → gen p i ≡ VersionedHandle.generation 16 w handle
            → Drift (gen p i) 0 i p'
        go i inside odd (ends _ next) gone e = record {
          steps = 1;
          at = next;
          moved = omega arith;
          bound = omega (
            arith,
            parity_step w (gen p i) wide (subst (λ t. t < 2 ^ w) (sym e) (generation-lt w handle)),
            ap (λ t. t % 2) next,
          );
        }
        go i inside odd (stays same) gone e =
            let now : gen p' i % 2 ≡ 1 = ap (λ t. t % 2) same ∙ odd in
            let (a, here) = d.valid.live i inside now in
            let seen =
              shown-live cap i (VersionedHandle.generation 16 w handle) p' a inside (same ∙ e)
                (ap (λ t. t % 2) (sym e) ∙ odd) here in
            cc (sym gone ∙ seen)

    -- In a well-formed pool of at most 65535 slots with a generation of 1 to 48 bits, a handle
    -- that `contains` accepts and `destroy` ends is rejected by `contains` after any sequence of
    -- `try_emplace`, throwing ones included, `destroy` and `clear`, as long as that sequence
    -- issues fewer than 2^(w-1) handles for the same slot. The sequence itself always comes to an
    -- end in a state.
    pub stale_lem :
        (p : Pool A) (fs : List ℕ) (handle : ℕ) (p' : Pool A) (ops : List (Op A))
        → IsValid cap w p fs
        → contains cap w handle p ≡ true
        → destroy cap w handle p ≡ ret true p'
        → issues (VersionedHandle.index 16 w handle) ops p' < 2 ^ (w - 1)
        → (q : Pool A) × (run ops p' ≡ some q) × (contains cap w handle q ≡ false)
    stale_lem p fs handle p' ops v found gone few =
        let i = VersionedHandle.index 16 w handle in
        let found' : is_some (lookup cap w handle p) ≡ true =
          sym (get_lem cap w p fs v handle).1 ∙ found in
        let (inside, e, odd) = lookup-some cap w wide p handle found' in
        let (p1, first, d) = destroy-Destroyed cap w wide p fs handle small v in
        let same : p1 ≡ p' = ret-state (sym first ∙ gone) in
        let d' = subst (λ x. Destroyed cap w wide handle p x) same d in
        let (q, end, (fs', u), drift) =
          run-Drift ops p' d'.free (gen p i) 0 i inside d'.valid
            (Destroyed-Drift handle p p' found' d') in
        let missing : lookup cap w handle q ≡ none =
          unfold lookup in
          shown-stale cap i (VersionedHandle.generation 16 w handle) q (λ back.
            turn-ne (gen p i) drift.steps (2 ^ w) (v.fits i inside) drift.moved
              (omega (arith, drift.bound, pow_half w wide)) (sym drift.at ∙ back ∙ sym e)) in
        (q, end, (get_lem cap w q fs' u handle).1 ∙ ap is_some missing)
