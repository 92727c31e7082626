-- ===== src/HandlePool/Effects.antt =====
-- What each operation of the pool does to the map from handles to objects.
use metl.Prelude.{
  ℕ, ◌+◌, ◌%◌, ◌^◌, ◌≤◌, ◌<◌, ◌≡◌, ◌≢◌, refl, sym, ◌∙◌, ap, Bool, true, false, ◌&&◌, Option, none,
  some, List, [], ◌∷◌, ◌++◌, arith, bit_and, inl, inr, Bool-cases, get_or, leb, ◌==◌, if◌then◌else◌,
  lt→ltb, lt→leb, le→leb, eq→==, ne→==, dec_lt, ℕ_discrete,
}
use metl.Prelude.Outcome.{ret, ◌>>=◌, ◌>>◌}
use metl.VersionedHandle
use metl.HandlePool.{object, raw, Pool, contains, live_index, destroy}
use metl.HandlePool.Invariant.{gen, IsValid, parity_step}
use metl.HandlePool.Release.{Released, release_lem}
use metl.HandlePool.Lookup.{bit_and-one, is_some, shown, lookup, get_lem}

module _ {ℓ} {A : Type ℓ} (cap : ℕ) where
  pub shown-free : (i g : ℕ) (p : Pool A) → gen p i % 2 ≡ 0 → shown cap i g p ≡ none
  unfolding shown
  shown-free i g p even = elim (ℕ_discrete (g % 2) 0) [
    | yes e ↦ rw (eq→== (g % 2) 0 e)
    | no odd ↦
        rw (ne→== (g % 2) 0 odd, ne→== (gen p i) g (λ e. odd (omega (arith, ap (λ t. t % 2) e))))
          (if_same (leb cap i) none)
  ]
    where
      if_same : (b : Bool) (x : Option A) → (if b then x else x) ≡ x
      if_same true x = refl
      if_same false x = refl

  pub shown_congr :
      (i g : ℕ) (p q : Pool A)
      → gen q i ≡ gen p i
      → (i < cap → gen p i % 2 ≡ 1 → get_or q.slots i raw ≡ get_or p.slots i raw)
      → shown cap i g q ≡ shown cap i g p
  unfolding shown
  shown_congr i g p q e k = elim (dec_lt i cap) [
    | no out ↦ rw (le→leb cap i (omega arith))
    | yes inside ↦ elim (ℕ_discrete (gen p i % 2) 1) [
      | yes live ↦ rw (e, k inside live)
      | no free ↦
          unfold shown in
          (shown-free i g q (omega (arith, ap (λ t. t % 2) e))
            ∙ sym (shown-free i g p (omega arith)))
    ]
  ]

  pub shown-out : (i g : ℕ) (p : Pool A) → cap ≤ i → shown cap i g p ≡ none
  unfolding shown
  shown-out i g p out = elim (ℕ_discrete (g % 2) 0) [
    | yes e ↦ rw (eq→== (g % 2) 0 e)
    | no odd ↦ rw (ne→== (g % 2) 0 odd, le→leb cap i out)
  ]

  -- A handle that finds an object names a live slot of its generation.
  shown-some :
      (i g : ℕ) (p : Pool A)
      → is_some (shown cap i g p) ≡ true
      → (i < cap) × (gen p i ≡ g) × (g % 2 ≡ 1)
  unfolding shown
  shown-some i g p h = elim (ℕ_discrete (g % 2) 0) [
    | yes e ↦ cc (rw (eq→== (g % 2) 0 e) at h)
    | no odd ↦ elim (dec_lt i cap) [
      | no out ↦ cc (rw (ne→== (g % 2) 0 odd, le→leb cap i (omega arith)) at h)
      | yes inside ↦ elim (ℕ_discrete (gen p i) g) [
        | yes e ↦ (inside, e, omega arith)
        | no ne ↦ cc (rw (ne→== (g % 2) 0 odd, lt→leb i cap inside, ne→== (gen p i) g ne) at h)
      ]
    ]
  ]

  pub shown-stale : (i g : ℕ) (p : Pool A) → gen p i ≢ g → shown cap i g p ≡ none
  unfolding shown
  shown-stale i g p ne = elim (ℕ_discrete (g % 2) 0) [
    | yes e ↦ rw (eq→== (g % 2) 0 e)
    | no odd ↦ elim (dec_lt i cap) [
      | no out ↦ rw (ne→== (g % 2) 0 odd, le→leb cap i (omega arith))
      | yes inside ↦ rw (ne→== (g % 2) 0 odd, lt→leb i cap inside, ne→== (gen p i) g ne)
    ]
  ]

  pub shown-live :
      (i g : ℕ) (p : Pool A) (a : A)
      → i < cap
      → gen p i ≡ g
      → g % 2 ≡ 1
      → get_or p.slots i raw ≡ object a
      → shown cap i g p ≡ some a
  unfolding shown
  shown-live i g p a inside e odd here =
      rw (ne→== (g % 2) 0 (omega arith), lt→leb i cap inside, eq→== (gen p i) g e, here)

  module _ (w : ℕ) (wide : 0 < w) where
    pub shown-Released :
        (i : ℕ) (p p' : Pool A)
        → gen p i % 2 ≡ 1
        → gen p i < 2 ^ w
        → Released cap w p i p'
        → (j g : ℕ) → shown cap j g p' ≡ (if j == i then none else shown cap j g p)
    shown-Released i p p' odd fits r j g = elim (ℕ_discrete j i) [
      | yes e ↦
          rw (eq→== j i e, e)
            (shown-free i g p'
              (omega (arith, r.self, parity_step w (gen p i) wide fits, ap (λ t. t % 2) r.self)))
      | no ne ↦ rw (ne→== j i ne) (shown_congr j g p p' (r.other j ne) (λ lt o. r.kept j lt ne o))
    ]

    pub lookup-some :
        (p : Pool A) (handle : ℕ)
        → is_some (lookup cap w handle p) ≡ true
        → (VersionedHandle.index 16 w handle < cap)
          × (gen p (VersionedHandle.index 16 w handle) ≡ VersionedHandle.generation 16 w handle)
          × (gen p (VersionedHandle.index 16 w handle) % 2 ≡ 1)
    unfolding lookup
    lookup-some p handle found =
        let i = VersionedHandle.index 16 w handle in
        let g = VersionedHandle.generation 16 w handle in
        let (inside, e, odd) = shown-some i g p found in (inside, e, ap (λ t. t % 2) e ∙ odd)

    live_index-found :
        (p : Pool A) (handle : ℕ)
        → is_some (lookup cap w handle p) ≡ true
        → live_index cap w handle p ≡ VersionedHandle.index 16 w handle
    unfolding live_index
    live_index-found p handle found =
        let i = VersionedHandle.index 16 w handle in
        let g = VersionedHandle.generation 16 w handle in
        let (inside, e, odd) = lookup-some p handle found in
        let mark : bit_and g 1 ≡ 1 = bit_and-one g ∙ ap (λ t. t % 2) (sym e) ∙ odd in
        rw (mark, lt→leb i cap inside, eq→== (gen p i) g e)

    live_index-missing :
        (p : Pool A) (fs : List ℕ) (handle : ℕ)
        → IsValid cap w p fs
        → is_some (lookup cap w handle p) ≡ false
        → cap ≤ live_index cap w handle p
    unfolding contains
    live_index-missing p fs handle v missing = elim (dec_lt (live_index cap w handle p) cap) [
      | no past ↦ omega arith
      | yes inside ↦ cc (
          sym (lt→ltb (live_index cap w handle p) cap inside)
          ∙ (get_lem cap w p fs v handle).1
          ∙ missing)
    ]

    -- A slot's generation moves on only if the slot was live.
    pub data Advance (p p' : Pool A) (j : ℕ) : Type 0 where
      stays : gen p' j ≡ gen p j → Advance p p' j
      ends : gen p j % 2 ≡ 1 → gen p' j ≡ (gen p j + 1) % 2 ^ w → Advance p p' j

    pub Released-Advance :
        (p p' : Pool A) (i j : ℕ) → gen p i % 2 ≡ 1 → Released cap w p i p' → Advance p p' j
    Released-Advance p p' i j odd r = elim (ℕ_discrete i j) [
      | yes e ↦
          ends (ap (λ t. gen p t % 2) (sym e) ∙ odd)
            (ap (gen p') (sym e) ∙ r.self ∙ ap (λ t. (gen p t + 1) % 2 ^ w) e)
      | no ne ↦ stays (r.other j (λ e. ne (sym e)))
    ]

    -- What `destroy` leaves of the pool, and of the map from handles to objects.
    pub record Destroyed (handle : ℕ) (p p' : Pool A) : Type ℓ where
      pub free : List ℕ
      pub valid : IsValid cap w p' free
      pub mapped :
          (k : ℕ)
          → lookup cap w k p' ≡ (
              if is_some (lookup cap w handle p)
                && (VersionedHandle.index 16 w k == VersionedHandle.index 16 w handle)
              then none
              else lookup cap w k p)
      pub advance : (j : ℕ) → Advance p p' j

    -- With at most 65535 slots and a generation of at least one bit, `destroy` on a well-formed
    -- pool always returns, true exactly if the handle finds an object; then no handle of that
    -- slot finds anything, and every other handle finds what it found. The pool stays well
    -- formed, and a generation moves on only where a live slot ends.
    pub destroy-Destroyed :
        (p : Pool A) (fs : List ℕ) (handle : ℕ)
        → cap ≤ 65535
        → IsValid cap w p fs
        → (p' : Pool A) × (destroy cap w handle p ≡ ret (is_some (lookup cap w handle p)) p')
          × Destroyed handle p p'
    destroy-Destroyed p fs handle small v = elim (Bool-cases (is_some (lookup cap w handle p))) [
      | inl found ↦
          let i = VersionedHandle.index 16 w handle in
          let (inside, e, odd) = lookup-some p handle found in
          let (p', run, valid, r) = release_lem cap w small wide p fs v i inside odd in
          (
            p',
            unfold destroy in
                rw (live_index-found p handle found, lt→leb i cap inside, run, ◌>>◌, ◌>>=◌, found),
            record {
              free = fs ++ i ∷ [];
              valid = valid;
              mapped = λ k. rw found (
                  unfold lookup in
                  shown-Released i p p' odd (v.fits i inside) r (VersionedHandle.index 16 w k)
                    (VersionedHandle.generation 16 w k));
              advance = λ j. Released-Advance p p' i j odd r;
            },
          )
      | inr missing ↦ (
        p,
        unfold destroy in
            rw (
              le→leb cap (live_index cap w handle p) (live_index-missing p fs handle v missing),
              missing,
            ),
        record { free = fs; valid = v; mapped = λ k. rw missing; advance = λ j. stays refl },
      )
    ]
