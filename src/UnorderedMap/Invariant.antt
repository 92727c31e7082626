-- ===== src/UnorderedMap/Invariant.antt =====
-- What every table between two operations satisfies.
use metl.Prelude.{
  ℕ, ◌+◌, ◌-◌, ◌*◌, ◌%◌, ◌≤◌, ◌<◌, ◌≡◌, ◌≢◌, refl, sym, ap, ◌∙◌, true, false, ◌⊎◌, inl, inr, List,
  bit_and, length, arith,
}
use native.Mathlib.Nat.{mod-eq_of_lt, mod-add-mod}
use metl.Prelude.Bits.{bit_and-mask}
use metl.Prelude.Sums.{sum_below}
use metl.UnorderedMap.{
  Keys, Entry, Cell, vacant, occupied, tombstone, unplaced, Table, cell, hash_mix, probe_index,
  bucket_index,
}
use metl.Window.{PowerSized, PowerSized-IsPow2, slot-mod, slot-lt, surjective}

-- The number of slots for a capacity.
pub record Sized (cap buckets : ℕ) : Type 0 where
  pub positive : 0 < cap
  pub half : 2 * cap ≤ buckets
  pub power : PowerSized buckets

module _ {ℓ} {K V : Type ℓ} where
  pub Cell-cases :
      (c : Cell K V)
      → (c ≡ vacant)
        ⊎ ((e : Entry K V) × (c ≡ occupied e))
        ⊎ (c ≡ tombstone)
        ⊎ ((e : Entry K V) × (c ≡ unplaced e))
  Cell-cases vacant = inl refl
  Cell-cases (occupied e) = inr (inl (e, refl))
  Cell-cases tombstone = inr (inr (inl refl))
  Cell-cases (unplaced e) = inr (inr (inr (e, refl)))

  abbrev pub lives : Cell K V → ℕ
  lives vacant = 0
  lives (occupied e) = 1
  lives tombstone = 0
  lives (unplaced e) = 0

  abbrev pub died : Cell K V → ℕ
  died vacant = 0
  died (occupied e) = 0
  died tombstone = 1
  died (unplaced e) = 1

module _ {ℓ} {K : Type ℓ} (keys : Keys K) (buckets : ℕ) where
  -- The slot that the probe number `d` for a key looks at.
  abbrev pub place : K → ℕ → ℕ
  place key d = probe_index buckets (bucket_index keys buckets key) d

  pub place-same : (a b : K) (d : ℕ) → keys.equal a b ≡ true → place a d ≡ place b d
  unfolding bucket_index
  place-same a b d h =
      ap (λ t. probe_index buckets (bit_and (hash_mix t) (buckets - 1)) d) (keys.same_hash a b h)

module _ {ℓ} {K V : Type ℓ} (keys : Keys K) (buckets : ℕ) where
  open keys use {equal}

  -- The probes for a key get to slot `i`.
  pub record Reach (cells : List (Cell K V)) (key : K) (i : ℕ) : Type ℓ where
    pub after : ℕ
    pub inside : after < buckets
    pub there : place keys buckets key after ≡ i
    pub passes : (d : ℕ) → d < after → cell cells (place keys buckets key d) ≢ vacant

  pub Reach-same :
      (cells : List (Cell K V)) (a b : K) (i : ℕ)
      → equal a b ≡ true
      → Reach cells a i
      → Reach cells b i
  Reach-same cells a b i h r = record {
    after = r.after;
    inside = r.inside;
    there = sym (place-same keys buckets a b r.after h) ∙ r.there;
    passes = λ d lt e. r.passes d lt (ap (λ t. cell cells t) (place-same keys buckets a b d h) ∙ e);
  }

  -- No slot has an element with the key.
  abbrev pub Missing : List (Cell K V) → K → Type ℓ
  Missing cells key =
      (i : ℕ) (e : Entry K V) → i < buckets → cell cells i ≡ occupied e → equal e.key key ≡ false

  -- A slot where an element with the key can be constructed.
  pub record Free (cells : List (Cell K V)) (key : K) (i : ℕ) : Type ℓ where
    pub inside : i < buckets
    pub no_object : (e : Entry K V) → cell cells i ≢ occupied e
    pub reach : Reach cells key i

  pub record Arranged (cells : List (Cell K V)) : Type ℓ where
    pub width : length cells ≡ buckets
    pub clean : (i : ℕ) (e : Entry K V) → cell cells i ≢ unplaced e
    pub reach :
        (i : ℕ) (e : Entry K V) → i < buckets → cell cells i ≡ occupied e → Reach cells e.key i
    pub unique :
        (i j : ℕ) (a b : Entry K V)
        → i < buckets
        → j < buckets
        → cell cells i ≡ occupied a
        → cell cells j ≡ occupied b
        → equal a.key b.key ≡ true
        → i ≡ j

  -- The table of the class: its slots are arranged, and its two counts are right.
  pub record Valid (t : Table K V) : Type ℓ where
    pub arranged : Arranged t.cells
    pub live : sum_below buckets (λ i. lives (cell t.cells i)) ≡ t.size
    pub dead : sum_below buckets (λ i. died (cell t.cells i)) ≡ t.tombstones

module _ {ℓ} {K : Type ℓ} (keys : Keys K) (buckets : ℕ) (sized : PowerSized buckets) where
  place-mod :
      (key : K) (d : ℕ) → place keys buckets key d ≡ (bucket_index keys buckets key + d) % buckets
  unfolding probe_index
  place-mod key d = slot-mod buckets sized (bucket_index keys buckets key + d)

  pub place-lt : (key : K) (d : ℕ) → place keys buckets key d < buckets
  place-lt key d =
      let e = place-mod key d in
      let h = slot-lt buckets sized (bucket_index keys buckets key + d) in omega arith

  -- The probes look at every slot.
  pub place-onto :
      (key : K) (i : ℕ) → i < buckets → (d : ℕ) × (d < buckets) × (place keys buckets key d ≡ i)
  place-onto key i h =
      let home = bucket_index keys buckets key in
      let (n, low, high, e) = surjective buckets sized home i h in
      let s : home + (n - home) ≡ n = omega arith in
      (n - home, omega arith, place-mod key (n - home) ∙ ap (λ t. t % buckets) s ∙ e)

  home-mod : (key : K) → bucket_index keys buckets key ≡ hash_mix (keys.hash key) % buckets
  unfolding bucket_index
  home-mod key = bit_and-mask (hash_mix (keys.hash key)) (PowerSized-IsPow2 sized)

  -- The first probe is at the key's own slot, and each next one a slot further.
  pub place-zero : (key : K) → place keys buckets key 0 ≡ bucket_index keys buckets key
  place-zero key =
      let home = bucket_index keys buckets key in
      let h : home < buckets =
        (let e = home-mod key in
          let l = slot-lt buckets sized (hash_mix (keys.hash key)) in omega arith) in
      let e : home + 0 ≡ home = omega arith in
      place-mod key 0 ∙ ap (λ t. t % buckets) e ∙ mod-eq_of_lt h

  pub place-next :
      (key : K) (d : ℕ)
      → probe_index buckets (place keys buckets key d) 1 ≡ place keys buckets key (d + 1)
  unfolding probe_index
  place-next key d =
      let home = bucket_index keys buckets key in
      let e : home + d + 1 ≡ home + (d + 1) = omega arith in
      slot-mod buckets sized (place keys buckets key d + 1)
      ∙ ap (λ t. (t + 1) % buckets) (place-mod key d)
      ∙ mod-add-mod (home + d) buckets 1
      ∙ ap (λ t. t % buckets) e
      ∙ sym (place-mod key (d + 1))
