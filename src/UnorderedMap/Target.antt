-- ===== src/UnorderedMap/Target.antt =====
-- The probe loop of `rehash_in_place`, which finds the slot for an element.
use metl.Prelude.{
  ℕ, zero, suc, ◌+◌, ◌<◌, ◌≡◌, ◌≢◌, refl, sym, ap, ◌∙◌, inl, inr, some, List, ℕ_discrete, arith,
}
use metl.UnorderedMap.{Keys, Entry, Cell, occupied, cell, probe_index, skip_occupied}
use metl.Window.{PowerSized}
use metl.UnorderedMap.Invariant.{Cell-cases, place, place-lt, place-onto, place-next}
use metl.UnorderedMap.Settle.{Filled}

module _ {ℓ} {K V : Type ℓ} (buckets fuel target : ℕ) (cells : List (Cell K V)) where
  skip_occupied-occupied :
      (e : Entry K V)
      → cell cells target ≡ occupied e
      → skip_occupied buckets (suc fuel) target cells
        ≡ (skip_occupied buckets fuel (probe_index buckets target 1) cells)
  unfolding skip_occupied
  skip_occupied-occupied e o = rw (o, skip_occupied) refl

  skip_occupied_bare :
      ((e : Entry K V) → cell cells target ≢ occupied e)
      → skip_occupied buckets (suc fuel) target cells ≡ some target
  unfolding skip_occupied
  skip_occupied_bare bare = elim (Cell-cases (cell cells target)) [
    | inl v ↦ rw (v, skip_occupied) refl
    | inr (inl (e, o)) ↦ absurd (bare e o)
    | inr (inr (inl o)) ↦ rw (o, skip_occupied) refl
    | inr (inr (inr (e, u))) ↦ rw (u, skip_occupied) refl
  ]

module _ {ℓ} {K V : Type ℓ} (keys : Keys K) (buckets : ℕ) (sized : PowerSized buckets) where
  open keys use {equal}

  -- The slot that an element with the key gets.
  pub record Target (cells : List (Cell K V)) (key : K) : Type ℓ where
    pub index : ℕ
    pub inside : index < buckets
    pub bare : (e : Entry K V) → cell cells index ≢ occupied e
    pub filled : Filled keys buckets cells key index

  module _ (cells : List (Cell K V)) (key : K) where
    one_more :
        (d : ℕ)
        → ((d' : ℕ)
            → d' < d
            → (e : Entry K V) × (cell cells (place keys buckets key d') ≡ occupied e))
        → (e : Entry K V) → cell cells (place keys buckets key d) ≡ occupied e
        → (d' : ℕ) → d' < d + 1
        → (e : Entry K V) × (cell cells (place keys buckets key d') ≡ occupied e)
    one_more d full e o d' lt = elim (ℕ_discrete d' d) [
      | yes now ↦ (e, ap (λ t. cell cells (place keys buckets key t)) now ∙ o)
      | no earlier ↦ full d' (omega arith)
    ]

    stop_here :
        (fuel d : ℕ)
        → d < buckets
        → ((d' : ℕ)
            → d' < d
            → (e : Entry K V) × (cell cells (place keys buckets key d') ≡ occupied e))
        → ((e : Entry K V) → cell cells (place keys buckets key d) ≢ occupied e)
        → (t : Target cells key) × (skip_occupied buckets
              (suc fuel)
              (place keys buckets key d)
              cells
            ≡ some t.index)
    stop_here fuel d h full bare = (
      record {
        index = place keys buckets key d;
        inside = place-lt keys buckets sized key d;
        bare = bare;
        filled = record { after = d; inside = h; there = refl; full = full };
      },
      skip_occupied_bare buckets fuel (place keys buckets key d) cells bare,
    )

    pub Target-from :
        (fuel d : ℕ)
        → fuel + d ≡ buckets
        → ((d' : ℕ)
            → d' < d
            → (e : Entry K V) × (cell cells (place keys buckets key d') ≡ occupied e))
        → (spare : ℕ) → spare < buckets
        → ((e : Entry K V) → cell cells spare ≢ occupied e)
        → (t : Target cells key) × (skip_occupied buckets fuel (place keys buckets key d) cells
            ≡ some t.index)
    Target-from zero d sum full spare inside bare =
        let (d', lt, there) = place-onto keys buckets sized key spare inside in
        let (e, o) = full d' (omega arith) in
        absurd (bare e (ap (λ k. cell cells k) (sym there) ∙ o))
    Target-from (suc fuel) d sum full spare inside bare =
        let at = place keys buckets key d in
        let found = λ (h : (e : Entry K V) → cell cells at ≢ occupied e).
          stop_here fuel d (omega arith) full h in
        elim (Cell-cases (cell cells at)) [
          | inl v ↦ found (λ e o. cc)
          | inr (inl (e, o)) ↦
              let (t, skip) =
                Target-from fuel (d + 1) (omega arith) (one_more d full e o) spare inside bare in
              (
                t,
                skip_occupied-occupied buckets fuel at cells e o
                    ∙ ap (λ k. skip_occupied buckets fuel k cells)
                        (place-next keys buckets sized key d)
                    ∙ skip,
              )
          | inr (inr (inl o)) ↦ found (λ e o'. cc)
          | inr (inr (inr (e, u))) ↦ found (λ e' o. cc)
        ]
