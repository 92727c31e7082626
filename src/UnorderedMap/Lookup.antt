-- ===== src/UnorderedMap/Lookup.antt =====
-- Looking up a key in an arranged table, and the effect of writing one slot on it.
use mathlib.Core.Path.{subst}
use metl.Prelude.{
  ℕ, zero, suc, ◌≤◌, ◌<◌, ◌≡◌, ◌≢◌, refl, sym, ap, ◌∙◌, true, false, ◌⊎◌, inl, inr, none, some,
  List, ◌==◌, Bool-cases, ne→==, ℕ_discrete, arith,
}
use metl.UnorderedMap.{
  Keys, Entry, Cell, occupied, Table, cell, find_existing_index, locate_insert_index, find,
}
use metl.UnorderedMap.Invariant.{
  Cell-cases, place, place-lt, place-onto, Reach, Reach-same, Arranged, Free, Missing, Sized,
}
use metl.UnorderedMap.Probe.{
  find_loop_found, find_loop_missing, locate_loop_found, locate_loop_missing,
}

module _ {ℓ} {K V : Type ℓ} where
  pub occupied_inj : {a b : Entry K V} → occupied a ≡ occupied b → a ≡ b
  occupied_inj e = cc

module _ {ℓ} {K V : Type ℓ} (keys : Keys K) (buckets : ℕ) where
  open keys use {equal}

  -- A slot has an element with the key.
  pub record Present (cells : List (Cell K V)) (key : K) : Type ℓ where
    pub index : ℕ
    pub element : Entry K V
    pub inside : index < buckets
    pub there : cell cells index ≡ occupied element
    pub same : equal element.key key ≡ true

  abbrev Differs : List (Cell K V) → K → ℕ → Type ℓ
  Differs cells key i = (e : Entry K V) → cell cells i ≡ occupied e → equal e.key key ≡ false

  last_or :
      (cells : List (Cell K V)) (key : K) (n : ℕ)
      → ((i : ℕ) → i < n → Differs cells key i)
      → Differs cells key n
      → (i : ℕ) → i < suc n
      → Differs cells key i
  last_or cells key n old now i lt = elim (ℕ_discrete i n) [
    | yes here ↦ subst (λ j. Differs cells key j) (sym here) now
    | no below ↦ old i (omega arith)
  ]

  search_below :
      (cells : List (Cell K V)) (key : K) (n : ℕ)
      → n ≤ buckets
      → Present cells key ⊎ ((i : ℕ) → i < n → Differs cells key i)
  search_below cells key zero le = inr (λ i lt. absurd (omega arith))
  search_below cells key (suc n) le = elim (search_below cells key n (omega arith)) [
    | inl found ↦ inl found
    | inr old ↦ elim (Cell-cases (cell cells n)) [
      | inl v ↦ inr (last_or cells key n old (λ e o. absurd (cc)))
      | inr (inl (e, o)) ↦ elim (Bool-cases (equal e.key key)) [
        | inl same ↦
            inl (record { index = n; element = e; inside = omega arith; there = o; same = same })
        | inr other ↦ inr (
            last_or cells key n old (λ e' o'.
              ap (λ (x : Entry K V). equal x.key key) (occupied_inj (sym o' ∙ o)) ∙ other))
      ]
      | inr (inr (inl o)) ↦ inr (last_or cells key n old (λ e o'. absurd (cc)))
      | inr (inr (inr (e, o))) ↦ inr (last_or cells key n old (λ e o'. absurd (cc)))
    ]
  ]

  pub Present-cases :
      (cells : List (Cell K V)) (key : K) → Present cells key ⊎ Missing keys buckets cells key
  Present-cases cells key = elim (search_below cells key buckets (omega arith)) [
    | inl found ↦ inl found
    | inr nowhere ↦ inr (λ i e lt o. nowhere i lt e o)
  ]

module _ {ℓ} {K V : Type ℓ} (keys : Keys K) (cap buckets : ℕ) (sized : Sized cap buckets)
    (t : Table K V) (arranged : Arranged keys buckets t.cells) (key : K) where
  open keys use {equal}

  low : (d : ℕ) → place keys buckets key d < buckets
  low = place-lt keys buckets sized.power key

  some_capacity : (cap == 0) ≡ false
  some_capacity = ne→== cap 0 (omega arith)

  -- The probes for the key get to the slot that has it.
  module _ (p : Present keys buckets t.cells key) where
    Present-Reach : Reach keys buckets t.cells key p.index
    Present-Reach =
        Reach-same keys buckets t.cells p.element.key key p.index p.same
          (arranged.reach p.index p.element p.inside p.there)

    pub find_existing_index-some : find_existing_index keys cap buckets key t ≡ some p.index
    unfolding find_existing_index
    find_existing_index-some = rw some_capacity (
        find_loop_found keys buckets t.cells arranged key p.index p.element p.inside p.there p.same
          Present-Reach low buckets 0 (omega arith) (omega arith))

    pub locate_insert_index-found : locate_insert_index keys cap buckets key t ≡ some p.index
    unfolding locate_insert_index
    locate_insert_index-found = rw some_capacity (
        locate_loop_found keys buckets t.cells arranged key p.index p.element p.inside p.there
          p.same Present-Reach low buckets 0 none (omega arith) (omega arith))

    pub find-some : find keys cap buckets key t ≡ some p.element.value
    unfolding find
    find-some = rw (find_existing_index-some, find) (rw (p.there) refl)

  module _ (missing : Missing keys buckets t.cells key) where
    pub find_existing_index-none : find_existing_index keys cap buckets key t ≡ none
    unfolding find_existing_index
    find_existing_index-none =
        rw some_capacity (find_loop_missing keys buckets t.cells arranged key missing low buckets 0)

    pub find-none : find keys cap buckets key t ≡ none
    unfolding find
    find-none = rw (find_existing_index-none, find) refl

    -- With a slot to spare, there is a place for the key.
    pub locate_insert_index_missing :
        (spare : ℕ)
        → spare < buckets
        → ((e : Entry K V) → cell t.cells spare ≢ occupied e)
        → (i : ℕ) × (locate_insert_index keys cap buckets key t ≡ some i)
          × Free keys buckets t.cells key i
    unfolding locate_insert_index
    locate_insert_index_missing spare inside free =
        let (i, e, f) =
          locate_loop_missing keys buckets t.cells arranged key missing low
            (place-onto keys buckets sized.power key) spare inside free buckets 0 none (omega arith)
            (λ d lt. absurd (omega arith)) (λ d lt. absurd (omega arith)) in
        (i, rw some_capacity e, f)
