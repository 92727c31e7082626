-- ===== src/UnorderedMap/Probe.antt =====
-- The loops of `find_existing_index` and `locate_insert_index` in an arranged table.
use metl.Prelude.{
  ℕ, zero, suc, ◌+◌, ◌≤◌, ◌<◌, ◌≡◌, ◌≢◌, refl, sym, ap, ◌∙◌, true, inl, inr, Option, none, some,
  List, Bool-cases, ℕ_discrete, arith,
}
use metl.UnorderedMap.{
  Keys, Entry, Cell, vacant, occupied, tombstone, unplaced, cell, bucket_index, find_loop,
  locate_loop,
}
use metl.UnorderedMap.Invariant.{Cell-cases, place, Reach, Arranged, Free, Missing}
use metl.UnorderedMap.Steps.{
  noted, find_loop-vacant, find_loop_equal, find_loop_pass, locate_loop-vacant, locate_loop_equal,
  locate_loop_other, locate_loop-tombstone,
}

module _ {ℓ} {K V : Type ℓ} (keys : Keys K) (buckets : ℕ) (cells : List (Cell K V))
    (arranged : Arranged keys buckets cells) where
  open keys use {equal}

  -- The slot has the only element with the key.
  module _ (key : K) (i : ℕ) (e : Entry K V) (inside : i < buckets)
      (there : cell cells i ≡ occupied e) (same : equal e.key key ≡ true) where
    -- An element with the key in a slot is the one.
    only :
        (j : ℕ) (e' : Entry K V)
        → j < buckets
        → cell cells j ≡ occupied e'
        → equal e'.key key ≡ true
        → j ≡ i
    only j e' h there' same' =
        arranged.unique j i e' e h inside there' there
          (keys.transitive e'.key key e.key same' (keys.symmetric e.key key same))

    module _ (r : Reach keys buckets cells key i)
        (low : (d : ℕ) → place keys buckets key d < buckets) where
      pub find_loop_found :
          (rounds probe : ℕ)
          → probe ≤ r.after
          → rounds + probe ≡ buckets
          → find_loop keys buckets key (bucket_index keys buckets key) rounds probe cells ≡ some i
      find_loop_found zero probe le sum = absurd (omega (arith, r.inside))
      find_loop_found (suc rounds) probe le sum =
          let home = bucket_index keys buckets key in
          let at = place keys buckets key probe in
          elim (ℕ_discrete probe r.after) [
            | yes now ↦
                let here : at ≡ i = ap (λ d. place keys buckets key d) now ∙ r.there in
                find_loop_equal keys buckets cells key home rounds probe e
                  (ap (λ t. cell cells t) here ∙ there) same
                ∙ ap some here
            | no later ↦
                let rest = find_loop_found rounds (probe + 1) (omega arith) (omega arith) in
                let pass = find_loop_pass keys buckets cells key home rounds probe in
                elim (Cell-cases (cell cells at)) [
                  | inl v ↦ absurd (r.passes probe (omega arith) v)
                  | inr (inl (e', o)) ↦ elim (Bool-cases (equal e'.key key)) [
                    | inl same_key ↦
                        find_loop_equal keys buckets cells key home rounds probe e' o same_key
                        ∙ ap some (only at e' (low probe) o same_key)
                    | inr other ↦ pass (occupied e') o other ∙ rest
                  ]
                  | inr (inr (inl o)) ↦ pass tombstone o tt ∙ rest
                  | inr (inr (inr (e', o))) ↦ pass (unplaced e') o tt ∙ rest
                ]
          ]

      pub locate_loop_found :
          (rounds probe : ℕ) (first : Option ℕ)
          → probe ≤ r.after
          → rounds + probe ≡ buckets
          → locate_loop keys buckets key (bucket_index keys buckets key) rounds probe first cells
            ≡ (some i)
      locate_loop_found zero probe first le sum = absurd (omega (arith, r.inside))
      locate_loop_found (suc rounds) probe first le sum =
          let home = bucket_index keys buckets key in
          let at = place keys buckets key probe in
          elim (ℕ_discrete probe r.after) [
            | yes now ↦
                let here : at ≡ i = ap (λ d. place keys buckets key d) now ∙ r.there in
                locate_loop_equal keys buckets cells key home rounds probe first e
                  (ap (λ t. cell cells t) here ∙ there) same
                ∙ ap some here
            | no later ↦
                let rest = λ (f : Option ℕ).
                  locate_loop_found rounds (probe + 1) f (omega arith) (omega arith) in
                elim (Cell-cases (cell cells at)) [
                  | inl v ↦ absurd (r.passes probe (omega arith) v)
                  | inr (inl (e', o)) ↦ elim (Bool-cases (equal e'.key key)) [
                    | inl same_key ↦
                        locate_loop_equal keys buckets cells key home rounds probe first e' o
                          same_key
                        ∙ ap some (only at e' (low probe) o same_key)
                    | inr other ↦
                        locate_loop_other keys buckets cells key home rounds probe first e' o other
                        ∙ rest first
                  ]
                  | inr (inr (inl o)) ↦
                      locate_loop-tombstone keys buckets cells key home rounds probe first o
                      ∙ rest _
                  | inr (inr (inr (e', o))) ↦ absurd (arranged.clean at e' o)
                ]
          ]

  -- No slot has the key.
  module _ (key : K) (missing : Missing keys buckets cells key)
      (low : (d : ℕ) → place keys buckets key d < buckets) where
    pub find_loop_missing :
        (rounds probe : ℕ)
        → find_loop keys buckets key (bucket_index keys buckets key) rounds probe cells ≡ none
    unfolding find_loop
    find_loop_missing zero probe = refl
    find_loop_missing (suc rounds) probe =
        let home = bucket_index keys buckets key in
        let at = place keys buckets key probe in
        let rest = find_loop_missing rounds (probe + 1) in
        let pass = find_loop_pass keys buckets cells key home rounds probe in
        elim (Cell-cases (cell cells at)) [
          | inl v ↦ find_loop-vacant keys buckets cells key home rounds probe v
          | inr (inl (e', o)) ↦ pass (occupied e') o (missing at e' (low probe) o) ∙ rest
          | inr (inr (inl o)) ↦ pass tombstone o tt ∙ rest
          | inr (inr (inr (e', o))) ↦ pass (unplaced e') o tt ∙ rest
        ]

    -- What the probes before `probe` saw.
    abbrev Noted : ℕ → Option ℕ → Type ℓ
    Noted probe none =
        (d : ℕ) → d < probe → (e : Entry K V) × (cell cells (place keys buckets key d) ≡ occupied e)
    Noted probe (some i) = Free keys buckets cells key i

    Free-now :
        (probe : ℕ)
        → probe < buckets
        → ((d : ℕ) → d < probe → cell cells (place keys buckets key d) ≢ vacant)
        → ((e : Entry K V) → cell cells (place keys buckets key probe) ≢ occupied e)
        → Free keys buckets cells key (place keys buckets key probe)
    Free-now probe h walked bare = record {
      inside = low probe;
      no_object = bare;
      reach = record { after = probe; inside = h; there = refl; passes = walked };
    }

    step_walked :
        (d probe : ℕ)
        → ((d : ℕ) → d < probe → cell cells (place keys buckets key d) ≢ vacant)
        → cell cells (place keys buckets key probe) ≢ vacant
        → d < probe + 1
        → cell cells (place keys buckets key d) ≢ vacant
    step_walked d probe walked bare lt = elim (ℕ_discrete d probe) [
      | yes now ↦ λ v. bare (ap (λ t. cell cells (place keys buckets key t)) (sym now) ∙ v)
      | no earlier ↦ walked d (omega arith)
    ]

    settled :
        (probe : ℕ)
        → probe < buckets
        → ((d : ℕ) → d < probe → cell cells (place keys buckets key d) ≢ vacant)
        → (first : Option ℕ) → Noted probe first
        → ((e : Entry K V) → cell cells (place keys buckets key probe) ≢ occupied e)
        → (i : ℕ) × (noted buckets (bucket_index keys buckets key) probe first ≡ some i)
          × Free keys buckets cells key i
    settled probe h walked none n bare =
        (place keys buckets key probe, refl, Free-now probe h walked bare)
    settled probe h walked (some i) n bare = (i, refl, n)

    seen :
        (probe : ℕ) (first : Option ℕ) (e : Entry K V)
        → cell cells (place keys buckets key probe) ≡ occupied e
        → Noted probe first
        → Noted (probe + 1) first
    seen probe none e o n = λ d lt. elim (ℕ_discrete d probe) [
      | yes now ↦ (e, ap (λ t. cell cells (place keys buckets key t)) now ∙ o)
      | no earlier ↦ n d (omega arith)
    ]
    seen probe (some i) e o n = n

    module _
        (onto : (i : ℕ) → i < buckets → (d : ℕ) × (d < buckets) × (place keys buckets key d ≡ i))
        (spare : ℕ) (spare_inside : spare < buckets)
        (spare_free : (e : Entry K V) → cell cells spare ≢ occupied e) where
      pub locate_loop_missing :
          (rounds probe : ℕ) (first : Option ℕ)
          → rounds + probe ≡ buckets
          → ((d : ℕ) → d < probe → cell cells (place keys buckets key d) ≢ vacant)
          → Noted probe first
          → (i : ℕ) × (locate_loop keys buckets key
                (bucket_index keys buckets key)
                rounds
                probe
                first
                cells
              ≡ (some i))
            × Free keys buckets cells key i
      unfolding locate_loop
      locate_loop_missing zero probe none sum walked noted =
          let (d, inside, there) = onto spare spare_inside in
          let (e, o) = noted d (omega arith) in
          absurd (spare_free e (ap (λ t. cell cells t) (sym there) ∙ o))
      locate_loop_missing zero probe (some i) sum walked noted = (i, refl, noted)
      locate_loop_missing (suc rounds) probe first sum walked noted =
          let home = bucket_index keys buckets key in
          let at = place keys buckets key probe in
          let further = λ (bare : cell cells at ≢ vacant) (d : ℕ) (lt : d < probe + 1).
            step_walked d probe walked bare lt in
          elim (Cell-cases (cell cells at)) [
            | inl v ↦
                let (i, e, free) = settled probe (omega arith) walked first noted (λ e. cc) in
                (i, locate_loop-vacant keys buckets cells key home rounds probe first v ∙ e, free)
            | inr (inl (e', o)) ↦
                let (i, e, free) =
                  locate_loop_missing rounds (probe + 1) first (omega arith) (further cc)
                    (seen probe first e' o noted) in
                (
                  i,
                  locate_loop_other keys buckets cells key home rounds probe first e' o
                        (missing at e' (low probe) o)
                      ∙ e,
                  free,
                )
            | inr (inr (inl o)) ↦
                let (j, ej, free_j) = settled probe (omega arith) walked first noted (λ e. cc) in
                let (i, e, free) =
                  locate_loop_missing rounds (probe + 1) (some j) (omega arith) (further cc)
                    free_j in
                (
                  i,
                  locate_loop-tombstone keys buckets cells key home rounds probe first o
                      ∙ ap (λ f. locate_loop keys buckets key home rounds (probe + 1) f cells) ej
                      ∙ e,
                  free,
                )
            | inr (inr (inr (e', o))) ↦ absurd (arranged.clean at e' o)
          ]
