-- ===== src/UnorderedMap/EraseIf/Sweep.antt =====
-- `erase_if` ends, and the elements that stay are found.
use mathlib.Core.Path.{subst}
use metl.Prelude.{
  ℕ, zero, suc, ◌+◌, ◌-◌, ◌≤◌, ◌<◌, ◌≡◌, ◌≢◌, refl, sym, ap, ◌∙◌, Bool, true, false, inl, inr,
  Bool-cases, ℕ_discrete, if◌then◌else◌, lt→ltb, eq→==, ne→==, arith,
}
use metl.Prelude.Outcome.{Outcome, ret, >>-ret, >>=-ret}
use metl.UnorderedMap.{
  Keys, Entry, Cell, vacant, occupied, tombstone, unplaced, Table, cell, destroy_at,
}
use metl.UnorderedMap.Invariant.{Cell-cases, Sized}
use metl.UnorderedMap.Lookup.{occupied_inj}
use metl.UnorderedMap.Write.{cell-set_self, cell-set_ne}
use metl.UnorderedMap.Changes.{removed, tombstones-le, destroy_at_lem, removed-Valid}
use metl.UnorderedMap.Insert.{Sound}
use metl.UnorderedMap.Access.{is_occupied}
use metl.UnorderedMap.Access.References.{is_occupied-false}
use metl.UnorderedMap.EraseIf.{next_occupied, skip_to_occupied, erase_position, erase_if_loop}

-- What the sweep makes of a slot.
abbrev pub swept {ℓ} : {K V : Type ℓ} → (Entry K V → Bool) → Cell K V → Cell K V
swept pred vacant = vacant
swept pred (occupied e) = if pred e then tombstone else occupied e
swept pred tombstone = tombstone
swept pred (unplaced e) = unplaced e

module _ {ℓ} {K V : Type ℓ} (keys : Keys K) (cap buckets : ℕ) (pred : Entry K V → Bool) where
  -- The table when the sweep of `t` has come to slot `i`.
  pub record Swept (t : Table K V) (i erased : ℕ) (t' : Table K V) : Type ℓ where
    pub sound : Sound keys cap buckets t'
    pub many : erased + t'.size ≡ t.size
    pub behind : (j : ℕ) → j < i → cell t'.cells j ≡ swept pred (cell t.cells j)
    pub ahead : (j : ℕ) → i ≤ j → cell t'.cells j ≡ cell t.cells j

  -- The sweep of `t` comes to its end.
  pub record Ends (t : Table K V) (o : Outcome (Table K V) ℕ) : Type ℓ where
    pub erased : ℕ
    pub after : Table K V
    pub ends : o ≡ ret erased after
    pub all : Swept t buckets erased after

  prepend : (t : Table K V) (o o' : Outcome (Table K V) ℕ) → o ≡ o' → Ends t o' → Ends t o
  prepend t o o' e r = record { erased = r.erased; after = r.after; ends = e ∙ r.ends; all = r.all }

  module _ (sized : Sized cap buckets) (t : Table K V) where
    -- A slot that stays as it is.
    Swept-stay :
        (i erased : ℕ) (t' : Table K V)
        → swept pred (cell t.cells i) ≡ cell t.cells i
        → Swept t i erased t'
        → Swept t (i + 1) erased t'
    Swept-stay i erased t' same w = record {
      sound = w.sound;
      many = w.many;
      behind = λ j lt. elim (ℕ_discrete j i) [
        | yes now ↦
            ap (cell t'.cells) now
            ∙ w.ahead i (omega arith)
            ∙ sym same
            ∙ ap (λ k. swept pred (cell t.cells k)) (sym now)
        | no earlier ↦ w.behind j (omega arith)
      ];
      ahead = λ j le. w.ahead j (omega arith);
    }

    Swept-gone :
        (i erased : ℕ) (e : Entry K V) (t' : Table K V)
        → i < buckets
        → cell t.cells i ≡ occupied e
        → pred e ≡ true
        → Swept t i erased t'
        → Swept t (i + 1) (erased + 1) (removed i t')
    Swept-gone i erased e t' inside o yes_pred w =
        let here : cell t'.cells i ≡ occupied e = w.ahead i (omega arith) ∙ o in
        let (v', some_left) = removed-Valid keys buckets t' w.sound.valid i e inside here in
        let arr = w.sound.valid.arranged in
        record {
          sound = record { valid = v'; room = omega (arith, w.sound.room) };
          many = omega (arith, w.many);
          behind = λ j lt. elim (ℕ_discrete j i) [
            | yes now ↦
                ap (cell (removed i t').cells) now
                ∙ cell-set_self keys buckets t'.cells i inside tombstone arr
                ∙ sym (
                    ap (λ k. swept pred (cell t.cells k)) now
                    ∙ ap (swept pred) o
                    ∙ rw yes_pred refl)
            | no earlier ↦
                cell-set_ne keys buckets t'.cells i inside tombstone arr j earlier
                ∙ w.behind j (omega arith)
          ];
          ahead = λ j le.
              cell-set_ne keys buckets t'.cells i inside tombstone arr j (λ e. omega arith)
              ∙ w.ahead j (omega arith);
        }

    erase_position_lem :
        (n i : ℕ) (e : Entry K V) (t' : Table K V)
        → n + (i + 1) ≡ buckets
        → Sound keys cap buckets t'
        → cell t'.cells i ≡ occupied e
        → erase_position buckets i t' ≡ ret (next_occupied n (i + 1) (removed i t')) (removed i t')
    unfolding erase_position skip_to_occupied
    erase_position_lem n i e t' sum s o =
        let inside : i < buckets = omega arith in
        let (v', some_left) = removed-Valid keys buckets t' s.valid i e inside o in
        let few = tombstones-le keys buckets t' s.valid in
        let left : buckets - (i + 1) ≡ n = omega arith in
        rw (lt→ltb i buckets inside) (
          rw (ap is_occupied o) (
            >>-ret (destroy_at i tombstone) _ t'
              (destroy_at_lem i e t' o some_left (omega (arith, s.room)) (omega arith))
            ∙ ap (λ k. ret (next_occupied k (i + 1) (removed i t')) (removed i t')) left))

    bare_swept : (c : Cell K V) → ((e : Entry K V) → c ≢ occupied e) → swept pred c ≡ c
    bare_swept vacant bare = refl
    bare_swept (occupied e) bare = absurd (bare e refl)
    bare_swept tombstone bare = refl
    bare_swept (unplaced e) bare = refl

    next_occupied-bare :
        (n i : ℕ) (t' : Table K V)
        → ((e : Entry K V) → cell t'.cells i ≢ occupied e)
        → next_occupied (suc n) i t' ≡ next_occupied n (i + 1) t'
    unfolding next_occupied
    next_occupied-bare n i t' bare = rw (is_occupied-false (cell t'.cells i) bare) refl

    next_occupied-here :
        (n i : ℕ) (e : Entry K V) (t' : Table K V)
        → cell t'.cells i ≡ occupied e
        → next_occupied (suc n) i t' ≡ i
    unfolding next_occupied
    next_occupied-here n i e t' o = rw (ap is_occupied o) refl

    -- The loop at an element.
    erase_if_loop-gone :
        (fuel n i erased : ℕ) (e : Entry K V) (t' : Table K V)
        → n + (i + 1) ≡ buckets
        → Sound keys cap buckets t'
        → cell t'.cells i ≡ occupied e
        → pred e ≡ true
        → erase_if_loop buckets pred (suc fuel) i erased t'
          ≡ erase_if_loop buckets pred fuel
              (next_occupied n (i + 1) (removed i t'))
              (erased + 1)
              (removed i t')
    unfolding erase_if_loop
    erase_if_loop-gone fuel n i erased e t' sum s o gone = rw (ne→== i buckets (λ h. omega arith)) (
        rw (o, erase_if_loop)
          (rw gone (
            >>=-ret (erase_position buckets i)
              (λ next. erase_if_loop buckets pred fuel next (erased + 1)) t'
              (erase_position_lem n i e t' sum s o))))

    erase_if_loop-kept :
        (fuel n i erased : ℕ) (e : Entry K V) (t' : Table K V)
        → n + (i + 1) ≡ buckets
        → cell t'.cells i ≡ occupied e
        → pred e ≡ false
        → erase_if_loop buckets pred (suc fuel) i erased t'
          ≡ erase_if_loop buckets pred fuel (next_occupied n (i + 1) t') erased t'
    unfolding erase_if_loop skip_to_occupied
    erase_if_loop-kept fuel n i erased e t' sum o stays =
        let left : buckets - (i + 1) ≡ n = omega arith in
        rw (ne→== i buckets (λ h. omega arith)) (
          rw (o, erase_if_loop)
            (rw stays (
              ap (λ k. erase_if_loop buckets pred fuel (next_occupied k (i + 1) t') erased t')
                left)))

    pub erase_if_loop_lem :
        (n i fuel erased : ℕ) (t' : Table K V)
        → n + i ≡ buckets
        → n < fuel
        → Swept t i erased t'
        → Ends t (erase_if_loop buckets pred fuel (next_occupied n i t') erased t')
    unfolding erase_if_loop next_occupied
    erase_if_loop_lem n i zero erased t' sum enough w = absurd (omega arith)
    erase_if_loop_lem zero i (suc fuel) erased t' sum enough w =
        let e : i ≡ buckets = omega arith in
        record {
          erased = erased;
          after = t';
          ends = rw (eq→== i buckets e) refl;
          all = subst (λ k. Swept t k erased t') e w;
        }
    erase_if_loop_lem (suc n) i (suc fuel) erased t' sum enough w =
        let same = w.ahead i (omega arith) in
        let from = λ (k : ℕ). erase_if_loop buckets pred (suc fuel) k erased t' in
        let onward = λ (bare : (e : Entry K V) → cell t'.cells i ≢ occupied e).
          prepend t _ _ (ap from (next_occupied-bare n i t' bare)) (
            erase_if_loop_lem n (i + 1) (suc fuel) erased t' (omega arith) (omega arith) (
              Swept-stay i erased t' (bare_swept (cell t.cells i) (λ e o. bare e (same ∙ o))) w)) in
        elim (Cell-cases (cell t'.cells i)) [
          | inl v ↦ onward (λ e o. cc)
          | inr (inr (inl x)) ↦ onward (λ e o. cc)
          | inr (inr (inr (x, u))) ↦ onward (λ e o. cc)
          | inr (inl (e, o)) ↦
              let start = next_occupied-here n i e t' o in
              let o' : cell t.cells i ≡ occupied e = sym same ∙ o in
              elim (Bool-cases (pred e)) [
                | inl gone ↦
                    prepend t _ _
                      (ap from start
                        ∙ erase_if_loop-gone fuel n i erased e t' (omega arith) w.sound o gone)
                      (erase_if_loop_lem n (i + 1) fuel (erased + 1) (removed i t') (omega arith)
                        (omega arith) (Swept-gone i erased e t' (omega arith) o' gone w))
                | inr stays ↦
                    prepend t _ _
                      (ap from start
                        ∙ erase_if_loop-kept fuel n i erased e t' (omega arith) o stays)
                      (erase_if_loop_lem n (i + 1) fuel erased t' (omega arith) (omega arith)
                        (Swept-stay i erased t' (ap (swept pred) o' ∙ rw stays (sym o')) w))
              ]
        ]

    -- An element that the sweep leaves was there before, and is not one to erase.
    pub swept-occupied :
        (c : Cell K V) (e : Entry K V)
        → swept pred c ≡ occupied e
        → (c ≡ occupied e) × (pred e ≡ false)
    swept-occupied vacant e h = absurd (cc)
    swept-occupied tombstone e h = absurd (cc)
    swept-occupied (unplaced x) e h = absurd (cc)
    swept-occupied (occupied x) e h = elim (Bool-cases (pred x)) [
      | inl gone ↦ let bad : tombstone ≡ occupied e = rw gone at h in absurd (cc)
      | inr stays ↦
          let same : occupied x ≡ occupied e = rw stays at h in
          (same, ap pred (sym (occupied_inj same)) ∙ stays)
    ]
