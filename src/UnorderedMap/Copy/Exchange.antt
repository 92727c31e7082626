-- ===== src/UnorderedMap/Copy/Exchange.antt =====
-- `swap` exchanges the two maps.
use mathlib.Core.Path.{subst}
use metl.Prelude.{
  ℕ, zero, suc, ◌+◌, ◌≤◌, ◌<◌, ◌≡◌, refl, ap, ◌∙◌, List, [], ◌∷◌, length, length-set, get_or,
  get_or-set_self, get_or-set_ne, set, ℕ_discrete, arith,
}
use metl.Prelude.Outcome.{ret, >>-ret}
use metl.Prelude.Two.{Both}
use metl.UnorderedMap.{Cell, vacant, occupied, tombstone, unplaced, Table, cell}
use metl.UnorderedMap.Copy.{swap_cells, swap_loop, swap_contents}

eq_of_get_or {ℓ} :
    {A : Type ℓ} (xs ys : List A) (d : A)
    → length xs ≡ length ys
    → ((i : ℕ) → i < length xs → get_or xs i d ≡ get_or ys i d)
    → xs ≡ ys
eq_of_get_or [] [] d e h = refl
eq_of_get_or [] (y ∷ ys) d e h = absurd (omega arith)
eq_of_get_or (x ∷ xs) [] d e h = absurd (omega arith)
eq_of_get_or (x ∷ xs) (y ∷ ys) d e h =
    let rest = eq_of_get_or xs ys d (omega arith) (λ i lt. h (suc i) (omega arith)) in
    ap (λ a. a ∷ xs) (h 0 (omega arith)) ∙ ap (λ tail. y ∷ tail) rest

module _ {ℓ} {K V : Type ℓ} where
  swap_cells_lem : (mine theirs : Cell K V) → swap_cells mine theirs ≡ (theirs, mine)
  unfolding swap_cells
  swap_cells_lem (occupied a) (occupied b) = refl
  swap_cells_lem (occupied a) vacant = refl
  swap_cells_lem (occupied a) tombstone = refl
  swap_cells_lem (occupied a) (unplaced e) = refl
  swap_cells_lem vacant c = refl
  swap_cells_lem tombstone c = refl
  swap_cells_lem (unplaced e) c = refl

  module _ (a b : Table K V) (wide : length a.cells ≡ length b.cells) where
    -- The first `i` slots are exchanged, and nothing else.
    record Exchanged (i : ℕ) (now : Both (Table K V)) : Type ℓ where
      this_width : length now.this.cells ≡ length a.cells
      other_width : length now.other.cells ≡ length b.cells
      this_done : (j : ℕ) → j < i → cell now.this.cells j ≡ cell b.cells j
      other_done : (j : ℕ) → j < i → cell now.other.cells j ≡ cell a.cells j
      this_left : (j : ℕ) → i ≤ j → cell now.this.cells j ≡ cell a.cells j
      other_left : (j : ℕ) → i ≤ j → cell now.other.cells j ≡ cell b.cells j
      this_counts : (now.this.size ≡ a.size) × (now.this.tombstones ≡ a.tombstones)
      other_counts : (now.other.size ≡ b.size) × (now.other.tombstones ≡ b.tombstones)

    abbrev step : ℕ → Both (Table K V) → Both (Table K V)
    step i now = record {
      this = record now.this { cells = set now.this.cells i (cell now.other.cells i) };
      other = record now.other { cells = set now.other.cells i (cell now.this.cells i) };
    }

    -- Slot `i` of one list gets what is there, and the slots before and after stay.
    done_one :
        (cells : List (Cell K V)) (i j : ℕ) (c : Cell K V) (goal : ℕ → Cell K V)
        → i < length cells
        → ((k : ℕ) → k < i → cell cells k ≡ goal k)
        → c ≡ goal i
        → j < i + 1
        → cell (set cells i c) j ≡ goal j
    done_one cells i j c goal inside before now lt = elim (ℕ_discrete i j) [
      | yes same ↦ get_or-set_self cells c vacant same inside ∙ now ∙ ap goal same
      | no other ↦ get_or-set_ne cells c vacant other ∙ before j (omega arith)
    ]

    step-Exchanged :
        (i : ℕ) (now : Both (Table K V))
        → i < length a.cells
        → Exchanged i now
        → Exchanged (i + 1) (step i now)
    step-Exchanged i now inside x =
        let w = x.this_width in
        let w' = x.other_width in
        record {
          this_width = length-set now.this.cells i (cell now.other.cells i) ∙ w;
          other_width = length-set now.other.cells i (cell now.this.cells i) ∙ w';
          this_done = λ j lt.
              done_one now.this.cells i j (cell now.other.cells i) (cell b.cells) (omega arith)
                x.this_done (x.other_left i (omega arith)) lt;
          other_done = λ j lt.
              done_one now.other.cells i j (cell now.this.cells i) (cell a.cells) (omega arith)
                x.other_done (x.this_left i (omega arith)) lt;
          this_left = λ j le.
              get_or-set_ne now.this.cells (cell now.other.cells i) vacant (omega arith)
              ∙ x.this_left j (omega arith);
          other_left = λ j le.
              get_or-set_ne now.other.cells (cell now.this.cells i) vacant (omega arith)
              ∙ x.other_left j (omega arith);
          this_counts = x.this_counts;
          other_counts = x.other_counts;
        }

    swap_loop_lem :
        (rounds i : ℕ) (now : Both (Table K V))
        → rounds + i ≡ length a.cells
        → Exchanged i now
        → (last : Both (Table K V)) × (swap_loop rounds i now ≡ ret tt last)
          × Exchanged (length a.cells) last
    unfolding swap_loop
    swap_loop_lem zero i now sum x =
        let e : i ≡ length a.cells = omega arith in (now, refl, subst (λ k. Exchanged k now) e x)
    swap_loop_lem (suc rounds) i now sum x =
        let (last, ends, x') =
          swap_loop_lem rounds (i + 1) (step i now) (omega arith)
            (step-Exchanged i now (omega arith) x) in
        (
          last,
          rw (swap_cells_lem (cell now.this.cells i) (cell now.other.cells i), swap_loop) ends,
          x',
        )

    -- For two tables with the same number of slots, `swap` of their contents leaves each with the
    -- slots, the size and the number of tombstones of the other.
    pub swap_contents_lem :
        swap_contents (length a.cells) (record { this = a; other = b })
        ≡ ret tt (record { this = b; other = a })
    unfolding swap_contents
    swap_contents_lem =
        let (last, ends, x) =
          swap_loop_lem (length a.cells) 0 (record { this = a; other = b }) (omega arith)
            (record {
              this_width = refl;
              other_width = refl;
              this_done = λ j lt. absurd (omega arith);
              other_done = λ j lt. absurd (omega arith);
              this_left = λ j le. refl;
              other_left = λ j le. refl;
              this_counts = (refl, refl);
              other_counts = (refl, refl);
            }) in
        let w = x.this_width in
        let w' = x.other_width in
        let this_cells : last.this.cells ≡ b.cells =
          eq_of_get_or last.this.cells b.cells vacant (omega arith)
            (λ j lt. x.this_done j (omega arith)) in
        let other_cells : last.other.cells ≡ a.cells =
          eq_of_get_or last.other.cells a.cells vacant (omega arith)
            (λ j lt. x.other_done j (omega arith)) in
        let this_counts = x.this_counts in
        let other_counts = x.other_counts in
        >>-ret (swap_loop (length a.cells) 0) _ (record { this = a; other = b }) ends ∙ cc
