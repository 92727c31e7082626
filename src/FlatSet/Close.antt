-- ===== src/FlatSet/Close.antt =====
-- What `erase_at` leaves in each slot.
use metl.Prelude.{
  ℕ, zero, suc, ◌+◌, ◌-◌, ◌≤◌, ◌<◌, ◌≡◌, ◌≢◌, refl, sym, ◌∙◌, ap, none, some, arith, ℕ_discrete,
  ne→==, length, length-set, get_or-set_self, get_or-set_ne, set,
}
use metl.Prelude.Outcome.{ret, ◌>>=◌, ◌>>◌}
use metl.FlatSet.{FlatSet, shrink, erase_loop, erase_at}
use metl.FlatSet.Shift.{slot, Live, read-some, construct-in, destroy-some}

module _ {ℓ} {K : Type ℓ} where
  -- The gap at `a` is closed by the `n` slots behind it, and is at `a + n` now.
  record Closed (a n : ℕ) (s s' : FlatSet K) : Type ℓ where
    pub width : length s'.slots ≡ length s.slots
    pub same_size : s'.size ≡ s.size
    pub low : (j : ℕ) → j < a → slot s' j ≡ slot s j
    pub moved : (j : ℕ) → a ≤ j → j < a + n → slot s' j ≡ slot s (j + 1)
    pub gap : slot s' (a + n) ≡ none
    pub high : (j : ℕ) → a + n < j → slot s' j ≡ slot s j

  -- One round: the key behind the gap moves into it.
  record Stepped (i : ℕ) (s u : FlatSet K) : Type ℓ where
    pub wide : length u.slots ≡ length s.slots
    pub size : u.size ≡ s.size
    pub filled : slot u i ≡ slot s (i + 1)
    pub hole : slot u (i + 1) ≡ none
    pub other : (j : ℕ) → i ≢ j → i + 1 ≢ j → slot u j ≡ slot s j

  close_step :
      (n i : ℕ) (s : FlatSet K)
      → i + 1 < length s.slots
      → Live s (i + 1)
      → (u : FlatSet K) × (erase_loop (suc n) i s ≡ erase_loop n (i + 1) u) × Stepped i s u
  unfolding erase_loop
  close_step n i s inside next =
      let t : FlatSet K = record s { slots = set s.slots i (some next.key) } in
      let u : FlatSet K = record t { slots = set t.slots (i + 1) none } in
      let wide_t : length t.slots ≡ length s.slots = length-set s.slots i (some next.key) in
      let other_t : (j : ℕ) → i ≢ j → slot t j ≡ slot s j =
        λ j ne. get_or-set_ne s.slots (some next.key) none ne in
      let held : slot t (i + 1) ≡ some next.key = other_t (i + 1) (λ e. omega arith) ∙ next.holds in
      (
        u,
        rw (
          erase_loop,
          read-some (i + 1) s next.key next.holds,
          ◌>>=◌,
          construct-in i s next.key (omega arith),
          ◌>>◌,
          ◌>>=◌,
          destroy-some (i + 1) t next.key held,
        ),
        record {
          wide = length-set t.slots (i + 1) none ∙ wide_t;
          size = refl;
          filled =
              get_or-set_ne t.slots none none (λ e. omega arith)
              ∙ get_or-set_self s.slots (some next.key) none refl (omega arith)
              ∙ sym next.holds;
          hole = get_or-set_self t.slots none none refl (omega (arith, wide_t));
          other = λ j ne ne'. get_or-set_ne t.slots none none ne' ∙ other_t j ne;
        },
      )

  Closed-step :
      (n i : ℕ) (s u s' : FlatSet K) → Stepped i s u → Closed (i + 1) n u s' → Closed i (suc n) s s'
  Closed-step n i s u s' one r = record {
    width = r.width ∙ one.wide;
    same_size = r.same_size ∙ one.size;
    low = λ j p. r.low j (omega arith) ∙ one.other j (λ e. omega arith) (λ e. omega arith);
    moved = λ j p q. elim (ℕ_discrete i j) [
      | yes e ↦
          ap (slot s') (sym e) ∙ r.low i (omega arith) ∙ one.filled ∙ ap (λ x. slot s (x + 1)) e
      | no ne ↦
          r.moved j (omega arith) (omega arith)
          ∙ one.other (j + 1) (λ e. omega arith) (λ e. omega arith)
    ];
    gap = ap (slot s') (omega arith) ∙ r.gap;
    high = λ j p. r.high j (omega arith) ∙ one.other j (λ e. omega arith) (λ e. omega arith);
  }

  erase_loop-Closed :
      (n i : ℕ) (s : FlatSet K)
      → i + n < length s.slots
      → slot s i ≡ none
      → ((j : ℕ) → i < j → j ≤ i + n → Live s j)
      → (s' : FlatSet K) × (erase_loop n i s ≡ ret tt s') × Closed i n s s'
  unfolding erase_loop
  erase_loop-Closed zero i s inside hole live = (
    s,
    refl,
    record {
      width = refl;
      same_size = refl;
      low = λ j p. refl;
      moved = λ j p q. absurd (omega arith);
      gap = ap (slot s) (omega arith) ∙ hole;
      high = λ j p. refl;
    },
  )
  erase_loop-Closed (suc n) i s inside hole live =
      let (u, first, one) =
        close_step n i s (omega arith) (live (i + 1) (omega arith) (omega arith)) in
      let (s', run, r) = erase_loop-Closed n (i + 1) u (omega (arith, one.wide)) one.hole (λ j p q.
        let l = live j (omega arith) (omega arith) in
        record {
          key = l.key;
          holds = one.other j (λ e. omega arith) (λ e. omega arith) ∙ l.holds;
        }) in
      (s', first ∙ run, Closed-step n i s u s' one r)

  -- The slots behind `index` are one place nearer, and the last one is free.
  pub record Erased (index : ℕ) (s s' : FlatSet K) : Type ℓ where
    pub width : length s'.slots ≡ length s.slots
    pub smaller : s'.size ≡ s.size - 1
    pub low : (j : ℕ) → j < index → slot s' j ≡ slot s j
    pub moved : (j : ℕ) → index ≤ j → j + 1 < s.size → slot s' j ≡ slot s (j + 1)
    pub last : slot s' (s.size - 1) ≡ none
    pub high : (j : ℕ) → s.size ≤ j → slot s' j ≡ slot s j

  pub erase_at-Erased :
      (index : ℕ) (s : FlatSet K)
      → index < s.size
      → s.size ≤ length s.slots
      → ((j : ℕ) → j < s.size → Live s j)
      → (s' : FlatSet K) × (erase_at index s ≡ ret tt s') × Erased index s s'
  unfolding erase_at shrink
  erase_at-Erased index s h room live =
      let here = live index h in
      let t : FlatSet K = record s { slots = set s.slots index none } in
      let wide : length t.slots ≡ length s.slots = length-set s.slots index none in
      let other : (j : ℕ) → index ≢ j → slot t j ≡ slot s j =
        λ j ne. get_or-set_ne s.slots none none ne in
      let (u, run, r) =
        erase_loop-Closed (s.size - 1 - index) index t (omega (arith, wide))
          (get_or-set_self s.slots none none refl (omega arith))
          (λ j p q.
            let l = live j (omega arith) in
            record { key = l.key; holds = other j (λ e. omega arith) ∙ l.holds }) in
      (
        record u { size = u.size - 1 },
        rw
            (
              read-some index s here.key here.holds,
              ◌>>=◌,
              destroy-some index s here.key here.holds,
              ◌>>◌,
              ◌>>=◌,
              run,
            )
            (rw (ne→== u.size 0 (λ e. omega (arith, r.same_size))) refl),
        record {
          width = r.width ∙ wide;
          smaller = ap (λ x. x - 1) r.same_size;
          low = λ j p. r.low j p ∙ other j (λ e. omega arith);
          moved = λ j p q. r.moved j p (omega arith) ∙ other (j + 1) (λ e. omega arith);
          last = ap (slot u) (omega arith) ∙ r.gap;
          high = λ j p. r.high j (omega arith) ∙ other j (λ e. omega arith);
        },
      )
