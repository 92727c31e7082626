-- ===== src/FlatSet/Shift.antt =====
-- What the shifts of `insert_shifting` and `erase_at` leave in each slot.
use mathlib.Core.Path.{subst}
use metl.Prelude.{
  ℕ, zero, suc, ◌+◌, ◌-◌, ◌%◌, ◌^◌, ◌≤◌, ◌<◌, ◌≡◌, ◌≢◌, refl, sym, ◌∙◌, ap, Option, none, some,
  arith, lt→ltb, ne→==, eq→==, dec_lt, ℕ_discrete, length, length-set, get_or, get_or-set_self,
  get_or-set_ne, set,
}
use metl.Prelude.Outcome.{ret, M, ◌>>=◌, ◌>>◌, >>-ret}
use metl.FlatSet.{
  FlatSet, read, assign, construct, destroy, grow, move_out, shift_loop, insert_shifting,
}

module _ {ℓ} {K : Type ℓ} where
  abbrev pub slot : FlatSet K → ℕ → Option K
  slot s i = get_or s.slots i none

  pub record Live (s : FlatSet K) (j : ℕ) : Type ℓ where
    pub key : K
    pub holds : slot s j ≡ some key

  -- The slots above `a` and up to `b` hold what was one place to their left, and the one at `a` an
  -- object that was moved from.
  record Shifted (a b : ℕ) (s s' : FlatSet K) : Type ℓ where
    pub width : length s'.slots ≡ length s.slots
    pub same_size : s'.size ≡ s.size
    pub low : (j : ℕ) → j < a → slot s' j ≡ slot s j
    pub gap : Live s' a
    pub moved : (j : ℕ) → a < j → j ≤ b → slot s' j ≡ slot s (j - 1)
    pub high : (j : ℕ) → b < j → slot s' j ≡ slot s j

  pub read-some : (i : ℕ) (s : FlatSet K) (k : K) → slot s i ≡ some k → read i s ≡ ret k s
  unfolding read
  read-some i s k e = rw (e, read)

  assign-some :
      (i : ℕ) (s : FlatSet K) (k a : K)
      → slot s i ≡ some k
      → assign i a s ≡ ret tt (record s { slots = set s.slots i (some a) })
  unfolding assign
  assign-some i s k a e = rw (e, assign)

  pub construct-in :
      (i : ℕ) (s : FlatSet K) (a : K)
      → i < length s.slots
      → construct i a s ≡ ret tt (record s { slots = set s.slots i (some a) })
  unfolding construct
  construct-in i s a h = rw (lt→ltb i (length s.slots) h)

  pub destroy-some :
      (i : ℕ) (s : FlatSet K) (k : K)
      → slot s i ≡ some k
      → destroy i s ≡ ret tt (record s { slots = set s.slots i none })
  unfolding destroy
  destroy-some i s k e = rw (e, destroy)

  -- A move out of a slot, into the slot behind it.
  move_out-some :
      (moved : K → K) (i : ℕ) (s : FlatSet K) (k : K)
      → slot s i ≡ some k
      → move_out moved i s ≡ ret k (record s { slots = set s.slots i (some (moved k)) })
  unfolding move_out
  move_out-some moved i s k e =
      rw (read-some i s k e, ◌>>=◌, assign-some i s k (moved k) e, ◌>>◌, ◌>>=◌) refl

  record Stepped (i : ℕ) (s u : FlatSet K) : Type ℓ where
    pub wide : length u.slots ≡ length s.slots
    pub size : u.size ≡ s.size
    pub filled : slot u i ≡ slot s (i - 1)
    pub left : Live u (i - 1)
    pub other : (j : ℕ) → i ≢ j → i - 1 ≢ j → slot u j ≡ slot s j

  shift_step :
      (moved : K → K) (n i : ℕ) (s : FlatSet K)
      → 0 < i
      → i < length s.slots
      → Live s (i - 1)
      → Live s i
      → (u : FlatSet K) × (shift_loop moved (suc n) i s ≡ shift_loop moved n (i - 1) u)
        × Stepped i s u
  unfolding shift_loop
  shift_step moved n i s pos inside left here =
      let t : FlatSet K = record s { slots = set s.slots (i - 1) (some (moved left.key)) } in
      let u : FlatSet K = record t { slots = set t.slots i (some left.key) } in
      let wide_t : length t.slots ≡ length s.slots =
        length-set s.slots (i - 1) (some (moved left.key)) in
      let held : slot t i ≡ some here.key =
        get_or-set_ne s.slots (some (moved left.key)) none (λ e. omega arith) ∙ here.holds in
      (
        u,
        rw (
          shift_loop,
          move_out-some moved (i - 1) s left.key left.holds,
          ◌>>=◌,
          assign-some i t here.key left.key held,
          ◌>>◌,
          ◌>>=◌,
        ),
        record {
          wide = length-set t.slots i (some left.key) ∙ wide_t;
          size = refl;
          filled =
              get_or-set_self t.slots (some left.key) none refl (omega (arith, wide_t))
              ∙ sym left.holds;
          left = record {
            key = moved left.key;
            holds =
                get_or-set_ne t.slots (some left.key) none (λ e. omega arith)
                ∙ get_or-set_self s.slots (some (moved left.key)) none refl (omega arith);
          };
          other = λ j ne ne'.
              get_or-set_ne t.slots (some left.key) none ne
              ∙ get_or-set_ne s.slots (some (moved left.key)) none ne';
        },
      )

  Shifted-step :
      (n i : ℕ) (s u s' : FlatSet K)
      → n < i
      → Stepped i s u
      → Shifted (i - 1 - n) (i - 1) u s'
      → Shifted (i - suc n) i s s'
  Shifted-step n i s u s' h one r =
      let from : i - 1 - n ≡ i - suc n = omega arith in
      record {
        width = r.width ∙ one.wide;
        same_size = r.same_size ∙ one.size;
        low = λ j p. r.low j (omega arith) ∙ one.other j (λ e. omega arith) (λ e. omega arith);
        gap = subst (Live s') from r.gap;
        moved = λ j p q. elim (ℕ_discrete i j) [
          | yes e ↦
              r.high j (omega arith) ∙ ap (slot u) (sym e) ∙ one.filled ∙ ap (λ x. slot s (x - 1)) e
          | no ne ↦
              r.moved j (omega arith) (omega arith)
              ∙ one.other (j - 1) (λ e. omega arith) (λ e. omega arith)
        ];
        high = λ j p. r.high j (omega arith) ∙ one.other j (λ e. omega arith) (λ e. omega arith);
      }

  shift_loop-Shifted :
      (moved : K → K) (n i : ℕ) (s : FlatSet K)
      → n ≤ i
      → i < length s.slots
      → ((j : ℕ) → j ≤ i → Live s j)
      → (s' : FlatSet K) × (shift_loop moved n i s ≡ ret tt s') × Shifted (i - n) i s s'
  unfolding shift_loop
  shift_loop-Shifted moved zero i s h inside live = (
    s,
    refl,
    record {
      width = refl;
      same_size = refl;
      low = λ j p. refl;
      gap = live (i - 0) (omega arith);
      moved = λ j p q. absurd (omega arith);
      high = λ j p. refl;
    },
  )
  shift_loop-Shifted moved (suc n) i s h inside live =
      let (u, first, one) =
        shift_step moved n i s (omega arith) inside (live (i - 1) (omega arith))
          (live i (omega arith)) in
      let (s', run, r) =
        shift_loop-Shifted moved n (i - 1) u (omega arith) (omega (arith, one.wide)) (λ j p.
          elim (ℕ_discrete (i - 1) j) [
            | yes e ↦ subst (Live u) e one.left
            | no ne ↦
                let l = live j (omega arith) in
                record { key = l.key; holds = one.other j (λ e. omega arith) ne ∙ l.holds }
          ]) in
      (s', first ∙ run, Shifted-step n i s u s' (omega arith) one r)

  -- `entry` is at `index`, what was there and after it one place further.
  pub record Inserted (index : ℕ) (entry : K) (s s' : FlatSet K) : Type ℓ where
    pub width : length s'.slots ≡ length s.slots
    pub larger : s'.size ≡ s.size + 1
    pub low : (j : ℕ) → j < index → slot s' j ≡ slot s j
    pub placed : slot s' index ≡ some entry
    pub moved : (j : ℕ) → index < j → j ≤ s.size → slot s' j ≡ slot s (j - 1)
    pub high : (j : ℕ) → s.size < j → slot s' j ≡ slot s j

  grow-size : (s : FlatSet K) → s.size + 1 < 2 ^ 64 → (s.size + 1) % 2 ^ 64 ≡ s.size + 1
  grow-size s h = omega arith

  -- At the end nothing is shifted.
  insert-end :
      (moved : K → K) (entry : K) (index : ℕ) (s : FlatSet K)
      → index ≡ s.size
      → s.size < length s.slots
      → s.size + 1 < 2 ^ 64
      → (s' : FlatSet K) × (insert_shifting moved index entry s ≡ ret tt s')
        × Inserted index entry s s'
  unfolding insert_shifting grow
  insert-end moved entry index s e room small = (
    record s { slots = set s.slots s.size (some entry); size = s.size + 1 },
    rw (eq→== index s.size e, construct-in s.size s entry room, ◌>>◌, ◌>>=◌, grow-size s small),
    record {
      width = length-set s.slots s.size (some entry);
      larger = refl;
      low = λ j p. get_or-set_ne s.slots (some entry) none (λ e'. omega arith);
      placed = get_or-set_self s.slots (some entry) none (sym e) room;
      moved = λ j p q. absurd (omega arith);
      high = λ j p. get_or-set_ne s.slots (some entry) none (λ e'. omega arith);
    },
  )

  -- The last key, moved behind itself.
  record Opened (s t : FlatSet K) : Type ℓ where
    pub wide : length t.slots ≡ length s.slots
    pub larger : t.size ≡ s.size + 1
    pub copied : slot t s.size ≡ slot s (s.size - 1)
    pub left : Live t (s.size - 1)
    pub other : (j : ℕ) → s.size ≢ j → s.size - 1 ≢ j → slot t j ≡ slot s j

  Shifted-Inserted :
      (entry : K) (index : ℕ) (s t u : FlatSet K)
      → index < s.size
      → s.size < length s.slots
      → Opened s t
      → Shifted index (s.size - 1) t u
      → Inserted index entry s (record u { slots = set u.slots index (some entry) })
  Shifted-Inserted entry index s t u h room o r =
      let outer : (j : ℕ)
          → index ≢ j
          → slot (record u { slots = set u.slots index (some entry) }) j ≡ slot u j =
        λ j d. get_or-set_ne u.slots (some entry) none d in
      record {
        width = length-set u.slots index (some entry) ∙ r.width ∙ o.wide;
        larger = r.same_size ∙ o.larger;
        low = λ j p.
            outer j (λ e. omega arith)
            ∙ r.low j (omega arith)
            ∙ o.other j (λ e. omega arith) (λ e. omega arith);
        placed = get_or-set_self u.slots (some entry) none refl (omega (arith, r.width, o.wide));
        moved = λ j p q. elim (ℕ_discrete s.size j) [
          | yes e ↦
              outer j (λ e'. omega arith)
              ∙ r.high j (omega arith)
              ∙ ap (slot t) (sym e)
              ∙ o.copied
              ∙ ap (λ x. slot s (x - 1)) e
          | no d ↦
              outer j (λ e. omega arith)
              ∙ r.moved j (omega arith) (omega arith)
              ∙ o.other (j - 1) (λ e. omega arith) (λ e. omega arith)
        ];
        high = λ j p.
            outer j (λ e. omega arith)
            ∙ r.high j (omega arith)
            ∙ o.other j (λ e. omega arith) (λ e. omega arith);
      }

  open_end :
      (moved : K → K) (s : FlatSet K) (last : Live s (s.size - 1))
      → 0 < s.size
      → s.size < length s.slots
      → s.size + 1 < 2 ^ 64
      → (t : FlatSet K) × ((next : M (FlatSet K) (Unit {0}))
          → (move_out moved (s.size - 1) >>= λ last. construct s.size last >> (grow >> next)) s
            ≡ next t)
        × Opened s t
  unfolding grow
  open_end moved s last pos room small =
      let here = some (moved last.key) in
      let r : FlatSet K = record s { slots = set s.slots (s.size - 1) here } in
      let wide_r : length r.slots ≡ length s.slots = length-set s.slots (s.size - 1) here in
      (
        record { slots = set r.slots s.size (some last.key); size = s.size + 1 },
        λ next. rw (
          move_out-some moved (s.size - 1) s last.key last.holds,
          ◌>>=◌,
          construct-in s.size r last.key (omega (arith, wide_r)),
          ◌>>◌,
          ◌>>=◌,
          grow-size s small,
        ),
        record {
          wide = length-set r.slots s.size (some last.key) ∙ wide_r;
          larger = refl;
          copied =
              get_or-set_self r.slots (some last.key) none refl (omega (arith, wide_r))
              ∙ sym last.holds;
          left = record {
            key = moved last.key;
            holds =
                get_or-set_ne r.slots (some last.key) none (λ e. omega arith)
                ∙ get_or-set_self s.slots here none refl (omega arith);
          };
          other = λ j ne ne'.
              get_or-set_ne r.slots (some last.key) none ne ∙ get_or-set_ne s.slots here none ne';
        },
      )

  insert-inside :
      (moved : K → K) (entry : K) (index : ℕ) (s : FlatSet K)
      → index < s.size
      → s.size < length s.slots
      → s.size + 1 < 2 ^ 64
      → ((j : ℕ) → j < s.size → Live s j)
      → (s' : FlatSet K) × (insert_shifting moved index entry s ≡ ret tt s')
        × Inserted index entry s s'
  unfolding insert_shifting
  insert-inside moved entry index s h room small live =
      let (t, opens, opened) =
        open_end moved s (live (s.size - 1) (omega arith)) (omega arith) room small in
      let (u, run, r) =
        shift_loop-Shifted moved (s.size - 1 - index) (s.size - 1) t (omega arith)
          (omega (arith, opened.wide))
          (λ j p. elim (ℕ_discrete (s.size - 1) j) [
            | yes e ↦ subst (Live t) e opened.left
            | no ne ↦
                let l = live j (omega arith) in
                record { key = l.key; holds = opened.other j (λ e. omega arith) ne ∙ l.holds }
          ]) in
      let from : s.size - 1 - (s.size - 1 - index) ≡ index = omega arith in
      let shifted : Shifted index (s.size - 1) t u =
        subst (λ a. Shifted a (s.size - 1) t u) from r in
      let there = shifted.gap in
      (
        record u { slots = set u.slots index (some entry) },
        rw (ne→== index s.size (λ e. omega arith)) (
            opens (shift_loop moved (s.size - 1 - index) (s.size - 1) >> assign index entry)
            ∙ >>-ret (shift_loop moved (s.size - 1 - index) (s.size - 1)) (assign index entry) t run
            ∙ assign-some index u there.key entry there.holds),
        Shifted-Inserted entry index s t u h room opened shifted,
      )

  pub insert_shifting-Inserted :
      (moved : K → K) (index : ℕ) (entry : K) (s : FlatSet K)
      → index ≤ s.size
      → s.size < length s.slots
      → s.size + 1 < 2 ^ 64
      → ((j : ℕ) → j < s.size → Live s j)
      → (s' : FlatSet K) × (insert_shifting moved index entry s ≡ ret tt s')
        × Inserted index entry s s'
  insert_shifting-Inserted moved index entry s h room small live = elim (dec_lt index s.size) [
    | yes inside ↦ insert-inside moved entry index s inside room small live
    | no end ↦ insert-end moved entry index s (omega arith) room small
  ]
