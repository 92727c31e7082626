-- ===== src/Ring/Refine.antt =====
-- Each operation of the ring core implements that of the abstract bounded deque.
use metl.Prelude.{
  ℕ, ◌+◌, ◌-◌, ◌%◌, ◌^◌, ◌≤◌, ◌<◌, ◌≡◌, ◌≢◌, refl, ◌∙◌, sym, ap, true, false, Option, none, some,
  List, [], ◌∷◌, ◌++◌, arith, dec_lt, ℕ_discrete, lt→ltb, le→ltb, eq→==, ne→==, length, get_elem?,
  get_or, set, get_elem?-in, get_elem?-out, get_elem?-last, length-append,
}
use metl.Prelude.Outcome.{ret, thrown, ◌>>=◌, Implements, returns, throws, stops}
use metl.Ring.{
  Ring, storage_at, construct, destroy, at, try_emplace_back, emplace_back, pop_front,
  physical_index,
}
use metl.Ring.Index.{wrap, physical_index-wrap, advance-wrap}
use metl.Ring.Represents.{Represents, head-lt, slot-lt, write_back, drop_front}
use metl.Ring.Spec

pub claim-slot : (n : ℕ) → n + 1 - 1 ≡ n
claim-slot n = omega arith

pub size-claim : {cap n : ℕ} → cap ≤ 2 ^ 63 → n < cap → (n + 1) % 2 ^ 64 ≡ n + 1
size-claim h k = omega arith

module _ {ℓ} {A : Type ℓ} (cap : ℕ) (small : cap ≤ 2 ^ 63) where
  pub storage_at-reads :
      (r : Ring A) (p : ℕ) (a : A) → get_or r.slots p none ≡ some a → storage_at cap p r ≡ ret a r
  unfolding storage_at
  storage_at-reads r p a e = rw (e, storage_at)

  module _ (r : Ring A) (xs : List A) (v : Represents cap r xs) where
    -- The element at a logical index below the size.
    pub element-at :
        (i : ℕ) (a : A)
        → i < length xs
        → get_elem? xs i ≡ some a
        → storage_at cap (physical_index cap r.head i) r ≡ ret a r
    element-at i a h e =
        let pos : 0 < cap = omega (arith, v.room) in
        storage_at-reads r (physical_index cap r.head i) a (
          ap (λ t. get_or r.slots t none)
            (physical_index-wrap cap pos small r.head i (head-lt cap r xs v pos)
              (omega (arith, v.room)))
          ∙ v.reads i (omega (arith, v.room))
          ∙ e)

    pub at-Implements : (i : ℕ) → Implements (Represents cap) (at cap i r) (Spec.at i xs)
    unfolding at Spec.at
    at-Implements i = elim (dec_lt i (length xs)) [
      | yes h ↦
          let (a, e) = get_elem?-in xs i h in
          returns a r xs (rw (lt→ltb i r.size (omega (arith, v.count))) (element-at i a h e))
            (rw (e, Spec.at)) v
      | no h ↦
          stops (rw (le→ltb i r.size (omega (arith, v.count))))
            (rw (get_elem?-out xs i (omega arith), Spec.at))
    ]

  pub construct-in :
      (r : Ring A) (p q : ℕ) (a : A)
      → p ≡ q
      → q < length r.slots
      → construct cap p a r ≡ ret tt (record r { slots = set r.slots q (some a) })
  unfolding construct
  construct-in r p q a e h = rw (e, lt→ltb q (length r.slots) h)

  pub destroy-live :
      (r : Ring A) (p q : ℕ) (a : A)
      → p ≡ q
      → get_or r.slots q none ≡ some a
      → destroy cap p r ≡ ret tt (record r { slots = set r.slots q none })
  unfolding destroy
  destroy-live r p q a e h = rw e (rw (h, destroy))

  module _ (r : Ring A) (xs : List A) (v : Represents cap r xs) where
    -- With room left, the new element is built behind the others.
    try_emplace_back-room :
        (a : A)
        → length xs < cap
        → try_emplace_back cap (some a) r
          ≡ ret true (record r {
            slots = set r.slots (wrap cap (r.head + r.size)) (some a);
            size = r.size + 1;
          })
    unfolding try_emplace_back
    try_emplace_back-room a h =
        let pos : 0 < cap = omega arith in
        let lt : r.size < cap = omega (arith, v.count) in
        rw (ne→== r.size cap (omega arith), size-claim small lt, claim-slot r.size)
          (rw (
            construct-in (record r { size = r.size + 1 }) (physical_index cap r.head r.size)
                (wrap cap (r.head + r.size)) a
                (physical_index-wrap cap pos small r.head r.size (head-lt cap r xs v pos)
                  (omega arith))
                (slot-lt cap r xs v pos (r.head + r.size) (omega (arith, head-lt cap r xs v pos))),
            ◌>>=◌,
          ))

    try_emplace_back-throw : length xs < cap → try_emplace_back cap none r ≡ thrown r
    unfolding try_emplace_back
    try_emplace_back-throw h =
        let lt : r.size < cap = omega (arith, v.count) in
        rw (
          ne→== r.size cap (omega arith),
          size-claim small lt,
          eq→== (r.size + 1) (r.size + 1) refl,
          claim-slot r.size,
        )

    try_emplace_back-full :
        (made : Option A) → length xs ≡ cap → try_emplace_back cap made r ≡ ret false r
    unfolding try_emplace_back
    try_emplace_back-full made h = rw (eq→== r.size cap (omega (arith, v.count)))

    pub try_emplace_back-Implements :
        (made : Option A)
        → Implements
            (Represents cap)
            (try_emplace_back cap made r)
            (Spec.try_emplace_back cap made xs)
    unfolding Spec.try_emplace_back
    try_emplace_back-Implements made = elim (ℕ_discrete (length xs) cap) [
      | yes full ↦
          returns false r xs (try_emplace_back-full made full) (rw (eq→== (length xs) cap full)) v
      | no room ↦ at_room made room
    ]
      where
        at_room :
            (made : Option A)
            → length xs ≢ cap
            → Implements
                (Represents cap)
                (try_emplace_back cap made r)
                (Spec.try_emplace_back cap made xs)
        at_room none room =
            throws r xs (try_emplace_back-throw (omega (arith, v.room)))
              (rw (ne→== (length xs) cap room)) v
        at_room (some a) room =
            let lt : length xs < cap = omega (arith, v.room) in
            let pos : 0 < cap = omega arith in
            returns true _ (xs ++ a ∷ []) (try_emplace_back-room a lt)
              (rw (ne→== (length xs) cap room)) (write_back cap r xs v pos a lt)

    pub emplace_back-throw : length xs < cap → emplace_back cap none r ≡ thrown r
    unfolding emplace_back
    emplace_back-throw h = rw (try_emplace_back-throw h, ◌>>=◌)

    pub emplace_back-room :
        (a : A)
        → length xs < cap
        → (r' : Ring A) × (emplace_back cap (some a) r ≡ ret a r')
          × Represents cap r' (xs ++ a ∷ [])
    unfolding emplace_back
    emplace_back-room a lt =
        let pos : 0 < cap = omega arith in
        let w = write_back cap r xs v pos a lt in
        let built =
          element-at _ (xs ++ a ∷ []) w r.size a
            (omega (arith, v.count, w.room, length-append xs (a ∷ [])))
            (ap (get_elem? (xs ++ a ∷ [])) v.count ∙ get_elem?-last xs a) in
        (_, rw (try_emplace_back-room a lt, ◌>>=◌) built, w)

    pub emplace_back-Implements :
        (made : Option A)
        → Implements (Represents cap) (emplace_back cap made r) (Spec.emplace_back cap made xs)
    unfolding Spec.emplace_back
    emplace_back-Implements made = elim (ℕ_discrete (length xs) cap) [
      | yes full ↦
          stops (unfold emplace_back in rw (try_emplace_back-full made full, ◌>>=◌))
            (rw (eq→== (length xs) cap full))
      | no room ↦ at_room made room
    ]
      where
        at_room :
            (made : Option A)
            → length xs ≢ cap
            → Implements (Represents cap) (emplace_back cap made r) (Spec.emplace_back cap made xs)
        at_room none room =
            throws r xs (emplace_back-throw (omega (arith, v.room)))
              (rw (ne→== (length xs) cap room)) v
        at_room (some a) room =
            let (r', run, w) = emplace_back-room a (omega (arith, v.room)) in
            returns a r' (xs ++ a ∷ []) run (rw (ne→== (length xs) cap room)) w

  -- A ring that is not empty loses its oldest element.
  pub pop_front-cons :
      (r : Ring A) (x : A) (xs : List A)
      → Represents cap r (x ∷ xs)
      → (r' : Ring A) × (pop_front cap r ≡ ret tt r') × Represents cap r' xs
  unfolding pop_front
  pop_front-cons r x xs v =
      let pos : 0 < cap = omega (arith, v.room) in
      let hd = head-lt cap r (x ∷ xs) v pos in
      let here : wrap cap (r.head + 0) ≡ r.head = ground arith in
      let run =
        destroy-live (record r { head = wrap cap (r.head + 1); size = r.size - 1 }) r.head r.head x
          refl (ap (λ t. get_or r.slots t none) (sym here) ∙ v.reads 0 pos) in
      (
        _,
        rw (lt→ltb 0 r.size (omega (arith, v.count)), advance-wrap cap pos small r.head hd) run,
        drop_front cap r x xs v,
      )

  pub pop_front-Implements :
      (r : Ring A) (xs : List A)
      → Represents cap r xs
      → Implements (Represents cap) (pop_front cap r) (Spec.pop_front xs)
  unfolding Spec.pop_front
  pop_front-Implements r [] v =
      stops (unfold pop_front in rw (le→ltb 0 r.size (omega (arith, v.count)))) refl
  pop_front-Implements r (x ∷ xs) v =
      let (r', run, w) = pop_front-cons r x xs v in returns tt r' xs run refl w
