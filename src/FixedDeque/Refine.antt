-- ===== src/FixedDeque/Refine.antt =====
-- The deque's own operations implement those of the abstract bounded deque.
use metl.Prelude.{
  ℕ, ◌+◌, ◌-◌, ◌^◌, ◌≤◌, ◌<◌, ◌≡◌, ◌≢◌, refl, ◌∙◌, true, false, Option, none, some, List, ◌∷◌,
  arith, ℕ_discrete, lt→ltb, le→ltb, eq→==, ne→==, length, get_elem?-in, take, set, get_or-set_self,
  dec_lt,
}
use metl.Prelude.Outcome.{ret, thrown, ◌>>=◌, Implements, returns, throws, stops}
use metl.Ring.{Ring, retreat, physical_index}
use metl.Ring.Index.{wrap, retreat_lem, physical_index-wrap}
use metl.Ring.Represents.{Represents, head-lt, head_in_array, write_front, drop_back}
use metl.Ring.Refine.{storage_at-reads, construct-in, destroy-live, size-claim, claim-slot}
use metl.Ring.Spec
use metl.FixedDeque.{try_emplace_front, emplace_front, pop_back}

module _ {ℓ} {A : Type ℓ} (cap : ℕ) (small : cap ≤ 2 ^ 63) (r : Ring A) (xs : List A)
    (v : Represents cap r xs) where
  retreat-inside : 0 < cap → retreat cap r.head < length r.slots
  retreat-inside pos =
      head_in_array cap r xs v pos (retreat cap r.head)
        (ground (arith, head-lt cap r xs v pos, retreat_lem cap pos small r.head))

  try_emplace_front-full :
      (made : Option A) → length xs ≡ cap → try_emplace_front cap made r ≡ ret false r
  unfolding try_emplace_front
  try_emplace_front-full made h = rw (eq→== r.size cap (omega (arith, v.count)))

  try_emplace_front-throw : length xs < cap → try_emplace_front cap none r ≡ thrown r
  unfolding try_emplace_front
  try_emplace_front-throw h =
      let lt : r.size < cap = omega (arith, v.count) in
      rw (
        ne→== r.size cap (omega arith),
        size-claim small lt,
        eq→== (retreat cap r.head) (retreat cap r.head) refl,
        eq→== (r.size + 1) (r.size + 1) refl,
        claim-slot r.size,
      )

  try_emplace_front-room :
      (a : A)
      → length xs < cap
      → try_emplace_front cap (some a) r
        ≡ ret true (record {
          slots = set r.slots (retreat cap r.head) (some a);
          head = retreat cap r.head;
          size = r.size + 1;
        })
  unfolding try_emplace_front
  try_emplace_front-room a h =
      let lt : r.size < cap = omega (arith, v.count) in
      let built =
        construct-in cap small (record r { head = retreat cap r.head; size = r.size + 1 })
          (retreat cap r.head) (retreat cap r.head) a refl (retreat-inside (omega arith)) in
      rw (ne→== r.size cap (omega arith), size-claim small lt) (rw (built, ◌>>=◌))

  front-Represents :
      (a : A)
      → length xs < cap
      → Represents cap
          (record {
            slots = set r.slots (retreat cap r.head) (some a);
            head = retreat cap r.head;
            size = r.size + 1;
          })
          (a ∷ xs)
  front-Represents a h =
      let pos : 0 < cap = omega arith in
      write_front cap r xs v pos a (retreat cap r.head) h (retreat_lem cap pos small r.head)

  pub try_emplace_front-Implements :
      (made : Option A)
      → Implements
          (Represents cap)
          (try_emplace_front cap made r)
          (Spec.try_emplace_front cap made xs)
  unfolding Spec.try_emplace_front
  try_emplace_front-Implements made = elim (ℕ_discrete (length xs) cap) [
    | yes full ↦
        returns false r xs (try_emplace_front-full made full) (rw (eq→== (length xs) cap full)) v
    | no room ↦ at_room made room
  ]
    where
      at_room :
          (made : Option A)
          → length xs ≢ cap
          → Implements
              (Represents cap)
              (try_emplace_front cap made r)
              (Spec.try_emplace_front cap made xs)
      at_room none room =
          throws r xs (try_emplace_front-throw (omega (arith, v.room)))
            (rw (ne→== (length xs) cap room)) v
      at_room (some a) room =
          let lt : length xs < cap = omega (arith, v.room) in
          returns true _ (a ∷ xs) (try_emplace_front-room a lt) (rw (ne→== (length xs) cap room))
            (front-Represents a lt)

  pub emplace_front-Implements :
      (made : Option A)
      → Implements (Represents cap) (emplace_front cap made r) (Spec.emplace_front cap made xs)
  unfolding emplace_front Spec.emplace_front
  emplace_front-Implements made = elim (ℕ_discrete (length xs) cap) [
    | yes full ↦
        stops (rw (try_emplace_front-full made full, ◌>>=◌)) (rw (eq→== (length xs) cap full))
    | no room ↦ at_room made room
  ]
    where
      at_room :
          (made : Option A)
          → length xs ≢ cap
          → Implements (Represents cap) (emplace_front cap made r) (Spec.emplace_front cap made xs)
      at_room none room =
          throws r xs (rw (try_emplace_front-throw (omega (arith, v.room)), ◌>>=◌))
            (rw (ne→== (length xs) cap room)) v
      at_room (some a) room =
          let lt : length xs < cap = omega (arith, v.room) in
          returns a _ (a ∷ xs)
            (rw (try_emplace_front-room a lt, ◌>>=◌)
              (storage_at-reads cap small _ (retreat cap r.head) a
                (get_or-set_self r.slots (some a) none refl (retreat-inside (omega arith)))))
            (rw (ne→== (length xs) cap room)) (front-Represents a lt)

  pub pop_back-Implements : Implements (Represents cap) (pop_back cap r) (Spec.pop_back xs)
  unfolding pop_back Spec.pop_back
  pop_back-Implements = elim (dec_lt 0 (length xs)) [
    | no empty ↦
        stops (rw (le→ltb 0 r.size (omega (arith, v.count))))
          (rw (eq→== (length xs) 0 (omega arith)))
    | yes more ↦
        let pos : 0 < cap = omega (arith, v.room) in
        let n = r.size - 1 in
        let (a, e) = get_elem?-in xs n (omega (arith, v.count)) in
        let lt : n < cap = omega (arith, v.count, v.room) in
        let run =
          destroy-live cap small (record r { size = n }) (physical_index cap r.head n)
            (wrap cap (r.head + n)) a
            (physical_index-wrap cap pos small r.head n (head-lt cap r xs v pos) (omega arith))
            (v.reads n lt ∙ e) in
        returns tt _ (take (length xs - 1) xs) (rw (lt→ltb 0 r.size (omega (arith, v.count))) run)
          (rw (ne→== (length xs) 0 (omega arith))) (drop_back cap r xs v pos more)
  ]
