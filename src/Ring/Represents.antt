-- ===== src/Ring/Represents.antt =====
-- The representation invariant of the ring: which list it holds.
use metl.Prelude.{
  ℕ, zero, suc, ◌+◌, ◌-◌, ◌≤◌, ◌<◌, ◌≡◌, refl, none, some, List, [], ◌∷◌, ◌++◌, inl, inr, arith,
  length, get_elem?, get_or, set, take, length-set, length-append, length-replicate,
  get_or-replicate, get_elem?-append_left, get_elem?-out, ◌==◌, if◌then◌else◌, trichotomy, ◌≢◌, ◌∙◌,
  sym, get_or-set_ne, get_or-set_self, ap, get_elem?-last, dec_lt, get_elem?-take, length-take,
}
use metl.Ring.{Ring, storage_size, new}
use metl.Ring.Index.{wrap}

-- From the head on, going round, the slots hold the elements of `xs` in order, and every other slot
-- within the capacity holds no object.
pub record Represents {ℓ} {A : Type ℓ} (cap : ℕ) (r : Ring A) (xs : List A) : Type ℓ where
  pub width : length r.slots ≡ storage_size cap
  pub head_in : r.head < storage_size cap
  pub count : r.size ≡ length xs
  pub room : length xs ≤ cap
  pub reads : (i : ℕ) → i < cap → get_or r.slots (wrap cap (r.head + i)) none ≡ get_elem? xs i

wrap-lt : (cap s : ℕ) → s < cap + cap → wrap cap s < cap
wrap-lt cap s h = ground arith

-- Different places within one turn are different slots.
pub wrap-ne :
    (cap h i j : ℕ) → h < cap → i < cap → j < cap → i ≢ j → wrap cap (h + i) ≢ wrap cap (h + j)
wrap-ne cap h i j hh hi hj ne = ground arith

storage_size-eq : (cap : ℕ) → 0 < cap → storage_size cap ≡ cap
storage_size-eq cap h = ground arith

module _ {ℓ} {A : Type ℓ} (cap : ℕ) where
  pub new-Represents : Represents {A = A} cap (new cap) []
  unfolding new
  new-Represents = record {
    width = length-replicate (storage_size cap) none;
    head_in = ground arith;
    count = refl;
    room = omega arith;
    reads = λ i h. get_or-replicate (storage_size cap) (wrap cap (0 + i)) none;
  }

  module _ (r : Ring A) (xs : List A) (v : Represents cap r xs) (pos : 0 < cap) where
    pub head-lt : r.head < cap
    head-lt = omega (arith, storage_size-eq cap pos, v.head_in)

    pub head_in_array : (p : ℕ) → p < cap → p < length r.slots
    head_in_array p h = omega (arith, storage_size-eq cap pos, v.width)

    -- A slot index within one turn of the head is inside the array.
    pub slot-lt : (s : ℕ) → s < cap + cap → wrap cap s < length r.slots
    slot-lt s h = omega (arith, storage_size-eq cap pos, v.width, wrap-lt cap s h)

    pub write_back :
        (a : A)
        → length xs < cap
        → Represents cap
            (record r {
              slots = set r.slots (wrap cap (r.head + r.size)) (some a);
              size = r.size + 1;
            })
            (xs ++ a ∷ [])
    write_back a h =
        let p = wrap cap (r.head + r.size) in
        let in_array = slot-lt (r.head + r.size) (omega (arith, head-lt, v.count)) in
        record {
          width = length-set r.slots p (some a) ∙ v.width;
          head_in = v.head_in;
          count = omega (arith, v.count, length-append xs (a ∷ []));
          room = omega (arith, length-append xs (a ∷ []));
          reads = λ i hi. elim (trichotomy i (length xs)) [
            | inl lo ↦
                get_or-set_ne r.slots (some a) none (
                  wrap-ne cap r.head r.size i head-lt (omega (arith, v.count)) hi
                    (omega (arith, v.count)))
                ∙ v.reads i hi
                ∙ sym (get_elem?-append_left xs (a ∷ []) i lo)
            | inr (inl at_end) ↦
                get_or-set_self r.slots (some a) none
                  (ap (λ t. wrap cap (r.head + t)) (omega (arith, v.count))) in_array
                ∙ sym (get_elem?-last xs a)
                ∙ ap (get_elem? (xs ++ a ∷ [])) (sym at_end)
            | inr (inr past) ↦
                get_or-set_ne r.slots (some a) none (
                  wrap-ne cap r.head r.size i head-lt (omega (arith, v.count)) hi
                    (omega (arith, v.count)))
                ∙ v.reads i hi
                ∙ get_elem?-out xs i (omega arith)
                ∙ sym (get_elem?-out (xs ++ a ∷ []) i (omega (arith, length-append xs (a ∷ []))))
          ];
        }

    pub write_front :
        (a : A) (h' : ℕ)
        → length xs < cap
        → h' ≡ (if r.head == 0 then cap - 1 else r.head - 1)
        → Represents cap
            (record { slots = set r.slots h' (some a); head = h'; size = r.size + 1 })
            (a ∷ xs)
    write_front a h' h e =
        let back : h' < cap = ground (arith, head-lt) in
        let store = storage_size-eq cap pos in
        record {
          width = length-set r.slots h' (some a) ∙ v.width;
          head_in = omega arith;
          count = omega (arith, v.count);
          room = h;
          reads = λ i hi. front_reads a h' back e i hi;
        }
      where
        front_reads :
            (a : A) (h' : ℕ)
            → h' < cap
            → h' ≡ (if r.head == 0 then cap - 1 else r.head - 1)
            → (i : ℕ) → i < cap
            → get_or (set r.slots h' (some a)) (wrap cap (h' + i)) none ≡ get_elem? (a ∷ xs) i
        front_reads a h' back e zero hi =
            get_or-set_self r.slots (some a) none (ground arith)
              (omega (arith, v.width, storage_size-eq cap pos))
        front_reads a h' back e (suc i) hi =
            get_or-set_ne r.slots (some a) none (ground arith)
            ∙ ap (λ t. get_or r.slots t none) (ground (arith, head-lt))
            ∙ v.reads i (omega arith)

    pub drop_back :
        0 < length xs
        → Represents cap
            (record r {
              slots = set r.slots (wrap cap (r.head + (r.size - 1))) none;
              size = r.size - 1;
            })
            (take (length xs - 1) xs)
    drop_back h =
        let n = length xs - 1 in
        let p = wrap cap (r.head + (r.size - 1)) in
        let in_array = slot-lt (r.head + (r.size - 1)) (omega (arith, head-lt, v.count, v.room)) in
        let len : length (take n xs) ≡ n = omega (arith, length-take n xs) in
        record {
          width = length-set r.slots p none ∙ v.width;
          head_in = v.head_in;
          count = omega (arith, v.count);
          room = omega (arith, v.room);
          reads = λ i hi. elim (trichotomy i n) [
            | inl lo ↦
                get_or-set_ne r.slots none none (
                  wrap-ne cap r.head (r.size - 1) i head-lt (omega (arith, v.count, v.room)) hi
                    (omega (arith, v.count)))
                ∙ v.reads i hi
                ∙ sym (get_elem?-take n i xs lo)
            | inr (inl at_end) ↦
                get_or-set_self r.slots none none
                  (ap (λ t. wrap cap (r.head + t)) (omega (arith, v.count))) in_array
                ∙ sym (get_elem?-out (take n xs) i (omega arith))
            | inr (inr past) ↦
                get_or-set_ne r.slots none none (
                  wrap-ne cap r.head (r.size - 1) i head-lt (omega (arith, v.count, v.room)) hi
                    (omega (arith, v.count)))
                ∙ v.reads i hi
                ∙ get_elem?-out xs i (omega arith)
                ∙ sym (get_elem?-out (take n xs) i (omega arith))
          ];
        }

  pub drop_front :
      (r : Ring A) (x : A) (xs : List A)
      → Represents cap r (x ∷ xs)
      → Represents cap
          (record {
            slots = set r.slots r.head none;
            head = wrap cap (r.head + 1);
            size = r.size - 1;
          })
          xs
  drop_front r x xs v =
      let pos : 0 < cap = omega (arith, v.room) in
      let store = storage_size-eq cap pos in
      let hd : r.head < cap = omega (arith, v.head_in) in
      record {
        width = length-set r.slots r.head none ∙ v.width;
        head_in = omega (arith, wrap-lt cap (r.head + 1));
        count = omega (arith, v.count);
        room = omega (arith, v.room);
        reads = λ i hi. elim (dec_lt (i + 1) cap) [
          | yes more ↦
              get_or-set_ne r.slots none none (ground arith)
              ∙ ap (λ t. get_or r.slots t none) (ground arith)
              ∙ v.reads (suc i) (omega arith)
          | no last ↦
              get_or-set_self r.slots none none (ground arith) (omega (arith, v.width))
              ∙ sym (get_elem?-out xs i (omega (arith, v.room)))
        ];
      }
