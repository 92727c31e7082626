-- ===== src/UnorderedMap/Operations.antt =====
-- `try_emplace`, `try_insert_or_assign` and `erase`, by what `find` gives before and after.
use metl.Prelude.{
  ℕ, ◌+◌, ◌<◌, ◌≡◌, ◌≢◌, refl, sym, ap, ◌∙◌, Bool, true, false, ◌&&◌, inl, inr, none, some,
  if◌then◌else◌, Bool-cases, arith,
}
use metl.Prelude.Outcome.{ret}
use metl.UnorderedMap.{
  Keys, Entry, occupied, tombstone, Table, cell, find, contains, locate_insert_index, construct_at,
}
use metl.UnorderedMap.Invariant.{Arranged, Missing, Sized}
use metl.UnorderedMap.Lookup.{
  Present, find-some, find-none, locate_insert_index_missing, occupied_inj,
}
use metl.UnorderedMap.Write.{find_other, find_written, find_cleared}
use metl.UnorderedMap.Changes.{assigned, removed, assigned-Valid, removed-Valid}
use metl.UnorderedMap.Insert.{Sound, spare_slot, construct_at_lem}

module _ {ℓ} {K V : Type ℓ} (keys : Keys K) (cap buckets : ℕ) where
  open keys use {equal}

  -- `find` gives `value` for `key` if `stored`, and what it gave before otherwise.
  pub record Stores (stored : Bool) (key : K) (value : V) (t t' : Table K V) : Type ℓ where
    pub sound : Sound keys cap buckets t'
    pub finds :
        (other : K)
        → find keys cap buckets other t'
          ≡ (if stored && equal key other then some value else find keys cap buckets other t)

  -- `find` gives nothing for `key`, and what it gave before for other keys.
  pub record Erases (key : K) (t t' : Table K V) : Type ℓ where
    pub sound : Sound keys cap buckets t'
    pub finds :
        (other : K)
        → find keys cap buckets other t'
          ≡ (if equal key other then none else find keys cap buckets other t)

module _ {ℓ} {K V : Type ℓ} (keys : Keys K) (cap buckets : ℕ) (sized : Sized cap buckets)
    (t : Table K V) (s : Sound keys cap buckets t) (key : K) where
  open keys use {equal}

  arr : Arranged keys buckets t.cells
  arr = s.valid.arranged

  -- Nothing is stored.
  pub unchanged : (value : V) → Stores keys cap buckets false key value t t
  unchanged value = record { sound = s; finds = λ other. refl }

  equal_same : (a b c : K) → equal a b ≡ true → equal a c ≡ equal b c
  equal_same a b c h = elim (Bool-cases (equal a c)) [
    | inl yes_ac ↦ yes_ac ∙ sym (keys.transitive b a c (keys.symmetric a b h) yes_ac)
    | inr no_ac ↦ elim (Bool-cases (equal b c)) [
      | inl yes_bc ↦ let w = keys.transitive a b c h yes_bc in absurd (cc)
      | inr no_bc ↦ no_ac ∙ sym no_bc
    ]
  ]

  pub contains-true :
      (p : Present keys buckets t.cells key) → contains keys cap buckets key t ≡ true
  unfolding contains
  contains-true p = rw (find-some keys cap buckets sized t arr key p, contains) refl

  pub contains-false : Missing keys buckets t.cells key → contains keys cap buckets key t ≡ false
  unfolding contains
  contains-false missing = rw (find-none keys cap buckets sized t arr key missing, contains) refl

  -- A new element in the place that `locate_insert_index` gives.
  pub record Placed (movable : Bool) (value : V) : Type ℓ where
    pub index : ℕ
    pub located : locate_insert_index keys cap buckets key t ≡ some index
    pub bare : (e : Entry K V) → cell t.cells index ≢ occupied e
    pub place : ℕ
    pub after : Table K V
    pub ends :
        construct_at keys cap buckets movable index (some (record { key = key; value = value })) t
        ≡ ret place after
    pub stores : Stores keys cap buckets true key value t after
    pub one_more : after.size ≡ t.size + 1
    pub holds : cell after.cells place ≡ occupied (record { key = key; value = value })

  pub new-Placed :
      (movable : Bool) (value : V)
      → Missing keys buckets t.cells key
      → t.size < cap
      → Placed movable value
  new-Placed movable value missing less =
      let (j, inside, bare) = spare_slot keys cap buckets sized t s in
      let (i, located, free) =
        locate_insert_index_missing keys cap buckets sized t arr key missing j inside bare in
      let e : Entry K V = record { key = key; value = value } in
      let (place, after, ends, inserted) =
        construct_at_lem keys cap buckets sized movable t s less i e free missing in
      record {
        index = i;
        located = located;
        bare = free.no_object;
        place = place;
        after = after;
        ends = ends;
        stores = record { sound = inserted.sound; finds = inserted.finds };
        one_more = inserted.one_more;
        holds = inserted.holds;
      }

  -- Another value for the element that has the key.
  pub assigned-Stores :
      (value : V) (p : Present keys buckets t.cells key)
      → Stores keys cap buckets true key value t (assigned p.index p.element value t)
  assigned-Stores value p =
      let next : Entry K V = record p.element { value = value } in
      let after = assigned p.index p.element value t in
      let v' = assigned-Valid keys buckets t s.valid p.index p.element value p.inside p.there in
      let same_keys = λ (other : K). equal_same p.element.key key other p.same in
      record {
        sound = record { valid = v'; room = s.room };
        finds = λ other. elim (Bool-cases (equal key other)) [
          | inl same ↦ rw same (
              find_written keys cap buckets sized t after p.index p.inside (occupied next) refl arr
                v'.arranged other next refl (same_keys other ∙ same))
          | inr differs ↦ rw differs (
              find_other keys cap buckets sized t after p.index p.inside (occupied next) refl arr
                v'.arranged other
                (λ e o.
                  ap (λ (y : Entry K V). equal y.key other) (occupied_inj (sym o ∙ p.there))
                  ∙ same_keys other
                  ∙ differs)
                (λ e o.
                  ap (λ (y : Entry K V). equal y.key other) (occupied_inj (sym o))
                  ∙ same_keys other
                  ∙ differs))
        ];
      }

  pub removed-Erases :
      (p : Present keys buckets t.cells key) → Erases keys cap buckets key t (removed p.index t)
  removed-Erases p =
      let after = removed p.index t in
      let (v', some_left) =
        removed-Valid keys buckets t s.valid p.index p.element p.inside p.there in
      let same_keys = λ (other : K). equal_same p.element.key key other p.same in
      record {
        sound = record { valid = v'; room = omega (arith, s.room) };
        finds = λ other. elim (Bool-cases (equal key other)) [
          | inl same ↦ rw same (
              find_cleared keys cap buckets sized t after p.index p.inside tombstone refl arr
                v'.arranged other p.element p.there (same_keys other ∙ same) (λ e h. cc))
          | inr differs ↦ rw differs (
              find_other keys cap buckets sized t after p.index p.inside tombstone refl arr
                v'.arranged other
                (λ e o.
                  ap (λ (y : Entry K V). equal y.key other) (occupied_inj (sym o ∙ p.there))
                  ∙ same_keys other
                  ∙ differs)
                (λ e o. absurd (cc)))
        ];
      }
