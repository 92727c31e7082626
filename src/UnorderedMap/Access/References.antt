-- ===== src/UnorderedMap/Access/References.antt =====
-- The references that the members give name the value that `find` gives.
use metl.Prelude.{
  ℕ, ◌<◌, ◌≡◌, ◌≢◌, refl, sym, ◌∙◌, Bool, false, ◌&&◌, ◌||◌, not, inl, inr, Option, some, true, ltb,
  ltb→lt, lt→ltb, ltb→le, get_or-out, Bool-cases, if◌then◌else◌, dec_lt, arith,
}
use metl.Prelude.Outcome.{Outcome, ret, stopped, >>=-ret}
use metl.UnorderedMap.{
  Keys, Entry, Cell, vacant, occupied, tombstone, unplaced, Table, cell, find, contains,
  insert_or_assign_impl,
}
use metl.UnorderedMap.Invariant.{Missing, Sized}
use metl.UnorderedMap.Lookup.{
  Present, Present-cases, find-some, find-none, find_existing_index-some, find_existing_index-none,
}
use metl.UnorderedMap.Write.{cell-set_self}
use metl.UnorderedMap.Changes.{assigned}
use metl.UnorderedMap.Insert.{Sound}
use metl.UnorderedMap.Operations.{
  Stores, Placed, unchanged, contains-true, contains-false, new-Placed, assigned-Stores,
}
use metl.UnorderedMap.Update.{assign_found, assign_full, assign_new}
use metl.UnorderedMap.Access.{
  is_occupied, value_at, insert_absent, emplace, subscript, insert_or_assign,
}

module _ {ℓ} {K V : Type ℓ} where
  value_at-occupied :
      (t : Table K V) (i : ℕ) (e : Entry K V)
      → cell t.cells i ≡ occupied e
      → value_at t i ≡ some e.value
  value_at-occupied t i e o = rw (o, value_at) refl

  pub is_occupied-false :
      (c : Cell K V) → ((e : Entry K V) → c ≢ occupied e) → is_occupied c ≡ false
  is_occupied-false vacant bare = refl
  is_occupied-false (occupied e) bare = absurd (bare e refl)
  is_occupied-false tombstone bare = refl
  is_occupied-false (unplaced e) bare = refl

module _ {ℓ} {K V : Type ℓ} (keys : Keys K) (cap buckets : ℕ) where
  -- A member that may store `value` and gives a reference to the value of the key, or stops.
  pub record Refers (t : Table K V) (key : K) (stored : Bool) (value : V)
      (outcome : Outcome (Table K V) ℕ) : Type ℓ where
    pub place : ℕ
    pub after : Table K V
    pub ends :
        outcome
        ≡ (if contains keys cap buckets key t || ltb t.size cap then ret place after else stopped)
    pub stores : Stores keys cap buckets stored key value t after
    pub names : value_at after place ≡ find keys cap buckets key after

module _ {ℓ} {K V : Type ℓ} (keys : Keys K) (cap buckets : ℕ) (sized : Sized cap buckets)
    (t : Table K V) (s : Sound keys cap buckets t) (key : K) where
  open keys use {equal}

  abbrev fits : Bool
  fits = ltb t.size cap

  abbrev there : Bool
  there = contains keys cap buckets key t

  abbrev entry : V → Entry K V
  entry value = record { key = key; value = value }

  full_value : Missing keys buckets t.cells key → value_at t buckets ≡ find keys cap buckets key t
  full_value missing =
      let w = s.valid.arranged.width in
      let out : cell t.cells buckets ≡ vacant = get_or-out t.cells buckets vacant (omega arith) in
      rw (out, value_at) (sym (find-none keys cap buckets sized t s.valid.arranged key missing))

  new_value :
      (movable : Bool) (value : V) (n : Placed keys cap buckets sized t s key movable value)
      → value_at n.after n.place ≡ find keys cap buckets key n.after
  new_value movable value n =
      value_at-occupied n.after n.place (entry value) n.holds
      ∙ sym (n.stores.finds key ∙ rw (keys.reflexive key) refl)

  new_inside :
      (movable : Bool) (value : V) (n : Placed keys cap buckets sized t s key movable value)
      → n.place < buckets
  new_inside movable value n =
      let w = n.stores.sound.valid.arranged.width in
      let h = n.holds in
      elim (dec_lt n.place buckets) [
        | yes inside ↦ inside
        | no out ↦ let o = get_or-out n.after.cells n.place vacant (omega arith) in absurd (cc)
      ]

  pub insert_absent_new :
      (movable : Bool) (value : V) (n : Placed keys cap buckets sized t s key movable value)
      → t.size < cap
      → insert_absent keys cap buckets movable key (some (entry value)) t ≡ ret n.place n.after
  unfolding insert_absent
  insert_absent_new movable value n less =
      rw (lt→ltb t.size cap less, insert_absent)
        (rw (n.located) (rw (is_occupied-false (cell t.cells n.index) n.bare) n.ends))

  pub insert_absent_full :
      (movable : Bool) (made : Option (Entry K V))
      → fits ≡ false
      → insert_absent keys cap buckets movable key made t ≡ stopped
  unfolding insert_absent
  insert_absent_full movable made full = rw (full, insert_absent) refl

  emplace-Refers :
      (movable : Bool) (value : V)
      → Refers keys cap buckets t key
          (not there && fits)
          value
          (emplace keys cap buckets movable key (some (entry value)) t)
  unfolding emplace
  emplace-Refers movable value = elim (Present-cases keys buckets t.cells key) [
    | inl p ↦
        let found = contains-true keys cap buckets sized t s key p in
        record {
          place = p.index;
          after = t;
          ends = rw found (
              rw (find_existing_index-some keys cap buckets sized t s.valid.arranged key p, emplace)
                refl);
          stores = rw found (unchanged keys cap buckets sized t s key value);
          names =
              value_at-occupied t p.index p.element p.there
              ∙ sym (find-some keys cap buckets sized t s.valid.arranged key p);
        }
    | inr missing ↦
        let absent = contains-false keys cap buckets sized t s key missing in
        let index =
          find_existing_index-none keys cap buckets sized t s.valid.arranged key missing in
        elim (Bool-cases fits) [
          | inl less ↦
              let n =
                new-Placed keys cap buckets sized t s key movable value missing
                  (ltb→lt t.size cap less) in
              record {
                place = n.place;
                after = n.after;
                ends = rw absent (
                    rw less (
                      rw (index, emplace)
                        (insert_absent_new movable value n (ltb→lt t.size cap less))));
                stores = rw absent (rw less n.stores);
                names = new_value movable value n;
              }
          | inr full ↦ record {
            place = buckets;
            after = t;
            ends = rw absent (
                rw full
                  (rw (index, emplace) (insert_absent_full movable (some (entry value)) full)));
            stores = rw absent (rw full (unchanged keys cap buckets sized t s key value));
            names = full_value missing;
          }
        ]
  ]

  subscript-Refers :
      (movable : Bool) (value : V)
      → Refers keys cap buckets t key
          (not there && fits)
          value
          (subscript keys cap buckets movable key (some (entry value)) t)
  unfolding subscript emplace
  subscript-Refers movable value = emplace-Refers movable value

  module _ (movable : Bool) (value : V) where
    abbrev AssignRefers : Type ℓ
    AssignRefers =
        Refers keys cap buckets t key (there || fits) value
          (insert_or_assign keys cap buckets movable key value (some (entry value)) t)

    assign_there : Present keys buckets t.cells key → AssignRefers
    unfolding insert_or_assign
    assign_there p =
        let found = contains-true keys cap buckets sized t s key p in
        let stores = assigned-Stores keys cap buckets sized t s key value p in
        let next : Entry K V = record p.element { value = value } in
        let after = assigned p.index p.element value t in
        record {
          place = p.index;
          after = after;
          ends = rw found (
              >>=-ret
                (insert_or_assign_impl keys cap buckets movable key value (some (entry value))) _ t
                (assign_found keys cap buckets sized t s key movable value (some (entry value)) p)
              ∙ rw (lt→ltb p.index buckets p.inside) refl);
          stores = rw found stores;
          names =
              value_at-occupied after p.index next (
                cell-set_self keys buckets t.cells p.index p.inside (occupied next)
                  s.valid.arranged)
              ∙ sym (stores.finds key ∙ rw (keys.reflexive key) refl);
        }

    assign_absent : Missing keys buckets t.cells key → fits ≡ true → AssignRefers
    unfolding insert_or_assign
    assign_absent missing less =
        let absent = contains-false keys cap buckets sized t s key missing in
        let room = ltb→lt t.size cap less in
        let n = new-Placed keys cap buckets sized t s key movable value missing room in
        record {
          place = n.place;
          after = n.after;
          ends = rw absent (
              rw less (
                >>=-ret
                  (insert_or_assign_impl keys cap buckets movable key value (some (entry value))) _
                  t
                  (assign_new keys cap buckets sized t s key movable value n.index n.place n.after
                    missing n.located room n.ends)
                ∙ rw (lt→ltb n.place buckets (new_inside movable value n)) refl));
          stores = rw absent (rw less n.stores);
          names = new_value movable value n;
        }

    assign_no_room : Missing keys buckets t.cells key → fits ≡ false → AssignRefers
    unfolding insert_or_assign
    assign_no_room missing full =
        let absent = contains-false keys cap buckets sized t s key missing in
        record {
          place = buckets;
          after = t;
          ends = rw absent (
              rw full (
                >>=-ret
                  (insert_or_assign_impl keys cap buckets movable key value (some (entry value))) _
                  t
                  (assign_full keys cap buckets sized t s key movable value (some (entry value))
                    missing (ltb→le t.size cap full))));
          stores = rw absent (rw full (unchanged keys cap buckets sized t s key value));
          names = full_value missing;
        }

    insert_or_assign-Refers : AssignRefers
    insert_or_assign-Refers = elim (Present-cases keys buckets t.cells key) [
      | inl p ↦ assign_there p
      | inr missing ↦ elim (Bool-cases fits) [
        | inl less ↦ assign_absent missing less
        | inr full ↦ assign_no_room missing full
      ]
    ]

  -- For a map of at least one element's capacity whose slots are a power of two, at least twice
  -- the capacity and at most 2^63, with its slots arranged and its counts right, and constructors
  -- that do not throw, `emplace`, `operator[]` and `insert_or_assign` stop the program exactly if
  -- the key is not there and the map is full; otherwise they return a slot that has the value
  -- which `find` gives for the key in the map after it. `emplace` and `operator[]` store the
  -- value exactly if the key was not there and the map was not full, `insert_or_assign` also over
  -- the value of a key that was there; for all other keys `find` gives what it gave before, and
  -- the map is as well arranged.
  pub references_lem :
      (movable : Bool) (value : V)
      → Refers keys cap buckets t key
          (not there && fits)
          value
          (emplace keys cap buckets movable key (some (entry value)) t)
        × Refers keys cap buckets t key
            (not there && fits)
            value
            (subscript keys cap buckets movable key (some (entry value)) t)
        × Refers keys cap buckets t key
            (there || fits)
            value
            (insert_or_assign keys cap buckets movable key value (some (entry value)) t)
  references_lem movable value = (
    emplace-Refers movable value,
    subscript-Refers movable value,
    insert_or_assign-Refers movable value,
  )
