-- ===== src/RingBuffer/Refine.antt =====
-- `push_overwrite` implements eviction on the abstract bounded deque.
use metl.Prelude.{
  ℕ, suc, ◌^◌, ◌≤◌, ◌<◌, ◌≡◌, ◌≢◌, sym, ◌∙◌, Bool, true, false, Option, none, some, List, [], ◌∷◌,
  ◌++◌, arith, ℕ_discrete, eq→==, ne→==, length,
}
use metl.Prelude.Outcome.{◌>>=◌, Implements, returns, throws}
use metl.Ring.{Ring, emplace_back}
use metl.Ring.Represents.{Represents}
use metl.Ring.Refine.{
  pop_front-cons, emplace_back-throw, emplace_back-room, emplace_back-Implements,
}
use metl.Ring.Spec
use metl.RingBuffer.{push_overwrite}

module _ {ℓ} {A : Type ℓ} (cap : ℕ) (small : cap ≤ 2 ^ 63) where
  not_full :
      (r : Ring A) (xs : List A) (movable : Bool) (made : Option A)
      → Represents cap r xs
      → length xs ≢ cap
      → push_overwrite cap movable made r ≡ emplace_back cap made r
  unfolding push_overwrite
  not_full r xs movable made v ne = rw (ne→== r.size cap (λ e. ne (sym v.count ∙ e)))

  -- A full ring of at least one slot: the oldest element makes room.
  evict :
      (r : Ring A) (x : A) (xs : List A) (movable : Bool) (made : Option A)
      → Represents cap r (x ∷ xs)
      → length (x ∷ xs) ≡ cap
      → Implements
          (Represents cap)
          (push_overwrite cap movable made r)
          (Spec.push_overwrite cap movable made (x ∷ xs))
  unfolding push_overwrite Spec.push_overwrite
  evict r x xs true none v e =
      throws r (x ∷ xs) (rw (eq→== r.size cap (v.count ∙ e))) (rw (eq→== (suc (length xs)) cap e)) v
  evict r x xs false none v e =
      let (q, run, w) = pop_front-cons cap small r x xs v in
      throws q xs
        (rw (eq→== r.size cap (v.count ∙ e), run, ◌>>=◌)
          (emplace_back-throw cap small q xs w (omega arith)))
        (rw (eq→== (suc (length xs)) cap e)) w
  evict r x xs true (some a) v e =
      let (q, run, w) = pop_front-cons cap small r x xs v in
      let (r', rest, u) = emplace_back-room cap small q xs w a (omega arith) in
      returns a r' (xs ++ a ∷ []) (rw (eq→== r.size cap (v.count ∙ e), run, ◌>>=◌) rest)
        (rw (eq→== (suc (length xs)) cap e)) u
  evict r x xs false (some a) v e =
      let (q, run, w) = pop_front-cons cap small r x xs v in
      let (r', rest, u) = emplace_back-room cap small q xs w a (omega arith) in
      returns a r' (xs ++ a ∷ []) (rw (eq→== r.size cap (v.count ∙ e), run, ◌>>=◌) rest)
        (rw (eq→== (suc (length xs)) cap e)) u

  pub push_overwrite-Implements :
      (r : Ring A) (xs : List A) (movable : Bool) (made : Option A)
      → Represents cap r xs
      → 0 < cap
      → Implements
          (Represents cap)
          (push_overwrite cap movable made r)
          (Spec.push_overwrite cap movable made xs)
  unfolding Spec.push_overwrite
  push_overwrite-Implements r [] movable made v pos =
      rw (not_full r [] movable made v (λ e. omega arith))
        (emplace_back-Implements cap small r [] v made)
  push_overwrite-Implements r (x ∷ xs) movable made v pos =
      elim (ℕ_discrete (suc (length xs)) cap) [
        | yes full ↦ evict r x xs movable made v full
        | no room ↦
            rw (not_full r (x ∷ xs) movable made v room, ne→== (suc (length xs)) cap room)
              (emplace_back-Implements cap small r (x ∷ xs) v made)
      ]
