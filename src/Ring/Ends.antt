-- ===== src/Ring/Ends.antt =====
-- `front`, `back` and `clear` implement those of the abstract deque; `clear` ends.
use metl.Prelude.{
  ℕ, zero, suc, ◌+◌, ◌-◌, ◌^◌, ◌≤◌, ◌<◌, ◌≡◌, refl, ◌∙◌, sym, ap, none, List, [], ◌∷◌, arith,
  lt→ltb, le→ltb, eq→==, ne→==, length, get_or, get_elem?-in,
}
use metl.Prelude.Outcome.{ret, ◌>>=◌, Implements, returns, stops}
use metl.Ring.{Ring, front, back, clear_loop, clear}
use metl.Ring.Index.{wrap}
use metl.Ring.Represents.{Represents, head-lt}
use metl.Ring.Refine.{element-at, storage_at-reads, pop_front-cons}
use metl.Ring.Spec

module _ {ℓ} {A : Type ℓ} (cap : ℕ) (small : cap ≤ 2 ^ 63) where
  pub front-Implements :
      (r : Ring A) (xs : List A)
      → Represents cap r xs
      → Implements (Represents cap) (front cap r) (Spec.front xs)
  unfolding front Spec.front Spec.at
  front-Implements r [] v = stops (rw (le→ltb 0 r.size (omega (arith, v.count)))) refl
  front-Implements r (x ∷ xs) v =
      let pos : 0 < cap = omega (arith, v.room) in
      let hd = head-lt cap r (x ∷ xs) v pos in
      let here : wrap cap (r.head + 0) ≡ r.head = ground arith in
      returns x r (x ∷ xs)
        (rw (lt→ltb 0 r.size (omega (arith, v.count))) (
          storage_at-reads cap small r r.head x
            (ap (λ t. get_or r.slots t none) (sym here) ∙ v.reads 0 pos)))
        refl v

  pub back-Implements :
      (r : Ring A) (xs : List A)
      → Represents cap r xs
      → Implements (Represents cap) (back cap r) (Spec.back xs)
  unfolding back Spec.back
  back-Implements r [] v = stops (rw (le→ltb 0 r.size (omega (arith, v.count)))) refl
  back-Implements r (x ∷ xs) v =
      let n = length (x ∷ xs) - 1 in
      let (a, e) = get_elem?-in (x ∷ xs) n (omega arith) in
      let same : r.size - 1 ≡ n = omega (arith, v.count) in
      returns a r (x ∷ xs)
        (rw (lt→ltb 0 r.size (omega (arith, v.count)))
          (element-at cap small r (x ∷ xs) v (r.size - 1) a (omega arith) (rw same e)))
        (rw (e, Spec.back)) v

  clear_loop-ends :
      (fuel : ℕ) (r : Ring A) (xs : List A)
      → Represents cap r xs
      → length xs < fuel
      → (r' : Ring A) × (clear_loop cap fuel r ≡ ret tt r') × Represents cap r' []
  unfolding clear_loop
  clear_loop-ends zero r xs v h = absurd (omega arith)
  clear_loop-ends (suc fuel) r [] v h = (r, rw (eq→== r.size 0 v.count), v)
  clear_loop-ends (suc fuel) r (x ∷ xs) v h =
      let (q, run, w) = pop_front-cons cap small r x xs v in
      let (r', rest, u) = clear_loop-ends fuel q xs w (omega arith) in
      (r', rw (ne→== r.size 0 (omega (arith, v.count)), run, ◌>>=◌) rest, u)

  pub clear-Implements :
      (r : Ring A) (xs : List A)
      → Represents cap r xs
      → Implements (Represents cap) (clear cap r) (Spec.clear xs)
  unfolding clear Spec.clear
  clear-Implements r xs v =
      let (r', run, w) = clear_loop-ends (r.size + 1) r xs v (omega (arith, v.count)) in
      returns tt r' [] run refl w
