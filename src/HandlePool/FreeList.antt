-- ===== src/HandlePool/FreeList.antt =====
-- The free list of a pool: the slots that the links visit from the head, in order.
use metl.Prelude.{
  ℕ, ◌+◌, ◌≤◌, ◌<◌, ◌≡◌, ◌≢◌, refl, sym, ◌∙◌, ap, List, [], ◌∷◌, ◌++◌, arith, ℕ_discrete, ◌==◌,
  eq→==, if◌then◌else◌, length, get_or, set, get_or-set_self, get_or-set_ne,
}
use metl.HandlePool.{Slot, linked, raw}

abbrev pub count : ℕ → List ℕ → ℕ
count a [] = 0
count a (x ∷ xs) = (if x == a then 1 else 0) + count a xs

abbrev pub last_or : ℕ → List ℕ → ℕ
last_or d [] = d
last_or d (x ∷ xs) = last_or x xs

-- One more at the end.
pub count_snoc :
    (k i : ℕ) (is : List ℕ) → count k (is ++ i ∷ []) ≡ (if i == k then 1 else 0) + count k is
count_snoc k i [] = refl
count_snoc k i (n ∷ is) = omega (arith, count_snoc k i is)

pub last_or-append : (d : ℕ) (xs : List ℕ) (a : ℕ) → last_or d (xs ++ a ∷ []) ≡ a
last_or-append d [] a = refl
last_or-append d (x ∷ xs) a = last_or-append x xs a

pub last_or-tail : (d i : ℕ) (is : List ℕ) → last_or d (i ∷ is) ≡ d → last_or d is ≡ d
last_or-tail d i [] e = refl
last_or-tail d i (k ∷ is) e = e

-- The last member occurs.
count-last : (x : ℕ) (xs : List ℕ) → 0 < count (last_or x xs) (x ∷ xs)
count-last x [] = rw (eq→== x x refl) (omega arith)
count-last x (y ∷ ys) = omega (arith, count-last y ys)

pub count-tail : (t : ℕ) (fs : List ℕ) → 0 < length fs → last_or t fs ≡ t → 0 < count t fs
count-tail t [] ne e = absurd (omega arith)
count-tail t (x ∷ xs) ne e = omega (arith, count-last x xs, ap (λ y. count y (x ∷ xs)) e)

module _ {ℓ} {A : Type ℓ} (cap : ℕ) where
  -- From `h` the links visit the slots `fs` and then come to `cap`, the end.
  pub data Chain (s : List (Slot A)) : ℕ → List ℕ → Type ℓ where
    stop : (h : ℕ) → h ≡ cap → Chain s h []
    visit :
        (h i next : ℕ) (is : List ℕ)
        → h ≡ i
        → i < cap
        → get_or s i raw ≡ linked next
        → Chain s next is
        → Chain s h (i ∷ is)

  -- A write to a slot that is not on the list does not change the list.
  pub Chain-set :
      (s : List (Slot A)) (j : ℕ) (v : Slot A) (h : ℕ) (fs : List ℕ)
      → count j fs ≡ 0
      → Chain s h fs
      → Chain (set s j v) h fs
  Chain-set s j v h _ absent (stop _ e) = stop h e
  Chain-set s j v h _ absent (visit _ i next is e lt here rest) = elim (ℕ_discrete j i) [
    | yes same ↦ absurd (ground arith)
    | no differ ↦
        visit h i next is e lt (get_or-set_ne s v raw differ ∙ here)
          (Chain-set s j v next is (omega arith) rest)
  ]

  -- What the head of a list tells, and what a member's slot holds.
  pub Chain-empty : {s : List (Slot A)} {h : ℕ} → Chain s h [] → h ≡ cap
  Chain-empty (stop h e) = e

  pub Chain-le : {s : List (Slot A)} {h : ℕ} {fs : List ℕ} → Chain s h fs → h ≤ cap
  Chain-le (stop h e) = omega arith
  Chain-le (visit h i next is e lt here rest) = omega arith

  pub Chain-nil : {s : List (Slot A)} {h : ℕ} {fs : List ℕ} → cap ≤ h → Chain s h fs → fs ≡ []
  Chain-nil out (stop h e) = refl
  Chain-nil out (visit h i next is e lt here rest) = absurd (omega arith)

  pub Chain-pos : {s : List (Slot A)} {h : ℕ} {fs : List ℕ} → h < cap → Chain s h fs → 0 < length fs
  Chain-pos inside (stop h e) = absurd (omega arith)
  Chain-pos inside (visit h i next is e lt here rest) = omega arith

  pub Chain-head :
      {s : List (Slot A)} {h i : ℕ} {is : List ℕ}
      → Chain s h (i ∷ is)
      → (h ≡ i) × (i < cap) × ((next : ℕ) × (get_or s i raw ≡ linked next) × Chain s next is)
  Chain-head (visit h i next is e lt here rest) = (e, lt, (next, here, rest))

  pub Chain-member :
      {s : List (Slot A)} {h : ℕ} {fs : List ℕ} (j : ℕ)
      → 0 < count j fs
      → Chain s h fs
      → (j < cap) × ((n : ℕ) × (get_or s j raw ≡ linked n))
  Chain-member j occurs (stop h e) = absurd (omega arith)
  Chain-member {s} j occurs (visit h i next is e lt here rest) = elim (ℕ_discrete i j) [
    | yes same ↦ (omega arith, (next, ap (λ t. get_or s t raw) (sym same) ∙ here))
    | no differ ↦ Chain-member j (ground arith) rest
  ]

  -- Linking the last slot to another one, which ends the list, puts that one behind the list.
  pub Chain-snoc :
      (s : List (Slot A)) (t j n : ℕ) (h : ℕ) (fs : List ℕ)
      → Chain s h fs
      → 0 < length fs
      → last_or t fs ≡ t
      → count t fs ≡ 1
      → t < length s
      → j < cap
      → j ≢ t
      → get_or s j raw ≡ linked n
      → n ≡ cap
      → Chain (set s t (linked j)) h (fs ++ j ∷ [])
  Chain-snoc s t j n h _ (stop _ e) ne last once inside hj differ end past = absurd (omega arith)
  Chain-snoc s t j n h _ (visit _ i next [] e lt here rest) ne last once inside hj differ end past =
      visit h i j (j ∷ []) e lt (get_or-set_self s (linked j) raw (sym last) inside) (
        visit j j n [] refl hj (get_or-set_ne s (linked j) raw (λ p. differ (sym p)) ∙ end)
          (stop n past))
  Chain-snoc s t j n h _ (visit _ i next (k ∷ is) e lt here rest) ne last once inside hj differ end
        past =
      visit h i next (k ∷ is ++ j ∷ []) e lt
        (get_or-set_ne s (linked j) raw (ground (arith, count-last k is)) ∙ here)
        (Chain-snoc s t j n next (k ∷ is) rest (omega arith) last (ground (arith, count-last k is))
          inside hj differ end past)
