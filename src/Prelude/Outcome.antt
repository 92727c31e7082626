-- ===== src/Prelude/Outcome.antt =====
-- What a call of a member function ends in, with the object's state threaded through.
use mathlib.Core.Path.{◌≡◌, refl, sym, ap, ◌∙◌, subst}
use mathlib.Core.Bool.{Bool, true, false}

-- `thrown`: an element's constructor threw, and the object is left in the state given.
-- `stopped`: METL_ASSERT or METL_HARDEN failed, and the program does not go on.
-- `undefined`: the call touched storage that holds no object, or is outside the array.
pub data Outcome {ℓ κ} (S : Type ℓ) (A : Type κ) : Type (ℓ ⊔ κ) where
  ret : A → S → Outcome S A
  thrown : S → Outcome S A
  stopped : Outcome S A
  undefined : Outcome S A

abbrev pub M {ℓ κ} : Type ℓ → Type κ → Type (ℓ ⊔ κ)
M S A = S → Outcome S A

module _ {ℓ κ μ} {S : Type ℓ} {A : Type κ} {B : Type μ} where
  infixl 5 ◌>>=◌ ◌>>◌
  abbrev pub ◌>>=◌ : M S A → (A → M S B) → M S B
  ◌>>=◌ m f s = elim (m s) [
    | ret a t ↦ f a t
    | thrown t ↦ thrown t
    | stopped ↦ stopped
    | undefined ↦ undefined
  ]

  abbrev pub ◌>>◌ : M S A → M S B → M S B
  m >> k = m >>= λ _. k

module _ {ℓ κ μ} {S : Type ℓ} {A : Type κ} {B : Type μ} where
  -- A call that returns, before what follows it.
  pub >>=-ret :
      (m : M S A) (f : A → M S B) (s : S) {a : A} {t : S} → m s ≡ ret a t → (m >>= f) s ≡ f a t
  >>=-ret m f s e = rw (e, ◌>>=◌) refl

  pub >>-ret : (m : M S A) (k : M S B) (s : S) {a : A} {t : S} → m s ≡ ret a t → (m >> k) s ≡ k t
  >>-ret m k s e = >>=-ret m (λ _. k) s e

  -- A call that does not return ends the sequence.
  pub >>=-thrown :
      (m : M S A) (f : A → M S B) (s : S) {t : S} → m s ≡ thrown t → (m >>= f) s ≡ thrown t
  >>=-thrown m f s e = rw (e, ◌>>=◌) refl

  pub >>=-stopped : (m : M S A) (f : A → M S B) (s : S) → m s ≡ stopped → (m >>= f) s ≡ stopped
  >>=-stopped m f s e = rw (e, ◌>>=◌) refl

-- METL_ASSERT at its default level, and METL_HARDEN at every level.
abbrev pub check {ℓ} : {S : Type ℓ} → Bool → M S (Unit {0})
check true s = ret tt s
check false s = stopped

-- A concrete outcome implements an abstract one: the same value, exception or stop, with related
-- states. An undefined outcome implements nothing.
pub data Implements {ℓ κ μ ν} {S : Type ℓ} {T : Type κ} {A : Type μ} (R : S → T → Type ν)
    (o : Outcome S A) (spec : Outcome T A) : Type (ℓ ⊔ κ ⊔ μ ⊔ ν) where
  returns : (a : A) (s : S) (t : T) → o ≡ ret a s → spec ≡ ret a t → R s t → Implements R o spec
  throws : (s : S) (t : T) → o ≡ thrown s → spec ≡ thrown t → R s t → Implements R o spec
  stops : o ≡ stopped → spec ≡ stopped → Implements R o spec

module _ {ℓ κ μ ν π} {S : Type ℓ} {T : Type κ} {A : Type μ} {B : Type ν} (R : S → T → Type π) where
  -- Sequencing keeps the refinement.
  pub bind-Implements :
      (m : M S A) (n : M T A) (f : A → M S B) (g : A → M T B) (s : S) (t : T)
      → Implements R (m s) (n t)
      → ((a : A) (s' : S) (t' : T) → R s' t' → Implements R (f a s') (g a t'))
      → Implements R ((m >>= f) s) ((n >>= g) t)
  bind-Implements m n f g s t (returns a s' t' p q r) next =
      rw (p, ◌>>=◌) (rw (q, ◌>>=◌) (next a s' t' r))
  bind-Implements m n f g s t (throws s' t' p q r) next =
      throws s' t' (rw (p, ◌>>=◌)) (rw (q, ◌>>=◌)) r
  bind-Implements m n f g s t (stops p q) next = stops (rw (p, ◌>>=◌)) (rw (q, ◌>>=◌))

ret-inner {ℓ κ} :
    {T : Type ℓ} {A : Type κ} {a b : A} {s t : T}
    → ◌≡◌ {A = Outcome T A} (ret a s) (ret b t)
    → (a ≡ b) × (s ≡ t)
ret-inner e = (cc e, cc e)

module _ {ℓ κ μ ν} {S : Type ℓ} {T : Type κ} {A : Type μ} {R : S → T → Type ν} where
  -- Where the abstract call returns, so does the concrete one.
  pub Implements-ret :
      {o : Outcome S A} {spec : Outcome T A} (a : A) (t : T)
      → Implements R o spec
      → spec ≡ ret a t
      → (s : S) × (o ≡ ret a s) × R s t
  Implements-ret {o} a t (returns b s u p q r) e =
      let (same, end) = ret-inner (sym q ∙ e) in (s, p ∙ ap (λ x. ret x s) same, subst (R s) end r)
  Implements-ret a t (throws s u p q r) e = absurd (cc (sym q ∙ e))
  Implements-ret a t (stops p q) e = absurd (cc (sym q ∙ e))

module _ {ℓ κ μ} {S : Type ℓ} {A : Type κ} {B : Type μ} where
  -- A sequence that returns: what its first call returned.
  pub >>-inverse :
      (m : M S A) (k : M S B) (s : S) (b : B) (t : S)
      → (m >> k) s ≡ ret b t
      → (a : A) × (s' : S) × (m s ≡ ret a s') × (k s' ≡ ret b t)
  >>-inverse m k s b t h = from (m s) refl h
    where
      from :
          (o : Outcome S A)
          → m s ≡ o
          → (elim o [
            | ret a s' ↦ k s'
            | thrown s' ↦ thrown s'
            | stopped ↦ stopped
            | undefined ↦ undefined
          ])
            ≡ ret b t
          → (a : A) × (s' : S) × (m s ≡ ret a s') × (k s' ≡ ret b t)
      from (ret a s') e h = (a, s', e, h)
      from (thrown s') e h = absurd (cc h)
      from stopped e h = absurd (cc h)
      from undefined e h = absurd (cc h)
