-- ===== src/Prelude/Two.antt =====
-- A call that takes two objects of one class, and those on one of the two.
use mathlib.Core.Path.{◌≡◌, refl}
use metl.Prelude.Outcome.{Outcome, ret, thrown, stopped, undefined, M}

-- `*this` (or `lhs`) and `other` (or `rhs`).
pub record Both {ℓ} (S : Type ℓ) : Type ℓ where
  pub this : S
  pub other : S

module _ {ℓ κ} {S : Type ℓ} {B : Type κ} where
  abbrev pub on_this : M S B → M (Both S) B
  on_this m p = elim (m p.this) [
    | ret b v ↦ ret b (record { this = v; other = p.other })
    | thrown v ↦ thrown (record { this = v; other = p.other })
    | stopped ↦ stopped
    | undefined ↦ undefined
  ]

  abbrev pub on_other : M S B → M (Both S) B
  on_other m p = elim (m p.other) [
    | ret b v ↦ ret b (record { this = p.this; other = v })
    | thrown v ↦ thrown (record { this = p.this; other = v })
    | stopped ↦ stopped
    | undefined ↦ undefined
  ]

  module _ (m : M S B) (p : Both S) {b : B} {v : S} where
    pub on_this-ret :
        m p.this ≡ ret b v → on_this m p ≡ ret b (record { this = v; other = p.other })
    on_this-ret e = rw (e, on_this) refl

    pub on_other-ret :
        m p.other ≡ ret b v → on_other m p ≡ ret b (record { this = p.this; other = v })
    on_other-ret e = rw (e, on_other) refl

-- The two objects by their other names.
abbrev pub flip {ℓ} : {S : Type ℓ} → Both S → Both S
flip p = record { this = p.other; other = p.this }

-- What a call on the two by their other names ends in.
abbrev pub flipped {ℓ κ} : {S : Type ℓ} {B : Type κ} → Outcome (Both S) B → Outcome (Both S) B
flipped (ret b p) = ret b (flip p)
flipped (thrown p) = thrown (flip p)
flipped stopped = stopped
flipped undefined = undefined
