-- ===== src/Common/Outcome.antt =====
-- Rust's `Result<A, E>`, with the `?` operator as bind.
use mathlib.Core.Path.{◌≡◌, refl}
use mathlib.Core.Logic.{◌⊎◌, inl, inr}
use mathlib.Core.Bool.{Bool, true, false}
use mathlib.Core.List.{List, [], ◌∷◌}
use mathlib.Core.Option.{Option, none, some}

pub data Result {ℓ κ} (E : Type ℓ) (A : Type κ) : Type (ℓ ⊔ κ) where
  ok : A → Result E A
  err : E → Result E A

module _ {ℓ} {E : Type ℓ} where
  -- `anyhow::ensure!`
  abbrev pub ensure : (holds : Bool) (otherwise : E) → Result E (Unit {0})
  ensure false otherwise = err otherwise
  ensure true otherwise = ok tt

  -- The `?` of a value that is used, and of one that is not.
  infixl 5 ◌>>=◌ ◌>>◌
  abbrev pub ◌>>=◌ {κ μ} :
      {A : Type κ} {B : Type μ} (m : Result E A) (next : A → Result E B) → Result E B
  err stop >>= next = err stop
  ok a >>= next = next a

  abbrev pub ◌>>◌ {κ} : {B : Type κ} (m : Result E (Unit {0})) (next : Result E B) → Result E B
  m >> next = m >>= λ _. next

  pub >>=-eq-ok {κ μ} :
      {A : Type κ} {B : Type μ} (m : Result E A) (next : A → Result E B) {out : B}
      → (m >>= next) ≡ ok out
      → (x : A) × (m ≡ ok x) × (next x ≡ ok out)
  >>=-eq-ok (err stop) next h = cc
  >>=-eq-ok (ok x) next h = (x, refl, h)

  -- The same, where the next step is found from what is known of the whole.
  pub split_ok {κ μ} :
      {A : Type κ} {B : Type μ} (m : Result E A) (next : A → Result E B) (out : B)
      → (m >>= next) ≡ ok out
      → (x : A) × (m ≡ ok x) × (next x ≡ ok out)
  split_ok m next out h = >>=-eq-ok m next h

  -- `.map(f).collect::<Result<Vec<_>, _>>()`
  abbrev pub traverse {κ μ} :
      {A : Type κ} {B : Type μ} → (A → Result E B) → List A → Result E (List B)
  traverse f [] = ok []
  traverse f (x ∷ xs) = do y ← f x; ys ← traverse f xs; ok (y ∷ ys)

  -- `.map(f).transpose()`
  abbrev pub transpose {κ μ} :
      {A : Type κ} {B : Type μ} → (A → Result E B) → Option A → Result E (Option B)
  transpose f none = ok none
  transpose f (some x) = do y ← f x; ok (some y)

pub Result-cases {ℓ κ} :
    {E : Type ℓ} {A : Type κ} (r : Result E A) → ((a : A) × (r ≡ ok a)) ⊎ ((e : E) × (r ≡ err e))
Result-cases (ok a) = inl (a, refl)
Result-cases (err e) = inr (e, refl)
