-- ===== src/Prelude/Results.antt =====
-- Exceptions as values: the classes that the program raises or lets through, and the loops over a
-- list that stop at the first exception.
use mathlib.Core.Path.{◌≡◌, refl}
use mathlib.Core.Logic.{◌⊎◌, inl, inr}
use mathlib.Core.List.{List, [], ◌∷◌, ◌++◌, map}
use native.Mathlib.Omega.{arith}

-- `error_class n` is any further class of exception.
pub data Error : Type 0 where
  assertion_error value_error type_error key_error index_error struct_error : Error
  attribute_error pickling_error stop_iteration timeout_error zmq_again : Error
  runtime_error zero_division_error connection_error : Error
  -- zmq.ZMQError, with its errno
  zmq_error : Prim.Native.Nat.ℕ → Error
  error_class : Prim.Native.Nat.ℕ → Error

pub data Result {ℓ} (A : Type ℓ) : Type ℓ where
  ok : A → Result A
  raise : Error → Result A

infixl 5 ◌>>=◌
abbrev pub ◌>>=◌ {ℓ κ} : {A : Type ℓ} {B : Type κ} → Result A → (A → Result B) → Result B
ok a >>= f = f a
raise e >>= f = raise e

pub Result-cases {ℓ} :
    {A : Type ℓ} (r : Result A) → ((a : A) × (r ≡ ok a)) ⊎ ((e : Error) × (r ≡ raise e))
Result-cases (ok a) = inl (a, refl)
Result-cases (raise e) = inr (e, refl)

-- One list after the other, and the results joined.
abbrev pub join_results {ℓ} : {B : Type ℓ} → Result (List B) → Result (List B) → Result (List B)
join_results r s = do xs ← r; ys ← s; ok (xs ++ ys)

module _ {ℓ κ} {A : Type ℓ} {B : Type κ} where
  -- `[f(x) for x in xs]`, where `f` may raise
  unfoldable pub traverse : (A → Result B) → List A → Result (List B)
  traverse f [] = ok []
  traverse f (x ∷ xs) = do y ← f x; ys ← traverse f xs; ok (y ∷ ys)

  pub traverse-append :
      (f : A → Result B) (xs ys : List A)
      → traverse f (xs ++ ys) ≡ join_results (traverse f xs) (traverse f ys)
  unfolding traverse
  traverse-append f [] ys = ground arith
  traverse-append f (x ∷ xs) ys = ground (arith, traverse-append f xs ys)

-- `traverse` after `map`.
pub traverse-map {ℓ κ μ} :
    {A : Type ℓ} {B : Type κ} {C : Type μ} (f : B → Result C) (g : A → B) (xs : List A)
    → traverse f (map g xs) ≡ traverse (λ x. f (g x)) xs
unfolding traverse
traverse-map f g [] = refl
traverse-map f g (x ∷ xs) = ground (arith, traverse-map f g xs)
