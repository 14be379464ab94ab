-- ===== src/State/Client/Order.antt =====
-- Which reply a client takes for which request.
use zproc.Prelude.{All, ◌≡◌, refl, ap, Bool, true, false, none, some, List, [], ◌∷◌, map, arith}
use zproc.State.Client.{
  arrives, fails, Received, got, raised, Exchange, strict_request_reply, exchanges,
}

-- The reply of a call is read in it: by the first `recv`, or by the second.
unfoldable pub is_read : {A : Type 0} → Exchange A → Bool
is_read x = elim x.send_error [
  | some e ↦ true
  | none ↦ elim x.first [
    | arrives ↦ true
    | fails e ↦ elim x.second [ arrives ↦ true | fails e' ↦ false ]
  ]
]

-- What a call is to end with: its own answer, or an exception.
unfoldable pub own_outcome : {A : Type 0} → Exchange A → Received A
own_outcome x = elim x.send_error [
  | some e ↦ raised e
  | none ↦ elim x.first [ arrives ↦ got x.answer | fails e ↦ raised e ]
]

module _ {A : Type 0} where
  strict-read :
      (x : Exchange A) → is_read x ≡ true → strict_request_reply x [] ≡ (own_outcome x, [])
  unfolding strict_request_reply is_read own_outcome
  strict-read x h = ground (arith, h)

-- In a session with no reply left over, every call gets the answer to its own request, or raises the
-- exception that came first, and no reply is left over, provided that no call has its reply neither
-- read by the first `recv` nor by the second.
pub exchanges_lem :
    {A : Type 0} (xs : List (Exchange A))
    → All (λ x. is_read x ≡ true) xs
    → exchanges xs [] ≡ (map own_outcome xs, [])
unfolding exchanges
exchanges_lem [] h = refl
exchanges_lem (x ∷ xs) (here, h) = let e = strict-read x here in rw (e, exchanges_lem xs h)

-- What the calls end with when each reply is read by the call after its own.
unfoldable pub late {ℓ} : {A : Type 0} {B : Type ℓ} → (A → B) → A → List A → List B
late f r [] = []
late f r (x ∷ xs) = f r ∷ late f x xs

-- Once a reply is left over, calls that send and read one reply each all get the answer to the
-- request before their own, however many there are.
pub exchanges-late :
    {A : Type 0} (r : A) (xs : List (Exchange A))
    → All (λ x. (x.send_error ≡ none) × (x.first ≡ arrives)) xs
    → (exchanges xs (r ∷ [])).0 ≡ late got r (map (λ x. x.answer) xs)
unfolding exchanges late strict_request_reply
exchanges-late r [] h = refl
exchanges-late r (x ∷ xs) ((sent, read), h) =
    rw (sent, read) (ap (◌∷◌ (got r)) (exchanges-late x.answer xs h))
