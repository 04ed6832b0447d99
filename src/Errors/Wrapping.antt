-- ===== src/Errors/Wrapping.antt =====
-- Wrapping an error does not lose that it is a connection error.
use xmc.Prelude.{
  Bool, true, false, List, [], ◌∷◌, ◌++◌, Text, codes, map, map-append, append-nil, ◌⊎◌, ◌≡◌, refl,
  arith, has_prefix, contains, any,
}
use xmc.Errors.{
  GoError, wrapped, request_send, canceled, deadline_exceeded, is_error, error_text, to_lower,
  connection_substrings, mentions_connection, is_connection_error,
}

has_prefix-append : (s t sub : Text) → has_prefix s sub ≡ true → has_prefix (s ++ t) sub ≡ true
has_prefix-append s t [] h = refl
has_prefix-append [] t (p ∷ ps) h = cc
has_prefix-append (c ∷ s) t (p ∷ ps) h = ground (arith, has_prefix-append s t ps)

contains_of_prefix : (s sub : Text) → has_prefix s sub ≡ true → contains s sub ≡ true
contains_of_prefix [] sub h = h
contains_of_prefix (c ∷ s) sub h = rw h

contains-append_right : (s t sub : Text) → contains s sub ≡ true → contains (s ++ t) sub ≡ true
contains-append_right [] t sub h = contains_of_prefix t sub (has_prefix-append [] t sub h)
contains-append_right (c ∷ s) t sub h =
    ground (arith, has_prefix-append (c ∷ s) t sub, contains-append_right s t sub)

contains-append_left : (s t sub : Text) → contains t sub ≡ true → contains (s ++ t) sub ≡ true
contains-append_left [] t sub h = h
contains-append_left (c ∷ s) t sub h = ground (arith, contains-append_left s t sub h)

any_mono {ℓ} :
    {A : Type ℓ} (p q : A → Bool) (xs : List A)
    → ((x : A) → p x ≡ true → q x ≡ true)
    → any p xs ≡ true
    → any q xs ≡ true
any_mono p q [] h e = e
any_mono p q (x ∷ xs) h e = ground (arith, h x, any_mono p q xs h)

contains-middle :
    (p m q sub : Text)
    → contains (map to_lower m) sub ≡ true
    → contains (map to_lower (p ++ (m ++ q))) sub ≡ true
contains-middle p m q sub e =
    rw (map-append, map-append)
      (contains-append_left (map to_lower p) _ sub
        (contains-append_right (map to_lower m) (map to_lower q) sub e))

mentions-wrapped :
    (p m q : Text) → mentions_connection m ≡ true → mentions_connection (p ++ (m ++ q)) ≡ true
unfolding mentions_connection
mentions-wrapped p m q =
    any_mono (λ sub. contains (map to_lower m) sub)
      (λ sub. contains (map to_lower (p ++ (m ++ q))) sub) connection_substrings
      (contains-middle p m q)

mentions-send :
    (m : Text)
    → mentions_connection m ≡ true
    → mentions_connection (codes "failed to send request: " ++ m) ≡ true
mentions-send m h = rw append-nil at (mentions-wrapped (codes "failed to send request: ") m [] h)

-- A connection error stays one when it is wrapped, with any text, or as a send error of a request.
pub connection_error-wrapped :
    (p q : Text) (e : GoError)
    → is_connection_error e ≡ true
    → (is_connection_error (wrapped p e q) ≡ true) × (is_connection_error (request_send e) ≡ true)
unfolding is_connection_error mentions_connection
connection_error-wrapped p q e h = (
  ground (arith, mentions-wrapped p (error_text e) q),
  ground (arith, mentions-send (error_text e)),
)

-- However deep it is wrapped, a cancelled or expired context is no connection error.
pub context_error-ne-connection_error :
    (e : GoError)
    → (is_error e canceled ≡ true) ⊎ (is_error e deadline_exceeded ≡ true)
    → is_connection_error e ≡ false
unfolding is_connection_error
context_error-ne-connection_error e h = ground arith
