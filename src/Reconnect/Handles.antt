-- ===== src/Reconnect/Handles.antt =====
-- The wrapper of cmd/reconnect.go holds at most one open adapter, loses none, and calls no other.
use xmc.Prelude.{
  ℕ, Bool, true, false, Option, none, some, List, [], ◌∷◌, Text, Option-cases, inl, inr,
}
use xmc.Errors.{GoError}
use xmc.Reconnect.{
  created, create_failed, shut, called, History, Environment, Adapter, made, create,
  ensure_connected, drop_adapter, reconnect, close, Operation, call_adapter, with_reconnect,
}
use xmc.Reconnect.Steps.{at, create_ok, create_fail, keep_method}

-- The protocol: the adapter that is open after a history. One is made only while none is open, and
-- only the open one is called or shut.
pub data Holds : History → Option ℕ → Type 0 where
  start : Holds [] none
  make : (t : History) → Holds t none → Holds (created (made t) ∷ t) (some (made t))
  fail : (e : GoError) (t : History) → Holds t none → Holds (create_failed e ∷ t) none
  drop : (h : ℕ) (t : History) → Holds t (some h) → Holds (shut h ∷ t) none
  use_it :
      (h : ℕ) (e : Option GoError) (t : History)
      → Holds t (some h)
      → Holds (called h e ∷ t) (some h)

abbrev pub IsSound : Adapter → Type 0
IsSound r = Holds r.history r.adapter

create-IsSound :
    (env : Environment) (c : Bool) (t : History)
    → Holds t none
    → IsSound (create env (at none c t)).1
create-IsSound env c t h = elim (Option-cases (env.factory t)) [
  | inl ok ↦ rw (create_ok env none c t ok) (make t h)
  | inr (e, bad) ↦ rw (create_fail env none c t e bad) (fail e t h)
]

pub ensure_connected-IsSound :
    (env : Environment) (a : Option ℕ) (c : Bool) (t : History)
    → Holds t a
    → IsSound (ensure_connected env (at a c t)).1
unfolding ensure_connected
ensure_connected-IsSound env a true t h = h
ensure_connected-IsSound env (some k) false t h = h
ensure_connected-IsSound env none false t h = create-IsSound env false t h

reconnect-IsSound :
    (env : Environment) (a : Option ℕ) (c : Bool) (t : History)
    → Holds t a
    → IsSound (reconnect env (at a c t)).1
unfolding reconnect drop_adapter
reconnect-IsSound env none c t h = create-IsSound env c t h
reconnect-IsSound env (some k) c t h = create-IsSound env c (shut k ∷ t) (drop k t h)

call_adapter-IsSound :
    {R : Type 0} (env : Environment) (op : Operation R) (result : R) (a : Option ℕ) (c : Bool)
    (t : History)
    → Holds t a
    → IsSound (call_adapter env op result (at a c t)).2
unfolding call_adapter
call_adapter-IsSound env op result none c t h = h
call_adapter-IsSound env op result (some k) c t h = use_it k _ t h

-- Close too.
pub close-IsSound :
    (env : Environment) (a : Option ℕ) (c : Bool) (t : History)
    → Holds t a
    → IsSound (close env (at a c t)).1
unfolding close drop_adapter
close-IsSound env none c t h = h
close-IsSound env (some k) c t h = drop k t h

-- Every method with the loop around it.
pub with_reconnect-IsSound :
    {R : Type 0} (env : Environment) (op : Operation R) (waits : List ℕ) (desc : Text) (nil : R)
    (r : Adapter)
    → IsSound r
    → IsSound (with_reconnect env op waits desc nil r).2
with_reconnect-IsSound env op waits desc nil r h =
    keep_method env op IsSound
      (λ result r'. call_adapter-IsSound env op result r'.adapter r'.closed r'.history)
      (λ r'. reconnect-IsSound env r'.adapter r'.closed r'.history) waits desc nil r
      (ensure_connected-IsSound env r.adapter r.closed r.history h)
