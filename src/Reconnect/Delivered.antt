-- ===== src/Reconnect/Delivered.antt =====
-- A method of the wrapped adapter that returns no error has done its work on the open adapter.
use xmc.Prelude.{
  ℕ, Bool, true, false, Option, none, some, List, [], ◌∷◌, ◌≡◌, refl, ap, Text, Option-cases, inl,
  inr,
}
use xmc.Errors.{GoError}
use xmc.Reconnect.{
  called, History, Environment, Adapter, create, ensure_connected, drop_adapter, reconnect,
  Operation, Outcome, call_adapter, stop_or, after_call, after_reconnect, after_wait, retry_op,
  after_ensure, with_reconnect,
}
use xmc.Reconnect.Steps.{at, create_ok, create_fail}

-- No error means that an adapter is held.
abbrev Connects : Option GoError × Adapter → Type 0
Connects p = p.0 ≡ none → (k : ℕ) × (p.1.adapter ≡ some k)

create-Connects :
    (env : Environment) (a : Option ℕ) (c : Bool) (t : History) → Connects (create env (at a c t))
create-Connects env a c t = elim (Option-cases (env.factory t)) [
  | inl ok ↦ rw (create_ok env a c t ok) (λ e. (_, refl))
  | inr (e, bad) ↦ rw (create_fail env a c t e bad) (λ h. cc)
]

reconnect-Connects :
    (env : Environment) (a : Option ℕ) (c : Bool) (t : History)
    → Connects (reconnect env (at a c t))
unfolding reconnect drop_adapter
reconnect-Connects env none c t = create-Connects env none c t
reconnect-Connects env (some k) c t = create-Connects env none c _

ensure_connected-Connects :
    (env : Environment) (a : Option ℕ) (c : Bool) (t : History)
    → Connects (ensure_connected env (at a c t))
unfolding ensure_connected
ensure_connected-Connects env a true t = λ h. cc
ensure_connected-Connects env (some k) false t = λ h. (k, refl)
ensure_connected-Connects env none false t = create-Connects env none false t

module _ {R : Type 0} (env : Environment) (op : Operation R) where
  -- The last event is a call without error, on the adapter that is held, and its value is returned.
  pub record Delivered (o : Outcome R) : Type 0 where
    pub adapter : ℕ
    pub before : History
    pub held : o.2.adapter ≡ some adapter
    pub last : o.2.history ≡ called adapter none ∷ before
    pub returned : op adapter before ≡ (o.0, none)

  abbrev Delivers : Outcome R → Type 0
  Delivers o = o.1 ≡ none → Delivered o

  call-Delivers :
      (result : R) (a : Option ℕ) (c : Bool) (t : History)
      → (k : ℕ) × (a ≡ some k)
      → Delivers (call_adapter env op result (at a c t))
  unfolding call_adapter
  call-Delivers result none c t h e = absurd (cc (h.1))
  call-Delivers result (some k) c t h e = record {
    adapter = k;
    before = t;
    held = refl;
    last = ap (λ x. called k x ∷ t) e;
    returned = λ i. ((op k t).0, e i);
  }

  stop-Delivers :
      (x : Option GoError) (c : Bool) (desc : Text) (result : R) (r : Adapter) (round : Outcome R)
      → Delivers round
      → Delivers (stop_or env op x c desc result r round)
  unfolding stop_or
  stop-Delivers (some e) c desc result r round k h = absurd (cc)
  stop-Delivers none true desc result r round k h = absurd (cc)
  stop-Delivers none false desc result r round k h = k h

  after_call-Delivers :
      (again : Option GoError → R → Adapter → Outcome R) (b : Bool) (o : Outcome R)
      → ((e : Option GoError) (v : R) (r : Adapter) → Delivers (again e v r))
      → Delivers o
      → Delivers (after_call env op again b o)
  unfolding after_call
  after_call-Delivers again true o k h = h
  after_call-Delivers again false o k h = k o.1 o.0 o.2

  wait-Delivers :
      (again : Option GoError → R → Adapter → Outcome R) (x : Option GoError) (result : R)
      (r : Adapter)
      → ((e : Option GoError) (v : R) (r' : Adapter) → Delivers (again e v r'))
      → Delivers (after_wait env op again x result r)
  unfolding after_wait after_reconnect
  wait-Delivers again (some e) result r k = λ h. absurd (cc h)
  wait-Delivers again none result r k =
      go (reconnect env r) (reconnect-Connects env r.adapter r.closed r.history)
    where
      go :
          (p : Option GoError × Adapter)
          → Connects p
          → Delivers (after_reconnect env op again result p)
      go (some e, r') h = k (some e) result r'
      go (none, r') h =
          after_call-Delivers again _ (call_adapter env op result r') k
            (call-Delivers result r'.adapter r'.closed r'.history (h refl))

  retry-Delivers :
      (waits : List ℕ) (desc : Text) (last : Option GoError) (result : R) (r : Adapter)
      → Delivers (retry_op env op waits desc last result r)
  unfolding retry_op
  retry-Delivers [] desc last result r =
      stop-Delivers _ r.closed desc result r _ (λ h. absurd (cc h))
  retry-Delivers (wait ∷ waits) desc last result r = stop-Delivers _ r.closed desc result r _ (
      wait-Delivers (retry_op env op waits desc) (env.interrupted wait r.history) result r
        (retry-Delivers waits desc))

  -- A method that returns no error ends with a call of the adapter that is then held, which had no
  -- error either, and returns the value of that call.
  pub with_reconnect-Delivered :
      (waits : List ℕ) (desc : Text) (nil : R) (r : Adapter)
      → (with_reconnect env op waits desc nil r).1 ≡ none
      → Delivered (with_reconnect env op waits desc nil r)
  unfolding with_reconnect after_ensure
  with_reconnect-Delivered waits desc nil r =
      go (ensure_connected env r) (ensure_connected-Connects env r.adapter r.closed r.history)
    where
      go :
          (p : Option GoError × Adapter)
          → Connects p
          → Delivers (after_ensure env op waits desc nil p)
      go (some e, r') h = λ k. absurd (cc k)
      go (none, r') h =
          after_call-Delivers (λ last value r''. retry_op env op waits desc none nil r'') _
            (call_adapter env op nil r') (λ e v r''. retry-Delivers waits desc none nil r'')
            (call-Delivers nil r'.adapter r'.closed r'.history (h refl))
