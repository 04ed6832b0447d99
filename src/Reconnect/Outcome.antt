-- ===== src/Reconnect/Outcome.antt =====
-- What a method of the wrapped adapter returns, and how often it calls the broker.
use xmc.Prelude.{
  ℕ, suc, ◌+◌, ◌≤◌, Bool, true, false, Option, none, some, List, [], ◌∷◌, ◌≡◌, refl, arith, Text,
  length, Option-cases, inl, inr,
}
use xmc.Errors.{GoError}
use xmc.Reconnect.{
  shut, called, History, Environment, Adapter, create, ensure_connected, drop_adapter, reconnect,
  Operation, Outcome, call_adapter, stop_or, after_call, after_reconnect, after_wait, retry_op,
  after_ensure, with_reconnect, is_final,
}
use xmc.Reconnect.Steps.{at, create_ok, create_fail}

-- How many calls of the adapter's method a history records.
abbrev pub calls : History → ℕ
calls [] = 0
calls (called h e ∷ t) = suc (calls t)
calls (_ ∷ t) = calls t

calls-create :
    (env : Environment) (a : Option ℕ) (c : Bool) (t : History)
    → calls (create env (at a c t)).1.history ≡ calls t
calls-create env a c t = elim (Option-cases (env.factory t)) [
  | inl ok ↦ rw (create_ok env a c t ok)
  | inr (e, bad) ↦ rw (create_fail env a c t e bad)
]

calls-reconnect :
    (env : Environment) (a : Option ℕ) (c : Bool) (t : History)
    → calls (reconnect env (at a c t)).1.history ≡ calls t
unfolding reconnect drop_adapter
calls-reconnect env none c t = calls-create env none c t
calls-reconnect env (some k) c t = calls-create env none c (shut k ∷ t)

calls-ensure_connected :
    (env : Environment) (a : Option ℕ) (c : Bool) (t : History)
    → calls (ensure_connected env (at a c t)).1.history ≡ calls t
unfolding ensure_connected
calls-ensure_connected env a true t = refl
calls-ensure_connected env (some k) false t = refl
calls-ensure_connected env none false t = calls-create env none false t

module _ {R : Type 0} (env : Environment) (op : Operation R) where
  abbrev calls_after : Outcome R → ℕ
  calls_after o = calls o.2.history

  calls-call_adapter :
      (result : R) (a : Option ℕ) (c : Bool) (t : History)
      → calls_after (call_adapter env op result (at a c t)) ≤ calls t + 1
  unfolding call_adapter
  calls-call_adapter result none c t = omega arith
  calls-call_adapter result (some k) c t = omega arith

  calls-stop_or :
      (x : Option GoError) (c : Bool) (desc : Text) (result : R) (r : Adapter) (round : Outcome R)
      (bound : ℕ)
      → calls r.history ≤ bound
      → calls_after round ≤ bound
      → calls_after (stop_or env op x c desc result r round) ≤ bound
  unfolding stop_or
  calls-stop_or (some e) c desc result r round bound h k = h
  calls-stop_or none true desc result r round bound h k = h
  calls-stop_or none false desc result r round bound h k = k

  calls-after_call :
      (again : Option GoError → R → Adapter → Outcome R) (b : Bool) (o : Outcome R) (n : ℕ)
      → ((e : Option GoError) (v : R) (r : Adapter)
          → calls_after (again e v r) ≤ calls r.history + n)
      → calls_after (after_call env op again b o) ≤ calls_after o + n
  unfolding after_call
  calls-after_call again true o n k = omega arith
  calls-after_call again false o n k = k o.1 o.0 o.2

  calls-after_wait :
      (again : Option GoError → R → Adapter → Outcome R) (x : Option GoError) (result : R)
      (r : Adapter) (n : ℕ)
      → ((e : Option GoError) (v : R) (r' : Adapter)
          → calls_after (again e v r') ≤ calls r'.history + n)
      → calls_after (after_wait env op again x result r) ≤ calls r.history + suc n
  unfolding after_wait after_reconnect
  calls-after_wait again (some e) result r n k = omega arith
  calls-after_wait again none result r n k =
      go (reconnect env r) (calls-reconnect env r.adapter r.closed r.history)
    where
      go :
          (p : Option GoError × Adapter)
          → calls p.1.history ≡ calls r.history
          → calls_after (after_reconnect env op again result p) ≤ calls r.history + suc n
      go (some e, r') h = omega (arith, k (some e) result r')
      go (none, r') h =
          let o = call_adapter env op result r' in
          omega (
            arith,
            calls-after_call again (is_final o.1) o n k,
            calls-call_adapter result r'.adapter r'.closed r'.history,
          )

  calls-retry_op :
      (waits : List ℕ) (desc : Text) (last : Option GoError) (result : R) (r : Adapter)
      → calls_after (retry_op env op waits desc last result r) ≤ calls r.history + length waits
  unfolding retry_op
  calls-retry_op [] desc last result r =
      calls-stop_or _ r.closed desc result r _ (calls r.history + 0) (omega arith) (omega arith)
  calls-retry_op (wait ∷ waits) desc last result r =
      calls-stop_or _ r.closed desc result r _ (calls r.history + suc (length waits)) (omega arith)
        (calls-after_wait (retry_op env op waits desc) (env.interrupted wait r.history) result r
          (length waits) (calls-retry_op waits desc))

  -- A method calls the broker at most once more often than the backoff grants waits.
  pub calls-with_reconnect :
      (waits : List ℕ) (desc : Text) (nil : R) (r : Adapter)
      → calls_after (with_reconnect env op waits desc nil r) ≤ calls r.history + suc (length waits)
  unfolding with_reconnect after_ensure
  calls-with_reconnect waits desc nil r =
      go (ensure_connected env r) (calls-ensure_connected env r.adapter r.closed r.history)
    where
      go :
          (p : Option GoError × Adapter)
          → calls p.1.history ≡ calls r.history
          → calls_after (after_ensure env op waits desc nil p)
            ≤ calls r.history + suc (length waits)
      go (some e, r') h = omega arith
      go (none, r') h =
          let o = call_adapter env op nil r' in
          omega (
            arith,
            calls-after_call (λ last value r''. retry_op env op waits desc none nil r'')
                (is_final o.1) o (length waits) (λ e v r''. calls-retry_op waits desc none nil r''),
            calls-call_adapter nil r'.adapter r'.closed r'.history,
          )
