-- ===== src/Reconnect/Steps.antt =====
-- An invariant of the adapter that its parts keep is kept by the loop and by every method.
use xmc.Prelude.{ℕ, Bool, true, false, Option, none, some, List, [], ◌∷◌, ◌≡◌, Text}
use xmc.Errors.{GoError}
use xmc.Reconnect.{
  History, created, create_failed, Environment, Adapter, made, create, reconnect, Operation,
  Outcome, call_adapter, stop_or, after_call, after_reconnect, after_wait, retry_op, after_ensure,
  with_reconnect, ensure_connected,
}

-- The state by its fields, so that the functions compute on it.
abbrev pub at : Option ℕ → Bool → History → Adapter
at a c h = record { adapter = a; closed = c; history = h }

module _ (env : Environment) (a : Option ℕ) (c : Bool) (h : History) where
  pub create_ok :
      env.factory h ≡ none
      → create env (at a c h) ≡ (none, at (some (made h)) c (created (made h) ∷ h))
  unfolding create
  create_ok e = rw (e, create)

  pub create_fail :
      (x : GoError)
      → env.factory h ≡ some x
      → create env (at a c h) ≡ (some x, at a c (create_failed x ∷ h))
  unfolding create
  create_fail x e = rw (e, create)

module _ {R : Type 0} (env : Environment) (op : Operation R) (P : Adapter → Type 0)
    (on_call : (result : R) (r : Adapter) → P r → P (call_adapter env op result r).2)
    (on_reconnect : (r : Adapter) → P r → P (reconnect env r).1) where
  keep_stop :
      (x : Option GoError) (c : Bool) (desc : Text) (result : R) (r : Adapter) (round : Outcome R)
      → P r
      → P round.2
      → P (stop_or env op x c desc result r round).2
  unfolding stop_or
  keep_stop (some e) c desc result r round h k = h
  keep_stop none true desc result r round h k = h
  keep_stop none false desc result r round h k = k

  keep_call :
      (again : Option GoError → R → Adapter → Outcome R) (b : Bool) (o : Outcome R)
      → ((e : Option GoError) (v : R) (r : Adapter) → P r → P (again e v r).2)
      → P o.2
      → P (after_call env op again b o).2
  unfolding after_call
  keep_call again true o k h = h
  keep_call again false o k h = k o.1 o.0 o.2 h

  keep_wait :
      (again : Option GoError → R → Adapter → Outcome R) (x : Option GoError) (result : R)
      (r : Adapter)
      → ((e : Option GoError) (v : R) (r' : Adapter) → P r' → P (again e v r').2)
      → P r
      → P (after_wait env op again x result r).2
  unfolding after_wait after_reconnect
  keep_wait again (some e) result r k h = h
  keep_wait again none result r k h = go (reconnect env r) (on_reconnect r h)
    where
      go : (p : Option GoError × Adapter) → P p.1 → P (after_reconnect env op again result p).2
      go (some e, r') h' = k (some e) result r' h'
      go (none, r') h' = keep_call again _ (call_adapter env op result r') k (on_call result r' h')

  pub keep_retry :
      (waits : List ℕ) (desc : Text) (last : Option GoError) (result : R) (r : Adapter)
      → P r
      → P (retry_op env op waits desc last result r).2
  unfolding retry_op
  keep_retry [] desc last result r h = keep_stop _ r.closed desc result r _ h h
  keep_retry (wait ∷ waits) desc last result r h = keep_stop _ r.closed desc result r _ h (
      keep_wait (retry_op env op waits desc) (env.interrupted wait r.history) result r
        (keep_retry waits desc) h)

  -- Whatever a method returns.
  pub keep_method :
      (waits : List ℕ) (desc : Text) (nil : R) (r : Adapter)
      → P (ensure_connected env r).1
      → P (with_reconnect env op waits desc nil r).2
  unfolding with_reconnect
  keep_method waits desc nil r = go (ensure_connected env r)
    where
      go : (p : Option GoError × Adapter) → P p.1 → P (after_ensure env op waits desc nil p).2
      go (some e, r') h = h
      go (none, r') h =
          keep_call (λ last value r''. retry_op env op waits desc none nil r'') _
            (call_adapter env op nil r') (λ e v r''. keep_retry waits desc none nil r'')
            (on_call nil r' h)
