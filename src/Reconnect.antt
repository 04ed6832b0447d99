-- ===== src/Reconnect.antt =====
-- cmd/reconnect.go: the adapter that reconnects. A wrapped adapter is one object behind a mutex;
-- here it is a state, and each method is a function from state to result and state. What the
-- broker, the factory and the context answer is an environment: a function of all that has
-- happened before, newest first. The waits that the backoff library grants are a list, and the
-- library stops at its end.
mod Steps
pub mod Handles
pub mod Closed
pub mod Outcome
pub mod Delivered
pub mod Methods
use xmc.Prelude.{
  ℕ, ◌+◌, Bool, true, false, not, ◌||◌, Option, none, some, List, [], ◌∷◌, ◌++◌, Text, codes,
  if◌then◌else◌,
}
use xmc.Errors.{GoError, plain, wrapped, is_connection_error}

-- An adapter is named by a number: how many were made before it.
pub data Event : Type 0 where
  created : ℕ → Event
  create_failed : GoError → Event
  shut : ℕ → Event
  called : ℕ → Option GoError → Event

abbrev pub History : Type 0
History = List Event

pub record Environment : Type 0 where
  pub factory : History → Option GoError
  pub close_error : ℕ → History → Option GoError
  pub context_error : History → Option GoError
  -- the context's error if it ends during the wait
  pub interrupted : ℕ → History → Option GoError

-- reconnectingAdapter
pub record Adapter : Type 0 where
  pub adapter : Option ℕ
  pub closed : Bool
  pub history : History

abbrev pub initial : Adapter
initial = record { adapter = none; closed = false; history = [] }

unfoldable pub made : History → ℕ
made [] = 0
made (created h ∷ t) = made t + 1
made (create_failed e ∷ t) = made t
made (shut h ∷ t) = made t
made (called h e ∷ t) = made t

abbrev pub adapter_closed : GoError
adapter_closed = plain (codes "adapter closed")

-- `a, err := r.factory()` and the assignment of the adapter.
unfoldable pub create : Environment → Adapter → Option GoError × Adapter
unfolding made
create env r = elim (env.factory r.history) [
  | some e ↦ (some e, record r { history = create_failed e ∷ r.history })
  | none ↦ (
    none,
    record r { adapter = some (made r.history); history = created (made r.history) ∷ r.history },
  )
]

unfoldable pub ensure_connected : Environment → Adapter → Option GoError × Adapter
unfolding create
ensure_connected env r =
    if r.closed
    then (some adapter_closed, r)
    else elim r.adapter [ some h ↦ (none, r) | none ↦ create env r ]

-- The adapter is closed, its error dropped, and forgotten.
unfoldable pub drop_adapter : Adapter → Adapter
drop_adapter r = elim r.adapter [
  | none ↦ r
  | some h ↦ record r { adapter = none; history = shut h ∷ r.history }
]

unfoldable pub reconnect : Environment → Adapter → Option GoError × Adapter
unfolding create drop_adapter
reconnect env r = create env (drop_adapter r)

unfoldable pub close_result : Environment → Adapter → Option GoError
close_result env r = elim r.adapter [ none ↦ none | some h ↦ env.close_error h r.history ]

-- Close
unfoldable pub close : Environment → Adapter → Option GoError × Adapter
unfolding drop_adapter close_result
close env r = (close_result env r, record (drop_adapter r) { closed = true })

-- A method of the wrapped adapter, with its result and error; `R` is the type of the result.
abbrev pub Operation : Type 0 → Type 0
Operation R = ℕ → History → R × Option GoError

abbrev pub Outcome : Type 0 → Type 0
Outcome R = R × Option GoError × Adapter

-- `err == nil || !isConnectionError(err)`
unfoldable pub is_final : Option GoError → Bool
is_final none = true
is_final (some e) = not (is_connection_error e)

abbrev pub error_of {ℓ} : {R : Type ℓ} → R × Option GoError → Option GoError
error_of r = r.1

module _ {R : Type 0} (env : Environment) (op : Operation R) where
  -- The adapter's method, which the history records. The adapter is there: a reconnect succeeded.
  unfoldable pub call_adapter : R → Adapter → Outcome R
  call_adapter result r = elim r.adapter [
    | none ↦ (result, none, r)
    | some h ↦
        let (value, e) = op h r.history in (value, e, record r { history = called h e ∷ r.history })
  ]

  unfoldable pub exhausted : Text → Option GoError → GoError
  exhausted desc none = plain (codes "reconnect exhausted for " ++ (desc ++ codes ": %!w(<nil>)"))
  exhausted desc (some e) = wrapped (codes "reconnect exhausted for " ++ (desc ++ codes ": ")) e []

  -- The two tests at the top of the loop, of `ctx.Err()` and `r.closed`, then the round.
  unfoldable pub stop_or : Option GoError → Bool → Text → R → Adapter → Outcome R → Outcome R
  stop_or (some e) c desc result r round = (result, some e, r)
  stop_or none true desc result r round =
      (result, some (plain (desc ++ codes ": adapter closed")), r)
  stop_or none false desc result r round = round

  -- `again` goes on with the loop, given the last error.
  unfoldable pub after_call :
      (Option GoError → R → Adapter → Outcome R) → Bool → Outcome R → Outcome R
  after_call again true o = o
  after_call again false (value, e, r) = again e value r

  unfoldable pub after_reconnect :
      (Option GoError → R → Adapter → Outcome R) → R → Option GoError × Adapter → Outcome R
  unfolding after_call call_adapter is_final
  after_reconnect again result (some e, r) = again (some e) result r
  after_reconnect again result (none, r) =
      let o = call_adapter result r in after_call again (is_final o.1) o

  -- The wait ends by the context or by its time.
  unfoldable pub after_wait :
      (Option GoError → R → Adapter → Outcome R) → Option GoError → R → Adapter → Outcome R
  unfolding after_reconnect reconnect
  after_wait again (some e) result r = (result, some e, r)
  after_wait again none result r = after_reconnect again result (reconnect env r)

  -- retryOp; `result` is the variable that the operation's closure assigns.
  unfoldable pub retry_op : List ℕ → Text → Option GoError → R → Adapter → Outcome R
  unfolding stop_or exhausted after_wait
  retry_op [] desc last result r =
      stop_or (env.context_error r.history) r.closed desc result r
        (result, some (exhausted desc last), r)
  retry_op (wait ∷ waits) desc last result r =
      let round : Outcome R =
        after_wait (retry_op waits desc) (env.interrupted wait r.history) result r in
      stop_or (env.context_error r.history) r.closed desc result r round

  -- The first call, and the loop if it lost the connection.
  unfoldable pub after_ensure : List ℕ → Text → R → Option GoError × Adapter → Outcome R
  unfolding call_adapter retry_op is_final after_call
  after_ensure waits desc nil (some e, r) = (nil, some e, r)
  after_ensure waits desc nil (none, r) =
      let o = call_adapter nil r in
      after_call (λ last value r'. retry_op waits desc none nil r') (is_final o.1) o

  -- Send, Receive, Request, Publish and Subscribe are this with their own operation and text.
  unfoldable pub with_reconnect : List ℕ → Text → R → Adapter → Outcome R
  unfolding ensure_connected after_ensure
  with_reconnect waits desc nil r = after_ensure waits desc nil (ensure_connected env r)
