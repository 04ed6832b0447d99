-- ===== src/Produce/Targets.antt =====
-- resolveProduceTarget of cmd/send.go and resolveConsumeTarget of cmd/receive.go. The errors are
-- told apart by their kind.
use xmc.Prelude.{
  Bool, not, ◌&&◌, Option, none, some, List, [], ◌∷◌, Text, ◌≡◌, refl, is_empty, length, ltb, leb,
  if◌then◌else◌,
}
use xmc.Errors.{GoError}

-- TargetSpec of cmd/root.go
pub record TargetSpec : Type 0 where
  pub is_topic : Bool
  pub to : Text
  pub exchange : Text
  pub queue : Text

-- (string, error) of a TargetResolver
pub data Resolved : Type 0 where
  dest : Text → Resolved
  unresolved : GoError → Resolved

-- The flags --exchange, --queue and --routing-key.
pub record RoutingFlags : Type 0 where
  pub exchange : Text
  pub queue : Text
  pub routing_key : Text

pub data TargetError : Type 0 where
  too_few both_flags unexpected no_destination : TargetError
  resolver_error : GoError → TargetError

pub data Target : Type 0 where
  target : Text → List Text → Target
  no_target : TargetError → Target

abbrev pub resolved_with : Resolved → List Text → Target
resolved_with (dest t) msg_args = target t msg_args
resolved_with (unresolved e) msg_args = no_target (resolver_error e)

abbrev pub first_or : List Text → Text
first_or [] = []
first_or (a ∷ args) = a

abbrev pub rest_of : List Text → List Text
rest_of [] = []
rest_of (a ∷ args) = args

-- What a switch leaves: an error, or the value of `to` and the message arguments.
pub data Parts : Type 0 where
  parts : Text → List Text → Parts
  bad : TargetError → Parts

-- The switch of resolveProduceTarget.
unfoldable pub produce_parts : RoutingFlags → List Text → Parts
produce_parts f args =
    if not (is_empty f.queue)
    then (if ltb 1 (length args) then bad unexpected else parts [] args)
    else if not (is_empty f.exchange)
    then (if not (is_empty f.routing_key)
        then parts f.routing_key args
        else if leb 2 (length args)
        then parts (first_or args) (rest_of args)
        else parts [] args)
    else if is_empty args
    then bad no_destination
    else parts (first_or args) (rest_of args)

-- The switch of resolveConsumeTarget; it has no message arguments.
unfoldable pub consume_parts : RoutingFlags → List Text → Parts
consume_parts f args =
    if not (is_empty f.queue)
    then (if is_empty args then parts [] [] else bad unexpected)
    else if not (is_empty f.exchange)
    then (if not (is_empty f.routing_key) then parts f.routing_key [] else parts (first_or args) [])
    else if is_empty args
    then bad no_destination
    else parts (first_or args) []

abbrev pub ask : (TargetSpec → Resolved) → Bool → RoutingFlags → Parts → Target
ask resolver is_topic f (bad e) = no_target e
ask resolver is_topic f (parts to msg_args) =
    resolved_with
      (resolver (record { is_topic = is_topic; to = to; exchange = f.exchange; queue = f.queue }))
      msg_args

abbrev pub positional : List Text → Target
positional [] = no_target too_few
positional (a ∷ args) = target a args

-- resolveProduceTarget
unfoldable pub resolve_produce_target :
    Option (TargetSpec → Resolved) → RoutingFlags → Bool → List Text → Target
unfolding produce_parts
resolve_produce_target none f is_topic args = positional args
resolve_produce_target (some resolver) f is_topic args =
    if not (is_empty f.exchange) && not (is_empty f.queue)
    then no_target both_flags
    else ask resolver is_topic f (produce_parts f args)

abbrev pub without_args : Target → Target
without_args (target t args) = target t []
without_args (no_target e) = no_target e

-- resolveConsumeTarget
unfoldable pub resolve_consume_target :
    Option (TargetSpec → Resolved) → RoutingFlags → Bool → List Text → Target
unfolding consume_parts
resolve_consume_target none f is_topic args = without_args (positional args)
resolve_consume_target (some resolver) f is_topic args =
    if not (is_empty f.exchange) && not (is_empty f.queue)
    then no_target both_flags
    else ask resolver is_topic f (consume_parts f args)

resolved_without :
    (r : Resolved) (xs : List Text) → without_args (resolved_with r xs) ≡ resolved_with r []
resolved_without (dest t) xs = refl
resolved_without (unresolved e) xs = refl

-- The arguments of a reader that stand for those of a writer with one message argument.
abbrev pub reader_args : RoutingFlags → Text → List Text
reader_args f to = if is_empty f.queue then to ∷ [] else []

abbrev pub writer_args : RoutingFlags → Text → Text → List Text
writer_args f to message = if is_empty f.queue then to ∷ message ∷ [] else message ∷ []

agree :
    (resolver : TargetSpec → Resolved) (is_topic : Bool) (to message exchange queue key : Text)
    → without_args (
        resolve_produce_target
          (some resolver)
          (record { exchange = exchange; queue = queue; routing_key = key })
          is_topic
          (if is_empty queue then to ∷ message ∷ [] else message ∷ []))
      ≡ resolve_consume_target
          (some resolver)
          (record { exchange = exchange; queue = queue; routing_key = key })
          is_topic
          (if is_empty queue then to ∷ [] else [])
unfolding resolve_produce_target resolve_consume_target produce_parts consume_parts
agree resolver is_topic to message [] [] key = resolved_without (resolver _) _
agree resolver is_topic to message [] (q ∷ queue) key = resolved_without (resolver _) _
agree resolver is_topic to message (e ∷ exchange) [] [] = resolved_without (resolver _) _
agree resolver is_topic to message (e ∷ exchange) [] (k ∷ key) = resolved_without (resolver _) _
agree resolver is_topic to message (e ∷ exchange) (q ∷ queue) key = refl

-- A command that writes a message given as its last argument and one that reads, with the same flags
-- --exchange, --queue and --routing-key and, unless --queue is given, the same destination argument
-- before it, ask for the same destination or fail alike. With --queue neither has a destination
-- argument.
pub targets_agree :
    (resolver : TargetSpec → Resolved) (f : RoutingFlags) (is_topic : Bool) (to message : Text)
    → without_args (resolve_produce_target (some resolver) f is_topic (writer_args f to message))
      ≡ resolve_consume_target (some resolver) f is_topic (reader_args f to)
targets_agree resolver f is_topic to message =
    agree resolver is_topic to message f.exchange f.queue f.routing_key
