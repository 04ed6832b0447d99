-- ===== src/Produce/Run.antt =====
-- runProduce of cmd/produce.go, forEachRecord of cmd/ndjson.go and forEachInputLine of
-- cmd/message_helpers.go. What is emitted goes to the broker, which answers from the steps before,
-- newest first.
pub mod InOrder
use xmc.Prelude.{
  ℕ, zero, suc, Bool, true, false, Option, none, some, List, [], ◌∷◌, Text, trim_space, is_empty, ℤ,
  pos, negsuc, if◌then◌else◌,
}
use xmc.Errors.{GoError}
use xmc.Backends.{Bytes}
use xmc.Produce.Records.{MessageRecord}

-- What emit and emitRecord are given.
pub data Item : Type 0 where
  payload : Bytes → Item
  record_item : MessageRecord → Item

-- An item with the result of its emitter.
pub record Step : Type 0 where
  pub item : Item
  pub result : Option GoError

abbrev pub Steps : Type 0
Steps = List Step

-- (error, and the steps up to then)
abbrev pub Produced : Type 0
Produced = Option GoError × Steps

-- The rest of produceFlags; a count below 1 emits nothing.
pub record ProduceFlags : Type 0 where
  pub ndjson : Bool
  pub lines : Bool
  pub count : ℤ

-- readCommandMessage gives the message or an error. `input` are the lines of the input and
-- `input_error` the scanner's error behind them; `parse` is json.Unmarshal with pruneMap.
pub record Input : Type 0 where
  pub message : Bytes
  pub message_error : Option GoError
  pub input : List Text
  pub input_error : Option GoError
  pub parse : Text → Option MessageRecord
  pub parse_error : GoError

pub record Broker : Type 0 where
  pub context_error : Steps → Option GoError
  pub emit : Steps → Item → Option GoError

-- An emitted item: the error ends the loop.
unfoldable pub emit_then : Item → Option GoError → (Steps → Produced) → Steps → Produced
emit_then x (some e) rest t = (some e, record { item = x; result = some e } ∷ t)
emit_then x none rest t = rest (record { item = x; result = none } ∷ t)

-- forEachInputLine
unfoldable pub lines_loop : Broker → Option GoError → List Text → Steps → Produced
unfolding emit_then
lines_loop b e [] t = (e, t)
lines_loop b e (l ∷ ls) t = emit_then (payload l) (b.emit t (payload l)) (lines_loop b e ls) t

-- A line of forEachRecord that is not blank.
unfoldable pub record_then :
    Option MessageRecord → Broker → GoError → (Steps → Produced) → Steps → Produced
unfolding emit_then
record_then none b bad rest t = (some bad, t)
record_then (some r) b bad rest t = emit_then (record_item r) (b.emit t (record_item r)) rest t

-- forEachRecord
unfoldable pub records_loop : Broker → Input → List Text → Steps → Produced
unfolding record_then
records_loop b i [] t = (i.input_error, t)
records_loop b i (l ∷ ls) t =
    if is_empty (trim_space l)
    then records_loop b i ls t
    else record_then (i.parse (trim_space l)) b i.parse_error (records_loop b i ls) t

unfoldable pub context_then : Option GoError → (Steps → Produced) → Steps → Produced
context_then (some e) rest t = (some e, t)
context_then none rest t = rest t

-- The counted loop
unfoldable pub count_loop : Broker → Bytes → ℕ → Steps → Produced
unfolding context_then emit_then
count_loop b body zero t = (none, t)
count_loop b body (suc n) t =
    context_then (b.context_error t)
      (λ u. emit_then (payload body) (b.emit u (payload body)) (count_loop b body n) u) t

abbrev pub rounds : ℤ → ℕ
rounds (pos n) = n
rounds (negsuc n) = 0

-- runProduce
unfoldable pub run_produce : Broker → ProduceFlags → Input → Produced
unfolding records_loop lines_loop context_then count_loop
run_produce b f i =
    if f.ndjson
    then records_loop b i i.input []
    else if f.lines
    then lines_loop b i.input_error i.input []
    else context_then i.message_error (count_loop b i.message (rounds f.count)) []
