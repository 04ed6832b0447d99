-- ===== src/Produce/Run/InOrder.antt =====
-- What is produced is what was asked for, in order.
use xmc.Prelude.{
  ℕ, zero, suc, Bool, true, false, not, ◌&&◌, ◌||◌, is_some, Option, none, some, List, [], ◌∷◌,
  ◌++◌, ◌≡◌, refl, sym, ap, ◌∙◌, append-nil, append_assoc, Text, trim_space, is_empty, map,
  if◌then◌else◌,
}
use xmc.Errors.{GoError}
use xmc.Backends.{Bytes}
use xmc.Produce.Records.{MessageRecord}
use xmc.Produce.Run.{
  Item, payload, record_item, Step, Steps, Produced, ProduceFlags, Input, Broker, emit_then,
  lines_loop, record_then, records_loop, context_then, count_loop, rounds, run_produce,
}

abbrev pub accepted_item : Step → List Item
accepted_item s = elim s.result [ none ↦ s.item ∷ [] | some e ↦ [] ]

-- The items that the broker took, the first one first.
abbrev pub accepted : Steps → List Item
accepted [] = []
accepted (s ∷ t) = accepted t ++ accepted_item s

abbrev pub add_record : Option MessageRecord → List Item → List Item
add_record none xs = []
add_record (some r) xs = record_item r ∷ xs

-- The records of the lines that are not blank, up to the first that cannot be read.
abbrev pub records_of : (Text → Option MessageRecord) → List Text → List Item
records_of parse [] = []
records_of parse (l ∷ ls) =
    let rest = records_of parse ls in
    if is_empty (trim_space l) then rest else add_record (parse (trim_space l)) rest

abbrev pub copies : ℕ → Bytes → List Item
copies zero body = []
copies (suc n) body = payload body ∷ copies n body

-- What the flags ask for.
abbrev pub planned_items : ProduceFlags → Input → List Item
planned_items f i =
    if f.ndjson
    then records_of i.parse i.input
    else if f.lines
    then map payload i.input
    else copies (rounds f.count) i.message

-- Whether every line that is not blank is a record.
abbrev pub all_records : (Text → Option MessageRecord) → List Text → Bool
all_records parse [] = true
all_records parse (l ∷ ls) =
    (is_empty (trim_space l) || is_some (parse (trim_space l))) && all_records parse ls

-- Whether all of the input that the flags ask for could be read.
abbrev pub is_readable : ProduceFlags → Input → Bool
is_readable f i =
    if f.ndjson
    then all_records i.parse i.input && not (is_some i.input_error)
    else if f.lines
    then not (is_some i.input_error)
    else not (is_some i.message_error)

-- The items taken are those before and the first of the plan; all of it, and the input was
-- readable, when there is no error.
record Prefix (before planned : List Item) (readable : Bool) (r : Produced) : Type 0 where
  pub left : List Item
  pub parts : before ++ planned ≡ accepted r.1 ++ left
  pub finished : r.0 ≡ none → (left ≡ []) × (readable ≡ true)

emit-Prefix :
    (x : Item) (e : Option GoError) (rest : Steps → Produced) (xs : List Item) (ok : Bool)
    (t : Steps)
    → ((u : Steps) → Prefix (accepted u) xs ok (rest u))
    → Prefix (accepted t) (x ∷ xs) ok (emit_then x e rest t)
unfolding emit_then
emit-Prefix x (some e) rest xs ok t k = record {
  left = x ∷ xs;
  parts = ap (λ y. y ++ x ∷ xs) (sym (append-nil (accepted t)));
  finished = λ h. cc;
}
emit-Prefix x none rest xs ok t k =
    let r = k (record { item = x; result = none } ∷ t) in
    record {
      left = r.left;
      parts = sym (append_assoc (accepted t) (x ∷ []) xs) ∙ r.parts;
      finished = r.finished;
    }

lines-Prefix :
    (b : Broker) (e : Option GoError) (ls : List Text) (t : Steps)
    → Prefix (accepted t) (map payload ls) (not (is_some e)) (lines_loop b e ls t)
unfolding lines_loop
lines-Prefix b e [] t = record { left = []; parts = refl; finished = λ h. (refl, rw h) }
lines-Prefix b e (l ∷ ls) t =
    emit-Prefix (payload l) (b.emit t (payload l)) (lines_loop b e ls) (map payload ls) _ t
      (lines-Prefix b e ls)

records-Prefix :
    (b : Broker) (i : Input) (ls : List Text) (t : Steps)
    → Prefix
        (accepted t)
        (records_of i.parse ls)
        (all_records i.parse ls && not (is_some i.input_error))
        (records_loop b i ls t)
unfolding records_loop record_then
records-Prefix b i [] t = record { left = []; parts = refl; finished = λ h. (refl, rw h) }
records-Prefix b i (l ∷ ls) t =
    go (is_empty (trim_space l)) (i.parse (trim_space l)) (records-Prefix b i ls)
  where
    go :
        (c : Bool) (r : Option MessageRecord)
        → ((u : Steps)
            → Prefix
                (accepted u)
                (records_of i.parse ls)
                (all_records i.parse ls && not (is_some i.input_error))
                (records_loop b i ls u))
        → Prefix
            (accepted t)
            (if c then records_of i.parse ls else add_record r (records_of i.parse ls))
            ((c || is_some r) && all_records i.parse ls && not (is_some i.input_error))
            (if c
              then records_loop b i ls t
              else record_then r b i.parse_error (records_loop b i ls) t)
    go true r k = k t
    go false none k = record { left = []; parts = refl; finished = λ h. cc }
    go false (some r) k =
        emit-Prefix (record_item r) (b.emit t (record_item r)) (records_loop b i ls) _ _ t k

count-Prefix :
    (b : Broker) (body : Bytes) (n : ℕ) (t : Steps)
    → Prefix (accepted t) (copies n body) true (count_loop b body n t)
unfolding count_loop context_then
count-Prefix b body zero t = record { left = []; parts = refl; finished = λ h. (refl, refl) }
count-Prefix b body (suc n) t = go (b.context_error t) (count-Prefix b body n)
  where
    go :
        (e : Option GoError)
        → ((u : Steps) → Prefix (accepted u) (copies n body) true (count_loop b body n u))
        → Prefix (accepted t) (copies (suc n) body) true (
            context_then e
              (λ u. emit_then (payload body) (b.emit u (payload body)) (count_loop b body n) u)
              t)
    go (some e) k = record { left = copies (suc n) body; parts = refl; finished = λ h. cc }
    go none k = emit-Prefix (payload body) (b.emit t (payload body)) (count_loop b body n) _ _ t k

-- What the broker took is, in order, the first items of those that the flags ask for, the rest of
-- which is left. When there is no error nothing is left, and all of the input could be read: every
-- line that is not blank as a record with --ndjson, and no error of the scanner or of the message.
pub run_produce-plan :
    (b : Broker) (f : ProduceFlags) (i : Input)
    → (left : List Item) × (planned_items f i ≡ accepted (run_produce b f i).1 ++ left)
      × ((run_produce b f i).0 ≡ none → (left ≡ []) × (is_readable f i ≡ true))
unfolding run_produce context_then
run_produce-plan b f i =
    let p = go f.ndjson f.lines i.message_error in (p.left, p.parts, p.finished)
  where
    counted :
        (e : Option GoError)
        → Prefix []
            (copies (rounds f.count) i.message)
            (not (is_some e))
            (context_then e (count_loop b i.message (rounds f.count)) [])
    counted (some e) = record { left = _; parts = refl; finished = λ h. cc }
    counted none = count-Prefix b i.message (rounds f.count) []

    go :
        (n l : Bool) (e : Option GoError)
        → Prefix []
            (if n
              then records_of i.parse i.input
              else if l
              then map payload i.input
              else copies (rounds f.count) i.message)
            (if n
              then all_records i.parse i.input && not (is_some i.input_error)
              else if l
              then not (is_some i.input_error)
              else not (is_some e))
            (if n
              then records_loop b i i.input []
              else if l
              then lines_loop b i.input_error i.input []
              else context_then e (count_loop b i.message (rounds f.count)) [])
    go true l e = records-Prefix b i i.input []
    go false true e = lines-Prefix b i.input_error i.input []
    go false false e = counted e
