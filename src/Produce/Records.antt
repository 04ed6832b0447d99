-- ===== src/Produce/Records.antt =====
-- messageRecord, newMessageRecord and payload of cmd/ndjson.go, pruneMap and pruneValue of
-- cmd/message_schema.go on the values that JSON has, and the import of a record by doSend of
-- cmd/send.go. unicode/utf8, encoding/base64 and encoding/json are parameters.
pub mod RoundTrip
use xmc.Prelude.{
  ℕ, ◌+◌, Bool, true, false, not, ◌&&◌, ◌||◌, ◌==◌, Option, none, some, List, [], ◌∷◌, Text, codes,
  text_eq, trim_space, map, is_empty, leb, if◌then◌else◌,
}
use xmc.Values.{
  Value, null, boolean, number, string, array, object, Items, no_items, item, Fields, no_fields,
  field,
}
use xmc.Backends.{Bytes, Message, SendOptions, Extra}

-- strings.EqualFold with "<nil>", whose letters fold to ASCII letters only
abbrev pub ascii_lower : ℕ → ℕ
ascii_lower c = if leb b'A' c && leb c b'Z' then c + 32 else c

abbrev pub is_blank : Text → Bool
is_blank s = is_empty s || text_eq (map ascii_lower s) (codes "<nil>")

abbrev pub add_item : Option Value → Items → Items
add_item none xs = xs
add_item (some v) xs = item v xs

abbrev pub add_field : Text → Option Value → Fields → Fields
add_field k none fs = fs
add_field k (some v) fs = field k v fs

abbrev pub array_of : Items → Option Value
array_of no_items = none
array_of (item v xs) = some (array (item v xs))

abbrev pub object_of : Fields → Option Value
object_of no_fields = none
object_of (field k v fs) = some (object (field k v fs))

-- pruneValue, and pruneMap; none is `false`, and an empty map is nil.
abbrev mutual
  pub prune_value : Value → Option Value
  prune_value null = none
  prune_value (boolean b) = some (boolean b)
  prune_value (number n) = some (number n)
  prune_value (string t) = if is_blank (trim_space t) then none else some (string t)
  prune_value (array xs) = array_of (prune_items xs)
  prune_value (object fs) = object_of (prune_map fs)

  pub prune_items : Items → Items
  prune_items no_items = no_items
  prune_items (item v xs) = add_item (prune_value v) (prune_items xs)

  pub prune_map : Fields → Fields
  prune_map no_fields = no_fields
  prune_map (field k v fs) = add_field k (prune_value v) (prune_map fs)

-- messageRecord, less InternalMetadata, which this path never sets.
pub record MessageRecord : Type 0 where
  pub text_data : Bytes
  pub data_base64 : Text
  pub key : Text
  pub message_id : Text
  pub correlation_id : Text
  pub reply_to : Text
  pub content_type : Text
  pub priority : ℕ
  pub persistent : Bool
  pub properties : Fields

-- The flags that emitRecord uses: the key and the time to live.
pub record ImportFlags : Type 0 where
  pub key : Text
  pub ttl : ℕ

-- resolveKey
abbrev pub resolve_key : ImportFlags → Text → Text
resolve_key pf [] = pf.key
resolve_key pf (c ∷ key) = c ∷ key

module _ (valid : Bytes → Bool) (encode : Bytes → Text) (decode : Text → Option Bytes) where
  -- newMessageRecord with the payload
  unfoldable pub new_message_record : Message → MessageRecord
  new_message_record m = record {
    text_data = if valid m.payload then m.payload else [];
    data_base64 = if valid m.payload then [] else encode m.payload;
    key = m.key;
    message_id = m.message_id;
    correlation_id = m.correlation_id;
    reply_to = m.reply_to;
    content_type = m.content_type;
    priority = m.priority;
    persistent = m.persistent;
    properties = prune_map m.properties;
  }

  -- payload
  unfoldable pub record_payload : MessageRecord → Option Bytes
  record_payload r = if not (is_empty r.data_base64) then decode r.data_base64 else some r.text_data

  -- What emitRecord of doSend sends, for a record whose properties were pruned again by forEachRecord.
  unfoldable pub record_options : Text → ImportFlags → MessageRecord → Bytes → SendOptions
  record_options queue pf r body = record {
    queue = queue;
    message = body;
    properties = prune_map r.properties;
    message_id = r.message_id;
    correlation_id = r.correlation_id;
    reply_to = r.reply_to;
    content_type = r.content_type;
    priority = r.priority;
    persistent = r.persistent;
    key = resolve_key pf r.key;
    ttl = pf.ttl;
    extra = [];
  }

  unfoldable pub emit_record : Text → ImportFlags → MessageRecord → Option SendOptions
  unfolding record_payload record_options
  emit_record queue pf r = elim (record_payload r) [
    | none ↦ none
    | some body ↦ some (record_options queue pf r body)
  ]

  module _ (marshal : MessageRecord → Option Text) (unmarshal : Text → Option MessageRecord) where
    -- displayMessageNDJSON: the line that is written, unless json.Marshal fails.
    unfoldable pub export_line : Message → Option Text
    unfolding new_message_record
    export_line m = marshal (new_message_record m)

    -- A line of forEachRecord, given to emitRecord.
    unfoldable pub import_line : Text → ImportFlags → Text → Option SendOptions
    unfolding emit_record
    import_line queue pf line = elim (unmarshal line) [
      | none ↦ none
      | some r ↦ emit_record queue pf r
    ]
