-- ===== src/Produce/Records/RoundTrip.antt =====
-- A message that is exported and imported again.
use xmc.Prelude.{
  Bool, true, false, Option, none, some, [], ◌≡◌, refl, ap, Text, trim_space, is_empty,
  if◌then◌else◌,
}
use xmc.Values.{
  Value, null, boolean, number, string, array, object, Items, no_items, item, Fields, no_fields,
  field,
}
use xmc.Backends.{Bytes, Message, SendOptions}
use xmc.Produce.Records.{
  is_blank, add_item, add_field, array_of, object_of, prune_value, prune_items, prune_map,
  ImportFlags, resolve_key,
}

-- A value that is kept is kept again.
abbrev Kept : Option Value → Type 0
Kept none = Unit
Kept (some v) = prune_value v ≡ some v

string-Kept : (t : Text) → Kept (prune_value (string t))
string-Kept t = go (is_blank (trim_space t)) refl
  where
    go : (b : Bool) → is_blank (trim_space t) ≡ b → Kept (if b then none else some (string t))
    go true e = tt
    go false e = rw e refl

array-Kept : (xs : Items) → prune_items xs ≡ xs → Kept (array_of xs)
array-Kept no_items h = tt
array-Kept (item v xs) h = ap array_of h

object-Kept : (fs : Fields) → prune_map fs ≡ fs → Kept (object_of fs)
object-Kept no_fields h = tt
object-Kept (field k v fs) h = ap object_of h

add_item-Kept :
    (o : Option Value) (xs : Items)
    → Kept o
    → prune_items xs ≡ xs
    → prune_items (add_item o xs) ≡ add_item o xs
add_item-Kept none xs h k = k
add_item-Kept (some v) xs h k = rw (h, k) refl

add_field-Kept :
    (key : Text) (o : Option Value) (fs : Fields)
    → Kept o
    → prune_map fs ≡ fs
    → prune_map (add_field key o fs) ≡ add_field key o fs
add_field-Kept key none fs h k = k
add_field-Kept key (some v) fs h k = rw (h, k) refl

mutual
  value-Kept : (v : Value) → Kept (prune_value v)
  value-Kept null = tt
  value-Kept (boolean b) = refl
  value-Kept (number n) = refl
  value-Kept (string t) = string-Kept t
  value-Kept (array xs) = array-Kept (prune_items xs) (items_kept xs)
  value-Kept (object fs) = object-Kept (prune_map fs) (map_kept fs)

  items_kept : (xs : Items) → prune_items (prune_items xs) ≡ prune_items xs
  items_kept no_items = refl
  items_kept (item v xs) =
      add_item-Kept (prune_value v) (prune_items xs) (value-Kept v) (items_kept xs)

  map_kept : (fs : Fields) → prune_map (prune_map fs) ≡ prune_map fs
  map_kept no_fields = refl
  map_kept (field k v fs) =
      add_field-Kept k (prune_value v) (prune_map fs) (value-Kept v) (map_kept fs)

module _ (valid : Bytes → Bool) (encode : Bytes → Text) (decode : Text → Option Bytes)
    (decode-encode : (b : Bytes) → decode (encode b) ≡ some b)
    (encode-ne-nil : (b : Bytes) → valid b ≡ false → is_empty (encode b) ≡ false) where
  abbrev imported : Text → ImportFlags → Message → Fields → SendOptions
  imported queue pf m properties = record {
    queue = queue;
    message = m.payload;
    properties = properties;
    message_id = m.message_id;
    correlation_id = m.correlation_id;
    reply_to = m.reply_to;
    content_type = m.content_type;
    priority = m.priority;
    persistent = m.persistent;
    key = resolve_key pf m.key;
    ttl = pf.ttl;
    extra = [];
  }
