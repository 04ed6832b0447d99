-- ===== src/Relay/Reads.antt =====
-- What a read of a relay loop has given, said of its message and its error.
use xmc.Prelude.{false, true, ◌||◌, none, some, [], ◌∷◌, ◌≡◌, ◌⊎◌, inl, inr, Text, text_eq_refl}
use xmc.Errors.{GoError, is_error, canceled, deadline_exceeded, no_message_available}
use xmc.Backends.{Bytes, Message, Read}
use xmc.Relay.{read_payload, if_named}

-- A message.
abbrev pub Gave : Read → Message → Type 0
Gave r m = (r.error ≡ none) × (r.message ≡ some m)

-- The loop was interrupted.
abbrev pub Cancelled : Read → Type 0
Cancelled r = (e : GoError) × (r.error ≡ some e) × (is_error e canceled ≡ true)

-- No message in time: neither a message nor an error, a deadline, or the error that says so.
abbrev pub Idle : Read → Type 0
Idle r =
    ((r.error ≡ none) × (r.message ≡ none))
    ⊎ ((e : GoError) × (r.error ≡ some e)
        × (is_error e canceled ≡ false)
        × (is_error e deadline_exceeded || is_error e no_message_available ≡ true))

-- Any other error.
abbrev pub Broken : Read → GoError → Type 0
Broken r e =
    (r.error ≡ some e)
    × (is_error e canceled ≡ false)
    × (is_error e deadline_exceeded || is_error e no_message_available ≡ false)

pub read_payload-Gave : (r : Read) (m : Message) → Gave r m → read_payload r ≡ m.payload ∷ []
read_payload-Gave r m (a, b) = rw (a, b)

pub read_payload-Cancelled : (r : Read) → Cancelled r → read_payload r ≡ []
read_payload-Cancelled r (e, a, b) = rw a

pub read_payload-Idle : (r : Read) → Idle r → read_payload r ≡ []
read_payload-Idle r (inl (a, b)) = rw (a, b)
read_payload-Idle r (inr (e, a, b, d)) = rw a

pub read_payload-Broken : (r : Read) (e : GoError) → Broken r e → read_payload r ≡ []
read_payload-Broken r e (a, b, d) = rw a

pub if_named_refl : (dest : Text) (b : Bytes) → if_named dest dest b ≡ b ∷ []
if_named_refl dest b = rw (text_eq_refl dest)
