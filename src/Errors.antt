-- ===== src/Errors.antt =====
-- Go error values: the sentinels that the program tests for, errors of other libraries, and
-- wrapping with %w. broker/backends/errors.go, RequestSendError of broker/backends/request.go and
-- isConnectionError of cmd/reconnect.go.
pub mod Wrapping
use xmc.Prelude.{
  ℕ, ◌+◌, Bool, true, false, not, ◌&&◌, ◌||◌, Option, none, some, List, [], ◌∷◌, ◌++◌, Text, codes,
  map, contains, any, leb, ◌==◌, if◌then◌else◌, ◌≡◌, refl,
}

pub data Sentinel : Type 0 where
  canceled deadline_exceeded : Sentinel
  eof unexpected_eof : Sentinel
  econnreset econnrefused epipe econnaborted : Sentinel
  no_message_available browse_unsupported reply_mismatch : Sentinel

-- `foreign net t` is an error of a library with text `t`; `net` says whether net.Error is found in
-- its chain. `wrapped p e q` is fmt.Errorf with %w between the texts `p` and `q`.
pub data GoError : Type 0 where
  sentinel : Sentinel → GoError
  plain : Text → GoError
  foreign : Bool → Text → GoError
  wrapped : Text → GoError → Text → GoError
  request_send : GoError → GoError

abbrev pub sentinel_code : Sentinel → ℕ
sentinel_code canceled = 0
sentinel_code deadline_exceeded = 1
sentinel_code eof = 2
sentinel_code unexpected_eof = 3
sentinel_code econnreset = 4
sentinel_code econnrefused = 5
sentinel_code epipe = 6
sentinel_code econnaborted = 7
sentinel_code no_message_available = 8
sentinel_code browse_unsupported = 9
sentinel_code reply_mismatch = 10

-- errors.Is(err, target)
unfoldable pub is_error : GoError → Sentinel → Bool
is_error (sentinel s) target = sentinel_code s == sentinel_code target
is_error (plain t) target = false
is_error (foreign net t) target = false
is_error (wrapped p e q) target = is_error e target
is_error (request_send e) target = is_error e target

-- The sentinels that have the methods of net.Error: context's deadline and the system call errors.
abbrev pub is_net_sentinel : Sentinel → Bool
is_net_sentinel deadline_exceeded = true
is_net_sentinel econnreset = true
is_net_sentinel econnrefused = true
is_net_sentinel epipe = true
is_net_sentinel econnaborted = true
is_net_sentinel _ = false

-- errors.As(err, &netErr)
unfoldable pub is_net_error : GoError → Bool
is_net_error (sentinel s) = is_net_sentinel s
is_net_error (plain t) = false
is_net_error (foreign net t) = net
is_net_error (wrapped p e q) = is_net_error e
is_net_error (request_send e) = is_net_error e

abbrev pub sentinel_text : Sentinel → Text
sentinel_text canceled = codes "context canceled"
sentinel_text deadline_exceeded = codes "context deadline exceeded"
sentinel_text eof = codes "EOF"
sentinel_text unexpected_eof = codes "unexpected EOF"
sentinel_text econnreset = codes "connection reset by peer"
sentinel_text econnrefused = codes "connection refused"
sentinel_text epipe = codes "broken pipe"
sentinel_text econnaborted = codes "software caused connection abort"
sentinel_text no_message_available = codes "no message available"
sentinel_text browse_unsupported = codes "browse not supported by this backend"
sentinel_text reply_mismatch = codes "reply correlation id does not match request"

-- err.Error()
unfoldable pub error_text : GoError → Text
error_text (sentinel s) = sentinel_text s
error_text (plain t) = t
error_text (foreign net t) = t
error_text (wrapped p e q) = p ++ (error_text e ++ q)
error_text (request_send e) = codes "failed to send request: " ++ error_text e

-- unicode.ToLower on what it sends to an ASCII letter; the searched texts are ASCII, so other
-- letters may stay.
unfoldable pub to_lower : ℕ → ℕ
to_lower c =
    if leb b'A' c && leb c b'Z'
    then c + 32
    else if c == 0x212a
    then b'k'
    else if c == 0x130
    then b'i'
    else c

abbrev pub connection_substrings : List Text
connection_substrings =
    codes "connection refused"
    ∷ codes "connection reset"
    ∷ codes "connection closed"
    ∷ codes "broken pipe"
    ∷ codes "use of closed network connection"
    ∷ codes "no such host"
    ∷ codes "i/o timeout"
    ∷ codes "unexpected eof"
    ∷ codes "code = unavailable"
    ∷ codes "transport is closing"
    ∷ codes "no servers available"
    ∷ codes "not currently connected"
    ∷ []

unfoldable pub mentions_connection : Text → Bool
unfolding to_lower
mentions_connection msg = any (λ sub. contains (map to_lower msg) sub) connection_substrings

unfoldable pub is_connection_error : GoError → Bool
unfolding is_error is_net_error error_text mentions_connection
is_connection_error err =
    if is_error err canceled || is_error err deadline_exceeded
    then false
    else if is_error err eof || is_error err unexpected_eof
    then true
    else if is_error err econnreset
        || is_error err econnrefused
        || is_error err epipe
        || is_error err econnaborted
    then true
    else if is_net_error err
    then true
    else mentions_connection (error_text err)

grpc_unavailable :
    is_connection_error
      (wrapped (codes "publish: ") (plain (codes "rpc error: code = Unavailable desc = x")) [])
    ≡ true
unfolding is_connection_error
grpc_unavailable = refl
