-- ===== src/Emit.antt =====
-- .cursor/hooks/lib/emit_client.py: one request to the emit daemon and the reply to it. The bytes of
-- a reply come in chunks; decoding them and the JSON parser are parameters.
pub mod Canonical
pub mod Measurement
mod Replies
mod Contracts
mod Tests
use omnicursor.Prelude.{
  ℕ, ◌+◌, Bool, true, false, Option, none, some, List, [], ◌∷◌, ◌++◌, ◌==◌, any, ltb, length,
  if◌then◌else◌,
}
use omnicursor.Text.{Text, codes, same, is_empty, strip}
use omnicursor.Text.Split.{split}
use omnicursor.Json.{Json, Fields, end, field, obj, str, get}

-- `default_socket_path`
unfoldable pub default_socket_path : (Text → Text) → Text → Option Text → Text
default_socket_path expanduser home none = home ++ codes "/.omnicursor/emit.sock"
default_socket_path expanduser home (some env) =
    if is_empty env then home ++ codes "/.omnicursor/emit.sock" else expanduser env

abbrev pub newline : ℕ
newline = 10

abbrev pub max_response_bytes : ℕ
max_response_bytes = 1048576

-- The loop of `_request`. Each call of `recv` gives `none` for an OSError, or a chunk, which is
-- empty at the end of the stream; where the list ends the call runs into its timeout.
unfoldable pub receive : ℕ → List (Option Text) → Option Text
receive total [] = none
receive total (none ∷ calls) = none
receive total (some [] ∷ calls) = some []
receive total (some (c ∷ chunk) ∷ calls) =
    let read = total + length (c ∷ chunk) in
    let rest = receive read calls in
    if ltb max_response_bytes read
    then none
    else if any (λ b. b == newline) (c ∷ chunk)
    then some (c ∷ chunk)
    else elim rest [ some s ↦ some ((c ∷ chunk) ++ s) | none ↦ none ]

-- `….split(b"\n", 1)[0]`
unfoldable pub first_line : Text → Text
first_line [] = []
first_line (c ∷ s) = let rest = first_line s in if c == newline then [] else c ∷ rest

-- What a request meets: no socket, a connection that is refused, or a daemon and what it sends.
pub data Peer : Type 0 where
  no_socket refused : Peer
  connected : List (Option Text) → Peer

-- `isinstance(parsed, dict)`
abbrev pub object_of : Option Json → Option Fields
object_of none = none
object_of (some (obj fs)) = some fs
object_of (some v) = none

module _ (decode : Text → Text) (loads : Text → Option Json) where
  -- the reply behind the loop
  unfoldable pub parse_reply : Text → Option Fields
  parse_reply raw =
      let line = strip (decode (first_line raw)) in
      if is_empty line then none else object_of (loads line)

  abbrev pub reply_of : Option Text → Option Fields
  reply_of none = none
  reply_of (some raw) = parse_reply raw

  -- `_request`
  unfoldable pub request : Peer → Option Fields
  request no_socket = none
  request refused = none
  request (connected calls) = reply_of (receive 0 calls)

  unfoldable pub has_status : Text → Option Fields → Bool
  has_status status none = false
  has_status status (some response) = elim (get (codes "status") response) [
    | some (str s) ↦ same s status
    | some v ↦ false
    | none ↦ false
  ]

  -- `send_event`: whether the daemon queued the event
  unfoldable pub send_event : Peer → Bool
  send_event peer = has_status (codes "queued") (request peer)

  -- `daemon_available`
  unfoldable pub daemon_available : Peer → Bool
  daemon_available peer = has_status (codes "ok") (request peer)

-- the message of `send_event`
unfoldable pub event_message : Text → Fields → Fields
event_message event_type payload =
    field (codes "event_type") (str event_type) (field (codes "payload") (obj payload) end)
