-- ===== src/WebSocket.antt =====
-- terminal_proxy/proxy/websocket.py: `WebSocketProxy`. The two tasks of a session run whenever
-- their socket has something for them, so a session is a sequence of such events.
pub mod Relay
pub mod Sessions
use open_terminal_k8s_proxy.Base.{
  ℕ, Bool, true, false, String, ◌<>◌, Option, none, some, List, [], ◌∷◌, ◌++◌, ◌||◌, not, truthy,
  if◌then◌else◌,
}
use open_terminal_k8s_proxy.Json.{Json, texts}
use open_terminal_k8s_proxy.Models.{TerminalPod}

-- What is sent through a socket: `send_bytes` and `send_str` or `send_text`.
pub data Frame : Type 0 where
  binary text : String → Frame

-- A message of `client_ws.receive()`, with its `bytes` and `text`; of `upstream_ws`, by its type.
pub data ClientMessage : Type 0 where
  disconnect other : ClientMessage
  receive : Option String → Option String → ClientMessage

pub data UpstreamMessage : Type 0 where
  binary_message text_message : String → UpstreamMessage
  close error ignored : UpstreamMessage

-- A task gets a message, and the flag says whether the other socket takes what it sends of it or
-- raises; or its own socket raises, or has no more messages.
pub data Event : Type 0 where
  from_client : ClientMessage → Bool → Event
  from_upstream : UpstreamMessage → Bool → Event
  client_raises upstream_ends : Event

-- How `ws_connect` and the sending of the first message end.
pub data Connection : Type 0 where
  connected : Connection
  client_error : Connection
  failed : Connection

-- What a task does with a message.
pub data Action : Type 0 where
  stop skip : Action
  relay : Frame → Action

pub record Session : Type 0 where
  -- what the pod and the client have got, in order
  pub to_upstream : List Frame
  pub to_client : List Frame
  -- the tasks that still run
  pub client_task : Bool
  pub upstream_task : Bool
  -- the codes of the client's `close`; the last call gives none
  pub closed : List (Option ℕ)

unfoldable pub on_client_message : ClientMessage → Action
on_client_message disconnect = stop
on_client_message other = skip
on_client_message (receive bytes str) = elim (truthy bytes) [
  | some payload ↦ relay (binary payload)
  | none ↦ elim (truthy str) [ some s ↦ relay (text s) | none ↦ skip ]
]

unfoldable pub on_upstream_message : UpstreamMessage → Action
on_upstream_message (binary_message payload) = relay (binary payload)
on_upstream_message (text_message payload) = relay (text payload)
on_upstream_message close = stop
on_upstream_message error = stop
on_upstream_message ignored = skip

-- A round of `client_to_upstream`; what raises ends the task.
unfoldable pub client_to_upstream : Action → Bool → Session → Session
client_to_upstream stop delivered s = record s { client_task = false }
client_to_upstream skip delivered s = s
client_to_upstream (relay frame) true s = record s { to_upstream = s.to_upstream ++ (frame ∷ []) }
client_to_upstream (relay frame) false s = record s { client_task = false }

-- And of `upstream_to_client`.
unfoldable pub upstream_to_client : Action → Bool → Session → Session
upstream_to_client stop delivered s = record s { upstream_task = false }
upstream_to_client skip delivered s = s
upstream_to_client (relay frame) true s = record s { to_client = s.to_client ++ (frame ∷ []) }
upstream_to_client (relay frame) false s = record s { upstream_task = false }

-- A task that has ended takes no more messages.
unfoldable pub step : Event → Session → Session
step (from_client message delivered) s =
    let next = client_to_upstream (on_client_message message) delivered s in
    if s.client_task then next else s
step (from_upstream message delivered) s =
    let next = upstream_to_client (on_upstream_message message) delivered s in
    if s.upstream_task then next else s
step client_raises s = record s { client_task = false }
step upstream_ends s = record s { upstream_task = false }

unfoldable pub steps : List Event → Session → Session
steps [] s = s
steps (e ∷ es) s = steps es (step e s)

-- `asyncio.gather` waits for both tasks.
abbrev pub is_running : Session → Bool
is_running s = s.client_task || s.upstream_task

unfoldable pub ws_url : TerminalPod → String → String
ws_url terminal path = "ws://" <> terminal.service_name <> ":8000" <> path

module _ (dumps : Json → String) where
  -- `json.dumps({"type": "auth", "token": terminal.api_key})`
  unfoldable pub auth_message : TerminalPod → Frame
  auth_message terminal = text (dumps (texts (("type", "auth") ∷ ("token", terminal.api_key) ∷ [])))

  -- The session when both tasks have been started.
  unfoldable pub opened : TerminalPod → Session
  opened terminal = record {
    to_upstream = auth_message terminal ∷ [];
    to_client = [];
    client_task = true;
    upstream_task = true;
    closed = [];
  }

  -- A session that ended before its tasks started, or after they ended: the `except` clauses, and
  -- the `finally` that closes the client's socket.
  unfoldable pub refused : Session
  refused = record {
    to_upstream = [];
    to_client = [];
    client_task = false;
    upstream_task = false;
    closed = some 1011 ∷ none ∷ [];
  }

  unfoldable pub finished : Session → Session
  finished s = if is_running s then s else record s { closed = none ∷ [] }

  -- The session after some events; it has ended if `closed` has an entry.
  unfoldable pub proxy_websocket : TerminalPod → Connection → List Event → Session
  proxy_websocket terminal connected es = finished (steps es (opened terminal))
  proxy_websocket terminal client_error es = refused
  proxy_websocket terminal failed es = refused
