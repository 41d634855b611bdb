-- ===== src/WebSocket/Relay.antt =====
-- What the sockets of a session get, in terms of the messages of the other side alone.
use open_terminal_k8s_proxy.Base.{
  ◌≡◌, refl, Bool, true, false, String, none, List, [], ◌∷◌, ◌++◌, append_assoc, append-nil, ◌∙◌,
  sym, ap, ◌&&◌, not, if◌then◌else◌, arith, Bool-cases, inl, inr,
}
use open_terminal_k8s_proxy.Json.{Json}
use open_terminal_k8s_proxy.Models.{TerminalPod}
use open_terminal_k8s_proxy.WebSocket.{
  Frame, Event, from_client, from_upstream, client_raises, upstream_ends, Action, stop, skip, relay,
  Session, on_client_message, on_upstream_message, client_to_upstream, upstream_to_client, step,
  steps, auth_message, opened, finished, proxy_websocket, connected,
}

-- What a task relays of its actions: up to the first that ends it.
abbrev pub relayed : List (Action × Bool) → List Frame
relayed [] = []
relayed ((stop, delivered) ∷ acts) = []
relayed ((skip, delivered) ∷ acts) = relayed acts
relayed ((relay frame, true) ∷ acts) = frame ∷ relayed acts
relayed ((relay frame, false) ∷ acts) = []

-- Whether one of them ends it.
abbrev pub ends : List (Action × Bool) → Bool
ends [] = false
ends ((stop, delivered) ∷ acts) = true
ends ((skip, delivered) ∷ acts) = ends acts
ends ((relay frame, true) ∷ acts) = ends acts
ends ((relay frame, false) ∷ acts) = true

-- The actions of each side, in order.
abbrev pub client_actions : List Event → List (Action × Bool)
client_actions [] = []
client_actions (from_client message delivered ∷ es) =
    (on_client_message message, delivered) ∷ client_actions es
client_actions (from_upstream message delivered ∷ es) = client_actions es
client_actions (client_raises ∷ es) = (stop, true) ∷ client_actions es
client_actions (upstream_ends ∷ es) = client_actions es

abbrev pub upstream_actions : List Event → List (Action × Bool)
upstream_actions [] = []
upstream_actions (from_client message delivered ∷ es) = upstream_actions es
upstream_actions (from_upstream message delivered ∷ es) =
    (on_upstream_message message, delivered) ∷ upstream_actions es
upstream_actions (client_raises ∷ es) = upstream_actions es
upstream_actions (upstream_ends ∷ es) = (stop, true) ∷ upstream_actions es

-- A task alone: what it has sent, and whether it runs.
abbrev Side : Type 0
Side = List Frame × Bool

act : Action × Bool → Side → Side
act (stop, delivered) t = (t.0, false)
act (skip, delivered) t = t
act (relay frame, true) t = (t.0 ++ (frame ∷ []), t.1)
act (relay frame, false) t = (t.0, false)

acts : List (Action × Bool) → Side → Side
acts [] t = t
acts (a ∷ rest) t = acts rest (if t.1 then act a t else t)

acts_ended :
    (rest : List (Action × Bool)) (sent : List Frame) → acts rest (sent, false) ≡ (sent, false)
unfolding acts
acts_ended [] sent = refl
acts_ended (a ∷ rest) sent = acts_ended rest sent

acts_lem :
    (rest : List (Action × Bool)) (sent : List Frame)
    → acts rest (sent, true) ≡ (sent ++ relayed rest, not (ends rest))
unfolding acts act
acts_lem [] sent = rw (append-nil sent) refl
acts_lem ((stop, delivered) ∷ rest) sent = rw (acts_ended rest sent, append-nil sent) refl
acts_lem ((skip, delivered) ∷ rest) sent = acts_lem rest sent
acts_lem ((relay frame, true) ∷ rest) sent =
    rw (acts_lem rest (sent ++ (frame ∷ [])), append_assoc sent (frame ∷ []) (relayed rest)) refl
acts_lem ((relay frame, false) ∷ rest) sent = rw (acts_ended rest sent, append-nil sent) refl

abbrev client_side : Session → Side
client_side s = (s.to_upstream, s.client_task)

abbrev upstream_side : Session → Side
upstream_side s = (s.to_client, s.upstream_task)

client-own :
    (a : Action) (d : Bool) (s : Session)
    → (client_side (client_to_upstream a d s) ≡ act (a, d) (client_side s))
      × (upstream_side (client_to_upstream a d s) ≡ upstream_side s)
unfolding client_to_upstream act
client-own stop d s = (refl, refl)
client-own skip d s = (refl, refl)
client-own (relay frame) true s = (refl, refl)
client-own (relay frame) false s = (refl, refl)

upstream-own :
    (a : Action) (d : Bool) (s : Session)
    → (upstream_side (upstream_to_client a d s) ≡ act (a, d) (upstream_side s))
      × (client_side (upstream_to_client a d s) ≡ client_side s)
unfolding upstream_to_client act
upstream-own stop d s = (refl, refl)
upstream-own skip d s = (refl, refl)
upstream-own (relay frame) true s = (refl, refl)
upstream-own (relay frame) false s = (refl, refl)

-- The actions of one event.
step-sides :
    (e : Event) (s : Session)
    → (client_side (step e s) ≡ acts (client_actions (e ∷ [])) (client_side s))
      × (upstream_side (step e s) ≡ acts (upstream_actions (e ∷ [])) (upstream_side s))
unfolding step acts act
step-sides (from_client message d) s = elim (Bool-cases s.client_task) [
  | inl runs ↦ rw runs (client-own (on_client_message message) d (record s { client_task = true }))
  | inr over ↦ rw over (refl, refl)
]
step-sides (from_upstream message d) s = elim (Bool-cases s.upstream_task) [
  | inl runs ↦
      let (own, same) =
        upstream-own (on_upstream_message message) d (record s { upstream_task = true }) in
      rw runs (same, own)
  | inr over ↦ rw over (refl, refl)
]
step-sides client_raises s = elim (Bool-cases s.client_task) [
  | inl runs ↦ rw runs (refl, refl)
  | inr over ↦ rw over (refl, refl)
]
step-sides upstream_ends s = elim (Bool-cases s.upstream_task) [
  | inl runs ↦ rw runs (refl, refl)
  | inr over ↦ rw over (refl, refl)
]

one_more :
    (e : Event) (es : List Event) (t : Side)
    → (acts (client_actions (e ∷ es)) t
        ≡ acts (client_actions es) (acts (client_actions (e ∷ [])) t))
      × (acts (upstream_actions (e ∷ es)) t
          ≡ acts (upstream_actions es) (acts (upstream_actions (e ∷ [])) t))
unfolding acts
one_more (from_client message d) es t = (refl, refl)
one_more (from_upstream message d) es t = (refl, refl)
one_more client_raises es t = (refl, refl)
one_more upstream_ends es t = (refl, refl)

steps-sides :
    (es : List Event) (s : Session)
    → (client_side (steps es s) ≡ acts (client_actions es) (client_side s))
      × (upstream_side (steps es s) ≡ acts (upstream_actions es) (upstream_side s))
unfolding steps acts
steps-sides [] s = (refl, refl)
steps-sides (e ∷ es) s =
    let (client, upstream) = steps-sides es (step e s) in
    let (own, its) = step-sides e s in
    (
      client ∙ ap (acts (client_actions es)) own ∙ sym (one_more e es (client_side s)).0,
      upstream ∙ ap (acts (upstream_actions es)) its ∙ sym (one_more e es (upstream_side s)).1,
    )

client-closed : (a : Action) (d : Bool) (s : Session) → (client_to_upstream a d s).closed ≡ s.closed
unfolding client_to_upstream
client-closed stop d s = refl
client-closed skip d s = refl
client-closed (relay frame) true s = refl
client-closed (relay frame) false s = refl

upstream-closed :
    (a : Action) (d : Bool) (s : Session) → (upstream_to_client a d s).closed ≡ s.closed
unfolding upstream_to_client
upstream-closed stop d s = refl
upstream-closed skip d s = refl
upstream-closed (relay frame) true s = refl
upstream-closed (relay frame) false s = refl

-- While the tasks run, the client's socket is not closed.
steps-closed : (es : List Event) (s : Session) → (steps es s).closed ≡ s.closed
unfolding steps step
steps-closed [] s = refl
steps-closed (from_client message d ∷ es) s =
    steps-closed es (step (from_client message d) s)
    ∙ ground (arith, client-closed (on_client_message message) d s)
steps-closed (from_upstream message d ∷ es) s =
    steps-closed es (step (from_upstream message d) s)
    ∙ ground (arith, upstream-closed (on_upstream_message message) d s)
steps-closed (client_raises ∷ es) s = steps-closed es (step client_raises s)
steps-closed (upstream_ends ∷ es) s = steps-closed es (step upstream_ends s)

module _ (dumps : Json → String) (terminal : TerminalPod) (es : List Event) where
  abbrev session : Session
  session = proxy_websocket dumps terminal connected es

  -- A session that was connected closes the client's socket exactly when both directions have ended,
  -- and then once and with no code: the end of one alone, such as the client's disconnect, does not
  -- end it.
  pub proxy_websocket-closes :
      session.closed
      ≡ (if ends (client_actions es) && ends (upstream_actions es) then none ∷ [] else [])
  unfolding proxy_websocket finished opened
  proxy_websocket-closes =
      let last = steps es (opened dumps terminal) in
      let (client, upstream) = steps-sides es (opened dumps terminal) in
      let fresh : last.closed ≡ [] = steps-closed es (opened dumps terminal) in
      let c : last.client_task ≡ not (ends (client_actions es)) =
        ap (λ t. t.1) (client ∙ acts_lem (client_actions es) (auth_message dumps terminal ∷ [])) in
      let u : last.upstream_task ≡ not (ends (upstream_actions es)) =
        ap (λ t. t.1) (upstream ∙ acts_lem (upstream_actions es) []) in
      ground (arith, fresh, c, u)
