-- ===== src/WebSocket/Sessions.antt =====
-- `WebSocketProxy.get_session` and `close`: the aiohttp session of the process. All sessions that were
-- ever made are kept, so that one which nothing refers to any more can still be seen to be open.
use open_terminal_k8s_proxy.Base.{
  ◌≡◌, refl, ap, ◌⊎◌, inl, inr, Bool, true, false, List, [], ◌∷◌, map, All, if◌then◌else◌,
}

-- A session whose `close` is waited for is `closing`.
pub data ClientSession : Type 0 where
  live closing closed : ClientSession

-- `_session` is the first of `made`; before the first call it is `None`.
pub record Sessions : Type 0 where
  pub made : List ClientSession

abbrev pub no_sessions : Sessions
no_sessions = record { made = [] }

-- `early` is whether aiohttp says of a session that is closing that it is closed.
get_from : Bool → List ClientSession → List ClientSession
get_from early [] = live ∷ []
get_from early (live ∷ old) = live ∷ old
get_from early (closing ∷ old) = if early then live ∷ closing ∷ old else closing ∷ old
get_from early (closed ∷ old) = live ∷ closed ∷ old

unfoldable pub get_session : Bool → Sessions → Sessions
unfolding get_from
get_session early p = record { made = get_from early p.made }

-- Whether `close` closes, and waits.
abbrev pub closes : List ClientSession → Bool
closes (live ∷ old) = true
closes _ = false

-- `close` up to its wait.
begun_from : List ClientSession → List ClientSession
begun_from (live ∷ old) = closing ∷ old
begun_from made = made

unfoldable pub begin_close : Sessions → Sessions
unfolding begun_from
begin_close p = record { made = begun_from p.made }

-- And after it: the session that it waited for is closed, whatever was made meanwhile.
abbrev ended : ClientSession → ClientSession
ended live = live
ended closing = closed
ended closed = closed

unfoldable pub end_close : Sessions → Sessions
end_close p = record { made = map ended p.made }

abbrev pub IsClosed : ClientSession → Type 0
IsClosed s = s ≡ closed

-- All but the session of the proxy are closed, and that one is not closing.
abbrev pub NoneLost : List ClientSession → Type 0
NoneLost [] = Unit
NoneLost (s ∷ old) = ((s ≡ live) ⊎ (s ≡ closed)) × All IsClosed old

NoneLost-get_from :
    (early : Bool) (made : List ClientSession) → NoneLost made → NoneLost (get_from early made)
unfolding get_from
NoneLost-get_from early [] h = (inl refl, tt)
NoneLost-get_from early (live ∷ old) h = h
NoneLost-get_from early (closing ∷ old) (inl e, h) = cc
NoneLost-get_from early (closing ∷ old) (inr e, h) = cc
NoneLost-get_from early (closed ∷ old) (e, h) = (inl refl, (refl, h))

-- Asking for the session keeps this: it makes one only where none is open.
pub get_session-NoneLost :
    (early : Bool) (p : Sessions) → NoneLost p.made → NoneLost (get_session early p).made
unfolding get_session
get_session-NoneLost early p h = NoneLost-get_from early p.made h

All-ended : (old : List ClientSession) → All IsClosed old → All IsClosed (map ended old)
All-ended [] h = tt
All-ended (s ∷ old) (e, h) = (ap ended e, All-ended old h)

ended-begun :
    (made : List ClientSession) → NoneLost made → All IsClosed (map ended (begun_from made))
unfolding begun_from
ended-begun [] h = tt
ended-begun (live ∷ old) (e, h) = (refl, All-ended old h)
ended-begun (closing ∷ old) (e, h) = (refl, All-ended old h)
ended-begun (closed ∷ old) (e, h) = (refl, All-ended old h)

-- A `close` during which nobody asks for the session leaves none open.
pub end_close-IsClosed :
    (p : Sessions) → NoneLost p.made → All IsClosed (end_close (begin_close p)).made
unfolding end_close begin_close
end_close-IsClosed p h = ended-begun p.made h

-- And where there is nothing to close, none is open.
pub idle-IsClosed :
    (made : List ClientSession) → NoneLost made → closes made ≡ false → All IsClosed made
idle-IsClosed [] h e = tt
idle-IsClosed (live ∷ old) h e = cc
idle-IsClosed (closing ∷ old) (inl x, h) e = cc
idle-IsClosed (closing ∷ old) (inr x, h) e = cc
idle-IsClosed (closed ∷ old) (x, h) e = (refl, h)
