-- ===== src/Http/Concurrent.antt =====
-- The proxy with any number of requests at once: each waits for its body and then for its answer,
-- and between two waits of one request the others go on.
pub mod Shut
use open_terminal_k8s_proxy.Base.{
  ℕ, zero, suc, ◌+◌, ◌≤◌, ◌<◌, ◌≡◌, ◌≢◌, refl, sym, ◌∙◌, ap, Bool, true, false, String, ◌==◌,
  Option, none, some, List, [], ◌∷◌, ◌++◌, length, truthy, inl, inr, if◌then◌else◌, Bool-cases,
  Option-cases, arith, eq_iff,
}
use open_terminal_k8s_proxy.Base.Exec.{
  Exn, Result, ok, err, Exec, pure, modify, ◌>>=◌, ◌>>◌, Exec-cases,
}
use open_terminal_k8s_proxy.Breaker.{CircuitBreaker, opened, asks, succeeds, fails, run, step}
use open_terminal_k8s_proxy.Breaker as Breaker
use open_terminal_k8s_proxy.Breaker.Registry.{breaker, breaker-apply, breaker-serve, serve, apply}
use open_terminal_k8s_proxy.Http.{
  Network, Proxy, Incoming, Upstream, Answer, ask, permitted, report, get_client, upstream,
}
use open_terminal_k8s_proxy.Http.Circuit.{keyed, outcome, run-keyed, report-breakers, excused_lem}
use open_terminal_k8s_proxy.Http.Parts.{Flight, depart, send_out, land}

pub data Stage : Type 0 where
  reading sent ended : Stage

-- The requests that were let through, in order, each with what it waits for.
pub record Traffic (W : Type 0) : Type 0 where
  pub proxy : Proxy W
  pub flights : List (Stage × Flight)

-- A request comes, for a pod; the body of the n-th request has come, or its client is gone; its
-- answer comes, or an exception; something else happens.
pub data Event (W : Type 0) : Type 0 where
  arrives : String → Incoming → String → Option String → Event W
  body_comes client_leaves : ℕ → Event W
  answered : ℕ → Result Answer → Event W
  elapses : W → Event W

abbrev pub flight_at : ℕ → List (Stage × Flight) → Option (Stage × Flight)
flight_at n [] = none
flight_at zero (f ∷ fs) = some f
flight_at (suc n) (f ∷ fs) = flight_at n fs

abbrev moved : Stage → Stage × Flight → Stage × Flight
moved g (old, f) = (g, f)

abbrev pub move : Stage → ℕ → List (Stage × Flight) → List (Stage × Flight)
move g n [] = []
move g zero (f ∷ fs) = moved g f ∷ fs
move g (suc n) (f ∷ fs) = f ∷ move g n fs

-- A request that was let through waits for its body.
abbrev taken : Result (Option Flight) → List (Stage × Flight) → List (Stage × Flight)
taken (ok (some f)) fs = fs ++ ((reading, f) ∷ [])
taken (ok none) fs = fs
taken (err e) fs = fs

module _ {W : Type 0} ⦃net : Network W⦄ where
  departs : ℕ → Option (Stage × Flight) → Traffic W → Traffic W
  departs n (some (reading, f)) y = record {
    proxy = (send_out f y.proxy).1;
    flights = move sent n y.flights;
  }
  departs n f y = y

  -- An exception of the wait for the body ends the request, and no breaker hears of it.
  drops : ℕ → Option (Stage × Flight) → Traffic W → Traffic W
  drops n (some (reading, f)) y = record y { flights = move ended n y.flights }
  drops n f y = y

  lands : ℕ → Result Answer → Option (Stage × Flight) → Traffic W → Traffic W
  lands n r (some (sent, f)) y = record {
    proxy = (land f r y.proxy).1;
    flights = move ended n y.flights;
  }
  lands n r f y = y

  -- What does not fit the stage of its request does not happen.
  unfoldable pub happen : Event W → Traffic W → Traffic W
  unfolding departs drops lands
  happen (arrives target_url request terminal_api_key pod_key) y =
      let (r, p) = depart target_url request terminal_api_key pod_key y.proxy in
      record { proxy = p; flights = taken r y.flights }
  happen (body_comes n) y = departs n (flight_at n y.flights) y
  happen (client_leaves n) y = drops n (flight_at n y.flights) y
  happen (answered n r) y = lands n r (flight_at n y.flights) y
  happen (elapses w) y = record y { proxy = record y.proxy { world = w } }

  unfoldable pub happen_all : List (Event W) → Traffic W → Traffic W
  happen_all [] y = y
  happen_all (e ∷ es) y = happen_all es (happen e y)

  -- The clock reads from `t` on and before `limit` whenever something happens.
  abbrev pub Within : ℕ → ℕ → List (Event W) → Traffic W → Type 0
  Within t limit [] y = Unit
  Within t limit (e ∷ es) y =
      (t ≤ (net.time y.proxy.world).0)
      × ((net.time y.proxy.world).0 < limit)
      × Within t limit es (happen e y)

abbrev is_for : String → Option String → Bool
is_for k none = false
is_for k (some key) = key == k

-- How many of the requests that were let through asked the pod's breaker: a request without the
-- pod's key asks none, and is not counted, wherever it goes.
abbrev pub let_through : String → List (Stage × Flight) → ℕ
let_through k [] = 0
let_through k ((g, f) ∷ fs) =
    let rest = let_through k fs in if is_for k f.key then suc rest else rest
