-- ===== src/Http/Concurrent/Shut.antt =====
-- An open circuit while requests that it let through are still under way.
use open_terminal_k8s_proxy.Base.{
  ℕ, zero, suc, ◌+◌, ◌≤◌, ◌<◌, ◌≡◌, refl, ◌∙◌, ap, String, ◌==◌, Option, none, some, List, [], ◌∷◌,
  ◌++◌, All, truthy, inl, inr, Bool-cases, Option-cases, arith, eq_iff,
}
use open_terminal_k8s_proxy.Base.Exec.{httpx_connect, httpx_timeout, Result, ok, err, modify, ◌>>=◌}
use open_terminal_k8s_proxy.Breaker.{
  CircuitBreaker, opened, asks, succeeds, fails, run, step, can_execute, record_success,
  record_failure,
}
use open_terminal_k8s_proxy.Breaker as Breaker
use open_terminal_k8s_proxy.Breaker.Shut.{IsShut, IsTimely, IsShut-run, refused}
use open_terminal_k8s_proxy.Breaker.Registry.{Registry, breaker, breaker-serve, serve}
use open_terminal_k8s_proxy.Http.{Network, Proxy, Incoming, Answer, ask, permitted, get_client}
use open_terminal_k8s_proxy.Http.Circuit.{keyed, outcome, run-keyed, report-breakers, excused_lem}
use open_terminal_k8s_proxy.Http.Concurrent.{
  Stage, reading, sent, ended, Traffic, Event, arrives, body_comes, client_leaves, answered,
  elapses, happen, happen_all, Within, let_through, move, flight_at, taken, departs, drops, lands,
}
use open_terminal_k8s_proxy.Http.Parts.{report_ends, Flight, depart, send_out, land}

let_through-append :
    (k : String) (fs gs : List (Stage × Flight))
    → let_through k (fs ++ gs) ≡ let_through k fs + let_through k gs
let_through-append k [] gs = omega arith
let_through-append k ((g, f) ∷ fs) gs = ground (arith, let_through-append k fs gs)

let_through-move :
    (k : String) (g : Stage) (n : ℕ) (fs : List (Stage × Flight))
    → let_through k (move g n fs) ≡ let_through k fs
let_through-move k g n [] = refl
let_through-move k g zero ((h, f) ∷ fs) = refl
let_through-move k g (suc n) ((h, f) ∷ fs) = ground (arith, let_through-move k g n fs)

IsShut-serve :
    (t timeout : ℕ) (k : String) (o : Option String) (es : List Breaker.Event) (r : Registry)
    → All (IsTimely t timeout) es
    → IsShut t timeout (breaker k r)
    → IsShut t timeout (breaker k (serve (keyed o es) r))
unfolding serve
IsShut-serve t timeout k none es r a h = h
IsShut-serve t timeout k (some key) es r a h =
    let e = breaker-serve k (keyed (some key) es) r ∙ run-keyed key k es (breaker k r) in
    elim (Bool-cases (key == k)) [
      | inl same ↦ rw e (rw same (IsShut-run t timeout es (breaker k r) a h))
      | inr other ↦ rw e (rw other h)
    ]

outcome-IsTimely :
    (t timeout now : ℕ) (r : Result Answer) → t ≤ now → All (IsTimely t timeout) (outcome r now)
outcome-IsTimely t timeout now (ok a) late = (tt, tt)
outcome-IsTimely t timeout now (err httpx_connect) late = (late, tt)
outcome-IsTimely t timeout now (err httpx_timeout) late = (late, tt)
outcome-IsTimely t timeout now (err e) late = tt

module _ {W : Type 0} ⦃net : Network W⦄ where
  depart-breakers :
      (target_url : String) (request : Incoming) (terminal_api_key : String)
      (pod_key : Option String) (s : Proxy W)
      → (depart target_url request terminal_api_key pod_key s).1.breakers
        ≡ serve (keyed (truthy pod_key) (asks (net.time s.world).0 ∷ [])) s.breakers
  unfolding depart ask permitted get_client ◌>>=◌ serve
  depart-breakers target_url request terminal_api_key pod_key s =
      elim (Option-cases (truthy pod_key)) [
        | inl e ↦ rw (e, keyed) refl
        | inr (key, e) ↦
            elim (Bool-cases (can_execute (net.time s.world).0 (breaker key s.breakers)).0) [
              | inl good ↦ rw e (rw good refl)
              | inr shut ↦ rw e (rw shut refl)
            ]
      ]

  -- Whoever is let through asks another pod's breaker or none.
  taken-let_through :
      (t timeout : ℕ) (k target_url : String) (request : Incoming) (terminal_api_key : String)
      (pod_key : Option String) (s : Proxy W) (fs : List (Stage × Flight))
      → IsShut t timeout (breaker k s.breakers)
      → (net.time s.world).0 < t + timeout
      → let_through k (taken (depart target_url request terminal_api_key pod_key s).0 fs)
        ≡ let_through k fs
  unfolding depart ask permitted get_client ◌>>=◌
  taken-let_through t timeout k target_url request terminal_api_key pod_key s fs h early =
      let now = (net.time s.world).0 in
      elim (Option-cases (truthy pod_key)) [
        | inl e ↦ rw e (omega (arith, let_through-append k fs _))
        | inr (key, e) ↦ elim (Bool-cases (can_execute now (breaker key s.breakers)).0) [
          | inr shut ↦ rw e (rw shut refl)
          | inl good ↦ elim (Bool-cases (key == k)) [
            | inl same ↦
                let p : key ≡ k = (eq_iff key k).0 same in
                let q = ap (λ r. r.0) (refused t timeout (breaker k s.breakers) h now early) in cc
            | inr other ↦ rw e (rw good (let_through-append k fs _ ∙ rw other (omega arith)))
          ]
        ]
      ]

  land-breakers :
      (f : Flight) (r : Result Answer) (s : Proxy W)
      → (land f r s).1.breakers ≡ serve (keyed f.key (outcome r (net.time s.world).0)) s.breakers
  unfolding land ◌>>=◌
  land-breakers f (ok answer) s = rw (report_ends f.key s) (report-breakers f.key (λ _. succeeds) s)
  land-breakers f (err e) s = (excused_lem f.key e s).1

-- The circuit of the key is open, and `n` requests with the key were let through.
pub record StaysShut {W : Type 0} (t timeout : ℕ) (k : String) (n : ℕ) (y : Traffic W)
    : Type 0 where
  pub shut : IsShut t timeout (breaker k y.proxy.breakers)
  pub through : let_through k y.flights ≡ n

module _ {W : Type 0} ⦃net : Network W⦄ (t timeout : ℕ) (k : String) (n : ℕ) where
  abbrev Stays : Traffic W → Type 0
  Stays = StaysShut t timeout k n

  departs-Stays :
      (i : ℕ) (f : Option (Stage × Flight)) (y : Traffic W) → Stays y → Stays (departs i f y)
  unfolding departs send_out modify
  departs-Stays i (some (reading, f)) y h = record {
    shut = h.shut;
    through = let_through-move k sent i y.flights ∙ h.through;
  }
  departs-Stays i (some (sent, f)) y h = h
  departs-Stays i (some (ended, f)) y h = h
  departs-Stays i none y h = h

  drops-Stays :
      (i : ℕ) (f : Option (Stage × Flight)) (y : Traffic W) → Stays y → Stays (drops i f y)
  unfolding drops
  drops-Stays i (some (reading, f)) y h = record {
    shut = h.shut;
    through = let_through-move k ended i y.flights ∙ h.through;
  }
  drops-Stays i (some (sent, f)) y h = h
  drops-Stays i (some (ended, f)) y h = h
  drops-Stays i none y h = h

  lands-Stays :
      (i : ℕ) (r : Result Answer) (f : Option (Stage × Flight)) (y : Traffic W)
      → t ≤ (net.time y.proxy.world).0
      → Stays y
      → Stays (lands i r f y)
  unfolding lands
  lands-Stays i r (some (sent, f)) y late h = record {
    shut = rw (land-breakers f r y.proxy) (
        IsShut-serve t timeout k f.key _ y.proxy.breakers
          (outcome-IsTimely t timeout (net.time y.proxy.world).0 r late) h.shut);
    through = let_through-move k ended i y.flights ∙ h.through;
  }
  lands-Stays i r (some (reading, f)) y late h = h
  lands-Stays i r (some (ended, f)) y late h = h
  lands-Stays i r none y late h = h

  happen-Stays :
      (e : Event W) (y : Traffic W)
      → t ≤ (net.time y.proxy.world).0
      → (net.time y.proxy.world).0 < t + timeout
      → Stays y
      → Stays (happen e y)
  unfolding happen
  happen-Stays (arrives target_url request terminal_api_key pod_key) y late early h = (record {
    shut =
        rw (depart-breakers target_url request terminal_api_key pod_key y.proxy)
          (IsShut-serve t timeout k (truthy pod_key) _ y.proxy.breakers (early, tt) h.shut);
    through =
        taken-let_through t timeout k target_url request terminal_api_key pod_key y.proxy y.flights
          h.shut early
        ∙ h.through;
  })
  happen-Stays (body_comes i) y late early h = departs-Stays i (flight_at i y.flights) y h
  happen-Stays (client_leaves i) y late early h = drops-Stays i (flight_at i y.flights) y h
  happen-Stays (answered i r) y late early h = lands-Stays i r (flight_at i y.flights) y late h
  happen-Stays (elapses w) y late early h = (record { shut = h.shut; through = h.through })

  -- From an open circuit whose last failure came at `t` or later, with requests that it let through
  -- still under way, as long as the clock reads neither less than `t` nor as much as `t` and the
  -- timeout: whatever requests come, with whatever keys or none, and whichever bodies and answers, no
  -- request with the circuit's key is let through, and the circuit stays open. A late success does
  -- not close it. Of requests without a key, which ask no circuit, this says nothing.
  pub happen_all-StaysShut :
      (es : List (Event W)) (y : Traffic W)
      → Within t (t + timeout) es y
      → StaysShut t timeout k n y
      → StaysShut t timeout k n (happen_all es y)
  unfolding happen_all
  happen_all-StaysShut [] y within h = h
  happen_all-StaysShut (e ∷ es) y (late, early, within) h =
      happen_all-StaysShut es (happen e y) within (happen-Stays e y late early h)
