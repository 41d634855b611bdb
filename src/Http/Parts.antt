-- ===== src/Http/Parts.antt =====
-- `proxy_request` parted at its two waits, for the client's body and for the pod's answer.
use open_terminal_k8s_proxy.Base.{
  ◌≡◌, refl, true, false, String, Option, none, some, ◌∷◌, truthy, inl, inr, if◌then◌else◌,
}
use open_terminal_k8s_proxy.Base.Exec.{
  Result, ok, err, Exec, pure, modify, attempt, ◌>>=◌, ◌>>◌, Exec-cases,
}
use open_terminal_k8s_proxy.Breaker.{succeeds}
use open_terminal_k8s_proxy.Http.Circuit.{result-cases}
use open_terminal_k8s_proxy.Http.{
  Network, Proxy, Incoming, Upstream, Response, Answer, upstream, unavailable, response_to,
  get_client, forward, ask, report, excused, exchange, proxy_request,
}

-- A request that was let through, with the key of its circuit breaker.
pub record Flight : Type 0 where
  pub key : Option String
  pub up : Upstream

module _ {W : Type 0} ⦃net : Network W⦄ where
  -- Up to the wait for the body.
  unfoldable pub depart :
      String → Incoming → String → Option String → Exec (Proxy W) (Option Flight)
  depart target_url request terminal_api_key pod_key = do
    allowed ← ask (truthy pod_key)
    if allowed
        then (do
          get_client
          pure (
              some (record {
                key = truthy pod_key;
                up = upstream net.text target_url request terminal_api_key;
              })))
        else pure none

  -- The request goes out.
  unfoldable pub send_out : Flight → Exec (Proxy W) Unit
  send_out f = modify (λ s. record s { sent = f.up ∷ s.sent })

  -- The wait for the answer, or for an exception of `client.request`.
  unfoldable pub await_answer : Flight → Exec (Proxy W) (Result Answer)
  await_answer f s = let (r, w) = net.request f.up s.world in (ok r, record s { world = w })

  -- What comes after it.
  unfoldable pub land : Flight → Result Answer → Exec (Proxy W) Response
  land f (ok answer) = report f.key (λ _. succeeds) >> pure (response_to net.text answer)
  land f (err e) = excused f.key e

  unfoldable pub conclude : Option Flight → Exec (Proxy W) Response
  conclude none = pure unavailable
  conclude (some f) = do send_out f; r ← await_answer f; land f r

  pub report_ends :
      (key : Option String) (s : Proxy W)
      → report key (λ _. succeeds) s ≡ (ok tt, (report key (λ _. succeeds) s).1)
  unfolding report
  report_ends none s = refl
  report_ends (some key) s = refl

  exchange_parts :
      (key : Option String) (up : Upstream) (s : Proxy W)
      → exchange key up s ≡ (get_client >> conclude (some (record { key = key; up = up }))) s
  unfolding exchange attempt get_client forward conclude send_out await_answer land ◌>>=◌
  exchange_parts key up s =
      let w = (net.request up s.world).1 in
      let after = record s { world = w; has_client = true; sent = up ∷ s.sent } in
      elim (result-cases (net.request up s.world).0) [
        | inl (a, e) ↦ rw e (rw (report_ends key after) refl)
        | inr (x, e) ↦ rw e refl
      ]

  -- A request during whose waits nothing else runs is `proxy_request`.
  proxy_request_parts :
      (target_url : String) (request : Incoming) (terminal_api_key : String)
      (pod_key : Option String) (s : Proxy W)
      → proxy_request target_url request terminal_api_key pod_key s
        ≡ (depart target_url request terminal_api_key pod_key >>= conclude) s
  unfolding proxy_request depart ◌>>=◌
  proxy_request_parts target_url request terminal_api_key pod_key s =
      elim (Exec-cases (ask (truthy pod_key)) s) [
        | inl (true, e) ↦ rw e (
            unfold get_client in
            exchange_parts (truthy pod_key) (upstream net.text target_url request terminal_api_key)
              (ask (truthy pod_key) s).1)
        | inl (false, e) ↦ rw e (unfold conclude in refl)
        | inr (x, e) ↦ rw e refl
      ]
