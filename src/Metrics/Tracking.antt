-- ===== src/Metrics/Tracking.antt =====
-- `track_request_latency` of terminal_proxy/metrics.py, around the body of a `with` statement. The
-- state is that of the clock and the body's, with the metrics.
use open_terminal_k8s_proxy.Base.{ℕ, ◌-◌, ◌≡◌, refl, String}
use open_terminal_k8s_proxy.Base.Exec.{Exn, ok, err, Exec, pure, modify, ◌>>=◌, ◌>>◌}
use open_terminal_k8s_proxy.Metrics.{Metrics, record_request}

pub record Tracked (W : Type 0) : Type 0 where
  pub world : W
  pub metrics : Metrics

module _ {W : Type 0} (time : W → ℕ × W) where
  abbrev now : Exec (Tracked W) ℕ
  now s = let (t, w) = time s.world in (ok t, record s { world = w })

  module _ {A : Type 0} (method path : String) (body : Exec (Tracked W) A) where
    unfoldable pub track_request_latency : Exec (Tracked W) A
    track_request_latency = do
      start ← now
      a ← body
      end ← now
      modify (λ s. record s { metrics = record_request method path (end - start) 200 s.metrics })
      pure a

    -- What the state is when the body begins.
    abbrev begun : Tracked W → Tracked W
    begun s = record s { world = (time s.world).1 }

    -- A body that raises leaves the metrics as they are then: its request is not recorded.
    track_request_latency-raised :
        (s : Tracked W) (e : Exn)
        → (body (begun s)).0 ≡ err e
        → track_request_latency s ≡ (err e, (body (begun s)).1)
    unfolding track_request_latency ◌>>=◌
    track_request_latency-raised s e raised = rw raised refl

    -- One that returns is recorded once, as a success.
    track_request_latency-returned :
        (s : Tracked W) (a : A)
        → (body (begun s)).0 ≡ ok a
        → let after = (body (begun s)).1 in
          track_request_latency s ≡ (
            ok a,
            record {
              world = (time after.world).1;
              metrics =
                  record_request method path
                    ((time after.world).0 - (time s.world).0)
                    200
                    after.metrics;
            },
          )
    unfolding track_request_latency ◌>>=◌ modify
    track_request_latency-returned s a returned = rw returned refl
