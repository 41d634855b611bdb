-- ===== src/Kube/Retry.antt =====
-- What the decorator `retry` of the client's methods comes to, from the documented laws of tenacity.
pub mod Rejected
use open_terminal_k8s_proxy.Base.{
  ℕ, suc, zero, ◌+◌, ◌≡◌, refl, sym, inl, inr, Bool-cases, arith, if◌then◌else◌, ◌∙◌,
}
use open_terminal_k8s_proxy.Base.Exec.{ok, err, Exec, Exec-cases, Preserves}
use open_terminal_k8s_proxy.Kube.{Client, Env, RetryLaws}
use open_terminal_k8s_proxy.Kube.Methods.{policy, has_retryable_type, retried}

module _ {W : Type 0} ⦃env : Env W⦄ where
  abbrev pub paused : ℕ → Client W → Client W
  paused n c = record c { world = env.pause policy n c.world }

  -- The attempts as a plain recursion: at most `left` more after the n-th.
  unfoldable pub tries : {A : Type 0} → ℕ → ℕ → Exec (Client W) A → Exec (Client W) A
  tries zero n m c = m c
  tries (suc left) n m c =
      let (r, d) = m c in
      let again = tries left (suc n) m (paused n d) in
      elim r [ ok a ↦ (ok a, d) | err e ↦ if has_retryable_type e then again else (err e, d) ]

  module _ (laws : RetryLaws env) {A : Type 0} (m : Exec (Client W) A) where
    retry-tries :
        (left n : ℕ) (c : Client W) → left + n ≡ 3 → env.retry A policy n m c ≡ tries left n m c
    unfolding tries
    retry-tries zero n c h = elim (Exec-cases m c) [
      | inl (a, e) ↦ laws.succeed A policy n m c _ a e ∙ sym e
      | inr (x, e) ↦ laws.give_up A policy n m c _ x e (omega arith) ∙ sym e
    ]
    retry-tries (suc left) n c h = elim (Exec-cases m c) [
      | inl (a, e) ↦ rw (e, tries) (laws.succeed A policy n m c _ a e)
      | inr (x, e) ↦ elim (Bool-cases (has_retryable_type x)) [
        | inl more ↦
            rw (e, tries)
              (rw more (
                laws.again A policy n m c _ x e more (omega arith)
                ∙ retry-tries left (suc n) _ (omega arith)))
        | inr over ↦ rw (e, tries) (rw over (laws.refuse A policy n m c _ x e over))
      ]
    ]

    pub retried-tries : (c : Client W) → retried m c ≡ tries 2 1 m c
    unfolding retried
    retried-tries c = retry-tries 2 1 c refl

    -- A property that no wait changes and one attempt keeps, the decorated method keeps.
    tries-Preserves :
        (P : Client W → Type 0)
        → ((n : ℕ) (c : Client W) → P c → P (paused n c))
        → Preserves P m
        → (left n : ℕ) → Preserves P (tries left n m)
    unfolding tries
    tries-Preserves P wait km zero n = record { at = km.at }
    tries-Preserves P wait km (suc left) n = record {
      at = λ c p.
          let later =
            (tries-Preserves P wait km left (suc n)).at (paused n (m c).1)
              (wait n (m c).1 (km.at c p)) in
          ground (arith, km.at c p, later);
    }

    pub retried-Preserves :
        (P : Client W → Type 0)
        → ((n : ℕ) (c : Client W) → P c → P (paused n c))
        → Preserves P m
        → Preserves P (retried m)
    retried-Preserves P wait km = record {
      at = λ c p. rw (retried-tries c) ((tries-Preserves P wait km 2 1).at c p);
    }
