-- ===== src/Access/Terminal.antt =====
-- What a route's request for a pod ends in.
use open_terminal_k8s_proxy.Base.{
  ℕ, ◌≡◌, ◌≢◌, refl, ap, ◌∙◌, subst, ◌⊎◌, inl, inr, String, Option, none, some, if◌then◌else◌,
  arith, eq_iff,
}
use open_terminal_k8s_proxy.Base.Dict
use open_terminal_k8s_proxy.Base.Exec.{
  Exn, http_exception, k8s_unavailable, Result, ok, err, Exec, pure, raise, attempt, on, ◌>>=◌,
  Exec-cases, ok-injective, Preserves,
}
use open_terminal_k8s_proxy.Kube.{Client, Env}
use open_terminal_k8s_proxy.Kube.Methods.{init}
use open_terminal_k8s_proxy.Models.{TerminalPod, user_id_to_hash, running}
use open_terminal_k8s_proxy.PodManager.{Manager, is_running}
use open_terminal_k8s_proxy.PodManager.Create.{get_or_create}
use open_terminal_k8s_proxy.PodManager.Creation.{IsOwn}
use open_terminal_k8s_proxy.PodManager.Spec.{IsSound}
use open_terminal_k8s_proxy.PodManager.Tracking.{get_or_create_returns, get_or_create-IsSound}
use open_terminal_k8s_proxy.PodManager.Upkeep.{sound_rules}
use open_terminal_k8s_proxy.Access.{
  verify_api_key, ensure_k8s_available, get_terminal_for_user, terminal_of, translated,
}

-- How `get_terminal_for_user` ends, from a call of `get_or_create` that ended with `x` and left
-- the manager `s`, or from none.
pub data Ending {W : Type 0} (h : String) (x : Option (Result TerminalPod)) (s : Manager W)
    : Result TerminalPod → Type 0 where
  served :
      (t : TerminalPod)
      → x ≡ some (ok t)
      → IsOwn h t
      → Dict.get h s.pods ≡ some t
      → Ending h x s (ok t)
  passed :
      (status : ℕ)
      → x ≡ some (err (http_exception status))
      → Ending h x s (err (http_exception status))
  unavailable : ((t : TerminalPod) → x ≢ some (ok t)) → Ending h x s (err k8s_unavailable)

Ending-ok :
    {W : Type 0} (h : String) (x : Option (Result TerminalPod)) (s : Manager W)
    (r : Result TerminalPod) (t : TerminalPod)
    → Ending h x s r
    → r ≡ ok t
    → IsOwn h t × (Dict.get h s.pods ≡ some t)
Ending-ok h x s (ok u) t (served _ asked own tracked) e =
    let same : u ≡ t = ok-injective e in (subst (IsOwn h) same own, tracked ∙ ap some same)
Ending-ok h x s (err e') t (passed status asked) e = cc
Ending-ok h x s (err e') t (unavailable never) e = cc

pub refuses :
    (proxy_api_key : String) (credentials : Option String)
    → proxy_api_key ≢ ""
    → credentials ≢ some proxy_api_key
    → verify_api_key proxy_api_key credentials ≡ err (http_exception 401)
unfolding verify_api_key
refuses proxy_api_key none set other = ground (arith, eq_iff proxy_api_key "", set)
refuses proxy_api_key (some key) set other =
    ground (arith, eq_iff proxy_api_key "", eq_iff key proxy_api_key, set, other)

module _ {W : Type 0} ⦃env : Env W⦄ where
  ensuring :
      (c : Client W)
      → ((ensure_k8s_available c).0 ≡ ok tt) ⊎ ((ensure_k8s_available c).0 ≡ err k8s_unavailable)
  unfolding ensure_k8s_available ◌>>=◌ attempt
  ensuring c = elim (Exec-cases init c) [
    | inl (a, e) ↦ ground (arith, e)
    | inr (x, e) ↦ ground (arith, e)
  ]

  IsSound-get_or_create :
      (user_id : String) → Preserves {S = Manager W} IsSound (get_or_create user_id)
  IsSound-get_or_create user_id = record { at = get_or_create-IsSound user_id }

  -- The manager after the check that the cluster is there.
  abbrev pub checked : Manager W → Manager W
  checked s = record s {
    storage = record s.storage { client = (ensure_k8s_available s.storage.client).1 };
  }

  -- What `get_or_create` ends with, if the check passes.
  abbrev pub asked : String → Manager W → Option (Result TerminalPod)
  asked user_id s = elim (ensure_k8s_available s.storage.client).0 [
    | ok _ ↦ some (get_or_create user_id (checked s)).0
    | err _ ↦ none
  ]

  -- The `try` block.
  abbrev guarded : String → Exec (Manager W) TerminalPod
  guarded user_id =
      attempt
        (get_or_create user_id >>= λ terminal.
          if is_running terminal.state then pure terminal else raise (http_exception 503))
        (λ e. raise (translated e))

  guarded-ok :
      (user_id : String) (s s' : Manager W) (t : TerminalPod)
      → get_or_create user_id s ≡ (ok t, s')
      → t.state ≡ running
      → guarded user_id s ≡ (ok t, s')
  unfolding attempt ◌>>=◌
  guarded-ok user_id s s' t o r = ground (arith, o, r)

  guarded-err :
      (user_id : String) (s s' : Manager W) (x : Exn)
      → get_or_create user_id s ≡ (err x, s')
      → guarded user_id s ≡ (err (translated x), s')
  unfolding attempt ◌>>=◌
  guarded-err user_id s s' x o = ground (arith, o)

  no_cluster :
      (user_id : String) (s : Manager W)
      → (ensure_k8s_available s.storage.client).0 ≡ err k8s_unavailable
      → get_terminal_for_user user_id s ≡ (err k8s_unavailable, checked s)
  unfolding get_terminal_for_user ◌>>=◌ on
  no_cluster user_id s e = rw e refl

  cluster :
      (user_id : String) (s : Manager W)
      → (ensure_k8s_available s.storage.client).0 ≡ ok tt
      → get_terminal_for_user user_id s ≡ guarded user_id (checked s)
  unfolding get_terminal_for_user ◌>>=◌ on
  cluster user_id s e = rw e refl

  asked_there :
      (user_id : String) (s : Manager W)
      → (ensure_k8s_available s.storage.client).0 ≡ ok tt
      → asked user_id s ≡ some (get_or_create user_id (checked s)).0
  asked_there user_id s e = rw (e, asked) refl

  ends_by :
      (h : String) (s : Manager W) (y : Option (Result TerminalPod)) (x : Exn)
      → y ≡ some (err x)
      → Ending h y s (err (translated x))
  unfolding translated
  ends_by h s y (http_exception status) p = passed status p
  ends_by h s y x p = unavailable (λ t same. cc)

  -- From sound tracked pods, `get_terminal_for_user` either returns what `get_or_create` returned,
  -- a running pod with the names of the user's hash that is then tracked under it; or passes on an
  -- `HTTPException` of `get_or_create`; or raises `K8sUnavailableError`, and then `get_or_create`
  -- was not called or raised. It raises nothing else, and never that the terminal is not ready.
  pub get_terminal_for_user-Ending :
      (user_id : String) (s : Manager W)
      → IsSound s
      → Ending
          (user_id_to_hash env.codecs user_id)
          (asked user_id s)
          (get_terminal_for_user user_id s).1
          (get_terminal_for_user user_id s).0
  get_terminal_for_user-Ending user_id s v =
      let sound : IsSound (checked s) = record { distinct = v.distinct; own = v.own } in
      elim (ensuring s.storage.client) [
        | inr e ↦ rw (no_cluster user_id s e) (rw (e, asked) (unavailable (λ t same. cc)))
        | inl e ↦ elim (Exec-cases (get_or_create user_id) (checked s)) [
          | inl (t, o) ↦
              let (tracked, own) =
                get_or_create_returns user_id (checked s) sound t (ap (λ x. x.0) o) in
              rw (cluster user_id s e) (
                rw (guarded-ok user_id (checked s) _ t o own.runs)
                  (served t (asked_there user_id s e ∙ ap (λ x. some x.0) o) own tracked))
          | inr (x, o) ↦ rw (cluster user_id s e) (
              rw (guarded-err user_id (checked s) _ x o)
                (ends_by _ _ _ x (asked_there user_id s e ∙ ap (λ y. some y.0) o)))
        ]
      ]

  -- A pod that `get_terminal_for_user` returns is the one tracked under the user's hash.
  pub get_terminal_for_user_returns :
      (user_id : String) (s : Manager W) (t : TerminalPod)
      → IsSound s
      → (get_terminal_for_user user_id s).0 ≡ ok t
      → IsOwn (user_id_to_hash env.codecs user_id) t
        × (Dict.get (user_id_to_hash env.codecs user_id) (get_terminal_for_user user_id s).1.pods
            ≡ some t)
  get_terminal_for_user_returns user_id s t v =
      Ending-ok _ _ _ _ t (get_terminal_for_user-Ending user_id s v)

  pub IsSound-get_terminal_for_user :
      (user_id : String) → Preserves {S = Manager W} IsSound (get_terminal_for_user user_id)
  unfolding get_terminal_for_user
  IsSound-get_terminal_for_user user_id = search (sound_rules, IsSound-get_or_create)

  -- Where the proxy has a key, a request with any other credentials or none, whoever it names as its
  -- user, ends in a 401; the manager is as it was, and the cluster is asked nothing.
  pub terminal_of-denied :
      (proxy_api_key : String) (credentials user_id : Option String) (s : Manager W)
      → proxy_api_key ≢ ""
      → credentials ≢ some proxy_api_key
      → terminal_of proxy_api_key credentials user_id s ≡ (err (http_exception 401), s)
  unfolding terminal_of ◌>>=◌
  terminal_of-denied proxy_api_key credentials user_id s set other =
      rw (refuses proxy_api_key credentials set other) refl
