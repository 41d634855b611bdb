-- ===== src/PodManager/Methods.antt =====
-- The methods that remove pods, look after them, and take over those of an earlier process.
use open_terminal_k8s_proxy.Base.{
  ℕ, ◌+◌, ◌*◌, Bool, true, false, String, ◌<>◌, ◌==◌, ◌||◌, not, Option, none, some, List, [], ◌∷◌,
  filter, length, ltb, truthy, if◌then◌else◌,
}
use open_terminal_k8s_proxy.Base.Dict
use open_terminal_k8s_proxy.Base.Dict.{Dict}
use open_terminal_k8s_proxy.Base.Exec.{
  value_error, ok, Exec, pure, raise, gets, modify, attempt, swallow, ◌>>=◌, ◌>>◌,
}
use open_terminal_k8s_proxy.Config.{Settings}
use open_terminal_k8s_proxy.Kube.{Client, Env, Pod, Secret}
use open_terminal_k8s_proxy.Kube.Methods
use open_terminal_k8s_proxy.Models.{TerminalPod, running, failed}
use open_terminal_k8s_proxy.PodBuilder.Shared.{api_key_secret_key}
use open_terminal_k8s_proxy.PodManager.{Manager, is_running, on_storage, on_client}
use open_terminal_k8s_proxy.Storage.{
  is_per_user, utcnow, touch_pvc, delete_user_pvc, cleanup_expired_pvcs,
}

-- `min(pods, key=last_active_at)`: the first of those that were active the longest ago.
abbrev pub older : String × TerminalPod → String × TerminalPod → String × TerminalPod
older a b = if ltb (b.1).last_active_at (a.1).last_active_at then b else a

unfoldable pub oldest_from : String × TerminalPod → Dict TerminalPod → String × TerminalPod
oldest_from e [] = e
oldest_from e (f ∷ d) = oldest_from (older e f) d

abbrev pub is_idle : ℕ → ℕ → TerminalPod → Bool
is_idle now timeout t = ltb (t.last_active_at + timeout) now

-- The keys of the pods that were idle for longer than the timeout.
unfoldable pub idle_keys : ℕ → ℕ → Dict TerminalPod → List String
idle_keys now timeout d = Dict.keys (filter (λ e. is_idle now timeout e.1) d)

abbrev same_ip : Option String → Option String → Bool
same_ip none none = true
same_ip (some a) (some b) = a == b
same_ip _ _ = false

-- What the health check finds of a pod: to be removed, a new IP, or nothing to do.
pub data Health : Type 0 where
  unhealthy healthy : Health
  moved : Option String → Health

unfoldable pub assess : TerminalPod → Option Pod → Health
assess t none = unhealthy
assess t (some pod) =
    if pod.phase == "Failed" || pod.phase == "Unknown"
    then unhealthy
    else if pod.phase == "Running"
    then (if same_ip pod.pod_ip t.pod_ip then healthy else moved pod.pod_ip)
    else healthy

-- `secret and secret.data and "api-key" in secret.data`
abbrev pub stored_key : Option Secret → Option String
stored_key none = none
stored_key (some secret) = elim secret.secret_data [
  | none ↦ none
  | some d ↦ Dict.get api_key_secret_key d
]

pub record Stats : Type 0 where
  pub active_pods : ℕ
  pub max_pods : ℕ
  pub pods : List TerminalPod

-- The pod that is taken over.
abbrev pub adopted : Settings → String → Pod → String → ℕ → ℕ → TerminalPod
adopted cfg user_hash pod api_key created_at now = record {
  user_id = user_hash;
  user_hash = user_hash;
  pod_name = pod.name;
  service_name = "terminal-" <> user_hash;
  secret_name = "terminal-secret-" <> user_hash;
  pvc_name = if is_per_user cfg.storage_mode then some ("pvc-" <> user_hash) else none;
  api_key = api_key;
  state = running;
  created_at = created_at;
  last_active_at = now;
  pod_ip = pod.pod_ip;
}

module _ {W : Type 0} ⦃env : Env W⦄ where
  abbrev pub put_pod : String → TerminalPod → Exec (Manager W) Unit
  put_pod h t = modify (λ s. record s { pods = Dict.put h t s.pods })

  abbrev pub drop_pod : String → Exec (Manager W) Unit
  drop_pod h = modify (λ s. record s { pods = Dict.remove h s.pods })

  unfoldable pub delete_claim : TerminalPod → Exec (Manager W) Unit
  delete_claim t = elim (truthy t.pvc_name) [
    | none ↦ pure tt
    | some pvc_name ↦
        if is_per_user env.settings.storage_mode
        then (if env.settings.storage_retain_pvc
            then swallow (on_storage (touch_pvc pvc_name))
            else swallow (on_storage (delete_user_pvc pvc_name)))
        else pure tt
  ]

  -- `_delete_pod`: every failure is logged and passed over.
  unfoldable pub delete_pod : String → Exec (Manager W) Unit
  delete_pod user_hash = do
    found ← gets (λ s. Dict.get user_hash s.pods)
    drop_pod user_hash
    elim found [
      | none ↦ pure tt
      | some t ↦ do
        swallow (on_client (Methods.delete_service t.service_name))
        swallow (on_client (Methods.delete_pod t.pod_name))
        swallow (on_client (Methods.delete_secret t.secret_name))
        delete_claim t
    ]

  unfoldable pub evict_oldest : Exec (Manager W) Unit
  evict_oldest = do
    pods ← gets (λ s. s.pods)
    elim pods [ [] ↦ pure tt | e ∷ d ↦ delete_pod (oldest_from e d).0 ]

  unfoldable pub delete_all : List String → Exec (Manager W) Unit
  delete_all [] = pure tt
  delete_all (h ∷ hs) = let rest = delete_all hs in delete_pod h >> rest

  unfoldable pub cleanup_idle_pods : Exec (Manager W) Unit
  cleanup_idle_pods = do
    now ← on_client utcnow
    pods ← gets (λ s. s.pods)
    delete_all (idle_keys now (env.settings.pod_idle_timeout_seconds * 1000000) pods)

  unfoldable pub act_on : String → TerminalPod → Health → Exec (Manager W) (List String)
  act_on user_hash t unhealthy = pure (user_hash ∷ [])
  act_on user_hash t healthy = pure []
  act_on user_hash t (moved ip) = do put_pod user_hash (record t { pod_ip = ip }); pure []

  -- One round of the first loop of `_check_pod_health`: the keys to remove. A failure of the
  -- request is logged and passed over.
  unfoldable pub check_one : String → TerminalPod → Exec (Manager W) (List String)
  check_one user_hash t =
      if not (is_running t.state)
      then pure []
      else attempt
          (do pod ← on_client (Methods.get_pod t.pod_name); act_on user_hash t (assess t pod))
          (λ _. pure [])

  unfoldable pub check_all : Dict TerminalPod → Exec (Manager W) (List String)
  check_all [] = pure []
  check_all ((h, t) ∷ d) =
      let rest = check_all d in
      do bad ← check_one h t; others ← rest; pure (elim bad [ [] ↦ others | k ∷ ks ↦ k ∷ others ])

  -- One round of the second loop.
  unfoldable pub fail_and_delete : String → Exec (Manager W) Unit
  fail_and_delete h = do
    found ← gets (λ s. Dict.get h s.pods)
    elim found [ none ↦ pure tt | some t ↦ put_pod h (record t { state = failed }) ]
    delete_pod h

  unfoldable pub fail_all : List String → Exec (Manager W) Unit
  fail_all [] = pure tt
  fail_all (h ∷ hs) = let rest = fail_all hs in fail_and_delete h >> rest

  unfoldable pub check_pod_health : Exec (Manager W) Unit
  check_pod_health = do pods ← gets (λ s. s.pods); bad ← check_all pods; fail_all bad

  -- The body of `_pvc_cleanup_loop`.
  unfoldable pub pvc_cleanup : Exec (Manager W) Unit
  pvc_cleanup = do pods ← gets (λ s. s.pods); on_storage (cleanup_expired_pvcs (Dict.keys pods))

  abbrev pub generate_api_key : Exec (Client W) String
  generate_api_key c =
      let (key, w) = env.token_urlsafe 32 c.world in (ok key, record c { world = w })

  unfoldable pub decoded : Option String → Exec (Manager W) String
  decoded none = raise value_error
  decoded (some key) = pure key

  unfoldable pub key_or_new : Option String → Exec (Manager W) String
  key_or_new none = on_client generate_api_key
  key_or_new (some encoded) = decoded (env.codecs.b64decode encoded)

  unfoldable pub get_api_key_from_secret : String → Exec (Manager W) String
  get_api_key_from_secret secret_name = do
    secret ← on_client (Methods.get_secret secret_name)
    key_or_new (stored_key secret)

  abbrev created : Option ℕ → Exec (Client W) ℕ
  created none = utcnow
  created (some t) = pure t

  unfoldable pub adopt : String → Pod → Exec (Manager W) Unit
  adopt user_hash pod = do
    api_key ← get_api_key_from_secret ("terminal-secret-" <> user_hash)
    created_at ← on_client (created pod.creation_timestamp)
    now ← on_client utcnow
    put_pod user_hash (adopted env.settings user_hash pod api_key created_at now)

  unfoldable pub reconcile_one : Pod → Exec (Manager W) Unit
  reconcile_one pod = elim (truthy (Dict.get "user-id-hash" pod.labels)) [
    | none ↦ pure tt
    | some user_hash ↦
        if pod.phase == "Running"
        then adopt user_hash pod
        else on_client (do
          Methods.delete_service ("terminal-" <> user_hash)
          Methods.delete_pod pod.name
          Methods.delete_secret ("terminal-secret-" <> user_hash))
  ]

  unfoldable pub reconcile_all : List Pod → Exec (Manager W) Unit
  reconcile_all [] = pure tt
  reconcile_all (pod ∷ pods) = let rest = reconcile_all pods in reconcile_one pod >> rest

  -- `_reconcile_existing_pods`: the first failure ends it, and is logged.
  unfoldable pub reconcile_existing_pods : Exec (Manager W) Unit
  reconcile_existing_pods =
      swallow (do pods ← on_client Methods.list_terminal_pods; reconcile_all pods)

  unfoldable pub get_stats : Exec (Manager W) Stats
  get_stats = do
    pods ← gets (λ s. s.pods)
    pure (record {
      active_pods = length pods;
      max_pods = env.settings.max_concurrent_pods;
      pods = Dict.values pods;
    })
