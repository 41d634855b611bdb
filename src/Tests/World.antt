-- ===== src/Tests/World.antt =====
-- A world in which the requests that a name does not fail by are answered. Its state counts the
-- microseconds; requests take one each.
use open_terminal_k8s_proxy.Base.{
  ℕ, zero, suc, ◌+◌, ◌-◌, ◌<◌, ◌≡◌, true, false, String, Option, none, some, [], arith,
  if◌then◌else◌,
}
use open_terminal_k8s_proxy.Base.Exec.{Exn, ok, err, Exec}
use open_terminal_k8s_proxy.Codecs.{Codecs, invalid}
use open_terminal_k8s_proxy.Config.{Settings, StorageMode}
use open_terminal_k8s_proxy.Kube.{
  Client, Env, Pod, Request, Reply, RetryPolicy, RetryLaws, read_namespaced_pod,
  list_namespaced_pod, list_some_pods, read_namespaced_pvc, list_namespaced_pvc,
  read_namespaced_secret, http_get,
}

abbrev pub defaults : Settings
defaults = record {
  proxy_api_key = "";
  proxy_host = "0.0.0.0";
  proxy_port = 8000;
  namespace = "default";
  terminal_image = "ghcr.io/open-webui/open-terminal:latest";
  terminal_image_pull_policy = "IfNotPresent";
  terminal_cpu_request = "500m";
  terminal_cpu_limit = "1000m";
  terminal_memory_request = "512Mi";
  terminal_memory_limit = "4Gi";
  terminal_ephemeral_storage_request = "5Gi";
  terminal_ephemeral_storage_limit = "5Gi";
  terminal_service_port = 8000;
  terminal_node_selector = [];
  terminal_tolerations = [];
  storage_mode = StorageMode.none;
  storage_class_name = "";
  storage_per_user_size = "5Gi";
  storage_shared_size = "100Gi";
  storage_retain_pvc = false;
  storage_pvc_retention_ttl_seconds = 0;
  max_concurrent_pods = 1;
  pod_idle_timeout_seconds = 3600;
  pod_startup_timeout_seconds = 60;
  pod_cleanup_interval_seconds = 60;
  labels_app = "open-terminal-user";
  labels_managed_by = "terminal-proxy";
  cors_allowed_origins = "*";
  log_level = "INFO";
}

abbrev pub plain_codecs : Codecs
plain_codecs = record {
  sha256_hexdigest = λ s. s;
  isoformat = λ t. "2026-01-01T00:00:00";
  fromisoformat = λ s. invalid;
  b64encode = λ s. s;
  b64decode = λ s. some s;
}

abbrev pub up : String → Pod
up pod_name = record {
  name = pod_name;
  labels = [];
  creation_timestamp = none;
  phase = "Running";
  pod_ip = some "10.0.0.7";
  node_name = none;
  claims = [];
}

abbrev pub reply_to : (r : Request) → Reply r
reply_to (read_namespaced_pod name _) = up name
reply_to (list_namespaced_pod _ _) = []
reply_to (list_some_pods _ _) = []
reply_to (read_namespaced_pvc name _) = record {
  name = name;
  labels = none;
  annotations = none;
  creation_timestamp = none;
}
reply_to (list_namespaced_pvc _ _) = []
reply_to (read_namespaced_secret _ _) = record { secret_data = none }
reply_to (http_get _) = 200
reply_to _ = tt

-- `retry`, with the attempts that are left.
unfoldable pub attempts : {A : Type 0} → RetryPolicy → ℕ → Exec (Client ℕ) A → Exec (Client ℕ) A
attempts p zero m c = m c
attempts p (suc left) m c =
    let (r, d) = m c in
    let rest = attempts p left m (record d { world = d.world + 1000000 }) in
    elim r [ ok a ↦ (ok a, d) | err e ↦ if p.retry_if e then rest else (err e, d) ]

-- Everything is answered, but for the requests that `fails` names.
abbrev pub world : (Request → Option Exn) → Settings → Env ℕ
world fails cfg = record {
  settings = cfg;
  answer = λ r w. (elim (fails r) [ none ↦ ok (reply_to r) | some e ↦ err e ], w + 1);
  utcnow = λ w. (w, w);
  loop_time = λ w. (w, w);
  sleep = λ n w. w + n;
  token_urlsafe = λ n w. ("key", w);
  codecs = plain_codecs;
  retry = λ A p n m. attempts p (p.stop_after_attempt - n) m;
  pause = λ p n w. w + 1000000;
}

module _ (p : RetryPolicy) {A : Type 0} (m : Exec (Client ℕ) A) where
  attempts-ok :
      (left : ℕ) (c d : Client ℕ) (a : A) → m c ≡ (ok a, d) → attempts p left m c ≡ (ok a, d)
  unfolding attempts
  attempts-ok zero c d a h = h
  attempts-ok (suc left) c d a h = ground (arith, h)

  attempts-refuse :
      (left : ℕ) (c d : Client ℕ) (e : Exn)
      → m c ≡ (err e, d)
      → p.retry_if e ≡ false
      → attempts p left m c ≡ (err e, d)
  unfolding attempts
  attempts-refuse zero c d e h r = h
  attempts-refuse (suc left) c d e h r = ground (arith, h)

  attempts-last :
      (left : ℕ) (c d : Client ℕ) (e : Exn)
      → m c ≡ (err e, d)
      → left ≡ 0
      → attempts p left m c ≡ (err e, d)
  unfolding attempts
  attempts-last zero c d e h z = h
  attempts-last (suc left) c d e h z = absurd (omega arith)

  attempts-again :
      (left : ℕ) (c d : Client ℕ) (e : Exn)
      → m c ≡ (err e, d)
      → p.retry_if e ≡ true
      → attempts p (suc left) m c ≡ attempts p left m (record d { world = d.world + 1000000 })
  unfolding attempts
  attempts-again left c d e h r = ground (arith, h, r)

one_less : (stop n : ℕ) → n < stop → stop - n ≡ suc (stop - suc n)
one_less stop n h = omega arith

-- The documented behaviour of `retry` can hold.
pub world_laws : (fails : Request → Option Exn) (cfg : Settings) → RetryLaws (world fails cfg)
world_laws fails cfg = record {
  succeed = λ A p n m c d a h. attempts-ok p m _ c d a h;
  refuse = λ A p n m c d e h r. attempts-refuse p m _ c d e h r;
  give_up = λ A p n m c d e h l. attempts-last p m _ c d e h (omega arith);
  again = λ A p n m c d e h r l.
      rw (one_less p.stop_after_attempt n l) (attempts-again p m _ c d e h r);
}
