-- ===== src/Kube.antt =====
-- The Kubernetes API and the rest of the outside world, as terminal_proxy/k8s/client.py uses them.
-- The cluster, the clock and the random source are one state `W` of a type that stays a parameter;
-- `Env` says how it answers. `Client` is the state of a `K8sClient`.
pub mod Methods
pub mod Ready
pub mod Retry
pub mod Rules
pub mod Waiting
use open_terminal_k8s_proxy.Base.{
  ℕ, Bool, true, false, String, Option, List, ◌∷◌, ◌≤◌, ◌<◌, ◌≡◌, suc,
}
use open_terminal_k8s_proxy.Base.Dict.{Dict}
use open_terminal_k8s_proxy.Base.Exec.{Exn, Result, ok, err, Exec}
use open_terminal_k8s_proxy.Codecs.{Codecs}
use open_terminal_k8s_proxy.Config.{Settings}
use open_terminal_k8s_proxy.Json.{Json}

-- The fields of `V1Pod`, `V1PersistentVolumeClaim` and `V1Secret` that the code reads. `claims`
-- has the claim name of each volume that has a claim; times are microseconds.
pub record Pod : Type 0 where
  pub name : String
  pub labels : Dict String
  pub creation_timestamp : Option ℕ
  pub phase : String
  pub pod_ip : Option String
  pub node_name : Option String
  pub claims : List (Option String)

pub record Pvc : Type 0 where
  pub name : String
  pub labels : Option (Dict String)
  pub annotations : Option (Dict String)
  pub creation_timestamp : Option ℕ

pub record Secret : Type 0 where
  pub secret_data : Option (Dict String)

-- The requests, each with the arguments that the code passes; the name stands before the namespace
-- as in the source.
pub data Request : Type 0 where
  load_incluster_config load_kube_config : Request
  read_namespaced_pod : String → String → Request
  list_namespaced_pod : String → String → Request
  -- with `limit`
  list_some_pods : String → ℕ → Request
  create_namespaced_pod : String → Json → Request
  delete_namespaced_pod : String → String → ℕ → Request
  read_namespaced_pvc : String → String → Request
  create_namespaced_pvc : String → Json → Request
  delete_namespaced_pvc : String → String → Request
  list_namespaced_pvc : String → String → Request
  patch_namespaced_pvc : String → String → Dict String → Request
  create_namespaced_service : String → Json → Request
  delete_namespaced_service : String → String → Request
  read_namespaced_secret : String → String → Request
  create_namespaced_secret : String → Json → Request
  delete_namespaced_secret : String → String → Request
  http_get : String → Request

-- What a request returns where the code uses it: the status code for `http_get`.
abbrev pub Reply : Request → Type 0
Reply (read_namespaced_pod _ _) = Pod
Reply (list_namespaced_pod _ _) = List Pod
Reply (list_some_pods _ _) = List Pod
Reply (read_namespaced_pvc _ _) = Pvc
Reply (list_namespaced_pvc _ _) = List Pvc
Reply (read_namespaced_secret _ _) = Secret
Reply (http_get _) = ℕ
Reply _ = Unit

-- `sent` has the requests sent so far, newest first; no code reads it.
pub record Client (W : Type 0) : Type 0 where
  pub world : W
  pub namespace : String
  pub initialized : Bool
  pub sent : List Request

-- The arguments of tenacity's `retry` that the code gives: the number of attempts and the
-- exceptions that lead to another; the waits are between 1 and 10 seconds.
pub record RetryPolicy : Type 0 where
  pub stop_after_attempt : ℕ
  pub retry_if : Exn → Bool

-- Everything that the code uses and that is not in the repository.
pub record Env (W : Type 0) : Type 1 where
  pub settings : Settings
  pub answer : (r : Request) → W → Result (Reply r) × W
  pub utcnow : W → ℕ × W
  pub loop_time : W → ℕ × W
  -- `asyncio.sleep`, in microseconds
  pub sleep : ℕ → W → W
  pub token_urlsafe : ℕ → W → String × W
  pub codecs : Codecs
  -- `retry` of tenacity from the n-th attempt on, and its wait after the n-th attempt
  pub retry : (A : Type 0) → RetryPolicy → ℕ → Exec (Client W) A → Exec (Client W) A
  pub pause : RetryPolicy → ℕ → W → W

-- What tenacity documents of `retry` with `reraise=True`.
pub record RetryLaws {W : Type 0} (env : Env W) : Type 1 where
  pub succeed :
      (A : Type 0) (p : RetryPolicy) (n : ℕ) (m : Exec (Client W) A) (c d : Client W) (a : A)
      → m c ≡ (ok a, d)
      → env.retry A p n m c ≡ (ok a, d)
  pub refuse :
      (A : Type 0) (p : RetryPolicy) (n : ℕ) (m : Exec (Client W) A) (c d : Client W) (e : Exn)
      → m c ≡ (err e, d)
      → p.retry_if e ≡ false
      → env.retry A p n m c ≡ (err e, d)
  pub give_up :
      (A : Type 0) (p : RetryPolicy) (n : ℕ) (m : Exec (Client W) A) (c d : Client W) (e : Exn)
      → m c ≡ (err e, d)
      → p.stop_after_attempt ≤ n
      → env.retry A p n m c ≡ (err e, d)
  pub again :
      (A : Type 0) (p : RetryPolicy) (n : ℕ) (m : Exec (Client W) A) (c d : Client W) (e : Exn)
      → m c ≡ (err e, d)
      → p.retry_if e ≡ true
      → n < p.stop_after_attempt
      → env.retry A p n m c ≡ env.retry A p (suc n) m (record d { world = env.pause p n d.world })
