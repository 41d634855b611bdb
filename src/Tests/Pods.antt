-- ===== src/Tests/Pods.antt =====
-- The theorems on the pod manager at a concrete cluster, manager and users.
use open_terminal_k8s_proxy.Base.{
  ℕ, ◌*◌, ◌≤◌, ◌≡◌, ◌≢◌, refl, ap, ◌==◌, true, false, String, Option, none, some, [], ◌∷◌, arith,
  All, List,
}
use open_terminal_k8s_proxy.Base.Dict
use open_terminal_k8s_proxy.Base.Dict.{Dict, Distinct}
use open_terminal_k8s_proxy.Base.Exec.{Exn, api_exception, ok, err, on, ◌>>=◌, attempt, swallow}
use open_terminal_k8s_proxy.Access.{get_terminal_for_user}
use open_terminal_k8s_proxy.Access.Terminal.{Ending, asked, get_terminal_for_user-Ending}
use open_terminal_k8s_proxy.Kube.{Env, Request, create_namespaced_secret, Pvc}
use open_terminal_k8s_proxy.Kube.Methods
use open_terminal_k8s_proxy.Json.{text, member}
use open_terminal_k8s_proxy.PodBuilder.{Manifests, choose_storage, build_pod_for_user}
use open_terminal_k8s_proxy.PodBuilder.Pods.{build_pod_manifest}
use open_terminal_k8s_proxy.PodBuilder.Claims.{build_secret_manifest}
use open_terminal_k8s_proxy.PodBuilder.Services.{build_service_manifest}
use open_terminal_k8s_proxy.PodBuilder.Shared.{pod_labels}
use open_terminal_k8s_proxy.PodBuilder.Selection.{within, service-selects}
use open_terminal_k8s_proxy.Storage.{get_shared_pvc_node, expire_all}
use open_terminal_k8s_proxy.Kube.Ready.{wait_for_pod_ready}
use open_terminal_k8s_proxy.Kube.Waiting.{ClockLaws, wait_for_pod_ready_ends}
use open_terminal_k8s_proxy.Models.{TerminalPod, running, user_id_to_hash, create}
use open_terminal_k8s_proxy.Config.{per_user}
use open_terminal_k8s_proxy.PodManager.Requests.{MayClear, delete_pod-MayClear}
use open_terminal_k8s_proxy.Storage.Expiry.{MaySend, expire_all-MaySend}
use open_terminal_k8s_proxy.PodManager.{Manager}
use open_terminal_k8s_proxy.PodManager.Create.{
  get_or_create, create_pod_resources, build, make, make_room, fresh, prepare_storage, new_pod,
  launch,
}
use open_terminal_k8s_proxy.PodManager.Methods.{
  cleanup_idle_pods, delete_pod, evict_oldest, oldest_from, delete_claim,
}
use open_terminal_k8s_proxy.PodManager.Removal.{if_active, cleanup_idle_pods_lem, evict_oldest_lem}
use open_terminal_k8s_proxy.PodManager.Spec.{IsSound, Outcome, get_or_create-Outcome}
use open_terminal_k8s_proxy.Tests.World.{defaults, plain_codecs, world, world_laws, attempts}

-- A cluster that does all it is asked, and one that creates no secrets.
abbrev pub willing : Env ℕ
willing = world (λ _. none) defaults

abbrev refusing : Request → Option Exn
refusing (create_namespaced_secret _ _) = some (api_exception 403)
refusing _ = none

abbrev unwilling : Env ℕ
unwilling = world refusing defaults

-- A pod of `alice` that was last used at second 1, and a manager with the limit of one pod.
abbrev pub alices : TerminalPod
alices = record (create plain_codecs 1000000 "alice" "key") {
  pvc_name = none;
  state = running;
  pod_ip = some "10.0.0.7";
}

abbrev pub manager : Dict TerminalPod → Manager ℕ
manager pods = record {
  storage = record {
    client = record { world = 5000000000; namespace = "default"; initialized = true; sent = [] };
    shared_pvc_node = none;
  };
  pods = pods;
  startup_durations = [];
}

abbrev pub crowded : Manager ℕ
crowded = manager (("alice", alices) ∷ [])

pub crowded-IsSound : IsSound crowded
unfolding create user_id_to_hash Dict.get
crowded-IsSound = record {
  distinct = (refl, tt);
  own = (record { runs = refl; hash = refl; service = refl; secret = refl }, tt);
}

willing-clock : ClockLaws willing
willing-clock = record {
  reading = λ w. omega arith;
  answering = λ r w. omega arith;
  sleeping = λ n w. omega arith;
  pausing = λ n w. omega arith;
}

wait_for_pod_ready_ends_example :
    (wait_for_pod_ready ⦃env = willing⦄ "terminal-bob" "terminal-bob" 60
      (manager []).storage.client).0
    ≢ ok none
wait_for_pod_ready_ends_example =
    wait_for_pod_ready_ends ⦃env = willing⦄ willing-clock (world_laws (λ _. none) defaults)
      "terminal-bob" "terminal-bob" 60 (manager []).storage.client

get_or_create-Outcome_example :
    Outcome 1 "bob" crowded.pods
      (get_or_create ⦃env = willing⦄ "bob" crowded).1.pods
      (get_or_create ⦃env = willing⦄ "bob" crowded).0
unfolding user_id_to_hash
get_or_create-Outcome_example = get_or_create-Outcome ⦃env = willing⦄ "bob" crowded crowded-IsSound

denied : (get_or_create ⦃env = unwilling⦄ "bob" crowded).0 ≡ err (api_exception 403)
unfolding user_id_to_hash get_or_create new_pod launch make make_room build fresh
    create_pod_resources create Dict.get on ◌>>=◌ prepare_storage build_pod_for_user
    Methods.create_secret Methods.retried Methods.core_v1 Methods.init Methods.send evict_oldest
    delete_pod delete_claim attempt swallow attempts get_shared_pvc_node oldest_from choose_storage
    Methods.delete_service Methods.or_missing Methods.delete_pod Methods.delete_secret
    Methods.has_retryable_type
denied = refl

cleanup_idle_pods_lem_example :
    ((cleanup_idle_pods ⦃env = willing⦄ crowded).0 ≡ ok tt)
    × (Dict.get "alice" (cleanup_idle_pods ⦃env = willing⦄ crowded).1.pods
        ≡ if_active 5000000000 (3600 * 1000000) (Dict.get "alice" crowded.pods))
cleanup_idle_pods_lem_example =
    cleanup_idle_pods_lem ⦃env = willing⦄ crowded "alice" crowded-IsSound.distinct

evict_oldest_lem_example :
    (h : String) × (t : TerminalPod) × (Dict.get h crowded.pods ≡ some t)
    × Dict.Every (λ _ u. t.last_active_at ≤ u.last_active_at) crowded.pods
    × ((evict_oldest ⦃env = willing⦄ crowded).0 ≡ ok tt)
    × ((evict_oldest ⦃env = willing⦄ crowded).1.pods ≡ Dict.remove h crowded.pods)
evict_oldest_lem_example =
    evict_oldest_lem ⦃env = willing⦄ crowded crowded-IsSound.distinct (λ e. cc)

get_terminal_for_user-Ending_example :
    Ending "bob"
      (asked ⦃env = willing⦄ "bob" crowded)
      (get_terminal_for_user ⦃env = willing⦄ "bob" crowded).1
      (get_terminal_for_user ⦃env = willing⦄ "bob" crowded).0
unfolding user_id_to_hash
get_terminal_for_user-Ending_example =
    get_terminal_for_user-Ending ⦃env = willing⦄ "bob" crowded crowded-IsSound

none-some : ◌≢◌ {A = Option String} none (some "secret")
none-some e = cc

set : ◌≢◌ {A = String} "secret" ""
set e = let differ : true ≡ false = ap (λ k. k == "secret") e in cc

delete_pod-MayClear_example :
    All (MayClear alices) (delete_pod ⦃env = willing⦄ "alice" crowded).1.storage.client.sent
unfolding Dict.get
delete_pod-MayClear_example =
    delete_pod-MayClear ⦃env = willing⦄ (world_laws (λ _. none) defaults) alices "alice" crowded
      refl refl

-- A claim of `carol`, last used at second 1, and one of `alice`, used at the same time.
abbrev claims : List Pvc
claims =
    record {
      name = "pvc-carol";
      labels = some (("user-id-hash", "carol") ∷ []);
      annotations = none;
      creation_timestamp = some 1000000;
    }
    ∷ record {
      name = "pvc-alice";
      labels = some (("user-id-hash", "alice") ∷ []);
      annotations = none;
      creation_timestamp = some 1000000;
    }
    ∷ []

abbrev retaining : Env ℕ
retaining =
    world (λ _. none)
      (record defaults {
        storage_mode = per_user;
        storage_retain_pvc = true;
        storage_pvc_retention_ttl_seconds = 60;
      })

expire_all-MaySend_example :
    All
      (MaySend plain_codecs 5000000000 60000000 ("alice" ∷ []) claims)
      (expire_all ⦃env = retaining⦄ 5000000000 60000000
        ("alice" ∷ [])
        claims
        (manager []).storage).1.client.sent
expire_all-MaySend_example =
    expire_all-MaySend ⦃env = retaining⦄
      (world_laws (λ _. none)
        (record defaults {
          storage_mode = per_user;
          storage_retain_pvc = true;
          storage_pvc_retention_ttl_seconds = 60;
        }))
      5000000000 60000000 ("alice" ∷ []) claims (manager []).storage refl

abbrev pub manifests : Manifests
manifests = record {
  pod = build_pod_manifest alices defaults none none none none (some alices.secret_name);
  pvc = none;
  secret = build_secret_manifest alices.secret_name alices.api_key (pod_labels defaults alices);
  service = build_service_manifest alices defaults;
}

service-selects_example :
    within ("metadata" ∷ "labels" ∷ "app" ∷ []) manifests.pod ≡ some (text "open-terminal-user")
unfolding build_pod_for_user choose_storage build_service_manifest member
service-selects_example =
    service-selects plain_codecs alices defaults none manifests "app" (text "open-terminal-user")
      refl refl
