-- ===== src/Storage.antt =====
-- terminal_proxy/storage.py: `StorageManager`.
pub mod Expiry
use open_terminal_k8s_proxy.Base.{
  ℕ, ◌+◌, ◌*◌, Bool, true, false, String, ◌==◌, ◌||◌, not, Option, none, some, List, [], ◌∷◌, leb,
  ltb, truthy, any, if◌then◌else◌,
}
use open_terminal_k8s_proxy.Base.Dict
use open_terminal_k8s_proxy.Base.Dict.{Dict}
use open_terminal_k8s_proxy.Base.Exec.{
  type_error, ok, Exec, pure, raise, gets, modify, attempt, swallow, on, ◌>>=◌, ◌>>◌,
}
use open_terminal_k8s_proxy.Codecs.{Codecs, Iso, naive, aware, invalid}
use open_terminal_k8s_proxy.Config.{Settings, StorageMode, per_user, shared, shared_rwo}
use open_terminal_k8s_proxy.Kube.{Client, Env, Pvc}
use open_terminal_k8s_proxy.Kube.Methods
use open_terminal_k8s_proxy.PodBuilder.Shared.{shared_pvc_name, last_active_annotation}
use open_terminal_k8s_proxy.PodBuilder.Claims.{build_pvc_manifest}

-- The state of the manager, with the client that it calls.
pub record Storage (W : Type 0) : Type 0 where
  pub client : Client W
  pub shared_pvc_node : Option String

abbrev pub is_shared_mode : StorageMode → Bool
is_shared_mode shared = true
is_shared_mode shared_rwo = true
is_shared_mode _ = false

abbrev pub is_per_user : StorageMode → Bool
is_per_user per_user = true
is_per_user _ = false

abbrev access_mode : StorageMode → String
access_mode shared = "ReadWriteMany"
access_mode _ = "ReadWriteOnce"

-- `(pvc.metadata.labels or {}).get("user-id-hash", "")`
abbrev pub owner_in : Option String → String
owner_in none = ""
owner_in (some h) = h

abbrev or_empty : Option (Dict String) → Dict String
or_empty none = []
or_empty (some d) = d

abbrev pub owner : Pvc → String
owner pvc = owner_in (Dict.get "user-id-hash" (or_empty pvc.labels))

abbrev pub user_pvc_labels : Settings → String → Dict String
user_pvc_labels cfg user_hash =
    ("app", cfg.labels_app)
    ∷ ("managed-by", cfg.labels_managed_by)
    ∷ ("user-id-hash", user_hash)
    ∷ ("type", "user")
    ∷ []

-- When a claim was last in use: unknown, a time, or a time with a zone.
pub data LastUse : Type 0 where
  unknown : LastUse
  last_used zoned : ℕ → LastUse

abbrev stamp : Option ℕ → LastUse
stamp none = unknown
stamp (some t) = last_used t

abbrev parsed : Iso → LastUse
parsed (naive t) = last_used t
parsed (aware t) = zoned t
parsed invalid = unknown

-- The annotation if there is one that is not empty, else the time of creation, from which the zone
-- is taken away.
unfoldable pub last_use : Codecs → Pvc → LastUse
last_use lib pvc = elim (truthy (Dict.get last_active_annotation (or_empty pvc.annotations))) [
  | none ↦ stamp pvc.creation_timestamp
  | some text ↦ parsed (lib.fromisoformat text)
]

module _ {W : Type 0} ⦃env : Env W⦄ where
  abbrev pub on_client : {A : Type 0} → Exec (Client W) A → Exec (Storage W) A
  on_client m = on (λ s. s.client) (λ c s. record s { client = c }) m

  abbrev pub utcnow : Exec (Client W) ℕ
  utcnow c = let (now, w) = env.utcnow c.world in (ok now, record c { world = w })

  unfoldable pub ensure_shared_pvc : Exec (Storage W) (Option String)
  ensure_shared_pvc =
      let cfg = env.settings in
      if not (is_shared_mode cfg.storage_mode) then pure none else do
        existing ← on_client (Methods.get_pvc shared_pvc_name)
        elim existing [
          | some pvc ↦ pure (some shared_pvc_name)
          | none ↦ do
            on_client (
                Methods.create_pvc (
                  build_pvc_manifest shared_pvc_name cfg.storage_shared_size cfg.storage_class_name
                    (access_mode cfg.storage_mode)
                    (("app", cfg.labels_app)
                      ∷ ("managed-by", cfg.labels_managed_by)
                      ∷ ("type", "shared")
                      ∷ [])
                    []))
            pure (some shared_pvc_name)
        ]

  -- Only a node that was found is kept.
  unfoldable pub get_shared_pvc_node : Exec (Storage W) (Option String)
  get_shared_pvc_node = do
    known ← gets (λ s. s.shared_pvc_node)
    elim env.settings.storage_mode [
      | shared_rwo ↦ elim (truthy known) [
        | some node ↦ pure known
        | none ↦ do
          found ← on_client (Methods.get_shared_pvc_node shared_pvc_name)
          modify (λ s. record s { shared_pvc_node = found })
          pure found
      ]
      | _ ↦ pure none
    ]

  -- A failure is logged and no more.
  unfoldable pub touch_pvc : String → Exec (Storage W) Unit
  touch_pvc pvc_name = swallow (
      on_client (do
        now ← utcnow
        Methods.annotate_pvc pvc_name ((last_active_annotation, env.codecs.isoformat now) ∷ [])))

  unfoldable pub create_user_pvc : String → String → Exec (Storage W) Bool
  create_user_pvc pvc_name user_hash =
      let cfg = env.settings in
      if not (is_per_user cfg.storage_mode) then pure false else do
        existing ← on_client (Methods.get_pvc pvc_name)
        elim existing [
          | some pvc ↦ do touch_pvc pvc_name; pure true
          | none ↦ do
            now ← on_client utcnow
            on_client (
                Methods.create_pvc (
                  build_pvc_manifest pvc_name cfg.storage_per_user_size cfg.storage_class_name
                    "ReadWriteOnce" (user_pvc_labels cfg user_hash)
                    ((last_active_annotation, env.codecs.isoformat now) ∷ [])))
            pure true
        ]

  unfoldable pub delete_user_pvc : String → Exec (Storage W) Unit
  delete_user_pvc pvc_name =
      if not (is_per_user env.settings.storage_mode)
      then pure tt
      else swallow (on_client (Methods.delete_pvc pvc_name))

  -- The loop's body. Subtracting a time with a zone from one without raises `TypeError`.
  abbrev expire : ℕ → ℕ → String → LastUse → Exec (Storage W) Unit
  expire now ttl pvc_name unknown = pure tt
  expire now ttl pvc_name (zoned t) = raise type_error
  expire now ttl pvc_name (last_used t) =
      if ltb (t + ttl) now then delete_user_pvc pvc_name else pure tt

  unfoldable pub expire_all : ℕ → ℕ → List String → List Pvc → Exec (Storage W) Unit
  expire_all now ttl active [] = pure tt
  expire_all now ttl active (pvc ∷ pvcs) =
      let rest = expire_all now ttl active pvcs in
      if any (λ h. h == owner pvc) active
      then rest
      else expire now ttl pvc.name (last_use env.codecs pvc) >> rest

  unfoldable pub list_or_none : Exec (Storage W) (Option (List Pvc))
  list_or_none =
      attempt (do pvcs ← on_client Methods.list_user_pvcs; pure (some pvcs)) (λ _. pure none)

  unfoldable pub cleanup_expired_pvcs : List String → Exec (Storage W) Unit
  cleanup_expired_pvcs active =
      let cfg = env.settings in
      if not cfg.storage_retain_pvc || leb cfg.storage_pvc_retention_ttl_seconds 0
      then pure tt
      else if not (is_per_user cfg.storage_mode)
      then pure tt
      else do
        now ← on_client utcnow
        listed ← list_or_none
        elim listed [
          | none ↦ pure tt
          | some pvcs ↦ expire_all now (cfg.storage_pvc_retention_ttl_seconds * 1000000) active pvcs
        ]
