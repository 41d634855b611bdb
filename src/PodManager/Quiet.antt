-- ===== src/PodManager/Quiet.antt =====
-- Calls that the manager makes for their effect on the cluster and whose failures it passes over.
use open_terminal_k8s_proxy.Base.{◌≡◌, refl, truthy, arith, Option-cases, Bool-cases, inl, inr}
use open_terminal_k8s_proxy.Base.Exec.{ok, Exec, pure, on, swallow, ◌>>=◌, ◌>>◌, Exec-cases}
use open_terminal_k8s_proxy.Kube.{Client, Env}
use open_terminal_k8s_proxy.Models.{TerminalPod}
use open_terminal_k8s_proxy.PodManager.{Manager, on_client, on_storage}
use open_terminal_k8s_proxy.PodManager.Methods.{delete_claim}
use open_terminal_k8s_proxy.Storage.{Storage, is_per_user}

-- `m` returns, and leaves the tracked pods and the metrics.
pub record IsQuiet {W : Type 0} (m : Exec (Manager W) Unit) : Type 0 where
  pub at :
      (s : Manager W)
      → ((m s).0 ≡ ok tt)
        × ((m s).1.pods ≡ s.pods)
        × ((m s).1.startup_durations ≡ s.startup_durations)

module _ {W : Type 0} where
  pub IsQuiet-pure : IsQuiet {W = W} (pure tt)
  unfolding pure
  IsQuiet-pure = record { at = λ s. (refl, refl, refl) }

  pub IsQuiet-then : (m n : Exec (Manager W) Unit) → IsQuiet m → IsQuiet n → IsQuiet (m >> n)
  unfolding ◌>>=◌
  IsQuiet-then m n km kn = record { at = λ s. ground (arith, km.at s, kn.at (m s).1) }

  pub IsQuiet-client : {A : Type 0} (m : Exec (Client W) A) → IsQuiet (swallow (on_client m))
  unfolding on swallow
  IsQuiet-client m = record {
    at = λ s. elim (Exec-cases m s.storage.client) [
      | inl (a, e) ↦ ground (arith, e)
      | inr (x, e) ↦ ground (arith, e)
    ];
  }

  pub IsQuiet-storage : {A : Type 0} (m : Exec (Storage W) A) → IsQuiet (swallow (on_storage m))
  unfolding on swallow
  IsQuiet-storage m = record {
    at = λ s. elim (Exec-cases m s.storage) [
      | inl (a, e) ↦ ground (arith, e)
      | inr (x, e) ↦ ground (arith, e)
    ];
  }

module _ {W : Type 0} ⦃env : Env W⦄ where
  pub IsQuiet-delete_claim : (t : TerminalPod) → IsQuiet {W = W} (delete_claim t)
  unfolding delete_claim
  IsQuiet-delete_claim t = elim (Option-cases (truthy t.pvc_name)) [
    | inl e ↦ rw (e, delete_claim) IsQuiet-pure
    | inr (name, e) ↦ elim (Bool-cases (is_per_user env.settings.storage_mode)) [
      | inr other ↦ rw (e, delete_claim, other) IsQuiet-pure
      | inl own ↦ elim (Bool-cases env.settings.storage_retain_pvc) [
        | inl keep ↦ rw (e, delete_claim, own, keep) (IsQuiet-storage _)
        | inr drop ↦ rw (e, delete_claim, own, drop) (IsQuiet-storage _)
      ]
    ]
  ]
