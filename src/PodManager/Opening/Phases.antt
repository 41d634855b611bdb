-- ===== src/PodManager/Opening/Phases.antt =====
-- The phases of the creation of a pod, and steps that go from one to another.
use open_terminal_k8s_proxy.Base.{
  ℕ, ◌≤◌, ◌≡◌, ◌⊎◌, inl, inr, Option, none, some, List, [], ◌∷◌, arith,
}
use open_terminal_k8s_proxy.Base.Exec.{Result, ok, err, Exec, continue, ◌>>=◌, Preserves}
use open_terminal_k8s_proxy.Kube.{
  Client, Request, delete_namespaced_pod, delete_namespaced_pvc, delete_namespaced_service,
  delete_namespaced_secret, patch_namespaced_pvc, read_namespaced_pod, list_namespaced_pod,
  create_namespaced_pod, read_namespaced_pvc, create_namespaced_pvc, create_namespaced_service,
  create_namespaced_secret, http_get,
}
use open_terminal_k8s_proxy.PodManager.{Manager}
use open_terminal_k8s_proxy.PodManager.Opening.Holds.{ManagerHolds}

-- Claims, secret, pod, service, the wait, and the deletion of service, pod and secret; the
-- deletion of a claim would come after all these.
abbrev pub phase : Request → Option ℕ
phase (read_namespaced_pvc _ _) = some 0
phase (create_namespaced_pvc _ _) = some 0
phase (patch_namespaced_pvc _ _ _) = some 0
phase (list_namespaced_pod _ _) = some 0
phase (create_namespaced_secret _ _) = some 1
phase (create_namespaced_pod _ _) = some 2
phase (create_namespaced_service _ _) = some 3
phase (read_namespaced_pod _ _) = some 4
phase (http_get _) = some 4
phase (delete_namespaced_service _ _) = some 5
phase (delete_namespaced_pod _ _ _) = some 6
phase (delete_namespaced_secret _ _) = some 7
phase (delete_namespaced_pvc _ _) = some 8
phase _ = none

abbrev pub phases : List Request → List ℕ
phases [] = []
phases (r ∷ rs) = let rest = phases rs in elim (phase r) [ none ↦ rest | some p ↦ p ∷ rest ]

-- Of phases, the newest first: none comes after a later one, and none is later than `n`.
abbrev pub Ordered : ℕ → List ℕ → Type 0
Ordered n [] = Unit
Ordered n (p ∷ ps) = (p ≤ n) × Ordered p ps

Ordered-later : (n k : ℕ) (ps : List ℕ) → n ≤ k → Ordered n ps → Ordered k ps
Ordered-later n k [] le h = tt
Ordered-later n k (p ∷ ps) le h = (omega (arith, le, h.0), h.1)

pub record Upto {W : Type 0} (n : ℕ) (c : Client W) : Type 0 where
  pub ordered : Ordered n (phases c.sent)

-- Of the phase `n`, or of none.
abbrev pub IsOf : ℕ → Request → Type 0
IsOf n r = (phase r ≡ none) ⊎ (phase r ≡ some n)

pub Upto-send :
    {W : Type 0} (n : ℕ) (r : Request) (c : Client W)
    → IsOf n r
    → Upto n c
    → Ordered n (phases (r ∷ c.sent))
Upto-send n r c (inl e) h = rw (e, Ordered) h.ordered
Upto-send n r c (inr e) h = rw (e, Ordered) (omega arith, h.ordered)

-- A step that begins with no phase later than `i` and ends, in whatever way, with none later than `k`.
pub record Leads {W A : Type 0} (i k : ℕ) (m : Exec (Manager W) A) : Type 0 where
  pub at : (s : Manager W) → ManagerHolds (Upto i) s → ManagerHolds (Upto k) (m s).1

later :
    {W : Type 0} (i k : ℕ) (s : Manager W)
    → i ≤ k
    → ManagerHolds (Upto i) s
    → ManagerHolds (Upto k) s
later i k s le h = record {
  storage = record {
    client = record { ordered = Ordered-later i k _ le h.storage.client.ordered };
  };
}

pub Leads-step :
    {W A : Type 0} {m : Exec (Manager W) A} (i k : ℕ)
    → i ≤ k
    → Preserves (ManagerHolds (Upto k)) m
    → Leads i k m
Leads-step i k le kept = record { at = λ s h. kept.at s (later i k s le h) }

module _ {W A B : Type 0} (i j k : ℕ) where
  Leads-on :
      (r : Result A) (rest : A → Exec (Manager W) B) (s : Manager W)
      → j ≤ k
      → ((a : A) → Leads j k (rest a))
      → ManagerHolds (Upto j) s
      → ManagerHolds (Upto k) (continue r rest s).1
  Leads-on (ok a) rest s le goes_on h = (goes_on a).at s h
  Leads-on (err e) rest s le goes_on h = later j k s le h

  pub Leads-bind :
      (first : Exec (Manager W) A) (rest : A → Exec (Manager W) B)
      → j ≤ k
      → Leads i j first
      → ((a : A) → Leads j k (rest a))
      → Leads i k (first >>= rest)
  unfolding ◌>>=◌
  Leads-bind first rest le begins goes_on = record {
    at = λ s h. Leads-on (first s).0 rest (first s).1 le goes_on (begins.at s h);
  }
