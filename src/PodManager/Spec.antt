-- ===== src/PodManager/Spec.antt =====
-- `get_or_create` as an operation on the tracked pods alone, and the proof that the method
-- implements it whatever the cluster answers.
use native.Mathlib.Decide.{dec_lt}
use open_terminal_k8s_proxy.Base.{
  ℕ, ◌≤◌, ◌<◌, ◌≡◌, refl, sym, subst, inl, inr, String, none, some, [], ◌∷◌, length, arith,
  Option-cases,
}
use open_terminal_k8s_proxy.Base.Dict
use open_terminal_k8s_proxy.Base.Dict.{Dict, Distinct, Every-get}
use open_terminal_k8s_proxy.Base.Exec.{Exn, Result, ok, err, on, swallow, ◌>>=◌}
use open_terminal_k8s_proxy.Kube.{Env}
use open_terminal_k8s_proxy.Models.{TerminalPod, running, user_id_to_hash, create}
use open_terminal_k8s_proxy.PodManager.{Manager}
use open_terminal_k8s_proxy.PodManager.Create.{reuse, make_room, make, get_or_create}
use open_terminal_k8s_proxy.PodManager.Creation.{IsOwn, build_lem}
use open_terminal_k8s_proxy.PodManager.Methods.{evict_oldest}
use open_terminal_k8s_proxy.PodManager.Removal.{evict_oldest_lem}
use open_terminal_k8s_proxy.Storage.{touch_pvc}

-- No key stands twice, and every tracked pod runs under the names of its key.
pub record IsSound {W : Type 0} (s : Manager W) : Type 0 where
  pub distinct : Distinct s.pods
  pub own : Dict.Every IsOwn s.pods

-- The pods `r` that are left of `d` when there has to be room for one more.
pub data Room (limit : ℕ) (d r : Dict TerminalPod) : Type 0 where
  spare : length d < limit → r ≡ d → Room limit d r
  empty : d ≡ [] → r ≡ d → Room limit d r
  evicted :
      limit ≤ length d
      → (h : String) (t : TerminalPod) → Dict.get h d ≡ some t
      → Dict.Every (λ _ u. t.last_active_at ≤ u.last_active_at) d
      → r ≡ Dict.remove h d
      → Room limit d r

-- A call for the key `h` takes the tracked pods `d` to `e` and returns `x`.
pub data Outcome (limit : ℕ) (h : String) (d e : Dict TerminalPod) (x : Result TerminalPod)
    : Type 0 where
  reused :
      (t : TerminalPod) (now : ℕ)
      → Dict.get h d ≡ some t
      → x ≡ ok (record t { last_active_at = now })
      → e ≡ Dict.put h (record t { last_active_at = now }) d
      → Outcome limit h d e x
  created :
      (r : Dict TerminalPod) (t : TerminalPod)
      → Dict.get h d ≡ none
      → Room limit d r
      → IsOwn h t
      → x ≡ ok t
      → e ≡ Dict.put h t r
      → Outcome limit h d e x
  failed :
      (r : Dict TerminalPod) (n : Exn)
      → Dict.get h d ≡ none
      → Room limit d r
      → x ≡ err n
      → e ≡ r
      → Outcome limit h d e x

module _ {W : Type 0} ⦃env : Env W⦄ where
  abbrev pub limit : Env W → ℕ
  limit e = e.settings.max_concurrent_pods

  roomy : (s : Manager W) → length s.pods < limit env → make_room s ≡ (ok tt, s)
  unfolding make_room ◌>>=◌
  roomy s h = ground arith

  crowded : (s : Manager W) → ¬ (length s.pods < limit env) → make_room s ≡ evict_oldest s
  unfolding make_room ◌>>=◌
  crowded s h = ground arith

  nothing_to_evict : (s : Manager W) → s.pods ≡ [] → evict_oldest s ≡ (ok tt, s)
  unfolding evict_oldest ◌>>=◌
  nothing_to_evict s p = ground (arith, p)

  evict-Room :
      (s : Manager W) (d : Dict TerminalPod)
      → s.pods ≡ d
      → Distinct s.pods
      → ¬ (length s.pods < limit env)
      → ((evict_oldest s).0 ≡ ok tt) × Room (limit env) s.pods (evict_oldest s).1.pods
  evict-Room s [] p u full = rw (nothing_to_evict s p) (refl, empty p refl)
  evict-Room s (e ∷ d) p u full =
      let (h, t, known, least, done, left) = evict_oldest_lem s u (λ q. cc) in
      (done, evicted (omega arith) h t known least left)

  -- Making room never raises.
  pub make_room-Room :
      (s : Manager W)
      → Distinct s.pods
      → ((make_room s).0 ≡ ok tt) × Room (limit env) s.pods (make_room s).1.pods
  make_room-Room s u = elim (dec_lt (length s.pods) (limit env)) [
    | yes h ↦ rw (roomy s h) (refl, spare h refl)
    | no h ↦ rw (crowded s h) (evict-Room s s.pods refl u h)
  ]

  pub reuse_lem :
      (h : String) (t : TerminalPod) (s : Manager W)
      → (now : ℕ) × ((reuse h t s).0 ≡ ok (record t { last_active_at = now }))
        × ((reuse h t s).1.pods ≡ Dict.put h (record t { last_active_at = now }) s.pods)
  unfolding reuse on touch_pvc swallow ◌>>=◌
  reuse_lem h t s = ((env.utcnow s.storage.client.world).0, ground arith, ground arith)

  make_lem :
      (user_id h : String) (s : Manager W)
      → h ≡ user_id_to_hash env.codecs user_id
      → Distinct s.pods
      → Dict.get h s.pods ≡ none
      → Outcome (limit env) h s.pods (make user_id h s).1.pods (make user_id h s).0
  unfolding make ◌>>=◌
  make_lem user_id h s p u new =
      let (done, room) = make_room-Room s u in
      let after = (make_room s).1 in
      elim (build_lem user_id h after) [
        | inl (t, o, e, own) ↦
            created after.pods t new room (subst (λ k. IsOwn k t) (sym p) own)
              (ground (arith, done, o)) (ground (arith, done, e))
        | inr (x, o, e) ↦
            failed after.pods x new room (ground (arith, done, o)) (ground (arith, done, e))
      ]

  -- The state after the clock was read.
  abbrev pub clocked : Manager W → Manager W
  clocked s = record s {
    storage = record s.storage {
      client = record s.storage.client { world = (env.utcnow s.storage.client.world).1 };
    };
  }

  call_new :
      (user_id : String) (s : Manager W)
      → Dict.get (user_id_to_hash env.codecs user_id) s.pods ≡ none
      → get_or_create user_id s ≡ make user_id (user_id_to_hash env.codecs user_id) (clocked s)
  unfolding get_or_create create on ◌>>=◌
  call_new user_id s new = rw new

  pub call_known :
      (user_id : String) (s : Manager W) (t : TerminalPod)
      → Dict.get (user_id_to_hash env.codecs user_id) s.pods ≡ some t
      → t.state ≡ running
      → get_or_create user_id s ≡ reuse (user_id_to_hash env.codecs user_id) t (clocked s)
  unfolding get_or_create create on ◌>>=◌
  call_known user_id s t known runs = rw known (rw runs)

  -- From sound tracked pods, a call of `get_or_create` returns the running pod of the user with a
  -- new time of last activity, if one is tracked; else, after making room, it returns a new running
  -- pod with the names of the user's hash and tracks it, or raises and tracks nothing new.
  pub get_or_create-Outcome :
      (user_id : String) (s : Manager W)
      → IsSound s
      → Outcome
          (limit env)
          (user_id_to_hash env.codecs user_id)
          s.pods
          (get_or_create user_id s).1.pods
          (get_or_create user_id s).0
  get_or_create-Outcome user_id s v =
      let h = user_id_to_hash env.codecs user_id in
      elim (Option-cases (Dict.get h s.pods)) [
        | inl new ↦ rw (call_new user_id s new) (make_lem user_id h (clocked s) refl v.distinct new)
        | inr (t, known) ↦
            let (now, o, e) = reuse_lem h t (clocked s) in
            rw (call_known user_id s t known (Every-get IsOwn h t s.pods v.own known).runs)
              (reused t now known o e)
      ]
