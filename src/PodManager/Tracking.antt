-- ===== src/PodManager/Tracking.antt =====
-- What a call of `get_or_create` means for the tracked pods: from the outcomes of `Spec`.
use open_terminal_k8s_proxy.Base.{
  ℕ, ◌+◌, ◌≤◌, max, ◌≡◌, ◌≢◌, sym, ap, subst, ◌⊎◌, inl, String, none, some, eq_iff, length, arith,
}
use open_terminal_k8s_proxy.Base.Dict
use open_terminal_k8s_proxy.Base.Dict.{
  Dict, Distinct, get-put, get-remove, Every-put, Every-remove, Distinct-put, Distinct-remove,
  length-put-le, length-put_known, length-remove-le, length-remove-lt, Every-get,
}
use open_terminal_k8s_proxy.Base.Exec.{Exn, Result, ok, err}
use open_terminal_k8s_proxy.Kube.{Env}
use open_terminal_k8s_proxy.Models.{TerminalPod, user_id_to_hash}
use open_terminal_k8s_proxy.PodManager.{Manager}
use open_terminal_k8s_proxy.PodManager.Create.{get_or_create}
use open_terminal_k8s_proxy.PodManager.Creation.{IsOwn}
use open_terminal_k8s_proxy.PodManager.Spec.{
  IsSound, Room, spare, empty, evicted, Outcome, reused, created, failed, get_or_create-Outcome,
}

module _ {limit : ℕ} {d r : Dict TerminalPod} where
  pub Room-Distinct : Room limit d r → Distinct d → Distinct r
  Room-Distinct (spare h e) u = subst Distinct (sym e) u
  Room-Distinct (empty h e) u = subst Distinct (sym e) u
  Room-Distinct (evicted full h t known least e) u = subst Distinct (sym e) (Distinct-remove h d u)

  pub Room-Every : Room limit d r → Dict.Every IsOwn d → Dict.Every IsOwn r
  Room-Every (spare h e) o = subst (Dict.Every IsOwn) (sym e) o
  Room-Every (empty h e) o = subst (Dict.Every IsOwn) (sym e) o
  Room-Every (evicted full h t known least e) o =
      subst (Dict.Every IsOwn) (sym e) (Every-remove IsOwn h d o)

  pub Room-length :
      Room limit d r → (length r + 1 ≤ max (length d) (max 1 limit)) × (length r ≤ length d)
  Room-length (spare h e) = (omega (arith, ap length e), omega (arith, ap length e))
  Room-length (empty h e) = (omega (arith, ap length e, ap length h), omega (arith, ap length e))
  Room-length (evicted full h t known least e) =
      let shorter = length-remove-lt h t d known in
      (omega (arith, ap length e, shorter), omega (arith, ap length e, shorter))

  Room-get :
      (j : String)
      → Room limit d r
      → (Dict.get j r ≡ Dict.get j d) ⊎ ((Dict.get j r ≡ none) × (limit ≤ length d))
  Room-get j (spare h e) = inl (ap (Dict.get j) e)
  Room-get j (empty h e) = inl (ap (Dict.get j) e)
  Room-get j (evicted full h t known least e) = ground (arith, e, get-remove h j d)

IsOwn-touch :
    (h : String) (t : TerminalPod) (now : ℕ)
    → IsOwn h t
    → IsOwn h (record t { last_active_at = now })
IsOwn-touch h t now o = record {
  runs = o.runs;
  hash = o.hash;
  service = o.service;
  secret = o.secret;
}

module _ {limit : ℕ} {h : String} {d e : Dict TerminalPod} {x : Result TerminalPod} where
  Outcome-Distinct : Outcome limit h d e x → Distinct d → Distinct e
  Outcome-Distinct (reused t now known o p) u = subst Distinct (sym p) (Distinct-put h _ d u)
  Outcome-Distinct (created r t new room own o p) u =
      subst Distinct (sym p) (Distinct-put h t r (Room-Distinct room u))
  Outcome-Distinct (failed r n new room o p) u = subst Distinct (sym p) (Room-Distinct room u)

  Outcome-Every : Outcome limit h d e x → Dict.Every IsOwn d → Dict.Every IsOwn e
  Outcome-Every (reused t now known o p) a =
      subst (Dict.Every IsOwn) (sym p)
        (Every-put IsOwn h _ d (IsOwn-touch h t now (Every-get IsOwn h t d a known)) a)
  Outcome-Every (created r t new room own o p) a =
      subst (Dict.Every IsOwn) (sym p) (Every-put IsOwn h t r own (Room-Every room a))
  Outcome-Every (failed r n new room o p) a = subst (Dict.Every IsOwn) (sym p) (Room-Every room a)

  Outcome-length : Outcome limit h d e x → length e ≤ max (length d) (max 1 limit)
  Outcome-length (reused t now known o p) =
      omega (arith, ap length p, length-put_known h (record t { last_active_at = now }) t d known)
  Outcome-length (created r t new room own o p) =
      omega (arith, ap length p, length-put-le h t r, (Room-length room).0)
  Outcome-length (failed r n new room o p) = omega (arith, ap length p, (Room-length room).1)

  Outcome-ok :
      (t : TerminalPod)
      → Dict.Every IsOwn d
      → Outcome limit h d e x
      → x ≡ ok t
      → (Dict.get h e ≡ some t) × IsOwn h t
  Outcome-ok t a (reused u now known o p) q =
      let fresh : TerminalPod = record u { last_active_at = now } in
      let same : fresh ≡ t = cc (o, q) in
      (
        ground (arith, p, same, get-put h h fresh d, eq_iff h h),
        subst (IsOwn h) same (IsOwn-touch h u now (Every-get IsOwn h u d a known)),
      )
  Outcome-ok t a (created r u new room own o p) q =
      let same : u ≡ t = cc (o, q) in
      (ground (arith, p, same, get-put h h u r, eq_iff h h), subst (IsOwn h) same own)
  Outcome-ok t a (failed r n new room o p) q = cc

  Outcome-err :
      (n : Exn) → Outcome limit h d e x → x ≡ err n → (Dict.get h d ≡ none) × (Dict.get h e ≡ none)
  Outcome-err n (reused t now known o p) q = cc
  Outcome-err n (created r t new room own o p) q = cc
  Outcome-err n (failed r m new room o p) q = (new, ground (arith, p, new, Room-get h room))

  Outcome-other :
      (j : String)
      → j ≢ h
      → Outcome limit h d e x
      → (Dict.get j e ≡ Dict.get j d)
        ⊎ ((Dict.get j e ≡ none) × (limit ≤ length d) × (Dict.get h d ≡ none))
  Outcome-other j n (reused t now known o p) =
      inl (ground (arith, p, get-put h j (record t { last_active_at = now }) d, eq_iff h j))
  Outcome-other j n (created r t new room own o p) =
      ground (arith, p, new, get-put h j t r, eq_iff h j, Room-get j room)
  Outcome-other j n (failed r m new room o p) = ground (arith, p, new, Room-get j room)

module _ {W : Type 0} ⦃env : Env W⦄ (user_id : String) (s : Manager W) (v : IsSound s) where
  abbrev hash : String
  hash = user_id_to_hash env.codecs user_id

  abbrev after : Manager W
  after = (get_or_create user_id s).1

  pub get_or_create-IsSound : IsSound after
  get_or_create-IsSound =
      let o = get_or_create-Outcome user_id s v in
      record { distinct = Outcome-Distinct o v.distinct; own = Outcome-Every o v.own }

  -- From sound tracked pods, a call of `get_or_create` leaves at most `max_concurrent_pods` pods
  -- tracked, or as many as before if they were more, or one if the limit is 0.
  pub get_or_create-capacity :
      length after.pods ≤ max (length s.pods) (max 1 env.settings.max_concurrent_pods)
  get_or_create-capacity = Outcome-length (get_or_create-Outcome user_id s v)

  -- From sound tracked pods, what `get_or_create` returns is a running pod with the names of the
  -- user's hash, and it is the pod that is then tracked under that hash.
  pub get_or_create_returns :
      (t : TerminalPod)
      → (get_or_create user_id s).0 ≡ ok t
      → (Dict.get hash after.pods ≡ some t) × IsOwn hash t
  get_or_create_returns t q = Outcome-ok t v.own (get_or_create-Outcome user_id s v) q

  -- From sound tracked pods, if `get_or_create` raises, then the user had no pod and has none.
  pub get_or_create_raises :
      (n : Exn)
      → (get_or_create user_id s).0 ≡ err n
      → (Dict.get hash s.pods ≡ none) × (Dict.get hash after.pods ≡ none)
  get_or_create_raises n q = Outcome-err n (get_or_create-Outcome user_id s v) q

  -- From sound tracked pods, `get_or_create` leaves the pod of any other hash as it is, or drops it,
  -- and then only with the limit reached before and no pod for the user.
  get_or_create_others :
      (j : String)
      → j ≢ hash
      → (Dict.get j after.pods ≡ Dict.get j s.pods)
        ⊎ ((Dict.get j after.pods ≡ none)
            × (env.settings.max_concurrent_pods ≤ length s.pods)
            × (Dict.get hash s.pods ≡ none))
  get_or_create_others j n = Outcome-other j n (get_or_create-Outcome user_id s v)
