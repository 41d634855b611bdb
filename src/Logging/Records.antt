-- ===== src/Logging/Records.antt =====
-- What can be read off a log entry.
use open_terminal_k8s_proxy.Base.{
  ◌≡◌, refl, ◌∙◌, subst, true, false, String, ◌==◌, eq_iff, Option, none, some, if◌then◌else◌, inl,
  inr, Bool-cases, [], ◌∷◌,
}
use open_terminal_k8s_proxy.Base.Dict
use open_terminal_k8s_proxy.Base.Dict.{Dict, put_some, get-put}
use open_terminal_k8s_proxy.Json.{Json, text}
use open_terminal_k8s_proxy.Logging.{LogRecord, Formats, log_data, exception_text}

-- The entry of a key: the four that every record has, and those that the record brings.
abbrev entry_of : Formats → LogRecord → String → Option Json
entry_of lib r k =
    if "duration_ms" == k
    then r.duration_ms
    else if "pod_name" == k
    then r.pod_name
    else if "user_id" == k
    then r.user_id
    else if "exception" == k
    then exception_text lib r.exc_info
    else if "timestamp" == k
    then some (text (lib.format_time r.created))
    else if "level" == k
    then some (text r.levelname)
    else if "logger" == k
    then some (text r.name)
    else if "message" == k
    then some (text r.message)
    else none

abbrev or_from : Option Json → Option Json → Option Json
or_from none w = w
or_from (some v) w = some v

get-put_some :
    (j k : String) (v : Option Json) (d : Dict Json)
    → Dict.get k (put_some j v d) ≡ (if j == k then or_from v (Dict.get k d) else Dict.get k d)
get-put_some j k none d = elim (Bool-cases (j == k)) [ inl e ↦ rw e refl | inr e ↦ rw e refl ]
get-put_some j k (some v) d = get-put j k v d

-- A key that only `put_some` may bring.
over :
    (j k : String) (v w : Option Json) (d : Dict Json)
    → (j == k) ≡ false
    → Dict.get k d ≡ w
    → Dict.get k (put_some j v d) ≡ w
over j k v w d e h = get-put_some j k v d ∙ rw e h

under :
    (j k : String) (v : Option Json) (d : Dict Json)
    → (j == k) ≡ true
    → Dict.get k d ≡ none
    → Dict.get k (put_some j v d) ≡ v
under j k none d e h = h
under j k (some v) d e h = get-put j k v d ∙ rw e refl

optional :
    (j k : String) (v w : Option Json) (d : Dict Json)
    → Dict.get j d ≡ none
    → Dict.get k d ≡ w
    → Dict.get k (put_some j v d) ≡ (if j == k then v else w)
optional j k v w d absent h = elim (Bool-cases (j == k)) [
  | inl e ↦
      let missing = subst (λ i. Dict.get i d ≡ none) ((eq_iff j k).0 e) absent in
      under j k v d e missing ∙ rw e refl
  | inr e ↦ over j k v w d e h ∙ rw e refl
]

-- The log entry of a record holds, under each key, what the record has for it, and nothing else: no
-- attribute that a call adds hides the time, the level, the logger or the message.
log_data_lem :
    (lib : Formats) (r : LogRecord) (k : String) → Dict.get k (log_data lib r) ≡ entry_of lib r k
unfolding log_data Dict.get
log_data_lem lib r k =
    let base : Dict Json =
      ("timestamp", text (lib.format_time r.created))
      ∷ ("level", text r.levelname)
      ∷ ("logger", text r.name)
      ∷ ("message", text r.message)
      ∷ [] in
    let d1 = put_some "exception" (exception_text lib r.exc_info) base in
    let d2 = put_some "user_id" r.user_id d1 in
    let d3 = put_some "pod_name" r.pod_name d2 in
    let lacks_user : Dict.get "user_id" d1 ≡ none =
      over "exception" "user_id" _ none base refl refl in
    let lacks_pod : Dict.get "pod_name" d2 ≡ none =
      over "user_id" "pod_name" _ none d1 refl
        (over "exception" "pod_name" _ none base refl refl) in
    let lacks_duration : Dict.get "duration_ms" d3 ≡ none =
      over "pod_name" "duration_ms" _ none d2 refl (
        over "user_id" "duration_ms" _ none d1 refl
          (over "exception" "duration_ms" _ none base refl refl)) in
    optional "duration_ms" k r.duration_ms _ d3 lacks_duration (
      optional "pod_name" k r.pod_name _ d2 lacks_pod (
        optional "user_id" k r.user_id _ d1 lacks_user
          (optional "exception" k (exception_text lib r.exc_info) _ base refl refl)))
