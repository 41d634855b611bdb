-- ===== src/Models.antt =====
-- terminal_proxy/models.py: the terminal pod and the names that are made from a user's id.
pub mod Names
pub mod Labels
use Prim.Native.String.{slice}
use open_terminal_k8s_proxy.Base.{ℕ, String, ◌<>◌, Option, none, some}
use open_terminal_k8s_proxy.Codecs.{Codecs}

pub data PodState : Type 0 where
  creating running failed terminated : PodState

pub record TerminalPod : Type 0 where
  pub user_id : String
  pub user_hash : String
  pub pod_name : String
  pub service_name : String
  pub secret_name : String
  pub pvc_name : Option String
  pub api_key : String
  pub state : PodState
  pub created_at : ℕ
  pub last_active_at : ℕ
  pub pod_ip : Option String

-- The property `endpoint`.
unfoldable pub endpoint : TerminalPod → String
endpoint t = "http://" <> t.service_name <> ":8000"

module _ (lib : Codecs) where
  -- The first 12 hexadecimal digits of the SHA-256 hash of the id.
  unfoldable pub user_id_to_hash : String → String
  user_id_to_hash user_id = slice (lib.sha256_hexdigest user_id) 0 12

  -- `TerminalPod.create` at the time `now`.
  unfoldable pub create : ℕ → String → String → TerminalPod
  create now user_id api_key =
      let user_hash = user_id_to_hash user_id in
      record {
        user_id = user_id;
        user_hash = user_hash;
        pod_name = "terminal-" <> user_hash;
        service_name = "terminal-" <> user_hash;
        secret_name = "terminal-secret-" <> user_hash;
        pvc_name = some ("pvc-" <> user_hash);
        api_key = api_key;
        state = creating;
        created_at = now;
        last_active_at = now;
        pod_ip = none;
      }
