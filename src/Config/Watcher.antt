-- ===== src/Config/Watcher.antt =====
-- internal/config/watcher.go: ConfigReconciler.
pub mod Passes
pub mod Triggers
use smeltry_operator.Base.{
  String, Bool, true, false, Option, none, some, List, [], ◌∷◌, ◌||◌, str_eq, if◌then◌else◌,
}
use smeltry_operator.Error.{Error, Result}
use smeltry_operator.Api.{Key, named}
use smeltry_operator.Kube.{Kube}
use smeltry_operator.Effect.{
  Go, ◌>>=◌, ◌>>◌, pure, call, value_or, return_if, body, get_config_map, get_secret,
}
use smeltry_operator.Http.Types.{Request, Response}
use smeltry_operator.Http.Client.{Client, new_client}
use smeltry_operator.Controller.Reply.{Reply, reply}
use smeltry_operator.Config.Holder.{NetboxHolder, set}

-- `send` is the transport of the clients that are made.
pub record ConfigReconciler (W : Type 0) : Type 0 where
  pub client : Kube W
  pub send : Request → W → Result Response × W
  pub config_map_name : String
  pub secret_name : String
  pub namespace : String

-- A Go map at a key: the empty text where the key is not there.
abbrev pub entry : String → List (String × String) → String
entry key [] = ""
entry key ((k, v) ∷ rest) = if str_eq k key then v else entry key rest

module _ {W : Type 0} (r : ConfigReconciler W) where
  abbrev pub config_map_key : Key
  config_map_key = named r.config_map_name r.namespace

  abbrev pub secret_key : Key
  secret_key = named r.secret_name r.namespace

  unfoldable pub read_config : Go W (Result (String × String))
  read_config = body do
    cm ← call (get_config_map r.client config_map_key) >>= value_or Result.err
    secret ← call (get_secret r.client secret_key) >>= value_or Result.err
    pure (Result.ok (entry "netbox.url" cm.entries, entry "netbox.token" secret.entries))

  -- An answer, with the holder as the pass leaves it. The request names no object that is read.
  unfoldable pub reconcile_config :
      Key → NetboxHolder (Client W) → Go W (Reply × NetboxHolder (Client W))
  unfolding read_config set
  reconcile_config key holder = body do
    (url, token) ← call read_config >>= value_or (λ _. (reply none, holder))
    return_if (str_eq url "" || str_eq token "") (reply none, holder)
    pure (reply none, set (new_client r.send url token) holder)

-- What a watch reports of an object: the object, of an update as it is afterwards.
pub data WatchEvent : Type 0 where
  created updated deleted generic : Key → WatchEvent

unfoldable pub name_filter : String → WatchEvent → Bool
name_filter name (WatchEvent.created o) = str_eq o.name name
name_filter name (WatchEvent.updated o) = str_eq o.name name
name_filter name (WatchEvent.deleted o) = false
name_filter name (WatchEvent.generic o) = false

abbrev pub object_key : WatchEvent → Key
object_key (WatchEvent.created o) = o
object_key (WatchEvent.updated o) = o
object_key (WatchEvent.deleted o) = o
object_key (WatchEvent.generic o) = o

-- The two watches of SetupWithManager: what an event of a ConfigMap, or of a Secret, enqueues.
pub data Watched : Type 0 where
  config_map secret : WatchEvent → Watched

module _ {W : Type 0} (r : ConfigReconciler W) where
  abbrev pub enqueue_fixed : WatchEvent → List Key
  enqueue_fixed e = config_map_key r ∷ []

  unfoldable pub requests : Watched → List Key
  unfolding name_filter
  requests (Watched.config_map e) =
      if name_filter r.config_map_name e then object_key e ∷ [] else []
  requests (Watched.secret e) = if name_filter r.secret_name e then enqueue_fixed e else []
