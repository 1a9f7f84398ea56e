-- ===== src/Config/Watcher/Triggers.antt =====
-- internal/config/watcher.go: which events lead to a pass, and what the pass does.
use smeltry_operator.Base.{◌≡◌, ◌∙◌, ap, String, some, [], ◌∷◌, eq_iff, arith}
use smeltry_operator.Http.Client.{Client, new_client}
use smeltry_operator.Config.Holder.{NetboxHolder, get}
use smeltry_operator.Config.Watcher.{
  ConfigReconciler, WatchEvent, Watched, config_map_key, secret_key, requests, name_filter,
  reconcile_config,
}
use smeltry_operator.Config.Watcher.Passes.{settings_at, reconcile_config_lem, latest}

module _ {W : Type 0} (r : ConfigReconciler W) where
  -- The configured ConfigMap or the configured Secret is there now, or has changed.
  pub data Changed : Watched → Type 0 where
    config_map_created : Changed (Watched.config_map (WatchEvent.created (config_map_key r)))
    config_map_updated : Changed (Watched.config_map (WatchEvent.updated (config_map_key r)))
    secret_created : Changed (Watched.secret (WatchEvent.created (secret_key r)))
    secret_updated : Changed (Watched.secret (WatchEvent.updated (secret_key r)))

  Changed-requests : (e : Watched) → Changed e → requests r e ≡ config_map_key r ∷ []
  unfolding requests name_filter
  Changed-requests _ config_map_created = ground (arith, eq_iff r.config_map_name r.config_map_name)
  Changed-requests _ config_map_updated = ground (arith, eq_iff r.config_map_name r.config_map_name)
  Changed-requests _ secret_created = ground (arith, eq_iff r.secret_name r.secret_name)
  Changed-requests _ secret_updated = ground (arith, eq_iff r.secret_name r.secret_name)

  -- When the configured ConfigMap or Secret is created or updated, one request is enqueued, and a
  -- pass for it at a time when both are there with neither setting empty puts a client with just
  -- these settings into the holder.
  pub Changed-renews :
      {e : Watched} (h : NetboxHolder (Client W)) (w : W) {url token : String}
      → Changed e
      → settings_at r w ≡ some (url, token)
      → (requests r e ≡ config_map_key r ∷ [])
        × (get (reconcile_config r (config_map_key r) h w).0.1 ≡ new_client r.send url token)
  unfolding get
  Changed-renews {e} h w {url} {token} changed found = (
    Changed-requests e changed,
    ap (λ a. a.1.client) (reconcile_config_lem r (config_map_key r) h w)
        ∙ ap (λ s. latest r h.client (s ∷ [])) found,
  )
