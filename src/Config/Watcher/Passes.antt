-- ===== src/Config/Watcher/Passes.antt =====
-- internal/config: which client the holder has after any passes of the watcher.
use mathlib.Core.Path.{subst}
use smeltry_operator.Base.{
  ◌≡◌, ◌≢◌, refl, sym, ◌∙◌, ap, String, Option, none, some, List, [], ◌∷◌, ◌||◌, str_eq, eq_iff,
  if◌then◌else◌, arith,
}
use smeltry_operator.Error.{Result, ok, err}
use smeltry_operator.Api.{Key}
use smeltry_operator.Kube.{ConfigMap, Secret}
use smeltry_operator.Effect.{body}
use smeltry_operator.Http.Client.{Client, new_client}
use smeltry_operator.Controller.Reply.{reply}
use smeltry_operator.Config.Holder.{NetboxHolder, get}
use smeltry_operator.Config.Watcher.{
  ConfigReconciler, entry, config_map_key, secret_key, reconcile_config,
}

-- A client that has an address and a token.
abbrev pub Complete : {W : Type 0} → Client W → Type 0
Complete c = (c.base_url ≢ "") × (c.token ≢ "")

-- The address and the token of a ConfigMap and a Secret, if both are there and neither is empty.
abbrev pub complete_settings : Result ConfigMap → Result Secret → Option (String × String)
complete_settings (ok cm) (ok secret) =
    let url = entry "netbox.url" cm.entries in
    let token = entry "netbox.token" secret.entries in
    if str_eq url "" || str_eq token "" then none else some (url, token)
complete_settings _ _ = none

module _ {W : Type 0} (r : ConfigReconciler W) where
  -- The settings that a pass in the world `w` finds.
  abbrev pub settings_at : W → Option (String × String)
  settings_at w =
      let (cm, w') = r.client.get_config_map (config_map_key r) w in
      complete_settings cm (r.client.get_secret (secret_key r) w').0

  -- The client of the latest settings that were found, latest first, or the one before all.
  abbrev pub latest : Client W → List (Option (String × String)) → Client W
  latest c [] = c
  latest c (none ∷ earlier) = latest c earlier
  latest c (some (url, token) ∷ earlier) = new_client r.send url token

  -- Passes of the watcher, each in any world, with what they found, latest first.
  pub data Passes (h : NetboxHolder (Client W))
      : List (Option (String × String)) → NetboxHolder (Client W) → Type 0 where
    started : Passes h [] h
    passed :
        {found : List (Option (String × String))} {h' : NetboxHolder (Client W)} (key : Key) (w : W)
        → Passes h found h'
        → Passes h (settings_at w ∷ found) (reconcile_config r key h' w).0.1

  pub reconcile_config_lem :
      (key : Key) (h : NetboxHolder (Client W)) (w : W)
      → (reconcile_config r key h w).0
        ≡ (reply none, record h { client = latest h.client (settings_at w ∷ []) })
  unfolding reconcile_config body
  reconcile_config_lem key h w = ground arith

  latest-step :
      (c : Client W) (s : Option (String × String)) (found : List (Option (String × String)))
      → latest (latest c found) (s ∷ []) ≡ latest c (s ∷ found)
  latest-step c none found = refl
  latest-step c (some (url, token)) found = refl

  complete_settings-Complete :
      (cm : Result ConfigMap) (secret : Result Secret) (c : Client W)
      → Complete c
      → Complete (latest c (complete_settings cm secret ∷ []))
  complete_settings-Complete (ok cm) (ok secret) c h = (
    λ e. ground (arith, eq_iff (entry "netbox.url" cm.entries) "", h.0),
    λ e. ground (arith, eq_iff (entry "netbox.token" secret.entries) "", h.1),
  )
  complete_settings-Complete (ok cm) (err e) c h = h
  complete_settings-Complete (err e) secret c h = h

  -- After any passes of the watcher, each in whatever world, the holder gives out the client of the
  -- latest pass that found both objects with neither setting empty, or the first client if there
  -- was none.
  pub Passes-latest :
      {h : NetboxHolder (Client W)} {found : List (Option (String × String))}
      {h' : NetboxHolder (Client W)}
      → Passes h found h'
      → get h' ≡ latest (get h) found
  unfolding get
  Passes-latest started = refl
  Passes-latest {h} (passed {found} {h'} key w runs) =
      ap (λ a. a.1.client) (reconcile_config_lem key h' w)
      ∙ (ap (λ c. latest c (settings_at w ∷ [])) (Passes-latest runs)
          ∙ latest-step h.client (settings_at w) found)

  pub Passes-Complete :
      {h : NetboxHolder (Client W)} {found : List (Option (String × String))}
      {h' : NetboxHolder (Client W)}
      → Passes h found h'
      → Complete (get h)
      → Complete (get h')
  unfolding get
  Passes-Complete started c = c
  Passes-Complete (passed {found} {h'} key w runs) c =
      subst Complete (sym (ap (λ a. a.1.client) (reconcile_config_lem key h' w))) (
        complete_settings-Complete (r.client.get_config_map (config_map_key r) w).0
          (r.client.get_secret (secret_key r) (r.client.get_config_map (config_map_key r) w).1).0
          h'.client (Passes-Complete runs c))
