-- ===== src/Startup/Safety.antt =====
-- main.go: with what the manager starts.
use smeltry_operator.Base.{
  ℕ, ◌≤◌, ◌≡◌, ◌≢◌, refl, ℤ, String, false, Option, none, some, ◌||◌, str_eq, eq_iff, All, arith,
}
use smeltry_operator.Error.{Error, Result}
use smeltry_operator.Kube.{Kube, Object}
use smeltry_operator.Effect.{Event, Go, Block, body, ◌>>=◌, call, check, value_or, silent}
use smeltry_operator.Effect.Emits.{
  Emits, Runs, Any, Ends, Runs-bind, Runs-checked, Runs-valued, Runs-pure, Runs-return,
  Runs-return_if, Runs-call, Emits-silent, Emits-logged,
}
use smeltry_operator.Rbac.{ensure_cluster_rbac}
use smeltry_operator.Telemetry.{Otel, Shutdown, setup}
use smeltry_operator.Config.Holder.{get, new_netbox_holder}
use smeltry_operator.Config.Watcher.Passes.{Complete}
use smeltry_operator.Startup.{
  Platform, Flags, Operator, Controller, exit_1, parsed_ttl, max, prepare, read_settings, set_up,
  set_up_all, operator,
}

-- A read, or a write of a cluster role or of its binding.
abbrev pub IsStartup : Event → Type 0
IsStartup (Event.get _ _) = Unit
IsStartup (Event.upsert (Object.cluster_role _) _) = Unit
IsStartup (Event.upsert (Object.cluster_role_binding _) _) = Unit
IsStartup _ = ⊥

setup-Emits : {W : Type 0} (o : Otel W) (endpoint : String) → Emits IsStartup Any (setup o endpoint)
unfolding setup body
setup-Emits o endpoint = record { at = λ w. ground arith }

ensure_cluster_rbac-Emits : {W : Type 0} (k : Kube W) → Emits IsStartup Any (ensure_cluster_rbac k)
unfolding ensure_cluster_rbac body
ensure_cluster_rbac-Emits k = record { at = λ w. ground arith }

module _ {W : Type 0} (p : Platform W) (flags : Flags) where
  abbrev pub Settings : ℤ × String × String × Shutdown W → Type 0
  Settings (ttl, url, token, _) =
      (p.client.parse_duration flags.audit_ttl ≡ some ttl) × (url ≢ "") × (token ≢ "")

  abbrev pub IsExit : ℕ → Type 0
  IsExit code = code ≡ 1

  -- A step of the sequence after another.
  then_runs :
      {A B : Type 0} (Q : A → Type 0) (S : B → Type 0) {m : Block W ℕ A} {f : A → Block W ℕ B}
      → Runs IsStartup IsExit Q m
      → ((a : A) → Q a → Runs IsStartup IsExit S (f a))
      → Runs IsStartup IsExit S (m >>= f)
  then_runs Q S {m} {f} hm hf = Runs-bind IsStartup IsExit Q S m f hm hf

  parsed_ttl-Runs :
      (ttl : Option ℤ) → Runs IsStartup IsExit (λ t. ttl ≡ some t) (parsed_ttl p flags ttl)
  parsed_ttl-Runs none = Runs-return IsStartup IsExit _ 1 refl
  parsed_ttl-Runs (some ttl) = Runs-pure IsStartup IsExit _ ttl refl

  checked :
      (m : W → Option Error × W)
      → Runs IsStartup IsExit Any (call (silent m) >>= check (exit_1 p flags))
  checked m = Runs-checked IsStartup IsExit _ _ (Emits-silent IsStartup m) λ _. refl

  valued :
      {A : Type 0} (m : Go W (Result A))
      → Emits IsStartup Any m
      → Runs IsStartup IsExit Any (call m >>= value_or (exit_1 p flags))
  valued m h = Runs-valued IsStartup IsExit m _ h λ _. refl

  both_filled :
      (url token : String) → (str_eq url "" || str_eq token "") ≡ false → (url ≢ "") × (token ≢ "")
  both_filled url token h =
      (λ e. ground (arith, eq_iff url ""), λ e. ground (arith, eq_iff token ""))

  read_settings-Runs : Runs IsStartup IsExit Settings (read_settings p flags)
  unfolding read_settings
  read_settings-Runs =
      then_runs _ _ (parsed_ttl-Runs (p.client.parse_duration flags.audit_ttl)) λ ttl parsed.
        then_runs Any _ (Runs-call IsStartup IsExit Any _ (Emits-silent IsStartup _)) λ _ _.
          then_runs Any _ (checked _) λ _ _. then_runs Any _ (checked _) λ _ _.
            then_runs Any _ (valued _ (Emits-logged IsStartup _ _ λ _. tt)) λ cm _.
              then_runs Any _ (valued _ (Emits-logged IsStartup _ _ λ _. tt)) λ secret _.
                then_runs _ _ (Runs-return_if IsStartup IsExit _ 1 λ _. refl) λ _ filled.
                  then_runs Any _ (valued _ (setup-Emits p.otel _)) λ shutdown _.
                    Runs-pure IsStartup IsExit Settings _
                      (parsed, (both_filled _ _ filled).0, (both_filled _ _ filled).1)

  set_up-Runs : (c : Controller W) → Runs IsStartup IsExit Any (set_up p flags c)
  set_up-Runs c = checked (p.setup_with_manager c)

  set_up_all-Runs : (op : Operator W) → Runs IsStartup IsExit Any (set_up_all p flags op)
  unfolding set_up_all
  set_up_all-Runs op =
      then_runs Any _
        (Runs-checked IsStartup IsExit _ _ (ensure_cluster_rbac-Emits p.bootstrap) λ _. refl)
        λ _ _. then_runs Any _ (set_up-Runs _) λ _ _. then_runs Any _ (set_up-Runs _) λ _ _.
          then_runs Any _ (set_up-Runs _) λ _ _. then_runs Any _ (set_up-Runs _) λ _ _.
            then_runs Any _ (set_up-Runs _) λ _ _.
              then_runs Any _ (set_up-Runs _) λ _ _. then_runs Any _ (checked _) λ _ _. checked _

  -- The holder's client has an address and a token, and the reconcilers of claims have the same;
  -- the default TTL that these write into audit events is the flag, which parses to the purge's
  -- own; there is at least one worker.
  pub record IsSafe (op : Operator W) : Type 0 where
    pub complete : Complete (get op.holder)
    pub url_held :
        (op.cluster.netbox_url ≡ (get op.holder).base_url)
        × (op.server.netbox_url ≡ (get op.holder).base_url)
    pub token_held :
        (op.cluster.netbox_token ≡ (get op.holder).token)
        × (op.server.netbox_token ≡ (get op.holder).token)
    pub ttl_given :
        (op.cluster.default_audit_ttl ≡ flags.audit_ttl)
        × (op.server.default_audit_ttl ≡ flags.audit_ttl)
    pub ttl_parsed : op.purge.client.parse_duration flags.audit_ttl ≡ some op.purge.default_ttl
    pub has_workers : 1 ≤ op.max_workers

  operator-IsSafe :
      (s : ℤ × String × String × Shutdown W)
      → Settings s
      → IsSafe (operator p flags s.0 s.1 s.2 s.3)
  unfolding operator get new_netbox_holder max
  operator-IsSafe (ttl, url, token, shutdown) (parsed, url_filled, token_filled) = record {
    complete = (url_filled, token_filled);
    url_held = (refl, refl);
    token_held = (refl, refl);
    ttl_given = (refl, refl);
    ttl_parsed = parsed;
    has_workers = ground arith;
  }

  prepare-Runs : Runs IsStartup IsExit IsSafe (prepare p flags)
  unfolding prepare
  prepare-Runs = then_runs Settings IsSafe read_settings-Runs λ s h.
      then_runs Any IsSafe (set_up_all-Runs (operator p flags s.0 s.1 s.2 s.3))
        λ _ _. Runs-pure IsStartup IsExit IsSafe _ (operator-IsSafe s h)

  -- Whatever the API server, the manager and the telemetry answer, everything before the start of
  -- the manager makes no call on the API but reads and the writes of cluster roles and their
  -- bindings, and it either exits with 1 or arrives at reconcilers with a complete Netbox client,
  -- one that the reconcilers of claims agree with, a default TTL that parses, and a worker.
  pub prepare-IsSafe :
      (w : W)
      → let (outcome, events, _) = prepare p flags w in
        All IsStartup events × Ends IsExit IsSafe outcome
  prepare-IsSafe w = prepare-Runs.at w
