-- ===== src/Telemetry.antt =====
-- internal/telemetry/otel.go: Setup.
use smeltry_operator.Base.{◌*◌, String, Option, none, ℤ, pos, str_eq, if◌then◌else◌}
use smeltry_operator.Error.{Error, Result, ok, err}
use smeltry_operator.Effect.{Go, ◌>>=◌, ◌>>◌, pure, call, check, body, silent}
use smeltry_operator.Controller.Reply.{second}

-- grpc.NewClient, otlptracegrpc.New on its connection, resource.New, the two setters of package
-- otel with the provider that is made of these, and the provider's Shutdown with a timeout.
pub record Otel (W : Type 0) : Type 0 where
  pub grpc_new_client : String → W → Option Error × W
  pub new_exporter : W → Option Error × W
  pub new_resource : String → W → Option Error × W
  pub set_tracer_provider : W → W
  pub set_text_map_propagator : W → W
  pub shutdown : ℤ → W → Option Error × W

abbrev pub Shutdown : Type 0 → Type 0
Shutdown W = W → Option Error × W

module _ {W : Type 0} (o : Otel W) where
  unfoldable pub install : String → Go W (Result (Shutdown W))
  install endpoint = body do
    call (silent (o.grpc_new_client endpoint)) >>= check err
    call (silent o.new_exporter) >>= check err
    call (silent (o.new_resource "smeltry-operator")) >>= check err
    call (silent λ w. (tt, o.set_tracer_provider w))
    call (silent λ w. (tt, o.set_text_map_propagator w))
    pure (ok (o.shutdown (pos (5 * second))))

  unfoldable pub setup : String → Go W (Result (Shutdown W))
  unfolding install
  setup endpoint =
      if str_eq endpoint "" then silent (λ w. (ok (λ v. (none, v)), w)) else install endpoint
