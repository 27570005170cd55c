-- ===== src/HttpServer/Tests.antt =====
-- Runs of the helpers of the servers.
use devkit_go.Prelude.{
  ℕ, ◌≡◌, ◌≤◌, ◌⊎◌, ◌↔◌, refl, Bool, true, false, Option, none, some, List, [], ◌∷◌, ok, map,
  length,
}
use devkit_go.Prelude.Text.{Text, codes, text_mem}
use devkit_go.HttpServer.Origins.{parse_origins, is_origin_allowed, wildcard, parse_origins-allowed}
use devkit_go.HttpServer.Config.{Config, default_config}
use devkit_go.HttpServer.RequestId.{validate_request_id, all_id_chars}
use devkit_go.HttpServer.Problem.{FiberError}

parsed : parse_origins (codes " a, ,b") ≡ ok (codes "a" ∷ codes "b" ∷ [])
unfolding parse_origins devkit_go.Prelude.Text.trim_space devkit_go.Prelude.Text.text_eq text_mem
    devkit_go.HttpServer.Origins.entries devkit_go.Prelude.Text.split
parsed = refl

-- Origins that are only commas are accepted, and allow nothing.
no_origins : parse_origins (codes ",") ≡ ok []
unfolding parse_origins devkit_go.Prelude.Text.trim_space devkit_go.Prelude.Text.text_eq text_mem
    devkit_go.HttpServer.Origins.entries devkit_go.Prelude.Text.split
no_origins = refl

abbrev shared_config : Config
shared_config = record default_config { enable_cors = true; cors_origins = codes "a" }

accepted : validate_request_id (codes " a-1 ") ≡ some (codes "a-1")
unfolding validate_request_id devkit_go.Prelude.Text.trim_space all_id_chars
accepted = refl

abbrev no_fiber : ℕ → Option FiberError
no_fiber e = none
