-- ===== src/Tests/Sizes.antt =====
-- Runs of the sizes for NGINX and of the keys of objects.
use ingress_nginx.Prelude.{ℕ, ◌≤◌, ◌<◌, ◌*◌, ◌≡◌, ◌↔◌, refl, List, [], ◌∷◌, some, none, true, arith}
use ingress_nginx.Api.{meta_namespace_key}
use ingress_nginx.Types.Server.{Server, zero_server}
use ingress_nginx.Controller.Sizes.{
  next_power_of2, nginx_hash_bucket_size, HashSizes, adjust_workers,
}
use ingress_nginx.Controller.Sizes.Powers.{two_to, next_power_of2_lem}
use ingress_nginx.K8s.{parse_name_ns}
use ingress_nginx.K8s.RoundTrip.{has_no_slash, parse_name_ns_iff}

powers :
    (next_power_of2 5 ≡ 8)
    × (next_power_of2 64 ≡ 64)
    × (next_power_of2 0 ≡ 0)
    × (nginx_hash_bucket_size 15 ≡ 64)
unfolding next_power_of2 nginx_hash_bucket_size
powers = (refl, refl, refl, refl)

-- The setting worker-processes "0" stops the controller at a division by zero.
no_workers :
    (adjust_workers 65536 "0" (record { max_worker_open_files = 0; max_worker_connections = 0 })
      ≡ none)
    × (adjust_workers 65536 "4" (record { max_worker_open_files = 0; max_worker_connections = 0 })
        ≡ some (record { max_worker_open_files = 15360; max_worker_connections = 11520 }))
unfolding adjust_workers
no_workers = (refl, refl)

next_power_of2_lem_example :
    (k : ℕ) × (next_power_of2 100 ≡ two_to k) × (100 ≤ two_to k) × (two_to k < 100 * 2)
next_power_of2_lem_example = next_power_of2_lem 100 (omega arith) (omega arith)

abbrev servers : List Server
servers = record zero_server { hostname = "www.a.example"; redirect_from_to_www = true } ∷ []

abbrev sizes : HashSizes
sizes = record { bucket_size = 32; max_size = 4 }

parse_name_ns_iff_example :
    (parse_name_ns "default/web" ≡ some ("default", "web"))
    ↔ ("default/web" ≡ meta_namespace_key "default" "web")
unfolding has_no_slash
parse_name_ns_iff_example = parse_name_ns_iff "default/web" "default" "web" refl refl refl

rejected : (parse_name_ns "web" ≡ none) × (parse_name_ns "a/b/c" ≡ none)
unfolding parse_name_ns
rejected = (refl, refl)
