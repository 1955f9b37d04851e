-- ===== src/Controller/Sizes.antt =====
-- internal/ingress/controller/nginx.go and util.go: the sizes that the controller computes for NGINX. The
-- lengths are not negative, and far below the bounds of a 64-bit integer.
pub mod Bits
pub mod Powers
pub mod Names
use Prim.Native.Nat.{bit_or}
use Prim.Native.String
use ingress_nginx.Prelude.{
  ℕ, suc, zero, ◌+◌, ◌-◌, ◌/◌, ◌%◌, ℤ, pos, negsuc, ltb_ℤ, Option, none, some, List, [], ◌∷◌, elems,
  ltb, if◌then◌else◌, ◌==◌, nat_eq, ◌*◌, String,
}
use ingress_nginx.Numbers.{atoi}
use ingress_nginx.Panics.{◌>>=◌}
use ingress_nginx.Types.Server.{Server}

-- v |= v >> s, for the shift by `s` that divides by 2 ^ s
abbrev pub smear : ℕ → ℕ → ℕ
smear power v = bit_or v (v / power)

-- The shifts by 1, 2, 4, 8 and 16.
unfoldable pub smear_all : ℕ → ℕ
smear_all v = smear 65536 (smear 256 (smear 16 (smear 4 (smear 2 v))))

-- `nextPowerOf2`; for 0 the variable is -1 through all shifts.
unfoldable pub next_power_of2 : ℕ → ℕ
unfolding smear_all
next_power_of2 zero = 0
next_power_of2 (suc v) = smear_all v + 1

-- `nginxHashBucketSize`; x &^ 7 clears the last three bits.
unfoldable pub nginx_hash_bucket_size : ℕ → ℕ
unfolding next_power_of2
nginx_hash_bucket_size longest_string =
    let n = longest_string + 2 in
    let aligned = (n + 8 - 1) - (n + 8 - 1) % 8 in next_power_of2 (8 + 8 + aligned)

-- The loop of generateTemplate over the servers: `longestName` and `serverNameBytes`.
abbrev pub hostname_length : Server → ℕ
hostname_length srv = String.len srv.hostname + (if srv.redirect_from_to_www then 4 else 0)

abbrev pub longer : ℕ → ℕ → ℕ
longer longest n = if ltb longest n then n else longest

unfoldable pub longest_alias : List String → ℕ → ℕ
longest_alias [] longest = longest
longest_alias (a ∷ as') longest = longest_alias as' (longer longest (String.len a))

unfoldable pub longest_name : List Server → ℕ → ℕ
unfolding longest_alias
longest_name [] longest = longest
longest_name (s ∷ ss) longest =
    longest_name ss (longest_alias (elems s.aliases) (longer longest (hostname_length s)))

unfoldable pub server_name_bytes : List Server → ℕ → ℕ
server_name_bytes [] total = total
server_name_bytes (s ∷ ss) total = server_name_bytes ss (total + hostname_length s)

-- The settings ServerNameHashBucketSize and ServerNameHashMaxSize.
pub record HashSizes : Type 0 where
  pub bucket_size : ℕ
  pub max_size : ℕ

-- The adjustment of both settings.
unfoldable pub adjust_hash_sizes : List Server → HashSizes → HashSizes
unfolding longest_name server_name_bytes nginx_hash_bucket_size next_power_of2
adjust_hash_sizes servers cfg =
    let bucket = nginx_hash_bucket_size (longest_name servers 0) in
    let size = next_power_of2 (server_name_bytes servers 0) in
    record {
      bucket_size = if ltb cfg.bucket_size bucket then bucket else cfg.bucket_size;
      max_size = if ltb cfg.max_size size then size else cfg.max_size;
    }

-- MaxWorkerOpenFiles and MaxWorkerConnections.
pub record WorkerLimits : Type 0 where
  pub max_worker_open_files : ℕ
  pub max_worker_connections : ℕ

-- strconv.Atoi of WorkerProcesses, or 1
unfoldable pub worker_count : String → ℤ
unfolding atoi
worker_count worker_processes =
    if (atoi worker_processes).1 then pos 1 else (atoi worker_processes).0

-- `maxOpenFiles` for the limit of open files; `none` is the division by zero. By a negative number of
-- processes the quotient is not positive.
unfoldable pub max_open_files : ℕ → ℤ → Option ℕ
max_open_files limit (pos zero) = none
max_open_files limit (pos (suc n)) =
    some (if ltb (limit / suc n) (1024 + 1024) then 1024 else limit / suc n - 1024)
max_open_files limit (negsuc n) = some 1024

unfoldable pub adjust_workers : ℕ → String → WorkerLimits → Option WorkerLimits
unfolding max_open_files worker_count
adjust_workers limit worker_processes cfg =
    (if cfg.max_worker_open_files == 0
      then max_open_files limit (worker_count worker_processes)
      else some cfg.max_worker_open_files)
    >>= λ files. some (record {
      max_worker_open_files = files;
      max_worker_connections =
          if cfg.max_worker_connections == 0 then files * 3 / 4 else cfg.max_worker_connections;
    })

-- `sysctlSomaxconn`, for the value of the setting or an error
unfoldable pub sysctl_somaxconn : Option ℤ → ℤ
sysctl_somaxconn none = pos 511
sysctl_somaxconn (some max_conns) = if ltb_ℤ max_conns (pos 512) then pos 511 else max_conns
