-- ===== src/Controller/Sizes/Names.antt =====
-- The hash tables of the server names are large enough.
use Prim.Native.String
use ingress_nginx.Prelude.{ℕ, ◌≤◌, elems, String, All}
use ingress_nginx.Types.Server.{Server}
use ingress_nginx.Controller.Sizes.{hostname_length}

-- The names of the server have at most `n` bytes.
abbrev pub HasNames : ℕ → Server → Type 0
HasNames n s = (hostname_length s ≤ n) × All (λ a. String.len a ≤ n) (elems s.aliases)
