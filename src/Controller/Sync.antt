-- ===== src/Controller/Sync.antt =====
-- internal/ingress/controller/controller.go: `syncIngress` after `getConfiguration`, whose result is an
-- argument, and nginx.go: `configureDynamically`. `none` is a panic.
pub mod Parts
pub mod Between
pub mod Recovery
use ingress_nginx.Prelude.{
  Bool, true, false, ◌&&◌, not, Option, none, some, Slice, String, IsEquiv, if◌then◌else◌,
}
use ingress_nginx.Api.{Ref}
use ingress_nginx.Controller.Dynamic.{is_dynamic_configuration_enough}
use ingress_nginx.Equality.Configuration.{equal}
use ingress_nginx.Types.Configuration.{Configuration, L4Service, zero_configuration}
use ingress_nginx.Types.Heap.{Heap}

-- reflect.DeepEqual on the slices that `configureDynamically` compares.
pub record DeepEqual : Type 0 where
  pub backends : Slice Ref → Slice Ref → Bool
  pub services : Slice L4Service → Slice L4Service → Bool
  pub servers : Slice Ref → Slice Ref → Bool
  pub backends-IsEquiv : IsEquiv backends
  pub services-IsEquiv : IsEquiv services
  pub servers-IsEquiv : IsEquiv servers

-- What NGINX has: the configuration of the last reload, and what was sent to its Lua code last.
pub record Nginx : Type 0 where
  pub file : Configuration
  pub backends : Slice Ref
  pub streams : Slice L4Service × Slice L4Service
  pub servers : Slice Ref

pub record State : Type 0 where
  pub running_config : Configuration
  pub nginx : Nginx

abbrev pub initial : State
initial = record {
  running_config = zero_configuration;
  nginx = record {
    file = zero_configuration;
    backends = none;
    streams = (none, none);
    servers = none;
  };
}

-- The answer of NGINX to a reload or a request: it is done, it is refused with an error, or it is done and
-- there is an error all the same.
pub data Reply : Type 0 where
  accepted : Reply
  refused : Reply
  lost : Reply

abbrev pub succeeds : Reply → Bool
succeeds accepted = true
succeeds refused = false
succeeds lost = false

abbrev pub left_with {ℓ} : {A : Type ℓ} → Reply → A → A → A
left_with accepted old new = new
left_with refused old new = old
left_with lost old new = new

-- The answers during one call: IsShuttingDown, OnUpdate and the requests.
pub record Answers : Type 0 where
  pub is_shutting_down : Bool
  pub on_update : Reply
  pub backends : Reply
  pub streams : Reply
  pub servers : Reply

-- A part of the configuration is sent if it differs from that of the running configuration: whether no
-- error is returned, and what NGINX has then.
unfoldable pub configure_part {ℓ} : {A : Type ℓ} → (A → A → Bool) → A → A → Reply → A → Bool × A
configure_part eq running new reply had =
    if eq running new then (true, had) else (succeeds reply, left_with reply had new)

abbrev pub streams_equal :
    DeepEqual → Slice L4Service × Slice L4Service → Slice L4Service × Slice L4Service → Bool
streams_equal D (tcp1, udp1) (tcp2, udp2) = D.services tcp1 tcp2 && D.services udp1 udp2

abbrev pub streams_of : Configuration → Slice L4Service × Slice L4Service
streams_of c = (c.tcp_endpoints, c.udp_endpoints)

-- `configureDynamically`
unfoldable pub configure_dynamically :
    DeepEqual → Configuration → Configuration → Answers → Nginx → Bool × Nginx
unfolding configure_part
configure_dynamically D running pcfg a n =
    let b = configure_part D.backends running.backends pcfg.backends a.backends n.backends in
    let s =
      configure_part (streams_equal D) (streams_of running) (streams_of pcfg) a.streams n.streams in
    let c = configure_part D.servers running.servers pcfg.servers a.servers n.servers in
    if not b.0
    then (false, record n { backends = b.1 })
    else if not s.0
    then (false, record n { backends = b.1; streams = s.1 })
    else (c.0, record n { backends = b.1; streams = s.1; servers = c.1 })

pub data Outcome : Type 0 where
  shutting_down : Outcome
  unchanged : Outcome
  reload_failed : Outcome
  reconfigure_failed : Outcome
  done : Outcome

-- Whether the call returns nil.
abbrev pub is_nil : Outcome → Bool
is_nil shutting_down = true
is_nil unchanged = true
is_nil reload_failed = false
is_nil reconfigure_failed = false
is_nil done = true

-- The part from ExponentialBackoff on, which calls its condition once: the condition returns true or an
-- error, and wait.ExponentialBackoff returns an error at once.
unfoldable pub reconfigure : DeepEqual → Configuration → Answers → State → Outcome × State
unfolding configure_dynamically
reconfigure D pcfg a s =
    let r = configure_dynamically D s.running_config pcfg a s.nginx in
    if r.0
    then (done, record { running_config = pcfg; nginx = r.1 })
    else (reconfigure_failed, record s { nginx = r.1 })

-- `pcfg` with its checksum; `hash` is the text of hashstructure.Hash.
abbrev pub stamped : (Configuration → String) → Configuration → Configuration
stamped hash pcfg = record pcfg { configuration_checksum = hash pcfg }

-- The part after the comparisons; `enough` is the answer of `IsDynamicConfigurationEnough`.
unfoldable pub apply :
    DeepEqual → (Configuration → String) → Bool → Configuration → Answers → State → Outcome × State
unfolding reconfigure
apply D hash true pcfg a s = reconfigure D pcfg a s
apply D hash false pcfg a s =
    let loaded = record s {
      nginx = record s.nginx { file = left_with a.on_update s.nginx.file (stamped hash pcfg) };
    } in
    if succeeds a.on_update
    then reconfigure D (stamped hash pcfg) a loaded
    else (reload_failed, loaded)

-- `syncIngress`, without the metrics and events, the rate limiter and the sleep before the first
-- reconfiguration, which change neither the configuration nor NGINX.
unfoldable pub sync_ingress :
    Heap
    → DeepEqual
    → (Configuration → String)
    → Configuration
    → Answers
    → State
    → Option (Outcome × State)
unfolding equal is_dynamic_configuration_enough apply
sync_ingress h D hash pcfg a s =
    if a.is_shutting_down
    then some (shutting_down, s)
    else if equal h s.running_config pcfg
    then some (unchanged, s)
    else elim (is_dynamic_configuration_enough h s.running_config pcfg) [
      | none ↦ none
      | some enough ↦ some (apply D hash enough pcfg a s)
    ]
