-- ===== src/Lib.antt =====
-- The NGINX Ingress controller: the Go code under internal/ that turns Ingress objects into a
-- configuration of NGINX, decides when NGINX must be reloaded, and orders the syncs.
--
-- The program's parts. The store (internal/ingress/controller/store) watches the cluster; each change
-- is enqueued in the task queue (internal/task/queue.go), whose worker calls the controller's
-- `syncIngress` (internal/ingress/controller/controller.go). It builds upstreams and servers from the
-- ingresses (`createUpstreams`, `createServers`, `mergeAlternativeBackends`, `updateServerLocations`),
-- asks `getEndpoints` for the addresses of each service, compares the result with the running
-- configuration (internal/ingress/types_equals.go, with internal/sets/match.go for slices whose order
-- does not count), and renders a template (internal/ingress/controller/template) if they differ.
--
-- The files and the code:
--   Prelude        shared types, tests, lists, integers, and the combinators of equality methods
--   Sets           internal/sets/match.go: `compare` is Compare, `mark_match` its inner loop
--   Annotations    internal/ingress/annotations/*/main.go: the Config types and their Equal methods
--   Api            the types of k8s.io/api with the fields that are read, and their string forms
--   Types          internal/ingress/types.go: a record for each struct; a pointer is an address
--                  (`Ref`, `none` for nil), and `Heap` gives what stands at an address
--   Equality       internal/ingress/types_equals.go: `Equality.X.equal` is X.Equal; Equality.Parts and
--                  Equality.Exact say in terms of fields when two backends are the same
--   Maps           the maps of Go with texts as keys, as lists of entries
--   StringSets     the interface of k8s.io/apimachinery's sets.String, with its laws
--   Store          internal/ingress/controller/store/objectref.go: `insert_refs` is Insert,
--                  `delete_consumer` Delete, `has_ref` Has, `len_refs` Len; the others by their names
--   Task           internal/task/queue.go: `enqueue`, and `work` for one round of the worker;
--                  Task/Steps has the step relation of queue, worker, clock and work queue: the
--                  worker takes an item in one step and finishes it in another, so that requests
--                  and the passing of time may come between
--   Strings, Numbers   what the code uses of Go's strings and strconv
--   Controller.Endpoints   internal/ingress/controller/endpoints.go
--   Controller.Locations   internal/ingress/controller/location.go; `update_location` is one round
--   Controller.Services    controller.go: externalNamePorts, serviceEndpoints,
--                  getServiceClusterEndpoint
--   Controller.Upstreams   controller.go and util.go: createUpstreams, newUpstream, upstreamName;
--                  Controller.Upstreams.Merging: canMergeBackend, mergeAlternativeBackend(s)
--   Controller.Placing     controller.go, getBackendServers: the location of a path on its server
--   Controller.Annotated   controller.go: locationApplyAnnotations
--   Controller.Overlap     controller.go: checkOverlap and ingressForHostPath
--   Controller.Removed     controller.go: getRemovedHosts and getRemovedIngresses
--   Controller.Dynamic     nginx.go: IsDynamicConfigurationEnough, clearCertificates and
--                  clearL4serviceEndpoints
--   Controller.Certificates   internal/ingress/controller/certificate.go
--   Controller.Secrets     controller.go: extractTLSSecretName; its SameName says when two host names are
--                  one up to the case of ASCII letters
--   Controller.Servers     controller.go, createServers: `init_ingresses` is the first loop over the
--                  ingresses; Controller.Servers.Configure has the second one (`configure_ingresses`),
--                  the loop over the aliases (`set_aliases`) and the function (`create_servers`)
--   Controller.BackendServers   controller.go, getBackendServers: `place_ingresses` is the loop over
--                  the ingresses, `merge_all` the merge of the canaries; its Affinity has the session
--                  affinity, CustomDefaults the loop over the upstreams (`visit_upstreams`), and Result
--                  the sorts, getDefaultUpstream, the function (`get_backend_servers`) and the loop of
--                  getConfiguration (`gather`)
--   Controller.Sizes       nginx.go: nextPowerOf2, nginxHashBucketSize and the settings that
--                  generateTemplate adjusts; util.go: sysctlSomaxconn
--   Controller.Sync        controller.go, syncIngress after getConfiguration (`sync_ingress`), and nginx.go,
--                  configureDynamically; `Nginx` is what NGINX holds, `Answers` its answers in one call
--   Controller.Streams     controller.go, getStreamServices
--   K8s            internal/k8s/main.go: ParseNameNS
--   Sorting        sort.SliceStable of Go, and the order of texts
--   Panics         code that may panic, and `Ends` for what holds if it returns
--   Parser         internal/ingress/annotations/parser/main.go; Parser.Canary is
--                  internal/ingress/annotations/canary/main.go; its Reads and Checked relate it to
--                  the texts of the annotations
--   Template       internal/ingress/controller/template/template.go: buildLocation and
--                  enforceRegexModifier; Template.RateLimits has buildRateLimitZones, filterRateLimits
--                  and buildRateLimit, Template.Proxy buildProxyPass and other directives of a
--                  location, Template.Listeners buildHTTPListener and buildHTTPSListener,
--                  Template.Modules the shouldLoad functions, Template.CustomErrors
--                  buildCustomErrorLocationsPerServer, Template.Names buildServerName,
--                  isLocationInLocationList and buildMirrorLocations. What the functions answer to
--                  an argument of another type is left out
--   Status         internal/ingress/status/status.go: `slice_to_status` is sliceToStatus,
--                  `skips_update` and `updated` are the choice of updateStatus
--   Tests          runs on small inputs, and the theorems at inputs that meet their hypotheses
--
-- Parameters. `StringSets` stands for the set type, `Names` for package net and the validation of
-- DNS names, `StoreView` for the answers of the store, `CertificateView` for its certificates and
-- what crypto/x509 says of them, `Settings` for the settings that createServers reads, `DeepEqual`
-- for reflect.DeepEqual, which compares what pointers lead to, `Heap` for the objects behind
-- pointers, and `LocationMatching` for NGINX's choice of a location: `= path` serves that path, and
-- a text without a modifier is a prefix.
--
-- State is passed explicitly. A panic (a nil pointer that is read) is `none`. Loops are structural
-- recursion on the list that they walk. The one use of fuel is `Api.decimal`, with one more than
-- the number itself, which has no more digits than that; the lemmas on bits recurse on a bound of
-- the number. `int32` and `atoi` wrap and clamp as Go does; the sizes for NGINX are lengths of
-- texts and sums of them, and their bounds stand in the theorems.
--
-- Not modelled: the contents of the reloads and requests of syncIngress, its metrics and events,
-- the parsers of the other annotations and a prefix of annotations other than the default, the
-- informers of the store, the processes and files of NGINX, the addresses and the API calls of the
-- status, metrics, the admission webhook, the parsing of TLS certificates, the command line
-- programs, and the Lua code. Logging has no effect on a result and is left out.
pub mod Annotations
pub mod Api
pub mod Controller
pub mod Equality
pub mod K8s
pub mod Maps
pub mod Numbers
pub mod Panics
pub mod Parser
pub mod Prelude
pub mod Sets
pub mod Sorting
pub mod Status
pub mod Store
pub mod StringSets
pub mod Strings
pub mod Task
pub mod Template
pub mod Tests
pub mod Types
