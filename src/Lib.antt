-- ===== src/Lib.antt =====
-- The verification library of ai-cloud-operator, a Kubernetes operator that runs workloads (nginx,
-- browsers, desktops) for a control plane called Convex.
--
-- Parts of the program, and the modules that model them:
--   Base        helpers: tests on numbers, lists, texts, int64 arithmetic, Go errors, effects.
--   Kube        the Kubernetes objects, cut down to the fields that the operator uses.
--   Workload    api/v1alpha1/workload_types.go: the Workload resource, phases and reasons.
--   Catalog     internal/catalog. Types, Template: types.go. Params, Registry: registry.go
--               (`resolve_params` is ResolveParams, `get` is Get). Browser, Backup: browser.go.
--               Nginx: nginx.go. Desktop: firefox.go, chrome.go, webtop.go. The proofs are in
--               Validating, Showing, Resolving, Entries and Typing.
--   Controller  internal/controller/workload_controller.go. World: the calls and their answers.
--               Render: labels and render. Sync: the reports to Convex and updateStatus.
--               Reconcile: checkUnschedulable, setFailed, reconcileDelete and the two writes.
--               Loop: Reconcile itself. The proofs are in Syncing, Settling, Stuck, Releasing,
--               Calm, Ending, Steady, Repeating, Failing and LabelValues.
--   Capacity    internal/capacity/tracker.go. Tracker: Snapshot and Fits. Room: the proofs.
--   Operator    World: what the two packages ask of others. Provisioning:
--               internal/provisioning/creator.go. Claims: processClaimable and
--               processPendingOperations of internal/convexclient/runnable.go. Registration:
--               register, loadOrRegister, heartbeatOnce and checkEnrollmentSecret of the same
--               file. Serving: the loop of Start. The proofs are in Storing, ClaimRuns, Ticks,
--               Headroom, Operations, PendingTicks, Sessions, Fresh, Extents, Upkeep, Intake and
--               Duties.
--   TokenStore  internal/tokenstore/tokenstore.go: Load and Save. The proofs are in Saving.
--   Gateway     internal/gateway. KeyStore: keystore.go, with LoadOrGenerate also cut into the
--               stages between which other replicas run. Token: token.go. Page: page.go. Proxy:
--               the handler of proxy.go. The proofs are in Stuck, Race, Agreement, Consensus,
--               Expiry, Signing and Routing.
--   Api         internal/api. World: the codes of apierror.go, requests and answers. Guards: the
--               two guards of server.go. Handlers: its handlers, with FindPod of
--               internal/podexec/exec.go. Server: its routes. The proofs are in Access, Codes,
--               Answers, Deploying, Accepting, Sessions and Redirects.
--   PodExec     internal/podexec/exec.go: New and Exec, with what a backup of
--               internal/catalog/browser.go does through them.
--   Client      internal/convexclient/client.go. Wire: the bodies. Http: what each request goes
--               through. Calls: the methods of Client. Delegations: the methods of Runnable that
--               present its token. The proofs are in Verdicts, Claims and Reports.
--   Metrics     internal/metrics. Samples, Collector: collector.go. Reporter: reporter.go.
--               Reporting: the reporter with the collector. The proofs are in Counting, Sampling
--               and Reporting.
--   Setup       Integration: setupConvexIntegration of cmd/main.go, and Current of
--               internal/convexclient/enrollment.go. Namespace: internal/workloadns/ensure.go.
--               Options: the flags of cmd/main.go, what the manager gets of them, and
--               SetupWithManager. Launch: main. The proofs are in Handing, Tags, Started and
--               Launched.
--   Assembly    Parts: the Runnable with the client, the token store, the tracker, the collector
--               and the mounted secret that cmd/main.go gives it. Reconciler: the reconciler
--               with that Runnable as its client of Convex. The proofs, of the parts taken
--               together, are in Backing, Renewal, Restart, Telling, Recording and
--               Knowing.
--   Tests       concrete inputs.
--
-- How they interact: a heartbeat brings offers of work; `process_claimable` holds back what the
-- capacity tracker says does not fit, claims the rest, and creates Workload resources with
-- provisioning, which asks the catalog. `reconcile` renders such a resource with the catalog,
-- writes a Deployment and a Service, and reports phases back to Convex. A browser comes to the API
-- with a token, which Convex checks; the API signs a cookie with the gateway's key, and a request
-- with that cookie goes through the gateway's handler to the Service of the Workload. The
-- management API creates and deletes Workloads with the same provisioning; its runs there have
-- histories of their own, which `within` puts into the history of the request.
--
-- How code is modelled:
--   * Code with effects is a function from the history of all calls so far, newest first, to a
--     value and a longer history (Base.Effects). The answers of the API server, of Convex and of
--     the clock are fields of a record `Env`, each a function of the history, so that nothing is
--     assumed of them: two equal calls may be answered differently. Logging and timeouts of a
--     context are left out; a call that times out is one that answers with an error.
--   * A Go error is a `GoError`: a leaf of a kind that errors.Is can see, or a wrapped error.
--   * An int64 sum, difference or product wraps around (Base.Int). Integers of Kubernetes objects
--     are integers. A finite float64 is the number of least positive floats in it. A time counts
--     nanoseconds, and a difference of times stops at zero, which is below every bound that is
--     tested. A quantity is its text, read by a parameter.
--   * A condition's time of transition is left out, since nothing reads it. SetStatusCondition and
--     FindStatusCondition are parameters with three laws, `ConditionLaws`, for which Tests.Samples
--     has an implementation. The finalizer helpers are parameters without laws.
--   * A CreateOrUpdate with its mutate function is one call that carries the written fields.
--   * Every loop is over a list or a text, but those of `Start` of the Runnable and of the Reporter,
--     which run for a number of ticks, as many as the context allows; so the recursion is structural and there is no fuel.
--   * Base64, HMAC, JSON, the checks of DNS labels and URLs, the HTML template and the transport
--     of HTTP are parameters. `CryptoLaws` says that the encodings decode to what was encoded and
--     that base64 has no dot; `Foreign` says that the errors of the libraries are not one of the
--     client's own marks; Tests.Tokens and Tests.Client show that both can hold. Bytes are texts.
--   * The attributes of a cookie, the headers of an answer and the fields of a page that are
--     constants are left out.
--
-- Not modelled: the matching of routes, the life of the listener, the reverse proxy's transport,
-- the stream over SPDY, the parsing of flags and the manager itself, which belong to libraries;
-- and the deep copies of api/v1alpha1, which are generated.
pub mod Base
pub mod Kube
pub mod Workload
pub mod Catalog
pub mod Controller
pub mod Capacity
pub mod Operator
pub mod TokenStore
pub mod Gateway
pub mod Metrics
pub mod Client
pub mod Assembly
pub mod Setup
pub mod PodExec
pub mod Api
pub mod Tests
