-- ===== src/Lib.antt =====
-- The NetGoat agent: a model of the Go program of this repository, a reverse proxy with traffic
-- policies, and the theorems that make its parts correct.
--
-- Each part of the program has a module. A struct is a record, a method is a function from the old
-- state to the new state and the result, a mutex makes the uses of a state a sequence of calls,
-- and what time, a parser or a socket returns is an argument.
--
-- - Prelude, Std: no part of the program. Shared names, numbers and lists; and what the program
--   uses of the Go library: strings as bytes (Std/Text), maps (Std/Dict), container/list with its
--   element pointers as handles (Std/Linked), and the pairing of a map with such a list
--   (Std/Index) by which the program bounds its tables, with the tables whose entries expire in
--   their order (Std/Table).
--
-- - Cache: internal/cache/cache.go. Cache/Store has the store and each of its methods, Cache/Lru
--   the plain list that it implements, Cache/Run sequences of calls, Cache/Capture the recording
--   of a body while it streams (CaptureOnEOF and captureReadCloser.Read), Cache/Headers the
--   copying of headers.
--
-- - ClientIp: internal/clientip/resolver.go. ClientIp/Scan and ClientIp/Parse have the scanners
--   and parsers of the forwarding headers, ClientIp/Resolver the trusted proxies and ClientIP. The
--   addresses and prefixes of net/netip are a parameter, the record of ClientIp/NetIp.
--
-- - Health: internal/health/worker.go. Health/Worker has the state of the health worker with Sync,
--   IsHealthy, HealthyTargets and recordProbe, Health/Tracking what the first and the last of
--   these do to the health of an upstream, Health/Run sequences of them in any order. What a probe
--   finds is an argument.
--
-- - Balancer: internal/balancer/balancer.go. Balancer/Pick has the round robin over the upstreams
--   that Health counts as healthy, Balancer/RoundRobin what it returns; Balancer/Stream the
--   ResponseWriter of an attempt (streamWriter), Balancer/Phase, Balancer/Lines, Balancer/Held and
--   Balancer/Delivery what reaches the client through it; Balancer/Serve the loop of attempts of
--   ProxyHandler.Serve, Balancer/Fresh which targets it tries, Balancer/Attempts one round of it,
--   Balancer/Failover the whole. ReverseProxy is an argument: the calls that it makes on the
--   writer, and whether it reports an error. The cache of proxies (proxyFor) is not modelled.
--
-- - Traffic: internal/traffic. Traffic/Limiter has the RateLimiter of limiter.go with each of its
--   methods, Traffic/Rate the number of requests that a bucket lets through, Traffic/Table and
--   Traffic/Bounded the table of buckets. A token is counted in whole parts of which it has 60 *
--   10 ^ 9, where the source has a float64. Traffic/Queue has the Queue of the same file as a step
--   relation on the goroutines inside of Acquire, Traffic/Admission what holds in every state that
--   they reach. Traffic/Bandwidth has the bucket of one key of internal/traffic/bandwidth.go; the
--   table of those buckets is not modelled.
--
-- - Routes: internal/database/route_resolver.go, and the matching of domains in
--   internal/database/database.go. Routes/Domain has the normalising of host names and
--   Routes/Normal that its two forms agree; Routes/Matcher the domain patterns, with regexp as a
--   parameter, Routes/Wildcard and Routes/Compiled what they match; Routes/Snapshot
--   loadRouteSnapshot and Reload on the rows of the two queries, Routes/Collect what it puts
--   where, Routes/Reload when it fails; Routes/Resolve the method Resolve, Routes/Precedence which
--   route it chooses.
--
-- - Challenge: internal/challenge/challenge.go. Challenge/Suspicion has the score of a user agent
--   and the kind of challenge it leads to, Challenge/Bounds its limit; Challenge/Answers the
--   answers, as functions of the random bytes; Challenge/Store the Store with each of its methods
--   over two tables of the shape of Std/Table. Challenge/Valid and Challenge/Run have what every
--   call keeps, Challenge/Verify what Get and IsVerified find, Challenge/Pass who passes and for
--   how long, Challenge/Gone that a challenge is passed once, Challenge/Guess wrong answers,
--   Challenge/Solve that a challenge can be solved.
--
-- - Metrics: internal/metrics/metrics.go. Metrics/Recorder has the Recorder with the methods that
--   record, Snapshot and compact; Metrics/Counts what its counters count, Metrics/Errors the bound
--   on its table of errors; Metrics/Writer the ResponseWriter that takes down the status and the
--   size of a response.
--
-- - Waf: internal/waf/waf.go, with the expression engine as a parameter. Waf/Engine has the Engine
--   with Reload and Check, Waf/Verdict which rule decides and what a reload leaves.
--
-- - Auth: internal/auth/auth.go. Auth/Base64 has the encoding of encoding/base64, Auth/Users the
--   tables of users and sessions that the statements of the source read and write, with
--   createSession; Auth/Check has Check and RequireZeroTrustChallenge, Auth/Login the handler
--   HandleLogin; Auth/Credentials and Auth/Session have what a Basic header and a login are worth.
--   bcrypt is a parameter.
--
-- - Gateway: the handlers of main.go, composed of the models above, and internal/honeypot.
--   Gateway/Request has what they read of a request, Gateway/Pages writeError and the challenges
--   on error pages, Gateway/World the configuration, the state and the answers of the handler;
--   Gateway/Gates has its gates as functions of what stands behind them, Gateway/Forward the
--   route, the cache and the upstream, Gateway/Handler the handler of every path and that of the
--   answers to challenges. Gateway/Closed has the gates that are closed to a request,
--   Gateway/Order which of them decides, Gateway/Chain what every gate keeps, Gateway/Noted the
--   counts and the places of the queue, Gateway/Uncached the requests that the cache is not for,
--   Gateway/ZeroTrust the way through a challenge. What the queue, a detector and Serve return to
--   a request is an argument; the wrappers of the bandwidth limiter and the debugging data are
--   left out.
--
-- - Stream: internal/streaming/manager.go and the polling in main.go. Stream/Manager has the
--   Manager with each of its methods, a channel of a listener as the list of the snapshots that it
--   has not read, Stream/Run what holds after any calls; Stream/Poll the settings of the polling,
--   pollDomains and the delays of connectToAPIStream, Stream/Retry what they keep to. The content
--   of a snapshot, its JSON and its digest are parameters.
--
-- - Control: other parts of the way from the control plane into the database, of main.go and
--   internal/streaming/manager.go. Control/Targets has the upstreams of a route
--   (routeTargetsFromAPI, AllTargets, normalizedRouteTargets), with net/url as a parameter,
--   Control/Upstreams which of them are let in.
--
-- - Agent: other functions of main.go. Agent/Sharing has the decisions which requests and
--   responses may go through the shared response cache, Agent/Shared what they exclude,
--   Agent/Lifetime how long a response is kept there (sharedCacheTTL); Agent/Merge has
--   mergeConfigSnapshots.
--
-- Durations and times are natural numbers of nanoseconds; overflow of the 64-bit clock is not
-- modelled, but that of the products of configured seconds in sharedCacheTTL and
-- streamSettingsFromConfig and of the doubled interval of the polling loop is (Std/Int64). Strings
-- change case in ASCII only. A loop is a recursion on the data that it walks, so no fuel is
-- needed; only the loop of Serve has fuel, one round more than there are targets, that of
-- BandwidthLimiter.Wait, one round for each byte, and the two loops that take expired or surplus
-- entries out of a table of challenges, one round more than it has keys, and the printing of a
-- number, as many rounds as the number, each with a theorem that it suffices. The texts of errors
-- and log lines are not modelled: an error is the absence of a result.
--
-- Not modelled: the other SQL of internal/database, internal/telemetry, internal/config,
-- internal/aiworker, internal/anomaly and the rest of main.go (the start of the program and the
-- writing of snapshots into the database), which this library does not cover; and the pages and
-- model runtimes of internal/challenge/render.go, internal/debugoverlay, internal/koda2,
-- internal/koda_waf and internal/modeldl, which have no logic of their own.
pub mod Prelude
pub mod Std
pub mod Cache
pub mod ClientIp
pub mod Health
pub mod Balancer
pub mod Traffic
pub mod Agent
pub mod Routes
pub mod Challenge
pub mod Metrics
pub mod Waf
pub mod Auth
pub mod Gateway
pub mod Stream
pub mod Control
