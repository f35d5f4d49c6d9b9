-- ===== src/Lib.antt =====
-- A model of the iron-link daemon (daemon-go/), with the theorems on the parts that decide what
-- runs: which core dials a node, what a stored profile may be, what a session plan holds and
-- how it compiles to the configs of both cores, what state the session is in and who hears of
-- it; on the files that this is kept in; and on the update check, which decides what release is
-- announced.
--
-- How the parts interact. A profile of the store holds nodes, subscriptions and routing
-- configs, and its mutators keep the selections valid. On activation the manager builds a
-- session plan from the profile: it embeds every node with the core that the selection in the
-- proxy package chooses, lowers the groups to urltests and moves routing targets that cannot be
-- resolved to the default proxy. The engine validates the plan and compiles it to two configs,
-- with its routing as the route block. The manager starts the configs as the one session,
-- records the context that it was started from, and sends its changes to the subscribers of the
-- hub; a switch moves the running session, and a stop ends it.
--
-- A subscription's refresh is fetched outside the store's lock and then landed on the profile
-- as it is by then; nodes that come back keep their ids, so that the selection and the routing
-- targets stay good. The sweep decides which subscriptions are due, and backs off after
-- failures. When a landed refresh changes what the running session embeds, the manager decides
-- on a reconnect, which is dropped if the session or its selection has changed by then. Every
-- verb that edits a profile loads it, edits it and saves it, and the store writes it to a
-- temporary file that it then renames. Clients talk to the daemon in length-prefixed frames,
-- and the hub passes events to those that subscribe.
--
-- The update check stands apart: it fetches a signed manifest, verifies it, and keeps a trust
-- state (the highest number accepted and the revoked keys) that every later check starts from.
-- What the store refuses is an argument, so that each fault is covered; minisign, semver and
-- the JSON decoder are a record of what the code calls.
--
-- Files:
--   Prelude.antt: shared logic, lists, keyed lists, maps and counts. No code of the daemon.
--   Json.antt: JSON values, as Go's `map[string]any` documents hold them. A map is an
--     association list.
--   Proxy/Stream.antt: daemon-go/internal/proxy/stream.go.
--   Proxy/Capabilities.antt: daemon-go/internal/proxy/capabilities.go (CoreCaps, coversFlow).
--   Proxy/Vless.antt, Vmess, Trojan, Shadowsocks, Hysteria2, Hysteria, Tuic, AnyTls: the
--     protocol file of that name (dialableBy, SingBoxOutbound, XrayOutbound);
--     Proxy/Outbound.antt has what they share.
--   Proxy/Profile.antt: daemon-go/internal/proxy/profile.go, the interface by cases.
--   Proxy/Selection.antt: daemon-go/internal/proxy/selection.go (SelectCore); its laws are in
--     Selection/Rules.antt and Selection/Emission.antt.
--   Routing.antt: daemon-go/internal/routing/routing.go, the types.
--   Api/Settings.antt, Api/Request.antt, Api/Reply.antt: settings.go, protocol.go and
--     types.go of daemon-go/internal/api, the records.
--   Store/Profile.antt, Store/Mutators.antt: daemon-go/internal/store/profile.go. A method of
--     *Profile takes the profile and returns it with the method's result. Store/Name.antt:
--     ValidateName of store.go. Store/Invariant.antt: the invariant and its proofs.
--     Store/Lookups.antt: the lookups.
--   Store/Files.antt, Store/Profiles.antt: the files of store.go, over a disk in memory;
--     Store/Profiles/Spec.antt is what the store promises, and Saved.antt, Complete.antt and
--     Untouched.antt beside it have the proofs. Store/Settings.antt: settings.go;
--     Store/Settings/Accepted.antt: which documents are accepted. Store/Reread.antt: what the
--     JSON methods make of a profile that is read back. Store/Sample.antt: a codec for the
--     tests.
--   Engine/Plan.antt, Engine/Route.antt, Engine/Tunables.antt: plan.go, route.go and
--     tunables.go of daemon-go/internal/engine. Engine/Configs.antt: the configs of plan.go
--     (PlanTUNConfigs, PlanSocksConfigs). Engine/XrayClient.antt: compileXrayClientNodes of
--     compile.go. Engine/Host.antt: the platform.
--   Manager/Members.antt, Manager/BuildPlan.antt: resolveGroupMemberIDs and buildPlan of
--     daemon-go/cmd/iron-link-daemon; Manager/BuildPlan/Starts.antt: the configs of a built
--     plan.
--   Manager/Settings.antt: manager_settings.go. Manager/Prepare.antt: prepareActivation of
--     manager.go. Manager/Session.antt, Manager/Session/Handlers.antt: the session state of
--     manager.go and the handlers that change it (startActivationLocked, stop, switchNode,
--     restoreLastSession). Manager/Session/Reconnect.antt: sessionReconnectLocked and
--     reconnectSession of manager_subscriptions.go. Manager/Session/Reachable.antt has the
--     invariant over all handlers and the shutdown, Heard.antt the events; Coherent, Steps,
--     Relabel and Announced are their lemmas.
--   Manager/Landing.antt: dueSubscriptionsLocked and landSubscriptionFetch.
--     Manager/Verbs.antt, Manager/Verbs/Requests.antt: the verbs of manager_store.go, as
--     edits and as requests. Manager/Verbs/Subs.antt: addSubscription and
--     refreshSubscriptions, with Refresh in Subscription/Rounds.antt. Manager/Served.antt:
--     the calls that write a profile, each under the mutex; Manager/Served/Sound.antt: the
--     profiles under them. Kept, Ids, Updated and Stored of Manager/Verbs are their lemmas.
--   Update/Manifest.antt, Update/Verify.antt, Update/Fetch.antt, Update/Version.antt,
--     Update/Check.antt: manifest.go, verify.go and check.go of daemon-go/internal/update.
--     Update/Verify/Signed.antt, Update/Check/Floor.antt, Sound.antt and History.antt have
--     the proofs. Update/Check.antt takes a check as one step on the trust state;
--     Update/Check/Amid.antt takes its accesses to the state one by one, with whatever other
--     checks do between them, since the loop and a forced check may overlap.
--     Update/SeqFile.antt: seqstore.go; Update/SeqFile/Mirrors.antt: the file as the store of
--     the check.
--   Subscription/Keys.antt, Subscription/Refresh.antt: the store half of a refresh (Apply) of
--     daemon-go/internal/subscription/subscription.go; Subscription/Schedule.antt and
--     Subscription/Sweep.antt: subscriptionDue, the backoff and the sweep of
--     daemon-go/cmd/iron-link-daemon/manager_subscriptions.go.
--   Ipc/Codec.antt, Ipc/Hub.antt: codec.go and hub.go of daemon-go/internal/ipc.
--
-- How Go is modelled. A pointer that may be nil is an option, a slice is a list (nil and empty
-- are one), a string of the wire stays a text, so that values no constant names are covered. A
-- function that returns an error returns a Result; an error is data, with what its text names.
-- `uuid.New`, `time.Now`, and the parsing of raw JSON text are arguments. What a handler does
-- under the manager's mutex is one step; what happens outside of it, such as the preparation of
-- an activation or a fetch, is an argument of the step that uses it. A system call that may
-- fail is an answer of an argument, so that every fault is covered; encoding/json is a codec:
-- it decodes the state, the session and the settings as they were encoded, and a profile as its
-- JSON methods read it back (Store/Reread.antt), with its ids and names kept and an id made for
-- a routing config without one. json.Marshal of a config may fail. Loops are structural
-- recursion over the lists that the code ranges over; no fuel is used. Bytes and machine
-- integers are native numbers; the header of a frame keeps its `% 256`.
--
-- Not modelled: sockets, directories and processes, the embedded cores, the parsers of third-
-- party subscription formats and share links, the fetches, the download and installation of an
-- update, the log, the traffic counters, the diagnostics, the Windows service.
pub mod Prelude
pub mod Json
pub mod Proxy
pub mod Routing
pub mod Api
pub mod Store
pub mod Engine
pub mod Manager
pub mod Update
pub mod Ipc
pub mod Subscription
