-- ===== src/Lib.antt =====
-- fleetmind: a node of a fleet of Linux hosts that answers read-only questions about the host it runs
-- on, keeps a registry of the other nodes and talks to them over HTTP.
--
-- Parts, and the files that model them:
--   internal/fleet/peer.go                Fleet/Peer      peers, events, instants and durations
--   internal/fleet/registry.go            Fleet/Registry  one function for each method; its children
--                                         prove them: Invariant, Upsert, Prune, Roster, Subscribers
--   internal/fleet/manager.go             Fleet/Manager   one function for each turn of a loop and for
--                                         each method; children Streams, Orphans, Events,
--                                         Removed, Prune, Backoff. Fleet/Bootstrap
--                                         has `bootstrap`; its children look at a
--                                         join from one end (Joined) and from both
--                                         (Mutual)
--   internal/fleet/client.go              Fleet/Client    base URLs and the reader of the event stream;
--                                         Fleet/Client/Stream has its round trip with the writer
--   internal/fleet/handlers.go            Fleet/Handlers  the three endpoints; Handlers/Join
--   internal/aptdb/version.go             Aptdb/Version   the dpkg order of versions; children Chain,
--                                         Runs and Order
--   internal/aptdb/aptdb.go               Aptdb/Stanza    `readStanzas`, `InstalledPackages`; its round
--                                         trip is Stanza/RoundTrip
--                                         Aptdb/Index     Packages indexes and Release files; Index/
--                                         Release
--                                         Aptdb/Upgrade   `UpgradablePackages`; children Best, Listed
--                                         Aptdb/Reboot    `RebootRequired`; Reboot/Listed
--   internal/procfs/procfs.go             Procfs/Mounts   `MountsForPID`; its round trip is Mounts/
--                                         RoundTrip
--                                         Procfs/Meminfo  `MemInfo`, with internal/tools/memory.go;
--                                         Meminfo/Sizes
--                                         Procfs/Blocks   cpuinfo, modules, loadavg, uptime, kernel
--                                         Procfs/Process  `Process` and `ListProcesses`
--   internal/tools/process.go             Processes       list_processes and get_process; Listed
--   internal/sysd/manager.go              Sysd            what is asked of systemd's manager
--   internal/tools/boot.go                Boot            the boot tools; Boot/Chain
--   internal/tools/systemd.go             Units           the tools on units and timers; Listed
--   internal/tools/apt.go                 Packages        the tools on packages, with `LastUpdate` of
--                                         internal/aptdb/aptdb.go; Listed
--   internal/tools/logs.go                Logs            the journal and dmesg tools; Logs/Arguments
--   internal/tools/block.go               Blockdev        list_block_devices on JSON trees (Values);
--                                         Paths, Hosts, Projection
--   internal/tools/fleet.go, fleet_query.go  FleetTools   list_fleet and fleet_query; Members, Order
--   internal/snapconf/snapconf.go         Snapconf        the configuration of the snap
--   internal/mcpserver/token.go           Token           where the bearer token comes from; Kept
--   cmd/fleetmind/main.go                 Config          address, port and fleet mode; Checked
--   internal/sysfs/sysfs.go               Sysfs           the readers of /sys; Devices
--   internal/tools/network.go             Host/Network    sockets and interfaces
--   internal/tools/mount.go               Host/Disks      list_mounts
--   internal/tools/system.go              Host/System     system_info and os-release
--   internal/tools/cpu.go, load.go        Host/Cpu        cpu_info and load_info
--   internal/mcpserver/server.go          Server          a new fleet, and how serving ends; Ended
--   internal/exectool/exectool.go         Exec            the bounded writer; Exec/Bounded
--   internal/mcpserver/auth.go            Auth            the bearer token; Auth/Exact
--   Common/                               byte strings, integers, maps, sorting and text functions of
--                                         Go's standard library, as far as the program calls them
--
-- How the parts interact. The registry is shared by the HTTP handlers and the manager. Handlers/Join
-- upserts the peer that posts itself, broadcasts the change on the registry's channels and returns the
-- roster; Bootstrap stores the roster that another node returned and starts a stream for each member;
-- the events of a stream come back through Manager's handle_remote_event; Handlers' events_body is
-- what the other end of such a stream reads.
--
-- State. A Go map with string keys is an association list, with an invariant that no key is twice in
-- it. A lock is held over each method of the registry and over each of the two stream methods of the
-- manager, so such a method is one step and an interleaving is a list of steps. A handler or a turn of
-- a loop that makes several such calls takes what the other goroutines do in between as an argument; a
-- theorem that takes them to do nothing there names them `alone` or `undisturbed` and says so. A
-- channel is its buffer and capacity. A context is a number in a list of contexts that name their
-- parents. An instant is the number of nanoseconds since the zero time.
--
-- Bounds and fuel. The loop of compareUpstream takes one unit of fuel for each byte of its two
-- arguments, which Order shows to be enough; printing a number takes one for each digit, which Common/
-- Decimal shows to be enough; the walk of the critical chain has the 32 steps of the code; every other
-- loop recurs on its list. A scanner's lines are bounded as its buffer is. Durations are int64
-- where the code computes with them: the difference of two instants stops at the ends of int64, and
-- the doubling of a delay wraps round.
--
-- The host is read through files and through systemd's bus: Procfs parses what the kernel prints, Sysd
-- asks the bus, and the tools (Processes, Boot, Units, Packages) filter, sort and cut off what they get.
--
-- Parameters. JSON (encoding/json), URL parsing (net/url), lower-casing, gzip, compiling a regular
-- expression, float64, the answers on D-Bus and running a program are arguments of the definitions that
-- call them; a file is its
-- content, or `none` where it cannot be read; what the clock returns is an argument.
--
-- Not modelled: the tools that only copy what a reader returns, the routes of the HTTP server, the web
-- UI, the summary lines of the tools, and the network itself.
pub mod Aptdb
pub mod Auth
pub mod Blockdev
pub mod Boot
pub mod Common
pub mod Config
pub mod Exec
pub mod Fleet
pub mod FleetTools
pub mod Host
pub mod Logs
pub mod Packages
pub mod Processes
pub mod Procfs
pub mod Server
pub mod Snapconf
pub mod Sysd
pub mod Sysfs
pub mod Token
pub mod Units
