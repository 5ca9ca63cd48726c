-- ===== src/Lib.antt =====
-- The location service (com::ubuntu::location): sessions of clients share providers of positions, headings
-- and velocities, which an engine switches on and off, and for which a connectivity manager keeps the cells
-- that modems are connected to and the wireless networks that are visible. Paths below are relative to src/location_service/com/ubuntu/location, and to
-- include/location_service/com/ubuntu/location for the public headers.
--
-- How the parts interact. A client calls the methods of its session (service/session/skeleton.cpp), which
-- set status properties, whose slots (service/session/implementation.cpp) start and stop a proxy provider
-- (proxy_provider.cpp) through that provider's controller (provider.cpp). The proxy passes the calls on to
-- the controllers of the providers which the selection policy (default_provider_selection_policy.cpp) chose
-- from those of the engine. The engine (engine.cpp) wraps each provider in one that tracks its state
-- (state_tracking_provider.h), enables and disables them when its configuration changes, derives its own
-- state from theirs, and saves it in the settings (settings.h, boost_ptree_settings.cpp). Positions pass a
-- time based policy (time_based_update_policy.cpp), and those of several fused providers a selector.
-- The service (service/skeleton.cpp, service/implementation.cpp) creates the sessions for clients that a
-- permission manager grants, keeps them in a store, and mirrors the engine's configuration in properties
-- on the bus; while its users allow that, a harvester (service/harvester.cpp) reports positions with the
-- cells and networks of the connectivity manager (connectivity/ofono_nm_connectivity_manager.cpp). What
-- goes over the bus is encoded by codec.h. A position that a provider has goes through the policy to the
-- providers, as their reference, and to the harvester, whose reporter submits it (service/ichnaea_reporter.cpp).
-- The GPS provider (providers/gps) drives the chipset through the driver of the platform, whose satellites have the numbers 1 to 32, and asks time servers; the remote
-- provider (providers/remote) hands its calls over the bus to a provider in another process; the dummy provider
-- (providers/dummy) makes up its updates in a thread of its own.
--
-- The files. Base has lists, tests and signed integers. Provider is the controller: Provider/Controller has
-- the operations over any state of which the controller is a part, so that a call back from a virtual
-- function is seen by the code after it; Provider/Consistency and Provider/Sharing have their theorems,
-- Provider/Relate and Provider/Simulate relate the states around an operation and two providers with the same
-- controller, and Provider/Chained has a controller behind another. Engine/State is the engine's data, Engine
-- its operations, named as the slots and functions that they model; Engine/Run is a sequence of events,
-- Engine/Keeps and Engine/Held are lemmas, and Engine/Gate the theorem; Engine/Updates is the way of a position, with Engine/Told.
-- Measure has positions and updates, Criteria what a client requires, UpdatePolicy the time based policy,
-- Fusion the selector of fused positions, with Fusion/Forwarded for the calls, Selection the selection policy, Session the sessions with the client's side in
-- Session/Client and Session/Matched, Settings
-- the enumerations as text and the settings, and RadioCell (with Bounded for bounded_integer.h) the cells of
-- connectivity/cached_radio_cell.cpp. Codec is codec.h: Codec/Message the bus as a parameter, Codec/Build and
-- Codec/Laws how codecs are put together, Codec/Values and Codec/Vehicles the codecs, Codec/RoundTrip and
-- Codec/Visible their theorems. Connectivity is the connectivity manager: Connectivity/Cells the caches of
-- modems and cells with Connectivity/Kept and Connectivity/Enumerated, Connectivity/Networks those of
-- devices and networks with Connectivity/Heard, Connectivity/Wireless a network of
-- connectivity/cached_wireless_network.cpp with Connectivity/Properties, and Connectivity/Characteristics. Remote is the
-- two sides of a remote provider, as steps of requests, tasks and updates, with Remote/Order and Remote/Driver. Gps is the
-- hardware layer with its functions and the driver's callbacks, Gps/Satellites what it makes of the satellites with
-- Gps/Visibility, Gps/Modes its modes, Gps/Xtra its xtra hosts, and Gps/Delivered the provider on top. Dummy is the step relation of the two
-- threads of the dummy provider, with Dummy/Consistent and Dummy/Stopping, and
-- Dummy/Configured its options. Daemon/Options has the options for
-- providers of service/daemon.cpp with Daemon/Format, and Daemon/Cli its command line interface with Daemon/Adjust,
-- and Daemon/Load the loading of providers. Sntp is the SNTP client,
-- with Sntp/Flags for the first byte of a packet and Sntp/Timestamps for times. Service/Permissions has the
-- permission managers, Service/Sessions the store of sessions, Service/Refinement its specification and
-- Service/Trusted whom it serves, Service/Harvester the harvester with the demultiplexing reporter,
-- Service/Ichnaea what is submitted with Service/Submitted,
-- Service/Mirror the properties with Service/Slots, Service/Settled, Service/Mirrored and Service/Started;
-- Factory is provider_factory.cpp. Tests applies the theorems to concrete inputs.
--
-- Choices and bounds. Numbers are natural numbers; `int` and the 64-bit counts of std::chrono are ℤ with their
-- wrap-around written out (increment, decrement, wrap64), and theorems name the range in which they need
-- none. Quantities are floating point numbers: their type and comparisons are a parameter, and theorems that
-- need an order say so (it holds for all numbers, infinities included, but not for NaN). core::Property is
-- a parameter that emits exactly when the value changes; its slots run at once, in the order in which they
-- were connected. boost's property tree is a parameter with the documented laws of `get`, `count` and `put`
-- for keys without a dot. Functions that take a lock run one after another, so interleavings are sequences of
-- calls. Recursion is on lists, with two exceptions: the loop that decodes the space vehicles has fuel, of
-- which one round more than there are elements is enough, and the properties of the service have fuel for
-- slots that run within slots, of which four are enough. An object path is a number; a map keyed by paths is
-- a list of pairs in no particular order. A task that is posted to the dispatcher of the connectivity manager
-- is run by an event of its own, and so is a task of a remote provider, whose transaction comes with what
-- becomes of it. What the GPS driver answers is a function of the calls that it got. The bus's messages, readers and writers are a parameter with the documented
-- laws that what is pushed is popped; AppArmor's profiles and the trust store's agent are functions. Bytes and
-- words of SNTP packets are taken modulo 2 ^ w. A variable that the code reads without having set is an
-- argument, and so is the memory under a union that is not initialised. An exception is `none`. The engine's
-- map of providers iterates by address: `order` is that order, `connected` the order of connection. An
-- assignment that a slot makes runs the slots of that change before the outer slot goes on. The slots that others than the
-- engine connect to its state are a parameter of the engine (Engine/State), and what the providers do that the engine's
-- slots enable and disable is a parameter of the service's properties (Service/Mirror).
--
-- Not modelled: the sending of messages and the signatures of their types, the bus interfaces of oFono and
-- NetworkManager (connectivity/ofono.h, connectivity/nm.h) but for the types of an access point's properties, sockets and
-- timers but for their effect, the delivery of updates to clients, the codecs of velocities,
-- headings and provider flags, the start-up of the connectivity manager, the HTTP client and the JSON library, the
-- exchange of packets with a time server and its evaluation, the download of xtra data, the set-up of the bus of a remote provider,
-- the providers for Geoclue and Skyhook (adapters to libraries that are
-- not here), the set-up of the daemon and the library for its options; and logging and printing for debugging.
pub mod Base
pub mod Provider
pub mod Remote
pub mod Gps
pub mod Dummy
pub mod Daemon
pub mod Measure
pub mod Criteria
pub mod UpdatePolicy
pub mod Engine
pub mod Settings
pub mod RadioCell
pub mod Session
pub mod Selection
pub mod Fusion
pub mod Codec
pub mod Connectivity
pub mod Sntp
pub mod Factory
pub mod Service
pub mod Tests
