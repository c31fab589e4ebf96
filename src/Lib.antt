-- ===== src/Lib.antt =====
-- A model of susentorno's own logic: the parts that decide, not those that call the system.
--
-- run-hosting keeps a proxy in front of guest VMs. `runHostingLoop` watches credential and policy
-- files, asks each `CredentialChannel` whether a change needs a restart, and swaps between a blue
-- and a green proxy; a channel plans its own refresh nudges with `planNextActions`. Beside the
-- loop a DHCP server leases addresses to the guests from a lease table, and a DNS responder
-- answers their queries. Before that, setup chooses a subnet, reconciles the Hyper-V VM with the
-- switch, runs the steps of a Windows guest, and plans which certificates it is to trust. The flow
-- of a Windows guest's setup puts these together: it gives the guest a
-- credential for the share and keeps a ledger of what it has written and verified, runs the steps,
-- checks that run-hosting answers, moves the guest to the isolated switch, waits for the network
-- there, and cleans up however it ends.
--
-- The files:
--   Base, Bytes: lists, maps, sets, texts and byte buffers that all parts share.
--   Dhcp/Ip, Dhcp/Leases, Dhcp/Message, Dhcp/Handler: src/runHosting/ip.ts, dhcpLeases.ts,
--     dhcpMessage.ts, dhcpHandler.ts and dhcpServer.ts. The lease table's closure is the record
--     `LeaseTable`; `acquire`, `request`, `release` and `decline` return the new one.
--   Dns/Message: src/runHosting/dnsMessage.ts and the handler in dnsResponder.ts.
--   Credentials/Plan, Credentials/Channel: src/runHosting/types.ts, planNextActions.ts and
--     credentialChannel.ts. A channel's private fields are the record `Channel`.
--   Hosting: src/runHosting/runHostingLoop.ts. The closure variables are the record `Loop`; the
--     async functions are split at their awaits, `Pc` says where they wait, and `on_event` is one
--     turn of the event loop.
--   HostNetwork/Subnets: src/hostNetwork/subnetSelection.ts.
--   Vm: src/guestSetup/vmReconcile.ts with the plan of hyperVOperations.ts and the results of
--     hyperVQueries.ts; PowerShell and the clock are arguments.
--   Trust: src/guestSetup/windows/trustPlanner.ts; the certificate and JSON parsers are arguments.
--   Steps: runWindowsSteps and boundStepOutput of src/guestSetup/windows/stepRunner.ts, and
--     stepPlan.ts; the executor and the listing of a directory are arguments.
--   Guest: src/guestSetup/windows/guestExecutor.ts (the results of a probe and the wait until the
--     guest is ready) and isolatedReadiness.ts (the facts of the isolated network and the wait for
--     them). Both waits are instances of the loop of Guest/Polling.
--   Sharing: src/guestSetup/windows/shareCredential.ts. The maps of the ledger's closure are the
--     record `Ledger`; an operation takes a `Session`, the ledger with the guest, and returns the
--     next one. Sharing/HostCheck is the check of the host's account and share.
--   Setup: src/guestSetup/windows/setupFlow.ts. `Deps` are its dependencies; a phase takes a `Run`
--     (the session, and an account of the effects so far) and returns where control goes.
--   Policy: src/allowlist.ts, blockList.ts and mcpServers.ts: the lists' lines and files, the
--     combination of the lists, and the collisions of MCP hosts.
--   Weaving: src/collisions.ts, the collisions of the paths that are woven into a share.
-- Each part has its concrete examples in a child `Examples`.
--
-- Numbers are natural numbers. Times are milliseconds; where the source subtracts, a difference
-- below 0 never decides otherwise than the 0 that stands for it. 32-bit values are cut off with
-- `% 2 ^ 32` where the source writes `>>> 0`. A SHA-256 is the number that its digits write.
--
-- Fuel: the option loop of a DHCP message and the label loop of a DNS query take a byte a round,
-- so the buffer's length and one more is enough; the loop that waits for a VM to be off, and the two
-- that wait for a guest, sleep in each round or find the signal aborted, so the timeout and 2 is;
-- `drainRestarts` returns to its loop's head without waiting only with no work left, so 2 rounds
-- are. What a user enters at the prompts of the setup is a finite list.
--
-- Not modelled: sockets, containers, child processes, files, PowerShell scripts, log and error
-- texts, the Envoy configuration, certificate generation, JSON, and the command line, which call
-- other programs or only format text; the MCP supervisor and what the weaving of
-- shares writes. `toLowerCase` is an argument. An operation in the guest that is given up at its
-- deadline is taken to have run to its end there before the next one starts.
-- A write that does not fit its place makes `buildReply` throw; the reply has no buffer then. A
-- rejection that nothing catches ends the process: the loop is `crashed`, and takes no more steps.
pub mod Base
pub mod Bytes
pub mod Guest
pub mod Dhcp
pub mod Dns
pub mod Credentials
pub mod Policy
pub mod Hosting
pub mod HostNetwork
pub mod Vm
pub mod Trust
pub mod Steps
pub mod Sharing
pub mod Setup
pub mod Weaving
