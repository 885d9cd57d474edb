-- ===== src/Lib.antt =====
-- One-AutoJS6: a fleet of Android phones that run trusted AutoJS6 scripts, and the server that
-- gives them tasks. This library models the core of the phone's client, which is a single Node
-- process, and two parts of the server: its TikTok campaigns and its end of the maintenance
-- channel.
--
-- The program's parts. The server publishes a task over MQTT. The client parses it
-- (mobile/src/protocol.ts), queues it by priority (mobile/src/task-queue.ts), runs one task at a
-- time and reports what became of it (mobile/src/client.ts), delivers the reports
-- (mobile/src/task-result-delivery.ts), and publishes a snapshot of its queue
-- (mobile/src/task-state.ts). A script may run only if the local registry knows it
-- (mobile/src/task-registry.ts). A TikTok publication is irreversible, so a private ledger
-- records how far each one got (mobile/src/tiktok-ledger.ts). Beside the tasks, a short-lived
-- maintenance channel serves small operations (mobile/src/ops-protocol.ts,
-- mobile/src/ops-session.ts). Its other end is the server, which checks what a caller asks for,
-- builds the request and checks every frame that comes back (pc/src/device-ops-protocol.ts and
-- `sendTask` of pc/src/service/device-ops.service.ts). A monitor of Android's network events
-- (mobile/src/network-change-monitor.ts) starts a check of the routing. The server sends a phone
-- a new release of its software as a deployment (mobile/src/deployment-protocol.ts,
-- mobile/src/release-manifest.ts, mobile/src/deployment-manager.ts): the phone downloads and
-- checks it while it works, blocks its intake of tasks, waits for the running task and asks for
-- the activation. A campaign (pc/src/tiktok-campaign.ts) publishes a list of videos one after
-- another: it hands each of them to the phone as a task, and keeps a ledger of the attempts of
-- its own.
--
-- The files.
-- Base: shared names and types. Json is a decoded JSON value, Number a JavaScript number without
--   NaN (a finite one is its floor and its fraction), Outcome a computation that may throw.
-- Protocol: `parseDeviceTaskRequest` is parse_device_task_request in Protocol/Parse, where each
--   check is one line of a do block in the order of the code. Protocol/Sound and
--   Protocol/RoundTrip are about it.
-- TaskQueue: `insertQueuedTask`, `canPreemptRunning` and `findHighPriorityEvictionIndex`; the
--   sort in the last is a stable insertion sort. TaskQueue/Order and TaskQueue/Eviction are
--   about them.
-- TaskState: `parseTaskControlCommand` in TaskState/Command, `buildTaskStateSnapshot` in
--   TaskState/Snapshot, `canCancelActiveTask` in TaskState itself.
-- TaskRegistry: the registry and `getRegisteredScript`; `validateRegisteredTaskParams` in
--   TaskRegistry/Params; the checks of `executeTask` up to its first side effect and the
--   script's timeout in TaskRegistry/Execute; what a script that runs has passed in
--   TaskRegistry/Runs.
-- Scheduler: the record Client holds the task globals of client.ts. The handlers are in
--   Scheduler/Handlers (intake), Scheduler/Control (cancelling, timing out, preempting, cleaning
--   up) and Scheduler/Execution (the life of a task that left the queue). Scheduler/Steps has
--   the step relation: one step is one run of the event loop, from a callback's start to its end
--   or its next `await`, and what follows an `await` is a continuation that waits in the state.
--   Every order of steps is allowed. Scheduler/Invariant, Running, Waiting, Draining, Ending and
--   Serial are about the invariant; NoLoss, Kept and Conserved follow the results; Commit and
--   Start are about tasks past their commit and tasks that are refused.
-- Outbox: the results on disk and their delivery, mobile/src/task-result-delivery.ts and the
--   outbox functions of client.ts; Outbox/Kept is about runs of them.
-- Ledger: the records of the ledger; Ledger/Storage its two files and a crash between their
--   writes; Ledger/Operations, Checkpoint and Import every operation of the class;
--   Ledger/Phases, Uses and Legacy what holds over runs of operations and restarts.
-- Ops: the types of the maintenance channel; Ops/Parse and Sound its parsers; Ops/Session and
--   Ops/Handle one session and `handleRequest`; Ops/Bounds, Runs and Idempotent its limits and
--   its kept responses; Ops/Manager and Single `handleOpenCommand`, `close` and the loss of a
--   connection; Ops/Artifact and Transfer the screenshot frame, from the device's encoder to the
--   server's decoder; Ops/Capture `executeAndTransfer` with the server's test of a response
--   against its screenshot, and Ops/Captured is about them.
-- OpsServer: the server's end of the maintenance channel, with the tests its parsers share.
--   OpsServer/Params is `parseOperationParams`, OpsServer/Input `parseDeviceOpsCreateInput` and
--   the request of `sendTask`, OpsServer/Frames the hello, the close, the address and the
--   comparison of secrets, OpsServer/Target the texts and identifiers of a screen element,
--   OpsServer/Lookup `parseDeviceUiTargetAtResult`, OpsServer/Response `parseDeviceOpsResponse`
--   and the response the phone builds. OpsServer/Again, Brightness, Stable and Delivered are
--   about requests, Answered about responses, Reviewed and Private about screen elements.
-- NetworkMonitor: the class of mobile/src/network-change-monitor.ts; NetworkMonitor/Watching is
--   about runs of it.
-- Deployment: the three files of deployments. Deployment/Archive has `safeArchivePath` and
--   `isSafeArchiveSymlink`, and Deployment/Walk and Inside read paths segment by segment;
--   Deployment/Release has `parseReleaseManifest`; Deployment/Fields has the types of the
--   protocol and the tests on its fields, Deployment/Command `parseDeviceDeploymentCommand`;
--   Deployment/Config is about the scans of a configuration, Deployment/Accepted about what the
--   parser accepts. Deployment/Unpack has the checks on an archive and on the release in it,
--   Deployment/Stage is `stage` over a record Disk of installed releases, environments and
--   prepared activations; Deployment/Verified, Ensure and Installed are about that disk.
--   Deployment/Manager has `waitForIdle` and `handle`: a run of `handle` yields the list of what
--   it did outside (the reports, the intake blocked and given free, the request for an
--   activation). Deployment/Cases, Activation, Warranted, Waiting, Blocking and Progress are
--   about such runs.
-- Campaign: the records of a campaign. Campaign/Validate is `validateCampaign`;
--   Campaign/Operations, Attempt, Review and Reschedule have the operations of `TikTokCampaign`,
--   the first write of the ledger and what follows the transport apart; Campaign/Resume has
--   `performKnownPrecommitResume` over the records of resumes. Campaign/Steps has the
--   step relation of a campaign, with a process that stops between the two writes. Campaign/Line
--   is the protocol of one publication after another, a specification that knows nothing of
--   entries or dates; Campaign/Moves, Find, Refine, Replan, Runs, Tracked and Once relate runs
--   of the operations to it.
-- A module called Tests holds runs on concrete data.
--
-- Bounds and fuel. Every function is structurally recursive. There are two fuels. The decimal
-- text of a configured limit has 16 digits, enough for a safe integer. The wait for the active
-- task polls every 250 ms for at most 30 minutes; a fuel of n polls is enough when the clock
-- passes the deadline within the first n, as 7201 polls do that are 250 ms apart. Counters and
-- sequence numbers are natural numbers; the source's stay below 2 ^ 53. A Number is exact, so
-- that a sum or difference of two times is not rounded. The instants of a campaign are
-- milliseconds since 1970, and dates before are left out.
--
-- Assumptions. One run of a handler reads the clock once. An object that JSON.parse returns has
-- distinct keys, and its fields stand in the order of `Object.keys`. A file is replaced whole or
-- not at all (a temporary file and a rename). Times of the maintenance session do not run
-- backwards between the start and the end of an operation. A deployment command is handled when
-- the one before has ended, as the client chains them. A campaign holds its lock file over an
-- operation, and the writes of `reschedule` happen without a stop between them.
--
-- Parameters: `new URL`, JSON.stringify and the lengths of its texts, SHA-256, the bytes of a
-- text in UTF-8, the text that `String` makes of a number, `trim` of an address,
-- parseNetworkRoutingPolicy, the answers of HTTP and of tar to a deployment, and
-- normalizeTikTokRequest, the local files and the transport of a campaign. What a script
-- answers, whether a process could be stopped, and the TikTok part of a timeout's message are
-- data of the step.
--
-- Not modelled: the network, the replay of unreadable outbox files, shell commands, temporary
-- files, files other than the ledger's, the outbox's and a deployment's, the texts of most
-- messages, the TikTok policy and its commit review, network routing, remote control, the
-- evidence that the resume of a campaign's publication asks for, a campaign's command line and
-- its HTTP transport, what a forced stop does to the device, and the rest of the server.
pub mod Base
pub mod Campaign
pub mod Deployment
pub mod Ledger
pub mod NetworkMonitor
pub mod Ops
pub mod OpsServer
pub mod Outbox
pub mod Protocol
pub mod Scheduler
pub mod TaskQueue
pub mod TaskRegistry
pub mod TaskState
