-- ===== src/Lib.antt =====
-- launchd, the first process of the system, which starts, watches, stops and reaps jobs, and the
-- library through which its clients talk to it.
--
-- Base has the shared names: the native numbers, Boolean tests, lists and options.
--
-- Job models one job of src/core.c with its manager and the globals, as functions on a context:
--   Job.Types      struct job_s, struct jobmgr_s and what hangs off a job; the kernel
--   Job.Status     the macros on exit statuses, signals, counters, and the clock of src/runtime.c
--   Job.Keep       job_active, job_useless, job_keepalive
--   Job.Signals    job_stop, job_kill, job_open_shutdown_transaction, job_close_shutdown_transaction
--   Job.Watch      job_watch, job_ignore, machservice_watch, machservice_ignore
--   Job.Start      job_start, up to where a process that could not be watched is reaped
--   Job.Reap       job_reap, in three stretches, between which other jobs are dispatched
-- World.Dispatch puts these parts together to job_start and job_reap.
-- Job.Decisions, Job.Respawn, Job.Stopping, Job.Tally and Job.Accounts have the proofs.
--
-- Runtime models the reference counts and the idle timer of src/runtime.c.
--
-- World models the operations of src/core.c that go from job to job, over tables of jobs and managers
-- by their addresses; using what was freed is a fault:
--   World.Store      the tables, the monad of the computations over them, job_find
--   World.Walk       LIST_FOREACH_SAFE
--   World.Release    what job_remove frees
--   World.Dispatch   job_dispatch, job_remove, jobmgr_dispatch_all, job_dispatch_curious_jobs,
--                    job_set_global_on_demand, and job_start and job_reap with what they dispatch
--   World.Shutdown   jobmgr_shutdown, jobmgr_do_garbage_collection, jobmgr_remove
--   World.Callbacks  job_callback for processes, timers and descriptors
--   World.Calendar   calendarinterval_setalarm, calendarinterval_new, calendarinterval_callback,
--                    calendarinterval_sanity_check, over the list sorted_calendar_events
-- World.Tables, World.Guards, World.Removal, World.Reaping, World.Starting, World.Escalation and World.Agenda
-- have the proofs.
--
-- Calendar models how src/core.c finds the next time for a StartCalendarInterval, over a record of
-- answers for time(3), localtime(3) and mktime(3): Calendar.Cron has cronemu and cronemu_wday with the
-- functions below them, whose loops take fuel, and Calendar.Request has calendarinterval_new_from_obj.
-- Calendar.Matching and Calendar.Accepted have the proofs.
--
-- Data models the typed values of liblaunch/liblaunch.c (launch_data_t): Data.Types, Data.Scalars,
-- Data.Dict and Data.Copy; and, in Data.Wire, launch_data_pack and launch_data_unpack on lists of
-- bytes, over the words of Data.Bytes. launch_data_unpack takes fuel for its depth. Data.Lookup,
-- Data.Pieces, Data.Blocks, Data.RoundTrip and Data.Totality have the proofs.
--
-- Bootstrap models the Mach services of src/core.c and the names under which clients find them, with
-- what these calls read of jobs and managers: Bootstrap.Services has jobmgr_lookup_service,
-- machservice_new, machservice_delete and machservice_request_notifications, and Bootstrap.Calls
-- job_mig_check_in2, job_mig_register2 and job_mig_look_up2. All services are in one list, the newest
-- first, of which the services of a job and the chains of a table of names are parts.
-- Bootstrap.Unique, Bootstrap.Registered, Bootstrap.Reach, Bootstrap.Owned and Bootstrap.Found have the
-- proofs.
--
-- Arguments models mach_cmd2argv of src/core.c, with the space that is left in its buffers: Arguments.Scan
-- has the definitions, Arguments.Fits and Arguments.Copies the proofs. Its loop takes fuel for two rounds
-- more than there are bytes.
--
-- Message models the connections of liblaunch/liblaunch.c over what sendmsg(2) and recvmsg(2) answer:
--   Message.Send     launchd_msg_send, and the loop of launch_msg_internal around it
--   Message.Recv     launchd_msg_recv
--   Message.Chunks   ipc_callback of src/ipc.c for reading
-- Message.Frames says what a stream of messages is. Message.Sending, Message.Delivery, Message.Cuts,
-- Message.Chunks and Message.EndToEnd have the proofs. The loop of launchd_msg_recv takes fuel for each
-- byte that it holds, and the loop of launch_msg_internal ends with the answers that it is given.
--
-- Ipc models ipc_close_fds and ipc_revoke_fds of src/ipc.c on typed values: Ipc.Descriptors has the
-- definitions, Ipc.Closed and Ipc.Revoked the proofs.
--
-- Import models jobmgr_import2 and job_import_bulk of src/core.c: Import.Types has the tables of labels,
-- job_find, jobmgr_label_test and jobmgr_find_by_name, Import.Payload the checks of a payload, Import.Admit
-- the import, and Import.Numbers job_import_integer, on its own. Import.Singles, Import.Outcome,
-- Import.Labels, Import.Bulk and Import.Ranges have the proofs. What the system calls for the keys leave in
-- errno is an argument, and so are the bands of xpc(3).
--
-- Starter models SystemStarter, which runs startup items in the order of what they require and provide:
--   Starter.Items       the items and their lists, of SystemStarter/StartupItems.c
--   Starter.Dependents  appendDependents and StartupItemListCreateDependentsList
--   Starter.Next        StartupItemListGetNext and what it asks
--   Starter.Run         StartupItemRun and StartupItemSetStatus, the end of an item in SystemStarter/IPC.c,
--                       and the run loop in SystemStarter/SystemStarter.c
-- An item is a record of the keys that are read, told from others by the path of its bundle. Starter.Chosen
-- and Starter.Ready are about the next item; Starter.Growth, Starter.Closure, Starter.Walk, Starter.Enough
-- and Starter.Reached about the dependents, for which fuel for one call more than there are items is given;
-- Starter.Sums, Starter.Rounds, Starter.Ends and Starter.Kept about the run loop, which takes a number of
-- rounds and a system that answers in each context.
--
-- Examples applies the theorems to concrete jobs and values.
--
-- The kernel is a record of answers, each a function of the trace of the calls made before: nothing is
-- assumed of it but what a theorem names. Counters are natural numbers taken modulo their width;
-- pointers are numbers. job_dispatch, job_remove and jobmgr_dispatch_all call each other without bound
-- in the source, and take fuel here; the theorems about them hold for any fuel of at least one call.
--
-- Not modelled: logging; failures of malloc; the child's side of fork(2); embedded systems
-- (TARGET_OS_EMBEDDED) and system statistics; limits, environment and removal watchers of a job;
-- waiters for an attach; the label tables of XPC domains outside the import; the keys of a property
-- list but for those named above; special ports and instances of jobs in the bootstrap calls, and the other Mach servers; the rest of the socket
-- server in src/ipc.c; the directories of startup items, their security check and the IPC messages of
-- SystemStarter. The time base of the machine is 1/1.
pub mod Base
pub mod Job
pub mod Runtime
pub mod Arguments
pub mod Bootstrap
pub mod Calendar
pub mod Data
pub mod Message
pub mod Ipc
pub mod Import
pub mod Starter
pub mod World
pub mod Examples
