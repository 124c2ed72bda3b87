-- ===== src/Lib.antt =====
-- corosync-qdisk: a daemon that gives the vote of corosync's quorum device to the node that holds a
-- persistent reservation on a shared disk (qdiskd/), over a library for SCSI and NVMe reservations
-- (persistent_reserve/).
--
-- Parts, and the files that model them:
--   Prelude      shared names: Boolean tests and integers over the native numbers, lists, text as the
--                list of its character codes, and the wrap-around of 32 and 64 bits.
--   Libc         what the code uses of formatted input and output: `"%016" PRIx64`, the conversions
--                `%x`, `%u` and `%s`, strstr; Libc/Keys has their laws on keys.
--   Corosync     the outside world: the calls of libvotequorum, libcmap, the clock and the C library
--                as requests with typed replies, popen, and the callbacks as lists of notifications.
--                The record `Env` is a parameter of everything; W is the state of the world.
--   Reserve      persistent_reserve/device.h: error codes, and the class of devices as a record of
--                operations. Reserve/Exec is exec_cmd and exec_cmd_output (persistent_reserve.c) and
--                fgets, Reserve/Scsi is scsi_device.c (Reserve/Scsi/Open its detection and opening),
--                Reserve/Nvme is nvme_device.c (Reserve/Nvme/Open its detection and opening). Each
--                operation keeps its C name. Reserve/Scsi/Parse and Shown, and
--                Reserve/Nvme/Entries, Shown and Plain are about reading the output of the
--                commands, Reserve/Scsi/Commands and Abort and Reserve/Nvme/Commands about the
--                commands themselves. Reserve/KeyFile is device.c, Reserve/Errors is pr_strerr.
--   Vquorum      qdiskd/vquorum.c: the globals as a record, the callbacks, and in Vquorum/Service the
--                functions that the daemon calls.
--   Cmap         qdiskd/cmap.c in the same way.
--   Daemon       the globals of all parts together, and programs over them that may end by exit, by
--                abort, or by following a null pointer.
--   Algorithm    qdiskd/algorithm.c: algorithm_run, cut at its early returns into algorithm_run,
--                run_reserved, run_keys, switch and run_finish, and algorithm_stop. Algorithm/Init is
--                algorithm_init, cut in the same way. The other files beside them are about the
--                switch (Switch, Release), a heartbeat as a whole (Heartbeat, Holding, Keeps, Exits,
--                Lost, Progress, Held), several in a row (Beats, Race, Owner, Back, Loser), one
--                beside a holder (Wait) and the nodes that it sees (Visible). Where a file follows the
--                votes, the world has a log `sent` of those that have reached votequorum, and a
--                heartbeat is followed with what it adds to this log.
--   Cluster      several daemons on one disk: heartbeats in any order, daemons that end, by a signal or
--                with their host, and start again, and news, by which a callback changes what a daemon
--                knows. Its record `Disk` says what is taken of a disk with persistent reservations and
--                of the keys. Cluster/Safety is about HAVE_QDISK, Cluster/Lock sets a lock with one owner
--                against it, Cluster/Lost is about the abort, and Cluster/Split about two halves of a
--                cluster. Cluster/Target says what is taken of
--                the commands that reach such a disk, and Cluster/Scsi and Cluster/Nvme put the two
--                classes of devices on it.
--   Log          qdiskd/log.c: the tags, pr_log, and the file of the blackbox.
--   Main         qdiskd/main.c: the start of the daemon, the callbacks of the event loop and its end.
--                What the loop calls is a list of events. Main/Exit follows `main` through every such
--                list, Main/Steps, Main/Loop and Main/Life set what follows algorithm_init against
--                the steps of Cluster, and Main/Follow is about the key of the holder on its way to a
--                heartbeat.
--   Tool         persistent_reserve/qdisktool.c, cut at its early returns; Tool/Status and Tool/Keys
--                are about its output, its exit code and its key.
--   Examples     small concrete worlds, a race for the disk that is run, tests, and an instance of
--                each theorem that has hypotheses.
--
-- Numbers are natural numbers, and results of unsigned arithmetic that may wrap are taken modulo
-- 2^32 or 2^64; an `int` that carries an error is an integer. The loops that the code repeats without
-- a bound while a call answers CS_ERR_TRY_AGAIN have `attempts` rounds, a field of `Env`, which is
-- enough where it exceeds the number of refusals. All other loops run over a list or a fixed number.
--
-- Not modelled: the messages of the log, free and allocations that fail, the registration of
-- the signals, whose handlers are events, the handler of SIGSEGV and SIGABRT, which writes the
-- blackbox before the end, and what closes libqb's loop and log. libqb, systemd and the C
-- library are requests, as corosync is; that the loop of libqb calls the timer again and again
-- is not stated. A daemon that starts in the cluster does so from the opened device on, and no
-- host preempts the reservation of another.
pub mod Prelude
pub mod Libc
pub mod Corosync
pub mod Reserve
pub mod Vquorum
pub mod Cmap
pub mod Log
pub mod Daemon
pub mod Ends
pub mod Algorithm
pub mod Cluster
pub mod Tool
pub mod Main
mod Examples
