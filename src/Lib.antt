-- ===== src/Lib.antt =====
-- steamos-log-submitter collects crash reports and other logs on a device and submits them. A daemon
-- triggers collection and submission; helpers know the kinds of logs, and each has a directory in
-- `pending`, `uploaded` and `failed`, which a lock file guards.
--
-- How the parts interact: runner.py takes the lock of a helper (lockfile.py), asks the helper to submit
-- each pending log, and moves the log by the result. helpers/__init__.py finds the logs that are new
-- since the last collection and notes the newest in the configuration. helpers/journal.py reads failed
-- units off the systemd journal and writes a report for each; helpers/kdump.py reports kernel crashes;
-- util.py finds the application and the device that a report is about. config.py holds the switches,
-- data.py what the helpers remember.
--
-- Which file models which part (paths below steamos_log_submitter/):
-- - Base: Python's `str`, `dict`, exceptions as far as the code tells them apart. An exception is a
--   value: a function that may raise returns a `Result`, with the state it leaves in either case.
-- - Spool: the three directories of a helper, which __init__.py names, and `os.replace`.
-- - Runner: runner.py `submit_category`, with its loop, `break` and both `except` clauses as
--   `submit_logs`, `settle` and `caught`. The helper's `submit` is a parameter.
-- - Lockfile: lockfile.py. `step` is one system call of `Lockfile.lock`; `lock` runs it alone and `play`
--   interleaves two processes. Files are inode numbers. Lockfile/Retry: `LockRetry.__enter__`.
-- - Helper: helpers/__init__.py, `Helper.collect` (Collect), the tests on file names (Names), `enable` and
--   its like (Switches), `HelperInterface.Extract` (Extract), `StagingFile` (Staging), and
--   `HelperResult`, `create_helper`, `validate_helpers`, `LastCollected`, `NewLogs` (Setup).
-- - Journal: helpers/journal.py `escape`, `unescape`, `failed_units`, `read_journal`, file names, and
--   `collect_inner` (Collect) over what journalctl prints.
-- - Runner/Phases: runner.py `collect_category`, `collect`, `submit`, `trigger`, `startup`. A helper is a
--   record of what its operations come to; `done` is the order in which its tasks are seen to finish.
-- - Util: util.py `get_dmi_info` (Dmi), `get_pid_stat` (Stat), `get_appid` (Appid), `camel_case` and
--   `snake_case` for ASCII (Case), `read_journal` (Read), `drop_root` (Root), and `get_file_key`,
--   `check_network`, `telemetry_unit_id` and `read_file` (Release).
-- - Trace: helpers/trace.py, `read_journal` over that of util.py; Trace/Event: `TraceLine`, `TraceEvent`
--   and `submit`; Trace/Prepare: `prepare_event` and `LogEvent`.
-- - Daemon: daemon.py, the tasks between two awaits. `step` is a call of a method or a task that goes
--   on, `play` any sequence of them.
--   Daemon/Cancellation: where a task is, and what `Task.cancel` does to tasks that wait for others.
--   Daemon/Schedule: `_next_trigger`, `_trigger_periodic`, over a restart. Daemon/Exports: `_setup_dbus`,
--   the exports that `shutdown` takes off, and `list_type` and `LastCollected` of `DaemonInterface`.
-- - Exceptions: exceptions.py and `HelperError`; `_reraise` and `exc_wrap` of daemon.py, `_rethrow` and
--   `command` of client.py. Exceptions/Wire is the way of an error from the daemon to its clients.
-- - Client: client.py over a record of what the bus answers; Client/Sets: `validate_helpers`. Cli: the
--   commands of cli.py; what they print is a list of lines.
-- - Dbus: dbus.py `MatchRule` (Match), `to_variant` (Variant), `signature` and `fn_signature`
--   (Signature), `DBusProperties` (Properties). dbus_next itself is not modelled.
-- - Logging: logging.py, and the log level in daemon.py.
-- - Config: config.py, parsers as dicts of dicts; Config/Migration is about `migrate_key` and
--   Config/Upgrade about `upgrade`. DataStore: data.py.
-- - Kdump: helpers/kdump.py, the loop over the stack in `submit`, `get_summaries` (Summaries) and
--   `parse_traces` (Traces); what the regular expressions find is a parameter.
-- - Sentry: aggregators/sentry.py. `seal_event` and `seal_envelope` are `seal`.
-- - Reports: the `submit` of helpers/earlyoom.py, gpu.py, devcoredump.py and sysreport.py, and
--   `send_report` of the last one (Reports/Sysreport, Reports/Placed).
-- - Minidump: helpers/minidump.py `sanitize_environ`.
-- - Sysinfo: helpers/sysinfo.py `collect`; Sysinfo/Edid: `parse_edid`; Sysinfo/Mounts:
--   `FilesystemsType.list`; Sysinfo/Devices: the types that read D-Bus properties; Sysinfo/Local: the
--   other types.
-- - Hooks: hooks/gpu.py (its choices), hooks/coredump.py and hooks/devcoredump.py.
--
-- Numbers are natural numbers, and integers in Dbus/Variant; no machine integer wraps in this program.
-- Times are natural numbers. An inode stands for the pair of `st_ino` and `st_dev`.
--
-- Bounds and fuel: `lock` alone needs at most seven system calls, and returns in them. `get_appid` walks
-- up the parents of a process on fuel; where parents form no cycle, the rank of the process plus one is
-- enough. `_parse_string` of a match rule has the length of the rule as fuel; each round shortens what
-- is left. All other loops are structural.
--
-- Not modelled: minidump.py's `submit`; `get_config` and the choice of the paths in config.py; the list
-- of applications and the packages in util.py; `collect` of journal.py around `collect_inner`; the files
-- and processes of the hooks; the argument table of cli.py, the commands of client.py that pass
-- one call on; the network, D-Bus, zip and JSON libraries; log output. Data that the code reads from
-- the system (files under /proc, /sys, the journal) are arguments of the definitions.
pub mod Base
pub mod Cli
pub mod Client
pub mod Config
pub mod Daemon
pub mod DataStore
pub mod Dbus
pub mod Exceptions
pub mod Helper
pub mod Hooks
pub mod Journal
pub mod Kdump
pub mod Lockfile
pub mod Logging
pub mod Minidump
pub mod Reports
pub mod Runner
pub mod Sentry
pub mod Spool
pub mod Sysinfo
pub mod Trace
pub mod Util
