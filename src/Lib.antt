-- ===== src/Lib.antt =====
-- minicontainer: a container runtime for Linux. The command line (cli/main.c) parses the options of
-- a container, stores its configuration in the registry (state/store.c), and starts a shim
-- (runtime/launch.c, runtime/shim_main.c), which parses the options again, sets up the container
-- and writes its log. The repository's paths are below src/, its headers below include/.
--
-- Parts, and the files that model them:
--   Validate     util/validate.c: archive paths and links (Path), names (Name), environment
--                assignments (Environment), users (User). A C string is the list of its bytes;
--                a NULL argument is not modelled.
--   Resource     util/resource.c: counts and sizes (Sizes), cpu quotas (Quota); 64-bit words wrap.
--   Network      network/parse.c: the parser of --publish, and the test of two publications.
--   Mount        util/mount.c: targets (Target), bind and tmpfs mounts (Specs). The file system and
--                the configured allow list are the parameter `Host`.
--   Security     linux/security.c: capability names (Names, Capability), the seccomp filter (Narrow), custom
--                profiles (Profile). libseccomp is the parameter `Seccomp`.
--   Log          runtime/shim_main.c: write_all, rotate_log and log_pump (Pump), and what they do to
--                the log files (Bound). What read, write, rename and open return is an argument.
--   State        state/store.c: the registry directory and its scans (Registry), references
--                (Resolve), published ports (Ports), address leases (Ipam), what is recorded of a
--                running container (Identity), reconciliation (Reconcile, Stale, Sweep); the document
--                of a configuration (Document), its loading (Load) and their round trip (Stored); the
--                calls that change the registry (Save), and registries without two containers of one
--                name or port (Exclusive, Saved, Kept). json-c is the parameter `Json` with the laws
--                `IsJson`.
--   Cli          cli/main.c: the option loop of run and create, the tests after it, and what holds of
--                all accepted options (Accepted); the other commands as sequences of calls (Commands,
--                Create), what a call that returned 0 has done (Calls), and what the commands do to
--                the registry (Registered, Loaded, Removed). The locks keep other commands out; what
--                the shim of a container writes meanwhile is an argument, `poll`.
--   Image        image/import.c: the entries of an archive and their extraction (Entry, Safe), the
--                directory of the images (Store), what an import keeps (Consistent, Published), and the
--                lookup of a name (Record, Found). libarchive and OpenSSL are the arguments `Archive` and `sha256`.
--   Fs           util/fs.c: mc_write_atomic on a map of files (Write), and its three outcomes (Atomic),
--                which the models of its callers take as an argument.
--   Linux        linux/cgroup.c: the control group of a container and its limits (Cgroup, Limits).
--                linux/container.c: the life of a container in its shim (Run, Released), the control
--                socket (Control) and what the command line makes of its replies (Answered), and the
--                first process in the container (Workload, Confined). The kernel's answers are
--                arguments.
--   Launch       runtime/launch.c: the arguments that mc_launch_shim passes to the shim, and that they
--                fit the array that is allocated (Room).
--   Shim         runtime/shim_main.c: the option loop of the shim, the tests after it, and what holds
--                of all accepted options (Accepted).
--   Ids          util/id.c and util/subid.c: identifiers, and the start of the subordinate ids.
--   Base         shared helpers: tests, lists, strings and their comparison as in string.h and
--                ctype.h, strtoull and decimal printing (Number).
--   Tests        runs on concrete inputs, and an instance of every theorem of the list below.
--
-- Loops: all are structural recursion on the text, list or sequence of events, so no fuel is used,
-- except the loop over the components of a path (scan_components), whose fuel is one more than the
-- length of the text and is shown to be enough, the search for a free address, whose count of 253 rounds is
-- the source's own, and the printing of a number, with as many rounds as the number, which are enough
-- for its digits; the loops of stop, rm and mc_cgroup_create that poll have the counts of the source.
-- Reading a directory lists its names once; the order is arbitrary. A file that is scanned is read as
-- it was when the scan came to it, and other processes do not write in between.
--
-- Not modelled: the mounts of the root directory (linux/container.c), the
-- request to systemd (linux/cgroup.c), linux/exec.c and linux/stats.c, network devices and firewall
-- tables (network/netlink.c, network/nft.c), the printing of commands and errors, and memory that cannot
-- be allocated. flock is taken to work as documented.
pub mod Base
pub mod Validate
pub mod Resource
pub mod Network
pub mod Mount
pub mod Security
pub mod Log
pub mod Cli
pub mod Launch
pub mod Shim
pub mod Ids
pub mod Fs
pub mod Image
pub mod Linux
pub mod State
pub mod Tests
