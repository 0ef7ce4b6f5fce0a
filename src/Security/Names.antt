-- ===== src/Security/Names.antt =====
-- linux/security.c: the names of the capabilities, and the system calls that the filter allows.
use minicontainer.Base.{
  ℕ, ◌+◌, Option, none, some, List, [], ◌∷◌, Bytes, codes, if◌then◌else◌, str_eq, starts_with, drop,
  get_elem?,
}

abbrev pub capability_names : List Bytes
capability_names =
    codes "CHOWN"
    ∷ codes "DAC_OVERRIDE"
    ∷ codes "DAC_READ_SEARCH"
    ∷ codes "FOWNER"
    ∷ codes "FSETID"
    ∷ codes "KILL"
    ∷ codes "SETGID"
    ∷ codes "SETUID"
    ∷ codes "SETPCAP"
    ∷ codes "LINUX_IMMUTABLE"
    ∷ codes "NET_BIND_SERVICE"
    ∷ codes "NET_BROADCAST"
    ∷ codes "NET_ADMIN"
    ∷ codes "NET_RAW"
    ∷ codes "IPC_LOCK"
    ∷ codes "IPC_OWNER"
    ∷ codes "SYS_MODULE"
    ∷ codes "SYS_RAWIO"
    ∷ codes "SYS_CHROOT"
    ∷ codes "SYS_PTRACE"
    ∷ codes "SYS_PACCT"
    ∷ codes "SYS_ADMIN"
    ∷ codes "SYS_BOOT"
    ∷ codes "SYS_NICE"
    ∷ codes "SYS_RESOURCE"
    ∷ codes "SYS_TIME"
    ∷ codes "SYS_TTY_CONFIG"
    ∷ codes "MKNOD"
    ∷ codes "LEASE"
    ∷ codes "AUDIT_WRITE"
    ∷ codes "AUDIT_CONTROL"
    ∷ codes "SETFCAP"
    ∷ codes "MAC_OVERRIDE"
    ∷ codes "MAC_ADMIN"
    ∷ codes "SYSLOG"
    ∷ codes "WAKE_ALARM"
    ∷ codes "BLOCK_SUSPEND"
    ∷ codes "AUDIT_READ"
    ∷ codes "PERFMON"
    ∷ codes "BPF"
    ∷ codes "CHECKPOINT_RESTORE"
    ∷ []

-- strncmp(candidate, "CAP_", 4U) == 0
abbrev pub strip_prefix : Bytes → Bytes
strip_prefix name = if starts_with (codes "CAP_") name then drop 4 name else name

-- The loop over the names, from the given index on.
unfoldable pub find_name : Bytes → List Bytes → ℕ → Option ℕ
find_name candidate [] index = none
find_name candidate (name ∷ names) index =
    let later = find_name candidate names (index + 1) in
    if str_eq candidate name then some index else later

unfoldable pub capability_parse : Bytes → Option ℕ
unfolding find_name
capability_parse name = find_name (strip_prefix name) capability_names 0

unfoldable pub capability_name : ℕ → Option Bytes
capability_name number = get_elem? capability_names number

abbrev pub allowed : List Bytes
allowed =
    codes "accept"
    ∷ codes "accept4"
    ∷ codes "access"
    ∷ codes "arch_prctl"
    ∷ codes "bind"
    ∷ codes "brk"
    ∷ codes "capget"
    ∷ codes "capset"
    ∷ codes "chdir"
    ∷ codes "chroot"
    ∷ codes "clock_getres"
    ∷ codes "clock_gettime"
    ∷ codes "clock_nanosleep"
    ∷ codes "close"
    ∷ codes "close_range"
    ∷ codes "connect"
    ∷ codes "copy_file_range"
    ∷ codes "dup"
    ∷ codes "dup2"
    ∷ codes "dup3"
    ∷ codes "epoll_create"
    ∷ codes "epoll_create1"
    ∷ codes "epoll_ctl"
    ∷ codes "epoll_pwait"
    ∷ codes "epoll_pwait2"
    ∷ codes "epoll_wait"
    ∷ codes "eventfd"
    ∷ codes "eventfd2"
    ∷ codes "execve"
    ∷ codes "execveat"
    ∷ codes "exit"
    ∷ codes "exit_group"
    ∷ codes "faccessat"
    ∷ codes "faccessat2"
    ∷ codes "fadvise64"
    ∷ codes "fallocate"
    ∷ codes "fchdir"
    ∷ codes "fchmod"
    ∷ codes "fchmodat"
    ∷ codes "fchown"
    ∷ codes "fchownat"
    ∷ codes "fcntl"
    ∷ codes "fdatasync"
    ∷ codes "flock"
    ∷ codes "fork"
    ∷ codes "fstat"
    ∷ codes "fstatfs"
    ∷ codes "fsync"
    ∷ codes "ftruncate"
    ∷ codes "futex"
    ∷ codes "futex_waitv"
    ∷ codes "getcwd"
    ∷ codes "getdents64"
    ∷ codes "getegid"
    ∷ codes "geteuid"
    ∷ codes "getgid"
    ∷ codes "getgroups"
    ∷ codes "getitimer"
    ∷ codes "getpeername"
    ∷ codes "getpgid"
    ∷ codes "getpgrp"
    ∷ codes "getpid"
    ∷ codes "getppid"
    ∷ codes "getpriority"
    ∷ codes "getrandom"
    ∷ codes "getresgid"
    ∷ codes "getresuid"
    ∷ codes "getrlimit"
    ∷ codes "getrusage"
    ∷ codes "getsid"
    ∷ codes "getsockname"
    ∷ codes "getsockopt"
    ∷ codes "gettid"
    ∷ codes "gettimeofday"
    ∷ codes "getuid"
    ∷ codes "ioctl"
    ∷ codes "kill"
    ∷ codes "lgetxattr"
    ∷ codes "link"
    ∷ codes "linkat"
    ∷ codes "listen"
    ∷ codes "lseek"
    ∷ codes "lstat"
    ∷ codes "madvise"
    ∷ codes "memfd_create"
    ∷ codes "mmap"
    ∷ codes "mprotect"
    ∷ codes "mremap"
    ∷ codes "msync"
    ∷ codes "munmap"
    ∷ codes "nanosleep"
    ∷ codes "newfstatat"
    ∷ codes "open"
    ∷ codes "openat"
    ∷ codes "openat2"
    ∷ codes "pause"
    ∷ codes "pipe"
    ∷ codes "pipe2"
    ∷ codes "poll"
    ∷ codes "ppoll"
    ∷ codes "prctl"
    ∷ codes "pread64"
    ∷ codes "preadv"
    ∷ codes "preadv2"
    ∷ codes "prlimit64"
    ∷ codes "pselect6"
    ∷ codes "pwrite64"
    ∷ codes "pwritev"
    ∷ codes "pwritev2"
    ∷ codes "read"
    ∷ codes "readlink"
    ∷ codes "readlinkat"
    ∷ codes "readv"
    ∷ codes "recvfrom"
    ∷ codes "recvmmsg"
    ∷ codes "recvmsg"
    ∷ codes "rename"
    ∷ codes "renameat"
    ∷ codes "renameat2"
    ∷ codes "restart_syscall"
    ∷ codes "rseq"
    ∷ codes "rt_sigaction"
    ∷ codes "rt_sigpending"
    ∷ codes "rt_sigprocmask"
    ∷ codes "rt_sigqueueinfo"
    ∷ codes "rt_sigreturn"
    ∷ codes "rt_sigsuspend"
    ∷ codes "rt_sigtimedwait"
    ∷ codes "sched_getaffinity"
    ∷ codes "sched_yield"
    ∷ codes "sendfile"
    ∷ codes "sendmmsg"
    ∷ codes "sendmsg"
    ∷ codes "sendto"
    ∷ codes "set_robust_list"
    ∷ codes "set_tid_address"
    ∷ codes "setgid"
    ∷ codes "setgroups"
    ∷ codes "setitimer"
    ∷ codes "setpgid"
    ∷ codes "setpriority"
    ∷ codes "setregid"
    ∷ codes "setresgid"
    ∷ codes "setresuid"
    ∷ codes "setreuid"
    ∷ codes "setrlimit"
    ∷ codes "setsid"
    ∷ codes "setsockopt"
    ∷ codes "setuid"
    ∷ codes "shutdown"
    ∷ codes "sigaltstack"
    ∷ codes "signalfd"
    ∷ codes "signalfd4"
    ∷ codes "stat"
    ∷ codes "statfs"
    ∷ codes "statx"
    ∷ codes "symlink"
    ∷ codes "symlinkat"
    ∷ codes "sync"
    ∷ codes "syncfs"
    ∷ codes "sysinfo"
    ∷ codes "tgkill"
    ∷ codes "time"
    ∷ codes "timer_create"
    ∷ codes "timer_delete"
    ∷ codes "timer_gettime"
    ∷ codes "timer_settime"
    ∷ codes "timerfd_create"
    ∷ codes "timerfd_gettime"
    ∷ codes "timerfd_settime"
    ∷ codes "times"
    ∷ codes "tkill"
    ∷ codes "truncate"
    ∷ codes "umask"
    ∷ codes "uname"
    ∷ codes "unlink"
    ∷ codes "unlinkat"
    ∷ codes "utime"
    ∷ codes "utimensat"
    ∷ codes "utimes"
    ∷ codes "vfork"
    ∷ codes "wait4"
    ∷ codes "waitid"
    ∷ codes "write"
    ∷ codes "writev"
    ∷ []
