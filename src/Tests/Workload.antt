-- ===== src/Tests/Workload.antt =====
-- The first process of a container, on concrete inputs.
use minicontainer.Base.{
  ◌≡◌, refl, true, false, some, [], ◌∷◌, arith, codes, Lacks, Option, none, Bytes,
}
use minicontainer.Launch.{RunConfig}
use minicontainer.Linux.Workload.{
  install_environment, executes, Process, workload, interrupted, children, signal, supervise_loop,
  close_descriptors, execute, Setter, Environment, assign_all,
}
use minicontainer.Linux.Confined.{
  IsConfined, workload-IsConfined, install_environment-last, supervise_loop-signals, attempts, Sees,
}
use minicontainer.Tests.Store.{web}

abbrev setter : Setter
setter = record { clears = true; sets = λ name text. true }

abbrev process : Process
process = record {
  starts_session = true;
  changes_directory = true;
  prepares = true;
  sets_group = true;
  sets_user = true;
  setter = setter;
  applies = true;
  exec = executes;
}

workload-IsConfined_example :
    IsConfined
      (attempts process web)
      (close_descriptors ∷ execute web.command ∷ [])
      executes
      (workload process web)
workload-IsConfined_example = workload-IsConfined process web

-- Without the system call filter nothing is executed.
unfiltered : (workload (record process { applies = false }) web).1 ≡ some 125
unfolding workload install_environment assign_all
unfiltered = refl

abbrev with_variables : RunConfig
with_variables = record web {
  options = record web.options {
    environment = codes "A=1" ∷ codes "B=2" ∷ codes "A=x=3" ∷ codes "C=" ∷ [];
  };
}

no_equals : Lacks b'=' (codes "A")
no_equals = (λ e. omega arith, tt)

install_environment-last_example :
    Sees setter (codes "A") (codes "x=3") (install_environment setter with_variables)
install_environment-last_example =
    install_environment-last setter with_variables (codes "A") (codes "x=3")
      (codes "A=1" ∷ codes "B=2" ∷ []) (codes "C=" ∷ []) no_equals refl (λ e. cc, tt)

abbrev value_of : Bytes → Option Environment → Option Bytes
value_of key none = none
value_of key (some environment) = environment key

last_assigned :
    value_of (codes "A") (install_environment setter with_variables) ≡ some (codes "x=3")
unfolding install_environment assign_all
last_assigned = refl

supervise_loop-signals_example :
    supervise_loop (
      signal 1
      ∷ children ((false, 0) ∷ [])
      ∷ interrupted
      ∷ signal 15
      ∷ children ((false, 0) ∷ (true, 15) ∷ [])
      ∷ [])
    ≡ (1 ∷ 15 ∷ [], some 143)
supervise_loop-signals_example =
    supervise_loop-signals (signal 1 ∷ children ((false, 0) ∷ []) ∷ interrupted ∷ signal 15 ∷ []) []
      ((false, 0) ∷ (true, 15) ∷ []) (tt, (refl, (tt, (tt, tt)))) refl
