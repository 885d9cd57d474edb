-- ===== src/NetworkMonitor/Tests.antt =====
-- A process that ends is followed by another, and an instance of the theorem on runs.
use one_autojs.Base.{◌≡◌, refl, true, some}
use one_autojs.NetworkMonitor.{
  AndroidNetworkChangeMonitor, new_monitor, launch, start_monitor, complete, fire_restart,
}
use one_autojs.NetworkMonitor.Watching.{
  is_watching, MonitorRun, begin, step, started, ended, restarted, MonitorRun-watching,
}

abbrev replaced : AndroidNetworkChangeMonitor
replaced = fire_restart true (complete 0 (start_monitor true new_monitor))

second_process : replaced.child ≡ some 1
unfolding fire_restart complete start_monitor launch
second_process = refl

replaced_run : MonitorRun new_monitor replaced
replaced_run = step (step (step begin (started true refl)) (ended 0 refl)) (restarted true refl)

MonitorRun-watching_example : is_watching replaced ≡ true
MonitorRun-watching_example = MonitorRun-watching replaced_run
