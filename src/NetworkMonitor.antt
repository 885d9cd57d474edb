-- ===== src/NetworkMonitor.antt =====
-- `AndroidNetworkChangeMonitor` of mobile/src/network-change-monitor.ts. Its timers are flags, and
-- the processes of `ip monitor` are known by their numbers.
pub mod Watching
mod Tests
use one_autojs.Base.{
  ℕ, suc, ◌+◌, Bool, true, false, not, ◌||◌, Option, none, some, List, [], ◌∷◌, ◌==◌, if◌then◌else◌,
}
use one_autojs.Scheduler.{is_some}

-- `reconciles` counts the calls of `onNetworkChange`, `completed` the processes that ended.
pub record AndroidNetworkChangeMonitor : Type 0 where
  pub child : Option ℕ
  pub debounce_timer : Bool
  pub restart_timer : Bool
  pub stopped : Bool
  pub next_process : ℕ
  pub completed : List ℕ
  pub reconciles : ℕ

-- The state after the constructor.
abbrev pub new_monitor : AndroidNetworkChangeMonitor
new_monitor = record {
  child = none;
  debounce_timer = false;
  restart_timer = false;
  stopped = true;
  next_process = 0;
  completed = [];
  reconciles = 0;
}

-- `scheduleRestart`
abbrev pub schedule_restart : AndroidNetworkChangeMonitor → AndroidNetworkChangeMonitor
schedule_restart m = if m.stopped || m.restart_timer then m else record m { restart_timer = true }

-- `launch`; `created` says whether `createProcess` returned.
unfoldable pub launch : Bool → AndroidNetworkChangeMonitor → AndroidNetworkChangeMonitor
launch created m =
    if m.stopped || is_some m.child
    then m
    else if created
    then record m { child = some m.next_process; next_process = suc m.next_process }
    else schedule_restart m

-- `start`
unfoldable pub start_monitor : Bool → AndroidNetworkChangeMonitor → AndroidNetworkChangeMonitor
unfolding launch
start_monitor created m = if m.stopped then launch created (record m { stopped = false }) else m

-- `stop`
unfoldable pub stop_monitor : AndroidNetworkChangeMonitor → AndroidNetworkChangeMonitor
stop_monitor m = record m {
  stopped = true;
  debounce_timer = false;
  restart_timer = false;
  child = none;
}

abbrev pub has_completed : ℕ → List ℕ → Bool
has_completed process [] = false
has_completed process (p ∷ ps) = p == process || has_completed process ps

abbrev pub without_child : ℕ → Option ℕ → Option ℕ
without_child process none = none
without_child process (some p) = if p == process then none else some p

-- `complete`, on the first of the process's `error` and `exit` events.
unfoldable pub complete : ℕ → AndroidNetworkChangeMonitor → AndroidNetworkChangeMonitor
complete process m =
    if has_completed process m.completed
    then m
    else schedule_restart
        (record m { completed = process ∷ m.completed; child = without_child process m.child })

-- The timer of `scheduleRestart` fires.
unfoldable pub fire_restart : Bool → AndroidNetworkChangeMonitor → AndroidNetworkChangeMonitor
unfolding launch
fire_restart created m =
    if m.restart_timer then launch created (record m { restart_timer = false }) else m

-- `scheduleReconcile`: a timer that runs is set anew.
unfoldable pub schedule_reconcile : AndroidNetworkChangeMonitor → AndroidNetworkChangeMonitor
schedule_reconcile m = if m.stopped then m else record m { debounce_timer = true }

-- The timer of `scheduleReconcile` fires.
unfoldable pub fire_reconcile : AndroidNetworkChangeMonitor → AndroidNetworkChangeMonitor
fire_reconcile m =
    if m.debounce_timer
    then record m { debounce_timer = false; reconciles = m.reconciles + 1 }
    else m
