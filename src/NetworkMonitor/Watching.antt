-- ===== src/NetworkMonitor/Watching.antt =====
-- What the monitor watches over runs of its events.
use one_autojs.Base.{
  ℕ, ◌≡◌, refl, subst, arith, Bool, true, false, not, ◌&&◌, ◌||◌, Option, none, some, if◌then◌else◌,
}
use one_autojs.Scheduler.{is_some}
use one_autojs.NetworkMonitor.{
  AndroidNetworkChangeMonitor, new_monitor, launch, start_monitor, stop_monitor, without_child,
  complete, fire_restart, schedule_reconcile, fire_reconcile,
}

-- A monitor that was started has a process or will start one; one that was stopped has neither a
-- process nor a timer.
abbrev pub is_watching : AndroidNetworkChangeMonitor → Bool
is_watching m =
    if m.stopped
    then not (is_some m.child) && not m.debounce_timer && not m.restart_timer
    else is_some m.child || m.restart_timer

launch-watching :
    (created : Bool) (m : AndroidNetworkChangeMonitor)
    → m.stopped ≡ false
    → is_watching (launch created m) ≡ true
unfolding launch
launch-watching created m up = ground arith

start_monitor-watching :
    (created : Bool) (m : AndroidNetworkChangeMonitor)
    → is_watching m ≡ true
    → is_watching (start_monitor created m) ≡ true
unfolding start_monitor launch
start_monitor-watching created m h = ground arith

without_child-none :
    (process : ℕ) (o : Option ℕ) → is_some o ≡ false → is_some (without_child process o) ≡ false
without_child-none process none h = refl
without_child-none process (some p) h = cc

complete-watching :
    (process : ℕ) (m : AndroidNetworkChangeMonitor)
    → is_watching m ≡ true
    → is_watching (complete process m) ≡ true
unfolding complete
complete-watching process m h = ground (arith, without_child-none process m.child)

fire_restart-watching :
    (created : Bool) (m : AndroidNetworkChangeMonitor)
    → is_watching m ≡ true
    → is_watching (fire_restart created m) ≡ true
unfolding fire_restart launch
fire_restart-watching created m h = ground arith

schedule_reconcile-watching :
    (m : AndroidNetworkChangeMonitor)
    → is_watching m ≡ true
    → is_watching (schedule_reconcile m) ≡ true
unfolding schedule_reconcile
schedule_reconcile-watching m h = ground arith

fire_reconcile-watching :
    (m : AndroidNetworkChangeMonitor) → is_watching m ≡ true → is_watching (fire_reconcile m) ≡ true
unfolding fire_reconcile
fire_reconcile-watching m h = ground arith

-- One call or event. Events of processes that are no longer watched come too.
pub data MonitorStep (m n : AndroidNetworkChangeMonitor) : Type 0 where
  started : (created : Bool) → start_monitor created m ≡ n → MonitorStep m n
  halted : stop_monitor m ≡ n → MonitorStep m n
  ended : (process : ℕ) → complete process m ≡ n → MonitorStep m n
  restarted : (created : Bool) → fire_restart created m ≡ n → MonitorStep m n
  changed : schedule_reconcile m ≡ n → MonitorStep m n
  reconciled : fire_reconcile m ≡ n → MonitorStep m n

pub data MonitorRun (m : AndroidNetworkChangeMonitor) : AndroidNetworkChangeMonitor → Type 0 where
  begin : MonitorRun m m
  step : {n o : AndroidNetworkChangeMonitor} → MonitorRun m n → MonitorStep n o → MonitorRun m o

MonitorStep-watching :
    {m n : AndroidNetworkChangeMonitor}
    → MonitorStep m n
    → is_watching m ≡ true
    → is_watching n ≡ true
unfolding stop_monitor
MonitorStep-watching {m} (started created e) h =
    subst (λ x. is_watching x ≡ true) e (start_monitor-watching created m h)
MonitorStep-watching {m} (halted e) h = subst (λ x. is_watching x ≡ true) e refl
MonitorStep-watching {m} (ended process e) h =
    subst (λ x. is_watching x ≡ true) e (complete-watching process m h)
MonitorStep-watching {m} (restarted created e) h =
    subst (λ x. is_watching x ≡ true) e (fire_restart-watching created m h)
MonitorStep-watching {m} (changed e) h =
    subst (λ x. is_watching x ≡ true) e (schedule_reconcile-watching m h)
MonitorStep-watching {m} (reconciled e) h =
    subst (λ x. is_watching x ≡ true) e (fire_reconcile-watching m h)

-- After any run of calls and events of a new monitor, a monitor that was started has a process or
-- waits to start one, so that it never stops watching by itself, and one that was stopped has
-- neither a process nor a timer left.
pub MonitorRun-watching :
    {m : AndroidNetworkChangeMonitor} → MonitorRun new_monitor m → is_watching m ≡ true
MonitorRun-watching begin = refl
MonitorRun-watching (step run last) = MonitorStep-watching last (MonitorRun-watching run)
