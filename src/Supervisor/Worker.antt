-- ===== src/Supervisor/Worker.antt =====
-- src/services/supervisor.rs: `ServiceController` and `ExternalWorker`. What a worker's setup, its process and its
-- monitor come to, and the flag of shutdown where the code reads it, is an input; what is done is a
-- list of actions. Reading a pipe and the arguments of a process are left out.
use trimrouter.Prelude.{
  ℕ, Bool, true, false, Option, none, some, List, [], ◌∷◌, ◌++◌, if◌then◌else◌, not, nat_eq, leb,
}
use trimrouter.Prelude.Results.{Result, ok, err}
use trimrouter.Net.{Duration, from_secs}
use trimrouter.Supervisor.{
  Woken, elapsed, changed, calculate_supervisor_restart_delay, handle_supervisor_restart_delay,
}

pub data ServiceError : Type 0 where
  already_running not_running : ServiceError

-- Whether there is a sender, and what it has sent, and whether there is a task.
pub record ServiceController : Type 0 where
  pub shutdown_tx : Option Bool
  pub task_handle : Bool

unfoldable pub new : ServiceController
new = record { shutdown_tx = none; task_handle = false }

abbrev pub is_running : ServiceController → Bool
is_running c = c.task_handle

unfoldable pub start : ServiceController → Result ServiceError ServiceController
start c =
    if is_running c
    then err already_running
    else ok (record { shutdown_tx = some false; task_handle = true })

abbrev send_true : Option Bool → Option Bool
send_true none = none
send_true (some b) = some true

unfoldable pub signal_shutdown : ServiceController → ServiceController
signal_shutdown c = record c { shutdown_tx = send_true c.shutdown_tx }

-- The task is waited for; before, it was sent the shutdown.
unfoldable pub stop : ServiceController → Result ServiceError ServiceController
stop c =
    if is_running c
    then ok (record { shutdown_tx = none; task_handle = false })
    else err not_running

pub data Action : Type 0 where
  waited : Duration → Action
  waited_up_to : Duration → Action
  set_up : Action
  spawned : (pid : ℕ) → Action
  terminated : (pid : ℕ) → Action
  monitored : (pid : ℕ) (ran_for : Duration) → Action

-- A pass of the loop of `start_supervised`: the flag before it, what ends its delay, the flag twice in
-- `attempt_supervised_run`, its setup, the process, and how long the monitor runs, if it starts.
pub record Pass : Type 0 where
  pub shut_before : Bool
  pub woken : Woken
  pub shut_first : Bool
  pub setup_works : Bool
  pub shut_after_setup : Bool
  pub child_pid : Option ℕ
  pub ran_for : Option Duration

abbrev pub monitor_run : ℕ → Option Duration → ℕ → List Action × ℕ
monitor_run pid none attempt = (spawned pid ∷ terminated pid ∷ [], attempt)
monitor_run pid (some ran_for) attempt =
    (spawned pid ∷ monitored pid ran_for ∷ [], if leb (from_secs 60) ran_for then 0 else attempt)

abbrev pub spawn_run : Option ℕ → Option Duration → ℕ → List Action × ℕ
spawn_run none ran_for attempt = ([], attempt)
spawn_run (some pid) ran_for attempt = monitor_run pid ran_for attempt

-- The actions, and the count of attempts after them.
unfoldable pub attempt_supervised_run : Pass → ℕ → List Action × ℕ
attempt_supervised_run p attempt =
    if p.shut_first
    then ([], attempt)
    else if not p.setup_works
    then (set_up ∷ [], attempt)
    else if p.shut_after_setup
    then (set_up ∷ [], attempt)
    else (
      set_up ∷ (spawn_run p.child_pid p.ran_for attempt).0,
      (spawn_run p.child_pid p.ran_for attempt).1,
    )

-- A wait to the end of the delay, or until the shutdown channel changes.
abbrev pub waiting : Woken → Duration → Action
waiting elapsed delay = waited delay
waiting (changed is_err flag) delay = waited_up_to delay

-- The delay that comes before an attempt, if any.
abbrev pub delay_before : ℕ → Woken → List Action
delay_before attempt woken =
    if nat_eq attempt 0 then [] else waiting woken (calculate_supervisor_restart_delay attempt) ∷ []

unfoldable pub start_supervised : ℕ → List Pass → List Action
start_supervised attempt [] = []
start_supervised attempt (p ∷ ps) =
    let d = handle_supervisor_restart_delay attempt p.woken in
    let r = attempt_supervised_run p d.0 in
    let rest = start_supervised r.1 ps in
    if p.shut_before
    then []
    else if d.1
    then delay_before attempt p.woken ++ (r.0 ++ rest)
    else delay_before attempt p.woken

-- `ExternalWorker::stop`: the process that it had, and the controller.
unfoldable pub stop_worker :
    ℕ → ServiceController → List Action × ℕ × Result ServiceError ServiceController
unfolding signal_shutdown stop
stop_worker child_pid c =
    ((if nat_eq child_pid 0 then [] else terminated child_pid ∷ []), 0, stop (signal_shutdown c))
