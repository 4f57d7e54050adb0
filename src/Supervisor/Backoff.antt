-- ===== src/Supervisor/Backoff.antt =====
-- src/services/supervisor.rs: the delays between the attempts, and the processes.
use trimrouter.Prelude.{
  ℕ, zero, suc, ◌+◌, ◌≤◌, ◌<◌, ◌≡◌, refl, ap, ◌∙◌, inl, inr, Bool, true, false, Option, none, some,
  List, [], ◌∷◌, ◌++◌, arith, if◌then◌else◌, not, nat_eq, leb, length, Bool-cases, min, ◌&&◌,
}
use trimrouter.Net.{Duration, from_secs}
use trimrouter.Supervisor.{
  Woken, elapsed, changed, stops, u32_max, calculate_supervisor_restart_delay,
  handle_supervisor_restart_delay,
}
use trimrouter.Supervisor.Worker.{
  Action, waited, waited_up_to, set_up, spawned, terminated, monitored, Pass, spawn_run,
  attempt_supervised_run, waiting, delay_before, start_supervised,
}

-- The waits and the attempts of a list of actions, in their order.
abbrev pub paces : List Action → List Action
paces [] = []
paces (waited d ∷ acts) = waited d ∷ paces acts
paces (waited_up_to d ∷ acts) = waited_up_to d ∷ paces acts
paces (set_up ∷ acts) = set_up ∷ paces acts
paces (_ ∷ acts) = paces acts

-- A number of retries, from a count of attempts on: each waits the whole delay of its count first.
abbrev pub retries_from : ℕ → ℕ → List Action
retries_from attempt zero = []
retries_from attempt (suc n) =
    waited (calculate_supervisor_restart_delay attempt) ∷ set_up ∷ retries_from (suc attempt) n

abbrev short : Option Duration → Bool
short none = true
short (some ran_for) = not (leb (from_secs 60) ran_for)

-- A pass whose delay runs to its end, which nothing stops, and whose worker does not run for a minute.
pub record Fails (p : Pass) : Type 0 where
  pub goes_on : p.shut_before ≡ false
  pub delayed : p.woken ≡ elapsed
  pub still_on : p.shut_first ≡ false
  pub is_short : short p.ran_for ≡ true

abbrev pub AllFail : List Pass → Type 0
AllFail [] = Unit {0}
AllFail (p ∷ ps) = Fails p × AllFail ps

spawn_run-short :
    (pid : Option ℕ) (ran_for : Option Duration) (attempt : ℕ) (acts : List Action)
    → short ran_for ≡ true
    → ((spawn_run pid ran_for attempt).1 ≡ attempt)
      × (paces ((spawn_run pid ran_for attempt).0 ++ acts) ≡ paces acts)
spawn_run-short none ran_for attempt acts h = (refl, refl)
spawn_run-short (some pid) none attempt acts h = (refl, refl)
spawn_run-short (some pid) (some d) attempt acts h = (ground (arith, h), refl)

-- An attempt that fails keeps the count, and waits for nothing.
attempt_supervised_run-Fails :
    (p : Pass) (attempt : ℕ) (acts : List Action)
    → Fails p
    → ((attempt_supervised_run p attempt).1 ≡ attempt)
      × (paces ((attempt_supervised_run p attempt).0 ++ acts) ≡ set_up ∷ paces acts)
unfolding attempt_supervised_run
attempt_supervised_run-Fails p attempt acts f = elim (Bool-cases p.setup_works) [
  | inr broken ↦ rw (f.still_on, broken) (refl, refl)
  | inl works ↦ elim (Bool-cases p.shut_after_setup) [
    | inl shut ↦ rw (f.still_on, works, shut) (refl, refl)
    | inr open_ ↦
        let (same, w) = spawn_run-short p.child_pid p.ran_for attempt acts f.is_short in
        rw (f.still_on, works, open_) (same, ap (λ l. set_up ∷ l) w)
  ]
]

handle_supervisor_restart_delay-next :
    (attempt : ℕ) (woken : Woken)
    → woken ≡ elapsed
    → attempt < u32_max
    → handle_supervisor_restart_delay attempt woken ≡ (suc attempt, true)
unfolding handle_supervisor_restart_delay
handle_supervisor_restart_delay-next attempt woken h lt =
    let skips : (leb 1 attempt && stops woken) ≡ false = rw h (ground arith) in
    let counts : min (attempt + 1) u32_max ≡ suc attempt = ground (arith, lt) in
    rw (skips, counts) refl

start_supervised-later :
    (attempt : ℕ) (ps : List Pass)
    → AllFail ps
    → 0 < attempt
    → attempt + length ps ≤ u32_max
    → paces (start_supervised attempt ps) ≡ retries_from attempt (length ps)
unfolding start_supervised
start_supervised-later attempt [] f pos le = refl
start_supervised-later attempt (p ∷ ps) (f, fs) pos le =
    let next = handle_supervisor_restart_delay-next attempt elapsed refl (omega (arith, le)) in
    let positive : nat_eq attempt 0 ≡ false = ground (arith, pos) in
    let (same, w) =
      attempt_supervised_run-Fails p (suc attempt) (start_supervised (suc attempt) ps) f in
    let ws = start_supervised-later (suc attempt) ps fs (omega arith) (omega (arith, le)) in
    simp (f.goes_on, next, positive, same, f.delayed)
      (ap (λ l. waited (calculate_supervisor_restart_delay attempt) ∷ l)
        (w ∙ ap (λ l. set_up ∷ l) ws))

-- While no worker runs for a minute, no delay is cut short and nothing stops the loop, each pass is an
-- attempt: the first at once, and each later one directly after a whole wait, of the delay of the
-- count of attempts before it.
pub start_supervised-backoff :
    (p : Pass) (ps : List Pass)
    → Fails p
    → AllFail ps
    → length ps < u32_max
    → paces (start_supervised 0 (p ∷ ps)) ≡ set_up ∷ retries_from 1 (length ps)
unfolding start_supervised
start_supervised-backoff p ps f fs lt =
    let next = handle_supervisor_restart_delay-next 0 p.woken f.delayed (omega arith) in
    let (same, w) = attempt_supervised_run-Fails p 1 (start_supervised 1 ps) f in
    let ws = start_supervised-later 1 ps fs (omega arith) (omega (arith, lt)) in
    simp (f.goes_on, next, same) (w ∙ ap (λ l. set_up ∷ l) ws)

-- Every process that is started is monitored to its end, or else terminated, before anything else is done.
abbrev pub Attended : Option ℕ → List Action → Type 0
Attended none [] = Unit {0}
Attended none (spawned pid ∷ acts) = Attended (some pid) acts
Attended none (waited d ∷ acts) = Attended none acts
Attended none (waited_up_to d ∷ acts) = Attended none acts
Attended none (set_up ∷ acts) = Attended none acts
Attended none (terminated pid ∷ acts) = ⊥
Attended none (monitored pid ran_for ∷ acts) = ⊥
Attended (some p) (terminated pid ∷ acts) = (pid ≡ p) × Attended none acts
Attended (some p) (monitored pid ran_for ∷ acts) = (pid ≡ p) × Attended none acts
Attended (some p) _ = ⊥

spawn_run-Attended :
    (pid : Option ℕ) (ran_for : Option Duration) (attempt : ℕ) (acts : List Action)
    → Attended none acts
    → Attended none ((spawn_run pid ran_for attempt).0 ++ acts)
spawn_run-Attended none ran_for attempt acts a = a
spawn_run-Attended (some pid) none attempt acts a = (refl, a)
spawn_run-Attended (some pid) (some d) attempt acts a = (refl, a)

attempt_supervised_run-Attended :
    (p : Pass) (attempt : ℕ) (acts : List Action)
    → Attended none acts
    → Attended none ((attempt_supervised_run p attempt).0 ++ acts)
unfolding attempt_supervised_run
attempt_supervised_run-Attended p attempt acts a = elim (Bool-cases p.shut_first) [
  | inl shut ↦ rw shut a
  | inr on ↦ elim (Bool-cases p.setup_works) [
    | inr broken ↦ rw (on, broken) a
    | inl works ↦ elim (Bool-cases p.shut_after_setup) [
      | inl shut ↦ rw (on, works, shut) a
      | inr still ↦ rw (on, works, still) (spawn_run-Attended p.child_pid p.ran_for attempt acts a)
    ]
  ]
]

if-Attended :
    (b : Bool) (acts others : List Action)
    → Attended none acts
    → Attended none others
    → Attended none (if b then acts else others)
if-Attended true acts others a o = a
if-Attended false acts others a o = o

waiting-Attended :
    (woken : Woken) (delay : Duration) (acts : List Action)
    → Attended none acts
    → Attended none (waiting woken delay ∷ acts)
waiting-Attended elapsed delay acts a = a
waiting-Attended (changed is_err flag) delay acts a = a

delay_before-Attended :
    (attempt : ℕ) (woken : Woken) (acts : List Action)
    → Attended none acts
    → Attended none (delay_before attempt woken ++ acts)
delay_before-Attended attempt woken acts a = elim (Bool-cases (nat_eq attempt 0)) [
  | inl z ↦ rw z a
  | inr p ↦ rw p (waiting-Attended woken _ acts a)
]

-- However setups, processes, monitors and shutdowns come about: the supervision of a worker never leaves a
-- process that it has started before it has been monitored to its end or terminated, and so it has
-- one process at most.
pub start_supervised-Attended :
    (attempt : ℕ) (ps : List Pass) → Attended none (start_supervised attempt ps)
unfolding start_supervised
start_supervised-Attended attempt [] = tt
start_supervised-Attended attempt (p ∷ ps) =
    let d = handle_supervisor_restart_delay attempt p.woken in
    let r = attempt_supervised_run p d.0 in
    if-Attended p.shut_before [] _ tt (
      if-Attended d.1 _ _
        (delay_before-Attended attempt p.woken (r.0 ++ start_supervised r.1 ps) (
          attempt_supervised_run-Attended p d.0 (start_supervised r.1 ps)
            (start_supervised-Attended r.1 ps)))
        (if-Attended (nat_eq attempt 0) [] _ tt (waiting-Attended p.woken _ [] tt)))
