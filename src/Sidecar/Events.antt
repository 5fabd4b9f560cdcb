-- ===== src/Sidecar/Events.antt =====
-- Runs of the sidecar: whatever the order of calls and of goroutines that end, nothing panics, the
-- queue and the probes stay within their limits, and a drain admits no more work and ends.
mod Examples
use airgate_claude.Prelude.{
  ℕ, suc, zero, ◌+◌, ◌-◌, ◌≤◌, ◌<◌, ◌≡◌, refl, ◌⊎◌, inl, inr, Bool, true, false, ◌||◌, List, [],
  ◌∷◌, ◌++◌, Option, none, some, String, string_key, ◌==◌, if◌then◌else◌, ltb, leb, arith, All,
  length, length-append, subst, Bool-cases,
}
use airgate_claude.Prelude.Int.{ℤ}
use airgate_claude.TokenManager.{Account}
use airgate_claude.Registry.{Snapshot}
use airgate_claude.Sidecar.{
  Runner, Job, new_runner, start_locked, add_loops, begin_drain, schedule_count_tokens,
  fire_refresh_probe, probe_ends, loop_ends, take_job, offer, close_jobs, count_tokens_chan_buffer,
  probe_max_concurrency,
}

-- What can happen to a runner. `adding` is the second half of a start, if there is one. A goroutine ends
-- only if one is running.
pub data Event : Type 0 where
  starting : Event
  adding : Event
  draining : Event
  scheduling : ℤ → String → Event
  probing : Option Account → Event
  probe_ending : Event
  loop_ending : Event
  taking : Event

unfoldable pub step : Event → Runner → Option Runner
unfolding start_locked add_loops begin_drain schedule_count_tokens fire_refresh_probe probe_ends
    loop_ends take_job
step starting r = some (start_locked r)
step adding r = some (if ltb 0 r.to_add then add_loops r else r)
step draining r = begin_drain r
step (scheduling account body) r = schedule_count_tokens account body r
step (probing a) r = some (fire_refresh_probe a r)
step probe_ending r = if ltb 0 r.probes then probe_ends r else some r
step loop_ending r = if ltb 0 r.workers then loop_ends r else some r
step taking r = some (take_job r)

unfoldable pub run : List Event → Runner → Option Runner
unfolding step
run [] r = some r
run (e ∷ es) r = elim (step e r) [ none ↦ none | some r' ↦ run es r' ]

pub record IsValid (r : Runner) : Type 0 where
  pub sendable : (r.stopped ≡ true) ⊎ (r.jobs_closed ≡ false)
  pub queued : length r.jobs ≤ count_tokens_chan_buffer
  pub probing : r.probe_slots ≤ probe_max_concurrency
  pub counted : r.probes ≡ r.probe_slots

-- No event panics on a valid runner, and each leaves it valid.
abbrev pub Keeps : Option Runner → Type 0
Keeps none = ⊥
Keeps (some r) = IsValid r

pub Keeps-some : (o : Option Runner) → Keeps o → (r : Runner) × (o ≡ some r) × IsValid r
Keeps-some none k = absurd k
Keeps-some (some r) k = (r, refl, k)

start-IsValid : (r : Runner) → IsValid r → IsValid (start_locked r)
unfolding start_locked
start-IsValid r v = ground arith

add-IsValid : (r : Runner) → IsValid r → IsValid (if ltb 0 r.to_add then add_loops r else r)
unfolding add_loops
add-IsValid r v = ground arith

begin_drain-IsValid : (r : Runner) → IsValid r → Keeps (begin_drain r)
unfolding begin_drain close_jobs
begin_drain-IsValid r v = ground arith

pub begin_drain-some :
    (r : Runner) → IsValid r → (r' : Runner) × (begin_drain r ≡ some r') × (r'.stopped ≡ true)
unfolding begin_drain close_jobs
begin_drain-some r v = elim (Bool-cases r.stopped) [
  | inl e ↦ (r, ground arith, e)
  | inr e ↦
      let open_jobs : r.jobs_closed ≡ false = ground (arith, v.sendable, e) in
      (
        record r { stopped = true; cancelled = r.has_ctx; jobs_closed = true },
        ground (arith, open_jobs),
        refl,
      )
]

pub schedule-IsValid :
    (account : ℤ) (body : String) (r : Runner)
    → IsValid r
    → Keeps (schedule_count_tokens account body r)
unfolding schedule_count_tokens offer
schedule-IsValid account body r v =
    let j : Job = record { account_id = account; body = body } in
    ground (arith, length-append r.jobs (j ∷ []))

pub probe-IsValid : (a : Option Account) (r : Runner) → IsValid r → IsValid (fire_refresh_probe a r)
unfolding fire_refresh_probe
probe-IsValid none r v = v
probe-IsValid (some a) r v = ground arith

probe_ends-IsValid :
    (r : Runner) → IsValid r → Keeps (if ltb 0 r.probes then probe_ends r else some r)
unfolding probe_ends
probe_ends-IsValid r v = ground arith

loop_ends-IsValid :
    (r : Runner) → IsValid r → Keeps (if ltb 0 r.workers then loop_ends r else some r)
unfolding loop_ends
loop_ends-IsValid r v = ground arith

take_job-IsValid : (r : Runner) → IsValid r → IsValid (take_job r)
unfolding take_job
take_job-IsValid r v = ground arith

step-IsValid : (e : Event) (r : Runner) → IsValid r → Keeps (step e r)
unfolding step
step-IsValid starting r v = start-IsValid r v
step-IsValid adding r v = add-IsValid r v
step-IsValid draining r v = begin_drain-IsValid r v
step-IsValid (scheduling account body) r v = schedule-IsValid account body r v
step-IsValid (probing a) r v = probe-IsValid a r v
step-IsValid probe_ending r v = probe_ends-IsValid r v
step-IsValid loop_ending r v = loop_ends-IsValid r v
step-IsValid taking r v = take_job-IsValid r v

-- From a valid runner, such as a new one, no order of starts, drains, scheduled jobs, probes and
-- goroutines that end panics: nothing is sent on a closed queue and no queue is closed twice. The
-- queue and the number of concurrent probes stay within their limits.
pub run-IsValid : (es : List Event) (r : Runner) → IsValid r → Keeps (run es r)
unfolding run
run-IsValid [] r v = v
run-IsValid (e ∷ es) r v =
    let (r', s, v') = Keeps-some (step e r) (step-IsValid e r v) in
    rw (s, run) (run-IsValid es r' v')

pub new_runner-IsValid : IsValid new_runner
unfolding new_runner
new_runner-IsValid = record {
  sendable = inl refl;
  queued = omega arith;
  probing = omega arith;
  counted = refl;
}

abbrev pub NoStart : List Event → Type 0
NoStart = All (λ e. elim e [ starting ↦ ⊥ | adding ↦ ⊥ | _ ↦ Unit ])

-- Of two runners, the second is drained and has no more work than the first.
pub record Drained (r s : Runner) : Type 0 where
  pub stops : s.stopped ≡ true
  pub no_jobs : length s.jobs ≤ length r.jobs
  pub no_probes : s.probes ≤ r.probes
  pub no_workers : s.workers ≤ r.workers

abbrev Drains : Runner → Option Runner → Type 0
Drains r none = ⊥
Drains r (some s) = Drained r s

Drains-some :
    (r : Runner) (o : Option Runner) → Drains r o → (s : Runner) × (o ≡ some s) × Drained r s
Drains-some r none d = absurd d
Drains-some r (some s) d = (s, refl, d)

Drained-trans : (r s t : Runner) → Drained r s → Drained s t → Drained r t
Drained-trans r s t d e = ground arith

step-Drained :
    (e : Event) (r : Runner) → NoStart (e ∷ []) → IsValid r → r.stopped ≡ true → Drains r (step e r)
unfolding step begin_drain schedule_count_tokens fire_refresh_probe probe_ends loop_ends take_job
step-Drained starting r n v h = absurd n.0
step-Drained adding r n v h = absurd n.0
step-Drained draining r n v h = ground arith
step-Drained (scheduling account body) r n v h = ground arith
step-Drained (probing none) r n v h = ground arith
step-Drained (probing (some a)) r n v h = ground arith
step-Drained probe_ending r n v h = ground arith
step-Drained loop_ending r n v h = ground arith
step-Drained taking r n v h = ground arith

-- Once the runner is drained, and until a start begins or adds its loops, it admits no job and no probe, whatever
-- is scheduled: the work that is left never grows, and the runner stays drained.
pub run-Drained :
    (es : List Event) (r : Runner) → NoStart es → IsValid r → r.stopped ≡ true → Drains r (run es r)
unfolding run
run-Drained [] r n v h = ground arith
run-Drained (e ∷ es) r n v h =
    let (s, q, d) = Drains-some r (step e r) (step-Drained e r (n.0, tt) v h) in
    let valid : IsValid s = subst Keeps q (step-IsValid e r v) in
    rw (q, run) (widen s d (run es s) (run-Drained es s n.1 valid d.stops))
  where
    widen : (s : Runner) → Drained r s → (o : Option Runner) → Drains s o → Drains r o
    widen s d none k = k
    widen s d (some t) k = Drained-trans r s t d k

pub begin_drain-Keeps : (r s : Runner) → IsValid r → begin_drain r ≡ some s → IsValid s
begin_drain-Keeps r s v d = subst Keeps d (begin_drain-IsValid r v)

pub run_draining :
    (r s : Runner) (es : List Event) → begin_drain r ≡ some s → run (draining ∷ es) r ≡ run es s
unfolding run step
run_draining r s es d = rw (d, run) refl

pub run_drained :
    (r : Runner) (es : List Event)
    → NoStart es
    → IsValid r
    → r.stopped ≡ true
    → (s : Runner) × (run es r ≡ some s) × (s.stopped ≡ true)
run_drained r es n v h =
    let (s, e, d) = Drains-some r (run es r) (run-Drained es r n v h) in (s, e, d.stops)

-- `wg.Wait()` and `probes.Wait()` return.
abbrev pub Waited : Option Runner → Type 0
Waited none = ⊥
Waited (some r) = (r.workers ≡ 0) × (r.probes ≡ 0)

abbrev pub repeat : ℕ → Event → List Event → List Event
repeat zero e es = es
repeat (suc n) e es = e ∷ repeat n e es

probes_end :
    (n : ℕ) (r : Runner)
    → r.probes ≡ n
    → r.probe_slots ≡ n
    → r.workers ≡ 0
    → Waited (run (repeat n probe_ending []) r)
unfolding run step probe_ends
probes_end zero r h k w = ground arith
probes_end (suc n) r h k w =
    let t : Runner = record r { probe_slots = r.probe_slots - 1; probes = r.probes - 1 } in
    ground (arith, probes_end n t)

loops_end :
    (m n : ℕ) (r : Runner)
    → r.workers ≡ m
    → r.probes ≡ n
    → r.probe_slots ≡ n
    → Waited (run (repeat m loop_ending (repeat n probe_ending [])) r)
unfolding run step loop_ends
loops_end zero n r w h k = probes_end n r h k w
loops_end (suc m) n r w h k =
    let t : Runner = record r { workers = r.workers - 1 } in ground (arith, loops_end m n t)

-- `stop` returns: when the loops and probes that run when it is called have ended, one event for
-- each, both wait groups are at zero.
pub stop_returns :
    (r : Runner)
    → IsValid r
    → Waited (run (draining ∷ repeat r.workers loop_ending (repeat r.probes probe_ending [])) r)
unfolding run step begin_drain close_jobs
stop_returns r v =
    let t : Runner = record r { stopped = true; cancelled = r.has_ctx; jobs_closed = true } in
    ground (arith, loops_end r.workers r.probes t, loops_end r.workers r.probes r)
