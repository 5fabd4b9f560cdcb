-- ===== src/Sidecar.antt =====
-- internal/gateway/sidecar.go, the runner, and runtime.go: two background loops, the queue of
-- count_tokens jobs, the probes after a token refresh, and the drain. A goroutine or a channel that
-- Go's runtime drives is an event; an operation that would panic (a send on a closed channel, a
-- second close, a wait group below zero) yields `none`. Request bodies are texts.
pub mod Events
pub mod Requests
use airgate_claude.Prelude.{
  ℕ, suc, zero, ◌+◌, ◌-◌, Bool, true, false, ◌&&◌, ◌||◌, List, [], ◌∷◌, ◌++◌, Option, none, some,
  String, string_key, ◌==◌, if◌then◌else◌, ltb, length,
}
use airgate_claude.Prelude.Int.{ℤ}
use airgate_claude.TokenManager.{Account}
use airgate_claude.Registry.{Snapshot, snapshot_of}

abbrev pub count_tokens_chan_buffer : ℕ
count_tokens_chan_buffer = 128

abbrev pub probe_max_concurrency : ℕ
probe_max_concurrency = 64

pub record Job : Type 0 where
  pub account_id : ℤ
  pub body : String

-- `to_add` counts the starts that have yet to add their loops; `workers` and `probes` the two wait groups, `probe_slots` the elements of `probeCh`;
-- `probed` lists the snapshots handed to probe goroutines, oldest first.
pub record Runner : Type 0 where
  pub jobs : List Job
  pub jobs_closed : Bool
  pub has_ctx : Bool
  pub cancelled : Bool
  pub stopped : Bool
  pub to_add : ℕ
  pub workers : ℕ
  pub probes : ℕ
  pub probe_slots : ℕ
  pub probed : List Snapshot

unfoldable pub new_runner : Runner
new_runner = record {
  jobs = [];
  jobs_closed = false;
  has_ctx = false;
  cancelled = false;
  stopped = true;
  to_add = 0;
  workers = 0;
  probes = 0;
  probe_slots = 0;
  probed = [];
}

-- `start` under its lock.
unfoldable pub start_locked : Runner → Runner
start_locked r =
    if r.stopped
    then record r {
      jobs = [];
      jobs_closed = false;
      has_ctx = true;
      cancelled = false;
      stopped = false;
      to_add = r.to_add + 1;
    }
    else r

-- What `start` does behind its lock: `wg.Add(2)` and the two loops.
unfoldable pub add_loops : Runner → Runner
add_loops r = record r { to_add = r.to_add - 1; workers = r.workers + 2 }

-- `start` when nothing runs between its two halves.
unfoldable pub start : Runner → Runner
unfolding start_locked add_loops
start r = if r.stopped then add_loops (start_locked r) else r

-- `close(s.jobs)`
close_jobs : Runner → Option Runner
close_jobs r = if r.jobs_closed then none else some (record r { jobs_closed = true })

unfoldable pub begin_drain : Runner → Option Runner
unfolding close_jobs
begin_drain r =
    if r.stopped then some r else close_jobs (record r { stopped = true; cancelled = r.has_ctx })

-- The `select` with a `default`: a full queue drops the job, a closed one panics.
offer : Job → Runner → Option Runner
offer j r =
    if r.jobs_closed
    then none
    else if ltb (length r.jobs) count_tokens_chan_buffer
    then some (record r { jobs = r.jobs ++ j ∷ [] })
    else some r

unfoldable pub schedule_count_tokens : ℤ → String → Runner → Option Runner
unfolding offer
schedule_count_tokens account body r =
    if body == "" || r.stopped
    then some r
    else offer (record { account_id = account; body = body }) r

unfoldable pub fire_refresh_probe : Option Account → Runner → Runner
fire_refresh_probe none r = r
fire_refresh_probe (some a) r =
    if r.stopped || (if r.has_ctx then false else true)
    then r
    else if ltb r.probe_slots probe_max_concurrency
    then record r {
      probe_slots = r.probe_slots + 1;
      probes = r.probes + 1;
      probed = r.probed ++ snapshot_of 0 a ∷ [];
    }
    else r

-- The end of a probe goroutine: `<-s.probeCh`, which would block on an empty channel, then
-- `probes.Done()`.
unfoldable pub probe_ends : Runner → Option Runner
probe_ends r =
    if ltb 0 r.probe_slots && ltb 0 r.probes
    then some (record r { probe_slots = r.probe_slots - 1; probes = r.probes - 1 })
    else none

-- The end of one of the two loops, `wg.Done()`.
unfoldable pub loop_ends : Runner → Option Runner
loop_ends r = if ltb 0 r.workers then some (record r { workers = r.workers - 1 }) else none

-- `case job, ok := <-s.jobs` of the worker.
unfoldable pub take_job : Runner → Runner
take_job r = elim r.jobs [ [] ↦ r | j ∷ js ↦ record r { jobs = js } ]
