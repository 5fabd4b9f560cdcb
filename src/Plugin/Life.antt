-- ===== src/Plugin/Life.antt =====
-- The plugin after a stop.
use airgate_claude.Prelude.{
  Bool-cases, List, ◌∷◌, false, nat_eq, ◌&&◌, arith, ap, sym, ◌∙◌, ℕ, true, [], Option, none, some,
  ◌≡◌, refl, Option-cases, inl, inr, subst, ◌++◌, map,
}
use airgate_claude.ClientPool
use airgate_claude.TransportPool
use airgate_claude.TransportPool.{transports}
use airgate_claude.GoMap.{values}
use airgate_claude.Forward.Tokens.{IsValidSidecar}
use airgate_claude.Plugin.{Plugin, stop, close_all, close_clients, close_transports}
use airgate_claude.Sidecar.{Runner}
use airgate_claude.Sidecar.Events.{
  Event, draining, loop_ending, probe_ending, repeat, run, IsValid, NoStart, Waited, stop_returns,
  begin_drain-some, begin_drain-Keeps, run_drained, run_draining,
}

-- The pool is empty, and every transport that it held was closed.
abbrev pub EmptyPool :
    {T : Type 0} → Option (TransportPool.Pool T) → Option (TransportPool.Pool T) → Type 0
EmptyPool none none = Unit
EmptyPool none (some q) = ⊥
EmptyPool (some p) none = ⊥
EmptyPool (some p) (some q) = (q.pool ≡ []) × (q.closed ≡ p.closed ++ transports (values p.pool))

abbrev pub EmptyClients :
    {C : Type 0} → Option (ClientPool.ClientPool C) → Option (ClientPool.ClientPool C) → Type 0
EmptyClients none none = Unit
EmptyClients none (some q) = ⊥
EmptyClients (some p) none = ⊥
EmptyClients (some p) (some q) =
    (q.clients ≡ []) × (q.closed ≡ p.closed ++ map (λ e. e.client) (values p.clients))

abbrev pub StoppedSidecar : Option Runner → Type 0
StoppedSidecar none = Unit
StoppedSidecar (some r) = (r.stopped ≡ true) × (r.workers ≡ 0) × (r.probes ≡ 0)

transports-EmptyPool :
    {T : Type 0} (now : ℕ) (o : Option (TransportPool.Pool T))
    → EmptyPool o (close_transports now o)
unfolding close_transports TransportPool.close
transports-EmptyPool now none = tt
transports-EmptyPool now (some p) = (refl, refl)

clients-EmptyClients :
    {Client : Type 0} (now : ℕ) (o : Option (ClientPool.ClientPool Client))
    → EmptyClients o (close_clients now o)
unfolding close_clients ClientPool.close
clients-EmptyClients now none = tt
clients-EmptyClients now (some p) = (refl, refl)

-- One event for each goroutine that runs.
abbrev pub all_end : Option Runner → List Event
all_end none = []
all_end (some r) = repeat r.workers loop_ending (repeat r.probes probe_ending [])

all_ended :
    (r : Runner)
    → IsValid r
    → (r' : Runner) × (run (draining ∷ all_end (some r)) r ≡ some r')
      × ((nat_eq r'.workers 0 && nat_eq r'.probes 0) ≡ true)
all_ended r v = go (run (draining ∷ all_end (some r)) r) refl (stop_returns r v)
  where
    go :
        (o : Option Runner)
        → run (draining ∷ all_end (some r)) r ≡ o
        → Waited o
        → (r' : Runner) × (run (draining ∷ all_end (some r)) r ≡ some r')
          × ((nat_eq r'.workers 0 && nat_eq r'.probes 0) ≡ true)
    go none e w = absurd w
    go (some r') e w = (r', e, ground (arith, w))

drained_run :
    (r : Runner) (ends : List Event)
    → NoStart ends
    → IsValid r
    → (r' : Runner) × (run (draining ∷ ends) r ≡ some r') × (r'.stopped ≡ true)
drained_run r ends n v =
    let (s, d, st) = begin_drain-some r v in
    let (t, e, k) = run_drained s ends n (begin_drain-Keeps r s v d) st in
    (t, run_draining r s ends d ∙ e, k)

clash : {A : Type 0} {x : A} → none ≡ some x → ⊥
clash h = absurd (cc)

module _ {Client T : Type 0} where
  -- The plugin `q` is what is left of `p`.
  pub record Stopped (p q : Plugin Client T) : Type 0 where
    pub standard :
        EmptyPool p.shared.connections.transports.standard q.shared.connections.transports.standard
    pub fingerprint :
        EmptyPool p.shared.connections.transports.fingerprint
          q.shared.connections.transports.fingerprint
    pub clients : EmptyClients p.shared.connections.clients q.shared.connections.clients
    pub sidecar : StoppedSidecar q.gateway.sidecar
    pub sessions : q.shared.sessions ≡ p.shared.sessions

  -- The plugin with its pools closed and this runner.
  abbrev after : ℕ → Plugin Client T → Option Runner → Plugin Client T
  after now p r = record {
    shared = record p.shared { connections = close_all now p.shared.connections };
    gateway = record p.gateway { sidecar = r };
  }

  stop-none :
      (now : ℕ) (ends : List Event) (p : Plugin Client T)
      → p.gateway.sidecar ≡ none
      → stop now ends p ≡ some (after now p p.gateway.sidecar)
  unfolding stop
  stop-none now ends p e = rw (e, stop) (rw e refl)

  stop-some :
      (now : ℕ) (ends : List Event) (p : Plugin Client T) (r r' : Runner)
      → p.gateway.sidecar ≡ some r
      → run (draining ∷ ends) r ≡ some r'
      → (nat_eq r'.workers 0 && nat_eq r'.probes 0) ≡ true
      → stop now ends p ≡ some (after now p (some r'))
  unfolding stop
  stop-some now ends p r r' e d w = rw (e, stop) (rw d (rw w refl))

  stop_waits :
      (now : ℕ) (ends : List Event) (p : Plugin Client T) (r r' : Runner)
      → p.gateway.sidecar ≡ some r
      → run (draining ∷ ends) r ≡ some r'
      → (nat_eq r'.workers 0 && nat_eq r'.probes 0) ≡ false
      → stop now ends p ≡ none
  unfolding stop
  stop_waits now ends p r r' e d w = rw (e, stop) (rw d (rw w refl))

  some_same : (p q : Plugin Client T) → some p ≡ some q → p ≡ q
  some_same p q h = ap (from p) h
    where
      from : Plugin Client T → Option (Plugin Client T) → Plugin Client T
      from p none = p
      from p (some q) = q

  stop_returns_all :
      (now : ℕ) (p : Plugin Client T)
      → IsValidSidecar p.gateway.sidecar
      → (q : Plugin Client T) × (stop now (all_end p.gateway.sidecar) p ≡ some q)
  stop_returns_all now p v = elim (Option-cases p.gateway.sidecar) [
    | inl e ↦ (after now p p.gateway.sidecar, stop-none now (all_end p.gateway.sidecar) p e)
    | inr (r, e) ↦
        let (r', d, w) = all_ended r (subst IsValidSidecar e v) in
        (
          after now p (some r'),
          stop-some now (all_end p.gateway.sidecar) p r r' e
              (ap (λ o. run (draining ∷ all_end o) r) e ∙ d) w,
        )
  ]

  -- What a stop that returned leaves.
  stop-keeps :
      (now : ℕ) (ends : List Event) (p q : Plugin Client T)
      → NoStart ends
      → IsValidSidecar p.gateway.sidecar
      → stop now ends p ≡ some q
      → Stopped p q
  unfolding stop close_all
  stop-keeps now ends p q n v h = elim (Option-cases p.gateway.sidecar) [
    | inl e ↦
        subst (Stopped p) (some_same _ q (subst (λ x. x ≡ some q) (stop-none now ends p e) h))
          (record {
            standard = transports-EmptyPool now p.shared.connections.transports.standard;
            fingerprint = transports-EmptyPool now p.shared.connections.transports.fingerprint;
            clients = clients-EmptyClients now p.shared.connections.clients;
            sidecar = rw e tt;
            sessions = refl;
          })
    | inr (r, e) ↦
        let (r', d, st) = drained_run r ends n (subst IsValidSidecar e v) in
        elim (Bool-cases (nat_eq r'.workers 0 && nat_eq r'.probes 0)) [
          | inr w ↦ absurd (clash (sym (stop_waits now ends p r r' e d w) ∙ h))
          | inl w ↦
              subst (Stopped p) (some_same _ q (sym (stop-some now ends p r r' e d w) ∙ h))
                (record {
                  standard = transports-EmptyPool now p.shared.connections.transports.standard;
                  fingerprint =
                      transports-EmptyPool now p.shared.connections.transports.fingerprint;
                  clients = clients-EmptyClients now p.shared.connections.clients;
                  sidecar = (st, ground (arith, w), ground (arith, w));
                  sessions = refl;
                })
        ]
  ]

  -- A stop returns once the loops and probes that run when it is called have ended, one event for each.
  -- Whatever else happened during its waits short of another start, a stop that returned has left no client
  -- and no transport in a pool, each of them was closed, and the sidecar is stopped without a goroutine.
  pub stop-Stopped :
      (now : ℕ) (p : Plugin Client T)
      → IsValidSidecar p.gateway.sidecar
      → ((q : Plugin Client T) × (stop now (all_end p.gateway.sidecar) p ≡ some q))
        × ((ends : List Event) (q : Plugin Client T)
            → NoStart ends
            → stop now ends p ≡ some q
            → Stopped p q)
  stop-Stopped now p v = (stop_returns_all now p v, λ ends q n h. stop-keeps now ends p q n v h)
