-- ===== src/Server/Listen.antt =====
-- `listen` of async_telemetry_server/src/TcpServer.cpp and TlsServer.cpp; what a session does
-- with its connection is modelled in Server.Session and Server.Tls.
use edge_ipc_daemon.Prelude.{
  ◌≡◌, ◌∙◌, ap, sym, refl, Bool, true, false, ◌&&◌, not, List, [], ◌∷◌, ◌++◌, if◌then◌else◌,
}
use mathlib.Core.List.{append_assoc, append-nil}

-- What comes next: a connection, with what it will do; an error of `async_accept`; or SIGTERM or SIGINT.
pub data Arrival (C : Type 0) : Type 0 where
  connected : C → Arrival C
  accept_failed : Arrival C
  signalled : Arrival C

-- Whether the loop runs, the signals are waited for, and `ctx_` is stopped; and the sessions
-- that were spawned, in order.
pub record Listener (C : Type 0) : Type 0 where
  pub accepting : Bool
  pub waiting : Bool
  pub stopped : Bool
  pub spawned : List C

module _ {C : Type 0} where
  unfoldable pub listening : Listener C
  listening = record { accepting = true; waiting = true; stopped = false; spawned = [] }

  -- An exception of `async_accept` ends the coroutine, and with it the signal set, whose wait is
  -- then aborted.
  unfoldable pub arrive : Arrival C → Listener C → Listener C
  arrive (connected c) l =
      if l.accepting && not l.stopped then record l { spawned = l.spawned ++ c ∷ [] } else l
  arrive accept_failed l =
      if l.accepting && not l.stopped then record l { accepting = false; waiting = false } else l
  arrive signalled l = if l.waiting then record l { waiting = false; stopped = true } else l

  unfoldable pub listen : Listener C → List (Arrival C) → Listener C
  listen l [] = l
  listen l (a ∷ arrivals) = listen (arrive a l) arrivals

  -- The connections until the first error or signal, and which of them came first.
  abbrev pub accepted : List (Arrival C) → List C
  accepted (connected c ∷ arrivals) = c ∷ accepted arrivals
  accepted _ = []

  abbrev pub signal_first : List (Arrival C) → Bool
  signal_first [] = false
  signal_first (connected c ∷ arrivals) = signal_first arrivals
  signal_first (accept_failed ∷ arrivals) = false
  signal_first (signalled ∷ arrivals) = true

  if_false : (b : Bool) → b ≡ false → (l m : Listener C) → (if b then l else m) ≡ m
  if_false b e l m = rw e refl

  ended :
      (l : Listener C) (arrivals : List (Arrival C))
      → (l.accepting && not l.stopped) ≡ false
      → l.waiting ≡ false
      → listen l arrivals ≡ l
  unfolding listen arrive
  ended l [] a w = refl
  ended l (connected c ∷ arrivals) a w = rw a (ended l arrivals a w)
  ended l (accept_failed ∷ arrivals) a w = rw a (ended l arrivals a w)
  ended l (signalled ∷ arrivals) a w =
      ap (λ m. listen m arrivals) (if_false l.waiting w _ l) ∙ ended l arrivals a w

  accepts : (cs : List C) → Listener C
  accepts cs = record { accepting = true; waiting = true; stopped = false; spawned = cs }

  accepts-listen :
      (cs : List C) (arrivals : List (Arrival C))
      → let l = listen (accepts cs) arrivals in
        (l.spawned ≡ cs ++ accepted arrivals) × (l.stopped ≡ signal_first arrivals)
  unfolding listen arrive accepts
  accepts-listen cs [] = (sym (append-nil cs), refl)
  accepts-listen cs (connected c ∷ arrivals) =
      let rest = accepts-listen (cs ++ c ∷ []) arrivals in
      (rest.0 ∙ append_assoc cs (c ∷ []) (accepted arrivals), rest.1)
  accepts-listen cs (accept_failed ∷ arrivals) =
      let same = ended _ arrivals refl refl in
      (ap (λ l. l.spawned) same ∙ sym (append-nil cs), ap (λ l. l.stopped) same)
  accepts-listen cs (signalled ∷ arrivals) =
      let same = ended _ arrivals refl refl in
      (ap (λ l. l.spawned) same ∙ sym (append-nil cs), ap (λ l. l.stopped) same)

  -- The sessions that a server spawns are those of the connections before the first error of
  -- `async_accept` or signal, in their order, and it is stopped only if the signal comes before any
  -- error: after an error neither connections nor signals change anything.
  listen-accepted :
      (arrivals : List (Arrival C))
      → let l = listen listening arrivals in
        (l.spawned ≡ accepted arrivals) × (l.stopped ≡ signal_first arrivals)
  unfolding listening accepts
  listen-accepted arrivals = accepts-listen [] arrivals
