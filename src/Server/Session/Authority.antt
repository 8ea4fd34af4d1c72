-- ===== src/Server/Session/Authority.antt =====
-- Whatever a peer sends and whichever writes and inserts fail, `TcpServer::handle_session` stores rows for an
-- authenticated subject only.
use Prim.Native.String.{String}
use edge_ipc_daemon.Prelude.{
  ℕ, zero, suc, ◌≡◌, refl, true, List, [], ◌∷◌, length, ◌⊎◌, inl, inr, Bool-cases, leb,
}
use edge_ipc_daemon.Protocol.Frame.{Frame, auth, telemetry, ack, error}
use edge_ipc_daemon.Server.World.{
  M, Session, Env, Outcome, Event, ok, throw, out_of_fuel, undefined_behaviour, end_of_file,
  connection_reset, system_error, database, invalid, sent, auth_logged, stored, reported, attempt,
  ◌>>◌, bind,
}
use edge_ipc_daemon.Server.Wire.{read_frame, write_frame}
use edge_ipc_daemon.Server.Session.{
  same_type, bare, or_unknown, insert_auth_log, insert_telemetry, store_sample, telemetry_round,
  telemetry_loop, after_validate, after_first, session_body, catch_all, handle_session,
}
use edge_ipc_daemon.Server.Session.Telemetry.{wire}
use edge_ipc_daemon.Server.Session.Keeps.{
  bind-keeps, read_frame-keeps, attempt-keeps, write_frame-keeps, with_endpoint-keeps,
}

abbrev pub Holds : Event → List Event → Type 0
Holds e [] = ⊥
Holds e (x ∷ xs) = (x ≡ e) ⊎ Holds e xs

-- What follows a part of a sequence may use how that part ended.
bind-keeps_from :
    {A B : Type 0} (P : List Event → Type 0) (r : Outcome A × Session) (f : A → M B)
    → P r.1.events
    → ((a : A) (t : Session) → r ≡ (ok a, t) → P t.events → P (f a t).1.events)
    → P (bind r f).1.events
bind-keeps_from P (ok a, t) f h k = k a t refl h
bind-keeps_from P (throw e, t) f h k = h
bind-keeps_from P (undefined_behaviour, t) f h k = h
bind-keeps_from P (out_of_fuel, t) f h k = h

-- A session that has yet to begin.
abbrev pub begins : List ℕ → Session
begins input = record { input = input; events = [] }

-- The first frame that the peer sends is an AUTH frame with this payload.
abbrev pub SendsToken : List ℕ → List ℕ → Type 0
SendsToken input token =
    (f : Frame) × (t : Session) × (read_frame (begins input) ≡ (ok f, t))
    × (same_type f.msg_type auth ≡ true)
    × (f.payload ≡ token)

module _ (env : Env) (input : List ℕ) where
  -- The validator accepts the token of the peer for this subject, and this was logged.
  abbrev pub Authorised : String → List Event → Type 0
  Authorised subject es =
      (token : List ℕ) × SendsToken input token
      × ((env.validator token).is_ok ≡ true)
      × ((env.validator token).subject ≡ subject)
      × Holds (auth_logged (or_unknown subject) "AUTH_OK" env.peer_ip) es

  -- Each row follows the authorisation of its subject, and what is sent is a frame without payload.
  abbrev pub IsProper : List Event → Type 0
  IsProper [] = Unit {0}
  IsProper (stored i t v subject ∷ es) = Authorised subject es × IsProper es
  IsProper (sent bytes ∷ es) = ((bytes ≡ wire ack) ⊎ (bytes ≡ wire error)) × IsProper es
  IsProper (auth_logged u e ip ∷ es) = IsProper es
  IsProper (reported ∷ es) = IsProper es

  module _ (subject : String) where
    abbrev InLoop : List Event → Type 0
    InLoop es = Authorised subject es × IsProper es

    later : (x : Event) (es : List Event) → Authorised subject es → Authorised subject (x ∷ es)
    later x es a = (a.0, a.1, a.2, a.3, inr a.4)

    ack-InLoop : (s : Session) → InLoop s.events → InLoop (write_frame env (bare ack) s).1.events
    ack-InLoop s h = write_frame-keeps InLoop env ack s h (later _ s.events h.0, (inl refl, h.1))

    store_sample-InLoop :
        (payload : List ℕ) (s : Session)
        → InLoop s.events
        → InLoop (store_sample env subject payload s).1.events
    unfolding store_sample insert_telemetry
    store_sample-InLoop payload s h = elim (Bool-cases (leb 20 (length payload))) [
      | inl whole ↦
          rw whole
            (attempt-keeps InLoop env.database_fails _ _ s h (later _ s.events h.0, (h.0, h.1)))
      | inr short ↦ rw short h
    ]

    round-InLoop :
        (rest : M (Unit {0})) (f : Frame) (s : Session)
        → ((t : Session) → InLoop t.events → InLoop (rest t).1.events)
        → InLoop s.events
        → InLoop (telemetry_round env subject rest f s).1.events
    unfolding telemetry_round
    round-InLoop rest f s next h = elim (Bool-cases (same_type f.msg_type telemetry)) [
      | inl more ↦ rw more (
          bind-keeps InLoop (store_sample env subject f.payload s) _
            (store_sample-InLoop f.payload s h)
            λ _ t ht.
              bind-keeps InLoop (write_frame env (bare ack) t) _ (ack-InLoop t ht)
                λ _ u hu. next u hu)
      | inr done ↦ rw done h
    ]

    telemetry_loop-InLoop :
        (fuel : ℕ) (s : Session)
        → InLoop s.events
        → InLoop (telemetry_loop env subject fuel s).1.events
    unfolding telemetry_loop
    telemetry_loop-InLoop zero s h = h
    telemetry_loop-InLoop (suc fuel) s h =
        bind-keeps InLoop (read_frame s) _ (read_frame-keeps InLoop s h) λ f t ht.
          round-InLoop (telemetry_loop env subject fuel) f t
            (λ u hu. telemetry_loop-InLoop fuel u hu) ht

-- After a success was logged.
accepted-InLoop :
    (env : Env) (input : List ℕ) (fuel : ℕ) (subject : String) (s : Session)
    → InLoop env input subject s.events
    → InLoop env input subject
        ((write_frame env (bare ack) >> telemetry_loop env subject fuel) s).1.events
accepted-InLoop env input fuel subject s h =
    bind-keeps (InLoop env input subject) (write_frame env (bare ack) s) _
      (ack-InLoop env input subject s h) λ _ t ht. telemetry_loop-InLoop env input subject fuel t ht

error-IsProper :
    (env : Env) (input : List ℕ) (s : Session)
    → IsProper env input s.events
    → IsProper env input (write_frame env (bare error) s).1.events
error-IsProper env input s h = write_frame-keeps (IsProper env input) env error s h (inr refl, h)

after_validate-IsProper :
    (env : Env) (input : List ℕ) (fuel : ℕ) (token : List ℕ) (s : Session)
    → SendsToken input token
    → IsProper env input s.events
    → IsProper env input (after_validate env fuel (env.validator token) s).1.events
unfolding after_validate insert_auth_log attempt
after_validate-IsProper env input fuel token s sends h =
    elim (Bool-cases (env.database_fails (length s.events))) [
      | inl bad ↦ rw bad h
      | inr logged ↦ elim (Bool-cases (env.validator token).is_ok) [
        | inl good ↦
            let subject = (env.validator token).subject in
            let event = auth_logged (or_unknown subject) "AUTH_OK" env.peer_ip in
            rw (logged, good)
              (accepted-InLoop env input fuel subject (record s { events = event ∷ s.events })
                ((token, sends, good, refl, inl refl), h)).1
        | inr refused ↦ rw (logged, refused) (error-IsProper env input _ h)
      ]
    ]

after_first-IsProper :
    (env : Env) (input : List ℕ) (fuel : ℕ) (f : Frame) (s : Session)
    → read_frame (begins input) ≡ (ok f, s)
    → IsProper env input s.events
    → IsProper env input (after_first env fuel f s).1.events
unfolding after_first
after_first-IsProper env input fuel f s reads h = elim (Bool-cases (same_type f.msg_type auth)) [
  | inl t ↦ rw t (after_validate-IsProper env input fuel f.payload s (f, s, reads, t, refl) h)
  | inr t ↦ rw t (error-IsProper env input s h)
]

catch_all-IsProper :
    (env : Env) (input : List ℕ) (r : Outcome (Unit {0}) × Session)
    → IsProper env input r.1.events
    → IsProper env input (catch_all r).1.events
unfolding catch_all
catch_all-IsProper env input (ok a, s) h = h
catch_all-IsProper env input (throw end_of_file, s) h = h
catch_all-IsProper env input (throw connection_reset, s) h = h
catch_all-IsProper env input (throw system_error, s) h = h
catch_all-IsProper env input (throw database, s) h = h
catch_all-IsProper env input (throw (invalid e), s) h = h
catch_all-IsProper env input (undefined_behaviour, s) h = h
catch_all-IsProper env input (out_of_fuel, s) h = h

session_body-IsProper :
    (env : Env) (input : List ℕ) → IsProper env input (session_body env (begins input)).1.events
unfolding session_body
session_body-IsProper env input =
    bind-keeps_from (IsProper env input) (read_frame (begins input)) _
      (read_frame-keeps (IsProper env input) (begins input) tt)
      λ f t reads ht. after_first-IsProper env input (length input) f t reads ht

-- Whatever the peer sends before its connection ends, and whichever writes and inserts fail: a
-- session stores a row for a subject only after the first frame of the peer was an AUTH frame, the
-- validator accepted the payload of this frame for this subject, and a success was logged for it;
-- and it sends the peer nothing but ACK and ERROR frames without payload.
pub handle_session-IsProper :
    (env : Env) (input : List ℕ) → IsProper env input (handle_session env (begins input)).1.events
unfolding handle_session
handle_session-IsProper env input =
    with_endpoint-keeps (λ r. IsProper env input r.1.events) env.endpoint_fault _ (begins input)
      (catch_all-IsProper env input (session_body env (begins input))
        (session_body-IsProper env input))
      λ fault e. tt
