-- ===== src/Server/Session/Ends.antt =====
-- `TcpServer::handle_session` of async_telemetry_server/src/TcpServer.cpp ends, since every frame
-- takes twelve bytes of the input at least.
use Prim.Native.String.{String}
use edge_ipc_daemon.Prelude.{
  ℕ, zero, suc, ◌+◌, ◌^◌, ◌<◌, ◌≡◌, refl, List, [], ◌∷◌, arith, length, length-drop, drop, Bool,
  inl, inr, Bool-cases, leb, ltb, take, ◌⊎◌, some,
}
use edge_ipc_daemon.Protocol.Bytes.{AllBytes}
use edge_ipc_daemon.Protocol.Frame.{Frame, MsgType, ack, error, auth, telemetry}
use edge_ipc_daemon.Server.World.{
  M, Session, Env, Outcome, Event, Fault, ok, throw, undefined_behaviour, out_of_fuel, bind,
  end_of_file, connection_reset, system_error, database, invalid, attempt,
}
use edge_ipc_daemon.Server.Wire.{parse, write_frame}
use edge_ipc_daemon.Server.Wire.Reads.{reads, read_frame_lem, announced}
use edge_ipc_daemon.Server.Session.{
  same_type, bare, insert_auth_log, insert_telemetry, store_sample, telemetry_round, telemetry_loop,
  after_validate, after_first, session_body, catch_all, handle_session,
}
use edge_ipc_daemon.Server.Session.Keeps.{with_endpoint-keeps}
use edge_ipc_daemon.Server.Session.Telemetry.{write_frame-bare}

-- A result that did not run out of fuel, with what holds of the input after a success.
abbrev Fine : {A : Type 0} → (List ℕ → Type 0) → Outcome A × Session → Type 0
Fine Q (ok a, t) = Q t.input
Fine Q (throw e, t) = Unit {0}
Fine Q (undefined_behaviour, t) = Unit {0}
Fine Q (out_of_fuel, t) = ⊥

bind-Fine :
    {A B : Type 0} (P Q : List ℕ → Type 0) (r : Outcome A × Session) (f : A → M B)
    → Fine P r
    → ((a : A) (t : Session) → P t.input → Fine Q (f a t))
    → Fine Q (bind r f)
bind-Fine P Q (ok a, t) f h k = k a t h
bind-Fine P Q (throw e, t) f h k = tt
bind-Fine P Q (undefined_behaviour, t) f h k = tt
bind-Fine P Q (out_of_fuel, t) f h k = h

AllBytes-drop : (n : ℕ) (bs : List ℕ) → AllBytes bs → AllBytes (drop n bs)
AllBytes-drop zero bs h = h
AllBytes-drop (suc n) [] h = tt
AllBytes-drop (suc n) (b ∷ bs) h = AllBytes-drop n bs h.1

-- Bytes, and fewer than the fuel that is left.
abbrev Below : ℕ → List ℕ → Type 0
Below fuel input = AllBytes input × (length input < fuel)

parse-Fine : (Q : List ℕ → Type 0) (full : List ℕ) (s : Session) → Q s.input → Fine Q (parse full s)
unfolding parse
parse-Fine Q full s h = ground arith

reads-Below : (fuel : ℕ) (s : Session) → Below (suc fuel) s.input → Fine (Below fuel) (reads s)
unfolding reads
reads-Below fuel s h =
    let n = 12 + announced s.input in
    elim (Bool-cases (ltb (length s.input) 12)) [
      | inl none_left ↦ rw none_left tt
      | inr whole ↦ elim (Bool-cases (leb (2 ^ 32) n)) [
        | inl big ↦ rw (whole, big) tt
        | inr small ↦ elim (Bool-cases (ltb (length s.input) n)) [
          | inl cut ↦ rw (whole, small, cut) tt
          | inr fits ↦
              rw (whole, small, fits)
                (parse-Fine (Below fuel) (take n s.input) (record s { input = drop n s.input })
                  (AllBytes-drop n s.input h.0, ground (arith, length-drop n s.input)))
        ]
      ]
    ]

attempt-Fine :
    (Q : List ℕ → Type 0) (fails : ℕ → Bool) (e : Fault) (ev : Event) (s : Session)
    → Q s.input
    → Fine Q (attempt fails e ev s)
unfolding attempt
attempt-Fine Q fails e ev s h = elim (Bool-cases (fails (length s.events))) [
  | inl bad ↦ rw bad tt
  | inr good ↦ rw good h
]

write_frame-Fine :
    (Q : List ℕ → Type 0) (env : Env) (m : MsgType) (s : Session)
    → Q s.input
    → Fine Q (write_frame env (bare m) s)
write_frame-Fine Q env m s h =
    rw (write_frame-bare env m s) (attempt-Fine Q env.write_fails _ _ s h)

store_sample-Fine :
    (Q : List ℕ → Type 0) (env : Env) (subject : String) (payload : List ℕ) (s : Session)
    → Q s.input
    → Fine Q (store_sample env subject payload s)
unfolding store_sample insert_telemetry
store_sample-Fine Q env subject payload s h = elim (Bool-cases (leb 20 (length payload))) [
  | inl whole ↦ rw whole (attempt-Fine Q env.database_fails _ _ s h)
  | inr short ↦ rw short h
]

abbrev Any : List ℕ → Type 0
Any _ = Unit {0}

telemetry_loop-Fine :
    (env : Env) (subject : String) (fuel : ℕ) (s : Session)
    → Below fuel s.input
    → Fine Any (telemetry_loop env subject fuel s)
unfolding telemetry_loop telemetry_round
telemetry_loop-Fine env subject zero s h = absurd (omega (arith, h.1))
telemetry_loop-Fine env subject (suc fuel) s h = rw (read_frame_lem s h.0) (
    bind-Fine (Below fuel) Any (reads s) _ (reads-Below fuel s h) λ f t ht.
      elim (Bool-cases (same_type f.msg_type telemetry)) [
        | inl more ↦ rw more (
            bind-Fine (Below fuel) Any (store_sample env subject f.payload t) _
              (store_sample-Fine (Below fuel) env subject f.payload t ht)
              λ _ u hu.
                bind-Fine (Below fuel) Any (write_frame env (bare ack) u) _
                  (write_frame-Fine (Below fuel) env ack u hu)
                  λ _ v hv. telemetry_loop-Fine env subject fuel v hv)
        | inr done ↦ rw done tt
      ])

after_validate-Fine :
    (env : Env) (fuel : ℕ) (token : List ℕ) (s : Session)
    → Below fuel s.input
    → Fine Any (after_validate env fuel (env.validator token) s)
unfolding after_validate insert_auth_log
after_validate-Fine env fuel token s h =
    bind-Fine (Below fuel) Any (insert_auth_log env _ _ s) _
      (attempt-Fine (Below fuel) env.database_fails _ _ s h)
      λ _ t ht. elim (Bool-cases (env.validator token).is_ok) [
        | inl good ↦ rw good (
            bind-Fine (Below fuel) Any (write_frame env (bare ack) t) _
              (write_frame-Fine (Below fuel) env ack t ht)
              λ _ u hu. telemetry_loop-Fine env _ fuel u hu)
        | inr bad ↦ rw bad (write_frame-Fine Any env error t tt)
      ]

after_first-Fine :
    (env : Env) (fuel : ℕ) (f : Frame) (s : Session)
    → Below fuel s.input
    → Fine Any (after_first env fuel f s)
unfolding after_first
after_first-Fine env fuel f s h = elim (Bool-cases (same_type f.msg_type auth)) [
  | inl t ↦ rw t (after_validate-Fine env fuel f.payload s h)
  | inr t ↦ rw t (write_frame-Fine Any env error s tt)
]

session_body-Fine : (env : Env) (s : Session) → AllBytes s.input → Fine Any (session_body env s)
unfolding session_body
session_body-Fine env s h = rw (read_frame_lem s h) (
    bind-Fine (Below (length s.input)) Any (reads s) _
      (reads-Below (length s.input) s (h, omega arith))
      λ f t ht. after_first-Fine env (length s.input) f t ht)

catch_all-ends :
    (r : Outcome (Unit {0}) × Session)
    → Fine Any r
    → ((catch_all r).0 ≡ ok tt) ⊎ ((catch_all r).0 ≡ undefined_behaviour)
unfolding catch_all
catch_all-ends (ok tt, s) h = inl refl
catch_all-ends (throw end_of_file, s) h = inl refl
catch_all-ends (throw connection_reset, s) h = inl refl
catch_all-ends (throw system_error, s) h = inl refl
catch_all-ends (throw database, s) h = inl refl
catch_all-ends (throw (invalid e), s) h = inl refl
catch_all-ends (undefined_behaviour, s) h = inr refl
catch_all-ends (out_of_fuel, s) h = absurd h

-- On every input of bytes, and whichever writes and inserts fail: a session comes to an end within
-- its fuel, if each insert does. It returns, it has undefined behaviour, or the exception that reading
-- the address of the peer throws leaves it; no other exception does.
pub handle_session_ends :
    (env : Env) (s : Session)
    → AllBytes s.input
    → ((handle_session env s).0 ≡ ok tt)
      ⊎ ((handle_session env s).0 ≡ undefined_behaviour)
      ⊎ ((fault : Fault) × (env.endpoint_fault ≡ some fault)
          × ((handle_session env s).0 ≡ throw fault))
unfolding handle_session
handle_session_ends env s h =
    with_endpoint-keeps
      (λ r.
        (r.0 ≡ ok tt)
        ⊎ (r.0 ≡ undefined_behaviour)
        ⊎ ((fault : Fault) × (env.endpoint_fault ≡ some fault) × (r.0 ≡ throw fault)))
      env.endpoint_fault _ s
      (elim (catch_all-ends (session_body env s) (session_body-Fine env s h)) [
        | inl returns ↦ inl returns
        | inr undefined ↦ inr (inl undefined)
      ])
      λ fault e. inr (inr (fault, e, refl))
