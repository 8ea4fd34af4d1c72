-- ===== src/Examples/Machines.antt =====
-- The simulated machine of opcua_edge_server at concrete inputs, over natural numbers.
use edge_ipc_daemon.Prelude.{ℕ, ◌+◌, ◌-◌, ◌*◌, ◌/◌, ◌%◌, ◌≡◌, List, [], ◌∷◌, none, some}
use edge_ipc_daemon.Opcua.Sim.{Maths, Params}
use edge_ipc_daemon.Opcua.Source.{null, Store, Access, sets, reads}
use edge_ipc_daemon.Opcua.Update.Ticks.{nine, values_after, update_thread-update_loop_start}
use edge_ipc_daemon.Opcua.Update.{Round, timer, stop, update_loop_start, update_thread}

abbrev whole : Maths
whole = record {
  Value = ℕ;
  Single = ℕ;
  of_int = λ n. n;
  add = λ a b. a + b;
  sub = λ a b. a - b;
  mul = λ a b. a * b;
  div = λ a b. a / b;
  neg = λ a. a;
  sin = λ a. a % 7;
  cos = λ a. a % 5;
  exp = λ a. a;
  log = λ a. a;
  sqrt = λ a. a;
  pi = 3;
  tenth = 1;
  thousandth = 1;
  single = λ a. a;
  rand_r = λ s. (s % 100, s * 3 + 1);
  rand_max = 99;
}

abbrev constants : Params whole
constants = record {
  vib_a = 2;
  vib_omega = 6;
  vib_sigma = 1;
  temp_ambient = 22;
  temp_delta = 45;
  temp_tau = 120;
  temp_sigma = 1;
  rpm_base = 3000;
  rpm_sigma = 5;
  torque_base = 12;
  torque_omega = 12;
  torque_sigma = 1;
  axis_range = 50;
  axis_freq = 1;
}

abbrev blank : Store ℕ
blank = record {
  node_values = λ i. 0;
  variant_scalars = λ i. 0;
  node_variants = λ i. null;
  heap = [];
}

-- A short read, an overrun and a stop.
abbrev rounds : List (Round whole constants)
rounds = timer (some 1) ∷ timer none ∷ timer (some 3) ∷ stop ∷ timer (some 1) ∷ []

update_thread-update_loop_start_example :
    let u =
      update_thread whole constants
        (update_loop_start whole constants (λ i. i + 40) blank)
        rounds in
    (u.tick_count ≡ 4)
    × (nine whole constants u.store.node_values
        ≡ values_after whole constants (λ i. i + 40) blank 2 4)
update_thread-update_loop_start_example =
    update_thread-update_loop_start whole constants (λ i. i + 40) blank rounds

-- The node 2 is read at 5, and again at 6.
abbrev before : List (Access ℕ)
before = sets 2 5 ∷ []

abbrev more : List (Access ℕ)
more = sets 2 6 ∷ reads 2 ∷ sets 2 7 ∷ []
