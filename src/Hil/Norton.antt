-- ===== src/Hil/Norton.antt =====
-- fpga_power_electronics_hil/vsc_solver/src/NortonUpdate.cpp.
use edge_ipc_daemon.Hil.Num.{Num}

module _ (num : Num) where
  open num use {Value, two, add, sub, mul, div, neg}

  pub record NortonInductor : Type 0 where
    pub g_eq : Value
    pub beta : Value

  pub record NortonCapacitor : Type 0 where
    pub g_c : Value

  unfoldable pub make_inductor : Value → Value → Value → NortonInductor
  make_inductor l r dt =
      let denom = add (mul two l) (mul r dt) in
      record { g_eq = div dt denom; beta = div (sub (mul two l) (mul r dt)) denom }

  unfoldable pub make_capacitor : Value → Value → NortonCapacitor
  make_capacitor c dt = record { g_c = div (mul two c) dt }

  unfoldable pub inductor_history : NortonInductor → Value → Value → Value
  inductor_history n i_l v_branch = add (mul n.g_eq v_branch) (mul n.beta i_l)

  unfoldable pub capacitor_history : NortonCapacitor → Value → Value → Value
  capacitor_history n i_c v_node = sub (neg i_c) (mul n.g_c v_node)
