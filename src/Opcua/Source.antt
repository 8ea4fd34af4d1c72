-- ===== src/Opcua/Source.antt =====
-- opcua_edge_server/src/data_source.c and data_source_opt.c: what a client's answer points to. Time
-- stamps are left out, and UA_Variant_setScalarCopy finds memory.
use edge_ipc_daemon.Prelude.{
  ℕ, zero, suc, ◌<◌, ◌≡◌, List, [], ◌∷◌, ◌++◌, Option, none, some, if◌then◌else◌, ◌==◌, length,
  get_elem?,
}

abbrev pub num_nodes : ℕ
num_nodes = 9

-- The data pointer of a UA_Variant: into `variant_scalars`, to the heap, or null.
pub data Pointer : Type 0 where
  null : Pointer
  scalar : ℕ → Pointer
  copied : ℕ → Pointer

abbrev pub put : {A : Type 0} → (ℕ → A) → ℕ → A → ℕ → A
put a i v j = if j == i then v else a j

pub record Store (V : Type 0) : Type 0 where
  pub node_values : ℕ → V
  pub variant_scalars : ℕ → V
  pub node_variants : ℕ → Pointer
  pub heap : List V

module _ {V : Type 0} where
  unfoldable pub data_source_set : ℕ → V → Store V → Store V
  data_source_set idx val s = record s { node_values = put s.node_values idx val }

  unfoldable pub data_source_get : ℕ → Store V → V
  data_source_get idx s = s.node_values idx

  -- `cnc_read_callback`: the data pointer of the answer, a copy on the heap.
  unfoldable pub cnc_read_callback : ℕ → Store V → Pointer × Store V
  cnc_read_callback idx s =
      (copied (length s.heap), record s { heap = s.heap ++ s.node_values idx ∷ [] })

  -- `cnc_read_callback_opt`: the pointer that stands in the pool.
  unfoldable pub cnc_read_callback_opt : ℕ → Store V → Pointer × Store V
  cnc_read_callback_opt idx s = (
    s.node_variants idx,
    record s { variant_scalars = put s.variant_scalars idx (s.node_values idx) },
  )

  -- The loop of `data_source_init` in data_source_opt.c; `nil` is 0.0f.
  unfoldable pub data_source_init : V → ℕ → ℕ → Store V → Store V
  data_source_init nil i zero s = s
  data_source_init nil i (suc left) s = data_source_init nil (suc i) left (record s {
    variant_scalars = put s.variant_scalars i nil;
    node_variants = put s.node_variants i (scalar i);
  })

  -- What a pointer leads to.
  unfoldable pub deref : Store V → Pointer → Option V
  deref s null = none
  deref s (scalar i) = some (s.variant_scalars i)
  deref s (copied a) = get_elem? s.heap a

-- A call by the update thread, or by the server for a client.
pub data Access (V : Type 0) : Type 0 where
  sets : ℕ → V → Access V
  reads : ℕ → Access V

module _ {V : Type 0} where
  unfoldable pub access : (ℕ → Store V → Pointer × Store V) → Store V → Access V → Store V
  access callback s (sets idx val) = data_source_set idx val s
  access callback s (reads idx) = (callback idx s).1

  unfoldable pub accesses : (ℕ → Store V → Pointer × Store V) → Store V → List (Access V) → Store V
  accesses callback s [] = s
  accesses callback s (a ∷ more) = accesses callback (access callback s a) more

  -- What an answer of the pool for a node shows in the end: `now` is the value of the node, and
  -- `shown` what the answer shows, which the later reads of the same node change.
  abbrev pub shows : ℕ → V → V → List (Access V) → V
  shows idx now shown [] = shown
  shows idx now shown (sets i val ∷ more) = shows idx (if idx == i then val else now) shown more
  shows idx now shown (reads i ∷ more) = shows idx now (if idx == i then now else shown) more

  -- The pool more `data_source_init` leaves it.
  IsPool : Store V → Type 0
  IsPool s = (i : ℕ) → i < num_nodes → s.node_variants i ≡ scalar i
