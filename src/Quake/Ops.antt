-- ===== src/Quake/Ops.antt =====
-- The operations of a kernel's block (include/Support/CodeGen/Quake.hpp and the Quake operations
-- that the passes of lib/Passes name). The type `F` is the type of floating-point numbers.
use mathlib.Core.Bool.{decide, decide_iff}
use mqss_passes_suite.Base.{ℕ, ◌≡◌, Bool, true, refl, List}

-- The operations with the interface `quake::OperatorInterface` that the sources create or match.
pub data GateKind : Type 0 where
  x_op y_op z_op h_op s_op t_op r1_op rx_op ry_op rz_op u3_op swap_op : GateKind

pub GateKind-discrete : Discrete GateKind
GateKind-discrete = hlevel

-- A qubit operand, by the operation that defines it: `extract_ref v i` is `quake.extract_ref` of
-- the vector `v` with `rawIndex` `i`, `result n` is a result of any other operation `n`, such as
-- a single `quake.alloca`.
pub data Value : Type 0 where
  extract_ref : ℕ → ℕ → Value
  result : ℕ → Value

-- A classical operand: an `arith.constant` with a float attribute, or anything else.
pub data Parameter (F : Type 0) : Type 0 where
  constant : F → Parameter F
  computed : ℕ → Parameter F

pub record Gate (F : Type 0) : Type 0 where
  pub kind : GateKind
  pub is_adj : Bool
  pub parameters : List (Parameter F)
  pub controls : List Value
  pub targets : List Value

-- The operand of a measurement: one reference, or a vector with its size.
pub data Operand : Type 0 where
  ref : Value → Operand
  veq : ℕ → Operand

-- The operations without that interface. `measure` is `quake.mx`, `quake.my` or `quake.mz`;
-- `other_op` is one that leaves the qubits alone, such as arithmetic. A kernel with `quake.reset` or
-- `func.call` has no translation.
pub data NonGate (F : Type 0) : Type 0 where
  alloca_ref : NonGate F
  alloca_veq : ℕ → NonGate F
  extract : ℕ → ℕ → NonGate F
  arith_constant : F → NonGate F
  measure : List Operand → NonGate F
  apply_op : List Value → NonGate F
  other_op : NonGate F

pub data Op (F : Type 0) : Type 0 where
  operator : Gate F → Op F
  plain : NonGate F → Op F

-- Whether two operations are of one class.
unfoldable pub same_kind : GateKind → GateKind → Bool
unfolding GateKind-discrete decide
same_kind k l = decide (GateKind-discrete k l)

pub same_kind_refl : (k : GateKind) → same_kind k k ≡ true
unfolding same_kind
same_kind_refl k = (decide_iff (GateKind-discrete k k)).1 refl

pub same_kind_sound : (k l : GateKind) → same_kind k l ≡ true → k ≡ l
unfolding same_kind
same_kind_sound k l e = (decide_iff (GateKind-discrete k l)).0 e

module _ {F : Type 0} where
  -- `isa<quake::XOp>(op)` and its like, on an operation that is a gate.
  unfoldable pub isa : GateKind → Gate F → Bool
  unfolding GateKind-discrete decide
  isa k g = decide (GateKind-discrete g.kind k)

  pub isa_sound : (k : GateKind) (g : Gate F) → isa k g ≡ true → g.kind ≡ k
  unfolding isa
  isa_sound k g h = (decide_iff (GateKind-discrete g.kind k)).0 h
