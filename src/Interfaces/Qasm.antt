-- ===== src/Interfaces/Qasm.antt =====
-- The parts of a parsed QASM program that lib/Interfaces/QASMToQuake.cpp reads. The parser is not
-- part of the repository: each type has a case for everything else that a node may be. A name
-- is a number, and a constant index is a natural number.
use mqss_passes_suite.Base.{ℕ, ℤ, Bool, List, Option}
use mqss_passes_suite.Interfaces.GatesMap.{GateId}

pub data BinaryOp : Type 0 where
  add_op subtract_op multiply_op divide_op other_binary : BinaryOp

pub data Expression (F : Type 0) : Type 0 where
  constant_int : ℤ → Expression F
  constant_fp : F → Expression F
  negated : Expression F → Expression F
  other_unary : Expression F → Expression F
  binary : BinaryOp → Expression F → Expression F → Expression F
  identifier_pi : Expression F
  other_expression : Expression F

-- A qubit of a register: the index is `none` where it is no constant.
pub record QubitRef : Type 0 where
  pub identifier : ℕ
  pub index : Option ℕ

-- A modifier of a gate call; the number is that of `ctrl`, where it is a constant.
pub data Modifier : Type 0 where
  ctrl : Option ℕ → Modifier
  other_modifier : Modifier

pub record GateCall (F : Type 0) : Type 0 where
  pub gate_id : GateId
  pub modifiers : List Modifier
  pub arguments : List (Expression F)
  pub operands : List QubitRef

-- What an assignment assigns: a measurement of a qubit, one of nothing, or something else.
pub data Assigned : Type 0 where
  measured : QubitRef → Assigned
  measured_nothing : Assigned
  not_measured : Assigned

-- A declaration has a name, whether its type names qubits, and the size where that is a constant.
-- An assignment has a classical register and a constant index in it or none, and what is assigned.
pub data Statement (F : Type 0) : Type 0 where
  gate_call : GateCall F → Statement F
  declaration : ℕ → Bool → Option ℕ → Statement F
  assignment : ℕ → Option ℕ → Assigned → Statement F
  other_statement : Statement F
