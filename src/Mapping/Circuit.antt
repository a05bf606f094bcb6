-- ===== src/Mapping/Circuit.antt =====
-- Circuits as the calls that make them, and the calls that QuakeQMap writes to a kernel
-- (lib/Passes/Transforms/QuakeQMap.cpp).
use mqss_passes_suite.Base.{ℕ, ◌+◌, ◌≡◌, Bool, true, false, List, [], ◌∷◌, ◌++◌, some, negsuc}
use mqss_passes_suite.Quake.Ops.{GateKind, x_op, y_op, z_op, h_op, s_op, t_op, rx_op, ry_op, rz_op}
use mqss_passes_suite.Quake.Floats.{Floats}
use mqss_passes_suite.Quake.Classical.{Bits, put, find}
use mqss_passes_suite.Mapping.Load.{Call, rotation, single, controlled, measure_bit, measure_all}
use mqss_passes_suite.Mapping.Rebuild.{Mapped, gate_type, measure_type}

-- The operation of a circuit that a call adds to it; `measure_all` is not written.
abbrev pub mapped_of : {F : Type 0} → Call F → List (Mapped F)
mapped_of (rotation k a q) =
    record { op_type = gate_type k; targets = q ∷ []; controls = []; parameters = a ∷ [] } ∷ []
mapped_of (single k q) =
    record { op_type = gate_type k; targets = q ∷ []; controls = []; parameters = [] } ∷ []
mapped_of (controlled k c t) =
    record { op_type = gate_type k; targets = t ∷ []; controls = c ∷ []; parameters = [] } ∷ []
mapped_of (measure_bit q b) =
    record { op_type = measure_type; targets = q ∷ []; controls = []; parameters = [] } ∷ []
mapped_of measure_all = []

abbrev pub mapped_all : {F : Type 0} → List (Call F) → List (Mapped F)
mapped_all [] = []
mapped_all (c ∷ cs) = mapped_of c ++ mapped_all cs

-- The number of bits and the map of measurements of a circuit: bits in order of the measurements.
abbrev pub bits_after : {F : Type 0} → ℕ × Bits → List (Call F) → ℕ × Bits
bits_after s [] = s
bits_after s (measure_bit q b ∷ cs) = bits_after (s.0 + 1, put q s.0 s.1) cs
bits_after s (_ ∷ cs) = bits_after s cs

abbrev pub is_rotation : GateKind → Bool
is_rotation rx_op = true
is_rotation ry_op = true
is_rotation rz_op = true
is_rotation _ = false

abbrev pub is_pauli : GateKind → Bool
is_pauli x_op = true
is_pauli y_op = true
is_pauli z_op = true
is_pauli _ = false

abbrev pub is_single : GateKind → Bool
is_single s_op = true
is_single t_op = true
is_single h_op = true
is_single k = is_pauli k

module _ {F : Type 0} (fl : Floats F) where
  -- A call that a kernel can say: its class is one of those of the call, its angle is a `float`
  -- other than -1.0, and its bit is the one in the map.
  abbrev pub IsSaid : Bits → Call F → Type 0
  IsSaid bits (rotation k a q) =
      (is_rotation k ≡ true) × (fl.narrow a ≡ a) × (fl.equal a (fl.of_int (negsuc 0)) ≡ false)
  IsSaid bits (single k q) = is_single k ≡ true
  IsSaid bits (controlled k c t) = is_pauli k ≡ true
  IsSaid bits (measure_bit q b) = find q bits ≡ some b
  IsSaid bits measure_all = ⊥
