-- ===== src/Mapping/Loaded.antt =====
-- What the loading of a kernel reads and what it may fail with
-- (lib/Passes/Transforms/QuakeQMap.cpp).
use mqss_passes_suite.Base.{ℕ, ◌≡◌, refl, ap, fun_ext, Bool, List, [], ◌∷◌, map, ◌>>=◌}
use mqss_passes_suite.Quake.Ops.{
  alloca_ref, alloca_veq, extract, arith_constant, measure, apply_op, other_op, Op, operator, plain,
  isa,
}
use mqss_passes_suite.Quake.Floats.{Floats}
use mqss_passes_suite.Quake.Classical.{
  Bits, measure_operands, classical_bits_from, get_number_of_classical_bits,
}
use mqss_passes_suite.Mapping.Load.{
  load_op, load_all, load_circuit, load_rotation_gates_to_qc, load_x_y_z_gates_to_qc,
  load_s_t_h_gates_to_qc,
}

-- A kernel with every gate's adjoint flag set to `adj`.
abbrev pub with_adj : {F : Type 0} → Bool → Op F → Op F
with_adj adj (operator g) = operator (record g { is_adj = adj })
with_adj adj (plain n) = plain n

module _ {F : Type 0} (fl : Floats F) where
  op-with_adj :
      (adj : Bool) (bits : Bits) (op : Op F)
      → load_op fl bits (with_adj adj op) ≡ load_op fl bits op
  unfolding load_op load_rotation_gates_to_qc load_x_y_z_gates_to_qc load_s_t_h_gates_to_qc isa
  op-with_adj adj bits (operator g) = refl
  op-with_adj adj bits (plain n) = refl

  all-with_adj :
      (adj : Bool) (bits : Bits) (ops : List (Op F))
      → load_all fl bits (map (with_adj adj) ops) ≡ load_all fl bits ops
  unfolding load_all
  all-with_adj adj bits [] = refl
  all-with_adj adj bits (op ∷ ops) = rw (op-with_adj adj bits op, all-with_adj adj bits ops)

  bits-with_adj :
      (adj : Bool) (s : ℕ × Bits) (ops : List (Op F))
      → classical_bits_from s (map (with_adj adj) ops) ≡ classical_bits_from s ops
  unfolding classical_bits_from
  bits-with_adj adj s [] = refl
  bits-with_adj adj s (operator g ∷ ops) = bits-with_adj adj s ops
  bits-with_adj adj s (plain (measure os) ∷ ops) =
      ap (λ f. measure_operands s os >>= f) (fun_ext (λ s'. bits-with_adj adj s' ops))
  bits-with_adj adj s (plain alloca_ref ∷ ops) = bits-with_adj adj s ops
  bits-with_adj adj s (plain (alloca_veq n) ∷ ops) = bits-with_adj adj s ops
  bits-with_adj adj s (plain (extract v i) ∷ ops) = bits-with_adj adj s ops
  bits-with_adj adj s (plain (arith_constant a) ∷ ops) = bits-with_adj adj s ops
  bits-with_adj adj s (plain (apply_op vs) ∷ ops) = bits-with_adj adj s ops
  bits-with_adj adj s (plain other_op ∷ ops) = bits-with_adj adj s ops

  -- The circuit loaded from a kernel does not depend on the adjoint flags of its gates: it is the
  -- same when all of them are set or all of them are cleared.
  pub load_circuit-with_adj :
      (adj : Bool) (circuit : List (Op F))
      → load_circuit fl (map (with_adj adj) circuit) ≡ load_circuit fl circuit
  unfolding load_circuit get_number_of_classical_bits
  load_circuit-with_adj adj circuit = rw (bits-with_adj adj (0, []) circuit) (
      ap (λ f. classical_bits_from (0, []) circuit >>= f)
        (fun_ext (λ bits. rw (all-with_adj adj bits.1 circuit))))
