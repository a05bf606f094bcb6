-- ===== src/Interfaces/Decomposed.antt =====
-- lib/Interfaces/GatesMap.cpp: the gates of the table that are not operations of Quake, and the
-- look-up in it. A constant created for a gate is emitted before it.
use mqss_passes_suite.Base.{
  pos, negsuc, Bool, true, false, List, [], ◌∷◌, ◌++◌, Result, ok, fault, failed_assertion,
}
use mqss_passes_suite.Quake.Ops.{
  x_op, h_op, r1_op, rx_op, ry_op, rz_op, u3_op, Value, Parameter, constant, Op,
}
use mqss_passes_suite.Quake.Floats.{Floats, create_float_value, extract_double_argument_value}
use mqss_passes_suite.Interfaces.GatesMap.{
  GateId, sx_id, sxdg_id, cp_id, cphase_id, id_id, u_id, big_u_id, u2_id, rccx_id, rxx_id, rzz_id,
  rzx_id, dcx_id, ecr_id, Entry, one_gate, adjoint, decomposed, unsupported, entry, Params, gate,
  insert_row,
}

module _ {F : Type 0} (fl : Floats F) where
  -- The product of the literal -1 and a number.
  abbrev minus : F → F
  minus a = fl.multiply (fl.of_int (negsuc 0)) a

  -- "U" and "u"
  unfoldable pub insert_u : Bool → Params F → List Value → List Value → Result (List (Op F))
  insert_u adj (a ∷ b ∷ c ∷ []) [] (t ∷ []) = ok (
      gate rz_op adj (c ∷ []) [] (t ∷ [])
      ∷ gate ry_op adj (a ∷ []) [] (t ∷ [])
      ∷ gate rz_op adj (b ∷ []) [] (t ∷ [])
      ∷ [])
  insert_u _ _ _ _ = fault failed_assertion

  -- "sx" and "sxdg", whose operation is not adjoint.
  unfoldable pub insert_sx : Bool → Params F → List Value → List Value → Result (List (Op F))
  insert_sx adj [] [] (t ∷ []) = ok (
      create_float_value fl fl.half_pi ∷ gate rx_op adj (constant fl.half_pi ∷ []) [] (t ∷ []) ∷ [])
  insert_sx _ _ _ _ = fault failed_assertion

  unfoldable pub insert_sxdg : Params F → List Value → List Value → Result (List (Op F))
  insert_sxdg [] [] (t ∷ []) = ok (
      create_float_value fl (minus fl.half_pi)
      ∷ gate rx_op false (constant (minus fl.half_pi) ∷ []) [] (t ∷ [])
      ∷ [])
  insert_sxdg _ _ _ = fault failed_assertion

  -- "cp" and "cphase"
  unfoldable pub insert_cp : Bool → Params F → List Value → List Value → Result (List (Op F))
  unfolding extract_double_argument_value
  insert_cp adj (a ∷ []) (c ∷ []) (t ∷ []) =
      let angle = extract_double_argument_value fl a in
      let half = fl.divide angle (fl.of_int (pos 2)) in
      let minus_half = fl.divide (minus angle) (fl.of_int (pos 2)) in
      ok (
        create_float_value fl half
        ∷ create_float_value fl minus_half
        ∷ gate rz_op adj (constant half ∷ []) [] (c ∷ [])
        ∷ gate x_op adj [] (c ∷ []) (t ∷ [])
        ∷ gate rz_op adj (constant minus_half ∷ []) [] (t ∷ [])
        ∷ gate x_op adj [] (c ∷ []) (t ∷ [])
        ∷ gate rz_op adj (constant half ∷ []) [] (t ∷ [])
        ∷ [])
  insert_cp _ _ _ _ = fault failed_assertion

  unfoldable pub insert_u2 : Bool → Params F → List Value → List Value → Result (List (Op F))
  insert_u2 adj (a ∷ b ∷ []) [] (t ∷ []) = ok (
      create_float_value fl fl.half_pi
      ∷ gate rz_op adj (b ∷ []) [] (t ∷ [])
      ∷ gate ry_op adj (constant fl.half_pi ∷ []) [] (t ∷ [])
      ∷ gate rz_op adj (a ∷ []) [] (t ∷ [])
      ∷ [])
  insert_u2 _ _ _ _ = fault failed_assertion

  -- "rccx" asserts nothing: it reads the first three targets.
  unfoldable pub insert_rccx : Bool → Params F → List Value → List Value → Result (List (Op F))
  insert_rccx adj params controls (a ∷ b ∷ c ∷ _) =
      let zero_value = fl.of_int (pos 0) in
      let minus_q_pi = minus fl.quarter_pi in
      let u2 =
        gate rz_op adj (constant fl.pi ∷ []) controls (c ∷ [])
        ∷ gate ry_op adj (constant fl.half_pi ∷ []) controls (c ∷ [])
        ∷ gate rz_op adj (constant zero_value ∷ []) controls (c ∷ [])
        ∷ [] in
      ok (
        (create_float_value fl zero_value
          ∷ create_float_value fl fl.pi
          ∷ create_float_value fl fl.half_pi
          ∷ create_float_value fl fl.quarter_pi
          ∷ create_float_value fl minus_q_pi
          ∷ [])
        ++ (u2
            ++ (gate r1_op adj (constant fl.quarter_pi ∷ []) controls (c ∷ [])
                ∷ gate x_op adj params (b ∷ []) (c ∷ [])
                ∷ gate r1_op adj (constant minus_q_pi ∷ []) controls (c ∷ [])
                ∷ gate x_op adj params (a ∷ []) (c ∷ [])
                ∷ gate r1_op adj (constant fl.quarter_pi ∷ []) controls (c ∷ [])
                ∷ gate x_op adj params (b ∷ []) (c ∷ [])
                ∷ gate r1_op adj (constant minus_q_pi ∷ []) controls (c ∷ [])
                ∷ u2)))
  insert_rccx _ _ _ _ = fault failed_assertion

  unfoldable pub insert_rxx : Bool → Params F → List Value → List Value → Result (List (Op F))
  unfolding extract_double_argument_value
  insert_rxx adj (angle ∷ []) [] (a ∷ b ∷ []) =
      let zero_value = fl.of_int (pos 0) in
      let minus_pi = minus fl.pi in
      let value = extract_double_argument_value fl angle in
      let minus_angle = minus value in
      let pi_minus_angle = fl.subtract fl.pi value in
      ok (
        create_float_value fl zero_value
        ∷ create_float_value fl fl.half_pi
        ∷ create_float_value fl fl.pi
        ∷ create_float_value fl minus_pi
        ∷ create_float_value fl minus_angle
        ∷ create_float_value fl pi_minus_angle
        ∷ gate u3_op adj (constant fl.half_pi ∷ angle ∷ constant zero_value ∷ []) [] (a ∷ [])
        ∷ gate h_op adj [] [] (b ∷ [])
        ∷ gate x_op adj [] (a ∷ []) (b ∷ [])
        ∷ gate r1_op adj (constant minus_angle ∷ []) [] (b ∷ [])
        ∷ gate x_op adj [] (a ∷ []) (b ∷ [])
        ∷ gate rz_op adj (constant pi_minus_angle ∷ []) [] (a ∷ [])
        ∷ gate ry_op adj (constant fl.half_pi ∷ []) [] (a ∷ [])
        ∷ gate rz_op adj (constant minus_pi ∷ []) [] (a ∷ [])
        ∷ gate h_op adj [] [] (b ∷ [])
        ∷ [])
  insert_rxx _ _ _ _ = fault failed_assertion

  unfoldable pub insert_rzz : Bool → Params F → List Value → List Value → Result (List (Op F))
  insert_rzz adj (angle ∷ []) [] (a ∷ b ∷ []) = ok (
      gate x_op adj [] (a ∷ []) (b ∷ [])
      ∷ gate r1_op adj (angle ∷ []) [] (b ∷ [])
      ∷ gate x_op adj [] (a ∷ []) (b ∷ [])
      ∷ [])
  insert_rzz _ _ _ _ = fault failed_assertion

  -- The operations of "rzx", with the angle given.
  abbrev rzx_gates : Bool → Parameter F → Value → Value → List (Op F)
  rzx_gates adj angle a b =
      gate h_op adj [] [] (b ∷ [])
      ∷ gate x_op adj [] (a ∷ []) (b ∷ [])
      ∷ gate rz_op adj (angle ∷ []) [] (b ∷ [])
      ∷ gate x_op adj [] (a ∷ []) (b ∷ [])
      ∷ gate h_op adj [] [] (b ∷ [])
      ∷ []

  unfoldable pub insert_rzx : Bool → Params F → List Value → List Value → Result (List (Op F))
  insert_rzx adj (angle ∷ []) [] (a ∷ b ∷ []) = ok (rzx_gates adj angle a b)
  insert_rzx _ _ _ _ = fault failed_assertion

  unfoldable pub insert_dcx : Bool → Params F → List Value → List Value → Result (List (Op F))
  insert_dcx adj [] [] (a ∷ b ∷ []) =
      ok (gate x_op adj [] (a ∷ []) (b ∷ []) ∷ gate x_op adj [] (b ∷ []) (a ∷ []) ∷ [])
  insert_dcx _ _ _ _ = fault failed_assertion

  unfoldable pub insert_ecr : Bool → Params F → List Value → List Value → Result (List (Op F))
  insert_ecr adj [] [] (a ∷ b ∷ []) =
      let minus_q_pi = minus fl.quarter_pi in
      ok (
        create_float_value fl fl.quarter_pi
        ∷ create_float_value fl minus_q_pi
        ∷ create_float_value fl fl.pi
        ∷ (rzx_gates adj (constant fl.quarter_pi) a b
            ++ (gate rx_op adj (constant fl.pi ∷ []) [] (a ∷ [])
                ∷ rzx_gates adj (constant minus_q_pi) a b)))
  insert_ecr _ _ _ _ = fault failed_assertion

  unfoldable pub insert_decomposed :
      GateId → Bool → Params F → List Value → List Value → Result (List (Op F))
  unfolding insert_u insert_sx insert_sxdg insert_cp insert_u2 insert_rccx insert_rxx insert_rzz
      insert_rzx insert_dcx insert_ecr
  insert_decomposed big_u_id adj ps cs ts = insert_u adj ps cs ts
  insert_decomposed u_id adj ps cs ts = insert_u adj ps cs ts
  insert_decomposed sx_id adj ps cs ts = insert_sx adj ps cs ts
  insert_decomposed sxdg_id adj ps cs ts = insert_sxdg ps cs ts
  insert_decomposed cp_id adj ps cs ts = insert_cp adj ps cs ts
  insert_decomposed cphase_id adj ps cs ts = insert_cp adj ps cs ts
  insert_decomposed id_id adj ps cs ts = ok []
  insert_decomposed u2_id adj ps cs ts = insert_u2 adj ps cs ts
  insert_decomposed rccx_id adj ps cs ts = insert_rccx adj ps cs ts
  insert_decomposed rxx_id adj ps cs ts = insert_rxx adj ps cs ts
  insert_decomposed rzz_id adj ps cs ts = insert_rzz adj ps cs ts
  insert_decomposed rzx_id adj ps cs ts = insert_rzx adj ps cs ts
  insert_decomposed dcx_id adj ps cs ts = insert_dcx adj ps cs ts
  insert_decomposed ecr_id adj ps cs ts = insert_ecr adj ps cs ts
  insert_decomposed _ adj ps cs ts = fault failed_assertion

  unfoldable pub insert_entry :
      Entry → GateId → Bool → Params F → List Value → List Value → Result (List (Op F))
  unfolding insert_row insert_decomposed
  insert_entry (one_gate row) gate_id adj ps cs ts = insert_row row adj ps cs ts
  insert_entry (adjoint row) gate_id adj ps cs ts = insert_row row true ps cs ts
  insert_entry decomposed gate_id adj ps cs ts = insert_decomposed gate_id adj ps cs ts
  insert_entry unsupported gate_id adj ps cs ts = fault failed_assertion

  -- insertQASMGateIntoQuakeModule
  unfoldable pub insert_qasm_gate_into_quake_module :
      GateId → Bool → Params F → List Value → List Value → Result (List (Op F))
  unfolding entry insert_entry
  insert_qasm_gate_into_quake_module gate_id = insert_entry (entry gate_id) gate_id
