-- ===== src/Interfaces/GatesMap.antt =====
-- lib/Interfaces/GatesMap.cpp: the gates that a QASM gate call inserts, by its identifier. Every
-- call is modelled with its own arguments: the table of closures is built once, but a closure is
-- read as if it captured the arguments of the call at hand.
use mqss_passes_suite.Base.{
  ℕ, Bool, ◌&&◌, ◌==◌, if◌then◌else◌, List, [], ◌∷◌, length, Result, ok, fault, failed_assertion,
}
use mqss_passes_suite.Quake.Ops.{
  GateKind, x_op, y_op, z_op, h_op, s_op, t_op, r1_op, rx_op, ry_op, rz_op, u3_op, swap_op, Value,
  Parameter, Op, operator,
}

-- The keys of the table; `big_u` and `big_cx` are "U" and "CX", `unknown` is every other string.
pub data GateId : Type 0 where
  gphase_id xx_minus_yy_id xx_plus_yy_id teleport_id iswap_id iswapdg_id ryy_id unknown_id : GateId
  x_id y_id z_id h_id s_id sdg_id t_id tdg_id sx_id sxdg_id rx_id ry_id rz_id p_id phase_id : GateId
  ch_id cx_id big_cx_id cy_id cz_id ccx_id crx_id cry_id cp_id cphase_id cu1_id cu3_id : GateId
  swap_id cswap_id id_id u_id big_u_id u1_id u2_id u3_id : GateId
  rccx_id rxx_id rzz_id rzx_id dcx_id ecr_id : GateId

-- A row whose closure asserts three sizes and creates one operation from its arguments.
pub record Row : Type 0 where
  pub kind : GateKind
  pub num_params : ℕ
  pub num_controls : ℕ
  pub num_targets : ℕ

-- What the table does for an identifier.
pub data Entry : Type 0 where
  one_gate : Row → Entry
  adjoint : Row → Entry
  decomposed : Entry
  unsupported : Entry

unfoldable pub entry : GateId → Entry
entry x_id = one_gate (record { kind = x_op; num_params = 0; num_controls = 0; num_targets = 1 })
entry y_id = one_gate (record { kind = y_op; num_params = 0; num_controls = 0; num_targets = 1 })
entry z_id = one_gate (record { kind = z_op; num_params = 0; num_controls = 0; num_targets = 1 })
entry h_id = one_gate (record { kind = h_op; num_params = 0; num_controls = 0; num_targets = 1 })
entry ch_id = one_gate (record { kind = h_op; num_params = 0; num_controls = 1; num_targets = 1 })
entry s_id = one_gate (record { kind = s_op; num_params = 0; num_controls = 0; num_targets = 1 })
entry sdg_id = adjoint (record { kind = s_op; num_params = 0; num_controls = 0; num_targets = 1 })
entry t_id = one_gate (record { kind = t_op; num_params = 0; num_controls = 0; num_targets = 1 })
entry tdg_id = adjoint (record { kind = t_op; num_params = 0; num_controls = 0; num_targets = 1 })
entry rx_id = one_gate (record { kind = rx_op; num_params = 1; num_controls = 0; num_targets = 1 })
entry rz_id = one_gate (record { kind = rz_op; num_params = 1; num_controls = 0; num_targets = 1 })
entry crx_id = one_gate (record { kind = rx_op; num_params = 1; num_controls = 1; num_targets = 1 })
entry ry_id = one_gate (record { kind = ry_op; num_params = 1; num_controls = 0; num_targets = 1 })
entry cry_id = one_gate (record { kind = ry_op; num_params = 1; num_controls = 1; num_targets = 1 })
entry p_id = one_gate (record { kind = rz_op; num_params = 1; num_controls = 0; num_targets = 1 })
entry phase_id =
    one_gate (record { kind = rz_op; num_params = 1; num_controls = 0; num_targets = 1 })
entry cx_id = one_gate (record { kind = x_op; num_params = 0; num_controls = 1; num_targets = 1 })
entry big_cx_id =
    one_gate (record { kind = x_op; num_params = 0; num_controls = 1; num_targets = 1 })
entry ccx_id = one_gate (record { kind = x_op; num_params = 0; num_controls = 2; num_targets = 1 })
entry cy_id = one_gate (record { kind = y_op; num_params = 0; num_controls = 1; num_targets = 1 })
entry cz_id = one_gate (record { kind = z_op; num_params = 0; num_controls = 1; num_targets = 1 })
entry swap_id =
    one_gate (record { kind = swap_op; num_params = 0; num_controls = 0; num_targets = 2 })
entry u1_id = one_gate (record { kind = r1_op; num_params = 1; num_controls = 0; num_targets = 1 })
entry cu1_id = one_gate (record { kind = r1_op; num_params = 1; num_controls = 1; num_targets = 1 })
entry u3_id = one_gate (record { kind = u3_op; num_params = 3; num_controls = 0; num_targets = 1 })
entry cu3_id = one_gate (record { kind = u3_op; num_params = 3; num_controls = 1; num_targets = 1 })
entry cswap_id =
    one_gate (record { kind = swap_op; num_params = 0; num_controls = 1; num_targets = 2 })
entry gphase_id = unsupported
entry xx_minus_yy_id = unsupported
entry xx_plus_yy_id = unsupported
entry teleport_id = unsupported
entry iswap_id = unsupported
entry iswapdg_id = unsupported
entry ryy_id = unsupported
entry unknown_id = unsupported
entry _ = decomposed

abbrev pub Params : Type 0 → Type 0
Params F = List (Parameter F)

module _ {F : Type 0} where
  -- `builder.create<K>(loc, adj, params, controls, targets)`
  abbrev pub gate : GateKind → Bool → Params F → List Value → List Value → Op F
  gate k adj params controls targets = operator (record {
    kind = k;
    is_adj = adj;
    parameters = params;
    controls = controls;
    targets = targets;
  })

  unfoldable pub has_sizes : Row → Params F → List Value → List Value → Bool
  has_sizes row params controls targets =
      length params == row.num_params
      && length controls == row.num_controls
      && length targets == row.num_targets

  unfoldable pub insert_row : Row → Bool → Params F → List Value → List Value → Result (List (Op F))
  unfolding has_sizes
  insert_row row adj params controls targets =
      if has_sizes row params controls targets
      then ok (gate row.kind adj params controls targets ∷ [])
      else fault failed_assertion
