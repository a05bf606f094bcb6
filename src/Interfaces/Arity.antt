-- ===== src/Interfaces/Arity.antt =====
-- The gate calls of lib/Interfaces: how operands become controls and targets, and what the
-- table of gates asserts of them.
use mqss_passes_suite.Base.{
  ℕ, zero, suc, ◌+◌, ◌≡◌, refl, ap, sym, subst, Post, ◌∙◌, Bool, List, [], ◌∷◌, ◌++◌, map, length,
  none, some, ok, arith, ==_iff,
}
use mqss_passes_suite.Quake.Ops.{
  GateKind, Value, extract_ref, Parameter, constant, Gate, Op, operator, plain, extract,
  arith_constant,
}
use mqss_passes_suite.Quake.Floats.{Floats, create_float_value}
use mqss_passes_suite.Interfaces.GatesMap.{
  GateId, Row, Entry, one_gate, adjoint, decomposed, unsupported, entry, has_sizes, insert_row,
  gate,
}
use mqss_passes_suite.Interfaces.Decomposed.{insert_qasm_gate_into_quake_module, insert_entry}
use mqss_passes_suite.Interfaces.Qasm.{
  Expression, QubitRef, Modifier, ctrl, other_modifier, GateCall,
}
use mqss_passes_suite.Interfaces.QasmToQuake.{
  QasmVectors, modifier_controls, has_dg, controls_of_call, qubits_of, controls_part, targets_part,
}
use mqss_passes_suite.Interfaces.Program.{evaluate_all, extract_ops, insert_gate}

modifiers_same : (n : ℕ) (ms : List Modifier) → modifier_controls n ms ≡ n
unfolding modifier_controls
modifiers_same n [] = refl
modifiers_same n (ctrl (some k) ∷ ms) = refl
modifiers_same n (ctrl none ∷ ms) = modifiers_same n ms
modifiers_same n (other_modifier ∷ ms) = modifiers_same n ms

-- The number of controls is the one that the table asserts.
abbrev pub ControlsFit : Entry → ℕ → Type 0
ControlsFit (one_gate row) n = n ≡ row.num_controls
ControlsFit (adjoint row) n = n ≡ row.num_controls
ControlsFit decomposed n = Unit
ControlsFit unsupported n = Unit

plain_call : (g : GateId) → ControlsFit (entry g) (controls_of_call g [])
unfolding entry controls_of_call
plain_call = ground arith

any_call : (g : GateId) (ms : List Modifier) → controls_of_call g ms ≡ controls_of_call g []
unfolding controls_of_call
any_call g ms = simp (modifiers_same 0 ms)

-- For a gate that the table makes one operation of, insertGate takes as many operands for controls
-- as the table asserts there are, with any modifiers.
pub controls-ControlsFit :
    (g : GateId) (ms : List Modifier) → ControlsFit (entry g) (controls_of_call g ms)
controls-ControlsFit g ms = rw (any_call g ms) (plain_call g)

controls_row :
    (g : GateId) (ms : List Modifier) (row : Row)
    → entry g ≡ one_gate row
    → controls_of_call g ms ≡ row.num_controls
controls_row g ms row e =
    subst (λ x. ControlsFit x (controls_of_call g ms)) e (controls-ControlsFit g ms)

length-controls :
    (c t : ℕ) (qs : List (ℕ × ℕ)) → length qs ≡ c + t → length (controls_part c qs) ≡ c
unfolding controls_part
length-controls zero t qs h = refl
length-controls (suc c) t [] h = ground arith
length-controls (suc c) t (q ∷ qs) h = ap suc (length-controls c t qs (ground arith))

length-targets : (c t : ℕ) (qs : List (ℕ × ℕ)) → length qs ≡ c + t → length (targets_part c qs) ≡ t
unfolding targets_part
length-targets zero t [] h = ground arith
length-targets zero zero (q ∷ qs) h = ground arith
length-targets zero (suc t) (q ∷ qs) h = ap suc (length-targets zero t qs (ground arith))
length-targets (suc c) t [] h = ground arith
length-targets (suc c) t (q ∷ qs) h = length-targets c t qs (ground arith)

length-constants :
    {F : Type 0} (bs : List F) → length {A = Parameter F} (map constant bs) ≡ length bs
length-constants [] = refl
length-constants (b ∷ bs) = ap suc (length-constants bs)

-- The operand of a gate that is a qubit of a vector.
abbrev pub operand : ℕ × ℕ → Value
operand q = extract_ref q.0 q.1

-- The controls and the targets together are all operands, in their order.
all_operands :
    (c t : ℕ) (qs : List (ℕ × ℕ))
    → length qs ≡ c + t
    → controls_part c qs ++ targets_part c qs ≡ map operand qs
unfolding controls_part targets_part
all_operands zero t [] h = refl
all_operands zero zero (q ∷ qs) h = ground arith
all_operands zero (suc t) (q ∷ qs) h =
    ap (λ vs. operand q ∷ vs) (all_operands zero t qs (ground arith))
all_operands (suc c) t [] h = ground arith
all_operands (suc c) t (q ∷ qs) h = ap (λ vs. operand q ∷ vs) (all_operands c t qs (ground arith))

extract_ops_lem :
    {F : Type 0} (qs : List (ℕ × ℕ))
    → extract_ops {F = F} qs ≡ map (λ q. plain (extract q.0 q.1)) qs
unfolding extract_ops
extract_ops_lem [] = refl
extract_ops_lem (q ∷ qs) = ap (λ ops. plain (extract q.0 q.1) ∷ ops) (extract_ops_lem qs)

module _ {F : Type 0} where
  -- A gate with these parts, where the operands are the controls and behind them the targets.
  abbrev pub IsGateOf : GateKind → Bool → List F → ℕ → List (ℕ × ℕ) → Gate F → Type 0
  IsGateOf kind adj values num_controls qubits g =
      (g.kind ≡ kind)
      × (g.is_adj ≡ adj)
      × (g.parameters ≡ map constant values)
      × (length g.controls ≡ num_controls)
      × (g.controls ++ g.targets ≡ map operand qubits)

  -- A constant for each value, a reference for each operand, and the gate.
  abbrev pub Inserts : GateKind → Bool → List F → ℕ → List (ℕ × ℕ) → List (Op F) → Type 0
  Inserts kind adj values num_controls qubits ops =
      (g : Gate F) × ((ops
          ≡ map (λ a. plain (arith_constant a)) values
            ++ (map (λ q. plain (extract q.0 q.1)) qubits ++ operator g ∷ []))
        × IsGateOf kind adj values num_controls qubits g)

module _ {F : Type 0} (fl : Floats F) where
  one_entry :
      (g : GateId) (row : Row) (adj : Bool) (ps : List (Parameter F)) (cs ts : List Value)
      → entry g ≡ one_gate row
      → length ps ≡ row.num_params
      → length cs ≡ row.num_controls
      → length ts ≡ row.num_targets
      → insert_qasm_gate_into_quake_module fl g adj ps cs ts ≡ ok (gate row.kind adj ps cs ts ∷ [])
  unfolding insert_qasm_gate_into_quake_module insert_entry insert_row has_sizes
  one_entry g row adj ps cs ts e hp hc ht = rw e (
      ground (
        arith,
        ==_iff (length ps) row.num_params,
        ==_iff (length cs) row.num_controls,
        ==_iff (length ts) row.num_targets,
      ))

  inserted_ops :
      (call : GateCall F) (vectors : QasmVectors) (row : Row) (values : List F)
      (qubits : List (ℕ × ℕ))
      → entry call.gate_id ≡ one_gate row
      → evaluate_all fl call.arguments ≡ ok values
      → qubits_of vectors call.operands ≡ ok qubits
      → length values ≡ row.num_params
      → length qubits ≡ row.num_controls + row.num_targets
      → insert_gate fl call vectors
        ≡ ok (
            map (create_float_value fl) values
            ++ (extract_ops qubits
                ++ (gate row.kind
                      (has_dg call.gate_id)
                      (map constant values)
                      (controls_part row.num_controls qubits)
                      (targets_part row.num_controls qubits)
                    ∷ [])))
  unfolding insert_gate
  inserted_ops call vectors row values qubits e ev eq hp hq = simp (
    ev,
    eq,
    controls_row call.gate_id call.modifiers row e,
    one_entry call.gate_id row (has_dg call.gate_id) (map constant values)
        (controls_part row.num_controls qubits) (targets_part row.num_controls qubits) e
        (length-constants values ∙ hp) (length-controls row.num_controls row.num_targets qubits hq)
        (length-targets row.num_controls row.num_targets qubits hq),
  )

  -- A gate call whose arguments have the values `values`, whose operands are the qubits `qubits`,
  -- and whose identifier the table makes one operation of, inserts a constant for each value, a
  -- reference for each operand, and that operation, if there are as many values and operands as
  -- the table asserts. The operation has the values as parameters and, in their order, the
  -- operands, of which as many as the table asserts are controls and the others are targets.
  pub insert_gate_lem :
      (call : GateCall F) (vectors : QasmVectors) (row : Row) (values : List F)
      (qubits : List (ℕ × ℕ))
      → entry call.gate_id ≡ one_gate row
      → evaluate_all fl call.arguments ≡ ok values
      → qubits_of vectors call.operands ≡ ok qubits
      → length values ≡ row.num_params
      → length qubits ≡ row.num_controls + row.num_targets
      → Post ⊥
          (Inserts row.kind (has_dg call.gate_id) values row.num_controls qubits)
          (insert_gate fl call vectors)
  insert_gate_lem call vectors row values qubits e ev eq hp hq =
      let g : Gate F = record {
        kind = row.kind;
        is_adj = has_dg call.gate_id;
        parameters = map constant values;
        controls = controls_part row.num_controls qubits;
        targets = targets_part row.num_controls qubits;
      } in
      subst (Post ⊥ (Inserts row.kind (has_dg call.gate_id) values row.num_controls qubits))
        (sym (inserted_ops call vectors row values qubits e ev eq hp hq))
        (
          g,
          (
            ap (λ ops. map (λ a. plain (arith_constant a)) values ++ (ops ++ operator g ∷ []))
                (extract_ops_lem qubits),
            (
              refl,
              refl,
              refl,
              length-controls row.num_controls row.num_targets qubits hq,
              all_operands row.num_controls row.num_targets qubits hq,
            ),
          ),
        )

  -- insertGate ignores the modifiers of a call.
  pub insert_gate-modifiers :
      (g : GateId) (ms : List Modifier) (es : List (Expression F)) (qs : List QubitRef)
      (vectors : QasmVectors)
      → insert_gate fl
          (record { gate_id = g; modifiers = ms; arguments = es; operands = qs })
          vectors
        ≡ insert_gate fl
            (record { gate_id = g; modifiers = []; arguments = es; operands = qs })
            vectors
  unfolding insert_gate
  insert_gate-modifiers g ms es qs vectors = simp (any_call g ms)
