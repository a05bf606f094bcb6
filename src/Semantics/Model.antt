-- ===== src/Semantics/Model.antt =====
-- The quantum states as an interface. The sources do not implement gates: the identities of the
-- circuit that they cite are the laws here. A state is taken up to a global phase.
use mqss_passes_suite.Base.{Bool, not, ◌≡◌, ◌≢◌, List, [], ◌∷◌, All}
use mqss_passes_suite.Quake.Ops.{
  GateKind, x_op, y_op, z_op, h_op, s_op, rx_op, Value, Parameter, NonGate,
}

-- What a gate does, its qubits left out. An adjoint Pauli or Hadamard gate is the gate itself, and
-- the fixed gates take no parameters.
pub data Unitary (F : Type 0) : Type 0 where
  pauli_x pauli_y pauli_z hadamard : Unitary F
  phase_s : Bool → Unitary F
  general : GateKind → Bool → List (Parameter F) → Unitary F

unfoldable pub unitary : {F : Type 0} → GateKind → Bool → List (Parameter F) → Unitary F
unitary x_op adj ps = pauli_x
unitary y_op adj ps = pauli_y
unitary z_op adj ps = pauli_z
unitary h_op adj ps = hadamard
unitary s_op adj ps = phase_s adj
unitary k adj ps = general k adj ps

-- No qubit stands in both lists.
abbrev pub Apart : List Value → List Value → Type 0
Apart qs rs = All (λ q. All (λ r. q ≢ r) rs) qs

pub record Model (F : Type 0) : Type 1 where
  pub State : Type 0
  -- The controls stand before the targets.
  pub apply : Unitary F → List Value → List Value → State → State
  -- Measurements, and calls of other kernels.
  pub observe : NonGate F → State → State
  pub commute :
      (u v : Unitary F) (cs ts ds us : List Value) (s : State)
      → Apart cs ds
      → Apart cs us
      → Apart ts ds
      → Apart ts us
      → apply u cs ts (apply v ds us s) ≡ apply v ds us (apply u cs ts s)
  pub x_x : (q : Value) (s : State) → apply pauli_x [] (q ∷ []) (apply pauli_x [] (q ∷ []) s) ≡ s
  pub y_y : (q : Value) (s : State) → apply pauli_y [] (q ∷ []) (apply pauli_y [] (q ∷ []) s) ≡ s
  pub z_z : (q : Value) (s : State) → apply pauli_z [] (q ∷ []) (apply pauli_z [] (q ∷ []) s) ≡ s
  pub h_h : (q : Value) (s : State) → apply hadamard [] (q ∷ []) (apply hadamard [] (q ∷ []) s) ≡ s
  pub h_x_h :
      (q : Value) (s : State)
      → apply hadamard [] (q ∷ []) (apply pauli_x [] (q ∷ []) (apply hadamard [] (q ∷ []) s))
        ≡ apply pauli_z [] (q ∷ []) s
  pub h_y :
      (q : Value) (s : State)
      → apply hadamard [] (q ∷ []) (apply pauli_y [] (q ∷ []) s)
        ≡ apply pauli_y [] (q ∷ []) (apply hadamard [] (q ∷ []) s)
  pub z_s :
      (adj : Bool) (q : Value) (s : State)
      → apply pauli_z [] (q ∷ []) (apply (phase_s adj) [] (q ∷ []) s)
        ≡ apply (phase_s (not adj)) [] (q ∷ []) s
  pub cx_h_cz_h :
      (c t : Value) (s : State)
      → c ≢ t
      → apply pauli_x (c ∷ []) (t ∷ []) s
        ≡ apply hadamard []
            (t ∷ [])
            (apply pauli_z (c ∷ []) (t ∷ []) (apply hadamard [] (t ∷ []) s))
  pub cz_symm :
      (c t : Value) (s : State)
      → c ≢ t
      → apply pauli_z (c ∷ []) (t ∷ []) s ≡ apply pauli_z (t ∷ []) (c ∷ []) s
  pub cz_cz :
      (c t : Value) (s : State)
      → c ≢ t
      → apply pauli_z (c ∷ []) (t ∷ []) (apply pauli_z (c ∷ []) (t ∷ []) s) ≡ s
  pub cz_z :
      (c t : Value) (s : State)
      → c ≢ t
      → apply pauli_z (c ∷ []) (t ∷ []) (apply pauli_z [] (t ∷ []) s)
        ≡ apply pauli_z [] (t ∷ []) (apply pauli_z (c ∷ []) (t ∷ []) s)
  pub cx_rx :
      (adj : Bool) (ps : List (Parameter F)) (c t : Value) (s : State)
      → c ≢ t
      → apply pauli_x (c ∷ []) (t ∷ []) (apply (general rx_op adj ps) [] (t ∷ []) s)
        ≡ apply (general rx_op adj ps) [] (t ∷ []) (apply pauli_x (c ∷ []) (t ∷ []) s)
