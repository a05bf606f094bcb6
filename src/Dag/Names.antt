-- ===== src/Dag/Names.antt =====
-- The names of vertices (node_map of include/Support/DAG/Quake-DAG.hpp) while a graph is built.
use mqss_passes_suite.Base.{
  ℕ, suc, ◌<◌, ◌≡◌, refl, ◌==◌, ◌&&◌, Bool, true, false, List, [], ◌∷◌, All, none, arith,
}
use mqss_passes_suite.Quake.Ops.{GateKind, same_kind}
use mqss_passes_suite.Dag.Graph.{
  NodeName, qubit_node, gate_node, measurement_node, same_node, find_node,
}

-- The names of the gates before number `idx`, and those of the qubits below `n`.
abbrev pub IsBefore : ℕ → NodeName × ℕ → Type 0
IsBefore idx (qubit_node i, v) = Unit
IsBefore idx (gate_node k j, v) = j < idx
IsBefore idx (measurement_node, v) = ⊥

abbrev pub IsQubitBelow : ℕ → NodeName × ℕ → Type 0
IsQubitBelow n (qubit_node i, v) = i < n
IsQubitBelow n (gate_node k j, v) = ⊥
IsQubitBelow n (measurement_node, v) = ⊥

pub new_gate :
    (k : GateKind) (idx : ℕ) (es : List (NodeName × ℕ))
    → All (IsBefore idx) es
    → find_node (gate_node k idx) es ≡ none
unfolding find_node same_node
new_gate k idx [] h = refl
new_gate k idx ((qubit_node i, v) ∷ es) h = new_gate k idx es h.1
new_gate k idx ((gate_node l j, v) ∷ es) h =
    let differs : (idx == j) ≡ false = ground (arith, h.0) in
    rw (differs, and_false (same_kind k l)) (new_gate k idx es h.1)
  where
    and_false : (b : Bool) → (b && false) ≡ false
    and_false true = refl
    and_false false = refl
new_gate k idx ((measurement_node, v) ∷ es) h = absurd h.0

pub new_measurement :
    (idx : ℕ) (es : List (NodeName × ℕ))
    → All (IsBefore idx) es
    → find_node measurement_node es ≡ none
unfolding find_node same_node
new_measurement idx [] h = refl
new_measurement idx ((qubit_node i, v) ∷ es) h = new_measurement idx es h.1
new_measurement idx ((gate_node l j, v) ∷ es) h = new_measurement idx es h.1
new_measurement idx ((measurement_node, v) ∷ es) h = absurd h.0

pub new_qubit :
    (n : ℕ) (es : List (NodeName × ℕ))
    → All (IsQubitBelow n) es
    → find_node (qubit_node n) es ≡ none
unfolding find_node same_node
new_qubit n [] h = refl
new_qubit n ((qubit_node i, v) ∷ es) h =
    let differs : (n == i) ≡ false = ground (arith, h.0) in rw differs (new_qubit n es h.1)
new_qubit n ((gate_node k j, v) ∷ es) h = absurd h.0
new_qubit n ((measurement_node, v) ∷ es) h = absurd h.0

-- A name of before stays one.
pub IsBefore-later : (idx : ℕ) (e : NodeName × ℕ) → IsBefore idx e → IsBefore (suc idx) e
IsBefore-later idx (qubit_node i, v) h = tt
IsBefore-later idx (gate_node k j, v) h = omega arith
IsBefore-later idx (measurement_node, v) h = absurd h

pub IsQubitBelow-later : (n : ℕ) (e : NodeName × ℕ) → IsQubitBelow n e → IsQubitBelow (suc n) e
IsQubitBelow-later n (qubit_node i, v) h = omega arith
IsQubitBelow-later n (gate_node k j, v) h = absurd h
IsQubitBelow-later n (measurement_node, v) h = absurd h

pub IsBefore-qubit : (n : ℕ) (e : NodeName × ℕ) → IsQubitBelow n e → IsBefore 0 e
IsBefore-qubit n (qubit_node i, v) h = tt
IsBefore-qubit n (gate_node k j, v) h = absurd h
IsBefore-qubit n (measurement_node, v) h = absurd h
