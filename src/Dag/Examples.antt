-- ===== src/Dag/Examples.antt =====
-- The graph of a kernel of two qubits.
use mqss_passes_suite.Base.{◌<◌, ℕ, inl, inr, arith, ◌+◌, ◌≡◌, refl, suc, [], ◌∷◌, All}
use mqss_passes_suite.Quake.Query.{get_indices_of_value_range, get_number_of_qubits}
use mqss_passes_suite.Quake.Examples.{numbers, bell}
use mqss_passes_suite.Dag.Graph.{parse_mlir}
use mqss_passes_suite.Dag.Chain.{wire, IsChain, parse_mlir-IsChain}
use mqss_passes_suite.Dag.Covered.{IsLink, parse_mlir-IsLink}
use mqss_passes_suite.Dag.Whole.{NamesOnce, number_of_gates, IsForwardDag, parse_mlir-IsForwardDag}

bell_edges : (parse_mlir numbers bell).edges ≡ (0, 2) ∷ (1, 3) ∷ (2, 3) ∷ (3, 4) ∷ (3, 4) ∷ []
unfolding parse_mlir
bell_edges = refl

bell-NamesOnce : All NamesOnce bell
unfolding get_indices_of_value_range
bell-NamesOnce = (tt, ((refl, tt), ((refl, (refl, tt)), (tt, (tt, tt)))))

IsForwardDag-example :
    IsForwardDag (suc (get_number_of_qubits bell + number_of_gates bell)) (parse_mlir numbers bell)
IsForwardDag-example = parse_mlir-IsForwardDag numbers bell bell-NamesOnce

IsChain-example :
    IsChain (parse_mlir numbers bell).edges 1 (wire 1 (get_number_of_qubits bell) bell)
unfolding get_number_of_qubits
IsChain-example = parse_mlir-IsChain numbers bell 1 bell-NamesOnce (omega arith)

IsLink-example :
    (q : ℕ) × ((q < get_number_of_qubits bell)
      × IsLink (1, 3) q (wire q (get_number_of_qubits bell) bell))
unfolding parse_mlir
IsLink-example = parse_mlir-IsLink numbers bell (1, 3) bell-NamesOnce (inr (inl refl))
