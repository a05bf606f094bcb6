-- ===== src/Mapping/Examples.antt =====
-- Runs of lib/Passes/Transforms/QuakeQMap.cpp on small kernels.
use mqss_passes_suite.Base.{ℕ, ◌≡◌, refl, true, false, List, [], ◌∷◌, map, All, ok, Post}
use mqss_passes_suite.Quake.Ops.{u3_op, x_op, h_op, rx_op, constant, operator, extract_ref}
use mqss_passes_suite.Quake.Query.{get_number_of_qubits}
use mqss_passes_suite.Quake.Classical.{find, put}
use mqss_passes_suite.Quake.Examples.{numbers, bell}
use mqss_passes_suite.Mapping.Load.{
  Call, rotation, single, controlled, measure_bit, load_circuit, load_op,
}
use mqss_passes_suite.Mapping.Rebuild.{Mapped, rebuild, quake_q_map}
use mqss_passes_suite.Mapping.Loaded.{with_adj, load_circuit-with_adj}
use mqss_passes_suite.Mapping.MissingKey.{NoMissingKey, load_circuit-NoMissingKey}
use mqss_passes_suite.Mapping.Circuit.{mapped_all, bits_after, IsSaid}
use mqss_passes_suite.Mapping.RoundTrip.{load_circuit-rebuild}
use mqss_passes_suite.Mapping.Qubits.{Extracts, named_qubits, quake_q_map-Extracts}

abbrev bell_calls : List (Call ℕ)
bell_calls = single h_op 0 ∷ controlled x_op 0 1 ∷ measure_bit 1 0 ∷ measure_bit 0 1 ∷ []

bell_loaded : load_circuit numbers bell ≡ ok (2, bell_calls)
unfolding load_circuit
bell_loaded = refl

with_adj_example : load_circuit numbers (map (with_adj true) bell) ≡ load_circuit numbers bell
with_adj_example = load_circuit-with_adj numbers true bell

NoMissingKey-example : NoMissingKey (load_circuit numbers bell)
NoMissingKey-example = load_circuit-NoMissingKey numbers bell

-- A rotation by 3, and the circuit above.
abbrev said : List (Call ℕ)
said = rotation rx_op 3 1 ∷ bell_calls

said-IsSaid : All (IsSaid numbers (bits_after (0, []) said).1) said
unfolding find put
said-IsSaid = ((refl, refl, refl), (refl, (refl, (refl, (refl, tt)))))

rebuild_example :
    load_circuit numbers (rebuild numbers 2 (mapped_all said))
    ≡ ok ((bits_after (0, []) said).0, said)
rebuild_example = load_circuit-rebuild numbers 2 said said-IsSaid

-- A mapper that leaves the circuit as it is.
abbrev same_circuit : ℕ → ℕ → List (Call ℕ) → List (Mapped ℕ)
same_circuit qubits bits calls = mapped_all calls

Extracts-example :
    Post ⊥
      (Extracts
        (get_number_of_qubits bell)
        (named_qubits (same_circuit (get_number_of_qubits bell) 2 bell_calls)))
      (quake_q_map numbers same_circuit true bell)
Extracts-example = quake_q_map-Extracts numbers same_circuit bell 2 bell_calls bell_loaded

-- A gate of another class adds nothing to the circuit.
u3_dropped :
    load_op numbers [] (
      operator (record {
        kind = u3_op;
        is_adj = false;
        parameters = constant 1 ∷ constant 2 ∷ constant 3 ∷ [];
        controls = [];
        targets = extract_ref 0 0 ∷ [];
      }))
    ≡ ok []
unfolding load_op
u3_dropped = refl
