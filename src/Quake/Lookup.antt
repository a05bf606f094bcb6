-- ===== src/Quake/Lookup.antt =====
-- Look-ups in a `std::map` from qubits, as lib/Support/CodeGen/Quake/QuakeOperations.cpp and
-- lib/Support/DAG/QuakeDAG.cpp use it.
use mqss_passes_suite.Base.{ℕ, ◌≡◌, refl, ◌==◌, if◌then◌else◌, [], ◌∷◌, some, arith}
use mqss_passes_suite.Quake.Classical.{Bits, put, find}

pub find-put :
    (q q' b : ℕ) (bits : Bits) → find q (put q' b bits) ≡ (if q == q' then some b else find q bits)
unfolding put find
find-put q q' b [] = refl
find-put q q' b (e ∷ es) = ground (arith, find-put q q' b es)
