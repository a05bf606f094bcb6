-- ===== src/Quake/Count.antt =====
-- The number of qubits of a kernel in parts (getNumberOfQubits of
-- lib/Support/CodeGen/Quake/QuakeOperations.cpp).
use mqss_passes_suite.Base.{◌+◌, ◌≡◌, List, [], ◌∷◌, ◌++◌, arith}
use mqss_passes_suite.Quake.Ops.{Op}
use mqss_passes_suite.Quake.Query.{get_number_of_qubits}

pub count-append :
    {F : Type 0} (xs ys : List (Op F))
    → get_number_of_qubits (xs ++ ys) ≡ get_number_of_qubits xs + get_number_of_qubits ys
unfolding get_number_of_qubits
count-append [] ys = ground arith
count-append (x ∷ xs) ys = ground (arith, count-append xs ys)
