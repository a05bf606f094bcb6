-- ===== src/Lib.antt =====
-- The MQSS passes suite rewrites quantum kernels of the Quake dialect of MLIR, and turns QASM
-- programs into such kernels. This library models the passes that rewrite gates, the insertion
-- of QASM programs, the mapping to a device, the printing of pictures, the graph of a kernel and
-- the translation to linear algebra, and states what they do: to the meaning of a kernel, where
-- they rewrite its gates, and to its qubits, bits and types otherwise.
--
-- A kernel is the list of operations of one block. A gate (Quake/Ops) has a class, an adjoint
-- flag, parameters, controls and targets; a qubit operand is a `quake.extract_ref` with its vector
-- and index, or a result of another operation, whose index the code reads as -1. The operations
-- before the current one are kept with the nearest first.
--
-- Base: names that the modules share; `Result` with the faults that C++ leaves undefined or that
--   stop the program, and postconditions of results.
-- Quake/Ops, Quake/Floats, Quake/Query, Quake/Classical:
--   lib/Support/CodeGen/Quake/QuakeOperations.cpp, with extractIndexFromQuakeExtractRefOp,
--   getIndicesOfValueRange, getPreviousOperationOnTarget,
--   getNextOperationOnTarget, getNumberOfQubits and getNumberOfClassicalBits.
-- Passes/Walk: `kernel.walk` in operationsOnQuantumKernel of each pass: the callback gets the
--   operations before the current one and gives what stands before the next one.
-- Passes/Module: include/Passes/BaseMQSSPass.hpp: the walk over a module for its kernels, and the
--   pass on each.
-- Passes/Patterns: include/Support/Transforms (patternCancellation, commuteOperation,
--   patternSwitch).
-- Passes/Transforms, Passes/Decompositions: the passes of lib/Passes/Transforms and
--   lib/Passes/Decompositions, one callback for each.
-- Passes/Rotations: CancellationNullRotation and NormalizeArgAngle, on the angles of rotations.
-- Passes/Custom: lib/Passes/Examples/CustomExample.cpp, on a module.
-- Passes/Levels: lib/Optimizer/OptimizationLevels.cpp; the canonicalizer of MLIR is a parameter.
-- Semantics: what the gates mean. Semantics/Model is a record of states, an action of the gates
--   and the laws of gates that the passes rely on; Semantics/Tableau is an instance, the Pauli
--   strings with signs, on which the Clifford gates act by conjugation and other gates not at all.
-- Soundness: the passes against the meaning of a kernel, and the faults they may meet.
--   Soundness/Steps is the step relation of passes that run one after another on a kernel,
--   Soundness/Optimizer has passes that run on a module, as MLIR runs them.
-- Interfaces: lib/Interfaces/GatesMap.cpp, lib/Interfaces/QASMToQuake.cpp and the pass
--   lib/Passes/CodeGen/QASM3ToQuake.cpp. The parsed program is data (Interfaces/Qasm), the
--   arithmetic of floating-point numbers a parameter (Quake/Floats).
-- Tikz: lib/Passes/CodeGen/QuakeToTikz.cpp. A picture is a row of cells for each qubit
--   (Tikz/Draw, dumpQuakeOperationToTikz); its text is a list of pieces (Tikz/Print).
-- Mapping: lib/Passes/Transforms/QuakeQMap.cpp. Mapping/Load makes the calls on a circuit of QMAP,
--   Mapping/Rebuild the kernel of the mapped circuit; the mapper is a parameter.
-- Dag: lib/Support/DAG/QuakeDAG.cpp. Dag/Graph builds the graph of a kernel: get_or_add_node and
--   parse_mlir; Dag/Chain and Dag/Covered are about the paths of the
--   qubits through it, Dag/Print is `print`.
-- LinAlg: lib/Interfaces/InlineGatesToArithLinAlg.cpp and lib/Passes/CodeGen/QuakeToLinAlg.cpp.
--   LinAlg/Tensors has insertMul and insertMulN, LinAlg/Convert the other functions and the pass;
--   `std::to_string` is a parameter.
-- Tools: tools/qasm-to-quake.cpp, tools/cpp-to-only-quake.cpp and tools/quake-to-tikz.cpp. `Run` of
--   Tools/Files is a part of `main` that goes on, returns, throws or aborts, on the files and
--   what is printed. Tools/Texts has the names of files and their regular expressions, Tools/Main the
--   three `main`. Paths are told apart as they are written. The commands of CUDA-Q, the parser of
--   MLIR, the run of a pass manager and the replacement in the template of a kernel are parameters;
--   the run of a pass gives what it leaves and whether it failed, or none where an assertion stops
--   the program.
--
-- Every function recurs on the structure of a list or an expression, so there is no fuel. Indices
-- are unbounded numbers: the conversions of an index to `int` are not modelled. The count of
-- amplitudes in QuakeToLinAlg, an `int`, is: from 31 qubits on it is a fault. The type of
-- floating-point numbers is a parameter everywhere. An assertion that fails is a fault, as in a
-- build with assertions.
--
-- Not modelled: kernels of several blocks; operations that change the state of the qubits and are
-- no gates, measurements or `quake.apply`, such as `quake.reset` or `func.call`: `other_op` of
-- Quake/Ops stands for an operation that leaves the qubits alone; the exceptions that the parser
-- of options throws; PrintQuakeGates, the spelling of labels in a picture, the dump of the graph to
-- a file, and the parser of QASM.
mod Base
pub mod Quake
pub mod Passes
pub mod Semantics
pub mod Soundness
pub mod Interfaces
pub mod Tikz
pub mod Mapping
pub mod LinAlg
pub mod Dag
pub mod Tools
