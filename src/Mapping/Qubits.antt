-- ===== src/Mapping/Qubits.antt =====
-- The qubits of the kernel that QuakeQMap builds (lib/Passes/Transforms/QuakeQMap.cpp).
use mqss_passes_suite.Base.{
  subst, append-nil, ℕ, ◌+◌, ◌≡◌, refl, ◌∙◌, ap, Bool, true, false, if◌then◌else◌, List, [], ◌∷◌,
  ◌++◌, append-nil, map, ok, Post, arith,
}
use mqss_passes_suite.Quake.Ops.{
  constant, Gate, Op, operator, plain, alloca_ref, alloca_veq, extract, arith_constant, measure,
  apply_op, other_op,
}
use mqss_passes_suite.Quake.Floats.{Floats, create_float_value}
use mqss_passes_suite.Quake.Query.{get_number_of_qubits}
use mqss_passes_suite.Quake.Count.{count-append}
use mqss_passes_suite.Mapping.Load.{Call, load_circuit}
use mqss_passes_suite.Mapping.Rebuild.{
  OpType, gate_type, measure_type, barrier_type, other_type, Mapped, is_created, extracts_of,
  create_op, refs_of, insert_mapped, insert_all, rebuild, quake_q_map,
}

module _ {F : Type 0} where
  -- The indices of the references that the operations extract.
  abbrev pub extracted : List (Op F) → List ℕ
  extracted [] = []
  extracted (plain (extract v i) ∷ ops) = i ∷ extracted ops
  extracted (_ ∷ ops) = extracted ops

  -- The qubits that a mapped circuit names, those of its barriers left out.
  abbrev pub qubits_of_op : OpType → Mapped F → List ℕ
  qubits_of_op barrier_type op = []
  qubits_of_op t op = op.targets ++ op.controls

  abbrev pub named_qubits : List (Mapped F) → List ℕ
  named_qubits [] = []
  named_qubits (op ∷ ops) = qubits_of_op op.op_type op ++ named_qubits ops

  -- The kernel has one allocation, of `n` qubits, and extracts the qubits `named`.
  abbrev pub Extracts : ℕ → List ℕ → List (Op F) → Type 0
  Extracts n named ops = (get_number_of_qubits ops ≡ n) × (extracted ops ≡ named)

  extracted-append : (xs ys : List (Op F)) → extracted (xs ++ ys) ≡ extracted xs ++ extracted ys
  extracted-append [] ys = refl
  extracted-append (operator g ∷ xs) ys = extracted-append xs ys
  extracted-append (plain alloca_ref ∷ xs) ys = extracted-append xs ys
  extracted-append (plain (alloca_veq n) ∷ xs) ys = extracted-append xs ys
  extracted-append (plain (extract v i) ∷ xs) ys = ap (λ l. i ∷ l) (extracted-append xs ys)
  extracted-append (plain (arith_constant a) ∷ xs) ys = extracted-append xs ys
  extracted-append (plain (measure os) ∷ xs) ys = extracted-append xs ys
  extracted-append (plain (apply_op vs) ∷ xs) ys = extracted-append xs ys
  extracted-append (plain other_op ∷ xs) ys = extracted-append xs ys

  -- Two parts of a kernel.
  Extracts-append :
      (n m : ℕ) (is js : List ℕ) (xs ys : List (Op F))
      → Extracts n is xs
      → Extracts m js ys
      → Extracts (n + m) (is ++ js) (xs ++ ys)
  Extracts-append n m is js xs ys h k =
      (count-append xs ys ∙ rw (h.0, k.0) refl, extracted-append xs ys ∙ rw (h.1, k.1) refl)

module _ (F : Type 0) where
  extracts_of-Extracts : (is : List ℕ) → Extracts {F = F} 0 is (extracts_of is)
  unfolding extracts_of get_number_of_qubits
  extracts_of-Extracts [] = (refl, refl)
  extracts_of-Extracts (i ∷ is) =
      let ih = extracts_of-Extracts is in ((ground (arith, ih.0)), ap (λ l. i ∷ l) ih.1)

module _ {F : Type 0} where
  create_op-Extracts : (t : OpType) (op : Mapped F) → Extracts 0 [] (create_op t op)
  unfolding create_op get_number_of_qubits
  create_op-Extracts (gate_type k) op = either (is_created k)
    where
      gate : Gate F
      gate = record {
        kind = k;
        is_adj = false;
        parameters = map constant op.parameters;
        controls = refs_of op.controls;
        targets = refs_of op.targets;
      }

      either : (b : Bool) → Extracts 0 [] (if b then operator gate ∷ [] else [])
      either true = (refl, refl)
      either false = (refl, refl)
  create_op-Extracts measure_type op = (refl, refl)
  create_op-Extracts barrier_type op = (refl, refl)
  create_op-Extracts other_type op = (refl, refl)

module _ {F : Type 0} (fl : Floats F) where
  constants-Extracts : (values : List F) → Extracts 0 [] (map (create_float_value fl) values)
  unfolding get_number_of_qubits
  constants-Extracts [] = (refl, refl)
  constants-Extracts (a ∷ values) =
      let ih = constants-Extracts values in (ground (arith, ih.0), ih.1)

  -- The operations of one turn of the loop for a type other than a barrier.
  turn-Extracts :
      (t : OpType) (op : Mapped F)
      → Extracts 0 (op.targets ++ op.controls) (
          extracts_of op.targets
          ++ (extracts_of op.controls
              ++ (map (create_float_value fl) op.parameters ++ create_op t op)))
  turn-Extracts t op =
      subst
        (λ l. Extracts 0 (op.targets ++ l) (
          extracts_of op.targets
          ++ (extracts_of op.controls
              ++ (map (create_float_value fl) op.parameters ++ create_op t op))))
        (append-nil op.controls)
        (Extracts-append 0 0 op.targets (op.controls ++ []) (extracts_of op.targets)
          (extracts_of op.controls ++ (map (create_float_value fl) op.parameters ++ create_op t op))
          (extracts_of-Extracts F op.targets)
          (Extracts-append 0 0 op.controls [] (extracts_of op.controls)
            (map (create_float_value fl) op.parameters ++ create_op t op)
            (extracts_of-Extracts F op.controls)
            (Extracts-append 0 0 [] [] (map (create_float_value fl) op.parameters) (create_op t op)
              (constants-Extracts op.parameters) (create_op-Extracts t op))))

  insert_mapped-Extracts :
      (t : OpType) (op : Mapped F) → Extracts 0 (qubits_of_op t op) (insert_mapped fl t op)
  unfolding insert_mapped get_number_of_qubits
  insert_mapped-Extracts (gate_type k) op = turn-Extracts (gate_type k) op
  insert_mapped-Extracts measure_type op = turn-Extracts measure_type op
  insert_mapped-Extracts barrier_type op = (refl, refl)
  insert_mapped-Extracts other_type op = turn-Extracts other_type op

  insert_all-Extracts : (ops : List (Mapped F)) → Extracts 0 (named_qubits ops) (insert_all fl ops)
  unfolding insert_all get_number_of_qubits
  insert_all-Extracts [] = (refl, refl)
  insert_all-Extracts (op ∷ ops) =
      Extracts-append 0 0 (qubits_of_op op.op_type op) (named_qubits ops)
        (insert_mapped fl op.op_type op) (insert_all fl ops) (insert_mapped-Extracts op.op_type op)
        (insert_all-Extracts ops)

  rebuild-Extracts :
      (n : ℕ) (ops : List (Mapped F)) → Extracts n (named_qubits ops) (rebuild fl n ops)
  unfolding rebuild get_number_of_qubits
  rebuild-Extracts n ops =
      let r =
        Extracts-append 0 0 (named_qubits ops) [] (insert_all fl ops) (plain other_op ∷ [])
          (insert_all-Extracts ops) (refl, refl) in
      (ground (arith, r.0), r.1 ∙ append-nil (named_qubits ops))

  -- For any mapper, if the loading gives `calls` and a number of bits, the kernel that QuakeQMap
  -- leaves allocates as many qubits as the kernel given, and extracts the qubits that the mapped
  -- circuit names, in its order.
  pub quake_q_map-Extracts :
      (mapper : ℕ → ℕ → List (Call F) → List (Mapped F)) (circuit : List (Op F)) (bits : ℕ)
      (calls : List (Call F))
      → load_circuit fl circuit ≡ ok (bits, calls)
      → Post ⊥
          (Extracts
            (get_number_of_qubits circuit)
            (named_qubits (mapper (get_number_of_qubits circuit) bits calls)))
          (quake_q_map fl mapper true circuit)
  unfolding quake_q_map
  quake_q_map-Extracts mapper circuit bits calls h =
      let n = get_number_of_qubits circuit in rw h (rebuild-Extracts n (mapper n bits calls))
