-- ===== src/Mapping/RoundTrip.antt =====
-- A circuit that is written to a kernel and loaded again (lib/Passes/Transforms/QuakeQMap.cpp).
use mqss_passes_suite.Base.{
  if◌then◌else◌, ℕ, ◌≡◌, refl, sym, ◌∙◌, ap, Bool, true, false, List, [], ◌∷◌, ◌++◌, append_assoc,
  All, Result, ok, fault, ◌>>=◌,
}
use mqss_passes_suite.Quake.Ops.{
  x_op, y_op, z_op, h_op, s_op, t_op, r1_op, rx_op, ry_op, rz_op, u3_op, swap_op, Op, Gate,
  constant, extract_ref, operator, plain, other_op, isa,
}
use mqss_passes_suite.Quake.Floats.{Floats}
use mqss_passes_suite.Quake.Classical.{Bits, classical_bits_from, get_number_of_classical_bits}
use mqss_passes_suite.Mapping.Load.{
  Call, rotation, single, controlled, measure_bit, measure_all, load_rotation_gates_to_qc,
  load_x_y_z_gates_to_qc, load_s_t_h_gates_to_qc, load_op, load_all, load_circuit,
}
use mqss_passes_suite.Mapping.Rebuild.{is_created, Mapped, insert_mapped, insert_all, rebuild}
use mqss_passes_suite.Mapping.Circuit.{mapped_of, mapped_all, bits_after, IsSaid}

module _ {F : Type 0} where
  -- The operation that adds the call, behind one or two that add none.
  one_silent :
      (c : Call F) (m : Result (List (Call F)))
      → (m >>= (λ rest. ok (c ∷ rest)) >>= λ rest. ok rest) ≡ (m >>= λ rest. ok (c ∷ rest))
  one_silent c (ok cs) = refl
  one_silent c (fault e) = refl

  two_silent :
      (c : Call F) (m : Result (List (Call F)))
      → (m >>= (λ rest. ok (c ∷ rest)) >>= (λ rest. ok rest) >>= λ rest. ok rest)
        ≡ (m >>= λ rest. ok (c ∷ rest))
  two_silent c (ok cs) = refl
  two_silent c (fault e) = refl

module _ {F : Type 0} (fl : Floats F) where
  -- One call, written before other operations.
  load-mapped :
      (bits : Bits) (c : Call F) (ops : List (Op F))
      → IsSaid fl bits c
      → load_all fl bits (insert_all fl (mapped_of c) ++ ops)
        ≡ (load_all fl bits ops >>= λ rest. ok (c ∷ rest))
  unfolding load_all load_op insert_all load_rotation_gates_to_qc load_x_y_z_gates_to_qc
      load_s_t_h_gates_to_qc isa
  load-mapped bits (rotation rx_op a q) ops h =
      rw (h.1, h.2) (two_silent (rotation rx_op a q) (load_all fl bits ops))
  load-mapped bits (rotation ry_op a q) ops h =
      rw (h.1, h.2) (two_silent (rotation ry_op a q) (load_all fl bits ops))
  load-mapped bits (rotation rz_op a q) ops h =
      rw (h.1, h.2) (two_silent (rotation rz_op a q) (load_all fl bits ops))
  load-mapped bits (rotation x_op a q) ops h = cc
  load-mapped bits (rotation y_op a q) ops h = cc
  load-mapped bits (rotation z_op a q) ops h = cc
  load-mapped bits (rotation h_op a q) ops h = cc
  load-mapped bits (rotation s_op a q) ops h = cc
  load-mapped bits (rotation t_op a q) ops h = cc
  load-mapped bits (rotation r1_op a q) ops h = cc
  load-mapped bits (rotation u3_op a q) ops h = cc
  load-mapped bits (rotation swap_op a q) ops h = cc
  load-mapped bits (single x_op q) ops h = one_silent (single x_op q) (load_all fl bits ops)
  load-mapped bits (single y_op q) ops h = one_silent (single y_op q) (load_all fl bits ops)
  load-mapped bits (single z_op q) ops h = one_silent (single z_op q) (load_all fl bits ops)
  load-mapped bits (single h_op q) ops h = one_silent (single h_op q) (load_all fl bits ops)
  load-mapped bits (single s_op q) ops h = one_silent (single s_op q) (load_all fl bits ops)
  load-mapped bits (single t_op q) ops h = one_silent (single t_op q) (load_all fl bits ops)
  load-mapped bits (single r1_op q) ops h = cc
  load-mapped bits (single rx_op q) ops h = cc
  load-mapped bits (single ry_op q) ops h = cc
  load-mapped bits (single rz_op q) ops h = cc
  load-mapped bits (single u3_op q) ops h = cc
  load-mapped bits (single swap_op q) ops h = cc
  load-mapped bits (controlled x_op c t) ops h =
      two_silent (controlled x_op c t) (load_all fl bits ops)
  load-mapped bits (controlled y_op c t) ops h =
      two_silent (controlled y_op c t) (load_all fl bits ops)
  load-mapped bits (controlled z_op c t) ops h =
      two_silent (controlled z_op c t) (load_all fl bits ops)
  load-mapped bits (controlled h_op c t) ops h = cc
  load-mapped bits (controlled s_op c t) ops h = cc
  load-mapped bits (controlled t_op c t) ops h = cc
  load-mapped bits (controlled r1_op c t) ops h = cc
  load-mapped bits (controlled rx_op c t) ops h = cc
  load-mapped bits (controlled ry_op c t) ops h = cc
  load-mapped bits (controlled rz_op c t) ops h = cc
  load-mapped bits (controlled u3_op c t) ops h = cc
  load-mapped bits (controlled swap_op c t) ops h = cc
  load-mapped bits (measure_bit q b) ops h =
      rw h (one_silent (measure_bit q b) (load_all fl bits ops))
  load-mapped bits measure_all ops h = absurd h

  insert-append :
      (xs ys : List (Mapped F)) → insert_all fl (xs ++ ys) ≡ insert_all fl xs ++ insert_all fl ys
  unfolding insert_all
  insert-append [] ys = refl
  insert-append (x ∷ xs) ys =
      rw (insert-append xs ys)
        (sym (append_assoc (insert_mapped fl x.op_type x) (insert_all fl xs) (insert_all fl ys)))

  return_only : (bits : Bits) → load_all fl bits (plain other_op ∷ []) ≡ ok []
  unfolding load_all load_op
  return_only bits = refl

  split_first :
      (c : Call F) (cs : List (Call F))
      → insert_all fl (mapped_of c ++ mapped_all cs) ++ plain other_op ∷ []
        ≡ insert_all fl (mapped_of c) ++ (insert_all fl (mapped_all cs) ++ plain other_op ∷ [])
  split_first c cs = rw (insert-append (mapped_of c) (mapped_all cs)) (
      append_assoc (insert_all fl (mapped_of c)) (insert_all fl (mapped_all cs))
        (plain other_op ∷ []))

  load-mapped_all :
      (bits : Bits) (cs : List (Call F))
      → All (IsSaid fl bits) cs
      → load_all fl bits (insert_all fl (mapped_all cs) ++ plain other_op ∷ []) ≡ ok cs
  unfolding insert_all
  load-mapped_all bits [] h = return_only bits
  load-mapped_all bits (c ∷ cs) h =
      let rest : List (Op F) = insert_all fl (mapped_all cs) ++ plain other_op ∷ [] in
      let e : load_all fl bits rest ≡ ok cs = load-mapped_all bits cs h.1 in
      ap (load_all fl bits) (split_first c cs) ∙ load-mapped bits c rest h.0 ∙ rw e refl

  no_bits :
      (s : ℕ × Bits) (created : Bool) (g : Gate F) (ops : List (Op F))
      → classical_bits_from s ((if created then operator g ∷ [] else []) ++ [] ++ ops)
        ≡ classical_bits_from s ops
  unfolding classical_bits_from
  no_bits s true g ops = refl
  no_bits s false g ops = refl

  bits-mapped :
      (s : ℕ × Bits) (c : Call F) (ops : List (Op F))
      → classical_bits_from s (insert_all fl (mapped_of c) ++ ops)
        ≡ classical_bits_from (bits_after s (c ∷ [])) ops
  unfolding classical_bits_from insert_all
  bits-mapped s (rotation k a q) ops =
      no_bits s (is_created k)
        (record {
          kind = k;
          is_adj = false;
          parameters = constant a ∷ [];
          controls = [];
          targets = extract_ref 0 q ∷ [];
        })
        ops
  bits-mapped s (single k q) ops =
      no_bits s (is_created k)
        (record {
          kind = k;
          is_adj = false;
          parameters = [];
          controls = [];
          targets = extract_ref 0 q ∷ [];
        })
        ops
  bits-mapped s (controlled k c t) ops =
      no_bits s (is_created k)
        (record {
          kind = k;
          is_adj = false;
          parameters = [];
          controls = extract_ref 0 c ∷ [];
          targets = extract_ref 0 t ∷ [];
        })
        ops
  bits-mapped s (measure_bit q b) ops = refl
  bits-mapped s measure_all ops = refl

  bits_after-step :
      (s : ℕ × Bits) (c : Call F) (cs : List (Call F))
      → bits_after (bits_after s (c ∷ [])) cs ≡ bits_after s (c ∷ cs)
  bits_after-step s (rotation k a q) cs = refl
  bits_after-step s (single k q) cs = refl
  bits_after-step s (controlled k c t) cs = refl
  bits_after-step s (measure_bit q b) cs = refl
  bits_after-step s measure_all cs = refl

  bits-mapped_all :
      (s : ℕ × Bits) (cs : List (Call F))
      → classical_bits_from s (insert_all fl (mapped_all cs) ++ plain other_op ∷ [])
        ≡ ok (bits_after s cs)
  unfolding insert_all classical_bits_from
  bits-mapped_all s [] = refl
  bits-mapped_all s (c ∷ cs) =
      let rest : List (Op F) = insert_all fl (mapped_all cs) ++ plain other_op ∷ [] in
      let e : insert_all fl (mapped_of c ++ mapped_all cs) ++ plain other_op ∷ []
          ≡ insert_all fl (mapped_of c) ++ rest =
        split_first c cs in
      ap (classical_bits_from s) e
      ∙ bits-mapped s c rest
      ∙ bits-mapped_all (bits_after s (c ∷ [])) cs
      ∙ ap ok (bits_after-step s c cs)

  -- A circuit of rotations, single gates, controlled Pauli gates and measurements of one qubit,
  -- each with a class of its kind, an angle that is a `float` other than -1.0 and the bit that
  -- counting gives, is loaded back from the kernel that is built from it.
  pub load_circuit-rebuild :
      (n : ℕ) (cs : List (Call F))
      → All (IsSaid fl (bits_after (0, []) cs).1) cs
      → load_circuit fl (rebuild fl n (mapped_all cs)) ≡ ok ((bits_after (0, []) cs).0, cs)
  unfolding load_circuit get_number_of_classical_bits rebuild classical_bits_from load_all load_op
  load_circuit-rebuild n cs h =
      rw (bits-mapped_all (0, []) cs, load-mapped_all (bits_after (0, []) cs).1 cs h) refl
