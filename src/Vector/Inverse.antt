-- ===== src/Vector/Inverse.antt =====
-- VectorDecoder.decode of src/oracledb/impl/base/vector.pyx undoes VectorEncoder.encode.
use python_oracledb.Prelude.{
  ℕ, ◌+◌, ◌^◌, ◌≤◌, ◌<◌, ◌≡◌, refl, ap, ◌∙◌, arith, inl, inr, List, [], ◌++◌, length,
}
use mathlib.Core.List.{append_assoc}
use python_oracledb.Errors.{ok}
use python_oracledb.Buffer.{Buffer, ◌>>◌, growable, reserve_space, initialize, then_ok}
use python_oracledb.Buffer.Room.{written, CanTake}
use python_oracledb.Buffer.Append.{Appended}
use python_oracledb.Buffer.Reserve.{reserve_space_lem}
use python_oracledb.Buffer.RoundTrip.{initialize-CanTake}
use python_oracledb.Vector.{
  Vector, num_elements, write_elements, write_vector_header, encode, decode,
}
use python_oracledb.Vector.Elements.{IsVector, body, elements-Appends, length-body}
use python_oracledb.Vector.Header.{
  header, header-Appends, header_facts, length-header, decode-written,
}

-- The three parts of an encoded vector.
module _ (v : Vector) (b1 b2 b3 : Buffer) (gap : List ℕ) where
  parts :
      (b0 : Buffer)
      → written b0 ≡ []
      → Appended (header v) b0 b1
      → written b2 ≡ written b1 ++ gap
      → Appended (body v) b2 b3
      → written b3 ≡ header v ++ (gap ++ body v)
  parts b0 w0 a1 w2 a3 =
      a3.bytes_written
      ∙ ap (λ xs. xs ++ body v)
          (w2 ∙ ap (λ xs. xs ++ gap) (a1.bytes_written ∙ ap (λ xs. xs ++ header v) w0))
      ∙ append_assoc (header v) gap (body v)

  run :
      (b0 : Buffer)
      → write_vector_header v b0 ≡ ok (tt, b1)
      → reserve_space 8 b1 ≡ ok (tt, b2)
      → write_elements (num_elements v) v b2 ≡ ok (tt, b3)
      → encode v b0 ≡ ok (tt, b3)
  unfolding encode
  run b0 e1 e2 e3 =
      then_ok (write_vector_header v) (do reserve_space 8; write_elements (num_elements v) v) b0 b1
        e1
      ∙ then_ok (reserve_space 8) (write_elements (num_elements v) v) b1 b2 e2
      ∙ e3

  decodes :
      IsVector v
      → length gap ≡ 8
      → written b3 ≡ header v ++ (gap ++ body v)
      → decode (written b3) ≡ ok v
  decodes good g w = ap decode w ∙ decode-written v gap good g

-- Room for the elements behind the space for the norm.
reserved :
    (v : Vector) (b0 b1 : Buffer)
    → IsVector v
    → b0.class ≡ growable
    → b0.size ≡ 0
    → b0.position ≡ 0
    → b0.max_size < 2 ^ 60
    → Appended (header v) b0 b1
    → (b2 : Buffer) × (gap : List ℕ) × (length gap ≡ 8)
      × (reserve_space 8 b1 ≡ ok (tt, b2))
      × (written b2 ≡ written b1 ++ gap)
      × CanTake (length (body v) + 0) b2
reserved v b0 b1 good k z p h a1 =
    let nine = length-header v in
    let small : b1.max_size ≤ b0.max_size + 2 ^ 20 = elim a1.bounded [
      | inl e ↦ omega (arith, e)
      | inr l ↦ omega (arith, l, nine)
    ] in
    let (b2, gap, g, e2, w2, p2, k2, s2, i2, m2) =
      reserve_space_lem 8 b1 a1.now_sized a1.now_within (a1.kept_class ∙ k) (a1.kept_size ∙ z)
        (omega arith) (omega (arith, small, a1.moved, nine)) in
    (
      b2,
      gap,
      g,
      e2,
      w2,
      record {
        sized = s2;
        within = i2;
        room = inl (
          k2,
          omega (arith, m2, small, a1.moved, nine),
          omega (arith, p2, a1.moved, nine, length-body v good),
        );
      },
    )

-- For every vector of values of the type of its array, with fewer than 2 ^ 29 elements, and every size
-- of a growable buffer below 2 ^ 60: `encode` succeeds on the new buffer, and `decode` of the bytes
-- that it wrote is the vector.
pub decode-encode :
    (v : Vector) (n : ℕ)
    → IsVector v
    → n < 2 ^ 60
    → (b : Buffer) × (encode v (initialize growable n) ≡ ok (tt, b)) × (decode (written b) ≡ ok v)
unfolding initialize
decode-encode v n good h =
    let b0 = initialize growable n in
    let (flags, count, _, _, _) = header_facts v in
    let (b1, e1, a1, _) = header-Appends v flags count 0 b0 (
      initialize-CanTake n (length (header v) + 0) (omega arith)
        (omega (arith, length-header v))) in
    let (b2, gap, g, e2, w2, can) = reserved v b0 b1 good refl refl refl h a1 in
    let (b3, e3, a3, _) = elements-Appends v good 0 b2 can in
    (
      b3,
      run v b1 b2 b3 gap b0 e1 e2 e3,
      decodes v b1 b2 b3 gap good g (parts v b1 b2 b3 gap b0 refl a1 w2 a3),
    )
