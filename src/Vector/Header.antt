-- ===== src/Vector/Header.antt =====
-- src/oracledb/impl/base/vector.pyx: the header of a vector, and decoding of the whole.
use python_oracledb.Prelude.{
  ℕ, ◌^◌, ◌<◌, ◌≡◌, refl, sym, ap, ◌∙◌, arith, Bool, true, false, not, List, [], ◌∷◌, ◌++◌, length,
  ltb, if◌then◌else◌,
}
use mathlib.Core.List.{append-nil}
use mathlib.Core.Path.{subst}
use python_oracledb.Bytes.{msb, be_bytes}
use python_oracledb.Errors.{
  Error, ok, unexpected_data, vector_version_not_supported, vector_format_not_supported,
}
use python_oracledb.Buffer.{M, ◌>>◌, pure, populate_from_bytes}
use python_oracledb.Buffer.Integer.{read_ub1, read_uint16, read_uint32}
use python_oracledb.Buffer.Append.{
  Appends, then-Appends, write_uint8-Appends, write_uint16-Appends, write_uint32-Appends,
}
use python_oracledb.Buffer.Stream.{Reads, bind-Reads, pure-Reads}
use python_oracledb.Buffer.RoundTrip.{populate-CanRead, populate-unread}
use python_oracledb.Buffer.Skip.{skip_raw_bytes}
use python_oracledb.Vector.{
  Vector, float_vector, double_vector, binary_vector, int8_vector, vector_format, vector_version,
  vector_flags, num_elements, write_vector_header, read_elements, check, has_norm, is_vector_format,
  decode_buffer, decode, value_of,
}
use python_oracledb.Vector.Elements.{IsVector, body, elements-Reads}
use python_oracledb.Vector.RoundTrip.{ub1-Reads, uint16-Reads, uint32-Reads, skip-Reads}

abbrev pub header : Vector → List ℕ
header v =
    0xdb
    ∷ vector_version v
    ∷ (be_bytes 2 (vector_flags v) ++ (vector_format v ∷ be_bytes 4 (num_elements v)))

pub header-Appends :
    (v : Vector)
    → vector_flags v < 2 ^ 16
    → num_elements v < 2 ^ 32
    → Appends (write_vector_header v) (header v)
unfolding write_vector_header
header-Appends v f n = then-Appends (write_uint8-Appends 0xdb) (
    then-Appends (write_uint8-Appends (vector_version v)) (
      then-Appends (write_uint16-Appends (vector_flags v) f) (
        then-Appends (write_uint8-Appends (vector_format v))
          (write_uint32-Appends (num_elements v) n))))

check-Reads : (good : Bool) (e : Error) → good ≡ true → Reads (check good e) [] tt
unfolding check
check-Reads good e h = rw h (pure-Reads tt)

then-Reads :
    {A : Type 0} (m : M (Unit {0})) (k : M A) (xs ys : List ℕ) {z : A}
    → Reads m xs tt
    → Reads k ys z
    → Reads (do m; k) (xs ++ ys) z
then-Reads m k xs ys R S = bind-Reads m (λ _. k) xs ys R S

-- Whatever was reserved for the norm is skipped.
norm-Reads :
    (norm : Bool) (gap : List ℕ)
    → norm ≡ true
    → length gap ≡ 8
    → Reads (if norm then skip_raw_bytes 8 else pure tt) gap tt
norm-Reads norm gap h g =
    rw h (subst (λ (n : ℕ). Reads (skip_raw_bytes n) gap tt) g (skip-Reads gap))

pub length-header : (v : Vector) → length (header v) ≡ 9
unfolding be_bytes
length-header v = refl

pub header_facts :
    (v : Vector)
    → (vector_flags v < 2 ^ 16)
      × (num_elements v < 2 ^ 32)
      × (ltb 1 (vector_version v) ≡ false)
      × (is_vector_format (vector_format v) ≡ true)
      × (has_norm (vector_flags v) ≡ true)
unfolding has_norm
header_facts (float_vector xs) = (omega arith, omega arith, refl, refl, refl)
header_facts (double_vector xs) = (omega arith, omega arith, refl, refl, refl)
header_facts (int8_vector xs) = (omega arith, omega arith, refl, refl, refl)
header_facts (binary_vector xs) = (omega arith, omega arith, refl, refl, refl)

decode-Reads :
    (v : Vector) (gap : List ℕ)
    → length gap ≡ 8
    → ltb 1 (vector_version v) ≡ false
    → vector_flags v < 2 ^ 16
    → num_elements v < 2 ^ 32
    → is_vector_format (vector_format v) ≡ true
    → has_norm (vector_flags v) ≡ true
    → Reads (read_elements (vector_format v) (num_elements v)) (body v) v
    → Reads decode_buffer (header v ++ (gap ++ body v)) v
unfolding decode_buffer be_bytes
decode-Reads v gap g version flags n format norm R =
    let after_count = gap ++ body v in
    let after_format = be_bytes 4 (num_elements v) ++ after_count in
    let after_flags = vector_format v ∷ after_format in
    let after_version = be_bytes 2 (vector_flags v) ++ after_flags in
    let after_magic = vector_version v ∷ after_version in
    bind-Reads read_ub1 _ (0xdb ∷ []) after_magic (ub1-Reads 0xdb) (
      then-Reads (check true (unexpected_data 0xdb)) _ [] after_magic
        (check-Reads true (unexpected_data 0xdb) refl)
        (bind-Reads read_ub1 _ (vector_version v ∷ []) after_version (ub1-Reads (vector_version v))
          (then-Reads
            (check (not (ltb 1 (vector_version v)))
              (vector_version_not_supported (vector_version v)))
            _ [] after_version
            (check-Reads (not (ltb 1 (vector_version v)))
              (vector_version_not_supported (vector_version v)) (ap not version))
            (bind-Reads (read_uint16 msb) _ (be_bytes 2 (vector_flags v)) after_flags
              (uint16-Reads (vector_flags v) flags)
              (bind-Reads read_ub1 _ (vector_format v ∷ []) after_format
                (ub1-Reads (vector_format v))
                (bind-Reads (read_uint32 msb) _ (be_bytes 4 (num_elements v)) after_count
                  (uint32-Reads (num_elements v) n)
                  (then-Reads
                    (check (is_vector_format (vector_format v))
                      (vector_format_not_supported (vector_format v)))
                    _ [] after_count
                    (check-Reads (is_vector_format (vector_format v))
                      (vector_format_not_supported (vector_format v)) format)
                    (then-Reads (if has_norm (vector_flags v) then skip_raw_bytes 8 else pure tt) _
                      gap (body v) (norm-Reads (has_norm (vector_flags v)) gap norm g) R))))))))

pub decode-written :
    (v : Vector) (gap : List ℕ)
    → IsVector v
    → length gap ≡ 8
    → decode (header v ++ (gap ++ body v)) ≡ ok v
unfolding decode
decode-written v gap good g =
    let (flags, count, version, format, norm) = header_facts v in
    let R = decode-Reads v gap g version flags count format norm (elements-Reads v good) in
    let bytes = header v ++ (gap ++ body v) in
    ap value_of (
      R (populate_from_bytes bytes) [] (populate-CanRead bytes)
        (populate-unread bytes ∙ sym (append-nil bytes)))
