-- ===== src/Vector/Elements.antt =====
-- src/oracledb/impl/base/vector.pyx: the elements of a vector, written and read.
use python_oracledb.Prelude.{
  ℕ, ◌*◌, ◌/◌, ◌%◌, ◌^◌, ◌≤◌, ◌<◌, ◌≡◌, refl, ap, arith, List, [], ◌∷◌, map, length, length-append,
  length-map, take_all,
}
use mathlib.Core.Path.{subst}
use python_oracledb.Prelude.Int.{ℤ}
use python_oracledb.Buffer.{◌>>=◌, pure}
use python_oracledb.Buffer.Integer.{read_ub1, read_sb1}
use python_oracledb.Buffer.Append.{Appends}
use python_oracledb.Buffer.Raw.{write_raw-Appends}
use python_oracledb.Buffer.Stream.{Reads}
use python_oracledb.Float.{float_bytes, double_bytes}
use python_oracledb.Vector.{
  Vector, float_vector, double_vector, binary_vector, int8_vector, int8_byte, vector_format,
  num_elements, write_elements, times, read_elements, read_float_element, read_double_element,
}
use python_oracledb.Vector.RoundTrip.{
  All, codes, length-float_bytes, length-double_bytes, write_floats-Appends, write_doubles-Appends,
  map-Reads, times-Reads, float-Reads, double-Reads, ub1-Reads, sb1-Reads, IsInt8,
}

-- The elements are values of their C type, and there are fewer than 2 ^ 29.
abbrev pub IsVector : Vector → Type 0
IsVector (float_vector xs) = All (λ x. x < 2 ^ 32) xs × (length xs < 2 ^ 29)
IsVector (double_vector xs) = All (λ x. x < 2 ^ 64) xs × (length xs < 2 ^ 29)
IsVector (int8_vector xs) = All IsInt8 xs × (length xs < 2 ^ 29)
IsVector (binary_vector xs) = length xs < 2 ^ 29

abbrev pub body : Vector → List ℕ
body (float_vector xs) = codes float_bytes xs
body (double_vector xs) = codes double_bytes xs
body (int8_vector xs) = map int8_byte xs
body (binary_vector xs) = xs

each_byte : (f : ℤ → ℕ) (xs : List ℤ) → codes (λ x. f x ∷ []) xs ≡ map f xs
each_byte f [] = refl
each_byte f (x ∷ xs) = ap (λ ys. f x ∷ ys) (each_byte f xs)

each_same : (xs : List ℕ) → codes (λ x. x ∷ []) xs ≡ xs
each_same [] = refl
each_same (x ∷ xs) = ap (λ ys. x ∷ ys) (each_same xs)

All-any : (xs : List ℕ) → All (λ _. Unit {0}) xs
All-any [] = tt
All-any (x ∷ xs) = (tt, All-any xs)

pub elements-Appends :
    (v : Vector) → IsVector v → Appends (write_elements (num_elements v) v) (body v)
unfolding write_elements
elements-Appends (float_vector xs) (_, l) =
    rw (take_all (length xs % 2 ^ 32) xs (omega arith)) (write_floats-Appends xs)
elements-Appends (double_vector xs) (_, l) =
    rw (take_all (length xs % 2 ^ 32) xs (omega arith)) (write_doubles-Appends xs)
elements-Appends (int8_vector xs) (_, l) =
    rw (take_all (length xs % 2 ^ 32) (map int8_byte xs) (omega (arith, length-map xs int8_byte)))
      (write_raw-Appends (map int8_byte xs))
elements-Appends (binary_vector xs) l =
    rw (take_all (length xs % 2 ^ 32 * 8 % 2 ^ 32 / 8) xs (omega arith)) (write_raw-Appends xs)

pub elements-Reads :
    (v : Vector) → IsVector v → Reads (read_elements (vector_format v) (num_elements v)) (body v) v
unfolding read_elements
elements-Reads (float_vector xs) (good, l) =
    let n : length xs % 2 ^ 32 ≡ length xs = omega arith in
    rw n (
      map-Reads (times (length xs) read_float_element) float_vector (codes float_bytes xs)
        (times-Reads read_float_element float_bytes (λ x. x < 2 ^ 32) xs float-Reads good))
elements-Reads (double_vector xs) (good, l) =
    let n : length xs % 2 ^ 32 ≡ length xs = omega arith in
    rw n (
      map-Reads (times (length xs) read_double_element) double_vector (codes double_bytes xs)
        (times-Reads read_double_element double_bytes (λ x. x < 2 ^ 64) xs double-Reads good))
elements-Reads (int8_vector xs) (good, l) =
    let n : length xs % 2 ^ 32 ≡ length xs = omega arith in
    rw (n, ← each_byte int8_byte xs)
      (map-Reads (times (length xs) read_sb1) int8_vector (codes (λ z. int8_byte z ∷ []) xs)
        (times-Reads read_sb1 (λ z. int8_byte z ∷ []) IsInt8 xs sb1-Reads good))
elements-Reads (binary_vector xs) l =
    let n : length xs % 2 ^ 32 * 8 % 2 ^ 32 / 8 ≡ length xs = omega arith in
    rw n (
      subst
        (λ bytes.
          Reads (do ys ← times (length xs) read_ub1; pure (binary_vector ys)) bytes
            (binary_vector xs))
        (each_same xs)
        (map-Reads (times (length xs) read_ub1) binary_vector (codes (λ x. x ∷ []) xs) (
          times-Reads read_ub1 (λ x. x ∷ []) (λ _. Unit {0}) xs (λ x _. ub1-Reads x) (All-any xs))))

length-codes :
    (code : ℕ → List ℕ) (xs : List ℕ)
    → ((x : ℕ) → length (code x) ≤ 8)
    → length (codes code xs) ≤ 8 * length xs
length-codes code [] short = omega arith
length-codes code (x ∷ xs) short =
    omega (arith, short x, length-codes code xs short, length-append (code x) (codes code xs))

pub length-body : (v : Vector) → IsVector v → length (body v) < 2 ^ 32
length-body (float_vector xs) (_, l) =
    omega (arith, length-codes float_bytes xs (λ x. omega (arith, length-float_bytes x)))
length-body (double_vector xs) (_, l) =
    omega (arith, length-codes double_bytes xs (λ x. omega (arith, length-double_bytes x)))
length-body (int8_vector xs) (_, l) = omega (arith, length-map xs int8_byte)
length-body (binary_vector xs) l = omega arith
