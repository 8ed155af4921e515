-- ===== src/Vector/RoundTrip.antt =====
-- src/oracledb/impl/base/vector.pyx: what VectorEncoder writes, VectorDecoder reads.
use python_oracledb.Prelude.{
  ℕ, ◌+◌, ◌^◌, ◌<◌, ◌≡◌, refl, sym, ap, ◌∙◌, arith, inl, List, [], ◌∷◌, ◌++◌, length, length-append,
}
use mathlib.Core.List.{append-nil}
use mathlib.Core.Path.{subst}
use python_oracledb.Bytes.Order.{
  order_bytes, pack_uint16_lem, pack_uint32_lem, unpack_uint16-pack_uint16,
  unpack_uint32-pack_uint32,
}
use python_oracledb.Prelude.Int.{ℤ, pos, negsuc}
use python_oracledb.Bytes.{msb, be_bytes, unpack_uint16, unpack_uint32}
use python_oracledb.Buffer.{M, ◌>>=◌, pure, machine_byte_order, bind_ok}
use python_oracledb.Buffer.Integer.{head_byte, read_ub1, read_sb1, read_uint16, read_uint32, signed}
use python_oracledb.Buffer.Room.{written, CanTake-mono}
use python_oracledb.Buffer.Append.{Appends, length-be_bytes, then-Appends}
use python_oracledb.Buffer.Raw.{write_raw-Appends}
use python_oracledb.Buffer.Stream.{Reads, length-unread, get_raw_map-Reads, bind-Reads, pure-Reads}
use python_oracledb.Buffer.Skip.{skip_raw_bytes}
use python_oracledb.Buffer.Skip.Loop.{skip_raw_bytes_lem}
use python_oracledb.Float.{
  float_bytes, double_bytes, write_binary_float, write_binary_double, parse_binary_float,
  parse_binary_double, canonical_four, canonical_eight,
}
use python_oracledb.Float.RoundTrip.{
  parse_binary_float-float_bytes, parse_binary_double-double_bytes,
}
use python_oracledb.Vector.{
  int8_byte, write_floats, write_doubles, times, read_float_element, read_double_element,
}

abbrev pub All : {A : Type 0} → (A → Type 0) → List A → Type 0
All good [] = Unit {0}
All good (x ∷ xs) = good x × All good xs

abbrev pub codes : {A : Type 0} → (A → List ℕ) → List A → List ℕ
codes code [] = []
codes code (x ∷ xs) = code x ++ codes code xs

pub pure-Appends : Appends (pure tt) []
pure-Appends later b can = (
  b,
  refl,
  record {
    bytes_written = sym (append-nil (written b));
    moved = omega arith;
    kept_class = refl;
    now_sized = can.sized;
    now_within = can.within;
    not_smaller = omega arith;
    kept_size = refl;
    bounded = inl refl;
  },
  CanTake-mono (0 + later) later b (omega arith) can,
)

pub write_floats-Appends : (xs : List ℕ) → Appends (write_floats xs) (codes float_bytes xs)
unfolding write_floats write_binary_float
write_floats-Appends [] = pure-Appends
write_floats-Appends (x ∷ xs) =
    then-Appends (write_raw-Appends (float_bytes x)) (write_floats-Appends xs)

pub write_doubles-Appends : (xs : List ℕ) → Appends (write_doubles xs) (codes double_bytes xs)
unfolding write_doubles write_binary_double
write_doubles-Appends [] = pure-Appends
write_doubles-Appends (x ∷ xs) =
    then-Appends (write_raw-Appends (double_bytes x)) (write_doubles-Appends xs)

pub map-Reads :
    {A B : Type 0} (m : M A) (f : A → B) (bytes : List ℕ) {a : A}
    → Reads m bytes a
    → Reads (do x ← m; pure (f x)) bytes (f a)
map-Reads m f bytes R b rest c e = bind_ok m (λ x. pure (f x)) b (R b rest c e)

pub length-float_bytes : (v : ℕ) → length (float_bytes v) ≡ 4
unfolding float_bytes canonical_four
length-float_bytes v = ground arith

pub length-double_bytes : (v : ℕ) → length (double_bytes v) ≡ 8
unfolding double_bytes canonical_eight
length-double_bytes v = ground arith

pub times-Reads :
    {A : Type 0} (m : M A) (code : A → List ℕ) (good : A → Type 0) (xs : List A)
    → ((x : A) → good x → Reads m (code x) x)
    → All good xs
    → Reads (times (length xs) m) (codes code xs) xs
unfolding times
times-Reads m code good [] each all = pure-Reads []
times-Reads m code good (x ∷ xs) each (here, later) =
    bind-Reads m (λ y. do ys ← times (length xs) m; pure (y ∷ ys)) (code x) (codes code xs)
      (each x here)
      (map-Reads (times (length xs) m) (λ ys. x ∷ ys) (codes code xs)
        (times-Reads m code good xs each later))

pub float-Reads : (v : ℕ) → v < 2 ^ 32 → Reads read_float_element (float_bytes v) v
unfolding read_float_element
float-Reads v h =
    subst (Reads read_float_element (float_bytes v)) (parse_binary_float-float_bytes v h)
      (get_raw_map-Reads parse_binary_float 4 (float_bytes v) (length-float_bytes v))

pub double-Reads : (v : ℕ) → v < 2 ^ 64 → Reads read_double_element (double_bytes v) v
unfolding read_double_element
double-Reads v h =
    subst (Reads read_double_element (double_bytes v)) (parse_binary_double-double_bytes v h)
      (get_raw_map-Reads parse_binary_double 8 (double_bytes v) (length-double_bytes v))

pub ub1-Reads : (v : ℕ) → Reads read_ub1 (v ∷ []) v
unfolding read_ub1
ub1-Reads v = get_raw_map-Reads head_byte 1 (v ∷ []) refl

abbrev pub IsInt8 : ℤ → Type 0
IsInt8 (pos n) = n < 128
IsInt8 (negsuc n) = n < 128

signed-int8_byte : (z : ℤ) → IsInt8 z → signed 8 (int8_byte z) ≡ z
unfolding signed
signed-int8_byte (pos n) h = ground arith
signed-int8_byte (negsuc n) h = ground arith

pub sb1-Reads : (z : ℤ) → IsInt8 z → Reads read_sb1 (int8_byte z ∷ []) z
unfolding read_sb1
sb1-Reads z h =
    subst (Reads read_sb1 (int8_byte z ∷ [])) (signed-int8_byte z h)
      (get_raw_map-Reads (λ ptr. signed 8 (head_byte ptr)) 1 (int8_byte z ∷ []) refl)

pub uint16-Reads : (v : ℕ) → v < 2 ^ 16 → Reads (read_uint16 msb) (be_bytes 2 v) v
unfolding read_uint16 order_bytes
uint16-Reads v h =
    let back : unpack_uint16 machine_byte_order (be_bytes 2 v) msb ≡ v =
      ap (λ bytes. unpack_uint16 machine_byte_order bytes msb)
        (sym (pack_uint16_lem machine_byte_order msb v h))
      ∙ unpack_uint16-pack_uint16 machine_byte_order msb v h in
    subst (Reads (read_uint16 msb) (be_bytes 2 v)) back (
      get_raw_map-Reads (λ ptr. unpack_uint16 machine_byte_order ptr msb) 2 (be_bytes 2 v)
        (length-be_bytes 2 v))

pub uint32-Reads : (v : ℕ) → v < 2 ^ 32 → Reads (read_uint32 msb) (be_bytes 4 v) v
unfolding read_uint32 order_bytes
uint32-Reads v h =
    let back : unpack_uint32 machine_byte_order (be_bytes 4 v) msb ≡ v =
      ap (λ bytes. unpack_uint32 machine_byte_order bytes msb)
        (sym (pack_uint32_lem machine_byte_order msb v h))
      ∙ unpack_uint32-pack_uint32 machine_byte_order msb v h in
    subst (Reads (read_uint32 msb) (be_bytes 4 v)) back (
      get_raw_map-Reads (λ ptr. unpack_uint32 machine_byte_order ptr msb) 4 (be_bytes 4 v)
        (length-be_bytes 4 v))

pub skip-Reads : (gap : List ℕ) → Reads (skip_raw_bytes (length gap)) gap tt
skip-Reads gap b rest c e =
    skip_raw_bytes_lem (length gap) b
      (omega (arith, length-unread b c, ap length e, length-append gap rest, c.before_end))
