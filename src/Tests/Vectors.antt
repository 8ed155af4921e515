-- ===== src/Tests/Vectors.antt =====
-- Vectors, floats and doubles at concrete values.
use python_oracledb.Prelude.{◌≡◌, arith, [], ◌∷◌}
use python_oracledb.Prelude.Int.{pos, negsuc}
use python_oracledb.Errors.{ok}
use python_oracledb.Buffer.{Buffer, growable, initialize}
use python_oracledb.Buffer.Room.{written}
use python_oracledb.Float.{double_bytes, parse_binary_double}
use python_oracledb.Float.RoundTrip.{parse_binary_double-double_bytes}
use python_oracledb.Vector.{Vector, int8_vector, encode, decode}
use python_oracledb.Vector.Elements.{IsVector}
use python_oracledb.Vector.Inverse.{decode-encode}

abbrev two_elements : Vector
two_elements = int8_vector (pos 3 ∷ negsuc 4 ∷ [])

two_elements-IsVector : IsVector two_elements
two_elements-IsVector = ((omega arith, (omega arith, tt)), omega arith)

decode-encode_example :
    (b : Buffer) × (encode two_elements (initialize growable 16) ≡ ok (tt, b))
    × (decode (written b) ≡ ok two_elements)
decode-encode_example = decode-encode two_elements 16 two_elements-IsVector (omega arith)

-- The bits of -1.5.
parse_binary_double-double_bytes_example :
    parse_binary_double (double_bytes 0xbff8_0000_0000_0000) ≡ 0xbff8_0000_0000_0000
parse_binary_double-double_bytes_example =
    parse_binary_double-double_bytes 0xbff8_0000_0000_0000 (omega arith)
