-- ===== src/Rowid.antt =====
-- The text of rowids: src/oracledb/impl/thin/utils.pyx, _convert_base64 and _encode_rowid, and
-- ReadBuffer.read_rowid and ReadBuffer.read_urowid of src/oracledb/impl/thin/packet.pyx, whose reads are
-- those of class Buffer here. A character is its code.
pub mod Text
use python_oracledb.Prelude.{
  ℕ, zero, suc, ◌+◌, ◌-◌, ◌*◌, ◌/◌, ◌%◌, bit_and, bit_or, not, ◌&&◌, ◌||◌, List, [], ◌∷◌, ◌++◌,
  take, drop, get_or, Option, none, some, ◌==◌, if◌then◌else◌,
}
use python_oracledb.Bytes.{msb, unpack_uint16, unpack_uint32}
use python_oracledb.Buffer.{M, ◌>>=◌, ◌>>◌, pure, machine_byte_order}
use python_oracledb.Buffer.Integer.{read_ub2, read_ub4}
use python_oracledb.Buffer.Skip.{skip_ub1}
use python_oracledb.Buffer.Length.{read_raw_bytes_and_length}

pub record Rowid : Type 0 where
  pub rba : ℕ
  pub partition_id : ℕ
  pub block_num : ℕ
  pub slot_num : ℕ

-- TNS_BASE64_ALPHABET.
abbrev pub alphabet : List ℕ
alphabet =
    65 ∷ 66 ∷ 67 ∷ 68 ∷ 69 ∷ 70 ∷ 71 ∷ 72 ∷ 73 ∷ 74 ∷ 75 ∷ 76 ∷ 77 ∷ 78 ∷ 79 ∷ 80 ∷ 81 ∷ 82 ∷ 83
    ∷ 84 ∷ 85 ∷ 86 ∷ 87 ∷ 88 ∷ 89 ∷ 90 ∷ 97 ∷ 98 ∷ 99 ∷ 100 ∷ 101 ∷ 102 ∷ 103 ∷ 104 ∷ 105 ∷ 106
    ∷ 107 ∷ 108 ∷ 109 ∷ 110 ∷ 111 ∷ 112 ∷ 113 ∷ 114 ∷ 115 ∷ 116 ∷ 117 ∷ 118 ∷ 119 ∷ 120 ∷ 121 ∷ 122
    ∷ 48 ∷ 49 ∷ 50 ∷ 51 ∷ 52 ∷ 53 ∷ 54 ∷ 55 ∷ 56 ∷ 57 ∷ 43 ∷ 47 ∷ []

unfoldable pub base64_char : ℕ → ℕ
base64_char i = get_or alphabet i 0

-- _convert_base64: the last character is that of the lowest six bits.
unfoldable pub convert_base64 : ℕ → ℕ → List ℕ
unfolding base64_char
convert_base64 zero value = []
convert_base64 (suc size) value =
    convert_base64 size (value / 64) ++ base64_char (bit_and value 0x3f) ∷ []

-- `none` is None.
unfoldable pub encode_rowid : Rowid → Option (List ℕ)
unfolding convert_base64
encode_rowid r =
    if not (r.rba == 0)
      || not (r.partition_id == 0)
      || not (r.block_num == 0)
      || not (r.slot_num == 0)
    then some (
        convert_base64 6 r.rba
        ++ (convert_base64 3 r.partition_id
            ++ (convert_base64 6 r.block_num ++ convert_base64 3 r.slot_num)))
    else none

unfoldable pub read_rowid : M Rowid
read_rowid = do
  rba ← read_ub4
  partition_id ← read_ub2
  skip_ub1
  block_num ← read_ub4
  slot_num ← read_ub2
  pure (record {
    rba = rba;
    partition_id = partition_id;
    block_num = block_num;
    slot_num = slot_num;
  })

unfoldable pub physical_rowid : List ℕ → Rowid
physical_rowid bytes = record {
  rba = unpack_uint32 machine_byte_order (take 4 (drop 1 bytes)) msb;
  partition_id = unpack_uint16 machine_byte_order (take 2 (drop 5 bytes)) msb;
  block_num = unpack_uint32 machine_byte_order (take 4 (drop 7 bytes)) msb;
  slot_num = unpack_uint16 machine_byte_order (take 2 (drop 11 bytes)) msb;
}

-- The loop over the bytes of a logical rowid behind the first one.
unfoldable pub logical_chars : List ℕ → List ℕ
unfolding base64_char
logical_chars [] = []
logical_chars (a ∷ []) = base64_char (a / 4) ∷ base64_char (bit_and a 0x3 * 16) ∷ []
logical_chars (a ∷ b ∷ []) =
    base64_char (a / 4)
    ∷ base64_char (bit_or (bit_and a 0x3 * 16) (bit_and b 0xf0 / 16))
    ∷ base64_char (bit_and b 0xf * 4)
    ∷ []
logical_chars (a ∷ b ∷ c ∷ rest) =
    base64_char (a / 4)
    ∷ base64_char (bit_or (bit_and a 0x3 * 16) (bit_and b 0xf0 / 16))
    ∷ base64_char (bit_or (bit_and b 0xf * 4) (bit_and c 0xc0 / 64))
    ∷ base64_char (bit_and c 0x3f)
    ∷ logical_chars rest

-- The size of the bytearray that is made for a logical rowid of `input_len` bytes.
unfoldable pub logical_length : ℕ → ℕ
logical_length input_len =
    let quadruples = input_len / 3 * 4 in
    if input_len % 3 == 1
    then quadruples + 1
    else if input_len % 3 == 2
    then quadruples + 3
    else quadruples

-- The characters that are stored in it, the first of which is `*`.
unfoldable pub logical_rowid : List ℕ → List ℕ
unfolding logical_chars
logical_rowid bytes = 42 ∷ logical_chars (drop 1 bytes)

unfoldable pub urowid_text : List ℕ → Option (List ℕ)
unfolding physical_rowid encode_rowid logical_rowid
urowid_text bytes =
    if get_or bytes 0 0 == 1
    then encode_rowid (physical_rowid bytes)
    else some (logical_rowid bytes)

-- The first value holds the length, and only its being NULL matters. The bytes of the second are used
-- also where it is NULL, which the source does not test; the model has none then.
unfoldable pub read_urowid : (ℕ → M (List ℕ)) → M (Option (List ℕ))
unfolding urowid_text
read_urowid helper = do
  size ← read_raw_bytes_and_length helper
  let value = (do
    input ← read_raw_bytes_and_length helper
    pure (elim input [ none ↦ none | some bytes ↦ urowid_text bytes ]))
  elim size [ none ↦ pure none | some ignored ↦ value ]
