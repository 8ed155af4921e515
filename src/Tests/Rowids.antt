-- ===== src/Tests/Rowids.antt =====
-- The theorems on the text of rowids at concrete rowids.
use python_oracledb.Prelude.{ℕ, ◌≡◌, refl, arith, List, [], ◌∷◌, length, some}
use python_oracledb.Rowid.{Rowid, encode_rowid}
use python_oracledb.Rowid.Text.{decode_rowid, decode_rowid-encode_rowid}

abbrev some_rowid : Rowid
some_rowid = record { rba = 75215; partition_id = 12; block_num = 135; slot_num = 2 }

-- AAASXPAAMAAAACHAAC
encode_run :
    encode_rowid some_rowid
    ≡ some (
        65 ∷ 65 ∷ 65 ∷ 83 ∷ 88 ∷ 80 ∷ 65 ∷ 65 ∷ 77 ∷ 65 ∷ 65 ∷ 65 ∷ 65 ∷ 67 ∷ 72 ∷ 65 ∷ 65 ∷ 67
        ∷ [])
unfolding encode_rowid
encode_run = refl

decode_rowid-encode_rowid_example :
    (text : List ℕ) × (encode_rowid some_rowid ≡ some text)
    × (length text ≡ 18)
    × (decode_rowid text ≡ some_rowid)
decode_rowid-encode_rowid_example =
    decode_rowid-encode_rowid some_rowid (omega arith) (omega arith) (omega arith) (omega arith)
      (omega arith)
