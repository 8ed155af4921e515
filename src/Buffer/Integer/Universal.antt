-- ===== src/Buffer/Integer/Universal.antt =====
-- The universal format: what write_ub2, write_ub4 and write_ub8 append, and what reads it back.
use python_oracledb.Prelude.{
  ℕ, ◌^◌, ◌<◌, ◌≡◌, arith, true, List, [], ◌∷◌, leb, ◌==◌, if◌then◌else◌, Bool-cases, inl, inr,
}
use python_oracledb.Bytes.{msb, be_bytes}
use python_oracledb.Buffer.{◌>>◌, write_uint8, write_uint16, write_uint32, write_uint64}
use python_oracledb.Buffer.Append.{
  Appends, then-Appends, write_uint8-Appends, write_uint16-Appends, write_uint32-Appends,
  write_uint64-Appends,
}
use python_oracledb.Buffer.Integer.{write_ub2, write_ub4, write_ub8}

-- A length byte, which is 0 for zero, and 1, 2, 4 or 8 bytes, most significant first.
unfoldable pub ub_bytes : ℕ → List ℕ
ub_bytes v =
    if v == 0
    then 0 ∷ []
    else if leb v 0xff
    then 1 ∷ v ∷ []
    else if leb v 0xffff
    then 2 ∷ be_bytes 2 v
    else if leb v 0xffff_ffff
    then 4 ∷ be_bytes 4 v
    else 8 ∷ be_bytes 8 v

-- The first three cases are those of every width.
module _ (v : ℕ) where
  append_one : Appends (do write_uint8 1; write_uint8 v) (1 ∷ v ∷ [])
  append_one = then-Appends (write_uint8-Appends 1) (write_uint8-Appends v)

  append_two : v < 2 ^ 16 → Appends (do write_uint8 2; write_uint16 v msb) (2 ∷ be_bytes 2 v)
  append_two h = then-Appends (write_uint8-Appends 2) (write_uint16-Appends v h)

  append_four : v < 2 ^ 32 → Appends (do write_uint8 4; write_uint32 v msb) (4 ∷ be_bytes 4 v)
  append_four h = then-Appends (write_uint8-Appends 4) (write_uint32-Appends v h)

  append_eight : v < 2 ^ 64 → Appends (do write_uint8 8; write_uint64 v msb) (8 ∷ be_bytes 8 v)
  append_eight h = then-Appends (write_uint8-Appends 8) (write_uint64-Appends v h)

  pub write_ub2-Appends : v < 2 ^ 16 → Appends (write_ub2 v) (ub_bytes v)
  unfolding write_ub2 ub_bytes
  write_ub2-Appends h = elim (Bool-cases (v == 0)) [
    | inl e ↦ rw e (write_uint8-Appends 0)
    | inr e ↦ rw e (elim (Bool-cases (leb v 0xff)) [
      | inl e₁ ↦ rw e₁ append_one
      | inr e₁ ↦ let e₂ : leb v 0xffff ≡ true = ground arith in rw (e₁, e₂) (append_two h)
    ])
  ]

  pub write_ub4-Appends : v < 2 ^ 32 → Appends (write_ub4 v) (ub_bytes v)
  unfolding write_ub4 ub_bytes
  write_ub4-Appends h = elim (Bool-cases (v == 0)) [
    | inl e ↦ rw e (write_uint8-Appends 0)
    | inr e ↦ rw e (elim (Bool-cases (leb v 0xff)) [
      | inl e₁ ↦ rw e₁ append_one
      | inr e₁ ↦ rw e₁ (elim (Bool-cases (leb v 0xffff)) [
        | inl e₂ ↦ rw e₂ (append_two (ground arith))
        | inr e₂ ↦ let e₃ : leb v 0xffff_ffff ≡ true = ground arith in rw (e₂, e₃) (append_four h)
      ])
    ])
  ]

  pub write_ub8-Appends : v < 2 ^ 64 → Appends (write_ub8 v) (ub_bytes v)
  unfolding write_ub8 ub_bytes
  write_ub8-Appends h = elim (Bool-cases (v == 0)) [
    | inl e ↦ rw e (write_uint8-Appends 0)
    | inr e ↦ rw e (elim (Bool-cases (leb v 0xff)) [
      | inl e₁ ↦ rw e₁ append_one
      | inr e₁ ↦ rw e₁ (elim (Bool-cases (leb v 0xffff)) [
        | inl e₂ ↦ rw e₂ (append_two (ground arith))
        | inr e₂ ↦ rw e₂ (elim (Bool-cases (leb v 0xffff_ffff)) [
          | inl e₃ ↦ rw e₃ (append_four (ground arith))
          | inr e₃ ↦ rw e₃ (append_eight h)
        ])
      ])
    ])
  ]
