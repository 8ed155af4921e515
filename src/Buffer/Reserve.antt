-- ===== src/Buffer/Reserve.antt =====
-- GrowableBuffer._reserve_space of src/oracledb/impl/base/buffer.pyx. The size of a growable buffer is
-- never set, so that each call makes the buffer larger.
use python_oracledb.Prelude.{
  ℕ, zero, suc, ◌+◌, ◌^◌, ◌≤◌, ◌<◌, ◌≡◌, refl, ap, ◌∙◌, arith, true, List, [], ◌∷◌, ◌++◌, length,
  take, drop, length-take, length-drop, ltb, take-nil,
}
use python_oracledb.Prelude.Int.{sub_ℕ}
use python_oracledb.Errors.{ok}
use python_oracledb.Buffer.{
  Buffer, growable, advance, grow, resize, num_bytes_needed, write_more_data, write_more_data_of,
  reserve_space,
}
use python_oracledb.Buffer.Room.{written, grow_lem}

take-add : (m n : ℕ) (xs : List ℕ) → take (m + n) xs ≡ take m xs ++ take n (drop m xs)
take-add zero n xs = let e : 0 + n ≡ n = omega arith in ap (λ k. take k xs) e
take-add (suc m) n [] =
    let e : suc m + n ≡ suc (m + n) = omega arith in rw (e, take-nil {A = ℕ} n) refl
take-add (suc m) n (x ∷ xs) =
    let e : suc m + n ≡ suc (m + n) = omega arith in
    ap (λ k. take k (x ∷ xs)) e ∙ ap (λ ys. x ∷ ys) (take-add m n xs)

-- The space that is reserved, whatever bytes stand there.
pub reserve_space_lem :
    (n : ℕ) (b : Buffer)
    → length b.contents ≡ b.max_size
    → b.position ≤ b.max_size
    → b.class ≡ growable
    → b.size ≡ 0
    → 0 < n
    → b.max_size + b.position + n < 2 ^ 61
    → (b' : Buffer) × (gap : List ℕ) × (length gap ≡ n)
      × (reserve_space n b ≡ ok (tt, b'))
      × (written b' ≡ written b ++ gap)
      × (b'.position ≡ b.position + n)
      × (b'.class ≡ growable)
      × (length b'.contents ≡ b'.max_size)
      × (b'.position ≤ b'.max_size)
      × (b'.max_size ≤ b.max_size + b.position + n + 32767)
unfolding reserve_space write_more_data write_more_data_of grow resize
reserve_space_lem n b s w g z p h =
    let available = sub_ℕ (b.size + n) (b.position + n) in
    let k = b.position + n in
    let needed : num_bytes_needed available n ≡ k = ground arith in
    let (r, lo, hi) = grow_lem available n k b needed s w (omega arith) in
    let grown = grow available n b in
    let gap = take n (drop b.position grown.contents) in
    let short : ltb b.size (b.position + n) ≡ true = ground arith in
    (
      advance n grown,
      gap,
      omega (
        arith,
        length-take n (drop b.position grown.contents),
        length-drop b.position grown.contents,
        r.still_sized,
        lo,
      ),
      rw (short, g) refl,
      take-add b.position n grown.contents ∙ ap (λ xs. xs ++ gap) r.same_written,
      refl,
      g,
      r.still_sized,
      omega (arith, lo),
      omega (arith, hi),
    )
