-- ===== src/Buffer/Terminated.antt =====
-- src/oracledb/impl/base/buffer.pyx: Buffer.read_null_terminated_bytes and read_str.
use python_oracledb.Prelude.{
  ℕ, zero, suc, ◌+◌, ◌-◌, ◌≡◌, refl, ap, ◌∙◌, arith, Bool, true, not, List, [], ◌∷◌, ◌++◌, length,
  length-append, length-drop, length-take, take-append_left, drop-append_left, take, drop, ◌<◌,
  Option, none, some, ◌==◌, if◌then◌else◌,
}
use mathlib.Core.List.{append_assoc}
use python_oracledb.Errors.{Result, ok, err, stuck}
use python_oracledb.StatementParser.Tokens.{all_chars}
use python_oracledb.StatementParser.Scans.{and_true, negated}
use python_oracledb.Buffer.{Buffer, M, ◌>>=◌, pure, advance}
use python_oracledb.Buffer.Length.{read_raw_bytes_and_length}
use python_oracledb.Buffer.Stream.{CanRead, unread, length-unread, Reads}

-- The number of bytes in front of the first zero, or before the end of the data if there is none.
unfoldable pub bytes_to_null : ℕ → List ℕ → ℕ
bytes_to_null left [] = 0
bytes_to_null zero (x ∷ xs) = 0
bytes_to_null (suc left) (x ∷ xs) =
    let rest = bytes_to_null left xs in if x == 0 then 0 else suc rest

-- CPython keeps a zero behind the bytes of the memory. One byte more than was passed over is taken.
unfoldable pub read_null_terminated_bytes : M (List ℕ)
unfolding bytes_to_null
read_null_terminated_bytes b =
    let memory = drop b.position (b.contents ++ (0 ∷ [])) in
    let num_bytes = bytes_to_null (b.size - b.position) memory + 1 in
    ok (take num_bytes memory, advance num_bytes b)

abbrev pub cs_form_implicit : ℕ
cs_form_implicit = 1

-- `bytes.decode` for the two encodings is an argument.
unfoldable pub read_str :
    {S : Type 0} → (ℕ → M (List ℕ)) → (List ℕ → Result S) → (List ℕ → Result S) → ℕ → M (Option S)
unfolding read_raw_bytes_and_length
read_str helper utf8 utf16 csfrm = do
  ptr ← read_raw_bytes_and_length helper
  elim ptr [
    | none ↦ pure none
    | some bytes ↦ λ b. elim (if csfrm == cs_form_implicit then utf8 bytes else utf16 bytes) [
      | ok s ↦ ok (some s, b)
      | err e ↦ err e
      | stuck ↦ stuck
    ]
  ]

abbrev pub is_set : ℕ → Bool
is_set byte = not (byte == 0)

bytes_to_null-take :
    (left : ℕ) (xs text rest : List ℕ)
    → take left xs ≡ text ++ (0 ∷ rest)
    → all_chars is_set text ≡ true
    → (bytes_to_null left xs ≡ length text) × (take (suc (length text)) xs ≡ text ++ (0 ∷ []))
unfolding bytes_to_null
bytes_to_null-take zero xs text rest e a =
    absurd (omega (arith, ap length e, length-append text (0 ∷ rest)))
bytes_to_null-take (suc left) [] text rest e a =
    absurd (omega (arith, ap length e, length-append text (0 ∷ rest)))
bytes_to_null-take (suc left) (x ∷ xs) [] rest e a = ground arith
bytes_to_null-take (suc left) (x ∷ xs) (c ∷ cs) rest e a =
    let first : x ≡ c = ground arith in
    let behind : take left xs ≡ cs ++ (0 ∷ rest) = ground arith in
    let (here, later) = and_true (is_set c) _ a in
    let (n, t) = bytes_to_null-take left xs cs rest behind later in
    rw (first, negated (c == 0) here, n, t) (refl, refl)

-- Where no byte of the data is zero, all of them are passed over.
bytes_to_null-all :
    (left : ℕ) (xs : List ℕ)
    → left < length xs
    → all_chars is_set (take left xs) ≡ true
    → bytes_to_null left xs ≡ left
unfolding bytes_to_null
bytes_to_null-all left [] h a = absurd (omega (arith, h))
bytes_to_null-all zero (x ∷ xs) h a = refl
bytes_to_null-all (suc left) (x ∷ xs) h a =
    let (here, later) = and_true (is_set x) _ a in
    rw (negated (x == 0) here) (ap suc (bytes_to_null-all left xs (omega (arith, h)) later))

-- The memory behind the position, up to the end of the data.
unread-memory :
    (b : Buffer)
    → CanRead b
    → take (b.size - b.position) (drop b.position (b.contents ++ (0 ∷ []))) ≡ unread b
unread-memory b c =
    ap (take (b.size - b.position))
      (drop-append_left b.position b.contents (0 ∷ []) (omega (arith, c.before_end, c.in_memory)))
    ∙ take-append_left (b.size - b.position) (drop b.position b.contents) (0 ∷ [])
        (omega (arith, length-drop b.position b.contents, c.before_end, c.in_memory))

-- Where the data that are left start with bytes that are not zero and a zero behind them, these are
-- returned with the zero, and the position is behind it.
pub read_null_terminated_bytes-Reads :
    (text : List ℕ)
    → all_chars is_set text ≡ true
    → Reads read_null_terminated_bytes (text ++ (0 ∷ [])) (text ++ (0 ∷ []))
unfolding read_null_terminated_bytes
read_null_terminated_bytes-Reads text a b rest c e =
    let memory = drop b.position (b.contents ++ (0 ∷ [])) in
    let next = unread-memory b c ∙ e ∙ append_assoc text (0 ∷ []) rest in
    let (n, t) = bytes_to_null-take (b.size - b.position) memory text rest next a in
    let size : bytes_to_null (b.size - b.position) memory + 1 ≡ suc (length text) =
      omega (arith, n) in
    let whole : suc (length text) ≡ length (text ++ (0 ∷ [])) =
      omega (arith, length-append text (0 ∷ [])) in
    ap (λ k. ok (take k memory, advance k b)) size
    ∙ ap (λ xs. ok (xs, advance (suc (length text)) b)) t
    ∙ ap (λ k. ok (text ++ (0 ∷ []), advance k b)) whole

-- Where none of the bytes that are left is zero, one byte more than these is returned, and the position
-- is one behind the end of the data.
pub read_null_terminated_bytes-end :
    (b : Buffer)
    → CanRead b
    → all_chars is_set (unread b) ≡ true
    → (bytes : List ℕ) × (read_null_terminated_bytes b
        ≡ ok (bytes, record b { position = b.size + 1 }))
      × (length bytes ≡ length (unread b) + 1)
unfolding read_null_terminated_bytes
read_null_terminated_bytes-end b c a =
    let memory = drop b.position (b.contents ++ (0 ∷ [])) in
    let left = b.size - b.position in
    let long : length memory ≡ length b.contents + 1 - b.position =
      omega (
        arith,
        length-drop b.position (b.contents ++ (0 ∷ [])),
        length-append b.contents (0 ∷ []),
      ) in
    let all =
      bytes_to_null-all left memory (omega (arith, long, c.before_end, c.in_memory))
        (ap (all_chars is_set) (unread-memory b c) ∙ a) in
    let behind : b.position + (bytes_to_null left memory + 1) ≡ b.size + 1 =
      omega (arith, all, c.before_end) in
    (
      take (bytes_to_null left memory + 1) memory,
      ap (λ p. ok (take (bytes_to_null left memory + 1) memory, record b { position = p })) behind,
      omega (
        arith,
        length-take (bytes_to_null left memory + 1) memory,
        all,
        long,
        length-unread b c,
        c.before_end,
        c.in_memory,
      ),
    )
