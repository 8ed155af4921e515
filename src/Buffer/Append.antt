-- ===== src/Buffer/Append.antt =====
-- What a write does: it appends bytes to those already written, and makes room for them first.
use python_oracledb.Prelude.{
  ℕ, zero, suc, ◌+◌, ◌*◌, ◌^◌, ◌≤◌, ◌<◌, ◌≡◌, refl, ap, ◌∙◌, ◌⊎◌, inl, inr, arith, List, [], ◌∷◌,
  ◌++◌, length, take, drop, length-append, length-take, length-drop, take-length-append,
}
use mathlib.Core.List.{append_assoc}
use python_oracledb.Errors.{ok}
use python_oracledb.Buffer.{
  Buffer, M, ◌>>◌, then_ok, store, ensure_room, write_uint8, write_uint16, write_uint32,
  write_uint64, machine_byte_order,
}
use python_oracledb.Bytes.{msb, be_bytes}
use python_oracledb.Bytes.Order.{order_bytes, pack_uint16_lem, pack_uint32_lem, pack_uint64_lem}
use python_oracledb.Buffer.Room.{written, CanTake, CanTake-mono, Roomier, ensure_room_lem}

pub record Appended (bytes : List ℕ) (b b' : Buffer) : Type 0 where
  pub bytes_written : written b' ≡ written b ++ bytes
  pub moved : b'.position ≡ b.position + length bytes
  pub kept_class : b'.class ≡ b.class
  pub now_sized : length b'.contents ≡ b'.max_size
  pub now_within : b'.position ≤ b'.max_size
  pub not_smaller : b.max_size ≤ b'.max_size
  pub kept_size : b'.size ≡ b.size
  pub bounded : (b'.max_size ≡ b.max_size) ⊎ (b'.max_size ≤ b.position + 2 * length bytes + 32767)

-- Storing bytes for which there is room.
pub store_lem :
    (bytes : List ℕ) (b : Buffer)
    → length b.contents ≡ b.max_size
    → b.position + length bytes ≤ b.max_size
    → (b' : Buffer) × (store bytes b ≡ ok (tt, b'))
      × Appended bytes b b'
      × (b'.max_size ≡ b.max_size)
unfolding store
store_lem bytes b s r = (
  b',
  refl,
  record {
    bytes_written = shown;
    moved = refl;
    kept_class = refl;
    now_sized = long;
    now_within = r;
    not_smaller = omega arith;
    kept_size = refl;
    bounded = inl refl;
  },
  refl,
)
  where
    kept : List ℕ
    kept = take b.position b.contents

    rest : List ℕ
    rest = drop (b.position + length bytes) b.contents

    b' : Buffer
    b' = record b { contents = kept ++ (bytes ++ rest); position = b.position + length bytes }

    kept_length : length kept ≡ b.position
    kept_length = omega (arith, length-take b.position b.contents)

    shown : take (b.position + length bytes) (kept ++ (bytes ++ rest)) ≡ kept ++ bytes
    shown = rw (← append_assoc kept bytes rest) (
        take-length-append (b.position + length bytes) (kept ++ bytes) rest
          (omega (arith, kept_length, length-append kept bytes)))

    long : length (kept ++ (bytes ++ rest)) ≡ b.max_size
    long = omega (
      arith,
      kept_length,
      length-append kept (bytes ++ rest),
      length-append bytes rest,
      length-drop (b.position + length bytes) b.contents,
    )

-- A method that appends `bytes` to every buffer that can take them, and leaves room for later writes.
abbrev pub Appends : M (Unit {0}) → List ℕ → Type 0
Appends f bytes =
    (later : ℕ) (b : Buffer)
    → CanTake (length bytes + later) b
    → (b' : Buffer) × (f b ≡ ok (tt, b')) × Appended bytes b b' × CanTake later b'

-- From room for `bytes` to the bytes stored.
pub store_into :
    (bytes : List ℕ) (later : ℕ) (b b' : Buffer)
    → CanTake (length bytes + later) b
    → Roomier b b'
    → b'.position + length bytes ≤ b'.max_size
    → (b'.max_size ≡ b.max_size) ⊎ (b'.max_size ≤ b.position + 2 * length bytes + 32767)
    → (c : Buffer) × (store bytes b' ≡ ok (tt, c)) × Appended bytes b c × CanTake later c
store_into bytes later b b' can r fits limited =
    let (c, e, a, same) = store_lem bytes b' r.still_sized fits in
    (
      c,
      e,
      record {
        bytes_written = a.bytes_written ∙ ap (λ t. t ++ bytes) r.same_written;
        moved = omega (arith, a.moved, r.same_position);
        kept_class = a.kept_class ∙ r.same_class;
        now_sized = a.now_sized;
        now_within = a.now_within;
        not_smaller = omega (arith, a.not_smaller, r.no_smaller);
        kept_size = a.kept_size ∙ r.same_size;
        bounded = elim limited [ inl e ↦ inl (same ∙ e) | inr l ↦ inr (omega (arith, same, l)) ];
      },
      record {
        sized = a.now_sized;
        within = a.now_within;
        room = elim can.room [
          | inl (g, m, p) ↦ inl (
            a.kept_class ∙ r.same_class ∙ g,
            omega (arith, same),
            omega (arith, a.moved, r.same_position),
          )
          | inr enough ↦ inr (omega (arith, a.moved, r.same_position, same))
        ];
      },
    )

ensure_store-Appends :
    (bytes : List ℕ) (n : ℕ) → length bytes ≡ n → Appends (do ensure_room n; store bytes) bytes
ensure_store-Appends bytes n len later b can =
    let now = CanTake-mono (length bytes + later) n b (omega arith) can in
    let (b', e, made) = ensure_room_lem n b now in
    let (c, e', a, rest) =
      store_into bytes later b b' can made.roomier (rw len made.fits) (rw len made.limited) in
    (c, then_ok (ensure_room n) (store bytes) b b' e ∙ e', a, rest)

-- Two writes, one after the other.
pub then-Appends :
    {f g : M (Unit {0})} {xs ys : List ℕ}
    → Appends f xs
    → Appends g ys
    → Appends (do f; g) (xs ++ ys)
then-Appends {f} {g} {xs} {ys} F G later b can =
    let first =
      CanTake-mono (length (xs ++ ys) + later) (length xs + (length ys + later)) b
        (omega (arith, length-append xs ys)) can in
    let (b₁, e₁, a₁, c₁) = F (length ys + later) b first in
    let (b₂, e₂, a₂, c₂) = G later b₁ c₁ in
    (
      b₂,
      then_ok f g b b₁ e₁ ∙ e₂,
      record {
        bytes_written =
            a₂.bytes_written ∙ ap (λ t. t ++ ys) a₁.bytes_written ∙ append_assoc (written b) xs ys;
        moved = omega (arith, a₁.moved, a₂.moved, length-append xs ys);
        kept_class = a₂.kept_class ∙ a₁.kept_class;
        now_sized = a₂.now_sized;
        now_within = a₂.now_within;
        not_smaller = omega (arith, a₁.not_smaller, a₂.not_smaller);
        kept_size = a₂.kept_size ∙ a₁.kept_size;
        bounded = elim a₂.bounded [
          | inl e ↦ elim a₁.bounded [
            | inl e' ↦ inl (e ∙ e')
            | inr l ↦ inr (omega (arith, e, l, length-append xs ys))
          ]
          | inr l ↦ inr (omega (arith, l, a₁.moved, length-append xs ys))
        ];
      },
      c₂,
    )

pub write_uint8-Appends : (v : ℕ) → Appends (write_uint8 v) (v ∷ [])
unfolding write_uint8
write_uint8-Appends v = ensure_store-Appends (v ∷ []) 1 refl

pub length-be_bytes : (n x : ℕ) → length (be_bytes n x) ≡ n
unfolding be_bytes
length-be_bytes zero x = refl
length-be_bytes (suc n) x = ap suc (length-be_bytes n x)

-- An integer that is written at a fixed width, most significant byte first.
pub write_uint16-Appends : (v : ℕ) → v < 2 ^ 16 → Appends (write_uint16 v msb) (be_bytes 2 v)
unfolding write_uint16 order_bytes
write_uint16-Appends v h =
    rw (pack_uint16_lem machine_byte_order msb v h)
      (ensure_store-Appends (be_bytes 2 v) 2 (length-be_bytes 2 v))

pub write_uint32-Appends : (v : ℕ) → v < 2 ^ 32 → Appends (write_uint32 v msb) (be_bytes 4 v)
unfolding write_uint32 order_bytes
write_uint32-Appends v h =
    rw (pack_uint32_lem machine_byte_order msb v h)
      (ensure_store-Appends (be_bytes 4 v) 4 (length-be_bytes 4 v))

pub write_uint64-Appends : (v : ℕ) → v < 2 ^ 64 → Appends (write_uint64 v msb) (be_bytes 8 v)
unfolding write_uint64 order_bytes
write_uint64-Appends v h =
    rw (pack_uint64_lem machine_byte_order msb v h)
      (ensure_store-Appends (be_bytes 8 v) 8 (length-be_bytes 8 v))
