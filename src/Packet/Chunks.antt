-- ===== src/Packet/Chunks.antt =====
-- src/oracledb/impl/thin/packet.pyx: class ChunkedBytesBuffer, which collects the pieces of a value.
-- A chunk is the bytes that were copied to it and the size of its memory. `used` are the chunks in
-- use, the last one first; `spare` are the sizes of the memory of the others, in their order.
use python_oracledb.Prelude.{
  ℕ, ◌+◌, ◌*◌, ◌/◌, ◌%◌, ◌^◌, ◌≤◌, ◌<◌, ◌≡◌, refl, sym, ◌∙◌, arith, bit_and, Bool, true, false,
  List, [], ◌∷◌, ◌++◌, length, length-append, replicate, Option, none, some, ltb, leb,
  if◌then◌else◌, Bool-cases, inl, inr,
}
use python_oracledb.Prelude.Bits.{bit_and_split, bit_and_mask, bit_and-zero}
use mathlib.Core.List.{append_assoc}
use mathlib.Core.Path.{subst}

pub record BytesChunk : Type 0 where
  pub bytes : List ℕ
  pub allocated_length : ℕ

pub record ChunkedBytesBuffer : Type 0 where
  pub used : List BytesChunk
  pub spare : List ℕ

-- The bytes of the chunks.
unfoldable pub contents_of : List BytesChunk → List ℕ
contents_of [] = []
contents_of (c ∷ cs) = contents_of cs ++ c.bytes

abbrev pub contents : ChunkedBytesBuffer → List ℕ
contents b = contents_of b.used

-- `(size + CHUNKED_BYTES_CHUNK_SIZE - 1) & ~(CHUNKED_BYTES_CHUNK_SIZE - 1)` on 32 bits.
unfoldable pub get_chunk_size : ℕ → ℕ
get_chunk_size size = bit_and ((size + 0xffff) % 2 ^ 32) (0xffff * 2 ^ 16)

unfoldable pub has_room : ℕ → BytesChunk → Bool
has_room num_bytes c = leb ((length c.bytes + num_bytes) % 2 ^ 32) c.allocated_length

unfoldable pub empty_chunk : ℕ → ℕ → BytesChunk
unfolding get_chunk_size
empty_chunk num_bytes allocated = record {
  bytes = [];
  allocated_length = if ltb allocated num_bytes then get_chunk_size num_bytes else allocated;
}

-- The next chunk is put in use; _allocate_chunks makes eight where there is none.
unfoldable pub next_chunk : ℕ → List ℕ → ChunkedBytesBuffer → ChunkedBytesBuffer
unfolding empty_chunk
next_chunk num_bytes [] b = record {
  used = empty_chunk num_bytes 0 ∷ b.used;
  spare = replicate 7 0;
}
next_chunk num_bytes (a ∷ rest) b = record { used = empty_chunk num_bytes a ∷ b.used; spare = rest }

-- _get_chunk: the chunk to write to is then the last in use.
unfoldable pub get_chunk_after : List BytesChunk → ℕ → ChunkedBytesBuffer → ChunkedBytesBuffer
unfolding next_chunk has_room
get_chunk_after [] num_bytes b = next_chunk num_bytes b.spare b
get_chunk_after (c ∷ cs) num_bytes b =
    if has_room num_bytes c then b else next_chunk num_bytes b.spare b

unfoldable pub get_chunk : ℕ → ChunkedBytesBuffer → ChunkedBytesBuffer
unfolding get_chunk_after
get_chunk num_bytes b = get_chunk_after b.used num_bytes b

unfoldable pub fill_last : List ℕ → List BytesChunk → List BytesChunk
fill_last bytes [] = []
fill_last bytes (c ∷ cs) = record c { bytes = c.bytes ++ bytes } ∷ cs

-- get_chunk_ptr, and the `memcpy` of the bytes to the pointer.
unfoldable pub append_chunk : List ℕ → ChunkedBytesBuffer → ChunkedBytesBuffer
unfolding get_chunk fill_last
append_chunk bytes b =
    let b' = get_chunk (length bytes) b in record b' { used = fill_last bytes b'.used }

unfoldable pub release : List BytesChunk → List ℕ → List ℕ
release [] spare = spare
release (c ∷ cs) spare = release cs (c.allocated_length ∷ spare)

unfoldable pub start_chunked_read : ChunkedBytesBuffer → ChunkedBytesBuffer
unfolding release
start_chunked_read b = record { used = []; spare = release b.used b.spare }

-- end_chunked_read. There is no pointer to return where no chunk is in use. The chunks have less than
-- 2 ^ 32 bytes in all: from there, `total_num_bytes` wraps and memcpy writes behind its memory.
unfoldable pub join : List BytesChunk → ChunkedBytesBuffer → Option (List ℕ) × ChunkedBytesBuffer
unfolding contents_of get_chunk_size
join [] b = (none, b)
join (c ∷ []) b = (some c.bytes, b)
join (c ∷ d ∷ cs) b =
    let all = contents_of (c ∷ d ∷ cs) in
    (
      some all,
      record {
        used = record { bytes = all; allocated_length = get_chunk_size (length all) } ∷ [];
        spare = replicate (length (d ∷ cs)) 0 ++ b.spare;
      },
    )

unfoldable pub end_chunked_read : ChunkedBytesBuffer → Option (List ℕ) × ChunkedBytesBuffer
unfolding join
end_chunked_read b = join b.used b

pub get_chunk_size_bounds :
    (size : ℕ)
    → size + 0xffff < 2 ^ 32
    → (size ≤ get_chunk_size size) × (get_chunk_size size ≤ size + 0xffff)
unfolding get_chunk_size
get_chunk_size_bounds size h =
    let x = (size + 0xffff) % 2 ^ 32 in
    let y = (size + 0xffff) / 2 ^ 16 in
    let small : x ≡ y * 2 ^ 16 + x % 2 ^ 16 = omega arith in
    let masked : bit_and x (0xffff * 2 ^ 16) ≡ y * 2 ^ 16 = rw small (
      bit_and_split 16 y (x % 2 ^ 16) 0xffff 0 (omega arith) (omega arith)
      ∙ omega (arith, bit_and_mask 16 y, bit_and-zero (x % 2 ^ 16))) in
    (omega (arith, masked), omega (arith, masked))

-- No chunk has more bytes than its memory.
abbrev pub Within : List BytesChunk → Type 0
Within [] = Unit {0}
Within (c ∷ cs) = (length c.bytes ≤ c.allocated_length) × Within cs

-- What a chunk buffer `used` becomes when `bytes` are appended.
abbrev pub Appended : List ℕ → List BytesChunk → List BytesChunk → Type 0
Appended bytes before after =
    (contents_of after ≡ contents_of before ++ bytes)
    × (Within before → length (contents_of before) + length bytes + 0xffff < 2 ^ 32 → Within after)

empty_chunk-Within :
    (n allocated : ℕ) → n + 0xffff < 2 ^ 32 → n ≤ (empty_chunk n allocated).allocated_length
unfolding empty_chunk
empty_chunk-Within n allocated h = ground (arith, get_chunk_size_bounds n h)

next_chunk-Appended :
    (bytes spare : List ℕ) (b : ChunkedBytesBuffer)
    → Appended bytes b.used (fill_last bytes (next_chunk (length bytes) spare b).used)
unfolding next_chunk fill_last contents_of empty_chunk
next_chunk-Appended bytes [] b =
    (refl, λ w h. (empty_chunk-Within (length bytes) 0 (omega arith), w))
next_chunk-Appended bytes (a ∷ rest) b =
    (refl, λ w h. (empty_chunk-Within (length bytes) a (omega arith), w))

filled-Appended :
    (bytes : List ℕ) (c : BytesChunk) (cs : List BytesChunk)
    → has_room (length bytes) c ≡ true
    → Appended bytes (c ∷ cs) (fill_last bytes (c ∷ cs))
unfolding has_room fill_last contents_of
filled-Appended bytes c cs r = (
  sym (append_assoc (contents_of cs) c.bytes bytes),
  λ w h.
      (ground (arith, length-append c.bytes bytes, length-append (contents_of cs) c.bytes, w), w.1),
)

get_chunk_after-Appended :
    (bytes : List ℕ) (used : List BytesChunk) (b : ChunkedBytesBuffer)
    → b.used ≡ used
    → Appended bytes used (fill_last bytes (get_chunk_after used (length bytes) b).used)
unfolding get_chunk_after
get_chunk_after-Appended bytes [] b e =
    subst
      (λ (u : List BytesChunk).
        Appended bytes u (fill_last bytes (next_chunk (length bytes) b.spare b).used))
      e (next_chunk-Appended bytes b.spare b)
get_chunk_after-Appended bytes (c ∷ cs) b e = elim (Bool-cases (has_room (length bytes) c)) [
  | inl t ↦ rw (t, e) (filled-Appended bytes c cs t)
  | inr f ↦ rw f (
      subst
        (λ (u : List BytesChunk).
          Appended bytes u (fill_last bytes (next_chunk (length bytes) b.spare b).used))
        e (next_chunk-Appended bytes b.spare b))
]

-- get_chunk_ptr with its copy appends the bytes to the contents. As long as these and the rounding
-- fit in 32 bits, no chunk gets more bytes than its memory holds.
pub append_chunk-Appended :
    (bytes : List ℕ) (b : ChunkedBytesBuffer) → Appended bytes b.used (append_chunk bytes b).used
unfolding append_chunk get_chunk
append_chunk-Appended bytes b = get_chunk_after-Appended bytes b.used b refl

abbrev pub is_used : List BytesChunk → Bool
is_used [] = false
is_used (c ∷ cs) = true

next_chunk-used :
    (bytes : List ℕ) (n : ℕ) (spare : List ℕ) (b : ChunkedBytesBuffer)
    → is_used (fill_last bytes (next_chunk n spare b).used) ≡ true
unfolding next_chunk fill_last
next_chunk-used bytes n [] b = refl
next_chunk-used bytes n (a ∷ rest) b = refl

get_chunk_after-used :
    (bytes : List ℕ) (used : List BytesChunk) (b : ChunkedBytesBuffer)
    → b.used ≡ used
    → is_used (fill_last bytes (get_chunk_after used (length bytes) b).used) ≡ true
unfolding get_chunk_after fill_last
get_chunk_after-used bytes [] b e = next_chunk-used bytes (length bytes) b.spare b
get_chunk_after-used bytes (c ∷ cs) b e = elim (Bool-cases (has_room (length bytes) c)) [
  | inl t ↦ rw (t, e) refl
  | inr f ↦ rw f (next_chunk-used bytes (length bytes) b.spare b)
]

pub append_chunk-used :
    (bytes : List ℕ) (b : ChunkedBytesBuffer) → is_used (append_chunk bytes b).used ≡ true
unfolding append_chunk get_chunk
append_chunk-used bytes b = get_chunk_after-used bytes b.used b refl

join_lem :
    (used : List BytesChunk) (b : ChunkedBytesBuffer)
    → is_used used ≡ true
    → (join used b).0 ≡ some (contents_of used)
unfolding join contents_of
join_lem [] b n = cc
join_lem (c ∷ []) b n = refl
join_lem (c ∷ d ∷ cs) b n = refl

-- Where a chunk is in use, end_chunked_read returns the contents.
pub end_chunked_read_lem :
    (b : ChunkedBytesBuffer) → is_used b.used ≡ true → (end_chunked_read b).0 ≡ some (contents b)
unfolding end_chunked_read
end_chunked_read_lem b n = join_lem b.used b n
