-- ===== src/Buffer/Stream.antt =====
-- What a read does: it takes the next bytes of those not yet read.
use python_oracledb.Prelude.{
  ℕ, ◌+◌, ◌-◌, ◌≤◌, ◌≡◌, refl, sym, ap, ◌∙◌, arith, List, [], ◌++◌, length, take, drop,
  length-append, length-take, length-drop, take-length-append, drop-length-append, take-take,
  drop-take, drop-drop, ltb, false,
}
use mathlib.Core.List.{append_assoc}
use python_oracledb.Errors.{ok}
use python_oracledb.Buffer.{Buffer, M, ◌>>=◌, pure, bind_ok, get_raw, advance}

pub record CanRead (b : Buffer) : Type 0 where
  pub before_end : b.position ≤ b.size
  pub in_memory : b.size ≤ length b.contents

-- The bytes between the current position and the end of the data.
abbrev pub unread : Buffer → List ℕ
unread b = take (b.size - b.position) (drop b.position b.contents)

-- A method that, where `bytes` come next, takes just these and returns `a`.
abbrev pub Reads : {A : Type 0} → M A → List ℕ → A → Type 0
Reads f bytes a =
    (b : Buffer) (rest : List ℕ)
    → CanRead b
    → unread b ≡ bytes ++ rest
    → f b ≡ ok (a, advance (length bytes) b)

pub length-unread : (b : Buffer) → CanRead b → length (unread b) ≡ b.size - b.position
length-unread b c = omega (
  arith,
  length-take (b.size - b.position) (drop b.position b.contents),
  length-drop b.position b.contents,
  c.before_end,
  c.in_memory,
)

module _ (bytes : List ℕ) (b : Buffer) (rest : List ℕ) (c : CanRead b)
    (e : unread b ≡ bytes ++ rest) where
  enough : b.position + length bytes ≤ b.size
  enough = omega (arith, length-unread b c, ap length e, length-append bytes rest, c.before_end)

  next_bytes : take (length bytes) (drop b.position b.contents) ≡ bytes
  next_bytes =
      sym (
        take-take (length bytes) (b.size - b.position) (drop b.position b.contents)
          (omega (arith, enough)))
      ∙ ap (take (length bytes)) e
      ∙ take-length-append (length bytes) bytes rest refl

  pub advance-CanRead : CanRead (advance (length bytes) b)
  advance-CanRead = record { before_end = enough; in_memory = c.in_memory }

  pub unread-advance : unread (advance (length bytes) b) ≡ rest
  unread-advance =
      let n = length bytes in
      let left : b.size - (b.position + n) ≡ b.size - b.position - n = omega arith in
      rw (left, ← drop-drop n b.position b.contents)
        (sym (drop-take n (b.size - b.position) (drop b.position b.contents))
          ∙ ap (drop n) e
          ∙ drop-length-append n bytes rest refl)

-- `_get_raw` is the elementary read.
pub get_raw-Reads : (bytes : List ℕ) → Reads (get_raw (length bytes)) bytes bytes
unfolding get_raw
get_raw-Reads bytes b rest c e =
    let t : ltb b.size (b.position + length bytes) ≡ false =
      ground (arith, enough bytes b rest c e) in
    rw (t, next_bytes bytes b rest c e)

pub pure-Reads : {A : Type 0} (a : A) → Reads (pure a) [] a
pure-Reads a b rest c e = ap (λ n. ok (a, record b { position = n })) (omega arith)

pub bind-Reads :
    {A B : Type 0} (m : M A) (f : A → M B) (xs ys : List ℕ) {a : A} {z : B}
    → Reads m xs a
    → Reads (f a) ys z
    → Reads (m >>= f) (xs ++ ys) z
bind-Reads m f xs ys {a} {z} R S b rest c e =
    let e' : unread b ≡ xs ++ (ys ++ rest) = e ∙ append_assoc xs ys rest in
    let c' = advance-CanRead xs b (ys ++ rest) c e' in
    let u = unread-advance xs b (ys ++ rest) c e' in
    bind_ok m f b (R b (ys ++ rest) c e')
    ∙ S (advance (length xs) b) rest c' u
    ∙ ap (λ n. ok (z, record b { position = n })) (omega (arith, length-append xs ys))

-- A fixed number of bytes and a value computed from them.
pub get_raw_map-Reads :
    {A : Type 0} (f : List ℕ → A) (n : ℕ) (bytes : List ℕ)
    → length bytes ≡ n
    → Reads (do ptr ← get_raw n; pure (f ptr)) bytes (f bytes)
get_raw_map-Reads f n bytes e = rw (← e) (λ b rest c r.
    bind_ok (get_raw (length bytes)) (λ ptr. pure (f ptr)) b (get_raw-Reads bytes b rest c r))
