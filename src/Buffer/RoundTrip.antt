-- ===== src/Buffer/RoundTrip.antt =====
-- What a growable buffer holds after a write is read back from a buffer populated with its bytes.
use python_oracledb.Prelude.{
  ℕ, ◌+◌, ◌-◌, ◌^◌, ◌<◌, ◌≡◌, refl, inl, arith, List, ◌++◌, length, length-replicate, take_all,
}
use python_oracledb.Errors.{ok}
use python_oracledb.Buffer.{Buffer, M, growable, initialize, populate_from_bytes, advance}
use python_oracledb.Buffer.Room.{written, CanTake}
use python_oracledb.Buffer.Append.{Appends}
use python_oracledb.Buffer.Stream.{Reads, CanRead, unread}

pub initialize-CanTake : (n m : ℕ) → n < 2 ^ 62 → m < 2 ^ 60 → CanTake m (initialize growable n)
unfolding initialize
initialize-CanTake n m h k = record {
  sized = length-replicate {A = ℕ} n 0;
  within = omega arith;
  room = inl (refl, h, omega arith);
}

pub populate-CanRead : (bytes : List ℕ) → CanRead (populate_from_bytes bytes)
unfolding populate_from_bytes
populate-CanRead bytes = record { before_end = omega arith; in_memory = omega arith }

pub populate-unread : (bytes : List ℕ) → unread (populate_from_bytes bytes) ≡ bytes
unfolding populate_from_bytes
populate-unread bytes = take_all (length bytes - 0) bytes (omega arith)

-- The write into a new growable buffer succeeds, and what it left there, with anything behind it,
-- is read as `a` and no further.
abbrev pub ReadsBack : {A : Type 0} → M (Unit {0}) → M A → A → ℕ → List ℕ → Type 0
ReadsBack w r a n rest =
    (b : Buffer) × (w (initialize growable n) ≡ ok (tt, b))
    × (r (populate_from_bytes (written b ++ rest))
        ≡ ok (a, advance (length (written b)) (populate_from_bytes (written b ++ rest))))

pub round_trip :
    {A : Type 0} (w : M (Unit {0})) (r : M A) (bytes : List ℕ) (a : A) (n : ℕ) (rest : List ℕ)
    → length bytes < 2 ^ 60
    → n < 2 ^ 62
    → Appends w bytes
    → Reads r bytes a
    → ReadsBack w r a n rest
unfolding initialize
round_trip w r bytes a n rest small h W R =
    let (b, e, left, _) =
      W 0 (initialize growable n) (initialize-CanTake n (length bytes + 0) h (omega arith)) in
    (b, e, read_from b left.bytes_written)
  where
    read_from :
        (b : Buffer)
        → written b ≡ bytes
        → r (populate_from_bytes (written b ++ rest))
          ≡ ok (a, advance (length (written b)) (populate_from_bytes (written b ++ rest)))
    read_from b wr = rw wr (
        R (populate_from_bytes (bytes ++ rest)) rest (populate-CanRead (bytes ++ rest))
          (populate-unread (bytes ++ rest)))
