-- ===== src/Buffer/Skip/Loop.antt =====
-- Buffer.skip_raw_bytes: when its loop ends.
use python_oracledb.Prelude.{
  ℕ, zero, suc, ◌+◌, ◌-◌, ◌≤◌, ◌<◌, min, ◌≡◌, refl, ap, ◌∙◌, arith, false, take, drop, ltb,
}
use python_oracledb.Prelude.Int.{pos_part}
use python_oracledb.Errors.{ok, stuck}
use python_oracledb.Buffer.{Buffer, bind_ok, get_raw, bytes_left, advance}
use python_oracledb.Buffer.Skip.{skip_raw_bytes_loop, skip_raw_bytes}

left : (b : Buffer) → b.position ≤ b.size → pos_part (bytes_left b) ≡ b.size - b.position
unfolding bytes_left
left b h = ground arith

get_raw_ok :
    (k : ℕ) (b : Buffer)
    → b.position + k ≤ b.size
    → get_raw k b ≡ ok (take k (drop b.position b.contents), advance k b)
unfolding get_raw
get_raw_ok k b h = let t : ltb b.size (b.position + k) ≡ false = ground arith in rw t refl

round_step :
    (fuel n k : ℕ) (b : Buffer)
    → b.position ≤ b.size
    → k ≡ min (suc n) (b.size - b.position)
    → skip_raw_bytes_loop (suc fuel) (suc n) b ≡ skip_raw_bytes_loop fuel (suc n - k) (advance k b)
unfolding skip_raw_bytes_loop
round_step fuel n k b h e =
    rw (left b h, ← e)
      (bind_ok (get_raw k) (λ _. skip_raw_bytes_loop fuel (suc n - k)) b
        (get_raw_ok k b (ground arith)))

no_bytes : (fuel : ℕ) (b : Buffer) → skip_raw_bytes_loop fuel 0 b ≡ ok (tt, b)
unfolding skip_raw_bytes_loop
no_bytes zero b = refl
no_bytes (suc fuel) b = refl

no_fuel : (n : ℕ) (b : Buffer) → skip_raw_bytes_loop 0 (suc n) b ≡ stuck
unfolding skip_raw_bytes_loop
no_fuel n b = refl

-- Where the position is before the end of the data by at least the number of bytes to skip:
-- `skip_raw_bytes` returns and moves the position by that number.
pub skip_raw_bytes_lem :
    (n : ℕ) (b : Buffer) → b.position + n ≤ b.size → skip_raw_bytes n b ≡ ok (tt, advance n b)
unfolding skip_raw_bytes
skip_raw_bytes_lem zero b h =
    no_bytes 1 b ∙ ap (λ p. ok (tt, record b { position = p })) (omega arith)
skip_raw_bytes_lem (suc n) b h =
    let e : suc n ≡ min (suc n) (b.size - b.position) = ground arith in
    let none_left : suc n - suc n ≡ 0 = omega arith in
    round_step 0 n (suc n) b (omega arith) e ∙ rw none_left (no_bytes 0 (advance (suc n) b))

-- Where fewer bytes are left than are to be skipped: no number of rounds is enough, and no error is
-- raised.
pub skip_raw_bytes_loop-stuck :
    (fuel n : ℕ) (b : Buffer)
    → b.position ≤ b.size
    → b.size < b.position + n
    → skip_raw_bytes_loop fuel n b ≡ stuck
skip_raw_bytes_loop-stuck fuel zero b w h = absurd (omega arith)
skip_raw_bytes_loop-stuck zero (suc n) b w h = no_fuel n b
skip_raw_bytes_loop-stuck (suc fuel) (suc n) b w h =
    let k = b.size - b.position in
    round_step fuel n k b w (ground arith)
    ∙ skip_raw_bytes_loop-stuck fuel (suc n - k) (advance k b) (omega arith) (omega arith)
