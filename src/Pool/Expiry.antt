-- ===== src/Pool/Expiry.antt =====
-- BaseThinPoolImpl._timeout_helper: which free connections go, and how many stay.
use python_oracledb.Prelude.{
  ℕ, suc, ◌+◌, ◌^◌, ◌≤◌, ◌<◌, ◌≡◌, refl, sym, ap, ◌∙◌, ◌⊎◌, inl, inr, arith, true, false, List, [],
  ◌∷◌, ◌++◌, if◌then◌else◌, take, drop, ltb, Bool-cases,
}
use mathlib.Core.List.{append_assoc, append-nil}
use python_oracledb.Pool.{Pool, decrease, drop_conn_impl}
use python_oracledb.Pool.Return.{is_expired, expire}

-- Every connection of the list has expired.
abbrev pub AllExpired : ℕ → Pool → List ℕ → Type 0
AllExpired now p [] = Unit {0}
AllExpired now p (i ∷ is) = (is_expired now i p ≡ true) × AllExpired now p is

-- The first connection of the list, if there is one, has not expired.
abbrev pub FirstFresh : ℕ → Pool → List ℕ → Type 0
FirstFresh now p [] = Unit {0}
FirstFresh now p (i ∷ is) = is_expired now i p ≡ false

-- The connections of the list that have a transport.
abbrev pub with_transport : Pool → List ℕ → List ℕ
with_transport p [] = []
with_transport p (i ∷ is) =
    let rest = with_transport p is in if (p.connection i).has_transport then i ∷ rest else rest

-- Of `is` the first `k` are dropped.
abbrev pub Expires : ℕ → List ℕ → Pool → ℕ → Type 0
Expires now is p k =
    ((expire now is p).0 ≡ drop k is)
    × ((expire now is p).1.open_count + k ≡ p.open_count)
    × AllExpired now p (take k is)
    × ((k ≡ 0) ⊎ (p.min_size ≤ (expire now is p).1.open_count))
    × (((expire now is p).1.open_count ≤ p.min_size) ⊎ FirstFresh now p (drop k is))
    × ((expire now is p).1.to_drop ≡ p.to_drop ++ with_transport p (take k is))

dropped : ℕ → Pool → Pool
dropped i p = record (drop_conn_impl i p) { open_count = decrease p.open_count }

dropped_lem :
    (i : ℕ) (p : Pool)
    → 0 < p.open_count
    → p.open_count < 2 ^ 32
    → ((dropped i p).open_count + 1 ≡ p.open_count) × ((dropped i p).min_size ≡ p.min_size)
unfolding dropped drop_conn_impl decrease
dropped_lem i p h k = ground arith

expired_dropped : (now j i : ℕ) (p : Pool) → is_expired now j (dropped i p) ≡ is_expired now j p
unfolding is_expired dropped drop_conn_impl
expired_dropped now j i p = ground arith

AllExpired-dropped :
    (now i : ℕ) (p : Pool) (is : List ℕ) → AllExpired now (dropped i p) is → AllExpired now p is
AllExpired-dropped now i p [] a = tt
AllExpired-dropped now i p (j ∷ is) (e, a) =
    (sym (expired_dropped now j i p) ∙ e, AllExpired-dropped now i p is a)

FirstFresh-dropped :
    (now i : ℕ) (p : Pool) (is : List ℕ) → FirstFresh now (dropped i p) is → FirstFresh now p is
FirstFresh-dropped now i p [] a = tt
FirstFresh-dropped now i p (j ∷ is) e = sym (expired_dropped now j i p) ∙ e

with_transport-dropped :
    (i : ℕ) (is : List ℕ) (p : Pool) → with_transport (dropped i p) is ≡ with_transport p is
unfolding dropped drop_conn_impl
with_transport-dropped i [] p = refl
with_transport-dropped i (j ∷ is) p =
    let rest = with_transport-dropped i is p in ground (arith, rest)

to_drop-dropped :
    (i : ℕ) (is : List ℕ) (p : Pool)
    → (dropped i p).to_drop ++ with_transport p is ≡ p.to_drop ++ with_transport p (i ∷ is)
unfolding dropped drop_conn_impl
to_drop-dropped i is p = elim (Bool-cases ((p.connection i).has_transport)) [
  | inl t ↦ ground (arith, t, append_assoc p.to_drop (i ∷ []) (with_transport p is))
  | inr t ↦ ground (arith, t)
]

Expires-more :
    (now i k : ℕ) (is : List ℕ) (p : Pool)
    → expire now (i ∷ is) p ≡ expire now is (dropped i p)
    → p.min_size < p.open_count
    → p.open_count < 2 ^ 32
    → is_expired now i p ≡ true
    → Expires now is (dropped i p) k
    → Expires now (i ∷ is) p (suc k)
Expires-more now i k is p e above small x (l, n, a, m, s, q) =
    let d = dropped_lem i p (omega arith) small in
    rw e (
      l,
      omega (arith, d.0),
      (x, AllExpired-dropped now i p (take k is) a),
      ground (arith, d),
      still s,
      q
          ∙ ap (◌++◌ (dropped i p).to_drop) (with_transport-dropped i (take k is) p)
          ∙ to_drop-dropped i (take k is) p,
    )
  where
    still :
        ((expire now is (dropped i p)).1.open_count ≤ (dropped i p).min_size)
          ⊎ FirstFresh now (dropped i p) (drop k is)
        → ((expire now is (dropped i p)).1.open_count ≤ p.min_size) ⊎ FirstFresh now p (drop k is)
    still (inl low) = inl (omega (arith, low, dropped_lem i p (omega arith) small))
    still (inr fresh) = inr (FirstFresh-dropped now i p (drop k is) fresh)

-- Where the count is below 2 ^ 32: `_timeout_helper` drops some number `k` of connections from the head
-- of the list, each of which has expired, and decreases the count by `k`; those of them that have a
-- transport are put, in their order, behind the connections to be closed, and no other is; the count
-- never goes below the minimum; and it stops only when the count is at most the minimum, or the list
-- is empty or begins with a connection that has not expired.
pub expire_lem :
    (now : ℕ) (is : List ℕ) (p : Pool) → p.open_count < 2 ^ 32 → (k : ℕ) × Expires now is p k
unfolding expire dropped
expire_lem now [] p h = (0, (refl, omega arith, tt, inl refl, inr tt, sym (append-nil p.to_drop)))
expire_lem now (i ∷ is) p h = elim (Bool-cases (ltb p.min_size p.open_count)) [
  | inr f ↦
      let stays : expire now (i ∷ is) p ≡ (i ∷ is, p) = ground arith in
      (
        0,
        rw stays (refl, omega arith, tt, inl refl, inl (ground arith), sym (append-nil p.to_drop)),
      )
  | inl t ↦ elim (Bool-cases (is_expired now i p)) [
    | inr g ↦
        let stays : expire now (i ∷ is) p ≡ (i ∷ is, p) = ground arith in
        (0, rw stays (refl, omega arith, tt, inl refl, inr g, sym (append-nil p.to_drop)))
    | inl x ↦
        let goes : expire now (i ∷ is) p ≡ expire now is (dropped i p) = ground arith in
        let small : (dropped i p).open_count < 2 ^ 32 =
          omega (arith, dropped_lem i p (ground arith) h) in
        let (k, rest) = expire_lem now is (dropped i p) small in
        (suc k, Expires-more now i k is p goes (ground arith) h x rest)
  ]
]
