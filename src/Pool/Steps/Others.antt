-- ===== src/Pool/Steps/Others.antt =====
-- Trying a request changes the fields of no other request.
use python_oracledb.Prelude.{
  ℕ, ◌≡◌, refl, ◌∙◌, inl, inr, arith, Bool, true, false, List, Option, none, some, ◌==◌, Bool-cases,
}
use python_oracledb.Errors.{Error}
use python_oracledb.Pool.{
  Pool, PooledConnRequest, GetMode, wait, nowait, forceget, timedwait, set_request, drop_conn_impl,
  add_request, pop_last,
}
use python_oracledb.Pool.Request.{
  check_connection, checked, matching_used, matching_new, replace, wait_or_raise, full_reply,
  replace_used, replace_new, use_new, use_used, when_full, grow, is_full, no_match, search_free,
  fulfill,
}

module _ (j r : ℕ) (other : (j == r) ≡ false) where
  put_other : (q : PooledConnRequest) (p : Pool) → (set_request r q p).request j ≡ p.request j
  put_other q p = rw other refl

  add_other : (p : Pool) → (add_request r p).request j ≡ p.request j
  unfolding add_request
  add_other p = rw other refl

  drop_other : (i : ℕ) (p : Pool) → (drop_conn_impl i p).request j ≡ p.request j
  unfolding drop_conn_impl
  drop_other i p = ground arith

  check_other :
      (is_dead : ℕ → Bool) (now i : ℕ) (p : Pool)
      → (check_connection is_dead now r i p).1.request j ≡ p.request j
  unfolding check_connection add_request
  check_other is_dead now i p = ground (arith, drop_other i p, other)

  checked_other : (d : Option Error × Pool) → (checked r d).1.request j ≡ d.1.request j
  unfolding checked
  checked_other (none, p) = refl
  checked_other (some e, p) = refl

  replace_other : (i : ℕ) (p : Pool) → (replace r i p).request j ≡ p.request j
  unfolding replace add_request
  replace_other i p = rw other refl

  wait_other : (g : GetMode) (p : Pool) → (wait_or_raise g r p).1.request j ≡ p.request j
  unfolding wait_or_raise
  wait_other nowait p = refl
  wait_other wait p = add_other p
  wait_other forceget p = add_other p
  wait_other timedwait p = add_other p

  full_other : (p : Pool) → (full_reply r p).1.request j ≡ p.request j
  unfolding full_reply
  full_other p =
      let extra = set_request r (record (p.request r) { is_extra = true }) p in
      elim (Bool-cases p.force_get) [
        | inl t ↦ rw t (add_other extra ∙ put_other _ p)
        | inr f ↦ simp f (wait_other p.getmode p)
      ]

  used_other : (o : Option (ℕ × List ℕ)) (p : Pool) → (replace_used o r p).1.request j ≡ p.request j
  unfolding replace_used
  used_other (some (i, rest)) p = replace_other i (record p { free_used = rest })
  used_other none p = full_other p

  new_other : (o : Option (ℕ × List ℕ)) (p : Pool) → (replace_new o r p).1.request j ≡ p.request j
  unfolding replace_new
  new_other (some (i, rest)) p = replace_other i (record p { free_new = rest })
  new_other none p = used_other (pop_last p.free_used) p

  when_full_other : (p : Pool) → (when_full r p).1.request j ≡ p.request j
  unfolding when_full
  when_full_other p = new_other (pop_last p.free_new) p

  grow_other : (p : Pool) → (grow r p).request j ≡ p.request j
  unfolding grow
  grow_other p = ground arith

  no_match_other : (p : Pool) → (no_match r p).1.request j ≡ p.request j
  unfolding no_match
  no_match_other p =
      let p' = set_request r (record (p.request r) { requires_ping = false }) p in
      elim (Bool-cases (is_full p)) [
        | inl t ↦ rw t (when_full_other p' ∙ put_other _ p)
        | inr f ↦ rw f (add_other (grow r p') ∙ grow_other p' ∙ put_other _ p)
      ]

  use_new_other :
      (o : Option (ℕ × List ℕ)) (is_dead : ℕ → Bool) (now : ℕ) (p : Pool)
      → (use_new o is_dead now r p).1.request j ≡ p.request j
  unfolding use_new
  use_new_other (some (i, rest)) is_dead now p =
      let q = record p { free_new = rest } in
      checked_other (check_connection is_dead now r i q) ∙ check_other is_dead now i q
  use_new_other none is_dead now p = no_match_other p

  use_used_other :
      (o : Option (ℕ × List ℕ)) (is_dead : ℕ → Bool) (now : ℕ) (p : Pool)
      → (use_used o is_dead now r p).1.request j ≡ p.request j
  unfolding use_used
  use_used_other (some (i, rest)) is_dead now p =
      let q = record p { free_used = rest } in
      checked_other (check_connection is_dead now r i q) ∙ check_other is_dead now i q
  use_used_other none is_dead now p = use_new_other (matching_new r p) is_dead now p

  pub fulfill_other :
      (is_dead : ℕ → Bool) (now : ℕ) (p : Pool)
      → (fulfill is_dead now r p).1.request j ≡ p.request j
  unfolding fulfill search_free
  fulfill_other is_dead now p = ground (arith, use_used_other (matching_used r p) is_dead now p)

-- While the background task works on the request, trying it changes nothing.
pub fulfill_waits :
    (is_dead : ℕ → Bool) (now r : ℕ) (p : Pool)
    → (p.request r).bg_processing ≡ true
    → (fulfill is_dead now r p).1 ≡ p
unfolding fulfill
fulfill_waits is_dead now r p b = ground arith
