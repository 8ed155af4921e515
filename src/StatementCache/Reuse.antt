-- ===== src/StatementCache/Reuse.antt =====
-- StatementCache.return_statement: a statement that goes back to the cache is handed out again.
use python_oracledb.Prelude.{ℕ, ◌≡◌, refl, ap, ◌∙◌, arith, Bool, true, false, List, some, ◌==◌}
use python_oracledb.Errors.{ok}
use python_oracledb.StatementCache.{
  Characters, StatementCache, Key, lookup, found, put, lease, get_cached, get_statement,
  return_statement,
}

put_free :
    (i : ℕ) (c : StatementCache)
    → ((put i (record (c.heap i) { in_use = false }) c).heap i).in_use ≡ false
put_free i c = let same : (i == i) ≡ true = ground arith in rw same refl

found-some :
    (text : List ℕ) (c : StatementCache) (i : ℕ)
    → lookup (some text) c.cached_statements ≡ some i
    → found (some text) c ≡ some i
unfolding found
found-some text c i f = f

reuses :
    (chars : Characters) (text : List ℕ) (i : ℕ) (cache_statement : Bool) (c : StatementCache)
    → lookup (some text) c.cached_statements ≡ some i
    → (c.heap i).in_use ≡ false
    → get_statement chars (some text) cache_statement false c
      ≡ ok (get_cached (some text) i cache_statement c)
unfolding get_statement
reuses chars text i cache_statement c f free = rw (found-some text c i f, free, get_statement) refl

get_cached-first :
    (sql : Key) (i : ℕ) (cache_statement : Bool) (c : StatementCache)
    → (get_cached sql i cache_statement c).0 ≡ i
unfolding get_cached lease
get_cached-first sql i true c = refl
get_cached-first sql i false c = refl

reused :
    (chars : Characters) (text : List ℕ) (i : ℕ) (cache_statement : Bool) (c : StatementCache)
    → lookup (some text) c.cached_statements ≡ some i
    → (c.heap i).in_use ≡ false
    → (c' : StatementCache) × (get_statement chars (some text) cache_statement false c ≡ ok (i, c'))
reused chars text i cache_statement c f free =
    let c' = (get_cached (some text) i cache_statement c).1 in
    (
      c',
      reuses chars text i cache_statement c f free
          ∙ ap (λ k. ok (k, c')) (get_cached-first (some text) i cache_statement c),
    )

-- A statement that is the cached one of its text and that goes back to the cache: returning it raises
-- no error, and the next request for the text, without `force_new`, returns the same statement.
pub get_statement-return_statement :
    (chars : Characters) (text : List ℕ) (i : ℕ) (cache_statement : Bool) (c : StatementCache)
    → lookup (some text) c.cached_statements ≡ some i
    → (c.heap i).return_to_cache ≡ true
    → (c1 : StatementCache) × (return_statement i c ≡ ok c1)
      × ((c2 : StatementCache) × (get_statement chars (some text) cache_statement false c1
            ≡ ok (i, c2)))
unfolding return_statement
get_statement-return_statement chars text i cache_statement c f r =
    let c1 = put i (record (c.heap i) { in_use = false }) c in
    (c1, rw r refl, reused chars text i cache_statement c1 f (put_free i c))
