-- ===== src/StatementCache/Lease.antt =====
-- StatementCache.get_statement: who gets which statement, and what the cache holds then.
use python_oracledb.Prelude.{
  ℕ, suc, ◌-◌, ◌≤◌, ◌≡◌, refl, sym, ap, ◌∙◌, inl, inr, arith, Bool, true, false, not, ◌&&◌, ◌||◌,
  [], ◌∷◌, ◌++◌, length, length-append, length-drop, Option, none, some, ltb, ◌==◌, if◌then◌else◌,
  Bool-cases,
}
use python_oracledb.Errors.{Result, ok}
use python_oracledb.StatementCache.{
  Characters, Statement, StatementCache, Items, Key, same_key, lookup, found, assign, delete,
  move_to_end, copy, add, adjust_cache, put, lease, open_new, prepared, open_prepared, add_new,
  open_leased, close_uncached, copy_leased, get_new, get_copy, get_cached, get_statement,
}
use python_oracledb.StatementCache.Eviction.{
  bind_inv, Keeps, Keeps-refl, add_cursor_to_close-Keeps, adjust_items-Adjusted,
}

length-delete : (key : Key) (items : Items) → length (delete key items) ≤ length items
unfolding delete
length-delete key [] = omega arith
length-delete key ((k, v) ∷ items) = elim (Bool-cases (same_key k key)) [
  | inl t ↦ rw t (omega arith)
  | inr f ↦ rw f (omega (arith, length-delete key items))
]

length-delete_found :
    (key : Key) (items : Items) (i : ℕ)
    → lookup key items ≡ some i
    → suc (length (delete key items)) ≡ length items
unfolding delete lookup
length-delete_found key [] i e = cc
length-delete_found key ((k, v) ∷ items) i e = elim (Bool-cases (same_key k key)) [
  | inl t ↦ rw t refl
  | inr f ↦
      let later : lookup key ((k, v) ∷ items) ≡ lookup key items = rw f refl in
      rw f (ap suc (length-delete_found key items i (sym later ∙ e)))
]

-- The state before statement `i` is marked as used: nothing that others use has changed, and the
-- cache is within its size.
record Ready (i : ℕ) (c c' : StatementCache) : Type 0 where
  others_use : (j : ℕ) → (j == i) ≡ false → (c'.heap j).in_use ≡ (c.heap j).in_use
  still_max : c'.max_size ≡ c.max_size
  within_max : length c'.cached_statements ≤ c.max_size

-- Statement `i` was free, is used now, and the use of no other has changed.
abbrev Leased : ℕ → ℕ → StatementCache → StatementCache → Type 0
Leased j i c c' =
    ((c.heap i).in_use ≡ false)
    × ((c'.heap j).in_use ≡ (if j == i then true else (c.heap j).in_use))
    × (length c'.cached_statements ≤ c'.max_size)

lease-Leased :
    (j i : ℕ) (c b : StatementCache)
    → (c.heap i).in_use ≡ false
    → Ready i c b
    → Leased j i c (put i (record (b.heap i) { in_use = true }) b)
lease-Leased j i c b free ready = (free, marked, omega (arith, ready.within_max, ready.still_max))
  where
    marked :
        ((put i (record (b.heap i) { in_use = true }) b).heap j).in_use
        ≡ (if j == i then true else (c.heap j).in_use)
    marked = elim (Bool-cases (j == i)) [ inl t ↦ rw t refl | inr f ↦ rw f (ready.others_use j f) ]

pair_inv :
    (i k : ℕ) (b c : StatementCache)
    → ◌≡◌ {A = Result (ℕ × StatementCache)} (ok (i, b)) (ok (k, c))
    → (i ≡ k) × (b ≡ c)
pair_inv i k b c e = (cc, cc)

returned-Leased :
    (j i k : ℕ) (c b c' : StatementCache)
    → ◌≡◌ {A = Result (ℕ × StatementCache)} (ok (lease i b)) (ok (k, c'))
    → (c.heap i).in_use ≡ false
    → Ready i c b
    → Leased j k c c'
unfolding lease
returned-Leased j i k c b c' e free ready =
    let (p, q) = pair_inv i k (put i (record (b.heap i) { in_use = true }) b) c' e in
    rw (← p, ← q) (lease-Leased j i c b free ready)

put_fresh :
    (i j : ℕ) (s : Statement) (c : StatementCache)
    → (j == i) ≡ false
    → ((put i s c).heap j).in_use ≡ (c.heap j).in_use
put_fresh i j s c f = rw f refl

add_new-Ready :
    (keep : Bool) (s : Statement) (sql : Key) (c m : StatementCache)
    → length c.cached_statements ≤ c.max_size
    → add_new keep s sql c ≡ ok m
    → Ready c.next c m
unfolding add_new adjust_cache
add_new-Ready true s sql c m h e =
    let items = assign sql c.next c.cached_statements in
    let c1 = record (put c.next s c) { next = suc c.next } in
    let s' = record s { return_to_cache = true } in
    let a =
      adjust_items-Adjusted items (record (put c.next s' c1) { cached_statements = items }) m e in
    record {
      others_use = λ j f. a.kept_use j ∙ put_fresh c.next j s' c1 f ∙ put_fresh c.next j s c f;
      still_max = a.kept_max;
      within_max = omega (arith, ap length a.newest, length-drop (length items - c.max_size) items);
    }
add_new-Ready false s sql c m h e =
    let same : record (put c.next s c) { next = suc c.next } ≡ m = cc in
    rw (← same)
      (record { others_use = λ j f. put_fresh c.next j s c f; still_max = refl; within_max = h })

open_leased-Leased :
    (j i k : ℕ) (c m c' : StatementCache)
    → (c.heap i).in_use ≡ false
    → Ready i c m
    → open_leased i m ≡ ok (k, c')
    → Leased j k c c'
unfolding open_leased
open_leased-Leased j i k c m c' free r e =
    returned-Leased j i k c (record m { open_cursors = add i m.open_cursors }) c' e free
      (record { others_use = r.others_use; still_max = r.still_max; within_max = r.within_max })

close_uncached-Keeps :
    (t : Bool) (i : ℕ) (c m : StatementCache) → close_uncached t i c ≡ ok m → Keeps c m
unfolding close_uncached
close_uncached-Keeps true i c m e = let same : c ≡ m = cc in rw (← same) (Keeps-refl c)
close_uncached-Keeps false i c m e = add_cursor_to_close-Keeps i c m e

length-kept :
    (t : Bool) (sql : Key) (items : Items)
    → length (if t then items else delete sql items) ≤ length items
length-kept true sql items = omega arith
length-kept false sql items = length-delete sql items

copy_leased-Leased :
    (j k : ℕ) (sql : Key) (i : ℕ) (cache_statement : Bool) (c m c' : StatementCache)
    → (c.heap c.next).in_use ≡ false
    → length c.cached_statements ≤ c.max_size
    → Keeps c m
    → copy_leased sql i cache_statement m ≡ ok (k, c')
    → Leased j k c c'
unfolding copy_leased open_new
copy_leased-Leased j k sql i cache_statement c m c' free h keeps e =
    let items = if cache_statement then m.cached_statements else delete sql m.cached_statements in
    let kept = record m { cached_statements = items } in
    let free_m : (c.heap m.next).in_use ≡ false = rw keeps.same_next free in
    let fits : length items ≤ c.max_size =
      omega (
        arith,
        h,
        length-kept cache_statement sql m.cached_statements,
        ap length keeps.same_items,
      ) in
    returned-Leased j m.next k c (open_new (copy (m.heap i)) kept) c' e free_m (record {
      others_use = λ o f. put_fresh m.next o (copy (m.heap i)) m f ∙ keeps.same_use o;
      still_max = keeps.same_max;
      within_max = fits;
    })

get_cached-Leased :
    (j k : ℕ) (sql : Key) (i : ℕ) (cache_statement : Bool) (c c' : StatementCache)
    → (c.heap i).in_use ≡ false
    → lookup sql c.cached_statements ≡ some i
    → length c.cached_statements ≤ c.max_size
    → ◌≡◌ {A = Result (ℕ × StatementCache)} (ok (get_cached sql i cache_statement c)) (ok (k, c'))
    → Leased j k c c'
unfolding get_cached move_to_end
get_cached-Leased j k sql i true c c' free found_i h e =
    let items = delete sql c.cached_statements ++ ((sql, i) ∷ []) in
    let fits : length items ≤ c.max_size = omega (
      arith,
      h,
      length-append (delete sql c.cached_statements) ((sql, i) ∷ []),
      length-delete_found sql c.cached_statements i found_i,
    ) in
    returned-Leased j i k c (record c { cached_statements = items }) c' e free
      (record { others_use = λ o f. refl; still_max = refl; within_max = fits })
get_cached-Leased j k sql i false c c' free found_i h e =
    let items = delete sql c.cached_statements in
    let s = record (c.heap i) { return_to_cache = false } in
    let fits : length items ≤ c.max_size =
      omega (arith, h, length-delete sql c.cached_statements) in
    returned-Leased j i k c (record (put i s c) { cached_statements = items }) c' e free
      (record { others_use = λ o f. put_fresh i o s c f; still_max = refl; within_max = fits })

found-lookup :
    (sql : Key) (c : StatementCache) (i : ℕ)
    → found sql c ≡ some i
    → lookup sql c.cached_statements ≡ some i
unfolding found
found-lookup none c i e = cc
found-lookup (some x) c i e = e

get_found-Leased :
    (copied : Bool) (j k : ℕ) (sql : Key) (i : ℕ) (cache_statement : Bool) (c c' : StatementCache)
    → (copied ≡ false → (c.heap i).in_use ≡ false)
    → (c.heap c.next).in_use ≡ false
    → lookup sql c.cached_statements ≡ some i
    → length c.cached_statements ≤ c.max_size
    → (if copied then get_copy sql i cache_statement c else ok (get_cached sql i cache_statement c))
      ≡ ok (k, c')
    → Leased j k c c'
unfolding get_copy
get_found-Leased true j k sql i cache_statement c c' _ free f h e =
    let (m, p, q) =
      bind_inv (close_uncached cache_statement i c) (copy_leased sql i cache_statement) e in
    copy_leased-Leased j k sql i cache_statement c m c' free h
      (close_uncached-Keeps cache_statement i c m p) q
get_found-Leased false j k sql i cache_statement c c' idle free f h e =
    get_cached-Leased j k sql i cache_statement c c' (idle refl) f h e

not_in_use : (force used : Bool) → (force || used) ≡ false → used ≡ false
not_in_use true used e = cc
not_in_use false used e = e

get_new-Leased :
    (chars : Characters) (j k : ℕ) (sql : Key) (cache_statement : Bool) (c c' : StatementCache)
    → (c.heap c.next).in_use ≡ false
    → length c.cached_statements ≤ c.max_size
    → get_new chars sql cache_statement c ≡ ok (k, c')
    → Leased j k c c'
unfolding get_new open_prepared
get_new-Leased chars j k sql cache_statement c c' free h e =
    let (s, _, opens) =
      bind_inv (prepared chars sql) (open_prepared chars sql cache_statement c) e in
    let keep = cache_statement && not s.is_ddl && ltb 0 c.max_size in
    let (m, p, q) = bind_inv (add_new keep s sql c) (open_leased c.next) opens in
    open_leased-Leased j c.next k c m c' free (add_new-Ready keep s sql c m h p) q

by_found :
    (chars : Characters) (o : Option ℕ) (j k : ℕ) (sql : Key) (cache_statement force_new : Bool)
    (c c' : StatementCache)
    → found sql c ≡ o
    → (c.heap c.next).in_use ≡ false
    → length c.cached_statements ≤ c.max_size
    → (elim o [
      | none ↦ get_new chars sql cache_statement c
      | some i ↦
          if force_new || (c.heap i).in_use
          then get_copy sql i cache_statement c
          else ok (get_cached sql i cache_statement c)
    ])
      ≡ ok (k, c')
    → Leased j k c c'
by_found chars none j k sql cache_statement force_new c c' f free h e =
    get_new-Leased chars j k sql cache_statement c c' free h e
by_found chars (some i) j k sql cache_statement force_new c c' f free h e =
    get_found-Leased (force_new || (c.heap i).in_use) j k sql i cache_statement c c'
      (not_in_use force_new (c.heap i).in_use) free (found-lookup sql c i f) h e

-- Where the next new object is not in use and the cache is within its size: whenever `get_statement`
-- returns a statement, that statement was not in use before, whatever the branch; afterwards it
-- is in use and the use of every other statement `j` is as before; and the cache is within its
-- size again.
pub get_statement-lease :
    (chars : Characters) (j i : ℕ) (sql : Key) (cache_statement force_new : Bool)
    (c c' : StatementCache)
    → (c.heap c.next).in_use ≡ false
    → length c.cached_statements ≤ c.max_size
    → get_statement chars sql cache_statement force_new c ≡ ok (i, c')
    → ((c.heap i).in_use ≡ false)
      × ((c'.heap j).in_use ≡ (if j == i then true else (c.heap j).in_use))
      × (length c'.cached_statements ≤ c'.max_size)
unfolding get_statement
get_statement-lease chars j i sql cache_statement force_new c c' free h e =
    by_found chars (found sql c) j i sql cache_statement force_new c c' refl free h e
