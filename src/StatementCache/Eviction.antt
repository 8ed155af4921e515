-- ===== src/StatementCache/Eviction.antt =====
-- What leaves the cache: the statements that were not used for the longest time, and no others.
use python_oracledb.Prelude.{
  ℕ, suc, ◌-◌, ◌≤◌, ◌<◌, ◌≡◌, refl, sym, ap, ◌∙◌, inl, inr, arith, Bool, true, false, [], ◌∷◌,
  length, drop, length-drop, ltb, ◌==◌, if◌then◌else◌, Bool-cases,
}
use python_oracledb.Errors.{Error, Result, ok, err, stuck, ◌>>=◌, index_error, key_error}
use python_oracledb.StatementCache.{
  Statement, StatementCache, Items, Key, push_cursor, remove_open, add_cursor_to_close, contains,
  evict, adjust_items, adjust_cache, resize, put,
}

-- A chain that succeeds has a first step that does.
pub bind_inv :
    {V W : Type 0} (first : Result V) (next : V → Result W) {w : W}
    → (first >>= next) ≡ ok w
    → (v : V) × (first ≡ ok v) × (next v ≡ ok w)
bind_inv (ok v) next done = (v, refl, done)
bind_inv (err error) next done = cc
bind_inv stuck next done = cc

guard_inv :
    {A : Type 0} (t : Bool) (a : A) (x : Error) {b : A} → (if t then ok a else err x) ≡ ok b → a ≡ b
guard_inv true a x e = cc
guard_inv false a x e = cc

-- What closing a cursor leaves alone.
pub record Keeps (c c' : StatementCache) : Type 0 where
  pub same_items : c'.cached_statements ≡ c.cached_statements
  pub same_max : c'.max_size ≡ c.max_size
  pub same_next : c'.next ≡ c.next
  pub same_use : (i : ℕ) → (c'.heap i).in_use ≡ (c.heap i).in_use

pub Keeps-refl : (c : StatementCache) → Keeps c c
Keeps-refl c = record { same_items = refl; same_max = refl; same_next = refl; same_use = λ i. refl }

Keeps-trans : {a b c : StatementCache} → Keeps a b → Keeps b c → Keeps a c
Keeps-trans k l = record {
  same_items = l.same_items ∙ k.same_items;
  same_max = l.same_max ∙ k.same_max;
  same_next = l.same_next ∙ k.same_next;
  same_use = λ i. l.same_use i ∙ k.same_use i;
}

push_cursor-Keeps : (n : ℕ) (c c' : StatementCache) → push_cursor n c ≡ ok c' → Keeps c c'
unfolding push_cursor
push_cursor-Keeps n c c' e =
    rw (← guard_inv (ltb (length c.cursors_to_close) c.max_cursors) _ index_error e)
      (record { same_items = refl; same_max = refl; same_next = refl; same_use = λ i. refl })

remove_open-Keeps : (i : ℕ) (c c' : StatementCache) → remove_open i c ≡ ok c' → Keeps c c'
unfolding remove_open
remove_open-Keeps i c c' e =
    rw (← guard_inv (contains i c.open_cursors) _ key_error e)
      (record { same_items = refl; same_max = refl; same_next = refl; same_use = λ j. refl })

maybe_push-Keeps :
    (t : Bool) (n : ℕ) (c c' : StatementCache)
    → (if t then ok c else push_cursor n c) ≡ ok c'
    → Keeps c c'
maybe_push-Keeps true n c c' e = let same : c ≡ c' = cc in rw (← same) (Keeps-refl c)
maybe_push-Keeps false n c c' e = push_cursor-Keeps n c c' e

pub add_cursor_to_close-Keeps :
    (i : ℕ) (c c' : StatementCache) → add_cursor_to_close i c ≡ ok c' → Keeps c c'
unfolding add_cursor_to_close
add_cursor_to_close-Keeps i c c' e =
    let (m, p, q) =
      bind_inv (if (c.heap i).cursor_id == 0 then ok c else push_cursor ((c.heap i).cursor_id) c)
        (remove_open i) e in
    Keeps-trans (maybe_push-Keeps ((c.heap i).cursor_id == 0) _ c m p) (remove_open-Keeps i m c' q)

put-Keeps :
    (i : ℕ) (s : Statement) (c : StatementCache)
    → s.in_use ≡ (c.heap i).in_use
    → Keeps c (put i s c)
put-Keeps i s c e = record {
  same_items = refl;
  same_max = refl;
  same_next = refl;
  same_use = λ j. elim (Bool-cases (j == i)) [
    | inl t ↦ let q : j ≡ i = ground arith in rw (t, q) e
    | inr f ↦ rw f refl
  ];
}

evict_or-Keeps :
    (t : Bool) (i : ℕ) (s : Statement) (c c' : StatementCache)
    → s.in_use ≡ (c.heap i).in_use
    → (if t then ok (put i s c) else add_cursor_to_close i c) ≡ ok c'
    → Keeps c c'
evict_or-Keeps true i s c c' u e = let same : put i s c ≡ c' = cc in rw (← same) (put-Keeps i s c u)
evict_or-Keeps false i s c c' u e = add_cursor_to_close-Keeps i c c' e

evict-Keeps : (i : ℕ) (c c' : StatementCache) → evict i c ≡ ok c' → Keeps c c'
unfolding evict
evict-Keeps i c c' e = evict_or-Keeps (c.heap i).in_use i _ c c' refl e

-- What adjusting the cache does: it drops the items that are too many, from the oldest on.
pub record Adjusted (items : Items) (c c' : StatementCache) : Type 0 where
  pub newest : c'.cached_statements ≡ drop (length items - c.max_size) items
  pub kept_max : c'.max_size ≡ c.max_size
  pub kept_next : c'.next ≡ c.next
  pub kept_use : (i : ℕ) → (c'.heap i).in_use ≡ (c.heap i).in_use

stays-Adjusted :
    (items : Items) (c : StatementCache)
    → length items ≤ c.max_size
    → Adjusted items c (record c { cached_statements = items })
stays-Adjusted items c h =
    let none_over : length items - c.max_size ≡ 0 = omega arith in
    record { newest = rw none_over refl; kept_max = refl; kept_next = refl; kept_use = λ i. refl }

evicted-Adjusted :
    (item : Key × ℕ) (items : Items) (c m c' : StatementCache)
    → c.max_size < suc (length items)
    → Keeps c m
    → Adjusted items m c'
    → Adjusted (item ∷ items) c c'
evicted-Adjusted item items c m c' h k a =
    let over : suc (length items) - c.max_size ≡ suc (length items - m.max_size) =
      omega (arith, k.same_max) in
    record {
      newest = rw over a.newest;
      kept_max = a.kept_max ∙ k.same_max;
      kept_next = a.kept_next ∙ k.same_next;
      kept_use = λ i. a.kept_use i ∙ k.same_use i;
    }

pub adjust_items-Adjusted :
    (items : Items) (c c' : StatementCache) → adjust_items items c ≡ ok c' → Adjusted items c c'
unfolding adjust_items
adjust_items-Adjusted [] c c' e =
    let same : record c { cached_statements = [] } ≡ c' = cc in
    rw (← same) (stays-Adjusted [] c (omega arith))
adjust_items-Adjusted ((key, i) ∷ items) c c' e =
    elim (Bool-cases (ltb c.max_size (suc (length items)))) [
      | inl t ↦
          let step : adjust_items ((key, i) ∷ items) c ≡ (evict i c >>= adjust_items items) =
            rw t refl in
          let (m, p, q) = bind_inv (evict i c) (adjust_items items) (sym step ∙ e) in
          evicted-Adjusted (key, i) items c m c' (ground arith) (evict-Keeps i c m p)
            (adjust_items-Adjusted items m c' q)
      | inr f ↦
          let stays : adjust_items ((key, i) ∷ items) c
              ≡ ok (record c { cached_statements = (key, i) ∷ items }) =
            rw f refl in
          let same : record c { cached_statements = (key, i) ∷ items } ≡ c' = cc in
          rw (← same) (stays-Adjusted ((key, i) ∷ items) c (ground arith))
    ]

-- Whenever `resize` raises no error: the cache has the new maximum size, its items are the newest of
-- those that it had, in the same order, as many as the new size allows, and none is dropped
-- where all fit.
pub resize-newest :
    (new_size : ℕ) (c c' : StatementCache)
    → resize new_size c ≡ ok c'
    → (c'.max_size ≡ new_size)
      × (c'.cached_statements ≡ drop (length c.cached_statements - new_size) c.cached_statements)
      × (length c'.cached_statements ≤ new_size)
unfolding resize adjust_cache
resize-newest new_size c c' e =
    let a = adjust_items-Adjusted c.cached_statements (record c { max_size = new_size }) c' e in
    (
      a.kept_max,
      a.newest,
      omega (
        arith,
        ap length a.newest,
        length-drop (length c.cached_statements - new_size) c.cached_statements,
      ),
    )
