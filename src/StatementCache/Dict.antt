-- ===== src/StatementCache/Dict.antt =====
-- The ordered dictionary and the sets of src/oracledb/impl/thin/statement_cache.pyx.
use python_oracledb.Prelude.{
  ℕ, Bool, true, false, ◌&&◌, ◌||◌, List, [], ◌∷◌, ◌++◌, Option, none, some, ◌==◌, if◌then◌else◌,
}

abbrev pub Key : Type 0
Key = Option (List ℕ)

unfoldable pub same_text : List ℕ → List ℕ → Bool
same_text [] [] = true
same_text [] (y ∷ ys) = false
same_text (x ∷ xs) [] = false
same_text (x ∷ xs) (y ∷ ys) = x == y && same_text xs ys

unfoldable pub same_key : Key → Key → Bool
unfolding same_text
same_key none none = true
same_key none (some y) = false
same_key (some x) none = false
same_key (some x) (some y) = same_text x y

abbrev pub Items : Type 0
Items = List (Key × ℕ)

-- `get`, `d[key] = value`, `del d[key]` and `move_to_end` of an ordered dictionary.
unfoldable pub lookup : Key → Items → Option ℕ
unfolding same_key
lookup key [] = none
lookup key ((k, v) ∷ items) = let rest = lookup key items in if same_key k key then some v else rest

unfoldable pub assign : Key → ℕ → Items → Items
unfolding same_key
assign key value [] = (key, value) ∷ []
assign key value ((k, v) ∷ items) =
    let rest = assign key value items in
    if same_key k key then (k, value) ∷ items else (k, v) ∷ rest

unfoldable pub delete : Key → Items → Items
unfolding same_key
delete key [] = []
delete key ((k, v) ∷ items) =
    let rest = delete key items in if same_key k key then items else (k, v) ∷ rest

unfoldable pub move_to_end : Key → ℕ → Items → Items
unfolding delete
move_to_end key value items = delete key items ++ ((key, value) ∷ [])

unfoldable pub contains : ℕ → List ℕ → Bool
contains x [] = false
contains x (y ∷ ys) = x == y || contains x ys

unfoldable pub discard : ℕ → List ℕ → List ℕ
discard x [] = []
discard x (y ∷ ys) = let rest = discard x ys in if x == y then ys else y ∷ rest

unfoldable pub add : ℕ → List ℕ → List ℕ
unfolding contains
add x xs = if contains x xs then xs else x ∷ xs
