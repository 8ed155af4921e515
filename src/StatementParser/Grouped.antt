-- ===== src/StatementParser/Grouped.antt =====
-- Statement._prepare of src/oracledb/impl/thin/statement.pyx: the list of binds and the dictionary.
use python_oracledb.Prelude.{
  ℕ, ◌≡◌, ◌≢◌, refl, sym, ap, ◌∙◌, arith, Bool, true, false, List, [], ◌∷◌, ◌++◌, map, Option, none,
  some, Option-cases, ◌==◌, if◌then◌else◌, Bool-cases, inl, inr,
}
use mathlib.Core.List.{append-nil, map-append}
use python_oracledb.Errors.{Result, stuck, ok}
use python_oracledb.StatementCache.Dict.{same_text}
use python_oracledb.Statement.{
  Statement, BindInfo, BindDict, new_statement, new_bind_info, copy_bind_info, lookup_binds,
  append_bind,
}
use python_oracledb.Statement.Binds.{
  determine_statement_type, last_bind, with_bind, add_new_bind, add_after, add_again, add_bind,
}
use python_oracledb.StatementParser.Scans.{and_true, ==_refl}
use python_oracledb.StatementParser.Bind.{Characters}
use python_oracledb.StatementParser.Main.{prepare}
use python_oracledb.StatementParser.Progress.{Holds, Holds-returns, Holds-ok}
use python_oracledb.StatementParser.Ends.Step.{Lasting}
use python_oracledb.StatementParser.Ends.{parse-Holds}

pub same_text→≡ : (xs ys : List ℕ) → same_text xs ys ≡ true → xs ≡ ys
unfolding same_text
same_text→≡ [] [] e = refl
same_text→≡ [] (y ∷ ys) e = cc
same_text→≡ (x ∷ xs) [] e = cc
same_text→≡ (x ∷ xs) (y ∷ ys) e =
    let (a, b) = and_true (x == y) (same_text xs ys) e in
    let same : x ≡ y = ground arith in
    ap (λ z. z ∷ xs) same ∙ ap (λ zs. y ∷ zs) (same_text→≡ xs ys b)

same_text_refl : (xs : List ℕ) → same_text xs xs ≡ true
unfolding same_text
same_text_refl [] = refl
same_text_refl (x ∷ xs) = rw (==_refl x) (same_text_refl xs)

other_name :
    (n name other : List ℕ)
    → same_text n name ≡ true
    → same_text n other ≡ false
    → same_text other name ≡ false
other_name n name other e o = elim (Bool-cases (same_text other name)) [
  | inl f ↦
      let same : n ≡ other = same_text→≡ n name e ∙ sym (same_text→≡ other name f) in
      let bad : true ≡ false = sym (same_text_refl n) ∙ ap (same_text n) same ∙ o in cc
  | inr f ↦ f
]

-- The binds of a name, in order.
unfoldable pub binds_named : List ℕ → List BindInfo → List BindInfo
unfolding same_text
binds_named name [] = []
binds_named name (info ∷ infos) =
    let rest = binds_named name infos in if same_text info.bind_name name then info ∷ rest else rest

abbrev pub or_none : Option (List BindInfo) → List BindInfo
or_none none = []
or_none (some infos) = infos

-- Each entry of the dictionary has the binds of its name, in the order of the list; and the binds have
-- no metadata yet.
pub record Grouped (s : Statement) : Type 0 where
  pub entries :
      (name : List ℕ)
      → or_none (lookup_binds name s.bind_info_dict) ≡ binds_named name s.bind_info_list
  pub fresh : map copy_bind_info s.bind_info_list ≡ s.bind_info_list

module _ (name : List ℕ) (info : BindInfo) where
  binds_named-append :
      (infos : List BindInfo)
      → binds_named name (infos ++ (info ∷ []))
        ≡ binds_named name infos ++ binds_named name (info ∷ [])
  unfolding binds_named
  binds_named-append [] = refl
  binds_named-append (i ∷ is) = elim (Bool-cases (same_text i.bind_name name)) [
    | inl e ↦ rw e (ap (λ xs. i ∷ xs) (binds_named-append is))
    | inr e ↦ rw e (binds_named-append is)
  ]

  lookup_binds-append_bind :
      (dict : BindDict)
      → or_none (lookup_binds name (append_bind info dict))
        ≡ or_none (lookup_binds name dict) ++ binds_named name (info ∷ [])
  unfolding lookup_binds append_bind binds_named
  lookup_binds-append_bind [] = elim (Bool-cases (same_text info.bind_name name)) [
    | inl e ↦ rw e refl
    | inr e ↦ rw e refl
  ]
  lookup_binds-append_bind ((n, infos) ∷ dict) = elim (Bool-cases (same_text n info.bind_name)) [
    | inl e ↦ elim (Bool-cases (same_text info.bind_name name)) [
      | inl f ↦ rw (same_text→≡ n info.bind_name e, same_text_refl info.bind_name, f) refl
      | inr f ↦
          rw (same_text→≡ n info.bind_name e, same_text_refl info.bind_name, f)
            (sym (append-nil (or_none (lookup_binds name dict))))
    ]
    | inr o ↦ elim (Bool-cases (same_text n name)) [
      | inl e ↦
          let other : same_text info.bind_name name ≡ false =
            other_name n name info.bind_name e o in
          rw (o, e, other) (sym (append-nil infos))
      | inr e ↦ rw (o, e) (lookup_binds-append_bind dict)
    ]
  ]

with_bind-Grouped :
    (name : List ℕ) (is_return_bind : Bool) (s : Statement)
    → Grouped s
    → Grouped (with_bind (new_bind_info name is_return_bind) s)
unfolding with_bind
with_bind-Grouped name is_return_bind s g =
    let info = new_bind_info name is_return_bind in
    record {
      entries = λ n.
          lookup_binds-append_bind n info s.bind_info_dict
          ∙ ap (λ xs. xs ++ binds_named n (info ∷ [])) (g.entries n)
          ∙ sym (binds_named-append n info s.bind_info_list);
      fresh =
          map-append copy_bind_info s.bind_info_list (info ∷ [])
          ∙ ap (λ xs. xs ++ (info ∷ [])) g.fresh;
    }

same_binds :
    (s t : Statement)
    → t.bind_info_dict ≡ s.bind_info_dict
    → t.bind_info_list ≡ s.bind_info_list
    → Grouped s
    → Grouped t
same_binds s t d l g = record {
  entries =
      λ n. ap (λ dict. or_none (lookup_binds n dict)) d ∙ g.entries n ∙ sym (ap (binds_named n) l);
  fresh = ap (map copy_bind_info) l ∙ g.fresh ∙ sym l;
}

if-Holds :
    (b : Bool) (x y : Result Statement)
    → Holds Grouped x
    → Holds Grouped y
    → Holds Grouped (if b then x else y)
if-Holds true x y g h = g
if-Holds false x y g h = h

module _ (name : List ℕ) (s : Statement) (g : Grouped s) where
  added-Grouped : Grouped (add_new_bind name s)
  unfolding add_new_bind
  added-Grouped = with_bind-Grouped name s.is_returning s g

  add_after-Grouped : (orig : Option BindInfo) → Holds Grouped (add_after orig name s)
  unfolding add_after
  add_after-Grouped none = tt
  add_after-Grouped (some info) = elim (Bool-cases info.is_return_bind) [
    | inl e ↦ rw e added-Grouped
    | inr e ↦ rw e tt
  ]

  add_again-Grouped : (infos : List BindInfo) → Holds Grouped (add_again infos name s)
  unfolding add_again
  add_again-Grouped infos =
      if-Holds s.is_returning (add_after (last_bind infos) name s) (ok (add_new_bind name s))
        (add_after-Grouped (last_bind infos)) added-Grouped

  add_bind-Grouped : Holds Grouped (add_bind name s)
  unfolding add_bind
  add_bind-Grouped = elim (Option-cases (lookup_binds name s.bind_info_dict)) [
    | inl e ↦ rw (add_bind, e) added-Grouped
    | inr (infos, e) ↦
        rw (add_bind, e)
          (if-Holds s.is_plsql (ok s) (add_again infos name s) g (add_again-Grouped infos))
  ]

if-Grouped : (b : Bool) (x y : Statement) → Grouped x → Grouped y → Grouped (if b then x else y)
if-Grouped true x y g h = g
if-Grouped false x y g h = h

determine_statement_type-Grouped :
    (keyword : List ℕ) (s : Statement) → Grouped s → Grouped (determine_statement_type keyword s)
unfolding determine_statement_type
determine_statement_type-Grouped keyword s g =
    let plsql = same_binds s (record s { is_plsql = true }) refl refl g in
    let query = same_binds s (record s { is_query = true }) refl refl g in
    let dml = same_binds s (record s { is_dml = true }) refl refl g in
    let ddl = same_binds s (record s { is_ddl = true }) refl refl g in search (if-Grouped)

Grouped-Lasting : Lasting Grouped
Grouped-Lasting = record {
  by_type = determine_statement_type-Grouped;
  by_into = λ s g. same_binds s (record s { is_returning = true }) refl refl g;
  by_bind = λ name s g. add_bind-Grouped name s g;
}

-- On any text `_prepare` ends, with a statement or an error; the dictionary of the statement has under
-- each name the binds of that name in the order of the list of binds, and under no other name any.
pub prepare-Grouped :
    (chars : Characters) (sql : List ℕ)
    → (prepare chars sql ≢ stuck)
      × ((s : Statement)
          → prepare chars sql ≡ ok s
          → (name : List ℕ)
          → or_none (lookup_binds name s.bind_info_dict) ≡ binds_named name s.bind_info_list)
unfolding prepare lookup_binds binds_named
prepare-Grouped chars sql =
    let empty = record new_statement { sql = some sql } in
    let held =
      parse-Holds chars Grouped Grouped-Lasting sql empty
        (record { entries = λ name. refl; fresh = refl }) in
    (Holds-returns Grouped held, λ s e name. (Holds-ok Grouped held s e).entries name)
