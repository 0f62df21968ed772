-- ===== src/Shared.antt =====
-- internal/legacy/sstring/sstring.go: the table of shared strings, from which a list of fields takes
-- the names of its fields. The hash map is a function, and the mutex is left out: each operation
-- holds it from its start to its end.
use spatialdb_engine.Base.{
  ℕ, zero, suc, ◌≡◌, refl, Option, none, some, List, [], ◌∷◌, ◌++◌, length, arith, get_elem?,
  if◌then◌else◌, Bool-cases, inl, inr,
}
use spatialdb_engine.Base.Text.{Str, str_eq, str_eq_iff}

pub record Shared : Type 0 where
  pub nums : Str → Option ℕ
  pub strs : List Str

abbrev pub no_shared : Shared
no_shared = record { nums = λ s. none; strs = [] }

-- `Load`. The panic that it means for an unknown number is a `none`.
unfoldable pub load : Shared → ℕ → Option Str
load sh num = get_elem? sh.strs num

abbrev store_new : Shared → Str → Shared × ℕ
store_new sh str = (
  record {
    nums = λ s. if str_eq s str then some (length sh.strs) else sh.nums s;
    strs = sh.strs ++ str ∷ [];
  },
  length sh.strs,
)

store_known : Shared → Str → Option ℕ → Shared × ℕ
store_known sh str (some num) = (sh, num)
store_known sh str none = store_new sh str

unfoldable pub store : Shared → Str → Shared × ℕ
unfolding store_known
store sh str = store_known sh str (sh.nums str)

-- `Len`.
abbrev pub len : Shared → ℕ
len sh = length sh.strs

-- Each number of the map is that of its string in the slice.
pub record IsShared (sh : Shared) : Type 0 where
  pub numbered : (s : Str) (num : ℕ) → sh.nums s ≡ some num → load sh num ≡ some s

get_elem?-append :
    {A : Type 0} (xs ys : List A) (i : ℕ) (a : A)
    → get_elem? xs i ≡ some a
    → get_elem? (xs ++ ys) i ≡ some a
get_elem?-append [] ys i a h = cc
get_elem?-append (x ∷ xs) ys zero a h = h
get_elem?-append (x ∷ xs) ys (suc i) a h = get_elem?-append xs ys i a h

get_elem?-last : {A : Type 0} (xs : List A) (a : A) → get_elem? (xs ++ a ∷ []) (length xs) ≡ some a
get_elem?-last [] a = refl
get_elem?-last (x ∷ xs) a = get_elem?-last xs a

store_known-lem :
    (sh : Shared) (str : Str) (known : Option ℕ)
    → sh.nums str ≡ known
    → IsShared sh
    → IsShared (store_known sh str known).0
      × (load (store_known sh str known).0 (store_known sh str known).1 ≡ some str)
      × ((num : ℕ) (s : Str)
          → load sh num ≡ some s
          → load (store_known sh str known).0 num ≡ some s)
unfolding store_known load
store_known-lem sh str (some num) e h = (h, h.numbered str num e, λ n s k. k)
store_known-lem sh str none e h = (
  record {
    numbered = λ s num k. elim (Bool-cases (str_eq s str)) [
      | inl t ↦ ground (arith, str_eq_iff s str, get_elem?-last sh.strs str)
      | inr f ↦ get_elem?-append sh.strs (str ∷ []) num s (h.numbered s num (ground arith))
    ];
  },
  get_elem?-last sh.strs str,
  λ num s k. get_elem?-append sh.strs (str ∷ []) num s k,
)

-- Storing a string keeps the table right, its number loads the string, and every number that loaded
-- a string before loads the same one.
pub load-store :
    (sh : Shared) (str : Str)
    → IsShared sh
    → IsShared (store sh str).0
      × (load (store sh str).0 (store sh str).1 ≡ some str)
      × ((num : ℕ) (s : Str) → load sh num ≡ some s → load (store sh str).0 num ≡ some s)
unfolding store
load-store sh str h = store_known-lem sh str (sh.nums str) refl h
