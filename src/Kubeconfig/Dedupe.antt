-- ===== src/Kubeconfig/Dedupe.antt =====
-- `keepLastByName` of internal/kubeconfig/merge.go against a reference that looks ahead.
use hyve.Prelude.{
  ℕ, ◌+◌, ◌≤◌, String, ◌≡◌, ◌∙◌, ap, refl, Bool, true, false, not, Option, none, some, List, [],
  ◌∷◌, eq_iff, arith, any, if◌then◌else◌, Bool-cases, Option-cases, inl, inr,
}
use hyve.Prelude.Maps.{Map, lookup, insert, lookup-insert}
use hyve.Kubeconfig.{
  Entry, name_of, is_named, record_last, survives, keep_recorded, keep_last_by_name,
}

abbrev is_later : List Entry → Option String → Bool
is_later items none = false
is_later items (some name) = any (λ item. is_named name (name_of item)) items

-- The reference: an entry stays if it has no name, or no later entry has the same one.
pub last_of_each_name : List Entry → List Entry
last_of_each_name [] = []
last_of_each_name (item ∷ items) =
    let rest = last_of_each_name items in
    if is_later items (name_of item) then rest else item ∷ rest

-- A name that does not come again keeps its index, and one that does gets one past `i`.
abbrev last_index : ℕ → String → List Entry → Option ℕ → Option ℕ
last_index i name [] old = old
last_index i name (item ∷ items) old =
    last_index (i + 1) name items (if is_named name (name_of item) then some i else old)

lookup-record_last :
    (i : ℕ) (items : List Entry) (m : Map ℕ) (name : String)
    → lookup name (record_last i items m) ≡ last_index i name items (lookup name m)
unfolding record_last
lookup-record_last i [] m name = refl
lookup-record_last i (item ∷ items) m name = elim (Option-cases (name_of item)) [
  | inl e ↦ rw e (lookup-record_last (i + 1) items m name)
  | inr (n, e) ↦ rw e (
      lookup-record_last (i + 1) items (insert n i m) name
      ∙ ap (last_index (i + 1) name items) (lookup-insert n name i m))
]

last_index_of_absent :
    (i : ℕ) (name : String) (items : List Entry) (old : Option ℕ)
    → any (λ item. is_named name (name_of item)) items ≡ false
    → last_index i name items old ≡ old
last_index_of_absent i name [] old h = refl
last_index_of_absent i name (item ∷ items) old h =
    ground (arith, last_index_of_absent (i + 1) name items old)

last_index_of_present :
    (i : ℕ) (name : String) (items : List Entry) (old : Option ℕ)
    → any (λ item. is_named name (name_of item)) items ≡ true
    → (j : ℕ) × (last_index i name items old ≡ some j) × (i ≤ j)
last_index_of_present i name [] old h = cc
last_index_of_present i name (item ∷ items) old h =
    elim (Bool-cases (any (λ item. is_named name (name_of item)) items)) [
      | inl later ↦
          let (j, e, b) =
            last_index_of_present (i + 1) name items
              (if is_named name (name_of item) then some i else old) later in
          (j, e, omega arith)
      | inr only ↦
          (i, ground (arith, last_index_of_absent (i + 1) name items (some i)), omega arith)
    ]

-- Whether the entry at `i` survives, if the recorded index of its name looks at the rest.
survives-eq-not-is_later :
    (i : ℕ) (last_idx : Map ℕ) (items : List Entry) (name : String)
    → lookup name last_idx ≡ last_index (i + 1) name items (some i)
    → survives i last_idx (some name) ≡ not (is_later items (some name))
survives-eq-not-is_later i last_idx items name h =
    elim (Bool-cases (any (λ item. is_named name (name_of item)) items)) [
      | inl later ↦
          let (j, e, b) = last_index_of_present (i + 1) name items (some i) later in
          ground (arith, h, e, later)
      | inr only ↦ ground (arith, h, only, last_index_of_absent (i + 1) name items (some i) only)
    ]

keep_recorded-eq :
    (i : ℕ) (items : List Entry) (last_idx : Map ℕ) (old : String → Option ℕ)
    → ((name : String) → lookup name last_idx ≡ last_index i name items (old name))
    → keep_recorded i items last_idx ≡ last_of_each_name items
unfolding keep_recorded last_of_each_name
keep_recorded-eq i [] last_idx old h = refl
keep_recorded-eq i (item ∷ items) last_idx old h =
    let rest =
      keep_recorded-eq (i + 1) items last_idx
        (λ (name : String). if is_named name (name_of item) then some i else old name) h in
    elim (Option-cases (name_of item)) [
      | inl e ↦ rw (e, rest) refl
      | inr (n, e) ↦
          rw (e, rest)
            (ground (
              arith,
              survives-eq-not-is_later i last_idx items n (ground (arith, h n, e, eq_iff n n)),
            ))
    ]

-- `keepLastByName`, which records the last index of each name and then filters by it, keeps an
-- entry exactly if it has no name or no later entry has the same name, in the order they had.
pub keep_last_by_name-eq : (items : List Entry) → keep_last_by_name items ≡ last_of_each_name items
unfolding keep_last_by_name lookup
keep_last_by_name-eq items =
    keep_recorded-eq 0 items (record_last 0 items []) (λ name. none)
      (λ name. lookup-record_last 0 items [] name)
