-- ===== src/Db/Query.antt =====
-- What the statements share: the rows that an UPDATE changes, ORDER BY, and `collect`.
pub mod Found
use otdel.Prelude.{
  ℕ, suc, ◌≡◌, Bool, false, Option, none, some, List, [], ◌∷◌, if◌then◌else◌, any, Result, ok,
  ◌>>=◌,
}

module _ {ℓ} {A : Type ℓ} where
  -- UPDATE … SET … WHERE
  abbrev pub update_where : (A → Bool) → (A → A) → List A → List A
  update_where p f [] = []
  update_where p f (row ∷ rows) =
      let rest = update_where p f rows in if p row then f row ∷ rest else row ∷ rest

  -- The number of rows that pass: `rows_affected`.
  abbrev pub count : (A → Bool) → List A → ℕ
  count p [] = 0
  count p (row ∷ rows) = let rest = count p rows in if p row then suc rest else rest

  insert_by : (A → A → Bool) → A → List A → List A
  insert_by before row [] = row ∷ []
  insert_by before row (other ∷ rows) =
      let rest = insert_by before row rows in
      if before row other then row ∷ other ∷ rows else other ∷ rest

  -- ORDER BY
  unfoldable pub order_by : (A → A → Bool) → List A → List A
  unfolding insert_by
  order_by before [] = []
  order_by before (row ∷ rows) = insert_by before row (order_by before rows)

  -- A UNIQUE constraint: no row agrees with a later one.
  abbrev pub IsUnique : (A → A → Bool) → List A → Type 0
  IsUnique same [] = Unit
  IsUnique same (row ∷ rows) = (any rows (same row) ≡ false) × IsUnique same rows

module _ {ℓ κ μ} {A : Type ℓ} {B : Type κ} {E : Type μ} where
  -- `iter().map(f).collect()`
  abbrev pub collect : (A → Result B E) → List A → Result (List B) E
  collect f [] = ok []
  collect f (a ∷ as') = let rest = collect f as' in f a >>= λ b. rest >>= λ bs. ok (b ∷ bs)

  -- `as_ref().map(f).transpose()`
  abbrev pub transpose : (A → Result B E) → Option A → Result (Option B) E
  transpose f none = ok none
  transpose f (some a) = f a >>= λ b. ok (some b)
