-- ===== src/Common/Rows.antt =====
-- Tables as lists of rows: what the program's SQL statements do to one, given the statement's
-- WHERE as a test and its SET as a function. An INSERT puts the new row first; no statement of the
-- program reads an order that it did not ask for.
pub mod Laws
pub mod Keys
use mcp_ui.Common.Tests.{if◌then◌else◌}
use Prim.Native.Nat.{ℕ, suc}
use mathlib.Core.Bool.{Bool, true, false}
use mathlib.Core.Option.{Option, none, some}
use mathlib.Core.List.{List, [], ◌∷◌}

module _ {ℓ} {R : Type ℓ} where
  -- The rows of a SELECT.
  unfoldable pub select : (R → Bool) → List R → List R
  select p [] = []
  select p (x ∷ xs) = let rest = select p xs in if p x then x ∷ rest else rest

  -- `rows[0]`.
  unfoldable pub first : (R → Bool) → List R → Option R
  first p [] = none
  first p (x ∷ xs) = if p x then some x else first p xs

  -- `SELECT count(*)`.
  unfoldable pub count : (R → Bool) → List R → ℕ
  count p [] = 0
  count p (x ∷ xs) = let rest = count p xs in if p x then suc rest else rest

  -- An UPDATE.
  unfoldable pub update : (R → Bool) → (R → R) → List R → List R
  update p f [] = []
  update p f (x ∷ xs) = (if p x then f x else x) ∷ update p f xs

  -- A DELETE.
  unfoldable pub delete : (R → Bool) → List R → List R
  delete p [] = []
  delete p (x ∷ xs) = let rest = delete p xs in if p x then rest else x ∷ rest

  -- EXISTS, and `.some(...)` on an array.
  unfoldable pub any : (R → Bool) → List R → Bool
  any p [] = false
  any p (x ∷ xs) = if p x then true else any p xs

  -- `.every(...)` on an array.
  unfoldable pub every : (R → Bool) → List R → Bool
  every p [] = true
  every p (x ∷ xs) = if p x then every p xs else false

  abbrev pub All {κ} : (R → Type κ) → List R → Type κ
  All P [] = Unit
  All P (x ∷ xs) = P x × All P xs
