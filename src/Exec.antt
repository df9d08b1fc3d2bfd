-- ===== src/Exec.antt =====
-- Asynchronous code as explicit state passing: an action reads and changes the state that it
-- awaits, and ends in a value or a failure. Writes made before a failure stay, unless a
-- transaction takes them back (`transaction` of server/src/db/index.ts and db/pg.ts).
use mcp_ui.Errors.{Failure}

pub data Result {ℓ} (A : Type ℓ) : Type ℓ where
  ok : A → Result A
  err : Failure → Result A

abbrev pub Exec {ℓ κ} : Type ℓ → Type κ → Type (ℓ ⊔ κ)
Exec S A = S → Result A × S

abbrev pub pure {ℓ κ} : {S : Type ℓ} {A : Type κ} → A → Exec S A
pure a s = (ok a, s)

abbrev pub throw {ℓ κ} : {S : Type ℓ} {A : Type κ} → Failure → Exec S A
throw e s = (err e, s)

abbrev pub after {ℓ κ ι} :
    {S : Type ℓ} {A : Type κ} {B : Type ι} → Result A × S → (A → Exec S B) → Result B × S
after (ok a, s) f = f a s
after (err e, s) f = (err e, s)

infixl 5 ◌>>=◌ ◌>>◌
abbrev pub ◌>>=◌ {ℓ κ ι} :
    {S : Type ℓ} {A : Type κ} {B : Type ι} → Exec S A → (A → Exec S B) → Exec S B
◌>>=◌ m f s = after (m s) f

abbrev pub ◌>>◌ {ℓ κ} : {S : Type ℓ} {B : Type κ} → Exec S (Unit {0}) → Exec S B → Exec S B
m >> k = m >>= λ _. k

-- A statement that reads.
abbrev pub gets {ℓ κ} : {S : Type ℓ} {A : Type κ} → (S → A) → Exec S A
gets f s = (ok (f s), s)

-- A statement that writes.
abbrev pub modify {ℓ} : {S : Type ℓ} → (S → S) → Exec S (Unit {0})
modify f s = (ok tt, f s)

abbrev settle {ℓ κ} : {S : Type ℓ} {A : Type κ} → S → Result A × S → Result A × S
settle before (ok a, s) = (ok a, s)
settle before (err e, s) = (err e, before)

-- BEGIN … COMMIT, with ROLLBACK where the body throws.
abbrev pub transaction {ℓ κ} : {S : Type ℓ} {A : Type κ} → Exec S A → Exec S A
transaction body s = settle s (body s)
