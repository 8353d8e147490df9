-- ===== src/Repositories/Table.antt =====
-- What backend/src/infrastructure/repositories uses of PostgreSQL through asyncpg: a table with a
-- primary key. The database is a parameter; the laws are what its documentation says of these
-- statements.
use event_driven_ai_voice.Prelude.{
  Bool, List, Option, if◌then◌else◌, none, some, ℕ, ◌==◌, ◌≡◌, [], ◌∷◌, ==_refl, refl,
}
use mathlib.Core.Option
use event_driven_ai_voice.Types.{Uuid}

-- `insert` raises for a key that is there, and `update` is an UPDATE for one key.
pub record Table (Db Row : Type 0) (key : Row → Uuid) : Type 0 where
  pub insert : Row → Db → Option Db
  pub update : Uuid → (Row → Row) → Db → Db
  pub fetchrow : Uuid → Db → Option Row
  pub fetch : (Row → Bool) → (Row → Option ℕ) → Db → List Row
  pub fetchrow-insert :
      (row : Row) (id : Uuid) (db db' : Db)
      → insert row db ≡ some db'
      → fetchrow id db' ≡ (if key row == id then some row else fetchrow id db)
  pub fetchrow-update :
      (id other : Uuid) (set : Row → Row) (db : Db)
      → fetchrow other (update id set db)
        ≡ (if id == other then Option.map set (fetchrow other db) else fetchrow other db)

-- What `get_by_id` gives: no row, the `ValueError` of an unknown enum value, or the entity.
pub data Fetched (A : Type 0) : Type 0 where
  missing value_error : Fetched A
  got : A → Fetched A

unfoldable pub fetched : {Row A : Type 0} → (Row → Option A) → Option Row → Fetched A
fetched convert none = missing
fetched convert (some row) = elim (convert row) [ none ↦ value_error | some a ↦ got a ]

infixl 5 ◌>>=◌
abbrev pub ◌>>=◌ : {A B : Type 0} → Option A → (A → Option B) → Option B
none >>= f = none
some a >>= f = f a

-- A list of converted rows, if every row converts.
unfoldable pub all_of : {Row A : Type 0} → (Row → Option A) → List Row → Option (List A)
all_of convert [] = some []
all_of convert (row ∷ rows) = do a ← convert row; rest ← all_of convert rows; some (a ∷ rest)

-- An inserted row is there with what an update sets.
pub fetchrow-insert_update :
    {Db Row : Type 0} {key : Row → Uuid} (table : Table Db Row key) (row : Row) (id : Uuid)
    (set : Row → Row) (db db' : Db)
    → table.insert row db ≡ some db'
    → key row ≡ id
    → table.fetchrow id (table.update id set db') ≡ some (set row)
fetchrow-insert_update {key = key} table row id set db db' e same =
    rw
      (
        table.fetchrow-update id id set db',
        ==_refl id,
        table.fetchrow-insert row id db db' e,
        same,
        ==_refl id,
      )
      refl

pub fetched-some :
    {Row A : Type 0} (convert : Row → Option A) (row : Row) (a : A)
    → convert row ≡ some a
    → fetched convert (some row) ≡ got a
unfolding fetched
fetched-some convert row a e = rw (fetched, e) refl
