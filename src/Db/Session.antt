-- ===== src/Db/Session.antt =====
-- src/tuntu/db/database.py: `Database.session`, and sequences of sessions.
pub mod Rules
use tuntu.Errors.{Result, ok, err}
use tuntu.Db.Tables.{Db}

-- Code that runs sessions one after another: it returns or raises, and leaves a database.
abbrev pub Exec {ℓ} : Type ℓ → Type ℓ
Exec A = Db → Result A × Db

-- `with database.session()`: what returns is committed, what raises is rolled back.
abbrev pub commit {ℓ} : {A : Type ℓ} → Db → Result (A × Db) → Result A × Db
commit db (ok (a, db')) = (ok a, db')
commit db (err e) = (err e, db)

abbrev pub session {ℓ} : {A : Type ℓ} → (Db → Result (A × Db)) → Exec A
session body db = commit db (body db)

abbrev pub read {ℓ} : {A : Type ℓ} → (Db → A) → Exec A
read f db = (ok (f db), db)

abbrev pub pure {ℓ} : {A : Type ℓ} → A → Exec A
pure a db = (ok a, db)

abbrev pub lift {ℓ} : {A : Type ℓ} → Result A → Exec A
lift r db = (r, db)

abbrev pub resume {ℓ κ} : {A : Type ℓ} {B : Type κ} → Result A × Db → (A → Exec B) → Result B × Db
resume (ok a, db) f = f a db
resume (err e, db) f = (err e, db)

infixl 5 ◌>>=◌
infixl 5 ◌>>◌
abbrev pub ◌>>=◌ {ℓ κ} : {A : Type ℓ} {B : Type κ} → Exec A → (A → Exec B) → Exec B
◌>>=◌ m f db = resume (m db) f

abbrev pub ◌>>◌ {ℓ κ} : {A : Type ℓ} {B : Type κ} → Exec A → Exec B → Exec B
◌>>◌ m n = m >>= λ _. n

-- The database that is left, whether the code returned or raised.
abbrev pub after {ℓ} : {A : Type ℓ} → Exec A → Db → Db
after m db = (m db).1
