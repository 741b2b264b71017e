-- ===== src/Db/Session/Rules.antt =====
-- What holds of the database after a sequence of sessions, one rule for each way to build one.
use tuntu.Prelude.{◌≡◌, refl, sym, ap}
use tuntu.Errors.{Error, Result, ok, err}
use tuntu.Db.Tables.{Db}
use tuntu.Db.Session.{Exec, commit, resume, lift, after, ◌>>=◌}

module _ (P : Db → Type 0) where
  resume-after {ℓ κ} :
      {A : Type ℓ} {B : Type κ} (x : Result A × Db) (f : A → Exec B)
      → P x.1
      → ((a : A) (db : Db) → P db → x ≡ (ok a, db) → P (after (f a) db))
      → P (resume x f).1
  resume-after (ok a, db) f h k = k a db h refl
  resume-after (err e, db) f h k = h

  -- If the first part raises, its database is left.
  pub bind-after {ℓ κ} :
      {A : Type ℓ} {B : Type κ} (m : Exec A) (f : A → Exec B) (db : Db)
      → P (after m db)
      → ((a : A) (db' : Db) → P db' → m db ≡ (ok a, db') → P (after (f a) db'))
      → P (after (m >>= f) db)
  bind-after m f db h k = resume-after (m db) f h k

  pub lift-after {ℓ κ} :
      {A : Type ℓ} {B : Type κ} (r : Result A) (f : A → Exec B) (db : Db)
      → P db
      → ((a : A) → r ≡ ok a → P (after (f a) db))
      → P (after (lift r >>= f) db)
  lift-after (ok a) f db h k = k a refl
  lift-after (err e) f db h k = h

  -- A session that raises is rolled back.
  pub commit-after {ℓ} :
      {A : Type ℓ} (r : Result (A × Db)) (db : Db)
      → P db
      → ((a : A) (db' : Db) → r ≡ ok (a, db') → P db')
      → P (commit db r).1
  commit-after (ok (a, db')) db h k = k a db' refl
  commit-after (err e) db h k = h

-- The same for what the code returns or raises together with the database.
resume-holds {ℓ κ} :
    {A : Type ℓ} {B : Type κ} (Q : Result B × Db → Type 0) (f : A → Exec B) (x : Result A × Db)
    → ((e : Error) (db' : Db) → x ≡ (err e, db') → Q (err e, db'))
    → ((a : A) (db' : Db) → x ≡ (ok a, db') → Q (f a db'))
    → Q (resume x f)
resume-holds Q f (ok a, db') raised returned = returned a db' refl
resume-holds Q f (err e, db') raised returned = raised e db' refl

pub bind-holds {ℓ κ} :
    {A : Type ℓ} {B : Type κ} (Q : Result B × Db → Type 0) (m : Exec A) (f : A → Exec B) (db : Db)
    → ((e : Error) (db' : Db) → m db ≡ (err e, db') → Q (err e, db'))
    → ((a : A) (db' : Db) → m db ≡ (ok a, db') → Q (f a db'))
    → Q ((m >>= f) db)
bind-holds Q m f db raised returned = resume-holds Q f (m db) raised returned

pub lift-holds {ℓ κ} :
    {A : Type ℓ} {B : Type κ} (Q : Result B × Db → Type 0) (r : Result A) (f : A → Exec B) (db : Db)
    → ((e : Error) → r ≡ err e → Q (err e, db))
    → ((a : A) → r ≡ ok a → Q (f a db))
    → Q ((lift r >>= f) db)
lift-holds Q (ok a) f db raised returned = returned a refl
lift-holds Q (err e) f db raised returned = raised e refl

pub commit-ok {ℓ} :
    {A : Type ℓ} (r : Result (A × Db)) (db : Db) (a : A) (db' : Db)
    → commit db r ≡ (ok a, db')
    → r ≡ ok (a, db')
commit-ok (ok (b, d)) db a db' h =
    ap (λ (p : Result _ × Db). elim p.0 [ ok c ↦ ok (c, p.1) | err e ↦ err e ]) h
commit-ok (err e) db a db' h = absurd (cc)

pub commit-err {ℓ} :
    {A : Type ℓ} (r : Result (A × Db)) (db : Db) (e : Error) (db' : Db)
    → commit db r ≡ (err e, db')
    → (r ≡ err e) × (db' ≡ db)
commit-err (ok (b, d)) db e db' h = absurd (cc)
commit-err (err d) db e db' h = (
  ap (λ (p : Result _ × Db). elim p.0 [ ok c ↦ ok (c, p.1) | err e ↦ err e ]) h,
  sym (ap (λ (p : Result _ × Db). p.1) h),
)

resume-eq-ok {ℓ κ} :
    {A : Type ℓ} {B : Type κ} (f : A → Exec B) (x : Result A × Db) {b : B} {db' : Db}
    → resume x f ≡ (ok b, db')
    → (a : A) × (mid : Db) × (x ≡ (ok a, mid)) × (f a mid ≡ (ok b, db'))
resume-eq-ok f (ok a, mid) h = (a, mid, refl, h)
resume-eq-ok f (err e, mid) h = absurd (cc)

-- What came back from a sequence came through each part.
pub bind-eq-ok {ℓ κ} :
    {A : Type ℓ} {B : Type κ} (m : Exec A) (f : A → Exec B) (db : Db) {b : B} {db' : Db}
    → (m >>= f) db ≡ (ok b, db')
    → (a : A) × (mid : Db) × (m db ≡ (ok a, mid)) × (f a mid ≡ (ok b, db'))
bind-eq-ok m f db h = resume-eq-ok f (m db) h

pub lift-eq-ok {ℓ κ} :
    {A : Type ℓ} {B : Type κ} (r : Result A) (f : A → Exec B) (db : Db) {b : B} {db' : Db}
    → (lift r >>= f) db ≡ (ok b, db')
    → (a : A) × (r ≡ ok a) × (f a db ≡ (ok b, db'))
lift-eq-ok (ok a) f db h = (a, refl, h)
lift-eq-ok (err e) f db h = absurd (cc)
