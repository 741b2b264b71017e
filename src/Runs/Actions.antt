-- ===== src/Runs/Actions.antt =====
-- Code that works on a state of its own and may raise: what it changed before it raised stays changed.
use tuntu.Prelude.{◌≡◌, refl, Bool, true, false, if◌then◌else◌}
use tuntu.Errors.{Error, Result, ok, err}

abbrev pub Action {ℓ} : Type 0 → Type ℓ → Type ℓ
Action S A = S → Result A × S

module _ {S : Type 0} where
  unfoldable pub pure {ℓ} : {A : Type ℓ} → A → Action S A
  pure a s = (ok a, s)

  unfoldable pub lift {ℓ} : {A : Type ℓ} → Result A → Action S A
  lift r s = (r, s)

  unfoldable pub gets {ℓ} : {A : Type ℓ} → (S → A) → Action S A
  gets f s = (ok (f s), s)

  unfoldable pub change : (S → S) → Action S (Unit {0})
  change f s = (ok tt, f s)

  -- `try: … except …:`, with what was raised as a value.
  unfoldable pub attempt {ℓ} : {A : Type ℓ} → Action S A → Action S (Result A)
  attempt m s = let (r, s') = m s in (ok r, s')

  abbrev pub resume {ℓ κ} :
      {A : Type ℓ} {B : Type κ} → Result A × S → (A → Action S B) → Result B × S
  resume (ok a, s) next = next a s
  resume (err e, s) next = (err e, s)

infixl 5 ◌>>=◌
unfoldable pub ◌>>=◌ {ℓ κ} :
    {S : Type 0} {A : Type ℓ} {B : Type κ} → Action S A → (A → Action S B) → Action S B
◌>>=◌ m next s = resume (m s) next

-- What every step keeps, the whole keeps, whether it returns or raises.
module _ {S : Type 0} (P : S → Type 0) where
  abbrev pub Keeps {ℓ} : {A : Type ℓ} → Action S A → Type 0
  Keeps m = (s : S) → P s → P (m s).1

  resume-Keeps {ℓ κ} :
      {A : Type ℓ} {B : Type κ} (x : Result A × S) (next : A → Action S B)
      → P x.1
      → ((a : A) → Keeps (next a))
      → P (resume x next).1
  resume-Keeps (ok a, s) next h k = k a s h
  resume-Keeps (err e, s) next h k = h

  pub >>=-Keeps {ℓ κ} :
      {A : Type ℓ} {B : Type κ} (m : Action S A) (next : A → Action S B)
      → Keeps m
      → ((a : A) → Keeps (next a))
      → Keeps (m >>= next)
  unfolding ◌>>=◌
  >>=-Keeps m next h k s p = resume-Keeps (m s) next (h s p) k

  pub pure-Keeps : {A : Type 0} (a : A) → Keeps (pure a)
  unfolding pure
  pure-Keeps a s p = p

  pub lift-Keeps : {A : Type 0} (r : Result A) → Keeps (lift r)
  unfolding lift
  lift-Keeps r s p = p

  pub gets-Keeps : {A : Type 0} (f : S → A) → Keeps (gets f)
  unfolding gets
  gets-Keeps f s p = p

  pub change-Keeps : (f : S → S) → ((s : S) → P s → P (f s)) → Keeps (change f)
  unfolding change
  change-Keeps f h s p = h s p

  pub attempt-Keeps : {A : Type 0} (m : Action S A) → Keeps m → Keeps (attempt m)
  unfolding attempt
  attempt-Keeps m h s p = h s p

  lifted-Keeps :
      {A B : Type 0} (r : Result A) (next : A → Action S B)
      → ((a : A) → r ≡ ok a → Keeps (next a))
      → Keeps (λ s. resume (r, s) next)
  lifted-Keeps (ok a) next k s p = k a refl s p
  lifted-Keeps (err e) next k s p = p

  -- What is lifted is known to be a value in what follows it.
  pub lift->>=-Keeps :
      {A B : Type 0} (r : Result A) (next : A → Action S B)
      → ((a : A) → r ≡ ok a → Keeps (next a))
      → Keeps (lift r >>= next)
  unfolding lift ◌>>=◌
  lift->>=-Keeps r next k = lifted-Keeps r next k

  -- A choice that is known in each branch.
  pub choice-Keeps :
      {A : Type 0} (b : Bool) (m n : Action S A)
      → (b ≡ true → Keeps m)
      → (b ≡ false → Keeps n)
      → Keeps (if b then m else n)
  choice-Keeps true m n h g = h refl
  choice-Keeps false m n h g = g refl

-- From one property to a weaker one, which a raise leaves with the first part's.
module _ {S : Type 0} (P Q : S → Type 0) (weaken : (s : S) → P s → Q s) where
  abbrev pub Leads {ℓ} : {A : Type ℓ} → Action S A → Type 0
  Leads m = (s : S) → P s → Q (m s).1

  resume-Leads :
      {A B : Type 0} (x : Result A × S) (next : A → Action S B)
      → P x.1
      → ((a : A) → Leads (next a))
      → Q (resume x next).1
  resume-Leads (ok a, s) next h k = k a s h
  resume-Leads (err e, s) next h k = weaken s h

  pub >>=-Leads :
      {A B : Type 0} (m : Action S A) (next : A → Action S B)
      → Keeps P m
      → ((a : A) → Leads (next a))
      → Leads (m >>= next)
  unfolding ◌>>=◌
  >>=-Leads m next h k s p = resume-Leads (m s) next (h s p) k

  pub choice-Leads :
      {A : Type 0} (b : Bool) (m n : Action S A) → Leads m → Leads n → Leads (if b then m else n)
  choice-Leads true m n h g = h
  choice-Leads false m n h g = g

  pub pure-Leads : {A : Type 0} (a : A) → Leads (pure a)
  unfolding pure
  pure-Leads a s p = weaken s p

-- What holds of the result and the state of each branch.
module _ {S : Type 0} {B : Type 0} (Q : Result B × S → Type 0) where
  lifted-holds :
      {A : Type 0} (r : Result A) (next : A → Action S B) (s : S)
      → ((e : Error) → Q (err e, s))
      → ((a : A) → Q (next a s))
      → Q (resume (r, s) next)
  lifted-holds (ok a) next s raised returned = returned a
  lifted-holds (err e) next s raised returned = raised e

  pub lift-holds :
      {A : Type 0} (r : Result A) (next : A → Action S B) (s : S)
      → ((e : Error) → Q (err e, s))
      → ((a : A) → Q (next a s))
      → Q ((lift r >>= next) s)
  unfolding lift ◌>>=◌
  lift-holds r next s raised returned = lifted-holds r next s raised returned

  pub choice-holds :
      (b : Bool) (m n : Action S B) (s : S) → Q (m s) → Q (n s) → Q ((if b then m else n) s)
  choice-holds true m n s h g = h
  choice-holds false m n s h g = g
