-- ===== src/Database/Keeps.antt =====
-- A transaction is atomic: an error leaves every table as it was.
use be_miawai.Base.{◌≡◌, refl, arith, subst, ℕ, List, Bool}
use be_miawai.Database.World.{
  World, Result, ok, err, Query, Error, pure, ◌>>=◌, ◌>>◌, statement, rollback, settle, transaction,
  resume, M, later_faults,
}

settle-atomic :
    {A : Type 0} (r : Result Error A × World) (w : World) {e : Error}
    → (settle r w).0 ≡ err e
    → (settle r w).1 ≡ rollback w r.1
settle-atomic (ok a, w') w h = cc
settle-atomic (err e, w') w h = refl

-- The world after the statements of a transaction, before its commit or rollback.
abbrev pub uncommitted : {A : Type 0} → Query A → World → World
uncommitted m w = ((do statement; a ← m; statement; pure a) w).1

pub transaction-atomic :
    {A : Type 0} (m : Query A) (w : World) {e : Error}
    → (transaction m w).0 ≡ err e
    → (transaction m w).1 ≡ rollback w (uncommitted m w)
transaction-atomic m w h = settle-atomic ((do statement; a ← m; statement; pure a) w) w h

-- Whatever the computation gives satisfies `P`.
abbrev pub Yields : {A : Type 0} → (A → Type 0) → Query A → Type 0
Yields {A} P m = (w : World) (a : A) → (m w).0 ≡ ok a → P a

pub ok_injective : {A : Type 0} {a b : A} → Path (Result Error A) (ok a) (ok b) → a ≡ b
ok_injective e = ground arith

module _ {A : Type 0} (P : A → Type 0) where
  pub pure-Yields : (a : A) → P a → Yields P (pure a)
  pure-Yields a p w b h = subst P (ok_injective h) p

  resume-Yields :
      {B : Type 0} (Q : B → Type 0) (f : B → Query A) (r : Result Error B × World) (a : A)
      → ((b : B) → r.0 ≡ ok b → Q b)
      → ((b : B) → Q b → Yields P (f b))
      → (resume f r).0 ≡ ok a
      → P a
  resume-Yields Q f (ok b, w) a q k h = k b (q b refl) w a h
  resume-Yields Q f (err e, w) a q k h = cc

  -- What the first part gives satisfies `Q`, and then what the rest gives satisfies `P`.
  pub bind-Yields :
      {B : Type 0} (Q : B → Type 0) (m : Query B) (f : B → Query A)
      → Yields Q m
      → ((b : B) → Q b → Yields P (f b))
      → Yields P (m >>= f)
  bind-Yields Q m f q k w a h = resume-Yields Q f (m w) a (q w) k h

  -- The rest of a computation decides, whatever its first part gives.
  pub rest-Yields :
      {B : Type 0} (m : Query B) (f : B → Query A) → ((b : B) → Yields P (f b)) → Yields P (m >>= f)
  rest-Yields m f k = bind-Yields (λ b. Unit {0}) m f (λ w b h. tt) (λ b q. k b)

  settle-Yields :
      (r : Result Error A × World) (w : World) (a : A) → (settle r w).0 ≡ ok a → r.0 ≡ ok a
  settle-Yields (ok b, w') w a h = h
  settle-Yields (err e, w') w a h = cc

  pub transaction-Yields : (m : Query A) → Yields P m → Yields P (transaction m)
  transaction-Yields m k w a h =
      rest-Yields statement (λ u. m >>= λ b. statement >> pure b)
        (λ u.
          bind-Yields P m (λ b. statement >> pure b) k
            (λ b p. rest-Yields statement (λ v. pure b) (λ v. pure-Yields b p)))
        w a (settle-Yields ((do statement; b ← m; statement; pure b) w) w a h)

-- What holds of the world before a computation holds after it, whatever it answers.
module _ {E : Type 0} (P : World → Type 0) where
  abbrev pub Holds : {A : Type 0} → M E A → Type 0
  Holds m = (w : World) → P w → P (m w).1

  resume-Holds :
      {A B : Type 0} (f : B → M E A) (r : Result E B × World)
      → ((b : B) → Holds (f b))
      → P r.1
      → P (resume f r).1
  resume-Holds f (ok b, w) k h = k b w h
  resume-Holds f (err e, w) k h = h

  pub bind-Holds :
      {A B : Type 0} (m : M E B) (f : B → M E A)
      → Holds m
      → ((b : B) → Holds (f b))
      → Holds (m >>= f)
  bind-Holds m f h k w p = resume-Holds f (m w) k (h w p)

-- Where it is about neither the supply of texts nor the faults, a transaction keeps it too.
module _ (P : World → Type 0)
    (stable : (w : World) (d : ℕ) (fs : List Bool)
      → P w
      → P (record w { draws = d; faults = fs })) where
  settle-Holds :
      {A : Type 0} (r : Result Error A × World) (w : World) → P w → P r.1 → P (settle r w).1
  settle-Holds (ok a, v) w p q = q
  settle-Holds (err e, v) w p q = stable w v.draws v.faults p

  pub statement-Holds : Holds P statement
  statement-Holds w p = stable w w.draws (later_faults w.faults) p

  pub transaction-Holds : {A : Type 0} (m : Query A) → Holds P m → Holds P (transaction m)
  transaction-Holds m k w p = settle-Holds ((do statement; a ← m; statement; pure a) w) w p (
      bind-Holds P statement (λ u. m >>= λ a. statement >> pure a) statement-Holds
        (λ u.
          bind-Holds P m (λ a. statement >> pure a) k
            λ a. bind-Holds P statement (λ v. pure a) statement-Holds (λ v w p. p))
        w p)
