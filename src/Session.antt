-- ===== src/Session.antt =====
-- A database session, SQLAlchemy's `AsyncSession` as app/database.py opens it: statements change
-- the open transaction, `commit` makes it durable, and what is not committed when the session
-- closes is lost. A handler that raises an `HTTPException`, or dies of another exception (a 500),
-- returns `err`.
use office_attendance_backen.Base.{
  Bool, Option, none, some, if◌then◌else◌, ◌≡◌, ◌⊎◌, refl, inl, inr,
}
use office_attendance_backen.Model.{Db}

pub data HttpError : Type 0 where
  bad_request unauthorized forbidden not_found conflict unprocessable internal : HttpError

pub data Result {ℓ} (A : Type ℓ) : Type ℓ where
  ok : A → Result A
  err : HttpError → Result A

pub record Session : Type 0 where
  pub durable : Db
  pub current : Db

abbrev pub Action {ℓ} : Type ℓ → Type ℓ
Action A = Session → Result A × Session

module _ {ℓ} {A : Type ℓ} where
  abbrev pub pure : A → Action A
  pure a s = (ok a, s)

  abbrev pub raise : HttpError → Action A
  raise e s = (err e, s)

  abbrev pub gets : (Db → A) → Action A
  gets f s = (ok (f s.current), s)

  -- A value that is missing is an error.
  abbrev pub or_raise : HttpError → Option A → Action A
  or_raise e none s = (err e, s)
  or_raise e (some a) s = (ok a, s)

  -- A statement with a result.
  abbrev pub execute : (Db → A × Db) → Action A
  execute f s = let (a, db) = f s.current in (ok a, record s { current = db })

  -- A request: a new session, and what it leaves durable.
  abbrev pub request : Action A → Db → Result A × Db
  request m db = let (r, s) = m (record { durable = db; current = db }) in (r, s.durable)

infixl 5 ◌>>=◌ ◌>>◌
abbrev pub ◌>>=◌ {ℓ κ} : {A : Type ℓ} {B : Type κ} → Action A → (A → Action B) → Action B
◌>>=◌ m f s = let (r, s') = m s in elim r [ ok a ↦ f a s' | err e ↦ (err e, s') ]

abbrev pub ◌>>◌ {ℓ κ} : {A : Type ℓ} {B : Type κ} → Action A → Action B → Action B
m >> k = m >>= λ _. k

abbrev pub modify : (Db → Db) → Action (Unit {0})
modify f s = (ok tt, record s { current = f s.current })

abbrev pub raise_if : Bool → HttpError → Action (Unit {0})
raise_if b e s = (if b then err e else ok tt, s)

abbrev pub commit : Action (Unit {0})
commit s = (ok tt, record s { durable = s.current })

abbrev pub rollback : Action (Unit {0})
rollback s = (ok tt, record s { current = s.durable })

pub Result-cases {ℓ} :
    {A : Type ℓ} (r : Result A) → ((a : A) × (r ≡ ok a)) ⊎ ((e : HttpError) × (r ≡ err e))
Result-cases (ok a) = inl (a, refl)
Result-cases (err e) = inr (e, refl)
