-- ===== src/Api/Undone.antt =====
-- A request that fails leaves the database as it was: the rules by which handlers are put together.
pub mod Accounts
pub mod Sites
pub mod Presence
use office_attendance_backen.Base.{ℕ, ◌≡◌, refl, ap, ◌∙◌, arith, Option, none, some, inl, inr}
use office_attendance_backen.Model.{Db}
use office_attendance_backen.Session.{
  HttpError, Result, ok, err, Session, Action, request, or_raise, ◌>>=◌, Result-cases,
}
use office_attendance_backen.Api.{Answer, as_answer, as_office, and_done}

-- What is durable after a request that failed is what was there before it.
abbrev pub Undone {ℓ} : {A : Type ℓ} → Action A → Type ℓ
Undone m = (db : Db) (x : HttpError) → (request m db).0 ≡ err x → (request m db).1 ≡ db

-- An action that reads.
abbrev pub Looks {ℓ} : {A : Type ℓ} → Action A → Type 0
Looks m = (s : Session) → (m s).1 ≡ s

pub or_raise-Looks {ℓ} : {A : Type ℓ} (x : HttpError) (o : Option A) → Looks (or_raise x o)
or_raise-Looks x none s = refl
or_raise-Looks x (some a) s = refl

pub Looks-Undone {ℓ} : {A : Type ℓ} (m : Action A) → Looks m → Undone m
Looks-Undone m looks db x h = ap (λ s. s.durable) (looks (record { durable = db; current = db }))

pub Looks-bind {ℓ κ} :
    {A : Type ℓ} {B : Type κ} (m : Action A) (f : A → Action B)
    → Looks m
    → ((a : A) → Looks (f a))
    → Looks (m >>= f)
Looks-bind m f looks next s =
    let same = looks s in
    elim (Result-cases (m s).0) [
      | inl (a, e) ↦ ground (arith, next a (m s).1)
      | inr (x, e) ↦ ground arith
    ]

-- What comes after a look at the database starts from the same state.
pub Undone-bind {ℓ κ} :
    {A : Type ℓ} {B : Type κ} (m : Action A) (f : A → Action B)
    → Looks m
    → ((a : A) → Undone (f a))
    → Undone (m >>= f)
Undone-bind m f looks undone db x h =
    let start : Session = record { durable = db; current = db } in
    let same = looks start in
    elim (Result-cases (m start).0) [
      | inl (a, e) ↦ ground (arith, undone a db x)
      | inr (y, e) ↦ ground arith
    ]

pub Undone-as_answer {ℓ} :
    {A : Type ℓ} (f : A → Answer) (m : Action A) → Undone m → Undone (as_answer f m)
Undone-as_answer f m undone db x h =
    let start : Session = record { durable = db; current = db } in
    elim (Result-cases (m start).0) [
      | inl (a, e) ↦ ground arith
      | inr (y, e) ↦ ground (arith, undone db y)
    ]

pub Undone-as_office {ℓ} :
    {A : Type ℓ} (id_of : A → ℕ) (m : Action A) → Undone m → Undone (as_office id_of m)
Undone-as_office id_of m undone db x h =
    let start : Session = record { durable = db; current = db } in
    elim (Result-cases (m start).0) [
      | inl (a, e) ↦ ground arith
      | inr (y, e) ↦ ground (arith, undone db y)
    ]
