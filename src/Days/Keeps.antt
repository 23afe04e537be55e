-- ===== src/Days/Keeps.antt =====
-- Handlers that keep the table of days, and the rules by which they are put together.
use office_attendance_backen.Base.{
  ℕ, ◌≡◌, sym, ap, subst, ◌∙◌, arith, Bool, inl, inr, if◌then◌else◌, Bool-cases,
}
use office_attendance_backen.Model.{Db}
use office_attendance_backen.Session.{
  HttpError, ok, err, Session, Action, request, pure, gets, ◌>>=◌, Result-cases,
}
use office_attendance_backen.Api.{Answer, office_row, as_answer, as_office}
use office_attendance_backen.Api.Undone.{Looks}
use office_attendance_backen.Days.{DaysOk}

-- Both states of a session.
abbrev pub BothOk : Session → Type 0
BothOk s = DaysOk s.durable.days × DaysOk s.current.days

-- In the middle of a transaction.
abbrev pub Keeps {ℓ} : {A : Type ℓ} → Action A → Type 0
Keeps m = (s : Session) → BothOk s → BothOk (m s).1

-- A whole request.
abbrev pub KeepsDays {ℓ} : {A : Type ℓ} → Action A → Type 0
KeepsDays m = (db : Db) → DaysOk db.days → DaysOk (request m db).1.days

bind-ok {ℓ κ} :
    {A : Type ℓ} {B : Type κ} (m : Action A) (f : A → Action B) (s : Session) (a : A)
    → (m s).0 ≡ ok a
    → (m >>= f) s ≡ f a (m s).1
bind-ok m f s a e = ground arith

bind-err {ℓ κ} :
    {A : Type ℓ} {B : Type κ} (m : Action A) (f : A → Action B) (s : Session) (x : HttpError)
    → (m s).0 ≡ err x
    → (m >>= f) s ≡ (err x, (m s).1)
bind-err m f s x e = ground arith

pub Keeps-bind {ℓ κ} :
    {A : Type ℓ} {B : Type κ} (m : Action A) (f : A → Action B)
    → Keeps m
    → ((a : A) → Keeps (f a))
    → Keeps (m >>= f)
Keeps-bind m f km kf s both = elim (Result-cases (m s).0) [
  | inl (a, e) ↦ subst (λ z. BothOk z.1) (sym (bind-ok m f s a e)) (kf a (m s).1 (km s both))
  | inr (x, e) ↦ subst (λ z. BothOk z.1) (sym (bind-err m f s x e)) (km s both)
]

pub Looks-Keeps {ℓ} : {A : Type ℓ} (m : Action A) → Looks m → Keeps m
Looks-Keeps m looks s both = subst BothOk (sym (looks s)) both

pub Keeps-if {ℓ} :
    {A : Type ℓ} (b : Bool) (m n : Action A) → Keeps m → Keeps n → Keeps (if b then m else n)
Keeps-if b m n km kn s both = elim (Bool-cases b) [
  | inl t ↦ rw t (km s both)
  | inr e ↦ rw e (kn s both)
]

pub Keeps-KeepsDays {ℓ} : {A : Type ℓ} (m : Action A) → Keeps m → KeepsDays m
Keeps-KeepsDays m keeps db h = (keeps (record { durable = db; current = db }) (h, h)).0

pub same-KeepsDays {ℓ} :
    {A : Type ℓ} (m : Action A) → ((db : Db) → (request m db).1.days ≡ db.days) → KeepsDays m
same-KeepsDays m same db h = subst DaysOk (sym (same db)) h

pub KeepsDays-as_answer {ℓ} :
    {A : Type ℓ} (f : A → Answer) (m : Action A) → KeepsDays m → KeepsDays (as_answer f m)
KeepsDays-as_answer f m keeps db h =
    let start : Session = record { durable = db; current = db } in
    elim (Result-cases (m start).0) [
      | inl (a, e) ↦
          subst (λ z. DaysOk z.1.durable.days) (sym (bind-ok m (λ a. pure (f a)) start a e))
            (keeps db h)
      | inr (x, e) ↦
          subst (λ z. DaysOk z.1.durable.days) (sym (bind-err m (λ a. pure (f a)) start x e))
            (keeps db h)
    ]

pub KeepsDays-bind {ℓ κ} :
    {A : Type ℓ} {B : Type κ} (m : Action A) (f : A → Action B)
    → Looks m
    → ((a : A) → KeepsDays (f a))
    → KeepsDays (m >>= f)
KeepsDays-bind m f looks keeps db h =
    let start : Session = record { durable = db; current = db } in
    elim (Result-cases (m start).0) [
      | inl (a, e) ↦
          subst (λ z. DaysOk z.1.durable.days)
            (sym (bind-ok m f start a e ∙ ap (f a) (looks start))) (keeps a db h)
      | inr (x, e) ↦
          subst (λ z. DaysOk z.1.durable.days) (sym (bind-err m f start x e))
            (subst (λ z. DaysOk z.durable.days) (sym (looks start)) h)
    ]

pub KeepsDays-as_office {ℓ} :
    {A : Type ℓ} (f : A → ℕ) (m : Action A) → KeepsDays m → KeepsDays (as_office f m)
KeepsDays-as_office f m keeps db h =
    let start : Session = record { durable = db; current = db } in
    elim (Result-cases (m start).0) [
      | inl (a, e) ↦
          subst (λ z. DaysOk z.1.durable.days)
            (sym (bind-ok m (λ a. gets (office_row (f a))) start a e)) (keeps db h)
      | inr (x, e) ↦
          subst (λ z. DaysOk z.1.durable.days)
            (sym (bind-err m (λ a. gets (office_row (f a))) start x e)) (keeps db h)
    ]
