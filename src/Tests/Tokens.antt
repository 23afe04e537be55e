-- ===== src/Tests/Tokens.antt =====
-- A concrete signer in place of `jose`: it writes out the claims, each text character by
-- character between marks, and the moment of expiry in decimal.
use Prim.Native.Char.{Char, code}
use office_attendance_backen.Base.{
  ◌==◌, ◌≡◌, ◌∙◌, ap, refl, arith, String, Option, none, some, if◌then◌else◌,
}
use office_attendance_backen.Time.{Instant}
use office_attendance_backen.World.{Claims}
use office_attendance_backen.Numerals.{ℤ, pos, str_of, int_of}
use office_attendance_backen.Numerals.RoundTrip.{int_of-str_of}
use office_attendance_backen.Auth.Tokens.{is_expired}

abbrev write_text : String → String → String
write_text String.[] rest = String.◌∷◌ "." rest
write_text (String.◌∷◌ c s) rest = String.◌∷◌ "+" (String.◌∷◌ c (write_text s rest))

-- A claim in front of the rest: "-" stands for one that is not there.
abbrev write_claim : Option String → String → String
write_claim none rest = String.◌∷◌ "-" rest
write_claim (some s) rest = write_text s rest

abbrev cons_char : Char → Option (Option String × String) → Option (Option String × String)
cons_char c (some (some s, rest)) = some (some (String.◌∷◌ c s), rest)
cons_char c _ = none

abbrev marked : Char → String → Option (Option String × String) → Option (Option String × String)
marked mark s tail =
    if code mark == b'-'
    then some (none, s)
    else if code mark == b'.'
    then some (some "", s)
    else tail

abbrev read_claim : String → Option (Option String × String)
read_claim String.[] = none
read_claim (String.◌∷◌ mark String.[]) = marked mark "" none
read_claim (String.◌∷◌ mark (String.◌∷◌ c s)) =
    let tail = read_claim s in marked mark (String.◌∷◌ c s) (cons_char c tail)

read-write_text : (s rest : String) → read_claim (write_text s rest) ≡ some (some s, rest)
read-write_text String.[] String.[] = refl
read-write_text String.[] (String.◌∷◌ c rest) = refl
read-write_text (String.◌∷◌ c s) rest = ap (cons_char c) (read-write_text s rest)

read-write_claim :
    (claim : Option String) (rest : String)
    → read_claim (write_claim claim rest) ≡ some (claim, rest)
read-write_claim none String.[] = refl
read-write_claim none (String.◌∷◌ c rest) = refl
read-write_claim (some s) rest = read-write_text s rest

abbrev pub issue : Claims → Instant → String → String → String
issue claims exp key algorithm =
    write_claim claims.sub (write_claim claims.role (write_claim claims.token_type (str_of exp)))

abbrev live_at : Instant → Option ℤ → Option Instant
live_at now (some (pos exp)) = if is_expired exp now then none else some exp
live_at now _ = none

abbrev checked : Instant → Claims → Option ℤ → Option Claims
checked now claims exp = elim (live_at now exp) [ none ↦ none | some e ↦ some claims ]

-- A claim is read, then the rest.
abbrev bind_claim :
    Option (Option String × String) → (Option String → String → Option Claims) → Option Claims
bind_claim none k = none
bind_claim (some (claim, rest)) k = k claim rest

abbrev pub verify : String → String → String → Instant → Option Claims
verify token key algorithm now = bind_claim (read_claim token) λ sub s.
    bind_claim (read_claim s) λ role t.
      bind_claim (read_claim t)
        λ kind u. checked now (record { sub = sub; role = role; token_type = kind }) (int_of u)

bind-write_claim :
    (claim : Option String) (rest : String) (k : Option String → String → Option Claims)
    → bind_claim (read_claim (write_claim claim rest)) k ≡ k claim rest
bind-write_claim claim rest k = ap (λ x. bind_claim x k) (read-write_claim claim rest)

checked-str_of :
    (claims : Claims) (exp now : Instant)
    → checked now claims (int_of (str_of exp)) ≡ (if is_expired exp now then none else some claims)
checked-str_of claims exp now = ap (checked now claims) (int_of-str_of exp) ∙ ground arith

pub verify-issue :
    (claims : Claims) (exp : Instant) (key algorithm : String) (now : Instant)
    → verify (issue claims exp key algorithm) key algorithm now
      ≡ (if is_expired exp now then none else some claims)
verify-issue claims exp key algorithm now =
    let kind = write_claim claims.token_type (str_of exp) in
    bind-write_claim claims.sub (write_claim claims.role kind) _
    ∙ bind-write_claim claims.role kind _
    ∙ bind-write_claim claims.token_type (str_of exp) _
    ∙ checked-str_of claims exp now
