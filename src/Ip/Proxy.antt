-- ===== src/Ip/Proxy.antt =====
-- app/ip_utils.py `get_client_ip`: behind one proxy, what the client writes into
-- `X-Forwarded-For` stands left of what the proxy appends, and is not read.
use Prim.Native.String.{◌++◌ as ◌+++◌}
use text.Mathlib.TextLemmas.{nil-append, cons-append}
use Prim.Native.Char.{Char, code}
use office_attendance_backen.Base.{
  ◌≡◌, ◌∙◌, ap, sym, refl, String, str_eq, eq_iff, Bool, true, false, Option, none, some, List, [],
  ◌∷◌, ◌++◌, arith, is_some, if◌then◌else◌, Bool-cases, inl, inr, ◌==◌,
}
use office_attendance_backen.World.{Addresses}
use office_attendance_backen.Ip.Text.{split_comma, strip}
use office_attendance_backen.Ip.{
  Request, truthy, nonblank, last_part, normalize_opt, real_ip, forwarded_ip, get_client_ip,
}

abbrev comma : Char
comma = ","

-- The pieces of a text with another character before it.
abbrev extend : Char → List String → List String
extend c [] = String.◌∷◌ c "" ∷ []
extend c (w ∷ ws) = if code c == b',' then "" ∷ w ∷ ws else String.◌∷◌ c w ∷ ws

split_comma-cons : (c : Char) (s : String) → split_comma (String.◌∷◌ c s) ≡ extend c (split_comma s)
unfolding split_comma
split_comma-cons c s = refl

abbrev is_filled : List String → Bool
is_filled [] = false
is_filled (w ∷ ws) = true

extend-is_filled : (c : Char) (ws : List String) → is_filled (extend c ws) ≡ true
extend-is_filled c [] = refl
extend-is_filled c (w ∷ ws) = ground arith

split_comma-is_filled : (s : String) → is_filled (split_comma s) ≡ true
unfolding split_comma
split_comma-is_filled String.[] = refl
split_comma-is_filled (String.◌∷◌ c s) =
    rw (split_comma-cons c s) (extend-is_filled c (split_comma s))

extend-append :
    (c : Char) (ps qs : List String) → is_filled ps ≡ true → extend c (ps ++ qs) ≡ extend c ps ++ qs
extend-append c [] qs h = ground arith
extend-append c (p ∷ ps) qs h = elim (Bool-cases (code c == b',')) [
  | inl t ↦ rw t refl
  | inr t ↦ rw t refl
]

extend-comma : (ws : List String) → is_filled ws ≡ true → extend comma ws ≡ "" ∷ ws
extend-comma [] h = ground arith
extend-comma (w ∷ ws) h = refl

split_comma-append :
    (s r : String)
    → (ps : List String) × (is_filled ps ≡ true)
      × (split_comma (s +++ (String.◌∷◌ comma r)) ≡ ps ++ split_comma r)
split_comma-append String.[] r = (
  "" ∷ [],
  refl,
  rw (nil-append (String.◌∷◌ comma r))
      (split_comma-cons comma r ∙ extend-comma (split_comma r) (split_comma-is_filled r)),
)
split_comma-append (String.◌∷◌ c s) r =
    let (ps, filled, e) = split_comma-append s r in
    (
      extend c ps,
      extend-is_filled c ps,
      rw (cons-append c s (String.◌∷◌ comma r)) (
          split_comma-cons c (s +++ (String.◌∷◌ comma r))
          ∙ ap (extend c) e
          ∙ extend-append c ps (split_comma r) filled),
    )

nonblank-append : (ps qs : List String) → nonblank (ps ++ qs) ≡ nonblank ps ++ nonblank qs
unfolding nonblank
nonblank-append [] qs = refl
nonblank-append (p ∷ ps) qs = ground (arith, nonblank-append ps qs)

last_part-append :
    (ps qs : List String) → is_some (last_part qs) ≡ true → last_part (ps ++ qs) ≡ last_part qs
unfolding last_part
last_part-append [] qs h = refl
last_part-append (p ∷ []) [] h = ground arith
last_part-append (p ∷ []) (q ∷ qs) h = refl
last_part-append (p ∷ p' ∷ ps) qs h = last_part-append (p' ∷ ps) qs h

-- The entry that `get_client_ip` reads of a header.
abbrev entry_of : String → Option String
entry_of f = last_part (nonblank (split_comma f))

entry_of-append :
    (s r : String)
    → is_some (entry_of r) ≡ true
    → entry_of (s +++ (String.◌∷◌ comma r)) ≡ entry_of r
entry_of-append s r h =
    let (ps, filled, e) = split_comma-append s r in
    ap (λ ws. last_part (nonblank ws)) e
    ∙ ap last_part (nonblank-append ps (split_comma r))
    ∙ last_part-append (nonblank ps) (nonblank (split_comma r)) h

entry_of_empty : entry_of "" ≡ none
unfolding split_comma nonblank last_part strip
entry_of_empty = refl

truthy_of_entry : (f : String) → is_some (entry_of f) ≡ true → truthy (some f) ≡ some f
truthy_of_entry f h = elim (Bool-cases (str_eq f "")) [
  | inl t ↦
      cc (ap (λ g. is_some (entry_of g)) ((eq_iff f "").0 t), ap (λ o. is_some o) entry_of_empty)
  | inr t ↦ rw t refl
]

forwarded_ip-entry :
    (a : Addresses) (req : Request) (f : String)
    → is_some (entry_of f) ≡ true
    → forwarded_ip a (record req { x_forwarded_for = some f }) ≡ normalize_opt a (entry_of f)
unfolding forwarded_ip
forwarded_ip-entry a req f h =
    ap (λ o. elim o [ none ↦ none | some g ↦ normalize_opt a (entry_of g) ]) (truthy_of_entry f h)

-- If what the proxy appends to `X-Forwarded-For` has an entry, then whatever stands before it and its
-- comma changes nothing: the address is the one of a request without it.
pub get_client_ip_forged :
    (trust_proxy : Bool) (a : Addresses) (req : Request) (forged real : String)
    → is_some (last_part (nonblank (split_comma real))) ≡ true
    → get_client_ip trust_proxy a
        (record req { x_forwarded_for = some (forged +++ (String.◌∷◌ "," real)) })
      ≡ get_client_ip trust_proxy a (record req { x_forwarded_for = some real })
unfolding get_client_ip real_ip
get_client_ip_forged false a req forged real h = refl
get_client_ip_forged true a req forged real h =
    let same : forwarded_ip a
          (record req { x_forwarded_for = some (forged +++ (String.◌∷◌ comma real)) })
        ≡ forwarded_ip a (record req { x_forwarded_for = some real }) =
      forwarded_ip-entry a req (forged +++ (String.◌∷◌ comma real))
        (ap (λ o. is_some o) (entry_of-append forged real h) ∙ h)
      ∙ ap (normalize_opt a) (entry_of-append forged real h)
      ∙ sym (forwarded_ip-entry a req real h) in
    rw same refl
