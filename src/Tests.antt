-- ===== src/Tests.antt =====
-- Concrete libraries for the tests: a signature scheme that writes the claims out, a time format of whole
-- seconds, a serialisation of users, and passwords that are their own hash.
pub mod Ids
pub mod Sessions
pub mod Logins
pub mod Users
pub mod Web
pub mod Scopes
pub mod Departments
pub mod Services
pub mod Sockets
pub mod Devices
pub mod Accounts
use fbapy.Base.{
  ℕ, zero, suc, ◌*◌, ◌/◌, ◌≡◌, refl, ◌≢◌, ap, ◌∙◌, Bool, true, false, ◌&&◌, Option, none, some,
  List, [], ◌∷◌, ◌++◌, map, ltb, leb, if◌then◌else◌,
}
use fbapy.Base.Text.{Text, text_eq}
use fbapy.Token.{Claims, Decoded, claims, expired, invalid, Jose}
use fbapy.Lockout.{TimeFormat, second}
use fbapy.Identity.{Role, UserDept, User, DomainUser, Directory}
use fbapy.Password.{Passwords}
use fbapy.User.{Hashing}

-- A text, each code one higher, up to a zero.
abbrev write_text : Text → Text → Text
write_text [] rest = 0 ∷ rest
write_text (c ∷ t) rest = suc c ∷ write_text t rest

abbrev read_text : Text → Text × Text
read_text [] = ([], [])
read_text (zero ∷ rest) = ([], rest)
read_text (suc c ∷ rest) = let (t, rest') = read_text rest in (c ∷ t, rest')

read-write_text : (t rest : Text) → read_text (write_text t rest) ≡ (t, rest)
read-write_text [] rest = refl
read-write_text (c ∷ t) rest = rw (read-write_text t rest) refl

abbrev write_option : Option Text → Text → Text
write_option none rest = 0 ∷ rest
write_option (some t) rest = 1 ∷ write_text t rest

abbrev read_option : Text → Option Text × Text
read_option [] = (none, [])
read_option (zero ∷ rest) = (none, rest)
read_option (suc c ∷ rest) = let (t, rest') = read_text rest in (some t, rest')

read-write_option : (o : Option Text) (rest : Text) → read_option (write_option o rest) ≡ (o, rest)
read-write_option none rest = refl
read-write_option (some t) rest = rw (read-write_text t rest) refl

abbrev write_exp : Option ℕ → Text
write_exp none = []
write_exp (some e) = e ∷ []

abbrev read_exp : Text → Option ℕ
read_exp [] = none
read_exp (e ∷ rest) = some e

read-write_exp : (o : Option ℕ) → read_exp (write_exp o) ≡ o
read-write_exp none = refl
read-write_exp (some e) = refl

abbrev written_encode : Claims → Text
written_encode c = write_option c.session_uuid (write_option c.sub (write_exp c.exp))

abbrev read_claims : Text → Claims
read_claims t =
    let (session_uuid, rest) = read_option t in
    let (sub, rest') = read_option rest in
    record { session_uuid = session_uuid; exp = read_exp rest'; sub = sub }

abbrev checked : ℕ → Claims → Option ℕ → Decoded
checked now c none = claims c
checked now c (some e) = if ltb e now then expired else claims c

abbrev written_decode : ℕ → Text → Decoded
written_decode now t = let c = read_claims t in checked now c c.exp

pub read-write_claims : (c : Claims) → read_claims (written_encode c) ≡ c
read-write_claims c =
    rw
      (
        read-write_option c.session_uuid (write_option c.sub (write_exp c.exp)),
        read-write_option c.sub (write_exp c.exp),
        read-write_exp c.exp,
      )
      refl

abbrev pub written_jose : Jose
written_jose = record {
  encode = written_encode;
  decode = written_decode;
  decode-encode = λ now e c h.
      ap (λ (x : Claims). checked now x x.exp) (read-write_claims c) ∙ ap (checked now c) h;
}

abbrev read_seconds : Text → ℕ
read_seconds [] = 0
read_seconds (n ∷ rest) = n * second

pub filled : (n : ℕ) → n ∷ [] ≢ []
filled n h = cc

abbrev pub whole_seconds : TimeFormat
whole_seconds = record {
  to_str = λ t. t / second ∷ [];
  from_str = read_seconds;
  from_str-to_str = λ t. refl;
  to_str-filled = λ t. filled (t / second);
}

abbrev pub plain_passwords : Passwords
plain_passwords = record { password_verify = text_eq; is_decimal = λ c. leb 48 c && leb c 57 }

abbrev pub plain_hashing : Hashing
plain_hashing = record { hash = λ t. t; synchronized = false }

abbrev bit : Bool → ℕ
bit false = 0
bit true = 1

abbrev flag : ℕ → Bool
flag zero = false
flag (suc n) = true

flag-bit : (b : Bool) → flag (bit b) ≡ b
flag-bit true = refl
flag-bit false = refl

abbrev write_number : Option ℕ → ℕ
write_number none = 0
write_number (some n) = suc n

abbrev read_number : ℕ → Option ℕ
read_number zero = none
read_number (suc n) = some n

read-write_number : (o : Option ℕ) → read_number (write_number o) ≡ o
read-write_number none = refl
read-write_number (some n) = refl

abbrev write_dept : Option UserDept → Text → Text
write_dept none rest = 0 ∷ 0 ∷ rest
write_dept (some d) rest = suc d.status ∷ bit d.del_flag ∷ rest

abbrev read_dept : ℕ → ℕ → Option UserDept
read_dept zero f = none
read_dept (suc s) f = some (record { status = s; del_flag = flag f })

abbrev dump_user : User → Text
dump_user u =
    u.id
    ∷ u.status
    ∷ bit u.is_superuser
    ∷ bit u.is_staff
    ∷ write_number u.dept_id
    ∷ write_dept u.dept (map (λ (x : Role). x.status) u.roles)

abbrev nobody : User
nobody = record {
  id = 0;
  status = 0;
  is_superuser = false;
  is_staff = false;
  dept_id = none;
  dept = none;
  roles = [];
}

abbrev load_user : Text → User
load_user (i ∷ s ∷ a ∷ b ∷ c ∷ d ∷ e ∷ roles) = record {
  id = i;
  status = s;
  is_superuser = flag a;
  is_staff = flag b;
  dept_id = read_number c;
  dept = read_dept d e;
  roles = map (λ n. record { status = n }) roles;
}
load_user _ = nobody

read-write_roles :
    (roles : List Role)
    → map (λ n. record { status = n }) (map (λ (x : Role). x.status) roles) ≡ roles
read-write_roles [] = refl
read-write_roles (role ∷ roles) = ap (λ rest. role ∷ rest) (read-write_roles roles)

abbrev make : ℕ → ℕ → Bool → Bool → Option ℕ → List Role → Option UserDept → User
make i s a b d roles dept = record {
  id = i;
  status = s;
  is_superuser = a;
  is_staff = b;
  dept_id = d;
  dept = dept;
  roles = roles;
}

load-dump_parts :
    (i s : ℕ) (a b : Bool) (d : Option ℕ) (roles : List Role) (dept : Option UserDept)
    → load_user (dump_user (make i s a b d roles dept)) ≡ make i s a b d roles dept
load-dump_parts i s a b d roles none =
    rw (flag-bit a, flag-bit b, read-write_number d, read-write_roles roles) refl
load-dump_parts i s a b d roles (some dept) =
    rw (flag-bit a, flag-bit b, read-write_number d, read-write_roles roles, flag-bit dept.del_flag)
      refl

pub load-dump_user : (u : User) → load_user (dump_user u) ≡ u
load-dump_user u = load-dump_parts u.id u.status u.is_superuser u.is_staff u.dept_id u.roles u.dept

abbrev read_domain_user : Text → DomainUser
read_domain_user [] = record { id = 0 }
read_domain_user (i ∷ rest) = record { id = i }

-- One administrator, `root`, with the number 7.
abbrev pub root_user : User
root_user = record {
  id = 7;
  status = 1;
  is_superuser = true;
  is_staff = true;
  dept_id = none;
  dept = none;
  roles = [];
}

abbrev pub root_directory : Directory
root_directory = record {
  select_user = λ pk. some root_user;
  select_domain_user = λ pk. none;
  is_domain = λ extra. false;
  dump_user = dump_user;
  load_user = load_user;
  dump_domain_user = λ u. u.id ∷ [];
  load_domain_user = read_domain_user;
  load-dump_user = load-dump_user;
  load-dump_domain_user = λ u. refl;
}
