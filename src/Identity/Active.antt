-- ===== src/Identity/Active.antt =====
-- Exactly which users `get_current_user` lets through.
use fbapy.Base.{
  ℕ, ◌≡◌, refl, ◌≢◌, ◌⊎◌, inl, inr, Bool, true, false, Option, none, some, List, [], ◌∷◌, arith,
  ◌==◌, if◌then◌else◌, all, map, Bool-cases, ne→==, ap, subst, sym, ◌↔◌, In,
}
use fbapy.Base.Exec.{Result, ok, err}
use fbapy.Identity.{
  User, UserDept, Role, truthy, get_current_user, user_check, dept_check, roles_check, ◌then_check◌,
}

abbrev DeptIsOpen : Option UserDept → Type 0
DeptIsOpen none = ⊥
DeptIsOpen (some dept) = (dept.status ≢ 0) × (dept.del_flag ≡ false)

abbrev HasOpenRole : List Role → Type 0
HasOpenRole roles = (roles ≡ []) ⊎ ((role : Role) × In role roles × (role.status ≢ 0))

-- The user is enabled, the department, if there is one, is enabled and not deleted, and of the roles,
-- if there are any, at least one is enabled.
pub record IsActive (user : User) : Type 0 where
  pub enabled : user.status ≢ 0
  pub dept_open : truthy user.dept_id ≡ true → DeptIsOpen user.dept
  pub role_open : HasOpenRole user.roles

open_role :
    (roles : List Role)
    → all (λ (status : ℕ). status == 0) (map (λ (x : Role). x.status) roles) ≡ false
    → (role : Role) × In role roles × (role.status ≢ 0)
open_role [] h = cc
open_role (x ∷ roles) h = elim (Bool-cases (x.status == 0)) [
  | inl closed ↦
      let (role, found, open_) = open_role roles (ground arith) in (role, inr found, open_)
  | inr opened ↦ (x, inl refl, ground arith)
]

no_open_role :
    (roles : List Role) (role : Role)
    → In role roles
    → role.status ≢ 0
    → all (λ (status : ℕ). status == 0) (map (λ (x : Role). x.status) roles) ≡ false
no_open_role [] role h o = absurd h
no_open_role (x ∷ roles) role (inl e) o = ground arith
no_open_role (x ∷ roles) role (inr e) o = ground (arith, no_open_role roles role e o)

roles_check-open : (roles : List Role) → roles_check roles ≡ ok tt → HasOpenRole roles
unfolding roles_check
roles_check-open [] h = inl refl
roles_check-open (x ∷ roles) h = inr (open_role (x ∷ roles) (ground arith))

open-roles_check : (roles : List Role) → HasOpenRole roles → roles_check roles ≡ ok tt
unfolding roles_check
open-roles_check [] h = refl
open-roles_check (x ∷ roles) (inl h) = cc
open-roles_check (x ∷ roles) (inr (role, found, opened)) =
    rw (no_open_role (x ∷ roles) role found opened)

dept_check-open : (dept : Option UserDept) → dept_check dept ≡ ok tt → DeptIsOpen dept
unfolding dept_check
dept_check-open none h = cc
dept_check-open (some dept) h = ground arith

open-dept_check : (dept : Option UserDept) → DeptIsOpen dept → dept_check dept ≡ ok tt
unfolding dept_check
open-dept_check none h = absurd h
open-dept_check (some dept) h = ground arith

chain-ok :
    (x y : Result (Unit {0})) (user u : User)
    → (x then_check y then_check ok user) ≡ ok u
    → (x ≡ ok tt) × (y ≡ ok tt) × (user ≡ u)
chain-ok (ok x) (ok y) user u h = (refl, refl, cc)
chain-ok (ok x) (err e) user u h = cc
chain-ok (err e) y user u h = cc

if-ok : (b : Bool) (x : Result (Unit {0})) → (if b then x else ok tt) ≡ ok tt → b ≡ true → x ≡ ok tt
if-ok true x h e = h
if-ok false x h e = cc

ok-if :
    (b : Bool) (x : Result (Unit {0})) → (b ≡ true → x ≡ ok tt) → (if b then x else ok tt) ≡ ok tt
ok-if true x h = h refl
ok-if false x h = refl

user_check-IsActive : (user u : User) → user_check user ≡ ok u → (user ≡ u) × IsActive user
unfolding user_check
user_check-IsActive user u h = elim (Bool-cases (user.status == 0)) [
  | inl closed ↦ cc (rw closed at h)
  | inr opened ↦
      let (dept, roles, same) = chain-ok _ _ user u (rw opened at h) in
      (
        same,
        record {
          enabled = ground arith;
          dept_open = λ e.
              dept_check-open user.dept (if-ok (truthy user.dept_id) (dept_check user.dept) dept e);
          role_open = roles_check-open user.roles roles;
        },
      )
]

active-user_check : (user : User) → IsActive user → user_check user ≡ ok user
unfolding user_check
active-user_check user a =
    let opened : (user.status == 0) ≡ false = ne→== user.status 0 a.enabled in
    let dept =
      ok-if (truthy user.dept_id) (dept_check user.dept)
        (λ e. open-dept_check user.dept (a.dept_open e)) in
    rw (opened, dept, open-roles_check user.roles a.role_open)

-- `get_current_user` returns a user exactly if it is the row that was found and it is active.
pub get_current_user_lem :
    (row : Option User) (u : User) → (get_current_user row ≡ ok u) ↔ ((row ≡ some u) × IsActive u)
unfolding get_current_user
get_current_user_lem none u = (λ h. cc, λ h. cc (h.0))
get_current_user_lem (some user) u = (
  λ h. let (e, a) = user_check-IsActive user u h in (ap some e, subst IsActive e a),
  λ h.
      let e : user ≡ u = cc (h.0) in
      subst (λ x. user_check x ≡ ok u) (sym e) (active-user_check u h.1),
)
