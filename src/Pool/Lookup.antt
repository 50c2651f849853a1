-- ===== src/Pool/Lookup.antt =====
-- What `get_connection` finds after the other calls.
use fbapy.Base.{
  ℕ, ◌≡◌, refl, Bool, true, false, Option, none, some, List, [], ◌∷◌, ◌++◌, leb, if◌then◌else◌,
  length, arith, Bool-cases, inl, inr,
}
use fbapy.Base.Text.{Text, text_eq, text_eq_iff}
use fbapy.Base.Exec.{ok}
use fbapy.Pool.{
  Connection, Pool, added, already_exists, capacity_exceeded, contains, without, find,
  add_connection, remove_connection, get_connection,
}

find-append :
    (cs : List Connection) (c : Connection) (uid : Text)
    → contains cs c.uid ≡ false
    → find uid (cs ++ c ∷ []) ≡ (if text_eq c.uid uid then some c else find uid cs)
find-append [] c uid h = refl
find-append (d ∷ cs) c uid h = ground (
  arith,
  find-append cs c uid,
  text_eq_iff d.uid uid,
  text_eq_iff c.uid uid,
  text_eq_iff d.uid c.uid,
)

find-without :
    (cs : List Connection) (u uid : Text)
    → find uid (without u cs) ≡ (if text_eq u uid then none else find uid cs)
find-without [] u uid = ground arith
find-without (d ∷ cs) u uid =
    ground
      (arith, find-without cs u uid, text_eq_iff d.uid u, text_eq_iff d.uid uid, text_eq_iff u uid)

if_ok : (b : Bool) (m n : Option Connection) → ok (if b then m else n) ≡ (if b then ok m else ok n)
if_ok true m n = refl
if_ok false m n = refl

known_not : already_exists ≡ added → ⊥
known_not h = cc

full_not : capacity_exceeded ≡ added → ⊥
full_not h = cc

-- A connection that is added is the one that its user is given from then on; every other user is
-- given what they were given before.
pub get_connection-add_connection :
    (c : Connection) (p : Pool) (x : ℕ) (uid : Text)
    → (add_connection c p).0 ≡ added
    → get_connection (x ∷ uid) (add_connection c p).1
      ≡ (if text_eq c.uid (x ∷ uid) then ok (some c) else get_connection (x ∷ uid) p)
unfolding add_connection get_connection
get_connection-add_connection c p x uid h = elim (Bool-cases (contains p.connection_map c.uid)) [
  | inl known ↦ absurd (known_not (rw known at h))
  | inr fresh ↦ elim (Bool-cases (leb p.capacity (length p.connection_map))) [
    | inl full ↦ absurd (full_not (rw (fresh, full) at h))
    | inr free ↦
        rw (fresh, free, find-append p.connection_map c (x ∷ uid) fresh)
          (if_ok (text_eq c.uid (x ∷ uid)) (some c) (find (x ∷ uid) p.connection_map))
  ]
]

-- A removal gives back the connection that the user had, after which the user has none and every
-- other user has what they had.
pub get_connection-remove_connection :
    (p : Pool) (y : ℕ) (u : Text) (x : ℕ) (uid : Text)
    → let (result, p') = remove_connection (y ∷ u) p in
      (result ≡ get_connection (y ∷ u) p)
      × (get_connection (x ∷ uid) p'
          ≡ (if text_eq (y ∷ u) (x ∷ uid) then ok none else get_connection (x ∷ uid) p))
unfolding remove_connection get_connection
get_connection-remove_connection p y u x uid = (
  refl,
  rw (find-without p.connection_map (y ∷ u) (x ∷ uid))
      (if_ok (text_eq (y ∷ u) (x ∷ uid)) none (find (x ∷ uid) p.connection_map)),
)
