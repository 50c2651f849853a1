-- ===== src/Token/Decode.antt =====
-- `jwt_decode` of a token that this code has signed.
use fbapy.Base.{
  ℕ, zero, suc, ◌≤◌, ◌<◌, ◌≡◌, refl, some, ◌∷◌, arith, ltb, if◌then◌else◌, ge→ltb, sym, subst,
  Bool-cases, inl, inr,
}
use fbapy.Base.Text.{Text, str}
use fbapy.Base.Numerals.{int_of, int_of-str, str-cons}
use fbapy.Base.Exec.{ok, err, token_error}
use fbapy.Token.{Jose, Claims, jwt_decode, payload, read_decoded}
use fbapy.Token.Create.{signed}

payload-numeral :
    (u c e x : ℕ) (t xs : Text)
    → int_of (x ∷ xs) ≡ some u
    → payload (some (c ∷ t)) (some (x ∷ xs)) (some (suc e))
      ≡ ok (record { id = u; session_uuid = c ∷ t; expire_time = suc e })
unfolding payload
payload-numeral u c e x t xs h = rw (h, payload)

payload-str :
    (u c e : ℕ) (t : Text)
    → payload (some (c ∷ t)) (some (str u)) (some (suc e))
      ≡ ok (record { id = u; session_uuid = c ∷ t; expire_time = suc e })
payload-str u c e t =
    let (x, xs, cons) = str-cons u in
    let number = subst (λ n. int_of n ≡ some u) cons (int_of-str u) in
    subst
      (λ n.
        payload (some (c ∷ t)) (some n) (some (suc e))
        ≡ ok (record { id = u; session_uuid = c ∷ t; expire_time = suc e }))
      (sym cons) (payload-numeral u c e x t xs number)

-- Until the time that it names, a signed token decodes to the user and the session that it was
-- signed for; after that time it is refused as expired.
pub jwt_decode-signed :
    (j : Jose) (now e u c : ℕ) (t : Text)
    → jwt_decode j now (signed j (suc e) (c ∷ t) u) ≡ (
        if ltb (suc e) now
        then err (token_error "Token 已过期")
        else ok (record { id = u; session_uuid = c ∷ t; expire_time = suc e }))
unfolding jwt_decode read_decoded
jwt_decode-signed j now e u c t =
    let c' : Claims = record {
      session_uuid = some (c ∷ t);
      exp = some (suc e);
      sub = some (str u);
    } in
    rw (j.decode-encode now (suc e) c' refl, read_decoded)
      (elim (Bool-cases (ltb (suc e) now)) [
        | inl late ↦ rw late
        | inr fresh ↦ rw fresh (payload-str u c e t)
      ])

pub jwt_decode_fresh :
    (j : Jose) (now e u c : ℕ) (t : Text)
    → 0 < e
    → now ≤ e
    → jwt_decode j now (signed j e (c ∷ t) u)
      ≡ ok (record { id = u; session_uuid = c ∷ t; expire_time = e })
jwt_decode_fresh j now zero u c t p h = absurd (omega arith)
jwt_decode_fresh j now (suc e) u c t p h =
    rw (jwt_decode-signed j now e u c t, ge→ltb (suc e) now h)
