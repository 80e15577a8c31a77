-- ===== src/Tokens/Issue.antt =====
-- What an issued token says when it is presented again, to the same service or to another one.
use adf.Prelude.{
  ◌≡◌, ◌≢◌, refl, sym, ap, ◌∙◌, String, false, ◌⊎◌, inl, inr, Option, none, some, Bool-cases, ◌==◌,
  arith, eq_iff,
}
use adf.Errors.{ok, err, token_error, reason_invalid_signature, reason_malformed}
use adf.Json.{Json, obj, str, get}
use adf.Env.{Env, payload, invalid_signature, invalid_token}
use adf.Config.{Config}
use adf.Models.{TokenClaims}
use adf.Models.Payload.{to_payload}
use adf.Models.Payload.RoundTrip.{from-to_payload}
use adf.Tokens.{encode, issue, decode}

-- the issuer that a payload names
abbrev pub issuer_of : Json → Option String
issuer_of (obj d) = elim (get "iss" d) [ none ↦ none | some v ↦ text_of v ]
  where
    text_of : Json → Option String
    text_of (str s) = some s
    text_of _ = none
issuer_of _ = none

-- What PyJWT documents of the text that it signs for a payload under a key, expiry left aside: the key
-- and the payload's issuer read it back, another key finds the signature invalid, and another issuer
-- is refused as an invalid token.
pub record IsSigned (env : Env) (v : Json) (key algorithm : String) : Type 0 where
  pub nonempty : env.jwt_encode v key algorithm ≢ ""
  pub reads :
      (issuer : String)
      → issuer_of v ≡ some issuer
      → env.jwt_decode (env.jwt_encode v key algorithm) key algorithm issuer false ≡ payload v
  pub forged :
      (other issuer : String)
      → other ≢ key
      → env.jwt_decode (env.jwt_encode v key algorithm) other algorithm issuer false
        ≡ invalid_signature
  pub foreign :
      (issuer : String)
      → issuer_of v ≢ some issuer
      → env.jwt_decode (env.jwt_encode v key algorithm) key algorithm issuer false ≡ invalid_token

issuer_of-to_payload : (claims : TokenClaims) → issuer_of (to_payload claims) ≡ some claims.iss
unfolding to_payload
issuer_of-to_payload claims = refl

differs : (s t : String) → (s == t) ≡ false → s ≢ t
differs s t h e = absurd (ground (arith, h, (eq_iff s t).1 e))

some-inj : {s t : String} → some s ≡ some t → s ≡ t
some-inj h = cc

-- Where PyJWT keeps to its documentation for the payload of these claims, the capability that is
-- issued for them under one configuration carries them, and its token, decoded under another with
-- the same algorithm and without regard to expiry, reads as the claims where the secret is the same
-- and the issuer is that of the claims; a different secret raises the error for an invalid signature,
-- and a different issuer alone that for a malformed token.
pub decode-issue :
    (env : Env) (c d : Config) (claims : TokenClaims)
    → d.jwt_algorithm ≡ c.jwt_algorithm
    → IsSigned env (to_payload claims) c.jwt_secret c.jwt_algorithm
    → let minted = issue env c claims in
      let decoded = decode env d minted.token false in
      (minted.claims ≡ claims)
      × ((d.jwt_secret ≡ c.jwt_secret) × (d.issuer ≡ claims.iss) × (decoded ≡ ok claims)
          ⊎ (d.jwt_secret ≢ c.jwt_secret) × (decoded ≡ err (token_error reason_invalid_signature))
          ⊎ (d.jwt_secret ≡ c.jwt_secret)
            × (d.issuer ≢ claims.iss)
            × (decoded ≡ err (token_error reason_malformed)))
unfolding decode encode issue
decode-issue env c d claims same signed =
    let token = env.jwt_encode (to_payload claims) c.jwt_secret c.jwt_algorithm in
    let named = issuer_of-to_payload claims in
    (
      refl,
      elim (Bool-cases (d.jwt_secret == c.jwt_secret)) [
        | inl k ↦
            let key = (eq_iff d.jwt_secret c.jwt_secret).0 k in
            elim (Bool-cases (d.issuer == claims.iss)) [
              | inl i ↦
                  let issuer = (eq_iff d.issuer claims.iss).0 i in
                  let read = signed.reads d.issuer (named ∙ ap some (sym issuer)) in
                  inl (
                    key,
                    issuer,
                    ground (
                      arith,
                      eq_iff token "",
                      signed.nonempty,
                      read,
                      key,
                      same,
                      from-to_payload env claims,
                    ),
                  )
              | inr i ↦
                  let other = differs d.issuer claims.iss i in
                  let refused =
                    signed.foreign d.issuer (λ e. other (sym (some-inj (sym named ∙ e)))) in
                  inr (
                    inr (
                      key,
                      other,
                      ground (arith, eq_iff token "", signed.nonempty, refused, key, same),
                    ))
            ]
        | inr k ↦
            let other = differs d.jwt_secret c.jwt_secret k in
            let refused = signed.forged d.jwt_secret d.issuer other in
            inr (inl (other, ground (arith, eq_iff token "", signed.nonempty, refused, same)))
      ],
    )
