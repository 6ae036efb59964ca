-- ===== src/Identity/Access.antt =====
-- Revocation and authentication in agent/identity/registry.py.
use zerra.Prelude.{
  String, ◌≡◌, refl, ◌≢◌, true, false, none, some, arith, Option-cases, str_eq_iff, inl, inr,
}
use zerra.Prelude.Dict.{
  lookup, insert, lookup-insert, lookup-insert_self, lookup-insert_ne, insert-insert_back,
}
use zerra.Prelude.Results.{ok, err, key_error}
use zerra.Contracts.{Identity}
use zerra.Identity.{Registry, get, authenticate_token, revoke, restore}

module _ {F : Type 0} where
  -- `revoke` and `restore` of an unknown identity raise KeyError.
  revoke-unknown :
      (r : Registry F) (who : String)
      → get r who ≡ none
      → (revoke r who ≡ err (key_error who)) × (restore r who ≡ err (key_error who))
  unfolding get revoke restore
  revoke-unknown r who h = ground arith

  -- A revocation marks the identity, and leaves every other identity and the tokens alone.
  pub revoke_lem :
      (r : Registry F) (who : String) (identity : Identity F)
      → get r who ≡ some identity
      → (r' : Registry F) × (revoke r who ≡ ok (r', record identity { is_revoked = true }))
        × (get r' who ≡ some (record identity { is_revoked = true }))
        × ((other : String) → who ≢ other → get r' other ≡ get r other)
        × (r'.tokens ≡ r.tokens)
  unfolding get revoke
  revoke_lem r who identity h =
      let updated : Identity F = record identity { is_revoked = true } in
      (
        record r { identities = insert who updated r.identities },
        ground arith,
        lookup-insert_self who updated r.identities,
        λ other ne. lookup-insert_ne who other updated r.identities ne,
        refl,
      )

  -- After a revocation no token authenticates as the revoked identity, and a token of another
  -- identity gives what it gave before.
  pub authenticate-revoke :
      (r : Registry F) (who : String) {r' : Registry F} {revoked : Identity F} (token : String)
      → revoke r who ≡ ok (r', revoked)
      → (lookup token r.tokens ≡ some who → authenticate_token r' token ≡ none)
        × (lookup token r.tokens ≢ some who
            → authenticate_token r' token ≡ authenticate_token r token)
  unfolding authenticate_token revoke get
  authenticate-revoke r who {r'} {revoked} token h = elim (Option-cases (lookup token r.tokens)) [
    | inl missing ↦ ground arith
    | inr (owner, found) ↦ ground (
      arith,
      lookup-insert who owner (record revoked { is_revoked = true }) r.identities,
      str_eq_iff who owner,
    )
  ]

  -- A restoration undoes a revocation: the registry is the one before, if the identity was not
  -- revoked there.
  pub restore-revoke :
      (r : Registry F) (who : String) {r' : Registry F} {identity revoked : Identity F}
      → get r who ≡ some identity
      → identity.is_revoked ≡ false
      → revoke r who ≡ ok (r', revoked)
      → restore r' who ≡ ok (r, identity)
  unfolding get revoke restore
  restore-revoke r who {r'} {identity} {revoked} known live h = ground (
    arith,
    lookup-insert_self who (record identity { is_revoked = true }) r.identities,
    insert-insert_back who identity (record identity { is_revoked = true }) r.identities,
  )
