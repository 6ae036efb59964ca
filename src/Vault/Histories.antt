-- ===== src/Vault/Histories.antt =====
-- CredentialVault of agent/vault.py over a keyring, under any sequence of calls.
use zerra.Prelude.{
  refl, ◌≡◌, ap, ◌∙◌, String, Bool, true, false, ◌&&◌, ◌||◌, str_eq, Option, some, List, [], ◌∷◌,
  sym, subst, if◌then◌else◌, if-true, str_mem, str_eq_iff, truthy, ◌+++◌,
}
use zerra.Prelude.Results.{Error, Result, err, ok}
use zerra.Prelude.Effects.{continue-ok}
use zerra.Vault.{Library, Vault, service_name, index_load, index_remove}
use zerra.Vault.Facade.{
  set, get, delete, list_keys, normalized, token_key, get_github_token, set_github_token,
}
use zerra.Vault.Keys.{IsLibrary, hides, index-remove}
use zerra.Vault.Credentials.{get-read, get-set, delete-refused}

-- The calls that change the vault.
pub data Call : Type 0 where
  store : String → String → Call
  discard : String → Call

module _ {K : Type 0} (lib : Library K) where
  pub call : Call → Vault K → Vault K
  call (store key value) s = (set lib key value s).1
  call (discard key) s = (delete lib key s).1

  pub calls : List Call → Vault K → Vault K
  calls [] s = s
  calls (c ∷ rest) s = calls rest (call c s)

  module _ (laws : IsLibrary lib) where
    -- A call hides a key's credential: the keyring refuses to remove it, and the vault drops the
    -- key from its index.
    abbrev pub hides_in : String → Call → Vault K → Bool
    hides_in key (store k value) s = false
    hides_in key (discard k) s = str_eq k key && hides lib laws k s

    abbrev pub hides_ever : String → List Call → Vault K → Bool
    hides_ever key [] s = false
    hides_ever key (c ∷ rest) s = hides_in key c s || hides_ever key rest (call c s)

    -- A removal that the keyring refuses with its delete error raises nothing: the credential is
    -- still there, and the vault lists its key no more.
    pub delete-has :
        (key value : String) (s : Vault K) (e : Error)
        → s.use_keyring ≡ true
        → lib.delete_password s.keyring service_name key ≡ err e
        → lib.is_delete_error e ≡ true
        → (get lib key s).0 ≡ ok (some value)
        → let s' = (delete lib key s).1 in
          (keys : List String) × ((delete lib key s).0 ≡ ok tt)
          × ((get lib key s').0 ≡ ok (some value))
          × ((list_keys lib s').0 ≡ ok keys)
          × (str_mem key keys ≡ false)
    unfolding index_remove list_keys
    delete-has key value s e kept refused missing present =
        let t = (index_remove lib key s).1 in
        subst Hidden
          (sym
            (delete-refused lib key s e kept refused ∙ if-true (lib.is_delete_error e) _ _ missing))
          (
            index_load lib t,
            refl,
            get-read lib laws s kept t key kept
                ∙ sym (get-read lib laws s kept s key kept)
                ∙ present,
            ap (λ (r : Result (List String) × Vault K). r.0) (if-true s.use_keyring _ _ kept),
            index-remove lib laws key key s ∙ if-true _ _ _ ((str_eq_iff key key).1 refl),
          )
      where
        Hidden : Result (Unit {0}) × Vault K → Type 0
        Hidden r =
            (keys : List String) × (r.0 ≡ ok tt)
            × ((get lib key r.1).0 ≡ ok (some value))
            × ((list_keys lib r.1).0 ≡ ok keys)
            × (str_mem key keys ≡ false)

    -- A token that was stored for a repository, and is not empty, is found again under every
    -- spelling of the repository's URL that comes to the same key, whatever the environment has.
    pub get_github_token-set_github_token :
        (stored_url asked_url token : String) (s : Vault K)
        → s.use_keyring ≡ true
        → normalized lib stored_url ≡ normalized lib asked_url
        → truthy (some token) ≡ true
        → (set_github_token lib stored_url token s).0 ≡ ok tt
        → (get_github_token lib asked_url (set_github_token lib stored_url token s).1).0
          ≡ ok (some token)
    unfolding set_github_token get_github_token
    get_github_token-set_github_token stored_url asked_url token s kept same full returns =
        continue-ok (λ (found : Option String). if truthy found then found else lib.github_token)
          (get lib (token_key lib asked_url) (set lib (token_key lib stored_url) token s).1)
          (get-set lib laws s kept (token_key lib stored_url) token (token_key lib asked_url)
              returns
            ∙ if-true _ _ _ ((str_eq_iff _ _).1 (ap (λ (n : String). "github-token:" +++ n) same)))
        ∙ ap (λ (t : Option String). ok t) (if-true _ _ _ full)
