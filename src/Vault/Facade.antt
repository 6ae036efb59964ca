-- ===== src/Vault/Facade.antt =====
-- CredentialVault of agent/vault.py, over its two backends.
use zerra.Prelude.{
  String, Bool, Option, List, if◌then◌else◌, ◌+++◌, without, truthy, is_some, strip_slashes,
}
use zerra.Prelude.Results.{ok}
use zerra.Prelude.Effects.{Action, return, ◌>>=◌, ◌>>◌}
use zerra.Vault.{
  Library, Vault, keyring_available, keyring_set, keyring_get, keyring_delete, file_set, file_get,
  file_delete, file_list_keys, index_load, index_add, index_remove,
}

module _ {K : Type 0} (lib : Library K) where
  -- `CredentialVault()`.
  unfoldable pub open_vault : Vault K → Vault K
  open_vault s = record s { use_keyring = keyring_available lib s.keyring }

  unfoldable pub stored : String → String → Action (Vault K) (Unit {0})
  stored key value s =
      if s.use_keyring then keyring_set lib key value s else file_set lib key value s

  unfoldable pub set : String → String → Action (Vault K) (Unit {0})
  unfolding stored
  set key value = do stored key value; index_add lib key

  unfoldable pub get : String → Action (Vault K) (Option String)
  get key s = if s.use_keyring then keyring_get lib key s else file_get lib key s

  unfoldable pub removed : String → Action (Vault K) (Unit {0})
  removed key s = if s.use_keyring then keyring_delete lib key s else file_delete lib key s

  unfoldable pub delete : String → Action (Vault K) (Unit {0})
  unfolding removed
  delete key = do removed key; index_remove lib key

  unfoldable pub list_keys : Action (Vault K) (List String)
  list_keys s = if s.use_keyring then (ok (index_load lib s), s) else file_list_keys lib s

  unfoldable pub has : String → Action (Vault K) Bool
  unfolding get
  has key = do found ← get key; return (is_some found)

  unfoldable pub normalized : String → String
  unfolding strip_slashes
  normalized repo_url = without "http://" (without "https://" (lib.lower (strip_slashes repo_url)))

  abbrev pub token_key : String → String
  token_key repo_url = "github-token:" +++ normalized repo_url

  -- A token that is empty counts as none.
  unfoldable pub get_github_token : String → Action (Vault K) (Option String)
  unfolding get normalized
  get_github_token repo_url = do
    found ← get (token_key repo_url)
    return (if truthy found then found else lib.github_token)

  unfoldable pub set_github_token : String → String → Action (Vault K) (Unit {0})
  unfolding set normalized
  set_github_token repo_url token = set (token_key repo_url) token
