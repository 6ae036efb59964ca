-- ===== src/Vault.antt =====
-- The credential vault, agent/vault.py. The keyring, the ciphers, the encodings and the source of
-- random bytes are parameters. A file is its text; writing a file succeeds, and the permissions
-- that are set on it are left out, as is the log.
pub mod Facade
pub mod Derivation
pub mod Keys
pub mod Credentials
pub mod Histories
use zerra.Prelude.{
  ℕ, ◌+◌, String, Bool, true, false, not, Option, none, some, List, [], ◌∷◌, ◌++◌, if◌then◌else◌,
  ◌+++◌, str_eq, str_mem, filter, is_some, truthy, take, drop, map,
}
use zerra.Prelude.Dict.{Dict, lookup, insert, erase}
use zerra.Prelude.Results.{Error, Result, err, ok}
use zerra.Prelude.Effects.{Action, return, raise, ◌>>=◌, ◌>>◌, attempt}

abbrev pub Bytes : Type 0
Bytes = List ℕ

abbrev pub service_name : String
service_name = "zerra-credential-vault"

-- The libraries that the vault calls, over the keyring's states `K`.
pub record Library (K : Type 0) : Type 0 where
  pub get_password : K → String → String → Result (Option String)
  pub set_password : K → String → String → String → Result K
  pub delete_password : K → String → String → Result K
  -- Whether an exception is `keyring.errors.PasswordDeleteError`.
  pub is_delete_error : Error → Bool
  -- `hashlib.scrypt(master, salt=..., n=..., r=..., p=..., dklen=...)`.
  pub scrypt : Bytes → Bytes → ℕ → ℕ → ℕ → ℕ → Result Bytes
  pub encrypt : Bytes → Bytes → Bytes → Result Bytes
  pub decrypt : Bytes → Bytes → Bytes → Result Bytes
  -- The decoder skips white space.
  pub b64encode : Bytes → String
  pub b64decode : String → Result Bytes
  -- JSON as bytes of UTF-8, for the credentials, and as text, for the index.
  pub dumps : Dict String → Bytes
  pub loads : Bytes → Result (Dict String)
  pub dumps_keys : List String → String
  pub loads_keys : String → Result (List String)
  -- The n-th draw of so many bytes.
  pub token_bytes : ℕ → ℕ → Bytes
  pub lower : String → String
  pub vault_key : Option String
  pub github_token : Option String

-- `_use_keyring`, the keyring, the files, and how many draws were made.
pub record Vault (K : Type 0) : Type 0 where
  pub use_keyring : Bool
  pub keyring : K
  pub vault_file : Option String
  pub salt_file : Option String
  pub secret_file : Option String
  pub index_file : Option String
  pub drawn : ℕ

abbrev from_result : {K V : Type 0} → Result V → Action (Vault K) V
from_result r s = (r, s)

module _ {K : Type 0} (lib : Library K) where
  unfoldable pub keyring_available : K → Bool
  keyring_available keyring = elim (lib.get_password keyring service_name "__probe__") [
    | err e ↦ false
    | ok found ↦ true
  ]

  abbrev keep : Result K → Action (Vault K) (Unit {0})
  keep (err e) s = (err e, s)
  keep (ok keyring) s = (ok tt, record s { keyring = keyring })

  unfoldable pub keyring_set : String → String → Action (Vault K) (Unit {0})
  keyring_set key value s = keep (lib.set_password s.keyring service_name key value) s

  unfoldable pub keyring_get : String → Action (Vault K) (Option String)
  keyring_get key s = (lib.get_password s.keyring service_name key, s)

  -- `except keyring.errors.PasswordDeleteError: pass`.
  unfoldable pub keyring_delete : String → Action (Vault K) (Unit {0})
  keyring_delete key =
      attempt (λ s. keep (lib.delete_password s.keyring service_name key) s)
        (λ (e : Error). if lib.is_delete_error e then return tt else raise e)

  unfoldable pub derive_key : Bytes → Bytes → Result Bytes
  derive_key master salt = lib.scrypt master salt 131072 8 1 32

  unfoldable pub token : ℕ → Action (Vault K) Bytes
  token size s = (ok (lib.token_bytes s.drawn size), record s { drawn = s.drawn + 1 })

  unfoldable pub salt_from : Option String → Action (Vault K) Bytes
  unfolding token
  salt_from (some text) = from_result (lib.b64decode text)
  salt_from none = do
    salt ← token 32
    λ s. (ok salt, record s { salt_file = some (lib.b64encode salt) })

  unfoldable pub get_salt : Action (Vault K) Bytes
  unfolding salt_from
  get_salt s = salt_from s.salt_file s

  unfoldable pub master_from : Option String → Action (Vault K) Bytes
  unfolding token
  master_from (some text) = from_result (lib.b64decode text)
  master_from none = do
    master ← token 32
    λ s. (ok master, record s { secret_file = some (lib.b64encode master) })

  -- An empty ZERRA_VAULT_KEY counts as none.
  unfoldable pub get_master_secret : Action (Vault K) Bytes
  unfolding master_from
  get_master_secret s = elim lib.vault_key [
    | none ↦ master_from s.secret_file s
    | some raw ↦ if truthy (some raw) then (lib.b64decode raw, s) else master_from s.secret_file s
  ]

  -- `_derive_key(_get_master_secret(), _get_salt())`.
  unfoldable pub current_key : Action (Vault K) Bytes
  unfolding get_salt get_master_secret derive_key
  current_key = do master ← get_master_secret; salt ← get_salt; from_result (derive_key master salt)

  unfoldable pub decrypted : String → Action (Vault K) (Dict String)
  unfolding current_key
  decrypted text = do
    raw ← from_result (lib.b64decode text)
    key ← current_key
    plaintext ← from_result (lib.decrypt key (take 12 raw) (drop 12 raw))
    from_result (lib.loads plaintext)

  unfoldable pub load_from : Option String → Action (Vault K) (Dict String)
  unfolding decrypted
  load_from none = return []
  load_from (some text) = attempt (decrypted text) (λ (e : Error). return [])

  unfoldable pub file_load : Action (Vault K) (Dict String)
  unfolding load_from
  file_load s = load_from s.vault_file s

  -- The handler logs, and raises again.
  unfoldable pub file_save : Dict String → Action (Vault K) (Unit {0})
  unfolding current_key token
  file_save credentials = do
    key ← current_key
    nonce ← token 12
    ciphertext ← from_result (lib.encrypt key nonce (lib.dumps credentials))
    λ s. (ok tt, record s { vault_file = some (lib.b64encode (nonce ++ ciphertext)) })

  unfoldable pub file_set : String → String → Action (Vault K) (Unit {0})
  unfolding file_load file_save
  file_set key value = do credentials ← file_load; file_save (insert key value credentials)

  unfoldable pub file_get : String → Action (Vault K) (Option String)
  unfolding file_load
  file_get key = do credentials ← file_load; return (lookup key credentials)

  unfoldable pub file_delete : String → Action (Vault K) (Unit {0})
  unfolding file_load file_save
  file_delete key = do credentials ← file_load; file_save (erase key credentials)

  unfoldable pub file_list_keys : Action (Vault K) (List String)
  unfolding file_load
  file_list_keys = do
    credentials ← file_load
    return (map (λ (entry : String × String). entry.0) credentials)

  -- `_index_load`: a file that cannot be read counts as an empty one.
  unfoldable pub index_from : Option String → List String
  index_from none = []
  index_from (some text) = elim (lib.loads_keys text) [ err e ↦ [] | ok keys ↦ keys ]

  abbrev pub index_load : Vault K → List String
  index_load s = index_from s.index_file

  unfoldable pub index_add : String → Action (Vault K) (Unit {0})
  index_add key s = (
    ok tt,
    record s {
      index_file =
          if str_mem key (index_load s)
          then s.index_file
          else some (lib.dumps_keys (index_load s ++ key ∷ []));
    },
  )

  unfoldable pub index_remove : String → Action (Vault K) (Unit {0})
  index_remove key s = (
    ok tt,
    record s {
      index_file =
          some (lib.dumps_keys (filter (λ (k : String). not (str_eq k key)) (index_load s)));
    },
  )
