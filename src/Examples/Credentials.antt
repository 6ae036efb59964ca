-- ===== src/Examples/Credentials.antt =====
-- The vault over a concrete library.
use Prim.Native.Char.{Char, code}
use zerra.Prelude.{
  ◌==◌, ap, ◌∙◌, subst, ◌*◌, ◌≡◌, refl, String, Bool, true, false, Option, none, some, List, [],
  ◌∷◌, ltb, lt→ltb, if◌then◌else◌, str_eq, str_mem, without,
}
use zerra.Prelude.Results.{err, ok, is_ok, value_error, ok-injective}
use zerra.Vault
use zerra.Vault.{Library, Vault, Bytes}
use zerra.Vault.Facade.{set, get, delete, list_keys, set_github_token, normalized}
use zerra.Vault.Derivation.{IsLimited, file_vault_fails}
use zerra.Vault.Keys.{IsLibrary}
use zerra.Vault.Histories.{Call, store, discard, delete-has}

-- A list of keys as one text: each character after a "c", and an "e" after each key.
write_key : String → String → String
write_key String.[] rest = String.◌∷◌ "e" rest
write_key (String.◌∷◌ c s) rest = String.◌∷◌ "c" (String.◌∷◌ c (write_key s rest))

pub write_keys : List String → String
unfolding write_key
write_keys [] = ""
write_keys (key ∷ keys) = write_key key (write_keys keys)

push : Char → List String → List String
push c [] = []
push c (key ∷ keys) = String.◌∷◌ c key ∷ keys

pub read_keys : String → List String
unfolding push
read_keys String.[] = []
read_keys (String.◌∷◌ mark String.[]) = if code mark == b'e' then "" ∷ [] else []
read_keys (String.◌∷◌ mark (String.◌∷◌ c s)) =
    let after_key = read_keys (String.◌∷◌ c s) in
    let after_char = read_keys s in if code mark == b'e' then "" ∷ after_key else push c after_char

read_keys-end : (rest : String) → read_keys (String.◌∷◌ "e" rest) ≡ "" ∷ read_keys rest
unfolding read_keys
read_keys-end String.[] = refl
read_keys-end (String.◌∷◌ c s) = refl

read_keys-char :
    (c : Char) (rest : String)
    → read_keys (String.◌∷◌ "c" (String.◌∷◌ c rest)) ≡ push c (read_keys rest)
unfolding read_keys
read_keys-char c rest = refl

read_keys-write_key : (key rest : String) → read_keys (write_key key rest) ≡ key ∷ read_keys rest
unfolding write_key push
read_keys-write_key String.[] rest = read_keys-end rest
read_keys-write_key (String.◌∷◌ c s) rest =
    read_keys-char c (write_key s rest) ∙ ap (push c) (read_keys-write_key s rest)

read_keys-write_keys : (keys : List String) → read_keys (write_keys keys) ≡ keys
unfolding write_keys
read_keys-write_keys [] = unfold read_keys in refl
read_keys-write_keys (key ∷ keys) =
    read_keys-write_key key (write_keys keys)
    ∙ ap (λ (rest : List String). key ∷ rest) (read_keys-write_keys keys)

-- A keyring as a function from keys to passwords; the key derivation has OpenSSL's limit.
abbrev pub Passwords : Type 0
Passwords = String → Option String

abbrev pub library : Library Passwords
library = record {
  get_password = λ k service key. ok (k key);
  set_password =
      λ k service key value. ok (λ other. if str_eq key other then some value else k other);
  delete_password = λ k service key. ok (λ other. if str_eq key other then none else k other);
  is_delete_error = λ e. true;
  scrypt = λ master salt n r p dklen.
      if ltb 33554432 (128 * n * r) then err (value_error "memory limit exceeded") else ok salt;
  encrypt = λ key nonce plaintext. ok plaintext;
  decrypt = λ key nonce ciphertext. ok ciphertext;
  b64encode = λ bytes. "";
  b64decode = λ text. ok [];
  dumps = λ entries. [];
  loads = λ bytes. ok [];
  dumps_keys = write_keys;
  loads_keys = λ text. ok (read_keys text);
  token_bytes = λ draw size. [];
  lower = λ text. text;
  vault_key = none;
  github_token = none;
}

library-IsLimited : IsLimited library
library-IsLimited master salt n r p dklen big = rw (lt→ltb _ _ big) refl

answer :
    (test : Bool) (one other : Option String)
    → ok (if test then one else other) ≡ (if test then ok one else ok other)
answer true one other = refl
answer false one other = refl

library-IsLibrary : IsLibrary library
library-IsLibrary = record {
  get-set = λ k k' service key value other same.
      subst
        (λ (f : Passwords).
          ok (f other) ≡ (if str_eq key other then ok (some value) else ok (k other)))
        (ok-injective same) (answer (str_eq key other) (some value) (k other));
  get-delete = λ k k' service key other same.
      subst (λ (f : Passwords). ok (f other) ≡ (if str_eq key other then ok none else ok (k other)))
        (ok-injective same) (answer (str_eq key other) none (k other));
  loads-dumps = λ keys. ap (λ (read : List String). ok read) (read_keys-write_keys keys);
}

abbrev pub empty_vault : Vault Passwords
empty_vault = record {
  use_keyring = true;
  keyring = λ key. none;
  vault_file = none;
  salt_file = none;
  secret_file = none;
  index_file = none;
  drawn = 0;
}

file_vault_fails_example :
    (is_ok (set library "token" "abc" (record empty_vault { use_keyring = false })).0 ≡ false)
    × (is_ok (delete library "token" (record empty_vault { use_keyring = false })).0 ≡ false)
    × ((get library "token" (record empty_vault { use_keyring = false })).0 ≡ ok none)
    × ((list_keys library (record empty_vault { use_keyring = false })).0 ≡ ok [])
file_vault_fails_example =
    file_vault_fails library library-IsLimited "token" "abc"
      (record empty_vault { use_keyring = false }) refl

stored_token : (set library "token" "abc" empty_vault).0 ≡ ok tt
unfolding set Vault.keyring_set Vault.index_add
stored_token = refl

abbrev history : List Call
history = store "token" "abc" ∷ store "other" "def" ∷ discard "token" ∷ discard "missing" ∷ []

-- The keyring is locked: it removes nothing.
abbrev locked : Library Passwords
locked = record library { delete_password = λ k service key. err (value_error "locked") }

locked-IsLibrary : IsLibrary locked
locked-IsLibrary = record {
  get-set = library-IsLibrary.get-set;
  get-delete = λ k k' service key other removed. cc;
  loads-dumps = library-IsLibrary.loads-dumps;
}

abbrev kept_vault : Vault Passwords
kept_vault = record empty_vault { keyring = λ key. if str_eq key "token" then some "abc" else none }

delete-has_example :
    let s' = (delete locked "token" kept_vault).1 in
    (keys : List String) × ((delete locked "token" kept_vault).0 ≡ ok tt)
    × ((get locked "token" s').0 ≡ ok (some "abc"))
    × ((list_keys locked s').0 ≡ ok keys)
    × (str_mem "token" keys ≡ false)
unfolding get Vault.keyring_get
delete-has_example =
    delete-has locked locked-IsLibrary "token" "abc" kept_vault (value_error "locked") refl refl
      refl refl

same_repository :
    normalized library "https://github.com/a/b/" ≡ normalized library "http://github.com/a/b"
unfolding normalized without
same_repository = refl

stored_github_token :
    (set_github_token library "https://github.com/a/b/" "abc" empty_vault).0 ≡ ok tt
unfolding set_github_token set Vault.keyring_set Vault.index_add
stored_github_token = refl
