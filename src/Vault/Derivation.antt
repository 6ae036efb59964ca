-- ===== src/Vault/Derivation.antt =====
-- The encrypted file of agent/vault.py, under the memory limit of the key derivation.
use zerra.Prelude.{
  ℕ, ◌*◌, ◌<◌, ◌≡◌, refl, String, false, Option, none, some, List, [], map, arith, ap, ◌∙◌,
  if-false,
}
use zerra.Prelude.Dict.{Dict, lookup, insert, erase}
use zerra.Prelude.Results.{Error, Result, err, ok, is_ok}
use zerra.Prelude.Effects.{
  Action, return, ◌>>=◌, continue, continue-ok, handle, Yields, Yields->>=, Yields-chain,
}
use zerra.Vault.{
  Library, Vault, Bytes, from_result, derive_key, get_salt, get_master_secret, current_key,
  decrypted, load_from, file_load, file_save, file_set, file_get, file_delete, file_list_keys,
}
use zerra.Vault.Facade.{stored, removed, set, get, delete, list_keys}

-- OpenSSL's limit, 32 MiB, which holds where `maxmem` is not given: a derivation that needs more
-- memory raises.
abbrev pub IsLimited : {K : Type 0} → Library K → Type 0
IsLimited lib =
    (master salt : Bytes) (n r p dklen : ℕ)
    → 33554432 < 128 * n * r
    → is_ok (lib.scrypt master salt n r p dklen) ≡ false

no_result :
    {S V : Type 0} {action : Action S V} (s : S)
    → Yields (λ (v : V). ⊥) action
    → is_ok (action s).0 ≡ false
no_result {V = V} {action = action} s y = unanswered (action s).0 (y.yielded s)
  where
    unanswered : (r : Result V) → ((v : V) → r ≡ ok v → ⊥) → is_ok r ≡ false
    unanswered (err e) h = refl
    unanswered (ok v) h = absurd (h v refl)

handle-empty :
    {S V : Type 0} (r : Result (Dict V) × S)
    → ((v : Dict V) → r.0 ≡ ok v → ⊥)
    → (handle (λ (e : Error). return []) r).0 ≡ ok []
handle-empty (err e, s) h = refl
handle-empty (ok v, s) h = absurd (h v refl)

module _ {K : Type 0} (lib : Library K) (limited : IsLimited lib) where
  derive_key-Yields :
      (master salt : Bytes)
      → Yields {S = Vault K} (λ (key : Bytes). ⊥) (from_result (derive_key lib master salt))
  unfolding derive_key
  derive_key-Yields master salt = record {
    yielded = λ s key same. let refused = limited master salt 131072 8 1 32 (omega arith) in cc;
  }

  current_key-Yields : Yields (λ (key : Bytes). ⊥) (current_key lib)
  unfolding current_key
  current_key-Yields =
      Yields->>= {Q = λ key. ⊥} (get_master_secret lib)
        (λ master. Yields->>= {Q = λ key. ⊥} (get_salt lib) (λ salt. derive_key-Yields master salt))

  -- What needs a key does not return.
  keyed-Yields :
      {V : Type 0} (next : Bytes → Action (Vault K) V)
      → Yields (λ (v : V). ⊥) (current_key lib >>= next)
  keyed-Yields next =
      Yields-chain {R = λ key. ⊥} {Q = λ v. ⊥} current_key-Yields (λ key never. absurd never)

  file_save-Yields : (d : Dict String) → Yields (λ (done : Unit {0}). ⊥) (file_save lib d)
  unfolding file_save
  file_save-Yields d = keyed-Yields _

  decrypted-Yields : (text : String) → Yields (λ (d : Dict String). ⊥) (decrypted lib text)
  unfolding decrypted
  decrypted-Yields text =
      Yields->>= {Q = λ d. ⊥} (from_result (lib.b64decode text)) (λ raw. keyed-Yields _)

  load_from-empty : (file : Option String) (s : Vault K) → (load_from lib file s).0 ≡ ok []
  unfolding load_from
  load_from-empty none s = refl
  load_from-empty (some text) s =
      handle-empty (decrypted lib text s) ((decrypted-Yields text).yielded s)

  file_load-empty : (s : Vault K) → (file_load lib s).0 ≡ ok []
  unfolding file_load
  file_load-empty s = load_from-empty s.vault_file s

  stored-Yields :
      (key value : String) (s : Vault K)
      → s.use_keyring ≡ false
      → is_ok (stored lib key value s).0 ≡ false
  unfolding stored file_set
  stored-Yields key value s file =
      ap (λ (r : Result (Unit {0}) × Vault K). is_ok r.0) (if-false s.use_keyring _ _ file)
      ∙ no_result s (
          Yields->>= {Q = λ done. ⊥} (file_load lib)
            (λ credentials. file_save-Yields (insert key value credentials)))

  removed-Yields :
      (key : String) (s : Vault K) → s.use_keyring ≡ false → is_ok (removed lib key s).0 ≡ false
  unfolding removed file_delete
  removed-Yields key s file =
      ap (λ (r : Result (Unit {0}) × Vault K). is_ok r.0) (if-false s.use_keyring _ _ file)
      ∙ no_result s (
          Yields->>= {Q = λ done. ⊥} (file_load lib)
            (λ credentials. file_save-Yields (erase key credentials)))

  continue-refused :
      {V W : Type 0} (next : V → Action (Vault K) W) (r : Result V × Vault K)
      → is_ok r.0 ≡ false
      → is_ok (continue next r).0 ≡ false
  continue-refused next (err e, s) refused = refl
  continue-refused next (ok v, s) refused = cc

  -- Without a keyring the vault stores nothing: a credential cannot be stored and none can be
  -- deleted, as both raise, and from whatever file there is every reading and every listing comes
  -- to nothing. The key derivation's parameters need four times the memory that it is allowed.
  pub file_vault_fails :
      (key value : String) (s : Vault K)
      → s.use_keyring ≡ false
      → (is_ok (set lib key value s).0 ≡ false)
        × (is_ok (delete lib key s).0 ≡ false)
        × ((get lib key s).0 ≡ ok none)
        × ((list_keys lib s).0 ≡ ok [])
  unfolding set delete get list_keys file_get file_list_keys
  file_vault_fails key value s file = (
    continue-refused _ (stored lib key value s) (stored-Yields key value s file),
    continue-refused _ (removed lib key s) (removed-Yields key s file),
    ap (λ (r : Result (Option String) × Vault K). r.0) (if-false s.use_keyring _ _ file)
        ∙ (continue-ok (lookup key) (file_load lib s) (file_load-empty s)),
    ap (λ (r : Result (List String) × Vault K). r.0) (if-false s.use_keyring _ _ file)
        ∙ (continue-ok (map (λ (entry : String × String). entry.0)) (file_load lib s)
            (file_load-empty s)),
  )
