-- ===== src/Vault/Credentials.antt =====
-- CredentialVault of agent/vault.py over a keyring: what a credential reads as after each
-- operation.
use zerra.Prelude.{
  ◌≡◌, refl, ap, ◌∙◌, sym, subst, String, true, false, ◌&&◌, Option, none, some, if◌then◌else◌,
  if-true, str_eq, str_eq_iff, Bool-cases, inl, inr,
}
use zerra.Prelude.Results.{Error, Result, err, ok, Result-cases}
use zerra.Prelude.Effects.{continue}
use zerra.Vault.{
  Library, Vault, service_name, keyring_set, keyring_get, keyring_delete, index_add, index_remove,
}
use zerra.Vault.Facade.{stored, removed, set, get, delete}
use zerra.Vault.Keys.{
  IsLibrary, Listed-add, Listed-remove, IsListed, hides, hides_lem, read, index-add, index-remove,
}

module _ {K : Type 0} (lib : Library K) where
  set-keyring :
      (key value : String) (s : Vault K)
      → s.use_keyring ≡ true
      → set lib key value s ≡ continue (λ done. index_add lib key) (keyring_set lib key value s)
  unfolding set stored
  set-keyring key value s kept =
      ap (continue (λ (done : Unit {0}). index_add lib key)) (if-true s.use_keyring _ _ kept)

  delete-keyring :
      (key : String) (s : Vault K)
      → s.use_keyring ≡ true
      → delete lib key s ≡ continue (λ done. index_remove lib key) (keyring_delete lib key s)
  unfolding delete removed
  delete-keyring key s kept =
      ap (continue (λ (done : Unit {0}). index_remove lib key)) (if-true s.use_keyring _ _ kept)

  pub set-refused :
      (key value : String) (s : Vault K) (e : Error)
      → s.use_keyring ≡ true
      → lib.set_password s.keyring service_name key value ≡ err e
      → set lib key value s ≡ (err e, s)
  unfolding keyring_set
  set-refused key value s e kept refused = set-keyring key value s kept ∙ rw refused refl

  pub set-kept :
      (key value : String) (s : Vault K) (keyring : K)
      → s.use_keyring ≡ true
      → lib.set_password s.keyring service_name key value ≡ ok keyring
      → set lib key value s ≡ index_add lib key (record s { keyring = keyring })
  unfolding keyring_set
  set-kept key value s keyring kept same = set-keyring key value s kept ∙ rw same refl

  pub delete-refused :
      (key : String) (s : Vault K) (e : Error)
      → s.use_keyring ≡ true
      → lib.delete_password s.keyring service_name key ≡ err e
      → delete lib key s ≡ (if lib.is_delete_error e then index_remove lib key s else (err e, s))
  unfolding keyring_delete
  delete-refused key s e kept refused =
      delete-keyring key s kept
      ∙ rw refused (elim (Bool-cases (lib.is_delete_error e)) [
        | inl missing ↦ rw missing refl
        | inr other ↦ rw other refl
      ])

  pub delete-kept :
      (key : String) (s : Vault K) (keyring : K)
      → s.use_keyring ≡ true
      → lib.delete_password s.keyring service_name key ≡ ok keyring
      → delete lib key s ≡ index_remove lib key (record s { keyring = keyring })
  unfolding keyring_delete
  delete-kept key s keyring kept same = delete-keyring key s kept ∙ rw same refl

module _ {K : Type 0} (lib : Library K) (laws : IsLibrary lib) (s : Vault K)
    (kept : s.use_keyring ≡ true) where
  pub get-read :
      (t : Vault K) (key : String) → t.use_keyring ≡ true → (get lib key t).0 ≡ read lib laws t key
  unfolding get keyring_get
  get-read t key uses =
      ap (λ (r : Result (Option String) × Vault K). r.0) (if-true t.use_keyring _ _ uses)

  -- The value that a key reads as once a write has returned.
  written :
      (key value other : String) (keyring : K)
      → lib.set_password s.keyring service_name key value ≡ ok keyring
      → (get lib other (index_add lib key (record s { keyring = keyring })).1).0
        ≡ (if str_eq key other then ok (some value) else (get lib other s).0)
  unfolding index_add
  written key value other keyring same =
      get-read (index_add lib key (record s { keyring = keyring })).1 other kept
      ∙ laws.get-set s.keyring keyring service_name key value other same
      ∙ ap (λ (r : Result (Option String)). if str_eq key other then ok (some value) else r)
          (sym (get-read s other kept))

  -- After a write that returns, the credential reads as the new value, and every other one as
  -- before.
  pub get-set :
      (key value other : String)
      → (set lib key value s).0 ≡ ok tt
      → (get lib other (set lib key value s).1).0
        ≡ (if str_eq key other then ok (some value) else (get lib other s).0)
  get-set key value other returns =
      elim (Result-cases (lib.set_password s.keyring service_name key value)) [
        | inl (e, refused) ↦ cc (set-refused lib key value s e kept refused)
        | inr (keyring, same) ↦
            subst
              (λ (r : Result (Unit {0}) × Vault K).
                (get lib other r.1).0
                ≡ (if str_eq key other then ok (some value) else (get lib other s).0))
              (sym (set-kept lib key value s keyring kept same))
              (written key value other keyring same)
      ]

  -- A write and a removal, whatever they come to, keep the index in step with the keyring.
  pub set-IsListed :
      (key value other : String)
      → IsListed lib laws s other
      → IsListed lib laws (set lib key value s).1 other
  unfolding index_add
  set-IsListed key value other listed =
      elim (Result-cases (lib.set_password s.keyring service_name key value)) [
        | inl (e, refused) ↦ rw (set-refused lib key value s e kept refused) listed
        | inr (keyring, same) ↦
            subst (λ (r : Result (Unit {0}) × Vault K). IsListed lib laws r.1 other)
              (sym (set-kept lib key value s keyring kept same))
              (Listed-add (str_eq key other) value
                (laws.get-set s.keyring keyring service_name key value other same)
                (index-add lib laws key other (record s { keyring = keyring })) listed)
      ]

  removed_missing :
      (key other : String) (e : Error)
      → lib.delete_password s.keyring service_name key ≡ err e
      → lib.is_delete_error e ≡ true
      → (str_eq key other && hides lib laws key s) ≡ false
      → IsListed lib laws s other
      → read lib laws s other ≡ (if str_eq key other then ok none else read lib laws s other)
  removed_missing key other e refused missing removes listed =
      elim (Bool-cases (str_eq key other)) [
        | inl same ↦ elim listed [
          | inl (absent, unlisted) ↦ rw same absent
          | inr (value, present, stays) ↦
              let present' = rw (← (str_eq_iff key other).0 same) at present in
              let hidden = hides_lem lib laws key s e refused missing present' in
              let none_left : (true && true) ≡ false = rw (same, hidden) at removes in cc
        ]
        | inr differ ↦ rw differ refl
      ]

  pub delete-IsListed :
      (key other : String)
      → (str_eq key other && hides lib laws key s) ≡ false
      → IsListed lib laws s other
      → IsListed lib laws (delete lib key s).1 other
  unfolding index_remove
  delete-IsListed key other removes listed =
      elim (Result-cases (lib.delete_password s.keyring service_name key)) [
        | inl (e, refused) ↦
            rw (delete-refused lib key s e kept refused)
              (elim (Bool-cases (lib.is_delete_error e)) [
                | inl missing ↦ rw missing (
                    Listed-remove (str_eq key other)
                      (removed_missing key other e refused missing removes listed)
                      (index-remove lib laws key other s) listed)
                | inr raised ↦ rw raised listed
              ])
        | inr (keyring, same) ↦
            subst (λ (r : Result (Unit {0}) × Vault K). IsListed lib laws r.1 other)
              (sym (delete-kept lib key s keyring kept same))
              (Listed-remove (str_eq key other)
                (laws.get-delete s.keyring keyring service_name key other same)
                (index-remove lib laws key other (record s { keyring = keyring })) listed)
      ]
