-- ===== src/MockData.antt =====
-- The protected records, agent/mock_data/store.py: what an allow decision opens.
pub mod Access
use Prim.Native.Nat.{◌%◌}
use zerra.Prelude.{
  ℕ, ◌*◌, String, not, ◌||◌, Option, none, some, List, [], ◌∷◌, ◌++◌, map, ltb, ◌==◌, if◌then◌else◌,
  filter, ◌+++◌, show, str_eq,
}
use zerra.Prelude.Dict.{Dict, lookup, values}
use zerra.Prelude.Results.{Result, ok, err, key_error, access_denied, ◌>>◌}
use zerra.Platform.{Platform, of_ℕ}
use zerra.Contracts.{is_allow, DecisionResponse}

pub record Tenant : Type 0 where
  pub id : String
  pub name : String

pub record Invoice (F : Type 0) : Type 0 where
  pub id : String
  pub tenant_id : String
  pub customer_name : String
  pub amount : F
  pub status : String
  pub ssn : String
  pub salary : F
  pub internal_notes : String

pub record ObjectMetadata : Type 0 where
  pub object_id : String
  pub object_type : String
  pub tenant_id : String
  pub sensitive_fields : List String

pub record MockDataStore (F : Type 0) : Type 0 where
  pub tenants : List Tenant
  pub invoices : Dict (Invoice F)

-- `f"{n:03d}"` and `f"{n:04d}"`, for a number of at most three digits.
abbrev pub pad3 : ℕ → String
pad3 n = (if ltb n 10 then "00" else if ltb n 100 then "0" else "") +++ show n

abbrev pad4 : ℕ → String
pad4 n = "0" +++ pad3 n

module _ (p : Platform) where
  open p use {Float, lit, add, mul}

  -- The `number`-th invoice of a tenant, by the tenant's suffix in lower and in upper case.
  invoice : String → String → String → ℕ → Invoice Float
  invoice suffix big_suffix tenant number = record {
    id = "inv-" +++ suffix +++ "-" +++ pad3 number;
    tenant_id = tenant;
    customer_name = "Customer " +++ big_suffix +++ show number;
    amount = add (lit 100_000) (mul (of_ℕ p number) (lit 13_725));
    status = if number % 2 == 0 then "pending" else "paid";
    ssn = "123-45-" +++ pad4 number;
    salary = add (lit 5_000_000) (of_ℕ p (number * 1200));
    internal_notes = "Internal note for " +++ tenant +++ " invoice " +++ show number;
  }

  invoices_of : String → String → String → List (Invoice Float)
  unfolding invoice
  invoices_of suffix big_suffix tenant =
      map (invoice suffix big_suffix tenant) (1 ∷ 2 ∷ 3 ∷ 4 ∷ 5 ∷ 6 ∷ 7 ∷ 8 ∷ 9 ∷ 10 ∷ [])

  -- `_seed_invoices`.
  seed_invoices : List (Invoice Float)
  unfolding invoices_of
  seed_invoices =
      invoices_of "a" "A" "tenant-a"
      ++ (invoices_of "b" "B" "tenant-b" ++ invoices_of "c" "C" "tenant-c")

  unfoldable pub init_data : MockDataStore Float
  unfolding seed_invoices
  init_data = record {
    tenants =
        record { id = "tenant-a"; name = "Acme Finance" }
        ∷ record { id = "tenant-b"; name = "Beacon Retail" }
        ∷ record { id = "tenant-c"; name = "Cedar Health" }
        ∷ [];
    invoices = map (λ (i : Invoice Float). (i.id, i)) seed_invoices;
  }

module _ {F : Type 0} where
  require_allow : DecisionResponse F → Result (Unit {0})
  require_allow decision =
      if not (is_allow decision.verdict) || not decision.allowed
      then err (access_denied "Protected records require an allow decision")
      else ok tt

  get_invoice_metadata : MockDataStore F → String → Option ObjectMetadata
  get_invoice_metadata store invoice_id = elim (lookup invoice_id store.invoices) [
    | none ↦ none
    | some i ↦ some (record {
      object_id = i.id;
      object_type = "invoice";
      tenant_id = i.tenant_id;
      sensitive_fields = "ssn" ∷ "salary" ∷ "internal_notes" ∷ [];
    })
  ]

  unfoldable pub get_invoice : MockDataStore F → String → DecisionResponse F → Result (Invoice F)
  unfolding require_allow
  get_invoice store invoice_id decision = do
    require_allow decision
    elim (lookup invoice_id store.invoices) [ none ↦ err (key_error invoice_id) | some i ↦ ok i ]

  pub list_invoices_for_tenant :
      MockDataStore F → String → DecisionResponse F → Result (List (Invoice F))
  unfolding require_allow
  list_invoices_for_tenant store tenant_id decision = do
    require_allow decision
    ok (filter (λ (i : Invoice F). str_eq i.tenant_id tenant_id) (values store.invoices))
