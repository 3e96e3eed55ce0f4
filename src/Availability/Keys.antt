-- ===== src/Availability/Keys.antt =====
-- The key of a candidate in src/availability.ts, from the catalog of src/catalog.ts.
use herdr_tools.Base.{
  ◌&&◌, String, ◌==◌, List, [], ◌∷◌, Option, none, some, leb, get_or, if◌then◌else◌, byte_length,
  is_identifier,
}
use herdr_tools.Routing.Chains.{Quota}

-- `QuotaOverride`, `ModelEntry` and `RunnerEntry` of src/catalog.ts, in what the key reads.
pub record QuotaOverride : Type 0 where
  pub billing_product : Option String
  pub account : Option String

pub record ModelEntry : Type 0 where
  pub model : String
  pub provider : Option String
  pub quota : Option QuotaOverride

pub record RunnerEntry : Type 0 where
  pub models : List ModelEntry
  pub quota : Quota

unfoldable pub entry_for : String → List ModelEntry → Option ModelEntry
entry_for model [] = none
entry_for model (e ∷ es) = if e.model == model then some e else entry_for model es

abbrev product_of : Option QuotaOverride → Option String
product_of none = none
product_of (some o) = o.billing_product

abbrev account_of : Option QuotaOverride → Option String
account_of none = none
account_of (some o) = o.account

-- `modelQuotaKey`.
unfoldable pub model_quota_key : Option ModelEntry → RunnerEntry → Quota
model_quota_key none r = r.quota
model_quota_key (some e) r = record {
  provider = get_or e.provider r.quota.provider;
  billing_product = get_or (product_of e.quota) r.quota.billing_product;
  account = get_or (account_of e.quota) r.quota.account;
  scope = r.quota.scope;
}

-- `quotaKeyFor`.
unfoldable pub quota_key_for : String → RunnerEntry → Quota
unfolding entry_for model_quota_key
quota_key_for model r = model_quota_key (entry_for model r.models) r

-- `keyField`.
unfoldable pub key_field : String → Option String
unfolding is_identifier byte_length
key_field s = if is_identifier s && leb (byte_length s) 240 then some s else none

abbrev pub key_fields : Option String → Option String → Option String → Option String → Option Quota
key_fields (some p) (some b) (some a) (some s) =
    some record { provider = p; billing_product = b; account = a; scope = s }
key_fields _ _ _ _ = none

-- `availabilityKeyFor`.
unfoldable pub availability_key_for : String → RunnerEntry → Option Quota
unfolding quota_key_for key_field
availability_key_for model r =
    let k = quota_key_for model r in
    key_fields (key_field k.provider) (key_field k.billing_product) (key_field k.account)
      (key_field k.scope)
