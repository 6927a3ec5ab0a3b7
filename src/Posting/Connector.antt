-- ===== src/Posting/Connector.antt =====
-- What `postOnce` is given: the connector of the provider, which is not part of the pipeline, and the
-- settings. An answer of the connector may depend on everything that was asked of it before.
use ap_hub.Prelude.{ℕ, Bool, String, List, Option}
use ap_hub.Posting.Books.{AccountingMode, Txn, PostedRef, BillReply, ProviderCall}

pub data Reply (A : Type 0) : Type 0 where
  answers : A → Reply A
  throws : String → Reply A

pub data SwarmSyncMode : Type 0 where
  on off_review : SwarmSyncMode

pub data IdentityResult : Type 0 where
  identity_match identity_mismatch : IdentityResult

pub data MismatchReason : Type 0 where
  amount docnumber dimension : MismatchReason

pub data ReadBackResult : Type 0 where
  read_match : String → ReadBackResult
  read_mismatch : MismatchReason → String → ReadBackResult

pub record AccountingConnector (N : Type 0) : Type 0 where
  pub provider : String
  pub company_id : String
  pub verify_company_identity : List ProviderCall → String → Reply IdentityResult
  pub detect_existing : List ProviderCall → Txn N → String → Reply (Option PostedRef)
  pub post_bill : List ProviderCall → Txn N → String → BillReply
  -- Whether the upload succeeds.
  pub attach_document : List ProviderCall → String → Bool
  pub read_back_verify : List ProviderCall → Txn N → String → Reply ReadBackResult

-- `load_pdf` says whether there are bytes, `anchor` whether the proof was returned.
pub record PostDeps (N : Type 0) : Type 0 where
  pub connector : AccountingConnector N
  pub anchor : List ProviderCall → ℕ → Bool
  pub load_pdf : ℕ → Reply Bool
  pub amount_ceiling : N
  pub auto_threshold : N
  pub expected_company_name : Option String
  pub swarm_sync_enabled : Option Bool
  pub swarm_sync_mode : Option SwarmSyncMode
  pub accounting_mode : Option AccountingMode

pub data PostResult : Type 0 where
  -- `postingId`, none where the code returns -1, and the provider's id.
  posted : Option ℕ → String → PostResult
  held : String → PostResult
  duplicate : PostResult
  skipped : String → PostResult
  thrown : String → PostResult
