-- ===== src/Posting/Books.antt =====
-- The tables that `postOnce` reads and writes, with the calls that it has made to the provider so
-- far. Left out are the columns and texts that only explain: `request`, `response` and `posted_at` of
-- a posting, the `detail` of an exception, hashes, and the answer that is kept with a proof.
use ap_hub.Prelude.{
  ℕ, Bool, true, false, ◌&&◌, String, List, [], ◌∷◌, ◌++◌, Option, str_eq, ◌==◌, any, if◌then◌else◌,
}
use ap_hub.Mapping.Tax.{RawTax}
use ap_hub.Mapping.Dimension.{CanonicalDimension}

pub data AccountingMode : Type 0 where
  sandbox production : AccountingMode

-- `proposed_txn`: `TotalAmt`, `txnType`, `tax`, the amounts of `lines`, and `dimensions`.
pub record Txn (N : Type 0) : Type 0 where
  pub total_amt : Option N
  pub txn_type : Option String
  pub tax : RawTax N
  pub lines : List N
  pub dimensions : List CanonicalDimension

pub record Proposal (N : Type 0) : Type 0 where
  pub id : ℕ
  pub tenant_id : ℕ
  pub attachment_id : Option ℕ
  pub extraction_id : Option ℕ
  pub proposed_txn : Txn N
  pub idempotency_key : Option String
  pub confidence : N
  pub status : String
  pub flags : List String

pub record Posting : Type 0 where
  pub id : ℕ
  pub tenant_id : ℕ
  pub attachment_id : Option ℕ
  pub proposal_id : ℕ
  pub entity_type : String
  pub external_id : Option String
  pub revision : Option String
  pub realm : String
  pub mode : AccountingMode
  pub idempotency_key : String
  pub status : String

-- `entity_ref`: `proposal:<id>`, `extraction:<id>`, `posting:<id>` by row or by the provider's id.
pub data EntityRef : Type 0 where
  proposal_ref extraction_ref posting_ref : ℕ → EntityRef
  external_ref : String → EntityRef

pub record ExceptionRow : Type 0 where
  pub tenant_id : ℕ
  pub reason_code : String
  pub entity_ref : EntityRef
  pub is_open : Bool

pub data EntityKind : Type 0 where
  attachment extraction proposal posting audit_day : EntityKind

pub data Product : Type 0 where
  verify_api invoiceproof auditproof : Product

pub record ProofRef : Type 0 where
  pub tenant_id : ℕ
  pub entity_kind : EntityKind
  pub entity_id : ℕ
  pub product : Product

-- `swarm_sync_policy` is `metadata.swarmSyncPolicy`.
pub record CompanyConnection : Type 0 where
  pub id : ℕ
  pub tenant_id : ℕ
  pub provider : String
  pub external_company : String
  pub swarm_sync_policy : Option String

pub record TaxMappingRow : Type 0 where
  pub tenant_id : ℕ
  pub connection_id : ℕ
  pub provider : String
  pub provider_tax_code : String
  pub active : Bool
  pub needs_revalidation : Bool

pub record DimensionMappingRow : Type 0 where
  pub tenant_id : ℕ
  pub proposal_id : ℕ
  pub dimension_type : String
  pub resolution_state : String
  pub review_status : String

pub record Reconciliation : Type 0 where
  pub tenant_id : ℕ
  pub left_proposal : ℕ
  pub right_provider : String
  pub right_external : String

pub record AuditRow : Type 0 where
  pub tenant_id : ℕ
  pub action : String
  pub posting_id : ℕ

pub record PostedRef : Type 0 where
  pub external_id : String
  pub revision : String

-- How `postBill` ends: with the provider's id, with the provider's duplicate signal (6190), or with
-- any other error, after which the document may or may not exist.
pub data BillReply : Type 0 where
  created : PostedRef → BillReply
  refused_duplicate : BillReply
  post_failed : String → BillReply

pub data ProviderCall : Type 0 where
  verified_identity : String → ProviderCall
  probed : ℕ → String → ProviderCall
  posted_bill : ℕ → String → BillReply → ProviderCall
  attached read_back : String → ProviderCall
  anchored : ℕ → ProviderCall

-- `tax_mappings` stands as `listTaxMappings` returns it: newest first, at most 500.
pub record Books (N : Type 0) : Type 0 where
  pub proposals : List (Proposal N)
  pub postings : List Posting
  pub next_posting_id : ℕ
  pub exceptions : List ExceptionRow
  pub proofs : List ProofRef
  pub connections : List CompanyConnection
  pub tax_mappings : List TaxMappingRow
  pub dimension_mappings : List DimensionMappingRow
  pub reconciliations : List Reconciliation
  pub audits : List AuditRow
  pub calls : List ProviderCall

abbrev pub entity_kind_eq : EntityKind → EntityKind → Bool
entity_kind_eq attachment attachment = true
entity_kind_eq extraction extraction = true
entity_kind_eq proposal proposal = true
entity_kind_eq posting posting = true
entity_kind_eq audit_day audit_day = true
entity_kind_eq _ _ = false

abbrev pub product_eq : Product → Product → Bool
product_eq verify_api verify_api = true
product_eq invoiceproof invoiceproof = true
product_eq auditproof auditproof = true
product_eq _ _ = false

abbrev pub is_extraction_ref : ℕ → EntityRef → Bool
is_extraction_ref id (extraction_ref i) = i == id
is_extraction_ref id _ = false

module _ {N : Type 0} where
  abbrev pub log : ProviderCall → Books N → Books N
  log call s = record s { calls = s.calls ++ call ∷ [] }

  abbrev pub raise_exception : ℕ → String → EntityRef → Books N → Books N
  raise_exception tenant reason ref s = record s {
    exceptions =
        s.exceptions
        ++ record { tenant_id = tenant; reason_code = reason; entity_ref = ref; is_open = true }
          ∷ [];
  }

  abbrev pub has_proof_ref : ℕ → EntityKind → ℕ → Product → Books N → Bool
  has_proof_ref tenant kind id product s =
      any
        (λ (r : ProofRef).
          (r.tenant_id == tenant)
          && entity_kind_eq r.entity_kind kind
          && (r.entity_id == id)
          && product_eq r.product product)
        s.proofs

  -- ON CONFLICT DO NOTHING
  abbrev pub record_proof_ref : ℕ → EntityKind → ℕ → Product → Books N → Books N
  record_proof_ref tenant kind id product s =
      if has_proof_ref tenant kind id product s then s else record s {
        proofs =
            s.proofs
            ++ record { tenant_id = tenant; entity_kind = kind; entity_id = id; product = product }
              ∷ [];
      }

  abbrev pub open_proof_exception : ℕ → ℕ → Books N → Bool
  open_proof_exception tenant extraction_id s =
      any
        (λ (e : ExceptionRow).
          (e.tenant_id == tenant)
          && is_extraction_ref extraction_id e.entity_ref
          && str_eq e.reason_code "proof_scan_unavailable"
          && e.is_open)
        s.exceptions

abbrev pub is_posting : ℕ → String → Posting → Bool
is_posting tenant key row = (row.tenant_id == tenant) && str_eq row.idempotency_key key
