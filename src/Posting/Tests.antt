-- ===== src/Posting/Tests.antt =====
-- One proposal that passes the gates, and a provider whose creates succeed or are lost.
use ap_hub.Prelude.{ℕ, ◌+◌, ◌-◌, ltb, leb, ◌≤◌, ◌≡◌, ◌≢◌, refl, true, [], ◌∷◌, none, some, arith}
use ap_hub.Mapping.Amount.{Amounts}
use ap_hub.Mapping.Tax.{missing, evaluate_tax, normalize_tax}
use ap_hub.Posting.Books.{
  Proposal, Books, BillReply, created, post_failed, production, proposal, extraction, invoiceproof,
  verify_api,
}
use ap_hub.Posting.Connector.{PostDeps, posted, answers, identity_match, read_match, on}
use ap_hub.Posting.Gate.{entry_gate, tax_gate, dimension_gate}
use ap_hub.Posting.Record.{upsert_posting}
use ap_hub.Posting.Post.{
  key_of, find_proposal, post_once, check_company, local_dedup, probe_provider, gated_create,
  create_bill, after_reply, after_create, attach_pdf, read_back_created, settle, anchor_posting,
}
use ap_hub.Posting.Grows.{bill_count, create_count, has_posting, ledger}
use ap_hub.Posting.Once.{start, posts, created_once}
use ap_hub.Posting.Stored.{Recorded}
use ap_hub.Posting.Recorded.{post_once-Recorded}
use ap_hub.Posting.Gated.{Cleared, post_once-Cleared}

abbrev cents : Amounts ℕ
cents = record {
  num = λ n. n;
  zero = 0;
  add = λ a b. a + b;
  sub = λ a b. (a - b) + (b - a);
  abs = λ a. a;
  lt = ltb;
  le = leb;
  parse = λ text. none;
}

-- The provider answers every create with `reply`.
abbrev settings : BillReply → PostDeps ℕ
settings reply = record {
  connector = record {
    provider = "qbo";
    company_id = "9341";
    verify_company_identity = λ calls name. answers identity_match;
    detect_existing = λ calls txn key. answers none;
    post_bill = λ calls txn key. reply;
    attach_document = λ calls id. true;
    read_back_verify = λ calls txn id. answers (read_match "1");
  };
  anchor = λ calls id. true;
  load_pdf = λ id. answers true;
  amount_ceiling = 500000;
  auto_threshold = 90;
  expected_company_name = some "ACME";
  swarm_sync_enabled = some true;
  swarm_sync_mode = some on;
  accounting_mode = some production;
}

abbrev approved : Proposal ℕ
approved = record {
  id = 7;
  tenant_id = 1;
  attachment_id = some 4;
  extraction_id = some 3;
  proposed_txn = record {
    total_amt = some 10700;
    txn_type = none;
    tax = missing;
    lines = 10700 ∷ [];
    dimensions = [];
  };
  idempotency_key = some "k7";
  confidence = 95;
  status = "ready";
  flags = [];
}

abbrev books : Books ℕ
books = record {
  proposals = approved ∷ [];
  postings = [];
  next_posting_id = 1;
  exceptions = [];
  proofs =
      record { tenant_id = 1; entity_kind = proposal; entity_id = 7; product = invoiceproof }
      ∷ record { tenant_id = 1; entity_kind = extraction; entity_id = 3; product = verify_api }
      ∷ [];
  connections = [];
  tax_mappings = [];
  dimension_mappings = [];
  reconciliations = [];
  audits = [];
  calls = [];
}

abbrev succeeds : PostDeps ℕ
succeeds = settings (created (record { external_id = "145"; revision = "0" }))

abbrev times_out : PostDeps ℕ
times_out = settings (post_failed "timeout")

-- A create whose outcome is lost, and a second run.
abbrev after_two : Books ℕ
after_two = (post_once cents 1 succeeds 1 7 (post_once cents 1 times_out 1 7 books).0).0

created_once_example :
    (create_count 1 "k7" (ledger after_two) ≤ 1)
    × (create_count 1 "k7" (ledger after_two) ≡ 1 → has_posting 1 "k7" (ledger after_two) ≡ true)
created_once_example =
    created_once cents 1 books after_two 1 "k7" refl
      (posts succeeds 1 7 (posts times_out 1 7 start))

makes_a_bill :
    bill_count (ledger (post_once cents 1 succeeds 1 7 books).0) ≢ bill_count (ledger books)
unfolding post_once check_company local_dedup probe_provider gated_create create_bill after_reply
    after_create attach_pdf read_back_created settle anchor_posting upsert_posting entry_gate
    tax_gate dimension_gate evaluate_tax normalize_tax
makes_a_bill e = omega (arith, e)

post_once-Cleared_example :
    (p : Proposal ℕ) × (find_proposal cents 1 1 7 books ≡ some p)
    × Cleared cents 1 succeeds 1 p books
post_once-Cleared_example = post_once-Cleared cents 1 succeeds 1 7 books makes_a_bill

reports_posted : (post_once cents 1 succeeds 1 7 books).1 ≡ posted (some 1) "145"
unfolding post_once check_company local_dedup probe_provider gated_create create_bill after_reply
    after_create attach_pdf read_back_created settle anchor_posting upsert_posting entry_gate
    tax_gate dimension_gate evaluate_tax normalize_tax
reports_posted = refl

post_once-Recorded_example :
    (p : Proposal ℕ) × (find_proposal cents 1 1 7 books ≡ some p)
    × Recorded 1 (key_of cents 1 p) "145" (post_once cents 1 succeeds 1 7 books).0.postings
post_once-Recorded_example =
    post_once-Recorded cents 1 succeeds 1 7 books (some 1) "145" reports_posted
