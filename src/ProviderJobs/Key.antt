-- ===== src/ProviderJobs/Key.antt =====
-- `stableProviderJobKey`: the idempotency key of a job, SHA-256 over its joined coordinates. The
-- digest is the platform's, a parameter of every function that makes a key.
use Prim.Native.String.{◌++◌ as str_append}
use ap_hub.Prelude.{
  ℕ, zero, suc, ◌/◌, ◌%◌, ltb, String, Option, none, some, List, [], ◌∷◌, if◌then◌else◌,
}
use ap_hub.ProviderJobs.Row.{Operation, verify_company, query, post_bill, read_back, attach}

digit : ℕ → String
digit zero = "0"
digit (suc zero) = "1"
digit (suc (suc zero)) = "2"
digit (suc (suc (suc zero))) = "3"
digit (suc (suc (suc (suc zero)))) = "4"
digit (suc (suc (suc (suc (suc zero))))) = "5"
digit (suc (suc (suc (suc (suc (suc zero)))))) = "6"
digit (suc (suc (suc (suc (suc (suc (suc zero))))))) = "7"
digit (suc (suc (suc (suc (suc (suc (suc (suc zero)))))))) = "8"
digit (suc (suc (suc (suc (suc (suc (suc (suc (suc n))))))))) = "9"

show_fuel : ℕ → ℕ → String
unfolding digit
show_fuel zero n = ""
show_fuel (suc fuel) n =
    let front = show_fuel fuel (n / 10) in
    if ltb n 10 then digit n else str_append front (digit (n % 10))

-- The decimal text of a number. A number has at most as many digits as it has units, and one more.
unfoldable pub show : ℕ → String
unfolding show_fuel
show n = show_fuel (suc n) n

unfoldable pub join : String → List String → String
join separator [] = ""
join separator (part ∷ []) = part
join separator (part ∷ next ∷ rest) =
    str_append part (str_append separator (join separator (next ∷ rest)))

abbrev pub operation_text : Operation → String
operation_text verify_company = "verify_company"
operation_text query = "query"
operation_text post_bill = "post_bill"
operation_text read_back = "read_back"
operation_text attach = "attach"

abbrev pub proposal_text : Option ℕ → String
unfolding show
proposal_text none = "-"
proposal_text (some proposal) = show proposal

unfoldable pub key_text : ℕ → ℕ → Option ℕ → Operation → String → String
unfolding join show proposal_text
key_text tenant connection proposal operation source_key = join ":" (
    show tenant
    ∷ show connection
    ∷ proposal_text proposal
    ∷ operation_text operation
    ∷ source_key
    ∷ [])

unfoldable pub stable_provider_job_key :
    (String → String) → ℕ → ℕ → Option ℕ → Operation → String → String
unfolding key_text
stable_provider_job_key sha256 tenant connection proposal operation source_key =
    sha256 (key_text tenant connection proposal operation source_key)
