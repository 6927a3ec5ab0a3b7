-- ===== src/ProviderJobs/Identity.antt =====
-- The company identity that `leaseNext` compares before it hands out work.
use ap_hub.Prelude.{
  ℕ, ◌+◌, ◌≡◌, ◌∙◌, ap, ==_iff, String, ◌≢◌, List, [], ◌∷◌, none, some, arith, str_eq_iff,
  Option-cases, inl, inr,
}
use ap_hub.ProviderJobs.Row.{Job, Store, Connection, leased}
use ap_hub.ProviderJobs.Table.{find_connection, update_returning}
use ap_hub.ProviderJobs.Lease.{
  LeaseInput, lease_next, lease_connected, lease_first, expected_company, recover, waiting,
}
use ap_hub.ProviderJobs.Lifecycle.{IsValid}
use ap_hub.ProviderJobs.Order.{Taken, lease_connected-Taken}

abbrev pub Leased : ℕ → ℕ → String → Job → Type 0
Leased now lease_seconds token job =
    (job.status ≡ leased)
    × (job.lease_token ≡ some token)
    × (job.lease_expires_at ≡ some (now + lease_seconds))
    × (job.error_code ≡ none)

lease_first-Leased :
    (now lease_seconds : ℕ) (token : String) (jobs : List Job) (s : Store) (job : Job)
    → (lease_first now lease_seconds token jobs s).1 ≡ some job
    → Leased now lease_seconds token job
unfolding lease_first update_returning
lease_first-Leased now lease_seconds token [] s job e = cc
lease_first-Leased now lease_seconds token (candidate ∷ rest) s job e = ground arith

lease_connected-identity :
    (sha256 : String → String) (now lease_seconds : ℕ) (token : String) (input : LeaseInput)
    (conn : Connection) (s : Store) (job : Job)
    → (lease_connected sha256 now lease_seconds token input conn s).1 ≡ some job
    → (conn.status ≡ "active")
      × (expected_company conn ≡ input.observed_company_id)
      × (expected_company conn ≢ "")
      × Leased now lease_seconds token job
unfolding lease_connected
lease_connected-identity sha256 now lease_seconds token input conn s job e = ground (
  arith,
  str_eq_iff conn.status "active",
  str_eq_iff (expected_company conn) "",
  str_eq_iff (expected_company conn) input.observed_company_id,
  lease_first-Leased now lease_seconds token
      (waiting input.tenant_id input.connection_id
        (recover sha256 now input.tenant_id input.connection_id s))
      (recover sha256 now input.tenant_id input.connection_id s) job,
)

module _ (sha256 : String → String) (now lease_seconds : ℕ) (token : String) where
  Taken-tenant :
      (tenant connection : ℕ) (s : Store) (job : Job)
      → Taken now lease_seconds tenant connection token s job
      → job.tenant_id ≡ tenant
  Taken-tenant tenant connection s job t =
      ap (λ (j : Job). j.tenant_id) t.same
      ∙ (==_iff t.candidate.tenant_id tenant).0 (ground (arith, t.waits))

  Taken-connection :
      (tenant connection : ℕ) (s : Store) (job : Job)
      → Taken now lease_seconds tenant connection token s job
      → job.connection_id ≡ connection
  Taken-connection tenant connection s job t =
      ap (λ (j : Job). j.connection_id) t.same
      ∙ (==_iff t.candidate.connection_id connection).0 (ground (arith, t.waits))

  -- From a valid table: a job that `leaseNext` returns was leased for the known connection of the
  -- call, which is active and whose expected company is set and equals the observed one. The job is of
  -- that tenant and connection: it is a row that the recovery left queued there, with the lease
  -- added; it is leased under the given token until `now + lease_seconds`, and has no error code.
  pub lease_next-identity :
      (input : LeaseInput) (s : Store) (job : Job)
      → IsValid s
      → (lease_next sha256 now lease_seconds token input s).1 ≡ some job
      → (conn : Connection) × (find_connection input.tenant_id input.connection_id s ≡ some conn)
        × ((conn.status ≡ "active")
            × (expected_company conn ≡ input.observed_company_id)
            × (expected_company conn ≢ "")
            × Leased now lease_seconds token job)
        × ((job.tenant_id ≡ input.tenant_id)
            × (job.connection_id ≡ input.connection_id)
            × Taken now lease_seconds input.tenant_id input.connection_id token
                (recover sha256 now input.tenant_id input.connection_id s)
                job)
  unfolding lease_next
  lease_next-identity input s job v e =
      elim (Option-cases (find_connection input.tenant_id input.connection_id s)) [
        | inl missing ↦ let none_leased : none ≡ some job = rw (missing, lease_next) at e in cc
        | inr (conn, known) ↦
            let returned : (lease_connected sha256 now lease_seconds token input conn s).1
                ≡ some job =
              rw (known, lease_next) at e in
            let taken =
              lease_connected-Taken sha256 now lease_seconds token input conn s job v returned in
            (
              conn,
              known,
              lease_connected-identity sha256 now lease_seconds token input conn s job returned,
              (
                Taken-tenant input.tenant_id input.connection_id _ job taken,
                Taken-connection input.tenant_id input.connection_id _ job taken,
                taken,
              ),
            )
      ]
