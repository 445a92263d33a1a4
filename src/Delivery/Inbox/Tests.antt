-- ===== src/Delivery/Inbox/Tests.antt =====
-- server/bbz_core/infra/inbox.py: an event that comes twice.
use bbz_platform.Prelude.{ℕ, String, [], ◌∷◌, none, some, ◌≡◌, refl}
use bbz_platform.RuleDsl.Value.{end}
use bbz_platform.Delivery.Inbox.{ProviderEventInbox, duplicate, new_row, ingest, derive_dedupe_key}
use bbz_platform.Delivery.Inbox.Once.{ingest_all, ingest-ingest}

abbrev row_of : ℕ → String → ProviderEventInbox
row_of id event_id = new_row (λ s. s) (λ fs. "") 0 id "sip" end (some event_id) none none none none

abbrev derived : ProviderEventInbox
derived = new_row (λ s. s) (λ fs. "") 0 4 "sip" end (some "") none none (some "") none

no_event_id : derived.dedupe_key ≡ "sip:sha256:"
unfolding derive_dedupe_key
no_event_id = refl

ingest-ingest_example :
    ingest (row_of 3 "e1") (ingest_all (row_of 2 "e2" ∷ []) (ingest (row_of 1 "e1") []).1) ≡ (
      record { outcome = duplicate; inbox_id = 1; dedupe_key = "sip:e1" },
      ingest_all (row_of 2 "e2" ∷ []) (ingest (row_of 1 "e1") []).1,
    )
unfolding derive_dedupe_key
ingest-ingest_example = ingest-ingest (row_of 1 "e1") (row_of 3 "e1") (row_of 2 "e2" ∷ []) [] refl
