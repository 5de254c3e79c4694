-- ===== src/Evidence/Publish.antt =====
-- The publication of evidence: replaceRunEvidence and updateEvidenceItemMetadata of the local store
-- in dashboard/lib/inssa-ops/run-store.ts, the check of the owner in evidence-safety.ts, and
-- evidence-recovery.ts. The store is the two lists in its file; the job of the run and the time are
-- arguments.
use web_app_qa_tests_main.Base.{
  ℕ, String, str_eq, ◌<>◌, Bool, false, ◌&&◌, ◌||◌, not, Option, none, some, List, [], ◌∷◌, ◌++◌,
  ltb, any, map, find, filter, update_first, Answer, Done, done, answered, refused, refuse_if,
  and_then,
}
use web_app_qa_tests_main.Jobs.{ExecutionJob, is_held}
use web_app_qa_tests_main.Outbox.Payload.{Fields}
use web_app_qa_tests_main.Evidence.{Bundle, Item, is_uploaded, same_text, upload_failed}
use web_app_qa_tests_main.Evidence.Integrity.{
  has_item_id, validate_evidence_manifest, validate_evidence_replacement,
}

pub record PublicationOwner : Type 0 where
  pub job_id : String
  pub worker_id : String

abbrev expires_after : (now : ℕ) → Option ℕ → Bool
expires_after now none = false
expires_after now (some at) = ltb now at

abbrev owns : PublicationOwner → (run_id : String) → (now : ℕ) → ExecutionJob → Bool
owns owner run_id now job =
    str_eq job.id owner.job_id
    && (str_eq job.run_id run_id
        && (same_text job.claimed_by (some owner.worker_id)
            && (is_held job.status && expires_after now job.lease_expires_at)))

abbrev owns_found : PublicationOwner → (run_id : String) → (now : ℕ) → Option ExecutionJob → Bool
owns_found owner run_id now none = false
owns_found owner run_id now (some job) = owns owner run_id now job

abbrev not_owned : PublicationOwner → String
not_owned owner =
    "Execution job " <> owner.job_id <> " is no longer owned by worker " <> owner.worker_id <> "."

abbrev pub assert_evidence_execution_safety :
    (job : Option ExecutionJob)
    → PublicationOwner
    → (run_id : String) → (lease_lost process_alive : Bool) → (now : ℕ) → Answer Done
assert_evidence_execution_safety job owner run_id lease_lost process_alive now =
    refuse_if (lease_lost || not (owns_found owner run_id now job)) (not_owned owner) (
      refuse_if process_alive "EVIDENCE_UNAVAILABLE: campaign process tree is not stable."
        (answered done))

pub record EvidenceStore : Type 0 where
  pub bundles : List Bundle
  pub items : List Item

pub record Publication : Type 0 where
  pub run_id : String
  pub bundle : Option Bundle
  pub items : List Item
  pub owner : Option PublicationOwner
  pub job : Option ExecutionJob
  pub now : ℕ

abbrev pub of_run : String → Bundle → Bool
of_run run_id b = str_eq b.run_id run_id

abbrev pub item_of_run : String → Item → Bool
item_of_run run_id i = str_eq i.run_id run_id

abbrev metadata_of : Option Item → Item → Item
metadata_of none i = i
metadata_of (some old) i = record i { metadata = old.metadata }

-- The metadata that the store holds already stays.
unfoldable pub with_old_metadata : List Item → Item → Item
unfolding find
with_old_metadata old_items i = metadata_of (find (has_item_id i.id) old_items) i

abbrev pub as_list : Option Bundle → List Bundle
as_list none = []
as_list (some b) = b ∷ []

unfoldable pub bundles_of : String → EvidenceStore → List Bundle
unfolding filter
bundles_of run_id st = filter (of_run run_id) st.bundles

unfoldable pub items_of : String → EvidenceStore → List Item
unfolding filter
items_of run_id st = filter (item_of_run run_id) st.items

unfoldable pub replaced : Publication → EvidenceStore → EvidenceStore
unfolding filter items_of with_old_metadata
replaced p st = record {
  bundles = filter (λ b. not (of_run p.run_id b)) st.bundles ++ as_list p.bundle;
  items =
      filter (λ i. not (item_of_run p.run_id i)) st.items
      ++ map (with_old_metadata (items_of p.run_id st)) p.items;
}

abbrev pub owner_safe : Publication → Option PublicationOwner → Answer Done
owner_safe p none = answered done
owner_safe p (some owner) = assert_evidence_execution_safety p.job owner p.run_id false false p.now

abbrev pub settle : Answer Done → EvidenceStore → EvidenceStore → Answer Done × EvidenceStore
settle (answered d) st after = (answered d, after)
settle (refused m) st after = (refused m, st)

module _ (normalize : String → String) (is_absolute : String → Bool) where
  unfoldable pub accepts : Publication → EvidenceStore → Answer Done
  unfolding validate_evidence_manifest validate_evidence_replacement bundles_of items_of
  accepts p st =
      and_then (validate_evidence_manifest normalize is_absolute p.run_id p.bundle p.items) λ d.
        and_then (owner_safe p p.owner) λ d.
          validate_evidence_replacement (bundles_of p.run_id st) (items_of p.run_id st) p.bundle
            p.items

  unfoldable pub replace_run_evidence : Publication → EvidenceStore → Answer Done × EvidenceStore
  unfolding accepts replaced
  replace_run_evidence p st = settle (accepts p st) st (replaced p st)

  -- Publications one after the other; a refused one throws and leaves the store.
  unfoldable pub publish_all : List Publication → EvidenceStore → EvidenceStore
  unfolding replace_run_evidence
  publish_all [] st = st
  publish_all (p ∷ ps) st = publish_all ps (replace_run_evidence p st).1

abbrev with_metadata : Fields → Item → Item
with_metadata metadata i = record i { metadata = metadata }

unfoldable updated_metadata :
    Option Item → (id : String) → Fields → EvidenceStore → Answer Item × EvidenceStore
unfolding update_first
updated_metadata none id metadata st = (refused ("Evidence item not found: " <> id), st)
updated_metadata (some i) id metadata st = (
  answered (with_metadata metadata i),
  record st { items = update_first (has_item_id id) (with_metadata metadata) st.items },
)

unfoldable pub update_evidence_item_metadata :
    (id : String) → Fields → EvidenceStore → Answer Item × EvidenceStore
unfolding find updated_metadata
update_evidence_item_metadata id metadata st =
    updated_metadata (find (has_item_id id) st.items) id metadata st

abbrev historical_evidence_unavailable : String
historical_evidence_unavailable = "EVIDENCE_UNAVAILABLE_AFTER_EPHEMERAL_RUN"

abbrev pub unavailable_bundle : Bundle → Bundle
unavailable_bundle b = record b {
  upload_status = upload_failed;
  upload_error = some historical_evidence_unavailable;
}

abbrev pub unavailable_item : Item → Item
unavailable_item i = record i {
  upload_status = upload_failed;
  upload_error = some historical_evidence_unavailable;
}

abbrev pub mark_historical_evidence_unavailable : Bundle → List Item → Answer (Bundle × List Item)
mark_historical_evidence_unavailable b items =
    refuse_if (is_uploaded b.upload_status || any (λ i. is_uploaded i.upload_status) items)
      "Cannot mark durable evidence unavailable because its local source is missing."
      (answered (unavailable_bundle b, map unavailable_item items))
