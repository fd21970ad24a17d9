-- ===== src/Tests/DraftTests.antt =====
-- A store with one draft.
use agent_comms.Base.{◌≡◌, refl, arith, String, false, ◌&&◌, ◌==◌, [], ◌∷◌, some}
use agent_comms.Protocol.Result.{ok}
use agent_comms.Contracts.Types.{Draft}
use agent_comms.Drafts.Store.{save_draft, delete_draft, find_draft, count_drafts, used_bytes}
use agent_comms.Drafts.Quota.{WithinQuota, save_draft-WithinQuota}
use agent_comms.Drafts.Saved.{Deleted, Saves, save_draft_found, delete_draft-Deleted}

abbrev plan : Draft
plan = record {
  project_id = "p1";
  id = "plan";
  kind = "document";
  body = "text";
  body_bytes = 4;
  created_at = 0;
  updated_at = 0;
}

abbrev saved_plan : Draft
saved_plan = record plan { created_at = 70; updated_at = 70 }

abbrev longer_plan : Draft
longer_plan = record plan { body = "longer"; body_bytes = 6 }

saved : save_draft false 70 [] plan ≡ ok (saved_plan ∷ [])
unfolding save_draft
saved = refl

saved_again :
    save_draft false 90 (saved_plan ∷ []) longer_plan
    ≡ ok (record longer_plan { created_at = 70; updated_at = 90 } ∷ [])
unfolding save_draft
saved_again = refl

empty-WithinQuota : WithinQuota []
unfolding count_drafts used_bytes
empty-WithinQuota project = (omega arith, omega arith)

save_draft-WithinQuota_example : WithinQuota (saved_plan ∷ [])
save_draft-WithinQuota_example = save_draft-WithinQuota false 70 [] plan empty-WithinQuota saved

abbrev kept_plan : Draft
kept_plan = record longer_plan { created_at = 70; updated_at = 90 }

save_draft_found_example :
    ((row : Draft) × (find_draft "p1" "plan" (kept_plan ∷ []) ≡ some row)
      × Saves false 90 (find_draft "p1" "plan" (saved_plan ∷ [])) longer_plan row)
    × ((project id : String)
        → ("p1" == project && "plan" == id) ≡ false
        → find_draft project id (kept_plan ∷ []) ≡ find_draft project id (saved_plan ∷ []))
save_draft_found_example = save_draft_found false 90 (saved_plan ∷ []) longer_plan saved_again

deleted : delete_draft (saved_plan ∷ []) "p1" "plan" ≡ ok []
unfolding delete_draft
deleted = refl

delete_draft-Deleted_example : Deleted (saved_plan ∷ []) "p1" "plan" []
delete_draft-Deleted_example = delete_draft-Deleted (saved_plan ∷ []) "p1" "plan" deleted
