-- ===== src/Drafts/Store.antt =====
-- internal/draftstore/store.go: saveDraft, Drafts and DeleteDraft over the table of drafts. SaveDraft,
-- Drafts and DeleteDraft of internal/localcache/cache.go are the same without the flag.
use Prim.Native.String.{compare}
use Prim.Native.Nat.{Ordering}
use agent_comms.Base.{
  ℕ, zero, suc, ◌+◌, ◌-◌, String, Bool, true, false, not, ◌&&◌, ◌||◌, ◌==◌, Option, none, some,
  List, [], ◌∷◌, ltb, leb, take, if◌then◌else◌,
}
use agent_comms.Base.Text.{trim_space}
use agent_comms.Base.Integers.{ℤ, is_not_positive, to_nat}
use agent_comms.Protocol.Result.{Result, ok, err, ◌>>◌, reject_if}
use agent_comms.Protocol.Settings.{max_draft_storage_bytes}
use agent_comms.Contracts.Types.{Draft}
use agent_comms.Contracts.Pages.{default_page_size, max_page_size}

abbrev pub max_draft_bytes : ℕ
max_draft_bytes = 5_242_880

abbrev pub max_drafts_per_project : ℕ
max_drafts_per_project = 1_000

abbrev pub is_draft : String → String → Draft → Bool
is_draft project_id id d = d.project_id == project_id && d.id == id

-- `SELECT COUNT(*)` of a project
unfoldable pub count_drafts : String → List Draft → ℕ
count_drafts project_id [] = 0
count_drafts project_id (d ∷ ds) =
    let rest = count_drafts project_id ds in if d.project_id == project_id then suc rest else rest

-- `SUM(LENGTH(body))` of a project
unfoldable pub used_bytes : String → List Draft → ℕ
used_bytes project_id [] = 0
used_bytes project_id (d ∷ ds) =
    let rest = used_bytes project_id ds in
    if d.project_id == project_id then d.body_bytes + rest else rest

unfoldable pub find_draft : String → String → List Draft → Option Draft
find_draft project_id id [] = none
find_draft project_id id (d ∷ ds) =
    if is_draft project_id id d then some d else find_draft project_id id ds

-- A conflict keeps the row's time of creation.
abbrev pub updated_draft : Draft → Draft → Draft
updated_draft old new = record old {
  kind = new.kind;
  body = new.body;
  body_bytes = new.body_bytes;
  updated_at = new.updated_at;
}

unfoldable pub upsert : Draft → List Draft → List Draft
upsert new [] = new ∷ []
upsert new (d ∷ ds) =
    if is_draft new.project_id new.id d then updated_draft d new ∷ ds else d ∷ upsert new ds

abbrev pub known_kind : String → Bool
known_kind kind = kind == "document" || kind == "message" || kind == "artifact"

abbrev pub existing_bytes : Option Draft → ℕ
existing_bytes none = 0
existing_bytes (some d) = d.body_bytes

abbrev pub is_new : Option Draft → Bool
is_new none = true
is_new (some d) = false

abbrev pub time_or : ℕ → ℕ → ℕ
time_or zero now = now
time_or (suc n) now = suc n

-- The row that is written.
abbrev pub stamped : Bool → ℕ → Draft → Draft
stamped preserve_times now d = record d {
  created_at = time_or d.created_at now;
  updated_at = if not preserve_times then now else time_or d.updated_at now;
}

unfoldable pub check_quota : List Draft → Draft → Result (Unit {0})
unfolding count_drafts used_bytes find_draft
check_quota ds d = do
  reject_if
      (is_new (find_draft d.project_id d.id ds)
        && leb max_drafts_per_project (count_drafts d.project_id ds))
      "local draft count limit reached"
  reject_if
      (ltb max_draft_storage_bytes (
        used_bytes d.project_id ds
        - existing_bytes (find_draft d.project_id d.id ds)
        + d.body_bytes))
      "local draft storage limit reached"

unfoldable pub save_draft : Bool → ℕ → List Draft → Draft → Result (List Draft)
unfolding trim_space check_quota upsert
save_draft preserve_times now ds d = do
  reject_if (trim_space d.project_id == "" || trim_space d.id == "")
      "project and draft ID are required"
  reject_if (not (known_kind d.kind)) "draft kind must be document, message, or artifact"
  reject_if (leb d.body_bytes 0 || ltb max_draft_bytes d.body_bytes)
      "draft must contain 1 to 5242880 bytes"
  check_quota ds d
  ok (upsert (stamped preserve_times now d) ds)

unfoldable pub remove_draft : String → String → List Draft → List Draft
remove_draft project_id id [] = []
remove_draft project_id id (d ∷ ds) =
    let rest = remove_draft project_id id ds in if is_draft project_id id d then rest else d ∷ rest

unfoldable pub delete_draft : List Draft → String → String → Result (List Draft)
unfolding trim_space find_draft remove_draft
delete_draft ds project_id id = do
  reject_if (trim_space project_id == "" || trim_space id == "") "project and draft ID are required"
  reject_if (is_new (find_draft project_id id ds)) "draft not found"
  ok (remove_draft project_id id ds)

unfoldable pub drafts_of : String → List Draft → List Draft
drafts_of project_id [] = []
drafts_of project_id (d ∷ ds) =
    let rest = drafts_of project_id ds in if d.project_id == project_id then d ∷ rest else rest

-- The column holds the time as a text, and `ORDER BY updated_at DESC` compares the texts.
abbrev before_text : String → String → Bool
before_text s t = elim (compare s t) [ Ordering.lt ↦ true | _ ↦ false ]

unfoldable pub insert_newest : (ℕ → String) → Draft → List Draft → List Draft
insert_newest time_text d [] = d ∷ []
insert_newest time_text d (x ∷ xs) =
    if before_text (time_text d.updated_at) (time_text x.updated_at)
    then x ∷ insert_newest time_text d xs
    else d ∷ x ∷ xs

unfoldable pub newest_first : (ℕ → String) → List Draft → List Draft
unfolding insert_newest
newest_first time_text [] = []
newest_first time_text (d ∷ ds) = insert_newest time_text d (newest_first time_text ds)

-- Drafts, with the text of a time as RFC3339Nano
unfoldable pub list_drafts : (ℕ → String) → List Draft → String → ℤ → Result (List Draft)
unfolding drafts_of newest_first
list_drafts time_text ds project_id limit =
    let size = if is_not_positive limit then default_page_size else to_nat limit in
    if ltb max_page_size size
    then err "draft limit is too large"
    else ok (take size (newest_first time_text (drafts_of project_id ds)))
