-- ===== src/Pages/Export.antt =====
-- ExportJSONL of internal/service/service.go: the loop that follows the pages, over the rows of the
-- project that it asks. Its fuel is a bound on the number of pages.
use mathlib.Core.List.{◌++◌}
use agent_comms.Base.{
  ℕ, zero, suc, ◌<◌, ◌≤◌, ◌≡◌, refl, ap, inl, inr, String, List, ltb, arith, take, length, true,
  false, Bool-cases, ◌==◌, if◌then◌else◌, some, take-drop, take-suc, take_all, length-take,
  length-drop,
}
use agent_comms.Base.Integers.{pos}
use agent_comms.Protocol.Result.{Result, ok, err, ◌>>=◌}
use agent_comms.Contracts.Types.{EventRecord, ResultMetadata}
use agent_comms.Contracts.Pages.{CursorCodec, bounded_limit, decode_cursor, max_page_size}
use agent_comms.Pages.Events.{rows_after, last_sequence, page_of, events}
use agent_comms.Pages.Selected.{Above, rows_after_page, rows_after_all}

unfoldable pub export_pages :
    ℕ
    → CursorCodec
    → (ℕ → ResultMetadata)
    → List EventRecord
    → ℕ
    → String
    → Result (List EventRecord)
unfolding events
export_pages zero codec metadata rows limit cursor = err "out of fuel"
export_pages (suc fuel) codec metadata rows limit cursor =
    events codec metadata rows (record { cursor = cursor; limit = pos limit }) >>= λ page.
    let rest = export_pages fuel codec metadata rows limit page.next_cursor in
    if page.next_cursor == "" then ok page.items else (rest >>= λ more. ok (page.items ++ more))

-- ExportJSONL, behind the verification
unfoldable pub export_jsonl :
    ℕ → CursorCodec → (ℕ → ResultMetadata) → List EventRecord → Result (List EventRecord)
unfolding export_pages
export_jsonl fuel codec metadata rows = export_pages fuel codec metadata rows max_page_size ""

-- What base64 and fmt document: the text of a number is not empty and is read back.
pub record IsCodec (codec : CursorCodec) : Type 0 where
  pub reads_back : (n : ℕ) → codec.decode (codec.encode n) ≡ some n
  pub not_empty : (n : ℕ) → (codec.encode n == "") ≡ false

pub decode_cursor-encode :
    (codec : CursorCodec) → IsCodec codec → (n : ℕ) → decode_cursor codec (codec.encode n) ≡ ok n
unfolding decode_cursor
decode_cursor-encode codec law n = rw (law.not_empty n) rw (law.reads_back n) refl

module _ (codec : CursorCodec) (metadata : ℕ → ResultMetadata) where
  page_last :
      (limit a : ℕ) (xs : List EventRecord)
      → length xs ≤ limit
      → page_of codec metadata limit a (take (suc limit) xs)
        ≡ record { items = xs; next_cursor = ""; metadata = metadata (last_sequence a xs) }
  unfolding page_of
  page_last limit a xs h =
      let fits : ltb limit (length xs) ≡ false = ground arith in
      rw (take_all (suc limit) xs (omega arith)) rw (fits) refl

  page_full :
      (limit a : ℕ) (xs : List EventRecord)
      → limit < length xs
      → page_of codec metadata limit a (take (suc limit) xs) ≡ record {
        items = take limit xs;
        next_cursor = codec.encode (last_sequence a (take limit xs));
        metadata = metadata (last_sequence a (take limit xs));
      }
  unfolding page_of
  page_full limit a xs h =
      let more : ltb limit (length (take (suc limit) xs)) ≡ true =
        rw (length-take (suc limit) xs (omega arith)) (ground arith) in
      rw (more) rw (take-suc limit xs) refl

  -- The answer to a request whose cursor stands at a number.
  pub events_last :
      (rows : List EventRecord) (limit a : ℕ) (cursor : String) (xs : List EventRecord)
      → bounded_limit (pos limit) ≡ ok limit
      → decode_cursor codec cursor ≡ ok a
      → rows_after a rows ≡ xs
      → length xs ≤ limit
      → events codec metadata rows (record { cursor = cursor; limit = pos limit })
        ≡ ok (record { items = xs; next_cursor = ""; metadata = metadata (last_sequence a xs) })
  unfolding events
  events_last rows limit a cursor xs bound at_a selected h =
      rw (bound) rw (at_a) rw (selected) (ap ok (page_last limit a xs h))

  pub events_full :
      (rows : List EventRecord) (limit a : ℕ) (cursor : String) (xs : List EventRecord)
      → bounded_limit (pos limit) ≡ ok limit
      → decode_cursor codec cursor ≡ ok a
      → rows_after a rows ≡ xs
      → limit < length xs
      → events codec metadata rows (record { cursor = cursor; limit = pos limit })
        ≡ ok (record {
          items = take limit xs;
          next_cursor = codec.encode (last_sequence a (take limit xs));
          metadata = metadata (last_sequence a (take limit xs));
        })
  unfolding events
  events_full rows limit a cursor xs bound at_a selected h =
      rw (bound) rw (at_a) rw (selected) (ap ok (page_full limit a xs h))

  export_pages-rows :
      (fuel : ℕ) (rows : List EventRecord) (limit a : ℕ) (cursor : String)
      → IsCodec codec
      → Above 0 rows
      → bounded_limit (pos limit) ≡ ok limit
      → 0 < limit
      → decode_cursor codec cursor ≡ ok a
      → length (rows_after a rows) < fuel
      → export_pages fuel codec metadata rows limit cursor ≡ ok (rows_after a rows)
  unfolding export_pages
  export_pages-rows zero rows limit a cursor law up bound some_rows at_a h = absurd (omega arith)
  export_pages-rows (suc fuel) rows limit a cursor law up bound some_rows at_a h =
      elim (Bool-cases (ltb limit (length (rows_after a rows)))) [
        | inl more ↦
            let xs = rows_after a rows in
            let next = last_sequence a (take limit xs) in
            let behind = rows_after_page 0 a limit rows up in
            let left = length-drop limit xs in
            let rest =
              export_pages-rows fuel rows limit next (codec.encode next) law up bound some_rows
                (decode_cursor-encode codec law next) (rw (behind) (ground arith)) in
            rw (events_full rows limit a cursor xs bound at_a refl (ground arith)) rw
              (law.not_empty next) rw (rest) rw (behind) (ap ok (take-drop limit xs))
        | inr last ↦
            rw (events_last rows limit a cursor (rows_after a rows) bound at_a refl (ground arith))
              refl
      ]

  -- If the numbers of the stored rows rise from above 0, and cursors are read back as they were
  -- written, then ExportJSONL ends after at most as many pages as there are rows, and one more, and has
  -- written every row once, in their order.
  pub export_jsonl_complete :
      (rows : List EventRecord)
      → IsCodec codec
      → Above 0 rows
      → export_jsonl (suc (length rows)) codec metadata rows ≡ ok rows
  unfolding export_jsonl bounded_limit
  export_jsonl_complete rows law up =
      let all = rows_after_all 0 rows up in
      rw
        (export_pages-rows (suc (length rows)) rows max_page_size 0 "" law up refl (omega arith)
          (start codec) (rw (all) (omega arith)))
        (ap ok all)
    where
      start : (codec : CursorCodec) → decode_cursor codec "" ≡ ok 0
      start codec = refl
