-- ===== src/Pages/Events.antt =====
-- Events of internal/localcache/cache.go and internal/personalauthority/engine.go, on the rows of a
-- project in the order of their numbers.
use agent_comms.Base.{ℕ, suc, List, [], ◌∷◌, ltb, take, length, if◌then◌else◌}
use agent_comms.Protocol.Result.{Result, ok, ◌>>=◌}
use agent_comms.Contracts.Types.{EventRecord, EventPage, PageRequest, ResultMetadata}
use agent_comms.Contracts.Pages.{CursorCodec, bounded_limit, decode_cursor}

-- `WHERE sequence > ?`
unfoldable pub rows_after : ℕ → List EventRecord → List EventRecord
rows_after after [] = []
rows_after after (x ∷ xs) =
    let rest = rows_after after xs in if ltb after x.event.sequence then x ∷ rest else rest

-- The number of the last row, or `d` where there is none.
unfoldable pub last_sequence : ℕ → List EventRecord → ℕ
last_sequence d [] = d
last_sequence d (x ∷ xs) = last_sequence x.event.sequence xs

-- The metadata of a page that ends at a number.
abbrev pub cache_metadata : ℕ → ResultMetadata
cache_metadata n = record {
  consistency = "CACHED";
  server_sequence = 0;
  cache_sequence = n;
  connectivity = "OFFLINE";
}

abbrev pub authority_metadata : ℕ → ResultMetadata
authority_metadata n = record {
  consistency = "PERSONAL_AUTHORITATIVE";
  server_sequence = n;
  cache_sequence = n;
  connectivity = "LOCAL";
}

unfoldable pub page_of : CursorCodec → (ℕ → ResultMetadata) → ℕ → ℕ → List EventRecord → EventPage
unfolding last_sequence
page_of codec metadata limit after picked =
    if ltb limit (length picked)
    then record {
      items = take limit picked;
      next_cursor = codec.encode (last_sequence after (take limit picked));
      metadata = metadata (last_sequence after (take limit picked));
    }
    else record {
      items = picked;
      next_cursor = "";
      metadata = metadata (last_sequence after picked);
    }

unfoldable pub events :
    CursorCodec → (ℕ → ResultMetadata) → List EventRecord → PageRequest → Result EventPage
unfolding bounded_limit decode_cursor rows_after page_of
events codec metadata rows page = do
  limit ← bounded_limit page.limit
  after ← decode_cursor codec page.cursor
  ok (page_of codec metadata limit after (take (suc limit) (rows_after after rows)))
