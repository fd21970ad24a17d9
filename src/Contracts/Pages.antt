-- ===== src/Contracts/Pages.antt =====
-- internal/controlplane/contracts.go: the limits of pages and the cursors.
use agent_comms.Base.{ℕ, String, Option, none, some, ltb, leb, ◌==◌, if◌then◌else◌}
use agent_comms.Base.Integers.{ℤ, pos, negsuc}
use agent_comms.Protocol.Result.{Result, ok, err}

abbrev pub default_page_size : ℕ
default_page_size = 100

abbrev pub max_page_size : ℕ
max_page_size = 500

-- PageRequest.BoundedLimit
unfoldable pub bounded_limit : ℤ → Result ℕ
bounded_limit (negsuc n) = err "limit must be between 0 and 500"
bounded_limit (pos n) =
    if ltb max_page_size n
    then err "limit must be between 0 and 500"
    else if leb n 0
    then ok default_page_size
    else ok n

-- The base64 text of a number's digits, and the number that such a text starts with.
pub record CursorCodec : Type 0 where
  pub encode : ℕ → String
  pub decode : String → Option ℕ

abbrev read_cursor : Option ℕ → Result ℕ
read_cursor none = err "invalid pagination cursor"
read_cursor (some n) = ok n

unfoldable pub decode_cursor : CursorCodec → String → Result ℕ
decode_cursor codec cursor = if cursor == "" then ok 0 else read_cursor (codec.decode cursor)
