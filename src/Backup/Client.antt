-- ===== src/Backup/Client.antt =====
-- `resolve_pg_client`, `check_client_version` and `verify_archive` of services/backup_service.py.
use stock_invest_system.Prelude.{
  ℕ, Bool, List, [], ◌∷◌, ◌+◌, Option, none, some, ltb, ◌==◌, if◌then◌else◌,
}

-- What a function returns, or the text of what it raises, by a number.
pub data Result (A : Type 0) : Type 0 where
  returns : A → Result A
  raises : ℕ → Result A

-- `BACKUP_PG_DUMP_MODE`, without blanks and in lower case.
pub data Mode : Type 0 where
  auto : Mode
  local : Mode
  docker : Mode
  unknown : Mode

pub data Client : Type 0 where
  binary : Client
  container : Client

abbrev unknown_mode : ℕ
unknown_mode = 1

abbrev no_binary : ℕ
no_binary = 2

abbrev no_client : ℕ
no_client = 3

abbrev pub in_container : Bool → Result Client
in_container docker_found = if docker_found then returns container else raises no_client

-- Whether the binary and docker are found.
unfoldable pub resolve_pg_client : Mode → Bool → Bool → Result Client
resolve_pg_client unknown binary_found docker_found = raises unknown_mode
resolve_pg_client docker binary_found docker_found = in_container docker_found
resolve_pg_client local binary_found docker_found =
    if binary_found then returns binary else raises no_binary
resolve_pg_client auto binary_found docker_found =
    if binary_found then returns binary else in_container docker_found

-- What the versions are asked of: `pg_dump --version` with its exit code and the major version in its
-- output, and the server, which may be out of reach.
pub record Versions : Type 0 where
  pub exit_code : ℕ
  pub client_major : Option ℕ
  pub server_major : Result ℕ

abbrev version_failed : ℕ
version_failed = 4

abbrev version_unreadable : ℕ
version_unreadable = 5

abbrev client_too_old : ℕ
client_too_old = 6

abbrev check_server : Client → ℕ → Result ℕ → Result Client
check_server c client (raises e) = raises e
check_server c client (returns server) =
    if ltb client server then raises client_too_old else returns c

abbrev check_major : Client → Option ℕ → Result ℕ → Result Client
check_major c none server = raises version_unreadable
check_major c (some client) server = check_server c client server

-- The client, which is resolved once more by the caller.
unfoldable pub check_client_version : Result Client → Versions → Result Client
check_client_version (raises e) v = raises e
check_client_version (returns c) v =
    if v.exit_code == 0 then check_major c v.client_major v.server_major else raises version_failed

-- `pg_restore --list` of a file: the exit code, and for each line whether it is an entry, that is not
-- empty and no comment.
pub record Listing : Type 0 where
  pub exit_code : ℕ
  pub lines : List Bool

pub record Archive : Type 0 where
  pub entries : ℕ
  pub is_ok : Bool

abbrev pub count_entries : List Bool → ℕ
count_entries [] = 0
count_entries (entry ∷ lines) = let n = count_entries lines in if entry then n + 1 else n

abbrev listing_failed : ℕ
listing_failed = 7

unfoldable pub verify_archive : Result Client → Listing → Result Archive
verify_archive (raises e) l = raises e
verify_archive (returns c) l =
    let n = count_entries l.lines in
    if l.exit_code == 0
    then returns (record { entries = n; is_ok = ltb 0 n })
    else raises listing_failed
