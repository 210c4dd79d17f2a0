-- ===== src/Backup/Dump.antt =====
-- `run_pg_dump` of services/backup_service.py.
use stock_invest_system.Prelude.{ℕ, Bool, not, ◌||◌, List, [], ◌∷◌, ◌==◌, if◌then◌else◌}
use stock_invest_system.Backup.Client.{
  Result, returns, raises, Client, Versions, check_client_version,
}
use stock_invest_system.Backup.Folder.{Name, full, part, File, put, remove}

-- How the process of pg_dump ends: with a code, or past its time.
pub data Ended : Type 0 where
  exited : ℕ → Ended
  timed_out : Ended

-- What one dump meets: the client, the versions, the day and the time, whether the file can be opened,
-- what pg_dump writes to it, and how it ends.
pub record Dumping : Type 0 where
  pub client : Result Client
  pub versions : Versions
  pub day : ℕ
  pub now : ℕ
  pub opens : Bool
  pub content : ℕ
  pub size : ℕ
  pub ended : Ended

-- The entry of the manifest.
pub record Entry : Type 0 where
  pub day : ℕ
  pub size : ℕ
  pub content : ℕ

-- What is returned or raised, and the folder after each change of it, the last one first.
pub record Dumped : Type 0 where
  pub result : Result Entry
  pub states : List (List File)

abbrev open_failed : ℕ
open_failed = 8

abbrev dump_timed_out : ℕ
dump_timed_out = 9

abbrev dump_failed : ℕ
dump_failed = 10

abbrev pub file_of : Dumping → Name → ℕ → ℕ → File
file_of d name content size = record { name = name; content = content; size = size; mtime = d.now }

-- The folder while `pg_dump` runs: with an empty file, and with what it wrote.
abbrev pub opened : Dumping → List File → List File
opened d fs = put (file_of d (part d.day) 0 0) fs

abbrev pub written : Dumping → List File → List File
written d fs = put (file_of d (part d.day) d.content d.size) fs

abbrev pub entry_of : Dumping → Entry
entry_of d = record { day = d.day; size = d.size; content = d.content }

abbrev pub finish_dump : Dumping → List File → Ended → Dumped
finish_dump d fs timed_out = record {
  result = raises dump_timed_out;
  states = written d fs ∷ opened d fs ∷ [];
}
finish_dump d fs (exited code) =
    if not (code == 0) || d.size == 0
    then record {
      result = raises dump_failed;
      states = remove (part d.day) (written d fs) ∷ written d fs ∷ opened d fs ∷ [];
    }
    else record {
      result = returns (entry_of d);
      states =
          put (file_of d (full d.day) d.content d.size) (remove (part d.day) (written d fs))
          ∷ written d fs
          ∷ opened d fs
          ∷ [];
    }

abbrev pub dump_checked : Dumping → List File → Result Client → Dumped
dump_checked d fs (raises e) = record { result = raises e; states = [] }
dump_checked d fs (returns c) =
    if d.opens
    then finish_dump d fs d.ended
    else record { result = raises open_failed; states = [] }

unfoldable pub run_pg_dump : Dumping → List File → Dumped
run_pg_dump d fs = dump_checked d fs (check_client_version d.client d.versions)

abbrev pub last_state : List (List File) → List File → List File
last_state [] fs = fs
last_state (s ∷ states) fs = s
