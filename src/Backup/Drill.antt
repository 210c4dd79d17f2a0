-- ===== src/Backup/Drill.antt =====
-- `verify_restore` of services/backup_service.py.
use stock_invest_system.Prelude.{
  ℕ, Bool, true, false, ◌&&◌, ◌||◌, List, [], ◌∷◌, Option, none, some, ◌==◌, leb, ltb,
}
use stock_invest_system.Backup.Client.{Result, returns, raises, Client, Archive}

-- Whether a command of `_maintenance_psql` works, or what it raises.
pub data Psql : Type 0 where
  works : Psql
  psql_raises : ℕ → Psql

-- The numbers of rows of a table in the source and in the restored database, `none` for -1.
pub record Rows : Type 0 where
  pub source : Option ℕ
  pub restored : Option ℕ

-- The checks of a table.
pub record Check : Type 0 where
  pub is_consistent : Bool
  pub is_complete : Bool

abbrev pub consistent : Option ℕ → Option ℕ → Bool
consistent (some source) (some restored) = leb restored source
consistent source restored = false

abbrev pub complete : Option ℕ → Option ℕ → Bool
complete none restored = true
complete (some source) none = source == 0
complete (some source) (some restored) = ltb 0 restored || source == 0

abbrev pub check_rows : Rows → Check
check_rows r = record {
  is_consistent = consistent r.source r.restored;
  is_complete = complete r.source r.restored;
}

-- The numbers of tables match, and there are some.
abbrev pub schema_match : Option ℕ → Option ℕ → Bool
schema_match (some source) (some restored) = ltb 0 source && source == restored
schema_match source restored = false

-- What happens in the `try`: an exception, or the exit code of pg_restore, the number of its lines of
-- errors, and the counts.
pub record Restored : Type 0 where
  pub exit_code : ℕ
  pub error_lines : ℕ
  pub rows : List Rows
  pub source_tables : Option ℕ
  pub restored_tables : Option ℕ

-- What a drill meets. The dump is there when it can be found and is a file.
pub record Drill : Type 0 where
  pub has_dump : Bool
  pub archive : Result Archive
  pub client : Result Client
  pub drop_first : Psql
  pub create : Psql
  pub restore : Result Restored
  pub drop_last : Psql

abbrev pub all_checks : List Rows → Bool
all_checks [] = true
all_checks (r ∷ rows) =
    let rest = all_checks rows in (check_rows r).is_consistent && (check_rows r).is_complete && rest

unfoldable pub is_verified : Archive → Restored → Bool
is_verified a r =
    r.exit_code == 0
    && r.error_lines == 0
    && a.is_ok
    && schema_match r.source_tables r.restored_tables
    && all_checks r.rows

-- Whether the drill has passed, or what it raises, and whether the temporary database is there.
pub record Drilled : Type 0 where
  pub result : Result Bool
  pub temporary : Bool

abbrev no_dump : ℕ
no_dump = 14

abbrev fail : ℕ → Bool → Drilled
fail e temporary = record { result = raises e; temporary = temporary }

abbrev pub judge : Archive → Result Restored → Result Bool
judge a (raises e) = raises e
judge a (returns r) = returns (is_verified a r)

-- `finally`: what the last command raises takes the place of the rest.
abbrev pub drop_after : Psql → Result Bool → Drilled
drop_after works result = record { result = result; temporary = false }
drop_after (psql_raises e) result = fail e true

abbrev pub create_after : Drill → Archive → Psql → Drilled
create_after d a works = drop_after d.drop_last (judge a d.restore)
create_after d a (psql_raises e) = fail e false

abbrev pub drop_before : Drill → Archive → Bool → Psql → Drilled
drop_before d a temporary works = create_after d a d.create
drop_before d a temporary (psql_raises e) = fail e temporary

abbrev pub with_client : Drill → Archive → Bool → Result Client → Drilled
with_client d a temporary (raises e) = fail e temporary
with_client d a temporary (returns c) = drop_before d a temporary d.drop_first

abbrev pub with_archive : Drill → Bool → Result Archive → Drilled
with_archive d temporary (raises e) = fail e temporary
with_archive d temporary (returns a) = with_client d a temporary d.client

abbrev pub with_dump : Drill → Bool → Bool → Drilled
with_dump d temporary false = fail no_dump temporary
with_dump d temporary true = with_archive d temporary d.archive

-- The second argument: whether the temporary database is there before.
unfoldable pub verify_restore : Drill → Bool → Drilled
verify_restore d temporary = with_dump d temporary d.has_dump
