-- ===== src/Backup/Tests.antt =====
-- A folder of dumps, a daily backup, its offsite copy, and a drill.
use stock_invest_system.Prelude.{
  ℕ, ◌-◌, ◌*◌, ◌≡◌, ◌↔◌, refl, Bool, true, false, List, [], ◌∷◌, none, some, All,
}
use stock_invest_system.Backup.Client.{returns, binary}
use stock_invest_system.Backup.Folder.{Name, full, File}
use stock_invest_system.Backup.Dump.{exited, Dumping, run_pg_dump}
use stock_invest_system.Backup.Prune.{Root, Retention, prune_backups, prune_dir}
use stock_invest_system.Backup.Offsite.{
  RemotePath, Rclone, Settings, synced, contains, paths_of, pg_full, sync_offsite,
}
use stock_invest_system.Backup.Full.{Daily, Report, World, run_full_backup, replied, run_cli}
use stock_invest_system.Backup.Drill.{works, Drill, verify_restore, is_verified}
use stock_invest_system.Backup.Complete.{Sound, run_pg_dump-Sound}
use stock_invest_system.Backup.Passed.{IsTrue, Found, verify_restore_lem}
use stock_invest_system.Backup.Daily.{Judged, run_full_backup_lem}
use stock_invest_system.Backup.Retained as Retained
use stock_invest_system.Backup.Retained.{Kept, sync_offsite-Kept}

abbrev now : ℕ
now = 86_400 * 100

abbrev dump : ℕ → ℕ → File
dump day age = record { name = full day; content = 7; size = 10; mtime = now - 86_400 * age }

abbrev dumping : Dumping
dumping = record {
  client = returns binary;
  versions = record { exit_code = 0; client_major = some 16; server_major = returns 16 };
  day = 20_260_102;
  now = now;
  opens = true;
  content = 7;
  size = 12;
  ended = exited 0;
}

-- The contents that are whole dumps.
abbrev Good : ℕ → Type 0
Good content = content ≡ 7

run_pg_dump-Sound_example : All (Sound Good) (run_pg_dump dumping (dump 20_260_101 1 ∷ [])).states
run_pg_dump-Sound_example =
    run_pg_dump-Sound Good dumping (dump 20_260_101 1 ∷ []) (refl, tt) (λ h. refl)

-- A remote that is a list of paths.
abbrev mirror : Rclone (List RemotePath)
mirror = record {
  holds = λ t p. contains p t;
  sync = λ paths t. record { exit_code = some 0; remote = paths };
  delete_older = λ days t. record { exit_code = some 0; remote = t };
  holds-sync = λ paths t p h. refl;
  holds-delete_older = λ days t p h. h;
}

abbrev root : Root
root = record {
  full = dump 20_260_101 1 ∷ dump 20_251_101 60 ∷ [];
  base = [];
  wal = [];
  files = [];
  manifests = [];
}

abbrev retention : Retention
retention = record { pg = 30; base = 14; wal = 7; files = 7 }

abbrev remote : Settings
remote = record { has_remote = true; has_binary = true; retain_days = 90 }

abbrev never : Name → Bool
never n = false

synchronised :
    (sync_offsite mirror remote (prune_backups never now retention root) []).result
    ≡ returns (synced true)
unfolding sync_offsite
synchronised = refl

held :
    contains
      (record { place = pg_full; name = full 20_260_101 })
      (sync_offsite mirror remote (prune_backups never now retention root) []).remote
    ≡ true
unfolding sync_offsite prune_backups paths_of prune_dir
held = refl

-- The older one is gone.
sync_offsite-Kept_example :
    Retained.Found
      (Kept never now 30)
      (full 20_260_101)
      (prune_backups never now retention root).full
sync_offsite-Kept_example =
    sync_offsite-Kept mirror never now retention remote root [] true (full 20_260_101) synchronised
      held

abbrev daily : Daily
daily = record {
  enabled = true;
  dumping = dumping;
  sources = record { is_there = true; copies = false } ∷ [];
  fails = never;
  retention = retention;
  offsite = remote;
  restore_client = returns binary;
  listing = λ content. record { exit_code = 0; lines = false ∷ true ∷ [] };
  status_works = true;
}

abbrev world : World (List RemotePath)
world = record { root = root; remote = []; status = none }

run_full_backup_lem_example :
    (r : Report) × Judged mirror daily (run_full_backup mirror daily world) r
run_full_backup_lem_example = run_full_backup_lem mirror daily world refl refl

abbrev drill : ℕ → Drill
drill restored = record {
  has_dump = true;
  archive = returns (record { entries = 4; is_ok = true });
  client = returns binary;
  drop_first = works;
  create = works;
  restore = returns (record {
    exit_code = 0;
    error_lines = 0;
    rows = record { source = some 8; restored = some restored } ∷ [];
    source_tables = some 20;
    restored_tables = some 20;
  });
  drop_last = works;
}

verify_restore_lem_example :
    (IsTrue (verify_restore (drill 7) false).result ↔ Found (drill 7))
    × (works ≡ works → (verify_restore (drill 7) false).temporary ≡ false)
verify_restore_lem_example = verify_restore_lem (drill 7)

-- A user was purged after the dump: the restored table has a row more than the source.
purged_after_dump : (verify_restore (drill 9) false).result ≡ returns false
unfolding verify_restore is_verified
purged_after_dump = refl

-- The offsite command's result has no field `ok`.
offsite_exits_0 : run_cli true (replied none) ≡ 0
unfolding run_cli
offsite_exits_0 = refl
