-- ===== src/Backup/Full.antt =====
-- `backup_files`, `run_full_backup` and `run_cli` of services/backup_service.py.
use stock_invest_system.Prelude.{
  ℕ, Bool, true, false, List, [], ◌∷◌, Option, none, some, if◌then◌else◌,
}
use stock_invest_system.Backup.Client.{
  Result, returns, raises, Client, Listing, Archive, verify_archive,
}
use stock_invest_system.Backup.Folder.{Name, full, other, File, find}
use stock_invest_system.Backup.Dump.{Dumping, Entry, run_pg_dump, last_state}
use stock_invest_system.Backup.Prune.{Root, Retention, prune_backups}
use stock_invest_system.Backup.Offsite as Offsite
use stock_invest_system.Backup.Offsite.{Rclone, sync_offsite}

-- A directory to copy: whether it is there, and whether rsync or the copying works.
pub record Source : Type 0 where
  pub is_there : Bool
  pub copies : Bool

pub data SourceResult : Type 0 where
  skipped : SourceResult
  copy_failed : SourceResult
  mirrored : SourceResult

abbrev mirror : Source → SourceResult
mirror s = if s.is_there then (if s.copies then mirrored else copy_failed) else skipped

abbrev pub mirror_all : List Source → List SourceResult
mirror_all [] = []
mirror_all (s ∷ sources) = mirror s ∷ mirror_all sources

abbrev any_there : List Source → Bool
any_there [] = false
any_there (s ∷ sources) = if s.is_there then true else any_there sources

-- The folder of the day is made with the first mirror in it.
abbrev with_day : ℕ → ℕ → List File → List File
with_day day now fs = elim (find (other day) fs) [
  | none ↦ record { name = other day; content = 0; size = 0; mtime = now } ∷ fs
  | some f ↦ fs
]

abbrev pub files_after : ℕ → ℕ → List Source → List File → List File
files_after day now sources fs = if any_there sources then with_day day now fs else fs

-- What a daily backup meets.
pub record Daily : Type 0 where
  pub enabled : Bool
  pub dumping : Dumping
  pub sources : List Source
  pub fails : Name → Bool
  pub retention : Retention
  pub offsite : Offsite.Settings
  pub restore_client : Result Client
  pub listing : ℕ → Listing
  -- The manifest and the status, which are taken as one.
  pub status_works : Bool

pub record Report : Type 0 where
  pub dump : Result Entry
  pub files : List SourceResult
  pub offsite : Result Offsite.Offsite
  pub archive_check : Option (Result Archive)
  pub is_ok : Bool

pub record World (T : Type 0) : Type 0 where
  pub root : Root
  pub remote : T
  pub status : Option Report

-- The return of a backup that is switched off, or the report of one that is not.
pub data Backup : Type 0 where
  disabled : Backup
  reported : Report → Backup

pub record Backed (T : Type 0) : Type 0 where
  pub result : Result Backup
  pub world : World T

abbrev missing_file : ℕ
missing_file = 12

abbrev status_failed : ℕ
status_failed = 13

abbrev pub list_file : Daily → Option File → Result Archive
list_file d none = raises missing_file
list_file d (some f) = verify_archive d.restore_client (d.listing f.content)

-- The archive is only checked when the dump has given a path.
abbrev pub check_archive : Daily → Root → Result Entry → Option (Result Archive)
check_archive d root (raises e) = none
check_archive d root (returns entry) = some (list_file d (find (full entry.day) root.full))

-- The dump has a path, and the check of the archive no error.
abbrev pub verdict : Result Entry → Option (Result Archive) → Bool
verdict (returns entry) (some (returns a)) = true
verdict dump check = false

-- After the dump, the mirrors and the pruning.
unfoldable pub prepared : Daily → Root → Root
prepared d root = prune_backups d.fails d.dumping.now d.retention (record root {
  full = last_state (run_pg_dump d.dumping root.full).states root.full;
  files = files_after d.dumping.day d.dumping.now d.sources root.files;
})

unfoldable pub report : Daily → Root → Result Offsite.Offsite → Report
report d root offsite =
    let dump = (run_pg_dump d.dumping root.full).result in
    let check = check_archive d (prepared d root) dump in
    record {
      dump = dump;
      files = mirror_all d.sources;
      offsite = offsite;
      archive_check = check;
      is_ok = verdict dump check;
    }

abbrev with_manifest : ℕ → Root → Root
with_manifest now root = record root {
  manifests = record { name = other now; content = 0; size = 0; mtime = now } ∷ root.manifests;
}

module _ {T : Type 0} (k : Rclone T) where
  -- Whether backups are on, and whether the status can be written.
  abbrev pub run_steps : Daily → World T → Bool → Bool → Backed T
  run_steps d w false status = record { result = returns disabled; world = w }
  run_steps d w true true =
      let root = prepared d w.root in
      let z = sync_offsite k d.offsite root w.remote in
      let r = report d w.root z.result in
      record {
        result = returns (reported r);
        world = record {
          root = with_manifest d.dumping.now root;
          remote = z.remote;
          status = some r;
        };
      }
  run_steps d w true false =
      let root = prepared d w.root in
      record {
        result = raises status_failed;
        world = record {
          root = root;
          remote = (sync_offsite k d.offsite root w.remote).remote;
          status = w.status;
        };
      }

  unfoldable pub run_full_backup : Daily → World T → Backed T
  run_full_backup d w = run_steps d w d.enabled d.status_works

-- What a command of the command line comes to: its result, with the field `ok` if it has one, or a
-- `BackupError`.
pub data Reply : Type 0 where
  replied : Option Bool → Reply
  backup_error : Reply

-- The exit code; the first argument is whether the command is one of the handlers.
unfoldable pub run_cli : Bool → Reply → ℕ
run_cli false reply = 2
run_cli true backup_error = 1
run_cli true (replied none) = 0
run_cli true (replied (some is_ok)) = if is_ok then 0 else 1
