-- ===== src/Backup/Prune.antt =====
-- `prune_dir` and `prune_backups` of services/backup_service.py.
use stock_invest_system.Prelude.{ℕ, ◌-◌, ◌*◌, Bool, List, [], ◌∷◌, ◌||◌, leb, ◌==◌, if◌then◌else◌}
use stock_invest_system.Backup.Folder.{Name, File}

pub record Pruned : Type 0 where
  pub removed : List Name
  pub kept : List File

abbrev pub keep : File → Pruned → Pruned
keep f p = record { removed = p.removed; kept = f ∷ p.kept }

abbrev drop_file : File → Pruned → Pruned
drop_file f p = record { removed = f.name ∷ p.removed; kept = p.kept }

-- Whether the age of a file can be read and the file be deleted is a parameter. What is deleted in part
-- only is taken to stay.
abbrev pub prune_before : (Name → Bool) → ℕ → List File → Pruned
prune_before fails cutoff [] = record { removed = []; kept = [] }
prune_before fails cutoff (f ∷ fs) =
    let rest = prune_before fails cutoff fs in
    if leb cutoff f.mtime || fails f.name then keep f rest else drop_file f rest

-- Times are in seconds. A cutoff before the time 0 is 0, before which there is no file.
unfoldable pub prune_dir : (Name → Bool) → ℕ → ℕ → List File → Pruned
prune_dir fails now retain_days fs =
    if retain_days == 0
    then record { removed = []; kept = fs }
    else prune_before fails (now - retain_days * 86_400) fs

-- The folders under the root.
pub record Root : Type 0 where
  pub full : List File
  pub base : List File
  pub wal : List File
  pub files : List File
  pub manifests : List File

pub record Retention : Type 0 where
  pub pg : ℕ
  pub base : ℕ
  pub wal : ℕ
  pub files : ℕ

unfoldable pub prune_backups : (Name → Bool) → ℕ → Retention → Root → Root
prune_backups fails now r root = record {
  full = (prune_dir fails now r.pg root.full).kept;
  base = (prune_dir fails now r.base root.base).kept;
  wal = (prune_dir fails now r.wal root.wal).kept;
  files = (prune_dir fails now r.files root.files).kept;
  manifests = (prune_dir fails now r.pg root.manifests).kept;
}
