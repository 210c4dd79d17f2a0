-- ===== src/Backup/Offsite.antt =====
-- `sync_offsite` of services/backup_service.py, over an interface of rclone.
use stock_invest_system.Prelude.{
  ℕ, ◌≡◌, Bool, true, false, ◌&&◌, ◌||◌, List, [], ◌∷◌, ◌++◌, Option, none, some, ◌==◌,
  if◌then◌else◌,
}
use stock_invest_system.Backup.Client.{Result, returns, raises}
use stock_invest_system.Backup.Folder.{Name, same_name, File}
use stock_invest_system.Backup.Prune.{Root}

-- The folders under the root.
pub data Place : Type 0 where
  pg_full : Place
  pg_base : Place
  pg_wal : Place
  mirrors : Place
  manifests : Place

abbrev pub same_place : Place → Place → Bool
same_place pg_full pg_full = true
same_place pg_base pg_base = true
same_place pg_wal pg_wal = true
same_place mirrors mirrors = true
same_place manifests manifests = true
same_place a b = false

pub record RemotePath : Type 0 where
  pub place : Place
  pub name : Name

abbrev pub same_path : RemotePath → RemotePath → Bool
same_path a b = same_place a.place b.place && same_name a.name b.name

abbrev pub contains : RemotePath → List RemotePath → Bool
contains p [] = false
contains p (q ∷ qs) = same_path p q || contains p qs

abbrev pub paths_in : Place → List File → List RemotePath
paths_in place [] = []
paths_in place (f ∷ fs) = record { place = place; name = f.name } ∷ paths_in place fs

unfoldable pub paths_of : Root → List RemotePath
paths_of root =
    paths_in pg_full root.full
    ++ (paths_in pg_base root.base
        ++ (paths_in pg_wal root.wal
            ++ (paths_in mirrors root.files ++ paths_in manifests root.manifests)))

-- A command of rclone: its exit code, `none` when it runs past its time, and what it leaves.
pub record Ran (T : Type 0) : Type 0 where
  pub exit_code : Option ℕ
  pub remote : T

pub record Rclone (T : Type 0) : Type 0 where
  pub holds : T → RemotePath → Bool
  pub sync : List RemotePath → T → Ran T
  pub delete_older : ℕ → T → Ran T
  -- `rclone sync` makes the remote like the local folder.
  pub holds-sync :
      (paths : List RemotePath) (t : T) (p : RemotePath)
      → (sync paths t).exit_code ≡ some 0
      → holds (sync paths t).remote p ≡ contains p paths
  -- `rclone delete` adds nothing.
  pub holds-delete_older :
      (days : ℕ) (t : T) (p : RemotePath)
      → holds (delete_older days t).remote p ≡ true
      → holds t p ≡ true

pub record Settings : Type 0 where
  pub has_remote : Bool
  pub has_binary : Bool
  pub retain_days : ℕ

-- The modes of the result, with whether the old objects could be deleted.
pub data Offsite : Type 0 where
  simulated : Offsite
  sync_failed : Offsite
  synced : Bool → Offsite

pub record Synced (T : Type 0) : Type 0 where
  pub result : Result Offsite
  pub remote : T

abbrev rclone_timed_out : ℕ
rclone_timed_out = 11

module _ {T : Type 0} (k : Rclone T) where
  abbrev pub on_deleted : Option ℕ → T → Synced T
  on_deleted none t = record { result = raises rclone_timed_out; remote = t }
  on_deleted (some code) t = record { result = returns (synced (code == 0)); remote = t }

  abbrev pub delete_old : Settings → T → Synced T
  delete_old s t = let old = k.delete_older s.retain_days t in on_deleted old.exit_code old.remote

  abbrev pub on_synced : Settings → Option ℕ → T → Synced T
  on_synced s none t = record { result = raises rclone_timed_out; remote = t }
  on_synced s (some code) t =
      if code == 0 then delete_old s t else record { result = returns sync_failed; remote = t }

  unfoldable pub sync_offsite : Settings → Root → T → Synced T
  sync_offsite s root t =
      let up = k.sync (paths_of root) t in
      if s.has_remote
      then (if s.has_binary
          then on_synced s up.exit_code up.remote
          else record { result = returns sync_failed; remote = t })
      else record { result = returns simulated; remote = t }
