-- ===== src/Backup/Folder.antt =====
-- The folders that services/backup_service.py writes to.
use stock_invest_system.Prelude.{
  ℕ, Bool, false, List, [], ◌∷◌, Option, none, some, ltb, ◌==◌, if◌then◌else◌,
}

-- `full_YYYYMMDD.dump`, by its day, the same with `.part`, and any other name.
pub data Name : Type 0 where
  full : ℕ → Name
  part : ℕ → Name
  other : ℕ → Name

abbrev pub same_name : Name → Name → Bool
same_name (full a) (full b) = a == b
same_name (part a) (part b) = a == b
same_name (other a) (other b) = a == b
same_name a b = false

-- A file, or a directory with all that is in it. The content is a number.
pub record File : Type 0 where
  pub name : Name
  pub content : ℕ
  pub size : ℕ
  pub mtime : ℕ

abbrev pub find : Name → List File → Option File
find n [] = none
find n (f ∷ fs) = if same_name n f.name then some f else find n fs

abbrev pub remove : Name → List File → List File
remove n [] = []
remove n (f ∷ fs) = let rest = remove n fs in if same_name n f.name then rest else f ∷ rest

-- A file takes the place of the one of its name.
abbrev pub put : File → List File → List File
put f fs = f ∷ remove f.name fs

-- The one of two finished dumps that is last by its name; the second name is that of the second.
abbrev pub newer : File → ℕ → File → Name → File
newer f day g (full day') = if ltb day' day then f else g
newer f day g n = f

abbrev pub latest_of : File → Name → Option File → Option File
latest_of f (full day) none = some f
latest_of f (full day) (some g) = some (newer f day g g.name)
latest_of f n o = o

-- The last by its name, which is the order of the days, of the finished dumps.
unfoldable pub latest_dump : List File → Option File
latest_dump [] = none
latest_dump (f ∷ fs) = latest_of f f.name (latest_dump fs)
