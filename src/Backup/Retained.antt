-- ===== src/Backup/Retained.antt =====
-- How old the offsite copies get.
use stock_invest_system.Prelude.{
  ℕ, ◌≡◌, ◌⊎◌, ◌≤◌, ◌-◌, ◌*◌, inl, inr, refl, ap, sym, ◌∙◌, arith, Bool, true, false, ◌||◌, ◌==◌,
  leb, List, [], ◌∷◌, ◌++◌, Option, none, some, All, Bool-cases, by_test,
}
use stock_invest_system.Backup.Client.{returns}
use stock_invest_system.Backup.Folder.{Name, File, same_name}
use stock_invest_system.Backup.Prune.{
  Pruned, Root, Retention, prune_dir, prune_before, prune_backups,
}
use stock_invest_system.Backup.Offsite.{
  same_place, Place, pg_full, pg_base, pg_wal, mirrors, manifests, RemotePath, contains, paths_in,
  paths_of, Rclone, Settings, synced, sync_offsite, on_synced, on_deleted,
}

-- A file of a name, with a property.
abbrev pub Found : (File → Type 0) → Name → List File → Type 0
Found P n [] = ⊥
Found P n (f ∷ fs) = ((same_name n f.name ≡ true) × P f) ⊎ Found P n fs

abbrev pub Kept : (Name → Bool) → ℕ → ℕ → File → Type 0
Kept fails now days f = (days ≡ 0) ⊎ ((now - days * 86_400 ≤ f.mtime) ⊎ (fails f.name ≡ true))

All-same : (P : File → Type 0) (fs : List File) → ((f : File) → P f) → All P fs
All-same P [] h = tt
All-same P (f ∷ fs) h = (h f, All-same P fs h)

prune_before-Kept :
    (fails : Name → Bool) (now days : ℕ) (fs : List File)
    → All (Kept fails now days) (prune_before fails (now - days * 86_400) fs).kept
prune_before-Kept fails now days [] = tt
prune_before-Kept fails now days (f ∷ fs) =
    let rest = prune_before-Kept fails now days fs in
    let stays : (leb (now - days * 86_400) f.mtime || fails f.name) ≡ true → Kept fails now days f =
      λ e. ground (arith, e) in
    by_test (λ (z : Pruned). All (Kept fails now days) z.kept)
      (leb (now - days * 86_400) f.mtime || fails f.name) (λ e. (stays e, rest)) (λ e. rest)

prune_dir-Kept :
    (fails : Name → Bool) (now days : ℕ) (fs : List File)
    → All (Kept fails now days) (prune_dir fails now days fs).kept
unfolding prune_dir
prune_dir-Kept fails now days fs =
    by_test (λ (z : Pruned). All (Kept fails now days) z.kept) (days == 0)
      (λ e. All-same (Kept fails now days) fs (λ f. inl (ground (arith, e))))
      (λ e. prune_before-Kept fails now days fs)

contains-append :
    (p : RemotePath) (xs ys : List RemotePath)
    → contains p (xs ++ ys) ≡ true
    → (contains p xs ≡ true) ⊎ (contains p ys ≡ true)
contains-append p [] ys h = inr h
contains-append p (x ∷ xs) ys h = ground (arith, h, contains-append p xs ys)

abbrev dump_path : Name → RemotePath
dump_path n = record { place = pg_full; name = n }

contains-paths_in :
    (n : Name) (P : File → Type 0) (fs : List File)
    → All P fs
    → contains (dump_path n) (paths_in pg_full fs) ≡ true
    → Found P n fs
contains-paths_in n P [] all h = ground (arith, h)
contains-paths_in n P (f ∷ fs) (here, all) h = elim (Bool-cases (same_name n f.name)) [
  | inl e ↦ inl (e, here)
  | inr e ↦ inr (contains-paths_in n P fs all (ground (arith, e, h)))
]

-- A path to a dump stands in no other folder.
contains-elsewhere :
    (n : Name) (place : Place) (fs : List File)
    → same_place pg_full place ≡ false
    → contains (dump_path n) (paths_in place fs) ≡ true
    → ⊥
contains-elsewhere n place [] other h = ground (arith, h)
contains-elsewhere n place (f ∷ fs) other h =
    contains-elsewhere n place fs other (ground (arith, other, h))

contains-paths_of :
    (n : Name) (P : File → Type 0) (root : Root)
    → All P root.full
    → contains (dump_path n) (paths_of root) ≡ true
    → Found P n root.full
unfolding paths_of
contains-paths_of n P root all h =
    elim (contains-append (dump_path n) (paths_in pg_full root.full) _ h) [
      | inl here ↦ contains-paths_in n P root.full all here
      | inr h1 ↦ elim (contains-append (dump_path n) (paths_in pg_base root.base) _ h1) [
        | inl x ↦ absurd (contains-elsewhere n pg_base root.base refl x)
        | inr h2 ↦ elim (contains-append (dump_path n) (paths_in pg_wal root.wal) _ h2) [
          | inl x ↦ absurd (contains-elsewhere n pg_wal root.wal refl x)
          | inr h3 ↦ elim (contains-append (dump_path n) (paths_in mirrors root.files) _ h3) [
            | inl x ↦ absurd (contains-elsewhere n mirrors root.files refl x)
            | inr x ↦ absurd (contains-elsewhere n manifests root.manifests refl x)
          ]
        ]
      ]
    ]

module _ {T : Type 0} (k : Rclone T) where
  on_deleted-remote : (o : Option ℕ) (t : T) → (on_deleted k o t).remote ≡ t
  on_deleted-remote none t = refl
  on_deleted-remote (some code) t = refl

  on_synced-synced :
      (s : Settings) (o : Option ℕ) (t : T) (b : Bool)
      → (on_synced k s o t).result ≡ returns (synced b)
      → (o ≡ some 0) × ((on_synced k s o t).remote ≡ (k.delete_older s.retain_days t).remote)
  on_synced-synced s none t b h = ground (arith, h)
  on_synced-synced s (some code) t b h = elim (Bool-cases (code == 0)) [
    | inl e ↦
        let code0 : code ≡ 0 = ground (arith, e) in (ap some code0, rw e (on_deleted-remote _ _))
    | inr e ↦ ground (arith, e, h)
  ]

  sync_offsite-synced :
      (s : Settings) (root : Root) (t : T) (b : Bool)
      → (sync_offsite k s root t).result ≡ returns (synced b)
      → ((k.sync (paths_of root) t).exit_code ≡ some 0)
        × ((sync_offsite k s root t).remote
            ≡ (k.delete_older s.retain_days (k.sync (paths_of root) t).remote).remote)
  unfolding sync_offsite
  sync_offsite-synced s root t b h =
      let up = k.sync (paths_of root) t in
      elim (Bool-cases s.has_remote) [
        | inr e ↦ ground (arith, e, h)
        | inl e ↦ elim (Bool-cases s.has_binary) [
          | inr e' ↦ ground (arith, e, e', h)
          | inl e' ↦ ground (arith, e, e', h, on_synced-synced s up.exit_code up.remote b)
        ]
      ]

  -- Once the pruned folders are synchronised offsite, a dump that is held there is one of the local
  -- folder, as old at most as the local retention allows (if there is one and the file could be
  -- deleted), whatever the retention of the offsite copies is.
  pub sync_offsite-Kept :
      (fails : Name → Bool) (now : ℕ) (r : Retention) (s : Settings) (root : Root) (t : T)
      (b : Bool) (n : Name)
      → let local = prune_backups fails now r root in
        (sync_offsite k s local t).result ≡ returns (synced b)
        → k.holds (sync_offsite k s local t).remote (record { place = pg_full; name = n }) ≡ true
        → Found (Kept fails now r.pg) n local.full
  unfolding prune_backups
  sync_offsite-Kept fails now r s root t b n done held =
      let local = prune_backups fails now r root in
      let z = sync_offsite-synced s local t b done in
      let up = k.sync (paths_of local) t in
      let there = k.holds-delete_older s.retain_days up.remote (dump_path n) (rw z.1 at held) in
      contains-paths_of n (Kept fails now r.pg) local (prune_dir-Kept fails now r.pg root.full)
        (sym (k.holds-sync (paths_of local) t (dump_path n) z.0) ∙ there)
