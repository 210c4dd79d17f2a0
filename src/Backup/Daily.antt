-- ===== src/Backup/Daily.antt =====
-- When a daily backup counts as good, and what is then there.
use stock_invest_system.Prelude.{
  ℕ, ◌⊎◌, ◌≡◌, ◌↔◌, ◌<◌, ◌-◌, ◌*◌, inl, inr, refl, ap, sym, ◌∙◌, subst, arith, Bool, true, not,
  ◌||◌, ◌==◌, leb, List, ◌∷◌, some, Bool-cases, by_test,
}
use stock_invest_system.Backup.Client.{
  Result, returns, raises, Client, Listing, Archive, check_client_version, verify_archive,
}
use stock_invest_system.Backup.Folder.{Name, full, part, File, find, put, remove, same_name}
use stock_invest_system.Backup.Dump.{
  Ended, exited, timed_out, Dumping, Dumped, Entry, entry_of, file_of, written, finish_dump,
  dump_checked, run_pg_dump, last_state,
}
use stock_invest_system.Backup.Prune.{Root, prune_dir, prune_backups}
use stock_invest_system.Backup.Offsite.{Offsite, Rclone, sync_offsite}
use stock_invest_system.Backup.Full.{
  Daily, Report, World, reported, verdict, prepared, report, Backed, run_steps, run_full_backup,
}

-- pg_dump is not too old, its file can be opened, it ends in time with 0, and it has written something.
abbrev pub IsDumped : Dumping → Type 0
IsDumped d =
    ((c : Client) × (check_client_version d.client d.versions ≡ returns c))
    × (d.opens ≡ true)
    × (d.ended ≡ exited 0)
    × (0 < d.size)

abbrev dump_file : Dumping → File
dump_file d = file_of d (full d.day) d.content d.size

abbrev Stored : Dumping → List File → Dumped → Type 0
Stored d fs z =
    (z.result ≡ returns (entry_of d))
    × (last_state z.states fs ≡ put (dump_file d) (remove (part d.day) (written d fs)))

-- Either all of it, or an error.
abbrev Decided : Dumping → List File → Type 0 → Dumped → Type 0
Decided d fs Good z = (Good × Stored d fs z) ⊎ ((¬ Good) × ((e : ℕ) × (z.result ≡ raises e)))

finish_dump-Decided :
    (d : Dumping) (fs : List File) (e : Ended)
    → Decided d fs ((e ≡ exited 0) × (0 < d.size)) (finish_dump d fs e)
finish_dump-Decided d fs timed_out = inr ((λ h. ground (arith, h)), (9, refl))
finish_dump-Decided d fs (exited code) =
    by_test (Decided d fs ((exited code ≡ exited 0) × (0 < d.size)))
      (not (code == 0) || d.size == 0) (λ e. inr ((λ h. ground (arith, e, h)), (10, refl)))
      (λ e.
        let code0 : code ≡ 0 = ground (arith, e) in
        inl ((ap exited code0, ground (arith, e)), (refl, refl)))

dump_checked-Decided :
    (d : Dumping) (fs : List File) (r : Result Client)
    → Decided d fs
        (((c : Client) × (r ≡ returns c)) × (d.opens ≡ true) × (d.ended ≡ exited 0) × (0 < d.size))
        (dump_checked d fs r)
dump_checked-Decided d fs (raises e) = inr ((λ h. ground (arith, h)), (e, refl))
dump_checked-Decided d fs (returns c) =
    by_test
      (Decided d fs (
        ((c' : Client) × (returns c ≡ returns c'))
        × (d.opens ≡ true)
        × (d.ended ≡ exited 0)
        × (0 < d.size)))
      d.opens
      (λ o. elim (finish_dump-Decided d fs d.ended) [
        | inl (g, s) ↦ inl (((c, refl), o, g.0, g.1), s)
        | inr (bad, x) ↦ inr ((λ h. bad (h.2, h.3)), x)
      ])
      (λ o. inr ((λ h. ground (arith, o, h)), (8, refl)))

run_pg_dump-Decided : (d : Dumping) (fs : List File) → Decided d fs (IsDumped d) (run_pg_dump d fs)
unfolding run_pg_dump
run_pg_dump-Decided d fs = dump_checked-Decided d fs (check_client_version d.client d.versions)

find-prune_dir :
    (fails : Name → Bool) (now days : ℕ) (n : Name) (f : File) (fs : List File)
    → same_name n f.name ≡ true
    → f.mtime ≡ now
    → find n (prune_dir fails now days (f ∷ fs)).kept ≡ some f
unfolding prune_dir
find-prune_dir fails now days n f fs same new = elim (Bool-cases (days == 0)) [
  | inl e ↦ rw (e, same) refl
  | inr e ↦
      let young : leb (now - days * 86_400) f.mtime ≡ true = ground (arith, new) in
      rw (e, young, same) refl
]

check_iff :
    (r : Result Client) (l : Listing)
    → ((a : Archive) × (verify_archive r l ≡ returns a))
      ↔ (((c : Client) × (r ≡ returns c)) × (l.exit_code ≡ 0))
unfolding verify_archive
check_iff (raises e) l = ground arith
check_iff (returns c) l = elim (Bool-cases (l.exit_code == 0)) [
  | inl e ↦ rw e ((λ h. ((c, refl), ground (arith, e))), λ h. (_, refl))
  | inr e ↦ rw e ((λ h. ground (arith, h)), λ h. ground (arith, e, h))
]

verdict_iff :
    (e : Entry) (r : Result Archive)
    → (verdict (returns e) (some r) ≡ true) ↔ ((a : Archive) × (r ≡ returns a))
verdict_iff e (returns a) = ((λ h. (a, refl)), λ h. refl)
verdict_iff e (raises x) = ground arith

-- `pg_restore --list` can be run on what pg_dump wrote, and ends with 0.
abbrev pub IsListed : Daily → Type 0
IsListed d =
    ((c : Client) × (d.restore_client ≡ returns c)) × ((d.listing d.dumping.content).exit_code ≡ 0)

module _ (d : Daily) (root : Root) where
  find-prepared :
      (fs : List File)
      → last_state (run_pg_dump d.dumping root.full).states root.full ≡ put (dump_file d.dumping) fs
      → find (full d.dumping.day) (prepared d root).full ≡ some (dump_file d.dumping)
  unfolding prepared prune_backups
  find-prepared fs e =
      let same : same_name (full d.dumping.day) (full d.dumping.day) ≡ true = ground arith in
      rw e (
        find-prune_dir d.fails d.dumping.now d.retention.pg (full d.dumping.day)
          (dump_file d.dumping) (remove (full d.dumping.day) fs) same refl)

  found-prepared :
      IsDumped d.dumping
      → find (full d.dumping.day) (prepared d root).full ≡ some (dump_file d.dumping)
  found-prepared good = elim (run_pg_dump-Decided d.dumping root.full) [
    | inr (bad, x) ↦ absurd (bad good)
    | inl (g, (res, st)) ↦
        find-prepared (remove (part d.dumping.day) (written d.dumping root.full)) st
  ]

  report-good :
      (offsite : Result Offsite)
      → ((report d root offsite).is_ok ≡ true) ↔ (IsDumped d.dumping × IsListed d)
  unfolding report
  report-good offsite = elim (run_pg_dump-Decided d.dumping root.full) [
    | inr (bad, (e, res)) ↦ rw res ((λ h. ground (arith, h)), λ h. absurd (bad h.0))
    | inl (good, (res, st)) ↦
        let there = find-prepared (remove (part d.dumping.day) (written d.dumping root.full)) st in
        let v =
          verdict_iff (entry_of d.dumping)
            (verify_archive d.restore_client (d.listing d.dumping.content)) in
        let c = check_iff d.restore_client (d.listing d.dumping.content) in
        rw (res, there) ((λ h. (good, c.0 (v.0 h))), λ h. v.1 (c.1 h.1))
  ]

module _ {T : Type 0} (k : Rclone T) where
  abbrev pub Judged : Daily → Backed T → Report → Type 0
  Judged d z r =
      (z.result ≡ returns (reported r))
      × (z.world.status ≡ some r)
      × ((r.is_ok ≡ true) ↔ (IsDumped d.dumping × IsListed d))
      × (IsDumped d.dumping
          → find (full d.dumping.day) z.world.root.full
            ≡ some (file_of d.dumping (full d.dumping.day) d.dumping.content d.dumping.size))

  -- A daily backup that is switched on, and can write its status, reports what it writes there. It
  -- reports success exactly when pg_dump is not too old, ends in time with 0 and has written something,
  -- and `pg_restore --list` can be run on what it wrote and ends with 0, whatever the other steps come
  -- to. A dump that has come about is in its folder in the end, under its day: the pruning with any
  -- retention lets it stand.
  pub run_full_backup_lem :
      (d : Daily) (w : World T)
      → d.enabled ≡ true
      → d.status_works ≡ true
      → (r : Report) × Judged d (run_full_backup k d w) r
  unfolding run_full_backup
  run_full_backup_lem d w on works =
      let z = sync_offsite k d.offsite (prepared d w.root) w.remote in
      let r = report d w.root z.result in
      let steps : run_full_backup k d w ≡ run_steps k d w true true =
        ap (λ b. run_steps k d w b d.status_works) on ∙ ap (run_steps k d w true) works in
      (
        r,
        subst (λ x. Judged d x r) (sym steps)
            (refl, refl, report-good d w.root z.result, λ good. found-prepared d w.root good),
      )
