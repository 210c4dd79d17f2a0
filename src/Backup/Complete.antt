-- ===== src/Backup/Complete.antt =====
-- What stands in the folder of the dumps under the name of a finished one.
use stock_invest_system.Prelude.{
  ℕ, ◌≡◌, ap, arith, List, [], ◌∷◌, Option, none, some, All, Bool-cases, by_test, inl, inr, ltb,
  not, ◌||◌, ◌==◌,
}
use stock_invest_system.Backup.Client.{Result, returns, raises, Client, check_client_version}
use stock_invest_system.Backup.Folder.{
  Name, full, part, other, File, same_name, remove, newer, latest_of, latest_dump,
}
use stock_invest_system.Backup.Dump.{
  Ended, exited, timed_out, Dumping, Dumped, run_pg_dump, opened, written, finish_dump,
  dump_checked,
}

module _ (IsComplete : ℕ → Type 0) where
  abbrev WholeAs : Name → ℕ → Type 0
  WholeAs (full day) content = IsComplete content
  WholeAs n content = Unit

  abbrev pub Whole : File → Type 0
  Whole f = WholeAs f.name f.content

  abbrev pub LatestWhole : Option File → Type 0
  LatestWhole none = Unit
  LatestWhole (some f) = IsComplete f.content

  remove-Whole : (n : Name) (fs : List File) → All Whole fs → All Whole (remove n fs)
  remove-Whole n [] h = tt
  remove-Whole n (f ∷ fs) (here, h) = elim (Bool-cases (same_name n f.name)) [
    | inl e ↦ rw e (remove-Whole n fs h)
    | inr e ↦ rw e (here, remove-Whole n fs h)
  ]

  newer-Whole :
      (f : File) (day : ℕ) (g : File) (n : Name)
      → IsComplete f.content
      → IsComplete g.content
      → IsComplete (newer f day g n).content
  newer-Whole f day g (full day') c h =
      by_test (λ (x : File). IsComplete x.content) (ltb day' day) (λ e. c) (λ e. h)
  newer-Whole f day g (part day') c h = c
  newer-Whole f day g (other n) c h = c

  latest_of-Whole :
      (f : File) (n : Name) (o : Option File)
      → WholeAs n f.content
      → LatestWhole o
      → LatestWhole (latest_of f n o)
  latest_of-Whole f (full day) none c h = c
  latest_of-Whole f (full day) (some g) c h = newer-Whole f day g g.name c h
  latest_of-Whole f (part day) o c h = h
  latest_of-Whole f (other n) o c h = h

  latest_dump-Whole : (fs : List File) → All Whole fs → LatestWhole (latest_dump fs)
  unfolding latest_dump
  latest_dump-Whole [] h = tt
  latest_dump-Whole (f ∷ fs) (here, h) =
      latest_of-Whole f f.name (latest_dump fs) here (latest_dump-Whole fs h)

  abbrev pub Sound : List File → Type 0
  Sound fs = All Whole fs × LatestWhole (latest_dump fs)

  Sound-Whole : (fs : List File) → All Whole fs → Sound fs
  Sound-Whole fs h = (h, latest_dump-Whole fs h)

  opened-Whole : (d : Dumping) (fs : List File) → All Whole fs → All Whole (opened d fs)
  opened-Whole d fs h = (tt, remove-Whole (part d.day) fs h)

  written-Whole : (d : Dumping) (fs : List File) → All Whole fs → All Whole (written d fs)
  written-Whole d fs h = (tt, remove-Whole (part d.day) fs h)

  during :
      (d : Dumping) (fs : List File) → All Whole fs → All Sound (written d fs ∷ opened d fs ∷ [])
  during d fs h = (
    Sound-Whole (written d fs) (written-Whole d fs h),
    (Sound-Whole (opened d fs) (opened-Whole d fs h), tt),
  )

  finish_dump-Sound :
      (d : Dumping) (fs : List File) (e : Ended)
      → All Whole fs
      → (e ≡ exited 0 → IsComplete d.content)
      → All Sound (finish_dump d fs e).states
  finish_dump-Sound d fs timed_out h c = during d fs h
  finish_dump-Sound d fs (exited code) h c =
      let rest = remove-Whole (part d.day) (written d fs) (written-Whole d fs h) in
      by_test (λ (z : Dumped). All Sound z.states) (not (code == 0) || d.size == 0)
        (λ e. (Sound-Whole _ rest, during d fs h))
        (λ e.
          let code0 : code ≡ 0 = ground (arith, e) in
          (Sound-Whole _ (c (ap exited code0), remove-Whole (full d.day) _ rest), during d fs h))

  -- If pg_dump has written a whole dump when it exits with 0, and each file with the name of a dump is
  -- a whole dump before, then so it is after each change of the folder that `run_pg_dump` makes, on
  -- every branch, also where it is cut short between them; and then so is the latest dump.
  pub run_pg_dump-Sound :
      (d : Dumping) (fs : List File)
      → All Whole fs
      → (d.ended ≡ exited 0 → IsComplete d.content)
      → All Sound (run_pg_dump d fs).states
  unfolding run_pg_dump
  run_pg_dump-Sound d fs h c = go (check_client_version d.client d.versions)
    where
      go : (r : Result Client) → All Sound (dump_checked d fs r).states
      go (raises e) = tt
      go (returns x) =
          by_test (λ (z : Dumped). All Sound z.states) d.opens
            (λ o. finish_dump-Sound d fs d.ended h c) (λ o. tt)
