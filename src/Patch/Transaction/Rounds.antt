-- ===== src/Patch/Transaction/Rounds.antt =====
-- patch.go, `ApplyAtomic`: what becomes of one file that existed before, in each round and in the end.
use ikemen_devtools.Prelude.{
  ℕ, ◌+◌, ◌≤◌, ◌≡◌, refl, sym, ap, ◌∙◌, ◌⊎◌, inl, inr, arith, false, Option, none, some, List, [],
  ◌∷◌, ◌++◌, Bool-cases, if◌then◌else◌,
}
use mathlib.Core.Path.{subst}
use ikemen_devtools.Prelude.Text.{Bytes, bytes_eq, bytes_eq_refl, bytes_eq_sym, eq_of_bytes_eq}
use ikemen_devtools.Patch.Paths.{Links}
use ikemen_devtools.Patch.Prepare.{FilePreview}
use ikemen_devtools.Patch.Transaction.{
  File, Files, Disk, Faults, tick, after, op, put, erase, remove, stat, rename, backup_of, Temp,
  Outcome, TransactionError, at_journal, at_validate, at_stage, at_backup, at_replace, mode_at,
  attempt, fail, Next, swap_in, back_up, drop_staged, stage_file, create_temp, replace_file,
}
use ikemen_devtools.Patch.Transaction.Steps.{
  op-rule, ignored-rule, write_journal-rule, put_other, put_own, erase_other, moved_other, moved_to,
  rename-eq, stat-eq, present-ne-absent, backup_of-ne,
}
use ikemen_devtools.Patch.Transaction.Rollback.{
  count, count-snoc, Apart, AllApart, AllApart-snoc, Saved, Saved-Same, Same, Same-refl, Same-trans,
  Same-erase, Same-rename,
}

some_inj : {a b : Files} → Path (Option Files) (some a) (some b) → a ≡ b
some_inj e = ground arith

-- What `os.CreateTemp` promises: the name is new, and it is no backup's name.
pub record NewNames (temp : Temp) : Type 0 where
  pub is_new : (files : Files) (path name : Bytes) → temp files path ≡ some name → files name ≡ none
  pub no_backup :
      (files : Files) (path name p : Bytes)
      → temp files path ≡ some name
      → bytes_eq (backup_of p) name ≡ false

Same-put :
    (q p : Bytes) (f : File) (files : Files)
    → bytes_eq q p ≡ false
    → bytes_eq (backup_of q) p ≡ false
    → Same q files (put p f files)
Same-put q p f files h k = record {
  own = put_other p q f files h;
  copy = put_other p (backup_of q) f files k;
}

-- The file `q` holds `v` now: what it held before, or something newer while its backup holds that.
pub record At (q : Bytes) (old : File) (away : List Bytes) (v : File) (files : Files) : Type 0 where
  pub here : files q ≡ some v
  pub stands :
      ((count q away ≡ 0) × (v ≡ old)) ⊎ ((count q away ≡ 1) × (files (backup_of q) ≡ some old))

At-Saved :
    (q : Bytes) (old v : File) (away : List Bytes) (files : Files)
    → At q old away v files
    → Saved q old away files
At-Saved q old v away files h = elim h.stands [
  | inl (n, e) ↦ inl (n, h.here ∙ ap some e)
  | inr k ↦ inr k
]

At-Same :
    (q : Bytes) (old v : File) (away : List Bytes) (a b : Files)
    → Same q a b
    → At q old away v a
    → At q old away v b
At-Same q old v away a b s h = record {
  here = s.own ∙ h.here;
  stands = elim h.stands [ inl k ↦ inl k | inr (n, k) ↦ inr (n, s.copy ∙ k) ];
}

-- What the file `q`, which held `old` in the beginning, holds behind a preview whose place is `place`.
abbrev pub next_file : Bytes → File → Option Bytes → FilePreview → File → File
next_file q old none f v = v
next_file q old (some p) f v =
    if bytes_eq q p then record { bytes = f.bytes; mode = old.mode } else v

abbrev pub hits : Bytes → Option Bytes → ℕ
hits q none = 0
hits q (some p) = if bytes_eq q p then 1 else 0

abbrev pub ApartAt : Bytes → Option Bytes → Type 0
ApartAt q none = Unit
ApartAt q (some p) = Apart q p

module _ (links : Links) (temp : Temp) (faults undo : Faults) (root q : Bytes) (old : File)
    (Q : Outcome → Type 0)
    (failing : (e : TransactionError) (away : List Bytes) (d : Disk)
      → AllApart q away
      → Saved q old away d.files
      → Q (fail undo e away d)) where
  module _ (away : List Bytes) (path name : Bytes) (apart : AllApart q away)
      (own_name : bytes_eq q name ≡ false) (copy_name : bytes_eq (backup_of q) name ≡ false) where
    drop_staged-Q :
        (d : Disk)
        → Saved q old away d.files
        → Q (drop_staged links temp faults undo root away name d)
    unfolding drop_staged
    drop_staged-Q d h =
        ignored-rule (λ d1. Q (fail undo at_stage away d1)) faults d (remove name)
          (λ files e.
            let eq : erase name d.files ≡ files = ground arith in
            failing at_stage away (after d files) apart (
              Saved-Same q old away d.files files
                (subst (Same q d.files) eq (Same-erase q name d.files own_name copy_name)) h))
          (failing at_stage away (tick d) apart h)

    -- The staging leaves the file and its backup alone, and hands on the staged file.
    stage_file-Q :
        (f : FilePreview) (mode : ℕ) (next : Next links temp faults undo root) (d : Disk)
        → Saved q old away d.files
        → ((d' : Disk)
            → Same q d.files d'.files
            → d'.files name ≡ some (record { bytes = f.bytes; mode = mode })
            → Q (back_up links temp faults undo root away path name next d'))
        → Q (stage_file links temp faults undo root away path name f mode next d)
    unfolding stage_file
    stage_file-Q f mode next d h go =
        let drop : (d' : Disk)
            → Same q d.files d'.files
            → Q (drop_staged links temp faults undo root away name d') =
          λ d' s. drop_staged-Q d' (Saved-Same q old away d.files d'.files s h) in
        let close : (d' : Disk)
            → Same q d.files d'.files
            → Q (
                drop_staged links temp faults undo root away name
                  (op faults (λ files. some files) d').1) =
          λ d' s.
            ignored-rule (λ d2. Q (drop_staged links temp faults undo root away name d2)) faults d'
              (λ files. some files)
              (λ files e.
                let eq : d'.files ≡ files = ground arith in
                drop (after d' files) (subst (Same q d.files) eq s))
              (drop (tick d') s) in
        op-rule Q faults d _ _ _
          (λ files1 e1.
            let s1 : Same q d.files files1 =
              subst (Same q d.files) (some_inj e1) (Same-put q name _ d.files own_name copy_name) in
            op-rule Q faults (after d files1) _ _ _
              (λ files2 e2.
                let s2 = subst (Same q d.files) (some_inj e2) s1 in
                op-rule Q faults (after (after d files1) files2) _ _ _
                  (λ files3 e3.
                    let s3 = subst (Same q d.files) (some_inj e3) s2 in
                    op-rule Q faults (after (after (after d files1) files2) files3) _ _ _
                      (λ files4 e4.
                        let s4 =
                          subst (Same q files3) (some_inj e4)
                            (Same-put q name _ files3 own_name copy_name) in
                        go (after (after (after (after d files1) files2) files3) files4)
                          (Same-trans q d.files files3 files4 s3 s4)
                          (subst (λ fs. fs name ≡ some (record { bytes = f.bytes; mode = mode }))
                            (some_inj e4) (put_own name _ files3)))
                      (drop (tick (after (after (after d files1) files2) files3)) s3))
                  (drop (tick (after (after d files1) files2)) s2))
              (close (tick (after d files1)) s1))
          (close (tick d) (Same-refl q d.files))

    drop_name :
        (e : TransactionError) (d : Disk)
        → Saved q old away d.files
        → Q (fail undo e away (op faults (remove name) d).1)
    drop_name e d h =
        ignored-rule (λ d1. Q (fail undo e away d1)) faults d (remove name)
          (λ files r. failing e away (after d files) apart (
            Saved-Same q old away d.files files
              (subst (Same q d.files) (some_inj r) (Same-erase q name d.files own_name copy_name))
              h))
          (failing e away (tick d) apart h)

    module _ (between : Apart q path) where
      all_apart : AllApart q (away ++ path ∷ [])
      all_apart = AllApart-snoc q away path apart between

      -- Another file is swapped in.
      swap_in_other-Q :
          (next : Next links temp faults undo root) (v : File) (d : Disk)
          → bytes_eq q path ≡ false
          → At q old (away ++ path ∷ []) v d.files
          → ((d' : Disk)
              → At q old (away ++ path ∷ []) v d'.files
              → Q (next (away ++ path ∷ []) d'))
          → Q (swap_in links temp faults undo root (away ++ path ∷ []) path name next d)
      unfolding swap_in
      swap_in_other-Q next v d ne h go =
          write_journal-rule Q faults _ d _ _
            (op-rule Q faults _ _ _ (rename name path)
              (λ files e. go _ (
                At-Same q old v _ d.files files
                  (Same-rename q name path d.files files e own_name ne copy_name between.backup_not)
                  h))
              (failing at_replace _ _ all_apart (At-Saved q old v _ d.files h)))
            (failing at_journal _ _ all_apart (At-Saved q old v _ d.files h))

      back_up_other-Q :
          (next : Next links temp faults undo root) (v : File) (d : Disk)
          → bytes_eq q path ≡ false
          → At q old away v d.files
          → ((d' : Disk)
              → At q old (away ++ path ∷ []) v d'.files
              → Q (next (away ++ path ∷ []) d'))
          → Q (back_up links temp faults undo root away path name next d)
      unfolding back_up
      back_up_other-Q next v d ne h go =
          let copies = backup_of-ne q path ne in
          let counted : count q (away ++ path ∷ []) ≡ count q away =
            count-snoc q away path ∙ ground (arith, ne) in
          let moved_on : (files : Files)
              → At q old away v files
              → At q old (away ++ path ∷ []) v files =
            λ files a. record { here = a.here; stands = rw counted a.stands } in
          let rename_it : (d1 : Disk)
              → At q old away v d1.files
              → Q (
                  attempt (op faults (rename path (backup_of path)) d1)
                    (swap_in links temp faults undo root (away ++ path ∷ []) path name next)
                    (λ d2. fail undo at_backup away (op faults (remove name) d2).1)) =
            λ d1 a.
              op-rule Q faults d1 _ _ (rename path (backup_of path))
                (λ files e.
                  swap_in_other-Q next v (after d1 files) ne
                    (moved_on files (
                      At-Same q old v away d1.files files
                        (Same-rename q path (backup_of path) d1.files files e ne between.not_backup
                          between.backup_not copies)
                        a))
                    go)
                (drop_name at_backup (tick d1) (At-Saved q old v away d1.files a)) in
          ignored-rule
            (λ d1. Q (
              attempt (op faults (rename path (backup_of path)) d1)
                (swap_in links temp faults undo root (away ++ path ∷ []) path name next)
                (λ d2. fail undo at_backup away (op faults (remove name) d2).1)))
            faults d (remove (backup_of path))
            (λ files e. rename_it (after d files) (
              At-Same q old v away d.files files
                (subst (Same q d.files) (some_inj e)
                  (Same-erase q (backup_of path) d.files between.not_backup copies))
                h))
            (rename_it (tick d) h)

  module _ (own : Apart q q) (away : List Bytes) (name : Bytes) (apart : AllApart q away)
      (own_name : bytes_eq q name ≡ false) (copy_name : bytes_eq (backup_of q) name ≡ false)
      (first : count q away ≡ 0) where
    now_one : count q (away ++ q ∷ []) ≡ 1
    now_one = count-snoc q away q ∙ ground (arith, bytes_eq_refl q)

    away_apart : AllApart q (away ++ q ∷ [])
    away_apart = AllApart-snoc q away q apart own

    -- The file itself is swapped in: its backup holds the old one.
    swap_in_own-Q :
        (next : Next links temp faults undo root) (v : File) (d : Disk)
        → d.files (backup_of q) ≡ some old
        → d.files name ≡ some v
        → ((d' : Disk) → At q old (away ++ q ∷ []) v d'.files → Q (next (away ++ q ∷ []) d'))
        → Q (swap_in links temp faults undo root (away ++ q ∷ []) q name next d)
    unfolding swap_in
    swap_in_own-Q next v d h at_name go =
        write_journal-rule Q faults _ d _ _
          (op-rule Q faults _ _ _ (rename name q)
            (λ files e.
              let (g, at, eq) = rename-eq name q d.files files e in
              let same : g ≡ v = ground arith in
              go _ (record {
                here =
                    subst (λ fs. fs q ≡ some v) (sym eq) (moved_to name q g d.files ∙ ap some same);
                stands = inr (
                  now_one,
                  subst (λ fs. fs (backup_of q) ≡ some old) (sym eq)
                      (moved_other name q (backup_of q) g d.files copy_name own.backup_not ∙ h),
                );
              }))
            (failing at_replace _ _ away_apart (inr (now_one, h))))
          (failing at_journal _ _ away_apart (inr (now_one, h)))

    back_up_own-Q :
        (next : Next links temp faults undo root) (v : File) (d : Disk)
        → d.files q ≡ some old
        → d.files name ≡ some v
        → ((d' : Disk) → At q old (away ++ q ∷ []) v d'.files → Q (next (away ++ q ∷ []) d'))
        → Q (back_up links temp faults undo root away q name next d)
    unfolding back_up
    back_up_own-Q next v d h at_name go =
        let rename_it : (d1 : Disk)
            → d1.files q ≡ some old
            → d1.files name ≡ some v
            → Q (
                attempt (op faults (rename q (backup_of q)) d1)
                  (swap_in links temp faults undo root (away ++ q ∷ []) q name next)
                  (λ d2. fail undo at_backup away (op faults (remove name) d2).1)) =
          λ d1 k n.
            op-rule Q faults d1 _ _ (rename q (backup_of q))
              (λ files e.
                let (g, at, eq) = rename-eq q (backup_of q) d1.files files e in
                let same : g ≡ old = ground arith in
                swap_in_own-Q next v (after d1 files)
                  (subst (λ fs. fs (backup_of q) ≡ some old) (sym eq)
                    (moved_to q (backup_of q) g d1.files ∙ ap some same))
                  (subst (λ fs. fs name ≡ some v) (sym eq)
                    (moved_other q (backup_of q) name g d1.files (bytes_eq_sym q name own_name)
                        (bytes_eq_sym (backup_of q) name copy_name)
                      ∙ n))
                  go)
              (drop_name away q name apart own_name copy_name at_backup (tick d1)
                (inl (first, k))) in
        ignored-rule
          (λ d1. Q (
            attempt (op faults (rename q (backup_of q)) d1)
              (swap_in links temp faults undo root (away ++ q ∷ []) q name next)
              (λ d2. fail undo at_backup away (op faults (remove name) d2).1)))
          faults d (remove (backup_of q))
          (λ files e.
            rename_it (after d files)
              (subst (λ fs. fs q ≡ some old) (some_inj e)
                (erase_other (backup_of q) q d.files own.not_backup ∙ h))
              (subst (λ fs. fs name ≡ some v) (some_inj e)
                (erase_other (backup_of q) name d.files (bytes_eq_sym (backup_of q) name copy_name)
                  ∙ at_name)))
          (rename_it (tick d) h at_name)

  module _ (own : Apart q q) (names : NewNames temp) (away : List Bytes)
      (apart : AllApart q away) where
    first_time :
        (v : File) (files : Files)
        → At q old away v files
        → 1 + count q away ≤ 1
        → (count q away ≡ 0) × (v ≡ old)
    first_time v files h once = elim h.stands [ inl k ↦ k | inr (n, k) ↦ absurd (omega arith) ]

    -- A staged file goes to its place `p`, whether that is `q` or not.
    back_up-Q :
        (p name : Bytes) (f : FilePreview) (next : Next links temp faults undo root) (v : File)
        (mode : ℕ) (d : Disk)
        → bytes_eq q name ≡ false
        → bytes_eq (backup_of q) name ≡ false
        → Apart q p
        → hits q (some p) + count q away ≤ 1
        → At q old away v d.files
        → (q ≡ p → mode ≡ v.mode)
        → d.files name ≡ some (record { bytes = f.bytes; mode = mode })
        → ((d' : Disk)
            → At q old (away ++ p ∷ []) (next_file q old (some p) f v) d'.files
            → Q (next (away ++ p ∷ []) d'))
        → Q (back_up links temp faults undo root away p name next d)
    back_up-Q p name f next v mode d own_name copy_name between once h mode_eq staged go =
        elim (Bool-cases (bytes_eq q p)) [
          | inr ne ↦
              back_up_other-Q away p name apart own_name copy_name between next v d ne h
                (λ d2 a. go d2 (rw ne a))
          | inl eq ↦
              let p_eq : q ≡ p = eq_of_bytes_eq q p eq in
              let once' : 1 + count q away ≤ 1 =
                subst (λ b. (if b then 1 else 0) + count q away ≤ 1) eq once in
              let first = first_time v d.files h once' in
              let same_mode : mode ≡ old.mode = mode_eq p_eq ∙ ap (λ (w : File). w.mode) first.1 in
              let new : File = record { bytes = f.bytes; mode = old.mode } in
              let go_own : (d2 : Disk)
                  → At q old (away ++ q ∷ []) new d2.files
                  → Q (next (away ++ q ∷ []) d2) =
                λ d2 a.
                  subst (λ r. Q (next (away ++ r ∷ []) d2)) (sym p_eq)
                    (go d2 (rw eq (subst (λ r. At q old (away ++ r ∷ []) new d2.files) p_eq a))) in
              subst (λ r. Q (back_up links temp faults undo root away r name next d)) p_eq
                (back_up_own-Q own away name apart own_name copy_name first.0 next new d
                  (h.here ∙ ap some first.1)
                  (subst (λ n. d.files name ≡ some (record { bytes = f.bytes; mode = n })) same_mode
                    staged)
                  go_own)
        ]

    create_temp-Q :
        (p : Bytes) (f : FilePreview) (next : Next links temp faults undo root) (v : File)
        (found : Option Bytes) (d : Disk)
        → temp d.files p ≡ found
        → Apart q p
        → hits q (some p) + count q away ≤ 1
        → At q old away v d.files
        → ((d' : Disk)
            → At q old (away ++ p ∷ []) (next_file q old (some p) f v) d'.files
            → Q (next (away ++ p ∷ []) d'))
        → Q (create_temp links temp faults undo root away p f (mode_at (d.files p)) next found d)
    unfolding create_temp
    create_temp-Q p f next v none d e between once h go =
        failing at_stage away (tick d) apart (At-Saved q old v away d.files h)
    create_temp-Q p f next v (some name) d e between once h go =
        let own_name = present-ne-absent d.files q name v h.here (names.is_new d.files p name e) in
        let copy_name = names.no_backup d.files p name q e in
        let mode_eq : q ≡ p → mode_at (d.files p) ≡ v.mode =
          λ k. subst (λ r. mode_at (d.files r) ≡ v.mode) k (rw h.here refl) in
        op-rule Q faults d _ _ _
          (λ files1 e1.
            let s1 =
              subst (Same q d.files) (some_inj e1) (Same-put q name _ d.files own_name copy_name) in
            stage_file-Q away p name apart own_name copy_name f (mode_at (d.files p)) next
              (after d files1)
              (Saved-Same q old away d.files files1 s1 (At-Saved q old v away d.files h))
              (λ d' s staged.
                back_up-Q p name f next v (mode_at (d.files p)) d' own_name copy_name between once
                  (At-Same q old v away d.files d'.files (Same-trans q d.files files1 d'.files s1 s)
                    h)
                  mode_eq staged go))
          (failing at_stage away (tick d) apart (At-Saved q old v away d.files h))

    pub replace_file-Q :
        (place : Option Bytes) (f : FilePreview) (next : Next links temp faults undo root)
        (v : File) (d : Disk)
        → ApartAt q place
        → hits q place + count q away ≤ 1
        → At q old away v d.files
        → ((p : Bytes) (d' : Disk)
            → place ≡ some p
            → At q old (away ++ p ∷ []) (next_file q old place f v) d'.files
            → Q (next (away ++ p ∷ []) d'))
        → Q (replace_file links temp faults undo root away place f next d)
    unfolding replace_file
    replace_file-Q none f next v d between once h go =
        failing at_validate away d apart (At-Saved q old v away d.files h)
    replace_file-Q (some p) f next v d between once h go =
        op-rule Q faults d _ _ (stat p)
          (λ files e.
            let (g, at, eq) = stat-eq p d.files files e in
            create_temp-Q p f next v (temp files p) (after d files) refl between once
              (subst (At q old away v) (sym eq) h) (λ d' a. go p d' refl a))
          (failing at_validate away (tick d) apart (At-Saved q old v away d.files h))
