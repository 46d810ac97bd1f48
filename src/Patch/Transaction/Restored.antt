-- ===== src/Patch/Transaction/Restored.antt =====
-- patch.go, `Recover`: what it puts back.
use mathlib.Core.List.{reverse, reverse-append}
use ikemen_devtools.Prelude.{
  ℕ, ◌-◌, ◌≤◌, ◌≡◌, refl, sym, ◌∙◌, ◌⊎◌, inl, inr, arith, true, false, Option, none, some, List, [],
  ◌∷◌, ◌++◌, map, length, length-append, take-length-append, Bool-cases, Option-cases,
}
use mathlib.Core.Path.{subst}
use ikemen_devtools.Prelude.Text.{Bytes, bytes_eq, bytes_eq_refl, eq_of_bytes_eq}
use ikemen_devtools.FilePath.{has_prefix}
use ikemen_devtools.Patch.Transaction.{
  File, Files, Disk, Journal, Faults, tick, after, op, erase, remove, stat, rename, moved,
  backup_of, backup_suffix, has_suffix, trim_suffix, Recovery, finish_recovery, restore,
  restore_journal, recover,
}
use ikemen_devtools.Patch.Transaction.Steps.{
  op-done, rename-done, erase_other, moved_other, moved_to, backup_of-ne,
}
use ikemen_devtools.Patch.Transaction.Rollback.{count, Apart, AllApart}
use ikemen_devtools.Patch.Transaction.Outcome.{Apart-self}

has_prefix-append : (s t : Bytes) → has_prefix s (s ++ t) ≡ true
unfolding has_prefix
has_prefix-append [] t = refl
has_prefix-append (c ∷ s) t = ground (arith, has_prefix-append s t)

-- The target of a backup is the file that was backed up.
trim_suffix-backup_of : (p : Bytes) → trim_suffix backup_suffix (backup_of p) ≡ p
unfolding trim_suffix has_suffix backup_of
trim_suffix-backup_of p =
    let ends : has_prefix (reverse backup_suffix) (reverse (p ++ backup_suffix)) ≡ true =
      rw (reverse-append p backup_suffix) (has_prefix-append (reverse backup_suffix) (reverse p)) in
    let size : length (p ++ backup_suffix) - length backup_suffix ≡ length p =
      omega (arith, length-append p backup_suffix) in
    rw (ends, size) (take-length-append p backup_suffix)

op-refused :
    (faults : Faults) (effect : Files → Option Files) (d : Disk)
    → effect d.files ≡ none
    → op faults effect d ≡ (false, tick d)
unfolding op
op-refused faults effect d e = ground (arith, e)

module _ (faults : Faults) (calm : (k : ℕ) → faults k ≡ false) where
  -- A backup that is not there is passed over.
  restore-missing :
      (p : Bytes) (bs : List Bytes) (d : Disk)
      → d.files (backup_of p) ≡ none
      → restore faults (backup_of p ∷ bs) d ≡ restore faults bs (tick d)
  unfolding restore
  restore-missing p bs d h =
      let gone = op-refused faults (stat (backup_of p)) d (rw (h, stat) refl) in rw gone refl

  abbrev restored : Bytes → File → Disk → Disk
  restored p g d =
      after (after (after d d.files) (erase p d.files)) (moved (backup_of p) p g (erase p d.files))

  -- A backup that is there replaces its file.
  restore-present :
      (p : Bytes) (bs : List Bytes) (g : File) (d : Disk)
      → d.files (backup_of p) ≡ some g
      → restore faults (backup_of p ∷ bs) d ≡ restore faults bs (restored p g d)
  unfolding restore
  restore-present p bs g d h =
      let seen = op-done faults (stat (backup_of p)) d d.files (calm d.clock) (rw (h, stat) refl) in
      let d1 : Disk = after d d.files in
      let erased = op-done faults (remove p) d1 (erase p d.files) (calm d1.clock) refl in
      let copy : erase p d.files (backup_of p) ≡ some g =
        erase_other p (backup_of p) d.files (Apart-self p).backup_not ∙ h in
      let d2 : Disk = after d1 (erase p d.files) in
      let back =
        op-done faults (rename (backup_of p) p) d2 _ (calm d2.clock)
          (rename-done (backup_of p) p g (erase p d.files) copy) in
      rw (seen, trim_suffix-backup_of p, erased, back) refl

  restored-files :
      (q p : Bytes) (g : File) (d : Disk)
      → bytes_eq q p ≡ false
      → Apart q p
      → ((restored p g d).files q ≡ d.files q)
        × ((restored p g d).files (backup_of q) ≡ d.files (backup_of q))
  restored-files q p g d ne a = (
    moved_other (backup_of p) p q g (erase p d.files) a.not_backup ne ∙ erase_other p q d.files ne,
    moved_other (backup_of p) p (backup_of q) g (erase p d.files) (backup_of-ne q p ne) a.backup_not
        ∙ erase_other p (backup_of q) d.files a.backup_not,
  )

  -- The file still waits for its backup, or it is back and the backup is gone, or it has none.
  abbrev Waits : Bytes → File → List Bytes → Files → Type 0
  Waits q f ps files =
      ((1 ≤ count q ps) × (files (backup_of q) ≡ some f))
      ⊎ ((files q ≡ some f) × (files (backup_of q) ≡ none))
      ⊎ ((count q ps ≡ 0) × (files q ≡ some f))

  Waits-own :
      (q : Bytes) (f : File) (ps : List Bytes) (d : Disk) → Waits q f ps (restored q f d).files
  Waits-own q f ps d = inr (
      inl (
        moved_to (backup_of q) q f (erase q d.files),
        rw ((Apart-self q).backup_not, bytes_eq_refl (backup_of q)) refl,
      ))

  Waits-other :
      (q : Bytes) (f : File) (p : Bytes) (ps : List Bytes) (a b : Files)
      → bytes_eq q p ≡ false
      → b q ≡ a q
      → b (backup_of q) ≡ a (backup_of q)
      → Waits q f (p ∷ ps) a
      → Waits q f ps b
  Waits-other q f p ps a b ne s t (inl (n, h)) = inl (ground (arith, ne), t ∙ h)
  Waits-other q f p ps a b ne s t (inr (inl (h, k))) = inr (inl (s ∙ h, t ∙ k))
  Waits-other q f p ps a b ne s t (inr (inr (n, h))) = inr (inr (ground (arith, ne), s ∙ h))

  -- What `Recover` leaves at `q`: no error, the file back, and the journal gone.
  pub record Recovered (q : Bytes) (f : File) (r : Recovery) : Type 0 where
    pub done : r.0 ≡ true
    pub back : r.1.files q ≡ some f
    pub closed : r.1.journal ≡ none

  finish_recovery-Recovered :
      (q : Bytes) (f : File) (d : Disk)
      → d.files q ≡ some f
      → Recovered q f (finish_recovery faults d)
  unfolding finish_recovery
  finish_recovery-Recovered q f d h =
      rw (calm d.clock) (record { done = refl; back = h; closed = refl })

  restore-Recovered :
      (q : Bytes) (f : File) (ps : List Bytes) (d : Disk)
      → AllApart q ps
      → Waits q f ps d.files
      → Recovered q f (restore faults (map backup_of ps) d)
  restore-Recovered q f [] d a (inl (n, h)) = absurd (omega arith)
  restore-Recovered q f [] d a (inr (inl (h, k))) =
      unfold restore in finish_recovery-Recovered q f d h
  restore-Recovered q f [] d a (inr (inr (n, h))) =
      unfold restore in finish_recovery-Recovered q f d h
  restore-Recovered q f (p ∷ ps) d a w = elim (Option-cases (d.files (backup_of p))) [
    | inl n ↦
        subst (Recovered q f) (sym (restore-missing p (map backup_of ps) d n))
          (restore-Recovered q f ps (tick d) a.1 (missing n w))
    | inr (g, s) ↦
        subst (Recovered q f) (sym (restore-present p (map backup_of ps) g d s))
          (restore-Recovered q f ps (restored p g d) a.1 (present g s w))
  ]
    where
      missing : d.files (backup_of p) ≡ none → Waits q f (p ∷ ps) d.files → Waits q f ps d.files
      missing n w = elim (Bool-cases (bytes_eq q p)) [
        | inr ne ↦ Waits-other q f p ps d.files d.files ne refl refl w
        | inl eq ↦ elim w [
          | inl (k, h) ↦ absurd (let p_eq = eq_of_bytes_eq q p eq in cc)
          | inr (inl k) ↦ inr (inl k)
          | inr (inr (k, h)) ↦ absurd (ground arith)
        ]
      ]

      present :
          (g : File)
          → d.files (backup_of p) ≡ some g
          → Waits q f (p ∷ ps) d.files
          → Waits q f ps (restored p g d).files
      present g s w = elim (Bool-cases (bytes_eq q p)) [
        | inr ne ↦
            let kept = restored-files q p g d ne a.0 in
            Waits-other q f p ps d.files (restored p g d).files ne kept.0 kept.1 w
        | inl eq ↦
            let p_eq : q ≡ p = eq_of_bytes_eq q p eq in
            elim w [
              | inl (k, h) ↦
                  let g_eq : f ≡ g = ground (arith, p_eq) in
                  subst (λ r. Waits q f ps (restored r g d).files) p_eq
                    (subst (λ v. Waits q f ps (restored q v d).files) g_eq (Waits-own q f ps d))
              | inr (inl (h, k)) ↦ absurd (cc)
              | inr (inr (k, h)) ↦ absurd (ground arith)
            ]
      ]

  -- If no operation is refused, `Recover` ends without an error and removes the journal, and it puts back every file: the one
  -- whose backup the journal lists and that stands at its backup's path is at its own path again, and the
  -- one that the journal does not list stays as it is. The journal lists backups as `ApplyAtomic` names them, and
  -- none of them is in the way of the file.
  pub recover-Recovered :
      (j : Journal) (paths : List Bytes) (q : Bytes) (f : File) (d : Disk)
      → d.journal ≡ some j
      → j.backups ≡ map backup_of paths
      → AllApart q paths
      → ((1 ≤ count q paths) × (d.files (backup_of q) ≡ some f))
        ⊎ ((count q paths ≡ 0) × (d.files q ≡ some f))
      → Recovered q f (recover faults d)
  unfolding recover
  recover-Recovered j paths q f d e listed a w =
      let start : restore_journal faults d.journal d ≡ restore faults (map backup_of paths) d =
        rw (e, listed) refl in
      subst (Recovered q f) (sym start) (restore-Recovered q f paths d a (waiting w))
    where
      waiting :
          ((1 ≤ count q paths) × (d.files (backup_of q) ≡ some f))
            ⊎ ((count q paths ≡ 0) × (d.files q ≡ some f))
          → Waits q f paths d.files
      waiting (inl h) = inl h
      waiting (inr h) = inr (inr h)
