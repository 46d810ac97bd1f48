-- ===== src/Oracle/Guard.antt =====
-- internal/oracle/policy.go: `RunGuarded`.
use ikemen_devtools.Prelude.{
  ℕ, suc, ◌≡◌, refl, sym, ◌≤◌, ◌⊎◌, arith, Bool, true, false, not, ◌||◌, ◌==◌, leb, Option, none,
  some, List, [], ◌∷◌, length, length-take, take, Any, Bool-cases, inl, inr, if◌then◌else◌,
}
use mathlib.Core.Path.{subst}
use ikemen_devtools.Prelude.Int.{ℤ, pos, negsuc}
use ikemen_devtools.Prelude.Text.{Bytes, bytes_eq}
use ikemen_devtools.FilePath.{clean}
use ikemen_devtools.Oracle.{Request, RunResult}

pub record GuardPolicy : Type 0 where
  pub enabled : Bool
  pub allowed_executables : List Bytes
  pub max_stdout : ℤ
  pub max_stderr : ℤ
  pub timeout : ℤ
  pub disposable_root : Bytes

pub data OutcomeKind : Type 0 where
  outcome_refused outcome_complete outcome_timed_out outcome_failed : OutcomeKind

pub record GuardOutcome : Type 0 where
  pub kind : OutcomeKind
  pub exit_code : ℤ
  pub stdout : Bytes
  pub stderr : Bytes
  pub timed_out : Bool

-- What a run of a process gives: whether it succeeded, and whether its time ran out.
pub record Ran : Type 0 where
  pub result : RunResult
  pub succeeded : Bool
  pub out_of_time : Bool

unfoldable pub bound : Bytes → ℤ → Bytes
bound data_bytes (negsuc n) = data_bytes
bound data_bytes (pos n) =
    if n == 0 || leb (length data_bytes) n then data_bytes else take n data_bytes

-- "filepath.Abs", "strings.EqualFold", whether a path is a directory, and the run of a process.
module _ (abs : Bytes → Option Bytes) (equal_fold : Bytes → Bytes → Bool) (is_dir : Bytes → Bool)
    (run : Request → Ran) where
  abbrev or_empty : Option Bytes → Bytes
  or_empty none = []
  or_empty (some p) = p

  unfoldable pub is_allowed : List Bytes → Bytes → Bool
  is_allowed [] command = false
  is_allowed (c ∷ cs) command =
      if equal_fold (or_empty (abs (clean c))) command then true else is_allowed cs command

  abbrev refused_outcome : GuardOutcome
  refused_outcome = record {
    kind = outcome_refused;
    exit_code = pos 0;
    stdout = [];
    stderr = [];
    timed_out = false;
  }

  abbrev kind_of_run : Ran → OutcomeKind
  kind_of_run ran =
      if ran.out_of_time
      then outcome_timed_out
      else if not ran.succeeded
      then outcome_failed
      else outcome_complete

  unfoldable pub guard_outcome : GuardPolicy → Ran → GuardOutcome
  guard_outcome p ran = record {
    kind = kind_of_run ran;
    exit_code = ran.result.exit_code;
    stdout = bound ran.result.stdout p.max_stdout;
    stderr = bound ran.result.stderr p.max_stderr;
    timed_out = ran.out_of_time;
  }

  -- From the test of the root on.
  unfoldable pub with_root : GuardPolicy → Bytes → List Bytes → Option Bytes → GuardOutcome
  with_root p command args none = refused_outcome
  with_root p command args (some root) =
      if bytes_eq root []
      then refused_outcome
      else if not (is_dir root)
      then refused_outcome
      else guard_outcome p
          (run (record { command = command; args = args; working_dir = root; timeout = p.timeout }))

  unfoldable pub with_command : GuardPolicy → List Bytes → Option Bytes → GuardOutcome
  with_command p args none = refused_outcome
  with_command p args (some command) =
      if not (is_allowed p.allowed_executables command)
      then refused_outcome
      else with_root p command args (abs (clean p.disposable_root))

  abbrev with_args : GuardPolicy → List Bytes → GuardOutcome
  with_args p [] = refused_outcome
  with_args p (first ∷ rest) = with_command p rest (abs (clean first))

  unfoldable pub run_guarded : GuardPolicy → List Bytes → GuardOutcome
  run_guarded p args =
      if not p.enabled
      then refused_outcome
      else if length p.allowed_executables == 0
      then refused_outcome
      else with_args p args

  -- The process that a policy permits for the arguments.
  pub record Permitted (p : GuardPolicy) (args : List Bytes) (r : Request) : Type 0 where
    pub enabled : p.enabled ≡ true
    pub program : Bytes
    pub from_args : args ≡ program ∷ r.args
    pub absolute : abs (clean program) ≡ some r.command
    pub listed :
        Any (λ c. equal_fold (or_empty (abs (clean c))) r.command ≡ true) p.allowed_executables
    pub root : abs (clean p.disposable_root) ≡ some r.working_dir
    pub root_given : bytes_eq r.working_dir [] ≡ false
    pub is_directory : is_dir r.working_dir ≡ true

  -- The process was refused, or it is a permitted one and the outcome is that of its run.
  abbrev pub Guarded : GuardPolicy → List Bytes → GuardOutcome → Type 0
  Guarded p args o =
      (o ≡ refused_outcome) ⊎ ((r : Request) × (Permitted p args r × (o ≡ guard_outcome p (run r))))

  is_allowed-Any :
      (cs : List Bytes) (command : Bytes)
      → is_allowed cs command ≡ true
      → Any (λ c. equal_fold (or_empty (abs (clean c))) command ≡ true) cs
  unfolding is_allowed
  is_allowed-Any [] command h = cc
  is_allowed-Any (c ∷ cs) command h =
      elim (Bool-cases (equal_fold (or_empty (abs (clean c))) command)) [
        | inl e ↦ inl e
        | inr e ↦ inr (is_allowed-Any cs command (ground arith))
      ]

  with_root-Guarded :
      (p : GuardPolicy) (first command : Bytes) (rest : List Bytes) (o : Option Bytes)
      → p.enabled ≡ true
      → abs (clean first) ≡ some command
      → is_allowed p.allowed_executables command ≡ true
      → abs (clean p.disposable_root) ≡ o
      → Guarded p (first ∷ rest) (with_root p command rest o)
  unfolding with_root
  with_root-Guarded p first command rest none on ab al e = inl refl
  with_root-Guarded p first command rest (some root) on ab al e =
      elim (Bool-cases (bytes_eq root [])) [
        | inl b ↦ rw b (inl refl)
        | inr b ↦ elim (Bool-cases (is_dir root)) [
          | inr d ↦ rw (b, d) (inl refl)
          | inl d ↦
              rw (b, d)
                (inr (
                  record {
                    command = command;
                    args = rest;
                    working_dir = root;
                    timeout = p.timeout;
                  },
                  (
                    record {
                      enabled = on;
                      program = first;
                      from_args = refl;
                      absolute = ab;
                      listed = is_allowed-Any p.allowed_executables command al;
                      root = e;
                      root_given = b;
                      is_directory = d;
                    },
                    refl,
                  ),
                ))
        ]
      ]

  with_command-Guarded :
      (p : GuardPolicy) (first : Bytes) (rest : List Bytes) (o : Option Bytes)
      → p.enabled ≡ true
      → abs (clean first) ≡ o
      → Guarded p (first ∷ rest) (with_command p rest o)
  unfolding with_command
  with_command-Guarded p first rest none on e = inl refl
  with_command-Guarded p first rest (some command) on e =
      elim (Bool-cases (is_allowed p.allowed_executables command)) [
        | inl al ↦ rw al (with_root-Guarded p first command rest _ on e al refl)
        | inr al ↦ rw al (inl refl)
      ]

  with_args-Guarded :
      (p : GuardPolicy) (args : List Bytes) → p.enabled ≡ true → Guarded p args (with_args p args)
  with_args-Guarded p [] on = inl refl
  with_args-Guarded p (first ∷ rest) on = with_command-Guarded p first rest _ on refl

  -- `RunGuarded` runs nothing that its policy does not permit: its outcome is the refusal, or that of a run
  -- under an enabled policy of the first argument's absolute path, which equals that of an
  -- executable of the list up to case, with the other arguments, in the absolute path of the cleaned disposable
  -- root, which is not empty and a directory. An empty disposable root is cleaned to the current directory.
  pub run_guarded-Guarded :
      (p : GuardPolicy) (args : List Bytes) → Guarded p args (run_guarded p args)
  unfolding run_guarded
  run_guarded-Guarded p args = elim (Bool-cases p.enabled) [
    | inr off ↦ rw off (inl refl)
    | inl on ↦ elim (Bool-cases (length p.allowed_executables == 0)) [
      | inl e ↦ rw (on, e) (inl refl)
      | inr e ↦ guarded_at on e
    ]
  ]
    where
      guarded_at :
          p.enabled ≡ true
          → (length p.allowed_executables == 0) ≡ false
          → Guarded p args (
              if not p.enabled
              then refused_outcome
              else if length p.allowed_executables == 0
              then refused_outcome
              else with_args p args)
      guarded_at on e =
          subst
            (λ b. Guarded p args (
              if not b
              then refused_outcome
              else if length p.allowed_executables == 0
              then refused_outcome
              else with_args p args))
            (sym on)
            (subst (λ b. Guarded p args (if b then refused_outcome else with_args p args)) (sym e)
              (with_args-Guarded p args on))

  bound-le : (data_bytes : Bytes) (n : ℕ) → length (bound data_bytes (pos (suc n))) ≤ suc n
  unfolding bound
  bound-le data_bytes n =
      let positive : (suc n == 0) ≡ false = ground arith in
      elim (Bool-cases (leb (length data_bytes) (suc n))) [
        | inl e ↦ rw (positive, e) (ground arith)
        | inr e ↦ rw (positive, e) (omega (arith, length-take (suc n) data_bytes))
      ]

  -- With positive limits, no output of `RunGuarded` is longer than its limit.
  pub run_guarded-le :
      (p : GuardPolicy) (args : List Bytes) (m n : ℕ)
      → p.max_stdout ≡ pos (suc m)
      → p.max_stderr ≡ pos (suc n)
      → (length (run_guarded p args).stdout ≤ suc m) × (length (run_guarded p args).stderr ≤ suc n)
  unfolding guard_outcome
  run_guarded-le p args m n hm hn = elim (run_guarded-Guarded p args) [
    | inl e ↦
        subst (λ o. (length o.stdout ≤ suc m) × (length o.stderr ≤ suc n)) (sym e)
          (omega arith, omega arith)
    | inr (r, (permitted, e)) ↦
        subst (λ o. (length o.stdout ≤ suc m) × (length o.stderr ≤ suc n)) (sym e)
          (
            subst (λ l. length (bound (run r).result.stdout l) ≤ suc m) (sym hm) (bound-le _ m),
            subst (λ l. length (bound (run r).result.stderr l) ≤ suc n) (sym hn) (bound-le _ n),
          )
  ]
