-- ===== src/Stages/Runner.antt =====
-- scripts/run-qemu-experiments.py: waiting for the socket, the preparation of the guest, the check of a
-- run that is there, and the loop over the scenarios.
use teecam.Prelude.{
  ℕ, zero, suc, ◌+◌, Bool, true, false, not, ◌&&◌, ◌==◌, ltb, if◌then◌else◌, Option, none, some,
  List, [], ◌∷◌, ◌++◌, map, length, filter, any, Text, codes, text_eq, Result, ok, err,
  runtime_error, os_error, ◌>>=◌, ◌>>◌, raise_if, Floats,
}

-- What a round of `wait_for_socket` finds: whether there is time left, whether the socket is there, and
-- whether the gateway has exited.
pub record Look : Type 0 where
  pub in_time : Bool
  pub exists : Bool
  pub exited : Bool

-- `wait_for_socket`, over the rounds; the `TimeoutError` is an `OSError`.
unfoldable pub wait_for_socket : List Look → Result (Unit {0})
wait_for_socket [] = err runtime_error
wait_for_socket (look ∷ looks) =
    let later = wait_for_socket looks in
    if not look.in_time
    then err os_error
    else if look.exists
    then ok tt
    else if look.exited
    then err runtime_error
    else later

-- The fifth of the fields of a line of "mountinfo", if there are as many
unfoldable pub mount_point : List Text → Option Text
mount_point (a ∷ b ∷ c ∷ d ∷ point ∷ fields) = some point
mount_point _ = none

abbrev same_point : Text → Option Text → Bool
same_point target none = false
same_point target (some point) = text_eq point target

-- `is_mounted`, over the fields of the lines
unfoldable pub is_mounted : Text → List (List Text) → Bool
unfolding any mount_point
is_mounted target = any (λ fields. same_point target (mount_point fields))

-- What the guest is: the lines of "mountinfo" and whether the kernel has cgroup v2
pub record Guest : Type 0 where
  pub mounts : List (List Text)
  pub supports_cgroup2 : Bool

-- `ensure_cgroup_v2`, where `mount` is what the command leaves
unfoldable pub ensure_cgroup_v2 : (Guest → Result Guest) → Guest → Result Guest
unfolding is_mounted
ensure_cgroup_v2 mount guest =
    if is_mounted (codes "/sys/fs/cgroup") guest.mounts
    then ok guest
    else if not guest.supports_cgroup2
    then err runtime_error
    else mount guest

-- `count_jsonl`, on the lines of the file if it is there
unfoldable pub count_jsonl : Option (List Text) → ℕ
unfolding filter
count_jsonl none = 0
count_jsonl (some lines) = length (filter (λ line. not (length line == 0)) lines)

-- The keys of a result that are read; each may be missing
pub record RunDocument (Number : Type 0) : Type 0 where
  pub status : Option Text
  pub run_id : Option Text
  pub scenario : Option Text
  pub is_attack : Option Bool
  pub seed : Option ℕ
  pub duration_seconds : Option Number
  pub request_events : Option ℕ
  pub resource_events : Option ℕ

-- What is there of a run: its result, which may be unreadable, and the lines of the two files
pub record RunFiles (Number : Type 0) : Type 0 where
  pub result : Option (Option (RunDocument Number))
  pub requests : Option (List Text)
  pub resources : Option (List Text)

abbrev is_word : Text → Option Text → Bool
is_word wanted none = false
is_word wanted (some found) = text_eq found wanted

abbrev is_count : ℕ → Option ℕ → Bool
is_count wanted none = false
is_count wanted (some found) = found == wanted

-- `result.get("is_attack") is attack`
abbrev is_flag : Bool → Option Bool → Bool
is_flag wanted none = false
is_flag true (some found) = found
is_flag false (some found) = not found

module _ {Number : Type 0} (floats : Floats Number) where
  abbrev is_duration : Number → Option Number → Bool
  is_duration wanted none = false
  is_duration wanted (some found) = floats.eq found wanted

  -- One run of the matrix: its scenario, repeat, and so on
  pub record Run : Type 0 where
    pub run_id : Text
    pub scenario : Text
    pub is_attack : Bool
    pub repeat : ℕ
    pub duration : Number
    pub seed : ℕ

  -- `checks`, for a duration that is not -1
  unfoldable pub run_passes : Run → RunDocument Number → ℕ → ℕ → Bool
  run_passes run result request_count resource_count =
      is_word (codes "PASS") result.status
      && (is_word run.run_id result.run_id
          && (is_word run.scenario result.scenario
              && (is_flag run.is_attack result.is_attack
                  && (is_count run.seed result.seed
                      && (is_duration run.duration result.duration_seconds
                          && ((ltb 0 request_count && is_count request_count result.request_events)
                              && (ltb 0 resource_count
                                  && is_count resource_count result.resource_events)))))))

  -- `reusable_passed_run`
  unfoldable pub reusable_passed_run : Run → RunFiles Number → Result Bool
  unfolding count_jsonl run_passes
  reusable_passed_run run files = elim files.result [
    | none ↦ ok false
    | some none ↦ err runtime_error
    | some (some result) ↦ do
      raise_if
          (not (run_passes run result (count_jsonl files.requests) (count_jsonl files.resources)))
          runtime_error
      ok true
  ]

  -- The repeats of a scenario, and the loop over the scenarios, as the list of the runs
  unfoldable pub runs_of : (Text → ℕ → Text) → Text → Bool → Number → ℕ → ℕ → ℕ → List Run
  runs_of run_id scenario attack duration seed repeat zero = []
  runs_of run_id scenario attack duration seed repeat (suc repeats) =
      record {
        run_id = run_id scenario repeat;
        scenario = scenario;
        is_attack = attack;
        repeat = repeat;
        duration = duration;
        seed = seed + repeat;
      }
      ∷ runs_of run_id scenario attack duration seed (suc repeat) repeats

  unfoldable pub all_runs : (Text → ℕ → Text) → List (Text × Bool) → Number → ℕ → ℕ → List Run
  unfolding runs_of
  all_runs run_id [] duration seed repeats = []
  all_runs run_id ((scenario, attack) ∷ scenarios) duration seed repeats =
      runs_of run_id scenario attack duration seed 0 repeats
      ++ all_runs run_id scenarios duration seed repeats

  -- `scenarios`
  abbrev pub labelled_scenarios : List Text → List Text → List (Text × Bool)
  labelled_scenarios benign attacks =
      map (λ name. (name, false)) benign ++ map (λ name. (name, true)) attacks

  -- The loop, where `execute_run` leaves more files
  module _ {Files : Type 0} (files_of : Files → Text → RunFiles Number)
      (execute_run : Run → Files → Result Files) where
    unfoldable pub do_run : Bool → Run → Files → Result Files
    unfolding reusable_passed_run
    do_run resume run files =
        let executed = execute_run run files in
        let checked = reusable_passed_run run (files_of files run.run_id) in
        if resume
        then (checked >>= λ reusable. if reusable then ok files else executed)
        else executed

    unfoldable pub do_runs : Bool → List Run → Files → Result Files
    unfolding do_run
    do_runs resume [] files = ok files
    do_runs resume (run ∷ runs) files = do_run resume run files >>= λ next. do_runs resume runs next
