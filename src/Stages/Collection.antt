-- ===== src/Stages/Collection.antt =====
-- scripts/run-qemu-performance.py: the sampling of the processes, its summary, the check of a result that
-- is there, and the loop over the runs.
use teecam.Prelude.{
  ℕ, zero, suc, Bool, true, false, not, ◌&&◌, ◌==◌, ltb, if◌then◌else◌, Option, none, some, List,
  [], ◌∷◌, ◌++◌, map, length, Text, codes, text_eq, Dict, lookup, insert, erase, Result, ok, err,
  runtime_error, ◌>>=◌, ◌>>◌, raise_if, Floats,
}
use teecam.Features.Percentile.{percentile}
use teecam.Resource.Sampler.{Reading, ProcessSampler, new_sampler, sample}

-- A line of the resource file
pub record ComponentEvent (Number : Type 0) : Type 0 where
  pub ts_unix_ns : ℕ
  pub component : Text
  pub cpu_percent : Number
  pub rss_kb : Number

pub record ComponentSummary (Number : Type 0) : Type 0 where
  pub samples : ℕ
  pub cpu_percent_mean : Number
  pub cpu_percent_p95 : Number
  pub rss_kb_mean : Number
  pub rss_kb_p95 : Number

module _ {Number : Type 0} (floats : Floats Number) where
  open floats use {ratio, fmean}

  -- `groups`: the values of each component
  unfoldable pub group_components :
      List (ComponentEvent Number)
      → Dict (List Number × List Number)
      → Dict (List Number × List Number)
  unfolding lookup insert
  group_components [] groups = groups
  group_components (event ∷ events) groups =
      let old = elim (lookup event.component groups) as (λ _. List Number × List Number) [
        | none ↦ ([], [])
        | some values ↦ values
      ] in
      group_components events (
        insert event.component (old.0 ++ (event.cpu_percent ∷ []), old.1 ++ (event.rss_kb ∷ []))
          groups)

  unfoldable pub component_summary : List Number → List Number → Result (ComponentSummary Number)
  unfolding percentile
  component_summary cpu rss = do
    cpu_p95 ← percentile floats cpu (ratio 95 100)
    rss_p95 ← percentile floats rss (ratio 95 100)
    ok (record {
      samples = length cpu;
      cpu_percent_mean = fmean cpu;
      cpu_percent_p95 = cpu_p95;
      rss_kb_mean = fmean rss;
      rss_kb_p95 = rss_p95;
    })

  unfoldable pub component_summaries :
      Dict (List Number × List Number) → Result (Dict (ComponentSummary Number))
  unfolding component_summary
  component_summaries [] = ok []
  component_summaries ((name, ([], rss)) ∷ groups) = component_summaries groups
  component_summaries ((name, (value ∷ cpu, rss)) ∷ groups) = do
    summary ← component_summary (value ∷ cpu) rss
    rest ← component_summaries groups
    ok ((name, summary) ∷ rest)

  -- `resource_summary`, on the events of the lines that are not empty
  unfoldable pub resource_summary :
      List (ComponentEvent Number) → Result (Dict (ComponentSummary Number))
  unfolding group_components component_summaries
  resource_summary events = component_summaries (group_components events [])

  -- What a round of `sample_processes` meets: whether there is time left, and for each process the
  -- reading, or nothing if it is gone, and the time that is written.
  pub record SampleRound : Type 0 where
    pub in_time : Bool
    pub readings : Text → Option Reading
    pub times : Text → ℕ

  -- The samplers and the lines of the file
  pub record Sampling : Type 0 where
    pub samplers : Dict ProcessSampler
    pub lines : List (ComponentEvent Number)

  -- The loop over `list(samplers.items())`: a process that is gone leaves the samplers.
  unfoldable pub sample_all : SampleRound → Dict ProcessSampler → Sampling → Sampling
  unfolding sample insert erase
  sample_all world [] s = s
  sample_all world ((name, sampler) ∷ others) s = elim (world.readings name) [
    | none ↦ sample_all world others (record s { samplers = erase name s.samplers })
    | some reading ↦
        let measured = sample floats reading sampler in
        let event : ComponentEvent Number = record {
          ts_unix_ns = world.times name;
          component = name;
          cpu_percent = measured.0.0;
          rss_kb = ratio measured.0.1 1;
        } in
        sample_all world others (record s {
          samplers = insert name measured.1 s.samplers;
          lines = s.lines ++ (event ∷ []);
        })
  ]

  -- The `while` loop, over the rounds
  unfoldable pub sampling_rounds : List SampleRound → Sampling → Result Sampling
  unfolding sample_all
  sampling_rounds [] s = err runtime_error
  sampling_rounds (world ∷ rounds) s =
      if world.in_time then sampling_rounds rounds (sample_all world s.samplers s) else ok s

  -- `sample_processes`, for the names of the processes: the lines and the errors
  unfoldable pub sample_processes :
      ℕ
      → List Text
      → List SampleRound
      → List Text
      → Result (List (ComponentEvent Number) × List Text)
  unfolding sampling_rounds new_sampler
  sample_processes clock_ticks names rounds errors = do
    s ←
        sampling_rounds rounds
          (record { samplers = map (λ name. (name, new_sampler clock_ticks)) names; lines = [] })
    ok (
      s.lines,
      if length s.lines == 0
          then errors ++ (codes "resource sampler produced no events" ∷ [])
          else errors,
    )

  -- What is there of a run: the result, with its keys, and whether the other files are there
  pub record Evidence : Type 0 where
    pub status : Option Text
    pub configuration : Option Text
    pub repeat : Option ℕ
    pub duration_seconds : Option Number
    pub requests : ℕ
    pub has_gateway_summary : Bool
    pub has_resources : Bool

  abbrev is_text : Text → Option Text → Bool
  is_text wanted none = false
  is_text wanted (some found) = text_eq found wanted

  abbrev is_repeat : ℕ → Option ℕ → Bool
  is_repeat wanted none = false
  is_repeat wanted (some found) = found == wanted

  abbrev is_number : Number → Option Number → Bool
  is_number wanted none = false
  is_number wanted (some found) = floats.eq found wanted

  -- The seven checks, for a duration that is not -1
  unfoldable pub evidence_passes : Evidence → Text → ℕ → Number → Bool
  evidence_passes result configuration repeat duration =
      is_text (codes "PASS") result.status
      && (is_text configuration result.configuration
          && (is_repeat repeat result.repeat
              && (is_number duration result.duration_seconds
                  && (ltb 0 result.requests
                      && (result.has_gateway_summary && result.has_resources)))))

  -- `result_is_reusable`
  unfoldable pub result_is_reusable : Option Evidence → Text → ℕ → Number → Result Bool
  unfolding evidence_passes
  result_is_reusable none configuration repeat duration = ok false
  result_is_reusable (some result) configuration repeat duration = do
    raise_if (not (evidence_passes result configuration repeat duration)) runtime_error
    ok true

  -- `matrix`, before it is shuffled
  unfoldable pub matrix_row : List Text → ℕ → List (Text × ℕ)
  matrix_row configurations repeat = map (λ configuration. (configuration, repeat)) configurations

  unfoldable pub matrix_from : List Text → ℕ → ℕ → List (Text × ℕ)
  unfolding matrix_row
  matrix_from configurations repeat zero = []
  matrix_from configurations repeat (suc repeats) =
      matrix_row configurations repeat ++ matrix_from configurations (suc repeat) repeats

  -- The loop over the runs: what is there of each run, and `execute_run`, which may leave more.
  module _ {Files : Type 0} (evidence_of : Files → Text → ℕ → Option Evidence)
      (execute_run : Text → ℕ → Files → Result Files) where
    unfoldable pub collect_run : Bool → Number → Text → ℕ → Files → Result Files
    unfolding result_is_reusable
    collect_run resume duration configuration repeat files =
        let checked =
          result_is_reusable (evidence_of files configuration repeat) configuration repeat
            duration in
        let run = execute_run configuration repeat files in
        if resume then (checked >>= λ reusable. if reusable then ok files else run) else run

    unfoldable pub collect : Bool → Number → List (Text × ℕ) → Files → Result Files
    unfolding collect_run
    collect resume duration [] files = ok files
    collect resume duration ((configuration, repeat) ∷ runs) files =
        collect_run resume duration configuration repeat files >>= λ next.
        collect resume duration runs next
