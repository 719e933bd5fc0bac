-- ===== src/Tests/Sections.antt =====
-- The sections of a report, from annotations, a command and a run.
use aibom_webhook_service.Base.{
  ℕ, zero, suc, String, true, false, ◌≡◌, refl, ◌≤◌, ◌<◌, ◌*◌, Option, none, some, List, [], ◌∷◌,
  All, if◌then◌else◌, ◌==◌,
}
use aibom_webhook_service.Base.Int.{pos}
use aibom_webhook_service.Value.{Fields, PyFloat, null, int, float, text, obj, field, end}
use aibom_webhook_service.Source.Container.{Container}
use aibom_webhook_service.Report.Sections.{
  Inputs, get, annotation, detected, model_section, training_section,
}
use aibom_webhook_service.Report.Serving.{inference_section}
use aibom_webhook_service.Report.Sections.Laws.{model_section_other}
use aibom_webhook_service.Report.Declared.{
  Seen, DatasetAnnotations, CliDataset, DatasetSection, declared_dataset, dataset_section,
}
use aibom_webhook_service.Report.Declared.Laws.{Compared, dataset_section-Compared}
use aibom_webhook_service.Report.Duration.{PodMeta, start_times, duration_span}
use aibom_webhook_service.Report.Duration.Laws.{FinishedBy, duration_span_bounds}

-- floats in tenths, of which two can be read
abbrev tenths : PyFloat ℕ
tenths = record {
  parse = λ s. if s == "0" then some 0 else if s == "0.7" then some 7 else none;
  is_finite = λ r. true;
  is_integer = λ r. true;
  trunc = λ r. some (pos r);
  scale = λ r n. r;
  is_zero_float = λ r. elim r [ zero ↦ true | suc n ↦ false ];
  loads = λ s. none;
}

abbrev overrides : Fields ℕ
overrides = field "temperature" (float 7) end

abbrev inputs : Inputs ℕ
inputs = record {
  annotations =
      ("model-name", "org/mine")
      ∷ ("temperature", "0")
      ∷ ("epochs", "0")
      ∷ ("batch-size", "many")
      ∷ [];
  dm =
      ("model_name", text "org/other")
      ∷ ("model_revision", text "v2")
      ∷ ("epochs", int (pos 3))
      ∷ ("generation_config_overrides", obj overrides)
      ∷ [];
  runtime_info = ("batch_size", int (pos 16)) ∷ [];
}

no_epochs : get "epochs" (training_section tenths inputs) ≡ int (pos 0)
unfolding training_section get
no_epochs = refl

zero_temperature : get "temperature" (inference_section tenths inputs) ≡ float 7
unfolding inference_section
zero_temperature = refl

model_section_other_example :
    (get "name" (model_section tenths inputs) ≡ text "org/mine")
    × (get "revision" (model_section tenths inputs) ≡ null)
    × (get "base_model" (model_section tenths inputs) ≡ null)
    × (get "size_bytes" (model_section tenths inputs) ≡ null)
unfolding annotation detected get
model_section_other_example = model_section_other tenths inputs "org/mine" refl (λ e. cc)

abbrev unsaid : DatasetAnnotations
unsaid = record { name = none; version = none; source = none; license = some "mit" }

abbrev flags : CliDataset
flags = record {
  dataset_name = some "org/data";
  dataset_config = none;
  dataset_split = some "train";
}

abbrev loads : List Seen
loads =
    record {
      dataset_name = some "data";
      source = some "datasets.load_dataset";
      version = none;
      license = none;
    }
    ∷ []

abbrev section : DatasetSection
section = record {
  declared = declared_dataset unsaid flags;
  auto_detected =
      (
        record {
          dataset_name = some "data";
          source = some "datasets.load_dataset";
          version = none;
          license = none;
        },
        some true,
      )
      ∷ [];
}

reported : dataset_section unsaid flags loads "training" ≡ some section
unfolding dataset_section
reported = refl

dataset_section-Compared_example :
    Compared (declared_dataset unsaid flags) section.declared loads section.auto_detected
dataset_section-Compared_example =
    dataset_section-Compared unsaid flags loads "training" section reported

abbrev container : Container
container = record {
  pod_name = some "p";
  name = some "main";
  spec = record { image = some "app:1"; command = []; args = [] };
  image_id = none;
  terminated_reason = none;
  exit_code = none;
  job_result = none;
  serving_role = none;
  restart_count = none;
  last_terminated_reason = none;
  last_exit_code = none;
  memory_limit_bytes = none;
  cpu_limit_millis = none;
  gpu_limit = none;
  finished_at = some "9";
}

abbrev time_of_digit : String → Option ℕ
time_of_digit s = if s == "2" then some 2000 else if s == "9" then some 9000 else none

abbrev pods : List PodMeta
pods = record { name = "p"; start_time = some "2" } ∷ []

span : duration_span time_of_digit 0 20000 pods (container ∷ []) ≡ some (2000, 9000)
unfolding duration_span
span = refl

duration_span_bounds_example :
    (starts : List ℕ) × (start_times time_of_digit pods ≡ some starts)
    × All (λ t. 2000 ≤ t) starts
    × (9000 ≤ 20000)
    × (9000 < 20000
        → (last : ℕ) × (9000 ≡ last * 1000) × FinishedBy time_of_digit 0 (container ∷ []) last pods)
duration_span_bounds_example =
    duration_span_bounds time_of_digit 0 20000 pods (container ∷ []) 2000 9000 span
