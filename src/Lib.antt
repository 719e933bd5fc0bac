-- ===== src/Lib.antt =====
-- The Python of the AIBOM webhook service: what watches a workload and describes it in an AI bill of
-- materials. A detector runs in the training process and writes what it saw into a file
-- (scripts/aibom-scripts/runtime_detector.py). A sidecar signs that file and publishes it in a
-- ConfigMap (scripts/aibom-scripts/dataset_sidecar.py, through k8s_api.py beside it). When the workload
-- has ended, a Job reads the ConfigMap, the containers' commands, the pods' statuses and the cluster's
-- metrics, and compiles the report (postprocess/postprocess.py).
--
-- Which file models which part:
--   Base: booleans, numbers, lists, Python's `str` (Base/Text), `dict` (Base/Dict), `int` (Base/Int)
--     and a backtracking matcher for the patterns that need one (Base/Regex).
--   Value: the values of the dicts that the detectors build, over an abstract type of floats.
--   Command: postprocess.py's reading of a container's command. Command/Segments has
--     `_split_segments`, `_invocation_segments`, `_strip_comments` and `_flatten_container_command`,
--     Command/Convert the conversions of flag values, Command/Flags `_split_flag` and `_parse_flags`.
--   Model/Quantization: `detect_quantization_from_name`.
--   Engine: the server invocations of vLLM, TGI, SGLang and LMDeploy and trl's (Engine/Invocation),
--     their argument maps (Engine/ArgMaps), the detectors (Engine/Server, Engine/Trl), and
--     `detect_parallelization_from_command` (Engine/Launch).
--   Source: where models, datasets and code come from. Source/Storage has `_parse_storage_uri` and
--     `detect_model_from_storage`, Source/Models `detect_model_from_containers`, Source/Dataset the
--     dataset detectors, Source/Url `redact_git_url` and `_normalize_repo`, Source/Git the loop of
--     `detect_git_clone_from_command`, Source/Provenance the other tiers and `merge_provenance`.
--   Pod: `pod_status_from_containers` and what stands beside it (Pod/Status), the limits (Pod/Limits)
--     and `_pod_stats_window` (Pod/Window).
--   Image: provenance from images. Image/Ref has `_parse_image_ref`, Image/Http `_registry_get` with
--     its redirects, Image/Registry the tokens and digests of `_registry_image_labels`, and
--     Image/Labels `detect_git_provenance_from_containers`.
--   Telemetry: `_collect_metrics_with_retry` (Telemetry/Retry), `_rebucket_series_doc`
--     (Telemetry/Series), `_fit_series_doc` (Telemetry/Fit), `compute_metric_stats` (Telemetry/Stats),
--     `aggregate_pod_metrics` (Telemetry/Aggregate), the pod names in queries (Telemetry/Queries), and
--     `parse_range_series` with `_collect_series_metrics` (Telemetry/Lines).
--   Report: of `compile_aibom`, the status and the intent (Report/Status), the source code section
--     (Report/SourceCode), the model and training sections (Report/Sections), the fine-tuning and
--     inference sections (Report/Serving), the dataset section (Report/Declared) and the duration (Report/Duration).
--   Job: `main` of postprocess.py. Job/Detected has the model and the provenance that it makes of the
--     detectors' results, Job/Publish its phases and the objects that it creates.
--   Runtime: of runtime_detector.py, `_merge_output` (Runtime/Output), the debounced flush as a step
--     relation (Runtime/Flush), the reading of a .git directory (Runtime/GitRefs), what a flush
--     captures of it and of sys.argv (Runtime/Capture), the finder on sys.meta_path as a step relation
--     (Runtime/ImportHook), and the hooks that record datasets with their registries
--     (Runtime/Datasets).
--   Cluster: k8s_api.py (Cluster/Api, Cluster/Names), and `_run_once` and `_publish_final` of the
--     sidecar (Cluster/Sidecar).
--   Tests: runs on concrete inputs, and the theorems applied to them.
--
-- How state and errors are modelled: an exception that a caller turns into None is `none`; the loops
-- over tokens, containers and entries are recursion on the list, with the variables of the loop as
-- arguments; an object that is changed in place is one place of a list. A dict is a list of its
-- entries in order. The sidecar and `patch_configmap` pass the state of the world along.
--
-- Parameters, which stand for code that is not in the repository or for parts of Python that are not
-- written out: `shlex`'s lexer, floats and `json` (the interface PyFloat), the check that `urlsplit`
-- makes of an authority, the parser of times, the rounding and the averages of statistics, the sizes of
-- JSON texts, the files that the detector reads, configparser and the git binary, the other finders of
-- modules, Prometheus, image registries with their JSON documents and SHA-256, and the Kubernetes API
-- server, whose documented behaviour is the record Documented of Cluster/Api/Laws. In Job/Publish the
-- collection of telemetry, the compilation of the report and its signature are values that may be
-- missing, for the exceptions that `main` catches, and `patch_configmap` is one request.
--
-- Bounds and fuel: letters, digits and white space are the ASCII ones. `_resolve_git_ref` follows five
-- symbolic references and `_find_git_dir` walks up 20 directories, as the code does. The two loops of
-- `_fit_series_doc` run on fuel: the most points of a line for the first, whose factor starts at 2 and
-- need not pass that number, and the number of metrics for the second, which drops the series of one
-- of them in each round; more is proved not to be needed if two points or more are kept per line.
-- `_registry_get` follows three redirects, as the code does. The search for the parameters of a
-- challenge runs on the length of its text, since each round drops a character or more.
--
-- What is not modelled: the webhook and the watcher, which are Go; the charts; the hooks into
-- transformers, peft and MLflow, which read attributes of objects of those;
-- generate_snapshot.py, which is one list of shell commands and the reading of a model's files; HTTP to
-- Prometheus and the tables of queries; `collect_telemetry`, which is the window, the queries and the
-- retries for each pod; HMAC signatures; the environment and the resource utilization sections of
-- `compile_aibom` beside their statistics; logging.
pub mod Base
pub mod Value
pub mod Command
pub mod Model
pub mod Engine
pub mod Source
pub mod Image
pub mod Pod
pub mod Cluster
pub mod Runtime
pub mod Telemetry
pub mod Report
pub mod Job
mod Tests
