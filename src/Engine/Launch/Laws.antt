-- ===== src/Engine/Launch/Laws.antt =====
-- What `detect_parallelization_from_command` depends on, and what it reports.
use aibom_webhook_service.Base.{String, ◌≡◌, refl, true, List, ◌∷◌, ◌++◌}
use aibom_webhook_service.Command.Segments.{is_separator, is_package_install, invocation_segments}
use aibom_webhook_service.Command.Segments.Laws.{IsCommand, split_segments_command}
use aibom_webhook_service.Engine.Launch.{detect_parallelization_from_command}

invocation_segments_install :
    (install : List String) (sep : String) (tokens : List String)
    → IsCommand install
    → is_separator sep ≡ true
    → is_package_install install ≡ true
    → invocation_segments (install ++ (sep ∷ tokens)) ≡ invocation_segments tokens
unfolding invocation_segments
invocation_segments_install install sep tokens h s i =
    rw (split_segments_command install sep tokens h s, i) refl

-- A package install at the head of a script has no say in the strategy that is reported, whatever
-- its flags and packages are called.
pub detect_parallelization_from_command_install :
    {R : Type 0} (install : List String) (sep : String) (tokens : List String)
    → IsCommand install
    → is_separator sep ≡ true
    → is_package_install install ≡ true
    → detect_parallelization_from_command {R = R} (install ++ (sep ∷ tokens))
      ≡ detect_parallelization_from_command tokens
unfolding detect_parallelization_from_command
detect_parallelization_from_command_install install sep tokens h s i =
    rw (invocation_segments_install install sep tokens h s i, detect_parallelization_from_command)
      refl
