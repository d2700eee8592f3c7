-- ===== src/Model/Task.antt =====
-- Task actions and task metadata: `TaskAction`, `TaskMetadata` and their parts, of src/model.rs.
use mr_boxington_cache.Prelude.{ℕ, Bool, true, ◌&&◌, List, Option, all, nat_beq}
use mr_boxington_cache.Prelude.Bytes.{Text, text}
use mr_boxington_cache.Prelude.Equality.{◌==◌, nat_eq, list_eq}
use mr_boxington_cache.Model.{is_none_or, valid_string, valid_strings, valid_string_map}

pub data TaskPhase : Type 0 where
  normal post : TaskPhase

pub record TaskRunSingle : Type 0 where
  pub task : Text
  pub args : List Text
  pub env : List (Text × Text)

pub record TaskRunGroup : Type 0 where
  pub tasks : List Text

pub data TaskRunEntry : Type 0 where
  script : Text → TaskRunEntry
  single : TaskRunSingle → TaskRunEntry
  group : TaskRunGroup → TaskRunEntry

pub record TaskCommandInput : Type 0 where
  pub command : Text
  pub stdout_hash : Text
  pub stderr_hash : Text

pub record TaskAction : Type 0 where
  pub version : ℕ
  pub kind : Text
  pub task : Text
  pub phase : TaskPhase
  pub run : List TaskRunEntry
  pub args : List Text
  pub shell : Option Text
  pub outputs : List Text
  pub root : Text
  pub source_hash : Text
  pub dependency_keys : List Text
  pub environment : List (Text × Option Text)
  pub command_inputs : List TaskCommandInput
  pub vars : List (Text × Text)
  pub tools : List Text
  pub os : Text
  pub arch : Text

pub data TaskOutputStream : Type 0 where
  stdout stderr : TaskOutputStream

pub record TaskOutput : Type 0 where
  pub stream : TaskOutputStream
  pub line : Text

pub record TaskMetadata : Type 0 where
  pub version : ℕ
  pub kind : Text
  pub task_identity : Text
  pub roots : List Text
  pub output : List TaskOutput
  pub restored_bytes : ℕ
  pub execution_duration_ns : ℕ

unfoldable pub validate_run : TaskRunEntry → Bool
validate_run (script s) = valid_string s
validate_run (single entry) =
    valid_string entry.task && (valid_strings entry.args && valid_string_map entry.env)
validate_run (group entry) = valid_strings entry.tasks

unfoldable pub validate_command_input : TaskCommandInput → Bool
validate_command_input i =
    valid_string i.command && (valid_string i.stdout_hash && valid_string i.stderr_hash)

-- `matches!(self.phase, TaskPhase::Normal | TaskPhase::Post)`
unfoldable pub valid_phase : TaskPhase → Bool
valid_phase normal = true
valid_phase post = true

unfoldable pub validate_action : TaskAction → Bool
unfolding valid_phase validate_run validate_command_input
validate_action a =
    nat_beq a.version 1
    && (a.kind == text "task"
        && (valid_string a.task
            && (valid_phase a.phase
                && (all validate_run a.run
                    && (valid_strings a.args
                        && (is_none_or valid_string a.shell
                            && (valid_strings a.outputs
                                && (valid_string a.root
                                    && (valid_string a.source_hash
                                        && (valid_strings a.dependency_keys
                                            && (all
                                                  (λ e.
                                                    valid_string e.0 && is_none_or valid_string e.1)
                                                  a.environment
                                                && (all validate_command_input a.command_inputs
                                                    && (valid_string_map a.vars
                                                        && (valid_strings a.tools
                                                            && (valid_string a.os
                                                            && valid_string a.arch)))))))))))))))

unfoldable pub valid_stream : TaskOutputStream → Bool
valid_stream stdout = true
valid_stream stderr = true

unfoldable pub validate_output : TaskOutput → Bool
unfolding valid_stream
validate_output o = valid_stream o.stream && valid_string o.line

unfoldable pub validate_metadata : TaskMetadata → Bool
unfolding validate_output
validate_metadata m =
    nat_beq m.version 1
    && (m.kind == text "task"
        && (valid_string m.task_identity
            && (valid_strings m.roots && all validate_output m.output)))
