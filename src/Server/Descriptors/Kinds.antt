-- ===== src/Server/Descriptors/Kinds.antt =====
-- Which descriptors src/server.rs accepts: its four kinds, told apart by their `kind` field.
use mr_boxington_cache.Prelude.{
  ℕ, ◌<◌, ◌≡◌, Bool, true, false, List, [], ◌∷◌, some, Result, ok, ◌>>=◌, ◌>>◌, ensure,
}
use mr_boxington_cache.Prelude.Bytes.{Text, text}
use mr_boxington_cache.Prelude.Equality.{nat_eq, list_eq}
use mr_boxington_cache.Json.{Value, get}
use mr_boxington_cache.Protocol.{Protocol}
use mr_boxington_cache.Model.Task
use mr_boxington_cache.Model.Rustc
use mr_boxington_cache.Model.Cc
use mr_boxington_cache.Model.BuildScript
use mr_boxington_cache.Server.Errors.{ApiError}
use mr_boxington_cache.Server.Digests.{map_err}
use mr_boxington_cache.Server.Serde.{Serde}
use mr_boxington_cache.Server.Objects.{is_object}
use mr_boxington_cache.Server.ClientMetadata.{expected_kind}
use mr_boxington_cache.Server.Descriptors.{
  ActionKind, build_script, rustc, task, is_none, task_fields, str_field, u64_field,
}

-- A record that is read and passes its own validation.
abbrev pub Reads : {A : Type 0} → Result Text A → (A → Bool) → Type 0
Reads {A} r valid = (a : A) × (r ≡ ok a) × (valid a ≡ true)

abbrev pub HasFields : List Text → Value → Type 0
HasFields [] value = Unit
HasFields (field ∷ fields) value = (is_none (get field value) ≡ false) × HasFields fields value

-- The last two steps of each reader.
reading :
    {A : Type 0}
    → Result Text A
    → (A → Bool)
    → (Text → ApiError)
    → ApiError
    → ActionKind
    → Result ApiError ActionKind
reading r valid broken invalid kind =
    map_err broken r >>= λ action. (ensure (valid action) invalid >> ok kind)

module _ (protocol : Protocol) (serde : Serde) where
  -- What a descriptor of each kind is.
  unfoldable pub Acceptable : ActionKind → Value → ℕ → Type 0
  Acceptable build_script value version =
      (version < 256)
      × (BuildScript.is_action_schema version ≡ true)
      × Reads (serde.build_script_action value) (λ a. BuildScript.validate_action protocol a)
  Acceptable ActionKind.cc value version =
      (version ≡ 1) × Reads (serde.cc_action value) (λ a. Cc.validate_action protocol a)
  Acceptable task value version =
      (version ≡ 1)
      × HasFields task_fields value
      × Reads (serde.task_action value) (λ a. Task.validate_action a)
  Acceptable rustc value version =
      (version ≡ 1) × Reads (serde.rustc_action value) (λ a. Rustc.validate_action protocol a)

  unfoldable pub Describes : ActionKind → Value → Type 0
  Describes kind value =
      (is_object value ≡ true)
      × (str_field (text "kind") value ≡ some (expected_kind kind))
      × ((version : ℕ) × (u64_field serde (text "version") value ≡ some version)
          × Acceptable kind value version)
