-- ===== src/GraphConfig.antt =====
-- src/vera_mmu/work_graph_config.py: the transition policies of a project are previewed, and declared only
-- as they were previewed. The digest of a preview is the parameter `digest`; whether the profile enables the
-- work graph only adds a note, and is not modelled.
pub mod Applied
pub mod Report
pub mod Shown
use vera_mmu.Common.{
  String, Bool, true, false, not, ◌&&◌, ◌||◌, ◌==◌, text_Eq, Option, none, some, List, [], ◌∷◌,
  ◌++◌, is_some, Result, ok, err, if◌then◌else◌, pure, gets, require, refuse, lift, ◌>>=◌, ◌>>◌,
}
use vera_mmu.Store.{Tables, Store, Method, Raised, raised, integrity_error, store_error}
use vera_mmu.Store.Rows.{Policy, StartMode, CompletionMode}
use vera_mmu.Policies.{
  PolicyError, declare_start_policy, declare_completion_policy, start_mode, completion_mode,
}

pub data ConfigError : Type 0 where
  nothing_named unknown_start_mode unknown_completion_mode : ConfigError
  not_confirmed preview_refused stale_preview : ConfigError
  declaration_refused : PolicyError → ConfigError

-- why a declaration is refused
pub data Blocker : Type 0 where
  start_declared completion_declared : Blocker

-- the parts of the payload whose digest identifies a preview
pub record Payload : Type 0 where
  pub start_mode : Option String
  pub completion_mode : Option String
  pub current_start : Option (Policy StartMode)
  pub current_completion : Option (Policy CompletionMode)
  pub blockers : List Blocker

pub record Preview : Type 0 where
  pub start_mode : Option String
  pub completion_mode : Option String
  pub blockers : List Blocker
  pub refused : Bool
  pub preview_hash : String

abbrev pub named_start : Option String → Bool
named_start none = true
named_start (some m) = is_some (start_mode m)

abbrev pub named_completion : Option String → Bool
named_completion none = true
named_completion (some m) = is_some (completion_mode m)

abbrev pub blocker_if : {A : Type 0} → Option String → Option A → Blocker → List Blocker
blocker_if none declared b = []
blocker_if (some m) none b = []
blocker_if (some m) (some p) b = b ∷ []

abbrev pub is_refused : List Blocker → Bool
is_refused [] = false
is_refused (_ ∷ _) = true

abbrev pub payload_of : Tables → Option String → Option String → Payload
payload_of t start completion = record {
  start_mode = start;
  completion_mode = completion;
  current_start = t.start_policy;
  current_completion = t.completion_policy;
  blockers =
      blocker_if completion t.completion_policy completion_declared
      ++ blocker_if start t.start_policy start_declared;
}

module _ (digest : Payload → String) where
  abbrev pub preview_of : Payload → Preview
  preview_of p = record {
    start_mode = p.start_mode;
    completion_mode = p.completion_mode;
    blockers = p.blockers;
    refused = is_refused p.blockers;
    preview_hash = digest p;
  }

  -- `preview_work_graph_configuration`
  unfoldable pub preview_configuration :
      Tables → Option String → Option String → Result (Raised ConfigError) Preview
  unfolding start_mode completion_mode
  preview_configuration t start completion =
      if not (is_some start || is_some completion)
      then err (raised nothing_named)
      else if not (named_start start)
      then err (raised unknown_start_mode)
      else if not (named_completion completion)
      then err (raised unknown_completion_mode)
      else ok (preview_of (payload_of t start completion))

  -- `except (WorkStartPolicyError, WorkCompletionPolicyError) as exc`
  abbrev pub as_config :
      {A : Type 0} → Result (Raised PolicyError) A × Store → Result (Raised ConfigError) A × Store
  as_config (ok a, s) = (ok a, s)
  as_config (err (raised e), s) = (err (raised (declaration_refused e)), s)
  as_config (err integrity_error, s) = (err integrity_error, s)
  as_config (err store_error, s) = (err store_error, s)

  unfoldable pub declare_start : Option String → String → Method ConfigError Unit
  declare_start none now = pure tt
  declare_start (some m) now = do
    policy ← λ s. as_config (declare_start_policy m "vera" now s)
    pure tt

  unfoldable pub declare_completion : Option String → String → Method ConfigError Unit
  declare_completion none now = pure tt
  declare_completion (some m) now = do
    policy ← λ s. as_config (declare_completion_policy m "vera" now s)
    pure tt

  -- `apply_work_graph_configuration`: each policy in a transaction of its own
  unfoldable pub apply_configuration : Preview → Bool → String → Method ConfigError Unit
  unfolding preview_configuration declare_start declare_completion
  apply_configuration preview confirm now = do
    require confirm (raised not_confirmed)
    refuse preview.refused (raised preview_refused)
    planned ← gets (λ s. preview_configuration s.tables preview.start_mode preview.completion_mode)
    current ← lift planned
    require (current.preview_hash == preview.preview_hash) (raised stale_preview)
    declare_start preview.start_mode now
    declare_completion preview.completion_mode now
