-- ===== src/Examples/Config.antt =====
-- A preview that is applied after the policy it names was declared.
use vera_mmu.Common.{refl, true, some, none, is_some, err, String, ◌≡◌, if◌then◌else◌, text_Eq}
use vera_mmu.Common.Text.{is_canonical_text}
use vera_mmu.Store.{Store, raised}
use vera_mmu.Policies.{declare_start_policy, start_mode, completion_mode}
use vera_mmu.GraphConfig.{
  Payload, Preview, ConfigError, payload_of, preview_of, preview_configuration, apply_configuration,
}
use vera_mmu.GraphConfig.Applied.{changed_since_preview}
use vera_mmu.Examples.{store_of, empty_tables, run}

-- stands for the digest of the canonical text
abbrev state_digest : Payload → String
state_digest p = if is_some p.current_start then "declared" else "open"

abbrev previewed : Preview
previewed = preview_of state_digest (payload_of empty_tables (some "OPEN") none)

abbrev declared_since : Store
declared_since = (declare_start_policy "REQUIRE_READY" "system" "t1" (store_of empty_tables)).1

changed_since_preview_example :
    (e : ConfigError) × (apply_configuration state_digest previewed true "t2" declared_since
      ≡ (err (raised e), declared_since))
unfolding run preview_configuration start_mode completion_mode declare_start_policy
    is_canonical_text
changed_since_preview_example =
    changed_since_preview state_digest empty_tables (some "OPEN") none previewed true "t2"
      declared_since refl refl
