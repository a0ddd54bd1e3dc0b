-- ===== src/Manifest.antt =====
-- internal/manifest/synth.go: the runtime objects that are made up for a static manifest. The decoding
-- of the manifest is left out.
pub mod Objects
pub mod Workloads
pub mod Placement
pub mod Slices
pub mod Namespaces
pub mod Owners
pub mod Endpoints
mod Tests
use aku.Base.{String, List}
use aku.Manifest.Objects.{Object, Env}
use aku.Manifest.Workloads.{synthesize_workloads}
use aku.Manifest.Placement.{assign_namespaces}
use aku.Manifest.Slices.{synthesize_endpoint_slices}

module _ {Spec : Type 0} (env : Env Spec) where
  -- The synthesis of `Load`.
  unfoldable pub synthesize : List (Object Spec) → String → List (Object Spec)
  unfolding assign_namespaces synthesize_workloads synthesize_endpoint_slices
  synthesize os default_ns =
      synthesize_endpoint_slices env
        (synthesize_workloads env (assign_namespaces env os default_ns))
