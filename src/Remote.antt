-- ===== src/Remote.antt =====
-- src/remote/mod.rs: what an instance knows of a registry.
pub mod Oci
use lazyd.Base.{ℕ, Text, Bytes, Option, List}
use lazyd.Errors.{Result}

pub data RemoteSource : Type 0 where
  oci_registry : (image_ref : Text) (hosts_dir : Option Text) → RemoteSource

pub record AuthConfig : Type 0 where
  pub username : Text
  pub secret : Text

-- `RemoteBackend::read_range`. A registry may answer the same request in another way later, so the
-- answer depends on the requests that were made before.
abbrev pub RemoteBackend : Type 0
RemoteBackend = List (ℕ × ℕ) → ℕ → ℕ → Result Bytes
