-- ===== src/Remote/Oci/Image.antt =====
-- The reference of an image and the URL of a blob.
use lazyd.Base.{
  ℕ, Text, text, decimal, Bool, not, ◌||◌, Option, none, some, [], ◌∷◌, ◌++◌, length, ◌==◌,
  if◌then◌else◌,
}
use lazyd.Errors.{bad_request, Result, ok, err, ◌>>=◌}
use lazyd.Control.{strip_prefix}
use lazyd.Control.Http.{reverse_onto}
use lazyd.Disk.{is_some}
use lazyd.Prepare.{join}
use lazyd.RangeMap.{BlobDescriptor}
use lazyd.Remote.{RemoteSource, oci_registry, AuthConfig}

-- `Url`, as far as it is read and changed
pub record Url : Type 0 where
  pub scheme : Text
  pub host : Option Text
  pub port : Option ℕ
  pub path : Text

-- `Url::parse` and `set_path`; `Path::exists` and `read_to_string`; and the parser of TOML with the
-- value of `server` in what it gives, if that is text. The errors of the parsers are bad requests.
pub record UrlEnv : Type 0 where
  pub parse : Text → Result Url
  pub set_path : Text → Url → Url
  pub exists : Text → Bool
  pub read_to_string : Text → Result Text
  pub toml_server : Text → Result (Option Text)

pub record ParsedImageRef : Type 0 where
  pub scheme : Text
  pub registry : Text
  pub authority : Text
  pub repository : Text
  pub reference : Text

unfoldable pub default_base_url : ParsedImageRef → Text
default_base_url p = p.scheme ++ (text "://" ++ p.authority)

unfoldable pub with_scheme : Text → Text
with_scheme image_ref =
    if is_some (strip_prefix (text "http://") image_ref)
      || is_some (strip_prefix (text "https://") image_ref)
    then image_ref
    else text "https://" ++ image_ref

-- `rsplit_once`
unfoldable pub rsplit_once : ℕ → Text → Option (Text × Text)
rsplit_once sep [] = none
rsplit_once sep (c ∷ s) =
    let rest = rsplit_once sep s in
    elim rest [ some (a, b) ↦ some (c ∷ a, b) | none ↦ if c == sep then some ([], s) else none ]

unfoldable pub split_reference : Text → Text × Text
split_reference repository = elim (rsplit_once b'@' repository) [
  | some (repo, digest) ↦ (repo, digest)
  | none ↦ elim (rsplit_once b':' repository) [
    | some (repo, tag) ↦ (repo, tag)
    | none ↦ (repository, text "latest")
  ]
]

-- `trim_start_matches('/')` and `trim_end_matches('/')`
unfoldable pub trim_slashes : Text → Text
trim_slashes [] = []
trim_slashes (c ∷ s) = let rest = trim_slashes s in if c == b'/' then rest else c ∷ s

unfoldable pub trim_end_slashes : Text → Text
trim_end_slashes s = reverse_onto (trim_slashes (reverse_onto s [])) []

abbrev pub with_port : Text → Option ℕ → Text
with_port registry none = registry
with_port registry (some port) = registry ++ (text ":" ++ decimal port)

abbrev pub parsed : Url → Text → Text × Text → ParsedImageRef
parsed url registry (repository, reference) = record {
  scheme = url.scheme;
  registry = registry;
  authority = with_port registry url.port;
  repository = repository;
  reference = reference;
}

-- Without the HTTP client and the token cache
pub record OciRemoteBackend : Type 0 where
  pub blob_url : Url
  pub auth : Option AuthConfig

module _ (env : UrlEnv) where
  unfoldable pub parse_image_ref : Text → Result ParsedImageRef
  parse_image_ref image_ref = elim (env.parse (with_scheme image_ref)) [
    | err e ↦ err e
    | ok url ↦ elim url.host [
      | none ↦ err (bad_request (text "image_ref missing registry host"))
      | some registry ↦
          if length (trim_slashes url.path) == 0
          then err (bad_request (text "image_ref missing repository"))
          else ok (parsed url registry (split_reference (trim_slashes url.path)))
    ]
  ]

  unfoldable pub read_hosts_server : (hosts_dir registry : Text) → Result (Option Text)
  read_hosts_server hosts_dir registry =
      let path = join (join hosts_dir registry) (text "hosts.toml") in
      if not (env.exists path) then ok none else (env.read_to_string path >>= env.toml_server)

  unfoldable pub base_of : Option Text → ParsedImageRef → Result Text
  base_of none p = ok (default_base_url p)
  base_of (some dir) p = elim (read_hosts_server dir p.registry) [
    | err e ↦ err e
    | ok none ↦ ok (default_base_url p)
    | ok (some server) ↦ ok server
  ]

  unfoldable pub build_blob_url : Text → Option Text → Text → Result Url
  build_blob_url image_ref hosts_dir digest = do
    p ← parse_image_ref image_ref
    base ← base_of hosts_dir p
    url ← env.parse base
    ok (
        env.set_path
          (trim_end_slashes url.path
            ++ (text "/v2/" ++ (p.repository ++ (text "/blobs/" ++ digest))))
          url)

  -- The backend as it is made: its token cache and its requests are those of a `RegistryAuthState`
  -- that is empty.
  unfoldable pub from_config :
      BlobDescriptor → RemoteSource → Option AuthConfig → Result OciRemoteBackend
  from_config blob (oci_registry image_ref hosts_dir) auth = do
    url ← build_blob_url image_ref hosts_dir blob.digest
    ok (record { blob_url = url; auth = auth })
