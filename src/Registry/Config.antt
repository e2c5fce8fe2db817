-- ===== src/Registry/Config.antt =====
-- The derived `==` of `InstanceConfig` says yes only to equal configurations.
use lazyd.Base.{
  ◌≡◌, refl, ap, text_eq, text_eq_sound, Bool, true, Option, none, some, &&-eq-true, ==→eq,
}
use lazyd.RangeMap.{BlobDescriptor}
use lazyd.Remote.{RemoteSource, oci_registry, AuthConfig}
use lazyd.Instance.{TriggerMode, fanotify, external, InstanceConfig}
use lazyd.Registry.{config_eq, option_eq, blob_eq, source_eq, auth_eq, mode_eq}

option_eq_sound :
    {A : Type 0} (eq : A → A → Bool)
    → ((a b : A) → eq a b ≡ true → a ≡ b)
    → (a b : Option A) → option_eq eq a b ≡ true
    → a ≡ b
option_eq_sound eq sound none none h = refl
option_eq_sound eq sound (some a) (some b) h = ap some (sound a b h)
option_eq_sound eq sound none (some b) h = cc
option_eq_sound eq sound (some a) none h = cc

blob_eq_sound : (a b : BlobDescriptor) → blob_eq a b ≡ true → a ≡ b
blob_eq_sound a b h =
    let (d, rest) = &&-eq-true _ _ h in
    let (s, m) = &&-eq-true _ _ rest in
    cc (
      text_eq_sound a.digest b.digest d,
      ==→eq a.size b.size s,
      option_eq_sound text_eq text_eq_sound a.media_type b.media_type m,
    )

source_eq_sound : (a b : RemoteSource) → source_eq a b ≡ true → a ≡ b
source_eq_sound (oci_registry i h) (oci_registry i' h') q =
    let (l, r) = &&-eq-true _ _ q in
    cc (text_eq_sound i i' l, option_eq_sound text_eq text_eq_sound h h' r)

auth_eq_sound : (a b : AuthConfig) → auth_eq a b ≡ true → a ≡ b
auth_eq_sound a b h =
    let (l, r) = &&-eq-true _ _ h in
    cc (text_eq_sound a.username b.username l, text_eq_sound a.secret b.secret r)

mode_eq_sound : (a b : TriggerMode) → mode_eq a b ≡ true → a ≡ b
mode_eq_sound fanotify fanotify h = refl
mode_eq_sound external external h = refl
mode_eq_sound fanotify external h = cc
mode_eq_sound external fanotify h = cc

pub config_eq_sound : (a b : InstanceConfig) → config_eq a b ≡ true → a ≡ b
unfolding config_eq
config_eq_sound a b h =
    let (i, h1) = &&-eq-true _ _ h in
    let (t, h2) = &&-eq-true _ _ h1 in
    let (bl, h3) = &&-eq-true _ _ h2 in
    let (so, h4) = &&-eq-true _ _ h3 in
    let (au, h5) = &&-eq-true _ _ h4 in
    let (un, mo) = &&-eq-true _ _ h5 in
    cc (
      text_eq_sound a.instance_id b.instance_id i,
      text_eq_sound a.target_path b.target_path t,
      blob_eq_sound a.blob b.blob bl,
      source_eq_sound a.source b.source so,
      option_eq_sound auth_eq auth_eq_sound a.auth b.auth au,
      ==→eq a.fetch.unit_bytes b.fetch.unit_bytes un,
      mode_eq_sound a.trigger_mode b.trigger_mode mo,
    )
