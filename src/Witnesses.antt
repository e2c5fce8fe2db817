-- ===== src/Witnesses.antt =====
-- Concrete states of the daemon: a blob whose bytes are all 7, a cache that is empty, a registry
-- that answers. The children apply the theorems to them.
mod Planes
mod Tasks
mod Reopen
mod Files
mod Headers
mod Wire
mod Daemon
mod Arcs
use lazyd.Base.{
  ℕ, zero, suc, ◌+◌, ◌-◌, ◌*◌, ◌/◌, ◌^◌, ◌==◌, if◌then◌else◌, ◌<◌, ◌≡◌, refl, subst, inl, inr, Text,
  text, text_eq, true, none, some, List, [], ◌∷◌, get_or, replicate, arith, Bool-cases, lookup, ◌≤◌,
  ap,
}
use lazyd.Errors.{Error, ok, err}
use lazyd.Disk.{Disk, success, short}
use lazyd.RangeMap.{RangeMap}
use lazyd.RangeMap.Slots.{IsWellFormed}
use lazyd.RangeMap.Presence.{found}
use lazyd.Remote.{RemoteBackend, oci_registry}
use lazyd.Instance.{Instance, InstanceConfig, InstanceState, external}
use lazyd.Instance.Write.{byte_at}
use lazyd.Instance.Amplify.{IsConsistent}
use lazyd.Instance.Fetch.{Serves, IsHonest}
use lazyd.Registry.{Setup, World, get}
use lazyd.Registry.Serving.{WorldServes}

abbrev pub sevens : ℕ → ℕ
sevens _ = 7

abbrev pub answers : RemoteBackend
answers h offset len = ok (replicate len 7)

pub get_or-replicate : (n k v d : ℕ) → k < n → get_or (replicate n v) k d ≡ v
get_or-replicate zero k v d h = absurd (omega arith)
get_or-replicate (suc n) zero v d h = refl
get_or-replicate (suc n) (suc k) v d h = get_or-replicate n k v d (omega arith)

pub zeros : (n k z : ℕ) → get_or (replicate n z) k z ≡ z
zeros zero k z = refl
zeros (suc n) zero z = refl
zeros (suc n) (suc k) z = zeros n k z

pub answers-IsHonest : IsHonest sevens answers
answers-IsHonest h offset len bytes q full k lt =
    let e : replicate len 7 ≡ bytes = cc in
    subst (λ b. get_or b k 0 ≡ 7) e (get_or-replicate len k 7 0 lt)

-- The second call of `write_at` takes three bytes.
abbrev pub empty_disk : Disk
empty_disk = record {
  files = λ _. none;
  plan = λ n. if n == 1 then short 3 else success;
  calls = 0;
}

abbrev pub layer : Text
layer = text "/c/layer.erofs"

abbrev pub layer_map : RangeMap
layer_map = record {
  file = text "/c/layer.erofs.bitmap";
  unit_bytes = 2 ^ 20;
  blob_size = 2 ^ 20 + 5;
  slot_count = 2;
  slots = replicate 2 0;
}

abbrev pub layer_config : InstanceConfig
layer_config = record {
  instance_id = text "one";
  target_path = layer;
  blob = record { digest = text "sha256:a"; size = 2 ^ 20 + 5; media_type = none };
  source = oci_registry (text "r/i:t") none;
  auth = none;
  fetch = record { unit_bytes = 2 ^ 20 };
  trigger_mode = external;
}

abbrev pub layer_instance : Instance
layer_instance = record {
  config = layer_config;
  range_map = layer_map;
  trusted = true;
  inflight = [];
}

abbrev pub cold : InstanceState
cold = record { inst = layer_instance; disk = empty_disk; calls = [] }

pub layer_map-IsWellFormed : IsWellFormed layer_map
layer_map-IsWellFormed = record {
  unit_pos = omega arith;
  fits = omega arith;
  counted = refl;
  sized = refl;
}

pub cold-IsConsistent : IsConsistent layer_instance
cold-IsConsistent = record { map = layer_map-IsWellFormed; unit = refl; size = refl }

pub cold-Serves : Serves sevens cold
unfolding byte_at
cold-Serves = record {
  consistent = cold-IsConsistent;
  backed = record {
    map = layer_map-IsWellFormed;
    apart = (unfold text in unfold text_eq in refl, unfold text in unfold text_eq in refl);
    memory = λ i lt h. absurd (let z = zeros 2 (i / 2 ^ 20) 0 in ground arith);
    stored = λ i lt h. absurd (ground arith);
  };
}

-- The daemon with that instance under its name, and no other.
abbrev pub cold_setup : Setup
cold_setup = record {
  json = record { to_vec = λ h. ok []; from_slice = λ b. err (Error.json []) };
  lseek = record { seek_data = λ d p o. found o; seek_hole = λ d p o. found o };
  kernel = record {
    fanotify_mark = λ d add p. none;
    metadata = λ d p. ok (record { dev = 1; ino = 1 });
    fstat = λ fd. some (record { dev = 1; ino = 1 });
  };
  has_fanotify = true;
  from_config = λ b s a. ok tt;
  backend = λ c. answers;
}

abbrev pub cold_world : World
cold_world = record {
  instances = (text "one", layer_instance) ∷ [];
  marks = [];
  disk = empty_disk;
  calls = [];
}

pub only_one : (id : Text) (i : Instance) → get id cold_world ≡ some i → layer_instance ≡ i
unfolding get lookup
only_one id i q = elim (Bool-cases (text_eq (text "one") id)) [
  | inl h ↦ let z = rw h at q in cc
  | inr h ↦ absurd (let z = rw h at q in cc)
]

pub cold-WorldServes : WorldServes cold_setup (λ _. sevens) cold_world
cold-WorldServes = record {
  serves = λ id i q.
      subst (λ j. Serves sevens (record { inst = j; disk = empty_disk; calls = [] }))
        (only_one id i q) cold-Serves;
  honest = λ id i q. answers-IsHonest;
}
