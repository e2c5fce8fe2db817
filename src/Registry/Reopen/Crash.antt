-- ===== src/Registry/Reopen/Crash.antt =====
-- A daemon that dies while calls of `ensure_range` are under way, and its restart.
use lazyd.Base.{ℕ, ◌+◌, ◌/◌, ◌≡◌, ap, sym, subst, ◌∙◌, true, List, [], arith}
use lazyd.Errors.{ok}
use lazyd.Disk.{Disk}
use lazyd.RangeMap.{is_set, header_size, bitmap_path}
use lazyd.RangeMap.Open.{HeaderCodec}
use lazyd.RangeMap.Open.Fresh.{byte_in}
use lazyd.Remote.{RemoteBackend}
use lazyd.Instance.{Instance, InstanceState}
use lazyd.Instance.Write.{byte_at}
use lazyd.Instance.Fetch.{Serves, IsHonest}
use lazyd.Instance.Tasks.{System, Reach}
use lazyd.Instance.Tasks.Steps.{Reach-Inv, Reach-Grows}
use lazyd.Registry.{Setup, open_instance}
use lazyd.Registry.Reopen.{TellsTruth}
use lazyd.Registry.Reopen.Whole.{open_instance-Serves}

-- What an instance that serves its blob has on the disk is the truth.
pub Serves-TellsTruth :
    (json : HeaderCodec) (blob : ℕ → ℕ) (s : InstanceState)
    → Serves blob s
    → s.inst.range_map.file ≡ bitmap_path s.inst.config.target_path
    → TellsTruth json blob s.inst.config s.disk.files
unfolding byte_at
Serves-TellsTruth json blob s v file count h reads fits i lt set =
    let path = bitmap_path s.inst.config.target_path in
    v.backed.stored i (omega (arith, v.consistent.size)) (
      subst
        (λ p.
          is_set (byte_in s.disk.files p (header_size + i / s.inst.range_map.unit_bytes)) ≡ true)
        (sym file)
        (subst (λ u. is_set (byte_in s.disk.files path (header_size + i / u)) ≡ true)
          v.consistent.unit set))

-- With an honest backend, from an instance that serves the blob, whose bitmap is at the path that
-- its target gives and which has nothing in flight: take the files that any interleaving of calls
-- of ensure_range, and of changes of other files by the rest of the daemon, has left; if
-- Instance::open with the same configuration succeeds on them, its instance serves the blob, with
-- nothing in flight and that configuration. The parser of the header and lseek may answer
-- anything.
pub crash_restart :
    (setup : Setup) (blob : ℕ → ℕ) (backend : RemoteBackend)
    → IsHonest blob backend
    → (s : InstanceState) → Serves blob s
    → s.inst.inflight ≡ []
    → s.inst.range_map.file ≡ bitmap_path s.inst.config.target_path
    → (u : System) → Reach backend s u
    → (d e : Disk) → d.files ≡ u.shared.disk.files
    → (i : Instance) → open_instance setup s.inst.config d ≡ (ok i, e)
    → (calls : List (ℕ × ℕ))
    → Serves blob (record { inst = i; disk = e; calls = calls })
      × (i.inflight ≡ [])
      × (i.config ≡ s.inst.config)
crash_restart setup blob backend honest s v none_yet file u reach d e left i opened calls =
    let inv = Reach-Inv blob backend honest s v none_yet u reach in
    let grows = Reach-Grows blob backend honest s v none_yet u reach in
    let same = grows.file ∙ file ∙ ap (λ c. bitmap_path c.target_path) (sym grows.config) in
    let truth = Serves-TellsTruth setup.json blob u.shared inv.serves same in
    open_instance-Serves setup blob s.inst.config d e i calls
      (subst (TellsTruth setup.json blob s.inst.config) (sym left)
        (subst (λ c. TellsTruth setup.json blob c u.shared.disk.files) grows.config truth))
      opened
