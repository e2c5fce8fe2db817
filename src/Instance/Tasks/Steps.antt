-- ===== src/Instance/Tasks/Steps.antt =====
-- Each step of the calls on one instance keeps the invariant, and so do all of them.
use lazyd.Base.{ℕ, ◌≡◌, refl, sym, ◌∙◌, List, []}
use lazyd.Remote.{RemoteBackend}
use lazyd.Instance.{InstanceState}
use lazyd.Disk.{Disk}
use lazyd.Instance.Backed.{byte_at-same}
use lazyd.Instance.Fixed.{Serves-elsewhere}
use lazyd.Instance.Fetch.{Serves, IsHonest}
use lazyd.Instance.Tasks.{
  Pc, idle, called, turn, cancel, moved, System, Step, call, run, dropped, elsewhere, Reach, start,
  later,
}
use lazyd.Instance.Tasks.Facts.{Grows, Grows-trans, Fact-stays}
use lazyd.Instance.Tasks.Turns.{Turned, Turned-same, Grows-refl}
use lazyd.Instance.Tasks.Each.{turn-Turned, cancel-Turned}
use lazyd.Instance.Tasks.Flew.{Flew, keeps, turn-Flew, cancel-Flew, resting-held}
use lazyd.Instance.Tasks.Invariant.{Inv, fresh-Inv, Inv-moved}

module _ (blob : ℕ → ℕ) (backend : RemoteBackend) (honest : IsHonest blob backend) where
  -- The outcome of a step, as the turn of one task.
  pub record Stepped (u w : System) : Type 0 where
    pub inv : Inv blob w
    pub grows : Grows blob u.shared w.shared

  Stepped-moved :
      (u : System) (i : ℕ) (next : Pc × InstanceState)
      → Inv blob u
      → Turned blob u.shared next.0 next.1
      → Flew u.shared (u.pc i) next
      → Stepped u (moved u i next)
  Stepped-moved u i next inv turned flew = record {
    inv = Inv-moved blob u inv i next turned flew;
    grows = turned.grows;
  }

  pub Stepped-elsewhere :
      (u : System) (d : Disk) (calls : List (ℕ × ℕ))
      → Inv blob u
      → d.files u.shared.inst.config.target_path
        ≡ u.shared.disk.files u.shared.inst.config.target_path
      → d.files u.shared.inst.range_map.file ≡ u.shared.disk.files u.shared.inst.range_map.file
      → Stepped u (record u { shared = record u.shared { disk = d; calls = calls } })
  Stepped-elsewhere u d calls inv target map =
      let t : InstanceState = record u.shared { disk = d; calls = calls } in
      let grows : Grows blob u.shared t = record {
        config = refl;
        file = refl;
        unit = refl;
        size = refl;
        ready = λ i h. h;
        good = λ i h. byte_at-same u.shared.disk d u.shared.inst.config.target_path i target ∙ h;
      } in
      record {
        inv = record {
          serves =
              Serves-elsewhere blob u.shared.inst u.shared.disk d u.shared.calls calls inv.serves
                target map;
          facts = λ i. Fact-stays blob u.shared t grows (u.pc i) (inv.facts i);
          listed = inv.listed;
          owned = inv.owned;
          apart = inv.apart;
        };
        grows = grows;
      }

  pub Step-Stepped : (u w : System) → Inv blob u → Step backend u w → Stepped u w
  Step-Stepped u w inv (call i offset len rest) =
      Stepped-moved u i (called offset len, u.shared) inv
        (Turned-same blob u.shared inv.serves (called offset len) tt)
        (keeps (sym (resting-held (u.pc i) rest)) refl)
  Step-Stepped u w inv (run i) =
      Stepped-moved u i (turn backend (u.pc i) u.shared) inv
        (turn-Turned blob u.shared inv.serves backend honest (u.pc i) (inv.facts i))
        (turn-Flew backend (u.pc i) u.shared)
  Step-Stepped u w inv (dropped i) =
      Stepped-moved u i (cancel (u.pc i) u.shared) inv
        (cancel-Turned blob u.shared inv.serves (u.pc i) (inv.facts i))
        (cancel-Flew (u.pc i) u.shared)
  Step-Stepped u w inv (elsewhere d calls target map) = Stepped-elsewhere u d calls inv target map

  module _ (s : InstanceState) (v : Serves blob s) (none_yet : s.inst.inflight ≡ []) where
    pub Reach-Inv : (u : System) → Reach backend s u → Inv blob u
    Reach-Inv u start = fresh-Inv blob s (λ _. idle) v none_yet (λ k. refl)
    Reach-Inv u (later r step) = (Step-Stepped _ u (Reach-Inv _ r) step).inv

    pub Reach-Grows : (u : System) → Reach backend s u → Grows blob s u.shared
    Reach-Grows u start = Grows-refl blob s v
    Reach-Grows u (later r step) =
        Grows-trans blob s _ u.shared (Reach-Grows _ r)
          (Step-Stepped _ u (Reach-Inv _ r) step).grows
