-- ===== src/Instance/Tasks/Each.antt =====
-- Each turn of a call, and the drop of its future, at every point of the code.
use lazyd.Base.{ℕ, ◌≡◌, subst, some}
use lazyd.Remote.{RemoteBackend}
use lazyd.Instance.{InstanceState, Range}
use lazyd.Instance.Amplify.{IsAligned}
use lazyd.Instance.Fetch.{Serves, IsHonest}
use lazyd.Instance.Tasks.{
  Pc, idle, called, waiting, holding, asking, marking, writing, filling, leaving, returned, held,
  turn, cancel,
}
use lazyd.Instance.Tasks.Facts.{Fact, WantsIn}
use lazyd.Instance.Tasks.Turns.{
  Turned, Turned-same, called-Turned, waiting-Turned, holding-Turned, asking-Turned,
  released-Turned,
}
use lazyd.Instance.Tasks.Turns.Writing.{write_more-Turned}
use lazyd.Instance.Tasks.Turns.Marking.{mark_slots-Turned, fill_slots-Turned}

module _ (blob : ℕ → ℕ) (s : InstanceState) (v : Serves blob s) where
  pub turn-Turned :
      (backend : RemoteBackend)
      → IsHonest blob backend
      → (pc : Pc) → Fact blob s pc
      → Turned blob s (turn backend pc s).0 (turn backend pc s).1
  unfolding turn
  turn-Turned backend honest idle f = Turned-same blob s v idle f
  turn-Turned backend honest (called offset len) f = called-Turned blob s v offset len
  turn-Turned backend honest (waiting offset len range) w =
      waiting-Turned blob s v offset len range w
  turn-Turned backend honest (holding offset len range) w =
      holding-Turned blob s v offset len range w
  turn-Turned backend honest (asking offset len range) w =
      asking-Turned blob s v backend honest offset len range w
  turn-Turned backend honest (writing offset len range bytes written) (w, genuine, le, h) =
      write_more-Turned blob s v offset len range w bytes genuine written le h
  turn-Turned backend honest (marking offset len range) (w, h) =
      mark_slots-Turned blob s v offset len range w h
  turn-Turned backend honest (filling offset len range a b) (w, h, q) =
      rw (q.0, q.1) (fill_slots-Turned blob s v offset len range w h)
  turn-Turned backend honest (leaving offset len range r) (w, h) =
      released-Turned blob s v range (returned offset len r) h
  turn-Turned backend honest (returned offset len r) f =
      Turned-same blob s v (returned offset len r) f

  pub cancel-Turned : (pc : Pc) → Fact blob s pc → Turned blob s (cancel pc s).0 (cancel pc s).1
  unfolding cancel
  cancel-Turned idle f = Turned-same blob s v idle f
  cancel-Turned (called offset len) f = Turned-same blob s v (called offset len) f
  cancel-Turned (waiting offset len range) f = Turned-same blob s v idle tt
  cancel-Turned (holding offset len range) f = Turned-same blob s v (holding offset len range) f
  cancel-Turned (asking offset len range) f = released-Turned blob s v range idle tt
  cancel-Turned (writing offset len range bytes written) f =
      Turned-same blob s v (writing offset len range bytes written) f
  cancel-Turned (marking offset len range) f = Turned-same blob s v (marking offset len range) f
  cancel-Turned (filling offset len range a b) f =
      Turned-same blob s v (filling offset len range a b) f
  cancel-Turned (leaving offset len range r) f = Turned-same blob s v (leaving offset len range r) f
  cancel-Turned (returned offset len r) f = Turned-same blob s v (returned offset len r) f

  WantsIn-IsAligned :
      (offset len : ℕ) (own range : Range)
      → WantsIn s offset len own
      → some own ≡ some range
      → IsAligned s.inst.range_map.unit_bytes s.inst.range_map.blob_size range
  WantsIn-IsAligned offset len own range w q =
      let e : own ≡ range = cc in
      subst (IsAligned s.inst.range_map.unit_bytes s.inst.range_map.blob_size) e w.amplified.aligned

  -- A range in flight is whole units of the blob, and not empty.
  pub held-IsAligned :
      (pc : Pc) (range : Range)
      → Fact blob s pc
      → held pc ≡ some range
      → IsAligned s.inst.range_map.unit_bytes s.inst.range_map.blob_size range
  held-IsAligned idle range f q = cc
  held-IsAligned (called offset len) range f q = cc
  held-IsAligned (waiting offset len _) range f q = cc
  held-IsAligned (holding offset len own) range w q = WantsIn-IsAligned offset len own range w q
  held-IsAligned (asking offset len own) range w q = WantsIn-IsAligned offset len own range w q
  held-IsAligned (writing offset len own bytes written) range f q =
      WantsIn-IsAligned offset len own range f.0 q
  held-IsAligned (marking offset len own) range f q = WantsIn-IsAligned offset len own range f.0 q
  held-IsAligned (filling offset len own a b) range f q =
      WantsIn-IsAligned offset len own range f.0 q
  held-IsAligned (leaving offset len own r) range f q = WantsIn-IsAligned offset len own range f.0 q
  held-IsAligned (returned offset len r) range f q = cc
