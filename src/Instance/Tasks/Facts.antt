-- ===== src/Instance/Tasks/Facts.antt =====
-- What is known of the shared instance while a call of `ensure_range` stands at a point of its
-- code, and why the turns of other calls leave it true.
use lazyd.Base.{ℕ, ◌+◌, ◌/◌, ◌≤◌, ◌<◌, ◌≡◌, sym, subst, ◌∙◌, Bytes, length, get_or, arith, div_ceil}
use lazyd.Errors.{ok}
use lazyd.RangeMap.Update.{IsReady}
use lazyd.Instance.{InstanceState, Range}
use lazyd.Instance.Write.{byte_at}
use lazyd.Instance.Amplify.{Amplified}
use lazyd.Instance.Backed.{Holds}
use lazyd.Instance.Tasks.{
  Pc, idle, called, waiting, holding, asking, marking, writing, filling, leaving, returned,
}

-- From `s` to `t` no byte of the blob was lost, and no unit of the bitmap in memory.
pub record Grows (blob : ℕ → ℕ) (s t : InstanceState) : Type 0 where
  pub config : t.inst.config ≡ s.inst.config
  pub file : t.inst.range_map.file ≡ s.inst.range_map.file
  pub unit : t.inst.range_map.unit_bytes ≡ s.inst.range_map.unit_bytes
  pub size : t.inst.range_map.blob_size ≡ s.inst.range_map.blob_size
  pub ready : (i : ℕ) → IsReady s.inst.range_map i → IsReady t.inst.range_map i
  pub good :
      (i : ℕ)
      → byte_at s.disk s.inst.config.target_path i ≡ blob i
      → byte_at t.disk s.inst.config.target_path i ≡ blob i

pub Grows-trans :
    (blob : ℕ → ℕ) (s t u : InstanceState) → Grows blob s t → Grows blob t u → Grows blob s u
Grows-trans blob s t u g h = record {
  config = h.config ∙ g.config;
  file = h.file ∙ g.file;
  unit = h.unit ∙ g.unit;
  size = h.size ∙ g.size;
  ready = λ i q. h.ready i (g.ready i q);
  good = λ i q.
      subst (λ c. byte_at u.disk c.target_path i ≡ blob i) g.config
        (h.good i
          (subst (λ c. byte_at t.disk c.target_path i ≡ blob i) (sym g.config) (g.good i q)));
}

pub record Wants (unit size offset len : ℕ) (range : Range) : Type 0 where
  pub pos : 0 < len
  pub within : offset + len ≤ size
  pub amplified : Amplified unit size offset len range

-- The first `n` bytes of the range are in the cache file.
abbrev pub InFile : (ℕ → ℕ) → InstanceState → Range → ℕ → Type 0
InFile blob s range n = Holds blob s.inst.config.target_path s.disk range.offset (range.offset + n)

-- The bytes of a request are within the blob and ready.
abbrev pub AllReady : InstanceState → ℕ → ℕ → Type 0
AllReady s offset len =
    (i : ℕ)
    → offset ≤ i
    → i < offset + len
    → (i < s.inst.range_map.blob_size) × IsReady s.inst.range_map i

abbrev pub Genuine : (ℕ → ℕ) → Range → Bytes → Type 0
Genuine blob range bytes =
    (length bytes ≡ range.len)
    × ((k : ℕ) → k < length bytes → get_or bytes k 0 ≡ blob (range.offset + k))

abbrev pub WantsIn : InstanceState → ℕ → ℕ → Range → Type 0
WantsIn s = Wants s.inst.range_map.unit_bytes s.inst.range_map.blob_size

abbrev pub Slots : InstanceState → Range → ℕ → ℕ → Type 0
Slots s range slot_start slot_end =
    (slot_start ≡ range.offset / s.inst.range_map.unit_bytes)
    × (slot_end ≡ div_ceil (range.offset + range.len) s.inst.range_map.unit_bytes)

abbrev pub Fact : (ℕ → ℕ) → InstanceState → Pc → Type 0
Fact blob s idle = Unit
Fact blob s (called offset len) = Unit
Fact blob s (waiting offset len range) = WantsIn s offset len range
Fact blob s (holding offset len range) = WantsIn s offset len range
Fact blob s (asking offset len range) = WantsIn s offset len range
Fact blob s (writing offset len range bytes written) =
    WantsIn s offset len range
    × Genuine blob range bytes
    × (written ≤ length bytes)
    × InFile blob s range written
Fact blob s (marking offset len range) = WantsIn s offset len range × InFile blob s range range.len
Fact blob s (filling offset len range slot_start slot_end) =
    WantsIn s offset len range × InFile blob s range range.len × Slots s range slot_start slot_end
Fact blob s (leaving offset len range r) =
    WantsIn s offset len range × (r ≡ ok tt → AllReady s offset len)
Fact blob s (returned offset len r) = r ≡ ok tt → AllReady s offset len

module _ (blob : ℕ → ℕ) (s t : InstanceState) (g : Grows blob s t) where
  WantsIn-stays :
      (offset len : ℕ) (range : Range) → WantsIn s offset len range → WantsIn t offset len range
  WantsIn-stays offset len range w =
      subst (λ n. Wants n t.inst.range_map.blob_size offset len range) (sym g.unit)
        (subst (λ n. Wants s.inst.range_map.unit_bytes n offset len range) (sym g.size) w)

  InFile-stays : (range : Range) (n : ℕ) → InFile blob s range n → InFile blob t range n
  InFile-stays range n h i lo hi =
      subst (λ c. byte_at t.disk c.target_path i ≡ blob i) (sym g.config) (g.good i (h i lo hi))

  AllReady-stays : (offset len : ℕ) → AllReady s offset len → AllReady t offset len
  AllReady-stays offset len h i lo hi =
      (omega (arith, (h i lo hi).0, g.size), g.ready i (h i lo hi).1)

  Slots-stays : (range : Range) (a b : ℕ) → Slots s range a b → Slots t range a b
  Slots-stays range a b q = rw g.unit q

  -- What is known of a task stays true while the others have their turns.
  pub Fact-stays : (pc : Pc) → Fact blob s pc → Fact blob t pc
  Fact-stays idle f = tt
  Fact-stays (called offset len) f = tt
  Fact-stays (waiting offset len range) f = WantsIn-stays offset len range f
  Fact-stays (holding offset len range) f = WantsIn-stays offset len range f
  Fact-stays (asking offset len range) f = WantsIn-stays offset len range f
  Fact-stays (writing offset len range bytes written) (w, genuine, le, h) =
      (WantsIn-stays offset len range w, genuine, le, InFile-stays range written h)
  Fact-stays (marking offset len range) (w, h) =
      (WantsIn-stays offset len range w, InFile-stays range range.len h)
  Fact-stays (filling offset len range a b) (w, h, q) =
      (WantsIn-stays offset len range w, InFile-stays range range.len h, Slots-stays range a b q)
  Fact-stays (leaving offset len range r) (w, h) =
      (WantsIn-stays offset len range w, λ q. AllReady-stays offset len (h q))
  Fact-stays (returned offset len r) f = λ q. AllReady-stays offset len (f q)
