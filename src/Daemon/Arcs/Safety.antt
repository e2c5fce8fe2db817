-- ===== src/Daemon/Arcs/Safety.antt =====
-- What holds of all instances of the daemon and of all calls on them, however they interleave.
use lazyd.Base.{ℕ, ◌+◌, ◌≤◌, ◌<◌, ◌≡◌, ◌≢◌, refl, subst, some, false, List, [], ◌∷◌}
use lazyd.Errors.{ok}
use lazyd.Disk.{Disk}
use lazyd.RangeMap.Update.{IsReady}
use lazyd.Instance.{Instance, Range, overlaps}
use lazyd.Instance.Write.{byte_at}
use lazyd.Instance.Fetch.{Serves}
use lazyd.Instance.Tasks.{returned, held}
use lazyd.Instance.Tasks.Facts.{Fact}
use lazyd.Registry.{Setup}
use lazyd.Daemon.Arcs.{
  Live, system, begun, Move, registers, unregisters, calls, runs, drops, frees, move, moves,
  Opening, AllOpen,
}
use lazyd.Daemon.Arcs.Change.{LiveInv, free_arc-LiveInv}
use lazyd.Daemon.Arcs.Moves.{run_arc-LiveInv, drop_arc-LiveInv, call_arc-LiveInv}
use lazyd.Daemon.Arcs.Openings.{register_arc-LiveInv, unregister_arc-LiveInv}

module _ (setup : Setup) (blob : ℕ → ℕ → ℕ) where
  move-LiveInv :
      (m : Move) (l : Live)
      → LiveInv setup blob l
      → Opening setup blob m l
      → LiveInv setup blob (move setup m l)
  move-LiveInv (registers id config a) l v opens =
      register_arc-LiveInv setup blob l v id config a opens
  move-LiveInv (unregisters id) l v opens = unregister_arc-LiveInv setup blob l v id
  move-LiveInv (calls id k offset len) l v opens = call_arc-LiveInv setup blob l v id k offset len
  move-LiveInv (runs a k) l v opens = run_arc-LiveInv setup blob l v a k
  move-LiveInv (drops a k) l v opens = drop_arc-LiveInv setup blob l v a k
  move-LiveInv (frees a) l v opens = free_arc-LiveInv setup blob l v a

  moves-LiveInv :
      (ms : List Move) (l : Live)
      → LiveInv setup blob l
      → AllOpen setup blob ms l
      → LiveInv setup blob (moves setup ms l)
  moves-LiveInv [] l v opens = v
  moves-LiveInv (m ∷ ms) l v (now, later) =
      moves-LiveInv ms (move setup m l) (move-LiveInv m l v now) later

  begun-LiveInv : (d : Disk) → LiveInv setup blob (begun d)
  begun-LiveInv d = record {
    inv = λ a i q. absurd cc;
    honest = λ a i q. absurd cc;
    apart = λ a b i j p q ne. absurd cc;
    unused = λ a q k. refl;
  }

  -- From the start of the daemon on any disk, after any sequence of these moves: a registration, a
  -- removal, the start of a call of ensure_range by a name, one turn of a call, the drop of its
  -- future, and the end of an instance that no name and no call has. If each registration of a
  -- name that is free comes with an honest backend, with a bitmap file that tells the truth where
  -- its header is the expected one, and with two files that no other instance uses, then each
  -- instance that is registered or held by a call serves its blob; each byte of a call on it that
  -- is back with ok is ready and in the cache file; and the ranges that two calls on it have in
  -- flight share no byte. That no other instance uses the files is an assumption on the requests:
  -- register does not check it.
  pub arcs_serve :
      (ms : List Move) (d : Disk)
      → AllOpen setup blob ms (begun d)
      → (a : ℕ) (i : Instance) → (moves setup ms (begun d)).arcs a ≡ some i
      → Serves (blob a) (system (moves setup ms (begun d)) a i).shared
        × ((k offset len : ℕ)
            → (moves setup ms (begun d)).pc a k ≡ returned offset len (ok tt)
            → (n : ℕ) → offset ≤ n
            → n < offset + len
            → IsReady i.range_map n
              × (byte_at (moves setup ms (begun d)).disk i.config.target_path n ≡ blob a n))
        × ((j k : ℕ) (r q : Range)
            → j ≢ k
            → held ((moves setup ms (begun d)).pc a j) ≡ some r
            → held ((moves setup ms (begun d)).pc a k) ≡ some q
            → overlaps r q ≡ false)
  arcs_serve ms d opens a i q =
      let l : Live = moves setup ms (begun d) in
      let v = moves-LiveInv ms (begun d) (begun-LiveInv d) opens in
      let inv = v.inv a i q in
      (
        inv.serves,
        λ k offset len back n lo hi.
            let (below, ready) =
              subst (Fact (blob a) (system l a i).shared) back (inv.facts k) refl n lo hi in
            (ready, inv.serves.backed.memory n below ready),
        inv.apart,
      )
