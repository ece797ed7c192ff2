-- ===== src/System/Fork.antt =====
-- A fork makes one process with a new identifier, and changes nothing else that the tables tell.
use yalnix_operating_system.Base.{
  ℕ, ◌≡◌, refl, Bool, true, false, arith, null, not, ◌||◌, some, if◌then◌else◌, ◌==◌, take, error,
  update,
}
use yalnix_operating_system.LinkedList.{NodeList}
use yalnix_operating_system.Kernel.State.{Kernel, Pcb, UserContext, trap_frame, after_fork}
use yalnix_operating_system.Kernel.Run.{
  M, Outcome, returns, switched, ◌>>=◌, ◌>>◌, pure, get, put, from, load_proc, store_proc, ok,
  and_then-eq-ok,
}
use yalnix_operating_system.System.Spawn.{
  Spawned, Spawned-before, Spawned-after, new_process-Spawned,
}
use yalnix_operating_system.System.Tables.{
  SameTables, SameTables-trans, Keeps, bind-Keeps, pure-Keeps, from-Keeps, load_proc-Keeps,
  perform_context_switch-Keeps,
}
use yalnix_operating_system.System.Processes.{launch-Keeps}
use yalnix_operating_system.Process.Fork.{Mallocs, new_process, every_page, launch, fork}
use yalnix_operating_system.Memory.Frames.{is_valid, give_frames}
use yalnix_operating_system.Kernel.Switch.{ks_npg, perform_context_switch}

-- The parts of a fork behind the new process: with its frames, and behind its control block.
abbrev fork_end : (enough_stack enough_user : Bool) (parent child : ℕ) → M Outcome
fork_end s e parent child =
    if not s then pure (returns (some error)) else if not e then pure (returns (some error)) else do
      launch parent child
      perform_context_switch parent parent child
          (record { uc = trap_frame; rest = after_fork parent child })
      pure switched

fork_end-Keeps : (at : ℕ) (s e : Bool) (parent child : ℕ) → Keeps at (fork_end s e parent child)
fork_end-Keeps at false e parent child = pure-Keeps at (returns (some error))
fork_end-Keeps at true false parent child = pure-Keeps at (returns (some error))
fork_end-Keeps at true true parent child =
    bind-Keeps at (launch parent child) _ (launch-Keeps at parent child) (λ _.
      bind-Keeps at (perform_context_switch parent parent child _) _
        (perform_context_switch-Keeps at parent parent child _) (λ _. pure-Keeps at switched))

abbrev fork_frames :
    (no_tables : Bool) (parent : ℕ) (p : Pcb) (u : UserContext) (child : ℕ) (blank : Pcb)
    → M Outcome
fork_frames no_tables parent p u child blank = do
  let c = record blank { uc = u }
  store_proc child c
  if no_tables then pure (returns (some error)) else do
    k₁ ← get
    let stack = give_frames every_page (take ks_npg p.region0_pt) k₁.frame_list
    let user = give_frames is_valid p.region1_pt stack.frames
    put (record k₁ { frame_list = if stack.enough then user.frames else stack.frames })
    store_proc child (record c {
      heap_base_page = p.heap_base_page;
      brk_addr = p.brk_addr;
      region0_pt = stack.table;
      region1_pt = if stack.enough then user.table else p.region1_pt;
    })
    fork_end stack.enough user.enough parent child

-- A process gets a control block with its own identifier, and the free frames change.
stored-Same :
    (at : ℕ) (k : Kernel) (p : ℕ) (c d : Pcb) (ns : NodeList)
    → k.procs p ≡ some c
    → d.proc_id ≡ c.proc_id
    → SameTables at k (record k { procs = update k.procs p (some d); frame_list = ns })
stored-Same at k p c d ns here same = ground arith

fork_frames-Same :
    (at : ℕ) (b : Bool) (parent : ℕ) (p : Pcb) (u : UserContext) (child : ℕ) (blank : Pcb)
    (k : Kernel) (a : Outcome) (k' : Kernel)
    → k.procs child ≡ some blank
    → fork_frames b parent p u child blank k ≡ ok a k'
    → SameTables at k k'
fork_frames-Same at true parent p u child blank k a k' here h = ground arith
fork_frames-Same at false parent p u child blank k a k' here h =
    let c : Pcb = record blank { uc = u } in
    SameTables-trans at (stored-Same at k child blank c k.frame_list here refl) (
      SameTables-trans at (stored-Same at _ child c _ _ (ground arith) refl)
        (fork_end-Keeps at _ _ parent child _ a k' h))

abbrev fork_rest : (m : Mallocs) (parent : ℕ) (p : Pcb) (u : UserContext) (child : ℕ) → M Outcome
fork_rest m parent p u child = do
  blank ← load_proc child
  fork_frames (m.region0_pt == null || m.region1_pt == null) parent p u child blank

fork_rest-Keeps :
    (at : ℕ) (m : Mallocs) (parent : ℕ) (p : Pcb) (u : UserContext) (child : ℕ)
    → Keeps at (fork_rest m parent p u child)
fork_rest-Keeps at m parent p u child k a k' h =
    let (blank, k₁, e, rest) = and_then-eq-ok (load_proc child k) _ h in
    SameTables-trans at (load_proc-Keeps at child k blank k₁ e)
      (fork_frames-Same at _ parent p u child blank k₁ a k' (ground arith) rest)

fork_spawns :
    (at : ℕ) (m : Mallocs) (parent : ℕ) (p : Pcb) (u : UserContext) (k : Kernel) (a : Outcome)
    (k' : Kernel)
    → k.procs parent ≡ some p
    → (do
      store_proc parent (record p { uc = u })
      child ← new_process m.pcb m.junk u
      fork_rest m parent p u child)
        k
      ≡ ok a k'
    → Spawned m.pcb at k k'
fork_spawns at m parent p u k a k' here h =
    let (child, k₁, e, rest) = and_then-eq-ok (new_process m.pcb m.junk u _) _ h in
    let (which, spawned) = new_process-Spawned at m.pcb m.junk u _ child k₁ e in
    Spawned-after m.pcb at
      (Spawned-before m.pcb at
        (stored-Same at k parent p (record p { uc = u }) k.frame_list here refl) spawned)
      (fork_rest-Keeps at m parent p u child k₁ a k' rest)

pub fork-Spawned :
    (at : ℕ) (m : Mallocs) (k : Kernel) (a : Outcome) (k' : Kernel)
    → fork m k ≡ ok a k'
    → Spawned m.pcb at k k'
unfolding fork
fork-Spawned at m k a k' h =
    let (u, k₁, e₁, h₁) = and_then-eq-ok (from (k.frame_at k.curr_proc) k) _ h in
    let (p, k₂, e₂, h₂) = and_then-eq-ok (load_proc k.curr_proc k₁) _ h₁ in
    Spawned-before m.pcb at
      (SameTables-trans at (from-Keeps at (k.frame_at k.curr_proc) k u k₁ e₁)
        (load_proc-Keeps at k.curr_proc k₁ p k₂ e₂))
      (fork_spawns at m k.curr_proc p u k₂ a k' (ground arith) h₂)
