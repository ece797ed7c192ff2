-- ===== src/Process/Fork/Short.antt =====
-- A fork for which there are not enough frames.
use yalnix_operating_system.Base.{
  ◌≡◌, ◌≢◌, refl, Bool, true, false, ◌&&◌, some, List, [], ◌∷◌, arith, null, update, take, add_word,
  error, if◌then◌else◌, Bool-cases, inl, inr,
}
use yalnix_operating_system.LinkedList.{NodeList}
use yalnix_operating_system.Kernel.State.{Kernel, Pcb, Pte, UserContext}
use yalnix_operating_system.Kernel.Run.{ok, returns}
use yalnix_operating_system.Memory.Frames.{is_valid, give_frames}
use yalnix_operating_system.Process.Fork.{Mallocs, every_page, new_process, fork}
use yalnix_operating_system.Process.Fork.Child.{for_stack, for_user, saved, shell}
use yalnix_operating_system.Kernel.Switch.{ks_npg}

-- The loop that hands out frames stops where it finds none.
give_frames_short :
    (want : Pte → Bool) (es : List Pte) (frames : NodeList)
    → (give_frames want es frames).enough ≡ false
    → (give_frames want es frames).frames ≡ []
unfolding give_frames
give_frames_short want [] frames e = cc
give_frames_short want (x ∷ es) [] e = ground (arith, give_frames_short want es [])
give_frames_short want (x ∷ es) (n ∷ ns) e =
    ground (arith, give_frames_short want es ns, give_frames_short want es (n ∷ ns))

second_false : (a b : Bool) → a ≡ true → (a && b) ≡ false → b ≡ false
second_false true b e f = f
second_false false b e f = cc

picked : (b : Bool) (xs ys : NodeList) → xs ≡ [] → ys ≡ [] → (if b then xs else ys) ≡ []
picked true xs ys e f = e
picked false xs ys e f = f

-- What a fork that finds too few frames has of the process `p` that runs.
pub record ShortFork (k : Kernel) (m : Mallocs) (p : Pcb) (u : UserContext) : Type 0 where
  pub running : k.procs k.curr_proc ≡ some p
  pub trapped : k.frame_at k.curr_proc ≡ some u
  pub pcb : m.pcb ≢ null
  pub new : m.pcb ≢ k.curr_proc
  pub region0_pt : m.region0_pt ≢ null
  pub region1_pt : m.region1_pt ≢ null
  pub short : ((for_stack k p).enough && (for_user k p).enough) ≡ false

module _ (k : Kernel) (m : Mallocs) (p : Pcb) (u : UserContext) (short : ShortFork k m p u) where
  frames_left : NodeList
  frames_left = if (for_stack k p).enough then (for_user k p).frames else (for_stack k p).frames

  no_frames : frames_left ≡ []
  unfolding frames_left
  no_frames = elim (Bool-cases (for_stack k p).enough) [
    | inl enough ↦ simp enough (
        give_frames_short is_valid p.region1_pt (for_stack k p).frames
          (second_false (for_stack k p).enough (for_user k p).enough enough short.short))
    | inr stops ↦
        simp stops (give_frames_short every_page (take ks_npg p.region0_pt) k.frame_list stops)
  ]

  -- The control block that is left behind.
  abbrev orphan : Pcb
  orphan =
      let c = shell k m u in
      record c {
        uc = u;
        heap_base_page = p.heap_base_page;
        brk_addr = p.brk_addr;
        region0_pt = (for_stack k p).table;
        region1_pt = if (for_stack k p).enough then (for_user k p).table else p.region1_pt;
      }

  abbrev left : Kernel
  left = record k {
    available_process_id = add_word k.available_process_id 1;
    frame_list = frames_left;
    procs =
        update
          (update
            (update (update k.procs k.curr_proc (some (saved p u))) m.pcb (some (shell k m u)))
            m.pcb (some (let c = shell k m u in record c { uc = u })))
          m.pcb (some orphan);
  }

  fork_fails : fork m k ≡ ok (returns (some error)) left
  unfolding fork new_process frames_left
  fork_fails = elim (Bool-cases (for_stack k p).enough) [
    | inl enough ↦
        let more = second_false (for_stack k p).enough (for_user k p).enough enough short.short in
        ground (
          arith, short.running, short.trapped, short.pcb, short.region0_pt, short.region1_pt,
          enough, more, short.new,
        )
    | inr stops ↦ ground (
      arith, short.running, short.trapped, short.pcb, short.region0_pt, short.region1_pt, stops,
      short.new,
    )
  ]

  -- A fork for which every `malloc` succeeds, with the control block at an address of its own, but
  -- for which there are not enough frames, returns -1 and leaves no frame free. The next process
  -- identifier is used up, the new control block stays where it is, with that identifier, the
  -- caller gets no child, and no process is added to the ready queue or to the list of all
  -- processes.
  pub fork_short :
      (k' : Kernel) × (c' p' : Pcb) × (fork m k ≡ ok (returns (some error)) k')
      × (k'.frame_list ≡ [])
      × (k'.available_process_id ≡ add_word k.available_process_id 1)
      × (k'.procs m.pcb ≡ some c')
      × (c'.proc_id ≡ k.available_process_id)
      × (k'.procs k.curr_proc ≡ some p')
      × (p'.children ≡ p.children)
      × (k'.curr_proc ≡ k.curr_proc)
      × (k'.ready_procs ≡ k.ready_procs)
      × (k'.all_procs ≡ k.all_procs)
  fork_short = (
    left,
    orphan,
    saved p u,
    fork_fails,
    no_frames,
    refl,
    ground arith,
    refl,
    ground (arith, short.new),
    refl,
    refl,
    refl,
    refl,
  )
