-- ===== src/Process/Fork/Child.antt =====
-- A fork that has its frames.
use yalnix_operating_system.Base.{
  ◌≡◌, ◌≢◌, ap, true, none, some, arith, null, update, take, drop, add_word,
}
use yalnix_operating_system.LinkedList.{add_to_list}
use yalnix_operating_system.Kernel.State.{
  Kernel, Pcb, UserContext, Point, trap_frame, after_fork, zero_block, no_text,
}
use yalnix_operating_system.Kernel.Run.{ok, switched, is_ok-ok}
use yalnix_operating_system.Kernel.Switch.{kernel_stack_page, ks_npg, perform_context_switch}
use yalnix_operating_system.Kernel.Switch.Same.{
  kept, perform_context_switch-Same, perform_context_switch-SameProcs,
}
use yalnix_operating_system.Kernel.Switch.Laws.{
  perform_context_switch-is_ok, perform_context_switch-point,
}
use yalnix_operating_system.Memory.Frames.{Given, is_valid, give_frames, copy_pages}
use yalnix_operating_system.Process.Fork.{Mallocs, every_page, list_of, new_process, launch, fork}

-- The frames for the child's kernel stack, and those for its other pages.
abbrev pub for_stack : Kernel → Pcb → Given
for_stack k p = give_frames every_page (take ks_npg p.region0_pt) k.frame_list

abbrev pub for_user : Kernel → Pcb → Given
for_user k p = give_frames is_valid p.region1_pt (for_stack k p).frames

-- What a fork that succeeds wants of the process `p` that runs.
pub record CanFork (k : Kernel) (m : Mallocs) (p : Pcb) (u : UserContext) : Type 0 where
  pub running : k.procs k.curr_proc ≡ some p
  pub not_null : k.curr_proc ≢ null
  pub trapped : k.frame_at k.curr_proc ≡ some u
  pub pcb : m.pcb ≢ null
  pub new : m.pcb ≢ k.curr_proc
  pub region0_pt : m.region0_pt ≢ null
  pub region1_pt : m.region1_pt ≢ null
  pub stack_frames : (for_stack k p).enough ≡ true
  pub user_frames : (for_user k p).enough ≡ true

-- The control blocks as the fork goes on: the parent's, then the child's.
abbrev pub saved : Pcb → UserContext → Pcb
saved p u = record p { uc = u }

abbrev pub shell : Kernel → Mallocs → UserContext → Pcb
shell k m u =
    let blank = m.junk.uc in
    record (m.junk) {
      proc_id = k.available_process_id;
      uc = record blank { vector = u.vector; code = u.code };
      block = zero_block;
      children = none;
      exited_children = none;
      parent = null;
      heap_base_page = 0;
      brk_addr = 0;
      kc_set = 0;
      write_buf = record { buf = no_text; len = 0 };
    }

abbrev mapped : Kernel → Mallocs → Pcb → UserContext → Pcb
mapped k m p u =
    let c = shell k m u in
    record c {
      uc = u;
      heap_base_page = p.heap_base_page;
      brk_addr = p.brk_addr;
      region0_pt = (for_stack k p).table;
      region1_pt = (for_user k p).table;
    }

abbrev child_of : Kernel → Mallocs → Pcb → UserContext → Pcb
child_of k m p u = let c = mapped k m p u in record c { parent = k.curr_proc }

abbrev parent_of : Kernel → Mallocs → Pcb → UserContext → Pcb
parent_of k m p u = record p {
  uc = u;
  children = some (add_to_list (list_of p.children) m.pcb k.available_process_id);
}

-- The state before the copy of the pages.
abbrev given : Kernel → Mallocs → Pcb → UserContext → Kernel
given k m p u = record k {
  available_process_id = add_word k.available_process_id 1;
  frame_list = (for_user k p).frames;
  procs =
      update
        (update (update (update k.procs k.curr_proc (some (saved p u))) m.pcb (some (shell k m u)))
          m.pcb (some (let c = shell k m u in record c { uc = u })))
        m.pcb (some (mapped k m p u));
}

-- The state in which the switch to the child is made.
abbrev forked : Kernel → Mallocs → Pcb → UserContext → Kernel
forked k m p u =
    let g = given k m p u in
    record g {
      phys = copy_pages is_valid p.region1_pt (for_user k p).table (
          copy_pages every_page (drop kernel_stack_page k.r0_pagetable) (for_stack k p).table
            k.phys);
      procs =
          update (update g.procs m.pcb (some (child_of k m p u))) k.curr_proc
            (some (parent_of k m p u));
      all_procs = add_to_list k.all_procs m.pcb k.available_process_id;
      ready_procs = add_to_list k.ready_procs k.curr_proc p.proc_id;
    }

module _ (k : Kernel) (m : Mallocs) (p : Pcb) (u : UserContext) (can : CanFork k m p u) where
  launch_lem : launch k.curr_proc m.pcb (given k m p u) ≡ ok tt (forked k m p u)
  unfolding launch
  launch_lem = ground (arith, can.new)

  fork_run :
      (k' : Kernel)
      → launch k.curr_proc m.pcb (given k m p u) ≡ ok tt (forked k m p u)
      → perform_context_switch k.curr_proc k.curr_proc m.pcb
          (record { uc = trap_frame; rest = after_fork k.curr_proc m.pcb })
          (forked k m p u)
        ≡ ok tt k'
      → fork m k ≡ ok switched k'
  unfolding fork new_process
  fork_run k' run sw = ground (
    arith, can.running, can.trapped, can.pcb, can.region0_pt, can.region1_pt, can.stack_frames,
    can.user_frames, can.new,
  )

  -- A fork for which every `malloc` succeeds, at an address of its own, and for which there are
  -- enough frames, ends in the child: the child has the next process identifier, the caller as its
  -- parent, no children, and the page table with the new frames; the caller gets it as its last
  -- child, is at the end of the ready queue, and waits at the end of the fork; the child is the
  -- last of all processes, and the frames it was given are not free any more.
  pub fork_lem :
      (k' : Kernel) × (c' p' : Pcb) × (fork m k ≡ ok switched k')
      × (k'.curr_proc ≡ m.pcb)
      × (k'.ready_procs ≡ add_to_list k.ready_procs k.curr_proc p.proc_id)
      × (k'.all_procs ≡ add_to_list k.all_procs m.pcb k.available_process_id)
      × (k'.procs m.pcb ≡ some c')
      × (c'.proc_id ≡ k.available_process_id)
      × (c'.parent ≡ k.curr_proc)
      × (c'.children ≡ none)
      × (c'.region1_pt ≡ (for_user k p).table)
      × (k'.procs k.curr_proc ≡ some p')
      × (p'.children ≡ some (add_to_list (list_of p.children) m.pcb k.available_process_id))
      × (k'.frame_list ≡ (for_user k p).frames)
      × (k'.point_at k.curr_proc
          ≡ some (record { uc = trap_frame; rest = after_fork k.curr_proc m.pcb }))
  fork_lem =
      let f : Kernel = forked k m p u in
      let here : Point = record { uc = trap_frame; rest = after_fork k.curr_proc m.pcb } in
      let at_parent : f.procs k.curr_proc ≡ some (parent_of k m p u) = ground arith in
      let at_child : f.procs m.pcb ≡ some (child_of k m p u) = ground (arith, can.new) in
      let (k', sw) = is_ok-ok _ (
        perform_context_switch-is_ok k.curr_proc k.curr_proc m.pcb here f at_parent at_child
          can.not_null (u, can.trapped)) in
      let (same, curr, ready) =
        perform_context_switch-Same k.curr_proc k.curr_proc m.pcb here f sw in
      let procs = perform_context_switch-SameProcs k.curr_proc k.curr_proc m.pcb here f sw in
      let (c', e, ess) = kept f k' m.pcb (child_of k m p u) procs at_child in
      let (p', e', ess') = kept f k' k.curr_proc (parent_of k m p u) procs at_parent in
      (
        k',
        c',
        p',
        fork_run k' launch_lem sw,
        curr,
        ready,
        same.all_procs,
        e,
        ap (λ x. x.proc_id) ess,
        ap (λ x. x.parent) ess,
        ap (λ x. x.children) ess,
        ap (λ x. x.region1_pt) ess,
        e',
        ap (λ x. x.children) ess',
        same.frame_list,
        perform_context_switch-point k.curr_proc k.curr_proc m.pcb here f can.not_null sw,
      )
