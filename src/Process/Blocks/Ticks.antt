-- ===== src/Process/Blocks/Ticks.antt =====
-- How long `Yalnix_Delay` delays.
use yalnix_operating_system.Base.{
  ℕ, zero, suc, ◌+◌, ◌<◌, ◌^◌, ◌≡◌, ap, arith, some, List, [], ◌∷◌, ◌++◌, replicate, update,
  sub_word,
}
use yalnix_operating_system.LinkedList.{ListNode, NodeList, add_to_list}
use yalnix_operating_system.Kernel.State.{Kernel, Pcb, Block, zero_block, trap_frame, after_delay}
use yalnix_operating_system.Kernel.Run.{M, ◌>>=◌, pure, ok, switched}
use yalnix_operating_system.Kernel.Switch.Same.{kept, get_some}
use yalnix_operating_system.Kernel.Switch.Laws.{CanSwitch, switch_to_next_available_proc-Switched}
use yalnix_operating_system.Process.Blocks.{
  block_active, delay_block, blocked, unblocked, check_block, delay,
}

-- The answers of `n` checks of a process, one at each clock tick.
pub checks : ℕ → ℕ → M (List ℕ)
checks zero p = pure []
checks (suc n) p = do verdict ← check_block p; verdicts ← checks n p; pure (verdict ∷ verdicts)

abbrev delayed : Pcb → ℕ → Block
delayed c n = record {
  active = block_active;
  type = delay_block;
  delay_count = n;
  obj_ptr = c.block.obj_ptr;
}

abbrev with_block : Pcb → Block → Pcb
with_block c b = record c { block = b }

-- A block with a delay count of n + 1, below 2^32, answers the checks of the following n ticks
-- with BLOCKED and the next one with UNBLOCKED, and is empty then.
pub checks_of_delay :
    (n : ℕ) (p : ℕ) (c : Pcb) (k : Kernel)
    → n + 1 < 2 ^ 32
    → k.procs p ≡ some (with_block c (delayed c (suc n)))
    → (k' : Kernel) × (checks (suc n) p k ≡ ok (replicate n blocked ++ unblocked ∷ []) k')
      × (k'.procs p ≡ some (with_block c zero_block))
unfolding checks check_block
checks_of_delay zero p c k small e = (
  record k { procs = update k.procs p (some (with_block c zero_block)) },
  ground arith,
  ground arith,
)
checks_of_delay (suc n) p c k small e =
    let k₁ : Kernel = record k {
      procs = update k.procs p (some (with_block c (delayed c (sub_word (suc (suc n)) 1))));
    } in
    let (k', run, at) = checks_of_delay n p c k₁ (omega arith) (ground arith) in
    (k', ground (arith, run), at)

-- A delay of a positive number of ticks, by a process that can be switched out, sets a delay block
-- with that count, puts the caller at the end of the blocked queue, and runs the first process of
-- the ready queue.
pub delay_lem :
    (k : Kernel) (clock_ticks : ℕ) (c : Pcb) (n : ListNode) (others : NodeList)
    → k.procs k.curr_proc ≡ some c
    → 0 < clock_ticks
    → clock_ticks < 2 ^ 31
    → CanSwitch k trap_frame n others
    → (k' : Kernel) × (c' : Pcb) × (delay clock_ticks k ≡ ok switched k')
      × (k'.procs k.curr_proc ≡ some c')
      × (c'.block ≡ delayed c clock_ticks)
      × (k'.blocked_procs ≡ add_to_list k.blocked_procs k.curr_proc c.proc_id)
      × (k'.curr_proc ≡ n.item)
      × (k'.ready_procs ≡ others)
unfolding delay
delay_lem k clock_ticks c n others running pos small can =
    let c₁ : Pcb = with_block c (delayed c clock_ticks) in
    let k₁ : Kernel = record k {
      procs = update k.procs k.curr_proc (some c₁);
      blocked_procs = add_to_list k.blocked_procs k.curr_proc c.proc_id;
    } in
    let can₁ : CanSwitch k₁ trap_frame n others = record {
      running = (c₁, ground arith);
      not_null = can.not_null;
      has_uc = can.has_uc;
      queue = can.queue;
      next = get_some (ground (arith, can.next.1));
    } in
    let (k', run, s) = switch_to_next_available_proc-Switched k₁ trap_frame after_delay can₁ in
    let (c', at, same) = kept k₁ k' k.curr_proc c₁ s.procs (ground arith) in
    (
      k',
      c',
      ground (arith, run, can.queue),
      at,
      ap (λ (z : Pcb). z.block) same,
      s.same.blocked_procs,
      s.curr,
      s.ready,
    )
