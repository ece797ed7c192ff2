-- ===== src/Examples/Turns.antt =====
-- Three processes that take turns at the clock.
use yalnix_operating_system.Base.{ℕ, ◌≡◌, refl, some, [], ◌∷◌, arith}
use yalnix_operating_system.LinkedList.{node}
use yalnix_operating_system.Kernel.State.{Kernel, UserContext}
use yalnix_operating_system.Kernel.Run.{ok}
use yalnix_operating_system.Kernel.Switch.Turns.{clock_point}
use yalnix_operating_system.System.Machine.{Reach}
use yalnix_operating_system.System.Ring.{Job, Ring}
use yalnix_operating_system.System.Ticks.{tick}
use yalnix_operating_system.System.Rounds.{user_mode, tick-rotate, ticks, ticks_serve}
use yalnix_operating_system.Examples.Sample.{kernel, user}

abbrev at_pc : ℕ → UserContext
at_pc a = record user { pc = a }

abbrev ring_kernel : Kernel
ring_kernel = record kernel {
  blocked_procs = [];
  ready_procs = node 3 300 ∷ node 2 200 ∷ [];
  point_at = λ _. some clock_point;
}

abbrev first : Job
first = record { id = 1; item = 100; uc = user }

abbrev second : Job
second = record { id = 3; item = 300; uc = user }

abbrev third : Job
third = record { id = 2; item = 200; uc = user }

three_wait : Ring ring_kernel first (second ∷ third ∷ [])
three_wait = record {
  curr = refl;
  not_null = ground arith;
  running = (_, refl, refl);
  frame = refl;
  ready = refl;
  blocked = refl;
  away = (ground arith, (ground arith, tt));
  distinct = ((ground arith, tt), (tt, tt));
  waits = (ground arith, refl, refl, (ground arith, refl, refl, tt));
}

tick-rotate_example :
    (k' : Kernel) × (tick 0 (at_pc 4096) ring_kernel ≡ ok tt k')
    × Ring k' second (third ∷ record { id = 1; item = 100; uc = at_pc 4096 } ∷ [])
    × ((n : ℕ) × Reach (user_mode ring_kernel) n (user_mode k'))
tick-rotate_example = tick-rotate 0 (at_pc 4096) ring_kernel first (second ∷ third ∷ []) three_wait

ticks_serve_example :
    (k' : Kernel) × (ticks 0 (at_pc 4096 ∷ at_pc 8192 ∷ []) ring_kernel ≡ ok tt k')
    × (k'.curr_proc ≡ 200)
    × (k'.frame_at 200 ≡ some user)
    × ((n : ℕ) × Reach (user_mode ring_kernel) n (user_mode k'))
ticks_serve_example =
    ticks_serve 0 (at_pc 4096 ∷ at_pc 8192 ∷ []) ring_kernel first (second ∷ []) third [] three_wait
      refl
