-- ===== src/Examples/Lines.antt =====
-- Pipes and terminals.
use yalnix_operating_system.Base.{
  ◌≡◌, ◌++◌, arith, refl, true, none, some, [], ◌∷◌, replicate, update, is_negative,
}
use yalnix_operating_system.LinkedList.{node, add_to_list}
use yalnix_operating_system.Kernel.State.{
  Kernel, Pcb, Pipe, Tty, text, bytes_stored, transmitted, freed_twice,
}
use yalnix_operating_system.Kernel.Run.{ok, returns}
use yalnix_operating_system.Sync.Pipes.{pipe_read, pipe_read_resumed, pipe_write}
use yalnix_operating_system.Sync.Pipes.Fifo.{IsPipe, Holds, pipe_read-take, pipe_write-append}
use yalnix_operating_system.Sync.Pipes.Waiters.{pipe_write-serves, pipe_read_resumed_short}
use yalnix_operating_system.Terminal.{take_line, handle_trap_tty_transmit}
use yalnix_operating_system.Terminal.Lines.{
  Writes, tty_transmit_skips, take_line_whole, take_line_part,
}
use yalnix_operating_system.Examples.Sample.{kernel, child, waiting_parent, sleeper, bytes}

abbrev pipe : Pipe
pipe = record { id = 7; len = 3; buf = bytes ++ replicate 1021 0; waiters = [] }

abbrev full_pipe : Pipe
full_pipe = record pipe { len = 1024 }

abbrev awaited_pipe : Pipe
awaited_pipe = record pipe { waiters = node 5 300 ∷ [] }

abbrev with_pipe : Pipe → Kernel
with_pipe p = record kernel { pipes = node 7 700 ∷ []; pipe_at = update (λ _. none) 700 (some p) }

is_pipe : IsPipe pipe
is_pipe = record { capacity = refl; fits = omega arith }

pipe_read-take_example :
    (k' : Kernel) × (pipe_read 7 4096 2 (with_pipe pipe) ≡ ok (returns (some 2)) k')
    × Holds (with_pipe pipe) k' 700 (9 ∷ []) []
    × (k'.log ≡ bytes_stored 100 4096 (7 ∷ 8 ∷ []) ∷ [])
pipe_read-take_example =
    pipe_read-take (with_pipe pipe) 7 (node 7 700) pipe refl (ground arith) refl is_pipe 4096 2
      (omega arith)

pipe_write-append_example :
    (k' : Kernel) × (pipe_write 7 (4 ∷ 5 ∷ []) 2 (with_pipe pipe) ≡ ok 2 k')
    × Holds (with_pipe pipe) k' 700 (7 ∷ 8 ∷ 9 ∷ 4 ∷ 5 ∷ []) []
    × (k'.ready_procs ≡ node 3 300 ∷ [])
pipe_write-append_example =
    pipe_write-append (with_pipe pipe) 7 (node 7 700) pipe refl (ground arith) refl is_pipe
      (4 ∷ 5 ∷ []) 2 (omega arith) (omega arith) refl

pipe_write-serves_example :
    (k' : Kernel) × (pipe_write 7 (4 ∷ 5 ∷ []) 2 (with_pipe awaited_pipe) ≡ ok 2 k')
    × Holds (with_pipe awaited_pipe) k' 700 (7 ∷ 8 ∷ 9 ∷ 4 ∷ 5 ∷ []) []
    × (k'.ready_procs ≡ node 3 300 ∷ node 3 300 ∷ [])
    × (k'.log ≡ freed_twice ∷ [])
pipe_write-serves_example =
    pipe_write-serves (with_pipe awaited_pipe) 7 (node 7 700) awaited_pipe (node 5 300) [] sleeper
      refl (ground arith) refl (record { capacity = refl; fits = omega arith }) refl refl
      (ground arith) (omega arith) (4 ∷ 5 ∷ []) 2 (omega arith) (omega arith)

pipe_read_resumed_short_example :
    (k' : Kernel) × (pipe' : Pipe) × (pipe_read_resumed 700 4096 5 (with_pipe pipe) ≡ ok 5 k')
    × (k'.pipe_at 700 ≡ some pipe')
    × (is_negative pipe'.len ≡ true)
pipe_read_resumed_short_example =
    pipe_read_resumed_short (with_pipe pipe) 700 pipe 4096 5 refl (omega arith) (omega arith)

abbrev tty : Tty
tty = record {
  id = 0;
  readers = [];
  writers = node 1 100 ∷ node 2 200 ∷ node 3 300 ∷ [];
  buffers = [];
}

abbrev writing : Pcb → Pcb
writing c = record c { write_buf = record { buf = text bytes; len = 3 } }

abbrev terminal : Kernel
terminal = record kernel {
  ttys = node 0 800 ∷ [];
  tty_at = update (λ _. none) 800 (some tty);
  line_at = update (λ _. none) 850 (some (7 ∷ 8 ∷ 9 ∷ 0 ∷ []));
  procs =
      update
        (update (update (λ _. none) 100 (some (writing child))) 200 (some (writing waiting_parent)))
        300 (some (writing sleeper));
}

writes_100 : Writes terminal 100 bytes
writes_100 = record {
  pcb = writing child;
  exists = refl;
  has_text = refl;
  line = refl;
  short = omega arith;
}

writes_200 : Writes terminal 200 bytes
writes_200 = record {
  pcb = writing waiting_parent;
  exists = refl;
  has_text = refl;
  line = refl;
  short = omega arith;
}

writes_300 : Writes terminal 300 bytes
writes_300 = record {
  pcb = writing sleeper;
  exists = refl;
  has_text = refl;
  line = refl;
  short = omega arith;
}

tty_transmit_skips_example :
    (k₁ k₂ : Kernel) × (handle_trap_tty_transmit [] 0 terminal ≡ ok tt k₁)
    × (handle_trap_tty_transmit [] 0 k₁ ≡ ok tt k₂)
    × (k₂.ready_procs
        ≡ add_to_list
            (add_to_list (node 3 300 ∷ []) 100 writes_100.pcb.proc_id)
            300
            writes_300.pcb.proc_id)
    × (k₂.log ≡ transmitted 0 bytes ∷ transmitted 0 bytes ∷ [])
tty_transmit_skips_example =
    tty_transmit_skips terminal [] 0 (node 0 800) (node 1 100) (node 2 200) (node 3 300) tty bytes
      bytes bytes refl refl refl writes_100 writes_200 writes_300

take_line_part_example :
    take_line 800 4096 2 850 terminal
    ≡ ok 1 (record terminal {
      procs = update terminal.procs 100 (some (record (writing child) { read_len = 0 }));
      log = bytes_stored 100 4096 (7 ∷ 8 ∷ []) ∷ [];
      line_at = update terminal.line_at 850 (some (8 ∷ 8 ∷ 9 ∷ 0 ∷ []));
      tty_at = update terminal.tty_at 800 (some (record tty { buffers = node 0 850 ∷ [] }));
    })
take_line_part_example =
    take_line_part terminal 800 4096 2 850 3 (7 ∷ 8 ∷ 9 ∷ 0 ∷ []) (writing child) tty (ground arith)
      refl refl refl refl (omega arith) (omega arith) (omega arith) (omega arith) (omega arith)

take_line_whole_example :
    take_line 800 4096 4 850 terminal
    ≡ ok 4 (record terminal {
      procs = update terminal.procs 100 (some (record (writing child) { read_len = 0 }));
      log = bytes_stored 100 4096 (7 ∷ 8 ∷ 9 ∷ 0 ∷ []) ∷ [];
    })
take_line_whole_example =
    take_line_whole terminal 800 4096 4 850 3 (7 ∷ 8 ∷ 9 ∷ 0 ∷ []) (writing child) tty
      (ground arith) refl refl refl refl (omega arith) (omega arith) (omega arith)
