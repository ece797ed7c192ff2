-- ===== src/Sync/Pipes/Waiters.antt =====
-- Readers that wait at a pipe: whom a write serves, and what a reader finds when it comes back.
use yalnix_operating_system.Base.{
  ℕ, ◌+◌, ◌≤◌, ◌<◌, ◌^◌, ◌≡◌, ◌≢◌, refl, true, some, List, [], ◌∷◌, ◌++◌, arith, take, drop, length,
  if◌then◌else◌, leb, null, update, replicate, sub_word, sym, is_negative, Bool-cases, inl, inr,
}
use mathlib.Core.List.{append-nil}
use yalnix_operating_system.LinkedList.{ListNode, NodeList, node, find_by_id, add_to_list}
use yalnix_operating_system.LinkedList.Laws.{add_to_list-append}
use yalnix_operating_system.Kernel.State.{Kernel, Pcb, Pipe, bytes_stored, freed_twice}
use yalnix_operating_system.Kernel.Run.{ok}
use yalnix_operating_system.Sync.Pipes.{max_pipe_len, pipe_read_resumed, pipe_write}
use yalnix_operating_system.Sync.Pipes.Fifo.{
  contents, IsPipe, Holds, with_bytes, with_bytes-IsPipe, contents-with_bytes,
}

-- The reader at the head of the queue, when `total` bytes are there: it leaves the queue if that is
-- enough for it, and goes to the end of the queue if not.
abbrev pub still_waiting : ListNode → NodeList → ℕ → NodeList
still_waiting w ws total = if leb w.id total then ws else ws ++ w ∷ []

abbrev pub woken : ListNode → Pcb → ℕ → NodeList
woken w c total = if leb w.id total then node c.proc_id w.item ∷ [] else []

module _ (k : Kernel) (pipe_id : ℕ) (l : ListNode) (pipe : Pipe) (w : ListNode) (ws : NodeList)
    (c : Pcb) (found : find_by_id k.pipes pipe_id ≡ some l) (not_null : l.item ≢ null)
    (stored : k.pipe_at l.item ≡ some pipe) (is : IsPipe pipe) (first : pipe.waiters ≡ w ∷ ws)
    (reader : k.procs w.item ≡ some c) (real : w.item ≢ null) (want : w.id < 2 ^ 31) where
  -- A write that fits a well-formed pipe with waiting readers returns its length and appends its
  -- bytes. It makes the first reader ready if the pipe holds as many bytes as that reader wants,
  -- else that reader goes to the end of the waiters; no other reader is looked at, and the
  -- reader's list node is freed twice.
  pub pipe_write-serves :
      (memory : List ℕ) (len : ℕ)
      → len ≤ length memory
      → pipe.len + len ≤ max_pipe_len
      → (k' : Kernel) × (pipe_write pipe_id memory len k ≡ ok len k')
        × Holds k k' l.item (contents pipe ++ take len memory) (still_waiting w ws (pipe.len + len))
        × (k'.ready_procs ≡ k.ready_procs ++ woken w c (pipe.len + len))
        × (k'.log ≡ freed_twice ∷ k.log)
  unfolding pipe_write
  pipe_write-serves memory len m h = elim (Bool-cases (leb w.id (pipe.len + len))) [
    | inl enough ↦
        let written = with_bytes pipe memory len ws in
        (
          record k {
            pipe_at = update k.pipe_at l.item (some written);
            ready_procs = add_to_list k.ready_procs w.item c.proc_id;
            log = freed_twice ∷ k.log;
          },
          ground (arith, is.fits),
          record {
            pipe = written;
            stored = ground arith;
            is_pipe = with_bytes-IsPipe pipe memory len ws is m h;
            bytes = contents-with_bytes pipe memory len ws is m h;
            waiters = rw enough;
            others = λ p ne. ground arith;
          },
          rw (add_to_list-append, enough),
          refl,
        )
    | inr wait ↦
        let written = with_bytes pipe memory len (add_to_list ws w.item w.id) in
        (
          record k { pipe_at = update k.pipe_at l.item (some written); log = freed_twice ∷ k.log },
          ground (arith, is.fits),
          record {
            pipe = written;
            stored = ground arith;
            is_pipe = with_bytes-IsPipe pipe memory len (add_to_list ws w.item w.id) is m h;
            bytes = contents-with_bytes pipe memory len (add_to_list ws w.item w.id) is m h;
            waiters = rw (wait, add_to_list-append);
            others = λ p ne. ground arith;
          },
          rw wait (sym (append-nil k.ready_procs)),
          refl,
        )
  ]

-- A reader that comes back from its wait and finds less in the pipe than it wants, at most 1024
-- bytes, returns what it wants all the same, and leaves the pipe with a negative length.
pub pipe_read_resumed_short :
    (k : Kernel) (p : ℕ) (pipe : Pipe) (buf len : ℕ)
    → k.pipe_at p ≡ some pipe
    → len ≤ max_pipe_len
    → pipe.len < len
    → (k' : Kernel) × (pipe' : Pipe) × (pipe_read_resumed p buf len k ≡ ok len k')
      × (k'.pipe_at p ≡ some pipe')
      × (is_negative pipe'.len ≡ true)
unfolding pipe_read_resumed
pipe_read_resumed_short k p pipe buf len stored fits short =
    let rest : Pipe = record pipe {
      buf = drop len pipe.buf ++ replicate len 0;
      len = sub_word pipe.len len;
    } in
    (
      record k {
        pipe_at = update k.pipe_at p (some rest);
        log = bytes_stored k.curr_proc buf (take len pipe.buf) ∷ k.log;
      },
      rest,
      ground arith,
      ground arith,
      ground arith,
    )
