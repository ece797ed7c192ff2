-- ===== src/Sync/Pipes/Fifo.antt =====
-- A pipe as a byte queue: `Yalnix_PipeWrite` appends, `Yalnix_PipeRead` takes from the front.
use yalnix_operating_system.Base.{
  ℕ, ◌+◌, ◌≤◌, ◌<◌, ◌^◌, ◌≡◌, ◌≢◌, refl, ap, sym, ◌∙◌, some, List, [], ◌∷◌, ◌++◌, arith, take, drop,
  replicate, length, length-append, length-take, length-drop, length-replicate, null, error, update,
  take-drop_append, take-take_le, take-append_add, take-append_le, sub_word, add_word,
}
use yalnix_operating_system.LinkedList.{ListNode, NodeList, find_by_id}
use yalnix_operating_system.Kernel.State.{Kernel, Pipe, bytes_stored}
use yalnix_operating_system.Kernel.Run.{ok, returns}
use yalnix_operating_system.Sync.Pipes.{max_pipe_len, pipe_read, pipe_read_resumed, pipe_write}

-- The bytes that wait in a pipe.
abbrev pub contents : Pipe → List ℕ
contents pipe = take pipe.len pipe.buf

pub record IsPipe (pipe : Pipe) : Type 0 where
  pub capacity : length pipe.buf ≡ 1024
  pub fits : pipe.len ≤ 1024

-- What a call on the pipe at `l` leaves there: `text` and `queue`, and all other pipes as they were.
pub record Holds (k k' : Kernel) (l : ℕ) (text : List ℕ) (queue : NodeList) : Type 0 where
  pub pipe : Pipe
  pub stored : k'.pipe_at l ≡ some pipe
  pub is_pipe : IsPipe pipe
  pub bytes : contents pipe ≡ text
  pub waiters : pipe.waiters ≡ queue
  pub others : (p : ℕ) → p ≢ l → k'.pipe_at p ≡ k.pipe_at p

-- The pipe after a write, as the code builds it.
abbrev pub with_bytes : Pipe → List ℕ → ℕ → NodeList → Pipe
with_bytes pipe memory len waiters = record pipe {
  buf = take pipe.len pipe.buf ++ (take len memory ++ drop (pipe.len + len) pipe.buf);
  len = add_word pipe.len len;
  waiters = waiters;
}

module _ (pipe : Pipe) (memory : List ℕ) (len : ℕ) (waiters : NodeList) (is : IsPipe pipe)
    (room : len ≤ length memory) (fit : pipe.len + len ≤ max_pipe_len) where
  pub with_bytes-IsPipe : IsPipe (with_bytes pipe memory len waiters)
  with_bytes-IsPipe = record {
    capacity = omega (
      arith,
      is.capacity,
      is.fits,
      length-append (take pipe.len pipe.buf) (take len memory ++ drop (pipe.len + len) pipe.buf),
      length-append (take len memory) (drop (pipe.len + len) pipe.buf),
      length-take pipe.len pipe.buf,
      length-take len memory,
      length-drop (pipe.len + len) pipe.buf,
    );
    fits = omega arith;
  }

  pub contents-with_bytes :
      contents (with_bytes pipe memory len waiters) ≡ contents pipe ++ take len memory
  contents-with_bytes =
      take-append_add len (take pipe.len pipe.buf)
        (take len memory ++ drop (pipe.len + len) pipe.buf) (add_word pipe.len len)
        (omega (arith, is.capacity, is.fits, length-take pipe.len pipe.buf))
      ∙ ap (◌++◌ (contents pipe)) (
          take-append_le len (take len memory) (drop (pipe.len + len) pipe.buf)
            (omega (arith, length-take len memory))
          ∙ take-take_le len len memory (omega arith))

module _ (k : Kernel) (pipe_id : ℕ) (l : ListNode) (pipe : Pipe)
    (found : find_by_id k.pipes pipe_id ≡ some l) (not_null : l.item ≢ null)
    (stored : k.pipe_at l.item ≡ some pipe) (is : IsPipe pipe) where
  -- A read of at most as many bytes as a well-formed pipe holds returns that number, stores the
  -- first bytes of the pipe, leaves the others in it, and changes no other pipe.
  pub pipe_read-take :
      (buf len : ℕ)
      → len ≤ pipe.len
      → (k' : Kernel) × (pipe_read pipe_id buf len k ≡ ok (returns (some len)) k')
        × Holds k k' l.item (drop len (contents pipe)) pipe.waiters
        × (k'.log ≡ bytes_stored k.curr_proc buf (take len (contents pipe)) ∷ k.log)
  unfolding pipe_read pipe_read_resumed
  pipe_read-take buf len h =
      let rest : Pipe = record pipe {
        buf = drop len pipe.buf ++ replicate len 0;
        len = sub_word pipe.len len;
      } in
      (
        record k {
          pipe_at = update k.pipe_at l.item (some rest);
          log = bytes_stored k.curr_proc buf (take len pipe.buf) ∷ k.log;
        },
        ground (arith, is.fits),
        record {
          pipe = rest;
          stored = ground arith;
          is_pipe = record {
            capacity = omega (
              arith,
              is.capacity,
              is.fits,
              length-append (drop len pipe.buf) (replicate len 0),
              length-drop len pipe.buf,
              length-replicate {A = ℕ} len 0,
            );
            fits = omega (arith, is.fits);
          };
          bytes =
              ap (λ t. take t rest.buf) (omega (arith, is.fits))
              ∙ take-drop_append len pipe.len pipe.buf (replicate len 0) h
                  (omega (arith, is.fits, is.capacity));
          waiters = refl;
          others = λ p ne. ground arith;
        },
        ap (λ (t : List ℕ). bytes_stored k.curr_proc buf t ∷ k.log)
            (sym (take-take_le len pipe.len pipe.buf h)),
      )

  -- A write that fits a well-formed pipe for which nobody waits returns its length, puts its bytes
  -- behind those in the pipe, and changes no other pipe and not the ready queue.
  pub pipe_write-append :
      (memory : List ℕ) (len : ℕ)
      → len ≤ length memory
      → pipe.len + len ≤ max_pipe_len
      → pipe.waiters ≡ []
      → (k' : Kernel) × (pipe_write pipe_id memory len k ≡ ok len k')
        × Holds k k' l.item (contents pipe ++ take len memory) []
        × (k'.ready_procs ≡ k.ready_procs)
  unfolding pipe_write
  pipe_write-append memory len m h w =
      let written = with_bytes pipe memory len [] in
      (
        record k { pipe_at = update k.pipe_at l.item (some written) },
        ground (arith, is.fits),
        record {
          pipe = written;
          stored = ground arith;
          is_pipe = with_bytes-IsPipe pipe memory len [] is m h;
          bytes = contents-with_bytes pipe memory len [] is m h;
          waiters = refl;
          others = λ p ne. ground arith;
        },
        refl,
      )

  -- A write of a length that is not negative, for which a well-formed pipe has no room, returns
  -- -1, and nothing changes.
  pub pipe_write_full :
      (memory : List ℕ) (len : ℕ)
      → len < 2 ^ 31
      → max_pipe_len < pipe.len + len
      → pipe_write pipe_id memory len k ≡ ok error k
  unfolding pipe_write
  pipe_write_full memory len small h = ground (arith, is.fits)
