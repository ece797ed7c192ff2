-- ===== src/Sync/Pipes.antt =====
-- `Yalnix_PipeInit`, `Yalnix_PipeRead` and `Yalnix_PipeWrite`. The text that a writer passes is an
-- argument, the memory from `buf` on; what a reader gets is logged.
pub mod Fifo
pub mod Waiters
use yalnix_operating_system.Base.{
  ℕ, ◌+◌, ◌-◌, false, ◌||◌, none, some, List, ◌++◌, take, drop, replicate, if◌then◌else◌, ◌==◌,
  update, null, error, success, is_negative, greater, add_word, sub_word,
}
use yalnix_operating_system.LinkedList.{ListNode, data_of, init_list, add_to_list, pop, find_by_id}
use yalnix_operating_system.Kernel.State.{Kernel, Pipe, pcb_uc, after_pipe_read, freed_twice}
use yalnix_operating_system.Kernel.Run.{
  M, Outcome, returns, switched, ◌>>=◌, ◌>>◌, pure, get, put, crash, load_proc, load_pipe,
  store_pipe, store_int, store_bytes, make_ready, emit,
}
use yalnix_operating_system.Kernel.Switch.{switch_to_next_available_proc}

abbrev pub max_pipe_len : ℕ
max_pipe_len = 1024

-- `fresh` and `fresh_buf` are what `malloc` returns for the pipe and its buffer.
unfoldable pub pipe_init : (fresh fresh_buf pip_idp : ℕ) → M ℕ
pipe_init fresh fresh_buf pip_idp = if fresh == null || fresh_buf == null then pure error else do
  k ← get
  let pipe : Pipe = record {
    id = k.next_resource_id;
    len = 0;
    buf = replicate max_pipe_len 0;
    waiters = init_list;
  }
  put (record k {
    pipe_at = update k.pipe_at fresh (some pipe);
    next_resource_id = add_word k.next_resource_id 1;
    pipes = add_to_list k.pipes fresh pipe.id;
  })
  store_int pip_idp pipe.id
  pure success

-- The part of `Yalnix_PipeRead` behind the wait. A negative length makes `memmove` run wild.
unfoldable pub pipe_read_resumed : (pipe buf len : ℕ) → M ℕ
pipe_read_resumed ptr buf len = do
  pipe ← load_pipe ptr
  if is_negative len then crash else do
    store_bytes buf (take len pipe.buf)
    store_pipe ptr
        (record pipe { buf = drop len pipe.buf ++ replicate len 0; len = sub_word pipe.len len })
    pure len

unfoldable pub pipe_read : (pipe_id buf len : ℕ) → M Outcome
pipe_read pipe_id buf len = do
  k ← get
  let ptr = data_of (find_by_id k.pipes pipe_id)
  if ptr == null
      then pure (returns (some error))
      else if greater len max_pipe_len
      then pure (returns (some error))
      else do
        pipe ← load_pipe ptr
        if greater len pipe.len
            then (do
              store_pipe ptr (record pipe { waiters = add_to_list pipe.waiters k.curr_proc len })
              switch_to_next_available_proc (pcb_uc k.curr_proc) (after_pipe_read ptr buf len) false
              pure switched)
            else (do rc ← pipe_read_resumed ptr buf len; pure (returns (some rc)))

-- The first waiter, off the list: it is made ready if there is enough for it, and goes to the end
-- of the list if not. Its node is freed here, and once more at the end of `Yalnix_PipeWrite`.
unfoldable pub serve_waiter : (pipe_ptr : ℕ) → Pipe → ListNode → M (Unit {0})
serve_waiter ptr pipe waiter =
    if waiter.item == null
    then pure tt
    else if greater waiter.id pipe.len
    then (do
      store_pipe ptr (record pipe { waiters = add_to_list pipe.waiters waiter.item waiter.id })
      emit freed_twice)
    else (do
      waiter_proc ← load_proc waiter.item
      make_ready waiter.item waiter_proc.proc_id
      emit freed_twice)

unfoldable pub pipe_write : (pipe_id : ℕ) → (memory : List ℕ) → (len : ℕ) → M ℕ
unfolding serve_waiter
pipe_write pipe_id memory len = do
  k ← get
  let ptr = data_of (find_by_id k.pipes pipe_id)
  if ptr == null then pure error else do
    pipe ← load_pipe ptr
    if greater len (sub_word max_pipe_len pipe.len)
        then pure error
        else if is_negative len || is_negative pipe.len
        then crash
        else do
          let (waiter_node, others) = pop pipe.waiters
          let written : Pipe = record pipe {
            buf = take pipe.len pipe.buf ++ (take len memory ++ drop (pipe.len + len) pipe.buf);
            len = add_word pipe.len len;
            waiters = others;
          }
          store_pipe ptr written
          elim waiter_node [
            | none ↦ pure len
            | some waiter ↦ serve_waiter ptr written waiter >> pure len
          ]
