-- ===== src/Terminal.antt =====
-- The terminals: `Yalnix_TtyWrite` and `Yalnix_TtyRead` of src/syscalls.c, the two terminal traps
-- of src/traps.c. What is handed to `TtyTransmit` is logged; what `TtyReceive` delivers is an
-- argument.
pub mod Lines
use yalnix_operating_system.Base.{
  ℕ, suc, ◌-◌, false, ◌||◌, Option, none, some, List, [], ◌∷◌, ◌++◌, take, drop, length,
  if◌then◌else◌, ◌==◌, ltb, update, null, error, is_negative, greater, sub_word,
}
use yalnix_operating_system.LinkedList.{NodeList, add_to_list, pop, count_items, find_by_id}
use yalnix_operating_system.Kernel.State.{
  Kernel, Text, no_text, text, stray, Buffer, pcb_uc, after_tty_write, after_tty_read, transmitted,
}
use yalnix_operating_system.Kernel.Run.{
  M, Outcome, returns, switched, ◌>>=◌, ◌>>◌, pure, get, put, crash, from, load_proc, store_proc,
  load_tty, store_tty, store_bytes, make_ready, emit,
}
use yalnix_operating_system.Kernel.Switch.{switch_to_next_available_proc}

abbrev pub terminal_max_line : ℕ
terminal_max_line = 1024

-- The length of what one `TtyTransmit` sends.
abbrev pub line_len : ℕ → ℕ
line_len len = if greater len terminal_max_line then terminal_max_line else len

-- `free(write_buf->buf)` of a pointer that `malloc` never returned is a fault.
abbrev pub is_stray : Text → M (Unit {0})
is_stray stray = crash
is_stray _ = pure tt

-- `memory` is what lies in user memory from `buf` on.
unfoldable pub tty_write : (tty_id : ℕ) → (memory : List ℕ) → (len : ℕ) → M Outcome
tty_write tty_id memory len = do
  k ← get
  node ← from (find_by_id k.ttys tty_id)
  tty ← load_tty node.item
  c ← load_proc k.curr_proc
  is_stray c.write_buf.buf
  if is_negative len then crash else do
    store_proc k.curr_proc
        (record c { write_buf = record { buf = text (take len memory); len = len } })
    store_tty node.item (record tty { writers = add_to_list tty.writers k.curr_proc c.proc_id })
    if count_items (add_to_list tty.writers k.curr_proc c.proc_id) == 1
        then emit (transmitted tty_id (take (line_len len) memory))
        else pure tt
    switch_to_next_available_proc (pcb_uc k.curr_proc) (after_tty_write len) false
    pure switched

-- Bytes before the first NUL; `none` if there is no NUL in the buffer, where the C reads on behind it.
abbrev pub strlen : List ℕ → Option ℕ
strlen [] = none
strlen (b ∷ bs) =
    if b == 0 then some 0 else elim (strlen bs) [ none ↦ none | some n ↦ some (suc n) ]

-- The part of `Yalnix_TtyRead` behind the wait, for the buffer at `stored_buf`. To read outside the
-- buffer is a fault, and so is a `memcpy` between areas that overlap, for which its effect is undefined.
unfoldable pub take_line : (tty_ptr buf len stored_buf : ℕ) → M ℕ
take_line ptr buf len stored_buf = if stored_buf == null then pure error else do
  k ← get
  c ← load_proc k.curr_proc
  store_proc k.curr_proc (record c { read_len = 0 })
  line ← from (k.line_at stored_buf)
  if is_negative len || ltb (length line) len then crash else do
    store_bytes buf (take len line)
    stored_buf_chars ← from (strlen line)
    let len_to_store = sub_word stored_buf_chars len
    if greater len_to_store 0
        then (do
          let len' = sub_word len len_to_store
          if is_negative len' || ltb len' len_to_store then crash else do
            tty ← load_tty ptr
            k' ← get
            put (record k' {
              line_at =
                  update k'.line_at stored_buf
                    (some (take len_to_store (drop len' line) ++ drop len_to_store line));
            })
            store_tty ptr (record tty { buffers = add_to_list tty.buffers stored_buf 0 })
            pure len')
        else pure len

-- What runs once the trap has made the reader ready.
unfoldable pub tty_read_resumed : (tty_ptr buf len : ℕ) → M ℕ
tty_read_resumed ptr buf len = do
  tty ← load_tty ptr
  let (node, others) = pop tty.buffers
  buf_node ← from node
  store_tty ptr (record tty { buffers = others })
  take_line ptr buf len buf_node.item

-- `junk` is what the local variable `stored_buf` holds before it is set, which a buffer that is
-- there at once leaves it at.
unfoldable pub tty_read : (junk tty_id buf len : ℕ) → M Outcome
tty_read junk tty_id buf len = do
  k ← get
  node ← from (find_by_id k.ttys tty_id)
  tty ← load_tty node.item
  let (buf_node, others) = pop tty.buffers
  elim buf_node [
    | some b ↦ do
      store_tty node.item (record tty { buffers = others })
      rc ← take_line node.item buf len junk
      pure (returns (some rc))
    | none ↦ do
      c ← load_proc k.curr_proc
      store_proc k.curr_proc (record c { read_len = len })
      store_tty node.item (record tty { readers = add_to_list tty.readers k.curr_proc c.proc_id })
      switch_to_next_available_proc (pcb_uc k.curr_proc) (after_tty_read node.item buf len) false
      pure switched
  ]

-- The readers that a line of `len` bytes wakes; those that go on waiting.
unfoldable pub wake_readers : NodeList → (len : ℕ) → M NodeList
wake_readers [] len = pure []
wake_readers (n ∷ ns) len =
    if greater len 0
    then (do
      waiter ← load_proc n.item
      make_ready n.item 0
      wake_readers ns (sub_word len waiter.read_len))
    else pure (n ∷ ns)

-- `received` is the line that `TtyReceive` delivers, `junk` what the new buffer held before.
unfoldable pub handle_trap_tty_receive : (fresh id : ℕ) → (received junk : List ℕ) → M (Unit {0})
handle_trap_tty_receive fresh id received junk = do
  k ← get
  node ← from (find_by_id k.ttys id)
  tty ← load_tty node.item
  if fresh == null then crash else do
    put (record k {
      line_at = update k.line_at fresh (some (received ++ drop (length received) junk));
    })
    waiting ← wake_readers tty.readers (length received)
    store_tty node.item
        (record tty { buffers = add_to_list tty.buffers fresh 0; readers = waiting })

-- What `TtyTransmit` finds behind a `write_buf`; `wild` is what lies where a stray pointer points.
abbrev pub bytes_at : (wild : List ℕ) → Text → M (List ℕ)
bytes_at wild no_text = crash
bytes_at wild (text bytes) = pure bytes
bytes_at wild stray = pure wild

-- The next writer, once one is done: its first line is sent.
unfoldable pub start_next : (wild : List ℕ) → (tty_ptr : ℕ) → M (Unit {0})
start_next wild ptr = do
  tty ← load_tty ptr
  elim tty.writers [
    | [] ↦ pure tt
    | next ∷ others ↦ do
      store_tty ptr (record tty { writers = add_to_list others next.item 0 })
      c ← load_proc next.item
      bytes ← bytes_at wild c.write_buf.buf
      emit (transmitted tty.id (take (line_len c.write_buf.len) bytes))
  ]

unfoldable pub handle_trap_tty_transmit : (wild : List ℕ) → (id : ℕ) → M (Unit {0})
handle_trap_tty_transmit wild id = do
  k ← get
  node ← from (find_by_id k.ttys id)
  tty ← load_tty node.item
  let (popped, others) = pop tty.writers
  writer_node ← from popped
  let writer = writer_node.item
  c ← load_proc writer
  let remaining_msg_len = sub_word c.write_buf.len terminal_max_line
  if greater remaining_msg_len 0
      then (do
        store_proc writer (record c { write_buf = record { buf = stray; len = remaining_msg_len } })
        store_tty node.item (record tty { writers = add_to_list others writer 0 })
        emit (transmitted tty.id (take (line_len remaining_msg_len) wild)))
      else (do
        store_tty node.item (record tty { writers = others })
        make_ready writer c.proc_id
        start_next wild node.item)
