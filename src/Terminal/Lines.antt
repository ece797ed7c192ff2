-- ===== src/Terminal/Lines.antt =====
-- What the terminal traps and reads do with the lines.
use yalnix_operating_system.Base.{
  ℕ, ◌-◌, ◌+◌, ◌≤◌, ◌<◌, ◌≡◌, ◌≢◌, refl, some, List, [], ◌∷◌, ◌++◌, arith, take, drop, length,
  update, null,
}
use yalnix_operating_system.LinkedList.{ListNode, NodeList, node, add_to_list, find_by_id}
use yalnix_operating_system.Kernel.State.{Kernel, Pcb, Tty, text, bytes_stored, transmitted}
use yalnix_operating_system.Kernel.Run.{ok}
use yalnix_operating_system.Terminal.{
  terminal_max_line, strlen, take_line, start_next, handle_trap_tty_transmit,
}

-- A process that waits to write a text of at most a line.
pub record Writes (k : Kernel) (p : ℕ) (bytes : List ℕ) : Type 0 where
  pub pcb : Pcb
  pub exists : k.procs p ≡ some pcb
  pub has_text : pcb.write_buf.buf ≡ text bytes
  pub line : pcb.write_buf.len ≡ length bytes
  pub short : length bytes ≤ terminal_max_line

-- The terminal trap of a writer `w` whose text is out, with the writers `n` and `ns` behind it.
pub tty_transmit_lem :
    (k : Kernel) (wild : List ℕ) (id : ℕ) (at w n : ListNode) (ns : NodeList) (t : Tty)
    (text_w text_n : List ℕ)
    → find_by_id k.ttys id ≡ some at
    → k.tty_at at.item ≡ some t
    → t.writers ≡ w ∷ n ∷ ns
    → (c : Writes k w.item text_w) → Writes k n.item text_n
    → handle_trap_tty_transmit wild id k
      ≡ ok tt (record k {
        tty_at =
            update
              (update k.tty_at at.item (some (record t { writers = n ∷ ns })))
              at.item
              (some (record t { writers = add_to_list ns n.item 0 }));
        ready_procs = add_to_list k.ready_procs w.item c.pcb.proc_id;
        log = transmitted t.id (take (length text_n) text_n) ∷ k.log;
      })
unfolding handle_trap_tty_transmit start_next
tty_transmit_lem k wild id at w n ns t text_w text_n f g h c d =
    ground (arith, c.exists, c.has_text, c.line, c.short, d.exists, d.has_text, d.line, d.short)

module _ (k : Kernel) (ptr buf len stored chars : ℕ) (line : List ℕ) (c : Pcb) (t : Tty)
    (not_null : stored ≢ null) (running : k.procs k.curr_proc ≡ some c)
    (stored_line : k.line_at stored ≡ some line) (found : k.tty_at ptr ≡ some t)
    (text_len : strlen line ≡ some chars) (fits : len ≤ length line)
    (small : length line ≤ terminal_max_line) where
  abbrev handed_over : Kernel
  handed_over = record k {
    procs = update k.procs k.curr_proc (some (record c { read_len = 0 }));
    log = bytes_stored k.curr_proc buf (take len line) ∷ k.log;
  }

  -- A read of at least as many bytes as the line has returns the number it asked for, not the number of
  -- bytes that there are, and stores what lies in the buffer up to there.
  pub take_line_whole : chars ≤ len → take_line ptr buf len stored k ≡ ok len handed_over
  unfolding take_line
  take_line_whole whole = ground arith

  -- A terminal read of `len` bytes from a line of `chars`, with len < chars, 2 chars <= 3 len, so
  -- that the areas of the second `memcpy` do not overlap, and a buffer of at most 1024 bytes that
  -- holds the line, stores `len` bytes but returns 2 len - chars, and puts the buffer back with
  -- the text from position 2 len - chars, not from `len`, on.
  pub take_line_part :
      len < chars
      → chars + chars ≤ len + len + len
      → chars ≤ length line
      → take_line ptr buf len stored k
        ≡ ok (len + len - chars) (record handed_over {
          line_at = update k.line_at stored (
              some (take (chars - len) (drop (len + len - chars) line) ++ drop (chars - len) line));
          tty_at =
              update k.tty_at ptr (some (record t { buffers = add_to_list t.buffers stored 0 }));
        })
  unfolding take_line
  take_line_part more half whole = ground arith

-- If three processes wait to write texts of at most a line each, two transmit traps in a row send
-- the second one's text twice and make the first and the third ready, though nothing of the third
-- one's text is sent.
pub tty_transmit_skips :
    (k : Kernel) (wild : List ℕ) (id : ℕ) (at w b c : ListNode) (t : Tty)
    (text_w text_b text_c : List ℕ)
    → find_by_id k.ttys id ≡ some at
    → k.tty_at at.item ≡ some t
    → t.writers ≡ w ∷ b ∷ c ∷ []
    → (x : Writes k w.item text_w) → (y : Writes k b.item text_b) → (z : Writes k c.item text_c)
    → (k₁ k₂ : Kernel) × (handle_trap_tty_transmit wild id k ≡ ok tt k₁)
      × (handle_trap_tty_transmit wild id k₁ ≡ ok tt k₂)
      × (k₂.ready_procs
          ≡ add_to_list (add_to_list k.ready_procs w.item x.pcb.proc_id) c.item z.pcb.proc_id)
      × (k₂.log
          ≡ transmitted t.id (take (length text_b) text_b)
            ∷ transmitted t.id (take (length text_b) text_b)
            ∷ k.log)
tty_transmit_skips k wild id at w b c t text_w text_b text_c f g h x y z =
    let k₁ : Kernel = record k {
      tty_at =
          update (update k.tty_at at.item (some (record t { writers = b ∷ c ∷ [] }))) at.item
            (some (record t { writers = add_to_list (c ∷ []) b.item 0 }));
      ready_procs = add_to_list k.ready_procs w.item x.pcb.proc_id;
      log = transmitted t.id (take (length text_b) text_b) ∷ k.log;
    } in
    let t₁ : Tty = record t { writers = c ∷ node 0 b.item ∷ [] } in
    let z₁ : Writes k₁ c.item text_c = record {
      pcb = z.pcb;
      exists = z.exists;
      has_text = z.has_text;
      line = z.line;
      short = z.short;
    } in
    let y₁ : Writes k₁ b.item text_b = record {
      pcb = y.pcb;
      exists = y.exists;
      has_text = y.has_text;
      line = y.line;
      short = y.short;
    } in
    (
      k₁,
      _,
      tty_transmit_lem k wild id at w b (c ∷ []) t text_w text_b f g h x y,
      tty_transmit_lem k₁ wild id at c (node 0 b.item) [] t₁ text_c text_b f (ground arith) refl z₁
          y₁,
      refl,
      refl,
    )
