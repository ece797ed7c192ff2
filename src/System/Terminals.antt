-- ===== src/System/Terminals.antt =====
-- The terminal calls and traps leave the tables alone.
use yalnix_operating_system.Base.{
  ℕ, Bool, true, false, some, ◌≡◌, List, [], ◌∷◌, arith, ◌==◌, if◌then◌else◌, is_negative, take,
  update, subst, ◌∙◌,
}
use yalnix_operating_system.LinkedList.{NodeList, add_to_list, count_items, find_by_id}
use yalnix_operating_system.Kernel.State.{
  Kernel, Pcb, Tty, Event, transmitted, Text, no_text, text, stray, pcb_uc, after_tty_write,
}
use yalnix_operating_system.Kernel.Run.{
  M, ok, and_then-eq-ok, from-eq-ok, Outcome, switched, ◌>>◌, pure, from, emit, crash, load_proc,
  store_proc, load_tty, store_tty,
}
use yalnix_operating_system.Kernel.Switch.{switch_to_next_available_proc}
use yalnix_operating_system.System.Tables.{
  SameTables, SameTables-trans, Keeps, bind-Keeps, pure-Keeps, if-Keeps,
  switch_to_next_available_proc-Keeps,
}
use yalnix_operating_system.Terminal.{
  tty_write, is_stray, line_len, take_line, tty_read_resumed, tty_read, wake_readers,
  handle_trap_tty_receive, start_next, handle_trap_tty_transmit,
}

is_stray-eq-ok : (t : Text) {k k' : Kernel} → is_stray t k ≡ ok tt k' → k' ≡ k
is_stray-eq-ok no_text e = ground arith
is_stray-eq-ok (text b) e = ground arith
is_stray-eq-ok stray e = cc

module _ (at : ℕ) where
  -- The end of a terminal write by process `proc`, with `count` writers in the queue.
  abbrev tty_write_end : (id : ℕ) (memory : List ℕ) (len count proc : ℕ) → M Outcome
  tty_write_end id memory len count proc = do
    if count == 1 then emit (transmitted id (take (line_len len) memory)) else pure tt
    switch_to_next_available_proc (pcb_uc proc) (after_tty_write len) false
    pure switched

  tty_write_end-Keeps :
      (id : ℕ) (memory : List ℕ) (len count proc : ℕ)
      → Keeps at (tty_write_end id memory len count proc)
  tty_write_end-Keeps id memory len count proc =
      let line : Event = transmitted id (take (line_len len) memory) in
      bind-Keeps at (if count == 1 then emit line else pure tt) _
        (if-Keeps at (count == 1) (emit line) (pure tt) (λ k a k' h. ground arith)
          (pure-Keeps at tt))
        (λ _.
          bind-Keeps at (switch_to_next_available_proc (pcb_uc proc) (after_tty_write len) false) _
            (switch_to_next_available_proc-Keeps at (pcb_uc proc) (after_tty_write len) false)
            (λ _. pure-Keeps at switched))

  tty_store-Keeps :
      (negative : Bool) (id : ℕ) (memory : List ℕ) (len ptr proc : ℕ) (tty : Tty) (c : Pcb)
      (k : Kernel) (a : Outcome) (k' : Kernel)
      → k.procs proc ≡ some c
      → (if negative then crash else do
        store_proc proc
            (record c { write_buf = record { buf = text (take len memory); len = len } })
        store_tty ptr (record tty { writers = add_to_list tty.writers proc c.proc_id })
        tty_write_end id memory len (count_items (add_to_list tty.writers proc c.proc_id)) proc)
          k
        ≡ ok a k'
      → SameTables at k k'
  tty_store-Keeps true id memory len ptr proc tty c k a k' here h = cc
  tty_store-Keeps false id memory len ptr proc tty c k a k' here h =
      let writers : NodeList = add_to_list tty.writers proc c.proc_id in
      let k₁ : Kernel = record k {
        procs =
            update k.procs proc
              (some (record c { write_buf = record { buf = text (take len memory); len = len } }));
        tty_at = update k.tty_at ptr (some (record tty { writers = writers }));
      } in
      SameTables-trans at {k₁ = k₁} (ground arith)
        (tty_write_end-Keeps id memory len (count_items writers) proc k₁ a k' h)

  pub tty_write-Keeps : (id : ℕ) (memory : List ℕ) (len : ℕ) → Keeps at (tty_write id memory len)
  unfolding tty_write
  tty_write-Keeps id memory len k a k' h =
      let (node, k₁, e₁, h₁) = and_then-eq-ok (from (find_by_id k.ttys id) k) _ h in
      let (tty, k₂, e₂, h₂) = and_then-eq-ok (load_tty node.item k₁) _ h₁ in
      let (c, k₃, e₃, h₃) = and_then-eq-ok (load_proc k.curr_proc k₂) _ h₂ in
      let (_, k₄, e₄, h₄) = and_then-eq-ok (is_stray c.write_buf.buf k₃) _ h₃ in
      let (_, s₁) = from-eq-ok (find_by_id k.ttys id) e₁ in
      let (_, s₂) = from-eq-ok (k₁.tty_at node.item) e₂ in
      let (here, s₃) = from-eq-ok (k₂.procs k.curr_proc) e₃ in
      let s₄ : k₄ ≡ k₃ = is_stray-eq-ok c.write_buf.buf e₄ in
      let there : k₄.procs k.curr_proc ≡ some c = rw s₄ (rw s₃ here) in
      subst (λ s. SameTables at s k') (s₄ ∙ s₃ ∙ s₂ ∙ s₁)
        (tty_store-Keeps (is_negative len) id memory len node.item k.curr_proc tty c k₄ a k' there
          h₄)

  pub take_line-Keeps : (ptr buf len stored : ℕ) → Keeps at (take_line ptr buf len stored)
  unfolding take_line
  take_line-Keeps ptr buf len stored k a k' h = ground arith

  pub tty_read_resumed-Keeps : (ptr buf len : ℕ) → Keeps at (tty_read_resumed ptr buf len)
  unfolding tty_read_resumed
  tty_read_resumed-Keeps ptr buf len k a k' h = grind (arith, take_line-Keeps)

  pub tty_read-Keeps : (junk id buf len : ℕ) → Keeps at (tty_read junk id buf len)
  unfolding tty_read
  tty_read-Keeps junk id buf len k a k' h =
      grind (arith, (switch_to_next_available_proc-Keeps at), take_line-Keeps)

  pub wake_readers-Keeps : (ns : NodeList) (len : ℕ) → Keeps at (wake_readers ns len)
  unfolding wake_readers
  wake_readers-Keeps [] len k a k' h = ground arith
  wake_readers-Keeps (n ∷ ns) len k a k' h = grind (arith, wake_readers-Keeps ns)

  pub handle_trap_tty_receive-Keeps :
      (fresh id : ℕ) (received junk : List ℕ)
      → Keeps at (handle_trap_tty_receive fresh id received junk)
  unfolding handle_trap_tty_receive
  handle_trap_tty_receive-Keeps fresh id received junk k a k' h = grind (arith, wake_readers-Keeps)

  pub start_next-Keeps : (wild : List ℕ) (ptr : ℕ) → Keeps at (start_next wild ptr)
  unfolding start_next
  start_next-Keeps wild ptr k a k' h = ground arith

  pub handle_trap_tty_transmit-Keeps :
      (wild : List ℕ) (id : ℕ) → Keeps at (handle_trap_tty_transmit wild id)
  unfolding handle_trap_tty_transmit
  handle_trap_tty_transmit-Keeps wild id k a k' h = grind (arith, start_next-Keeps)
